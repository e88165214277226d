-- ===== src/Routers.antt =====
-- Routers, python/oxbrook/_routers.py: declaring routes, and flattening a tree of routers into the
-- routes and the static mounts of an app. `route_shape` is of python/oxbrook/_routing.py.
--
-- A router is an object that others refer to, so routers live in a store and are known by numbers;
-- two includes of one router are two references. Functions that the user wrote, policies and limits
-- are numbers too. `builds` stands for what `build_route` accepts: a handler on a path.
pub mod Shape
pub mod Declare
pub mod Flatten
pub mod Fuel
mod Tests
