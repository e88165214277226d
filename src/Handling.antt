-- ===== src/Handling.antt =====
-- What runs around a handler: exception mapping (python/oxbrook/_errors.py), the middleware chain
-- (_middleware.py), and how `App._layer` and `App._compose` (_app.py) put them together.
--
-- A handler takes a request and the state of the world, and gives the new state and an outcome. An
-- exception carries the classes of its method resolution order, as numbers. Path parameters are
-- part of the handler.
pub mod Exceptions
pub mod Middleware
pub mod Finding
pub mod Compose
pub mod Mapped
pub mod Order
pub mod Problems
mod Tests
