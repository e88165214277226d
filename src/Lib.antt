-- ===== src/Lib.antt =====
-- A verification of the core of oxbrook, a web framework whose handlers run in Python on worker
-- loops of a Rust server. The development is about the Python package, python/oxbrook.
--
-- The parts and how they meet:
--   Streams    `Topic` and `Subscription` (python/oxbrook/_streams.py). A topic fans a message out
--              to bounded buffers, each with an overflow policy. A durable topic appends to a Redis
--              stream first, and a tail gives every process its entries; a subscription may resume
--              from a position, replay the stream, and go over to the tail.
--   Sse        `format_event` (python/oxbrook/_sse.py): how what a subscription hands out is sent.
--   Limits     `RateLimit`, the budget shared through Redis, and the refusal
--              (python/oxbrook/_limits.py).
--   Routers    `Router` (python/oxbrook/_routers.py) and `route_shape` (_routing.py): declaration of
--              routes, and the tree of routers made flat.
--   Handling   `find`, `register`, `guard` (python/oxbrook/_errors.py), `wrap` and `merge`
--              (_middleware.py), and `App._layer`, `_compose`, `_tool_target` (_app.py): what runs
--              around a handler, in which order.
--   Mcp        `Feed`, `Session`, `Sessions` (python/oxbrook/_mcp.py): the agents that follow topics,
--              each through a feed, their sessions, and the registry of sessions.
--   Health     the probes (python/oxbrook/_health.py): their options, their checks, and the verdict.
--   Lifecycle  the lifespans around a server and its workers (python/oxbrook/_lifecycle.py).
--   Auth       declarations and gates (python/oxbrook/_auth.py), and of auth.py sessions
--              and forged requests, credentials in headers, claims in tokens, the memory of
--              verified tokens, and the tickets for sockets.
--   Oidc       the signing keys of an OpenID provider (python/oxbrook/_jwks.py), with which tokens are
--              verified; when they change, the memory of tokens is emptied.
--   Dependencies  `Depends` (python/oxbrook/_depends.py): what a handler is given, and its teardown.
--   Cookies    sessions in signed cookies (python/oxbrook/_sessions.py): a dependency loads one, a
--              middleware writes it back.
--   Login      logging in through an OpenID provider (python/oxbrook/_login.py), in such a session.
--   Durable    a member of a consumer group (python/oxbrook/_redis.py).
--   Prelude    names of the libraries, tests on numbers, lists, texts, and Python's exceptions.
--
-- State and operations. An object is a record with the fields of its Python attributes, and a method
-- is a function from the state to the new state and the outcome; an exception is a value. What runs
-- under a lock is one step; a coroutine is cut at its awaits, and each stretch is a step. The future
-- that a stretch awaits is a number. Steps in any order are lists of calls (Streams/Runs,
-- Mcp/Calls) or a relation (Streams/Resume/Invariant).
--   Streams/Subscription  `_put`, `_try_offer`, `_offer`, `close`     put, try_offer, offer_round, close
--   Streams/Reader        `_prune`, `_replayed`, `__anext__`          prune, replay_round, next
--   Streams/Topic         `subscribe`, `_remove`, `emit`,             subscribe, remove, emit_local,
--                         `emit_nowait`, `_fan_out`, `close`          emit_nowait, fan_out, close_topic
--   Streams/Resume        `_pump` with a resumed reader               Step
--   Sse, Sse/Lines        `format_event`, `_field`, `LINE_BREAK`      format_event, check_field, split_lines
--   Limits                `RateLimit`, `_GCRA`, `Shared.take`,        limit, gcra, take, spend_shared,
--                         `spend_shared`, `refused`                   retry_after
--   Routers/Declare       `_declare`, `include`, `static`             declare, include, static
--   Routers/Flatten       `_flatten`, `_mounts`                       flatten, mounts
--   Handling/Exceptions   `find`, `register`, `guard`                 find, register, guard
--   Handling/Problems     `HTTPError`, `problem`                  http_error, problem
--   Handling/Middleware   `as_reply`, `_link`, `wrap`, `merge`        as_reply, link, wrap, merge
--   Handling/Compose      `_layer`, `_compose`, `_tool_target`        layer, compose, tool_target
--   Mcp/Feed, Mcp/Session the methods of `Feed` and `Session`         take, pump, post, close_session
--   Health                `Health.check`, `Health.evaluate`         check, evaluate
--   Lifecycle             `Lifecycle`, `ServerHandle.serve`          start_process, start_worker, serve
--   Lifecycle/Balance     the workers of `run` in src/server.rs    workers
--   Auth/Policy           `|`, `requires`, `optional`, `plan`,          combine, make_optional, plan,
--                         `presentable`                               presentable
--   Auth/Gate             `Gate.__call__`, `spend`, `forbidden`,      call, charge, refuse, permits
--                         `permits`
--   Auth/Session          `SessionAuth.authenticate`, `_forged`     authenticate, forged
--   Auth/Credentials      `Bearer`, `APIKey`, `Basic`                bearer, api_key, basic
--   Auth/Claims           `_names`, `_principal`                     names, principal
--   Auth/Algorithms       `JWT.__init__`                            create_jwt
--   Auth/Tokens           `_Signed.check`, `_remember`                check, remember
--   Auth/Tickets          `Tickets.issue`, `authenticate`             issue, authenticate
--   Oidc/Keys             `_parse`, `_pick`                           parse, pick, use_entry
--   Oidc/KeySet           `_start`, `_fetch`, `_discover`, `find`,    start, fetch, complete, find,
--                         `load`                                    load
--   Dependencies          `_resolve`, `_async_exit`, `bind`           resolve, finish, unwind, bind
--   Cookies               `encode`, `decode`, `load`, `middleware`    encode, decode, load, middleware
--   Login/Begin, Finish   `_local`, `_pending`, `_begin`, `_finish`   local, pending, begin, finish
--   Durable               `_absorb`, `_fill`, `__anext__`             absorb, fill, next
--   Mcp/Registry          the methods of `Sessions`                   create_session, get, sweep, ...
--
-- Numbers. Times, counts and ids are natural numbers: the shared budget counts in microseconds as its
-- script does, a limit's interval is in nanoseconds, and a session's clock is in a unit in which the
-- time that it may be idle is whole. Two differences are cut off at 0: in `_GCRA` no difference is
-- below 0, and in `_expired` one below 0 expires nothing, like 0. A text is the list of its code points.
--
-- Fuel. The loop of `__anext__` runs on fuel, and more than the messages in the buffer is enough; the
-- flattening of routers runs on fuel, and as much as there are routers is enough; the oldest logins
-- are dropped on fuel, and as much as there are logins is enough. All three are proved. Dependencies
-- are resolved on the levels of nesting that the code allows. All other loops are structural.
--
-- Parameters. Redis is a list that grows at its end by rising ids, and a page of its history any first
-- part of what it still holds and is newer than a position. Publishing trims a stream, to about ten
-- thousand entries by default: the steps of Streams/Resume are those where an entry is trimmed only
-- after the replay and the tail have read it. Its
-- script runs alone; a consumer group's replies are any.
-- What `build_route` accepts, what a scheme finds and a check says, what a call of a dependency gives,
-- what a request drops after a failure, and how a check ends on a loop are functions that the theorems
-- leave open. So are JSON, base64, HMAC, PyJWT and the network, with the laws named where they are
-- used. The regular expressions of limits and random ids are the libraries'.
--
-- Not modelled: the retries of a tail that lost its connection, what Redis keeps of a consumer group,
-- the presets of logins and logging out, the hand-off of sockets, the binding of signatures and bodies,
-- telemetry, the command line, and the Rust server but for the run of its workers.
pub mod Prelude
pub mod Streams
pub mod Sse
pub mod Limits
pub mod Routers
pub mod Mcp
pub mod Handling
pub mod Health
pub mod Lifecycle
pub mod Auth
pub mod Dependencies
pub mod Oidc
pub mod Cookies
pub mod Durable
pub mod Login
