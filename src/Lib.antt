-- ===== src/Lib.antt =====
-- The LiteArm maintenance driver: the lifecycle node that gives ROS 2 clients the commands of the
-- LiteArm SDK (litearm_driver/src, litearm_driver/include/litearm_driver).
--
-- The node keeps one SDK session. `on_configure` opens it, `on_activate` enables the motors and
-- advertises 55 services, and each service handler checks its request with the gates, makes at most
-- one SDK call (reconnect makes two) and writes what came of it into the response. A timer publishes
-- the status from the last frame that the SDK cached, another one the diagnostics.
--
-- Which file models which part:
--   Gates: safety_gates.cpp, one function for each `check_` function, with its text in Messages.
--     `check_finite_values_of` is the overload with an expected length. FileName: where a log file
--     lands, by the components of POSIX paths.
--   Double: C++ doubles, exactly. Sdk: the interface of `litearm::Arm`.
--   Node: the members of `LitearmDriverNode`, and service_helpers.hpp. A handler is a function on the
--     response and the node. `gated` is the early return behind a gate, `command` is `run_command`
--     with a lambda that makes one SDK call, `tell` is the same when the answer is not used, and
--     `on_success` the text that is appended when the call succeeded.
--   Safety, Config, Status, Lifecycle: the sections of litearm_driver_node.cpp; Motion, Model and
--     Diagnostics: the file of that name. `handle_x` is `LitearmDriverNode::handle_x`.
--     Lifecycle/Services: how a service is registered, and the names of all, in their order.
--     Lifecycle/Axes: the names of the joints.
--   Service: the table of `create_service_servers`, from a request to its handler. Service/Spec says
--     what each request asks for, apart from the handlers: `Admits` is the condition and `intended` the
--     outcome. Node/Effect has the pieces of both, and the Effect file of each group of services the
--     lemma for each of them, which Service/Refines puts together. The Footprint files are about what
--     is left alone, Node/Answer and Service/Answers about what the responses hold, and
--     Service/ReadBack about a register that is written and read back.
--   System: the node over time. An event is a transition of the managed lifecycle, a request, a tick
--     of the status timer or a write of the parameters. A tick of the diagnostics timer is none, as
--     it changes nothing. System/Cases is the induction principle of an event. Its other files: the
--     phases (Invariant), the calls (Grounds, which gives each its reason in the event and the phase,
--     Calls, Consent, Stopping, and Replay, which holds the trace of the calls against the session), the
--     caches (Cached), the status timer (Reporting), and how a run starts, pauses and ends (Startup,
--     Restart, Ending; Lifecycle/Fresh).
--   Executor: `main`, and the callback groups of the constructor, of the services and of the timers:
--     what can overlap (Exclusion, Order), what has to wait (Waiting), and the session closed under a
--     handler (Lifetime). Order and Waiting sort the callbacks by what they are for, `kind_of`, and not
--     by the group that they were put in.
--   Policy: what must hold of the node when a service makes an SDK call, written once for all calls
--     and apart from the handlers. Its entry for `commit` is what the handler does, not what its
--     message says.
--   Tests: a simulated device, the theorems on runs against it (Handlers, Callbacks, Runs, Services,
--     Executors), and the expectations of the repository's own tests, which were written without the
--     model: SafetyGates is litearm_driver/test/test_safety_gates.cpp, and DriverNode, with the arm of
--     Fake, is litearm_driver/test/test_litearm_driver.cpp.
--
-- The SDK is not part of the repository. It is the record `Sdk` over any type of sessions: a call may
-- return or throw, with any answer and any new session, and no theorem assumes more, but that of
-- Service/ReadBack, which is about the devices that keep what is written to them. The field `issued` of
-- the node is the list of the calls made so far; the source has no such field. One field of `Sdk` is
-- rclcpp's and not the SDK's: which strings it takes as the name of a topic. For another one
-- `create_publisher` throws, which ends `on_configure`. The order
-- of the lifecycle callbacks, that ERROR is followed by `on_error`, and that an exception which leaves a
-- callback counts as ERROR, is the documented behaviour of ROS 2 managed nodes.
--
-- System is about the runs in which no two callbacks overlap. The handlers and the timers share one
-- mutually exclusive group, but the transitions and the parameter services are in the node's default
-- group, and the executor of `main` has several threads; Executor is about what may overlap, and
-- Executor/Lifetime, with the SDK call as one step between its start and its end, about a handler whose
-- session is closed under it.
--
-- Numbers: a request's integers are ℕ or ℤ in the range of their message type; the casts of the source
-- to int32, uint16 and uint8 are written out. No definition runs on fuel: every loop is a recursion on
-- the list or the number that it counts.
--
-- Not modelled: log lines, the middleware and its quality of service, the executor's choice of the
-- next callback, launch files, time (a callback is given the time and the ages that it reads), the
-- text of a double, exceptions of the accessors of the SDK that only read the host's side of a
-- session, and exceptions of rclcpp other than that for the name of a topic, such as that of
-- `create_wall_timer` for a positive rate that is so small (about 1e-10 Hz) that the period does not fit.
pub mod Prelude
pub mod Double
pub mod Sdk
pub mod Gates
pub mod Node
pub mod Motion
pub mod Policy
pub mod Safety
pub mod Config
pub mod Model
pub mod Diagnostics
pub mod Status
pub mod Lifecycle
pub mod Service
pub mod System
pub mod Executor
pub mod Tests
