-- ===== src/Executor.antt =====
-- How callbacks run at the same time: the callback groups that the constructor, `register_service`,
-- `create_service_servers` and `start_timers` choose (litearm_driver/src/litearm_driver_node.cpp,
-- litearm_driver/include/litearm_driver/litearm_driver_node.hpp), under the executor of
-- litearm_driver/src/litearm_driver_main.cpp. What an executor does with groups is the documented
-- behaviour of rclcpp.
pub mod Exclusion
pub mod Order
pub mod Lifetime
pub mod Waiting
use litearm_ros.Prelude.{
  if◌then◌else◌, ℕ, ◌+◌, ◌<◌, Bool, true, false, List, [], ◌∷◌, ◌++◌, ◌≡◌, length,
}
use litearm_ros.Service.{Request}

pub data CallbackGroupType : Type 0 where
  mutually_exclusive reentrant : CallbackGroupType

-- The group that the node creates, and the one that rclcpp gives to what the node puts in none.
pub data Group : Type 0 where
  sdk_group default_group : Group

pub data Transition : Type 0 where
  to_configure to_activate to_deactivate to_cleanup to_shutdown : Transition

-- What the executor calls: a service's handler, a timer's, a transition of the managed lifecycle, or a
-- write of the parameters.
pub data Callback : Type 0 where
  service : Request → Callback
  status_timer diagnostics_timer : Callback
  transition : Transition → Callback
  parameter_write : Callback

-- `create_callback_group` of the constructor.
abbrev pub sdk_group_type : CallbackGroupType
sdk_group_type = mutually_exclusive

-- A node's default group is mutually exclusive.
abbrev pub group_type : Group → CallbackGroupType
group_type sdk_group = sdk_group_type
group_type default_group = mutually_exclusive

-- The group that `register_service` names for every service, and `create_service_servers` for those that
-- it creates itself.
abbrev pub service_group : Request → Group
service_group request = sdk_group

-- The group that `start_timers` names for both timers.
abbrev pub timer_group : Group
timer_group = sdk_group

-- The transitions and the parameter services are the base class's own: the node names no group for them.
abbrev pub group_of : Callback → Group
group_of (service request) = service_group request
group_of status_timer = timer_group
group_of diagnostics_timer = timer_group
group_of (transition t) = default_group
group_of parameter_write = default_group

pub data ExecutorKind : Type 0 where
  single_threaded multi_threaded : ExecutorKind

-- The executor that `main` spins.
abbrev pub main_executor : ExecutorKind
main_executor = multi_threaded

-- Of how many threads an executor makes use.
abbrev pub threads_of : ExecutorKind → ℕ → ℕ
threads_of single_threaded threads = 1
threads_of multi_threaded threads = threads

abbrev pub same_group : Group → Group → Bool
same_group sdk_group sdk_group = true
same_group default_group default_group = true
same_group _ _ = false

-- How many of the callbacks are in the group.
unfoldable pub count_in : Group → List Callback → ℕ
count_in g [] = 0
count_in g (c ∷ running) = (if same_group g (group_of c) then 1 else 0) + count_in g running

-- A mutually exclusive group has room for one callback at a time.
abbrev pub HasRoom : CallbackGroupType → ℕ → Type 0
HasRoom mutually_exclusive busy = busy ≡ 0
HasRoom reentrant busy = Unit

-- What is seen of an executor: a callback starts, or it ends.
pub data Mark : Type 0 where
  started ended : Callback → Mark

-- From the callbacks that run to those that run next: one starts on a free thread, or one ends.
pub data Step (threads : ℕ) : Mark → List Callback → List Callback → Type 0 where
  starts :
      (c : Callback) (running : List Callback)
      → length running < threads_of main_executor threads
      → HasRoom (group_type (group_of c)) (count_in (group_of c) running)
      → Step threads (started c) running (c ∷ running)
  ends :
      (before : List Callback) (c : Callback) (after : List Callback)
      → Step threads (ended c) (before ++ c ∷ after) (before ++ after)

-- What an executor did, the latest first, and the callbacks that it runs.
pub data Runs (threads : ℕ) : List Mark → List Callback → Type 0 where
  quiet : Runs threads [] []
  next :
      {trace : List Mark} {running later : List Callback} (mark : Mark)
      → Runs threads trace running
      → Step threads mark running later
      → Runs threads (mark ∷ trace) later
