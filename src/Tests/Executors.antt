-- ===== src/Tests/Executors.antt =====
-- Callbacks that meet, and callbacks that do not.
use litearm_ros.Prelude.{List, [], ◌∷◌, ◌≡◌, refl, arith}
use litearm_ros.Service.{Request}
use litearm_ros.Executor.{
  Callback, default_group, service_group, service, transition, to_shutdown, to_configure, Mark,
  started, Runs, Step, starts, next, quiet, count_in,
}
use litearm_ros.Executor.Exclusion.{transition_overlaps}
use litearm_ros.Executor.Waiting.{starts_when_idle}
use litearm_ros.Executor.Order.{device_work, Serially, callbacks_are_serial}
use litearm_ros.Executor.Lifetime.{
  Threads, Interleaves, IsDangling, connected_start, lifetime_needs_one_group,
}

abbrev stop : Callback
stop = service Request.emergency_stop

configuring : Runs 2 (started (transition to_configure) ∷ []) (transition to_configure ∷ [])
unfolding count_in
configuring =
    next (started (transition to_configure)) quiet
      (starts (transition to_configure) [] (omega arith) refl)

-- The node is shut down while the arm is on its way home.
abbrev so_far : List Mark
so_far = started (transition to_shutdown) ∷ started (service Request.home) ∷ []

abbrev both : List Callback
both = transition to_shutdown ∷ service Request.home ∷ []

overlapping : Runs 2 so_far both
overlapping = transition_overlaps 2 Request.home to_shutdown (omega arith)

sole_handler : service Request.home ∷ [] ≡ [] → ⊥
sole_handler e = absurd cc

-- A stop cannot start while the arm is on its way home, whatever else runs.
stop_barred : (later : List Callback) × Step 4 (started stop) both later → ⊥
stop_barred found =
    let running : Runs 4 so_far both =
      transition_overlaps 4 Request.home to_shutdown (omega arith) in
    absurd (sole_handler ((starts_when_idle 4 so_far both stop (omega arith) running).0 found))

-- A stop can start while the node configures.
starts_when_idle_example :
    (later : List Callback) × Step 2 (started stop) (transition to_configure ∷ []) later
starts_when_idle_example =
    (starts_when_idle 2 (started (transition to_configure) ∷ []) (transition to_configure ∷ []) stop
        (omega arith) configuring).1
      refl

callbacks_are_serial_example : Serially device_work so_far both
callbacks_are_serial_example = callbacks_are_serial 2 so_far both device_work overlapping

lifetime_needs_one_group_example :
    (s : Threads) × Interleaves (service_group Request.home) default_group connected_start s
    × IsDangling s
lifetime_needs_one_group_example = (lifetime_needs_one_group Request.home default_group).1 refl
