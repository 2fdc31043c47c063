-- ===== src/Tests/Callbacks.antt =====
-- The lifecycle callbacks against the simulated arm.
use litearm_ros.Prelude.{true, false, none, [], ◌∷◌, ◌≡◌}
use litearm_ros.Sdk.{close}
use litearm_ros.Node.{Node}
use litearm_ros.Lifecycle.Axes.{name_axes}
use litearm_ros.Node.Growth.{is_present}
use litearm_ros.Lifecycle.{
  success, error, on_configure, on_activate, on_deactivate, on_cleanup, new_node,
}
use litearm_ros.Lifecycle.Outcome.{
  on_configure_outcome, on_activate_outcome, on_deactivate_outcome, on_cleanup_outcome,
}
use litearm_ros.Lifecycle.Fresh.{means, cleanup_is_fresh}
use litearm_ros.Tests.Bench.{BenchArm, bench_sdk, linked_node, launch}

abbrev fresh : Node BenchArm
fresh = new_node (launch false)

on_configure_outcome_example : (on_configure none fresh).0 ≡ success
unfolding new_node name_axes
on_configure_outcome_example = (on_configure_outcome none fresh).0

-- The joint states are to be published on a name that is no topic's.
abbrev misnamed : Node BenchArm
misnamed =
    new_node
      (record (launch false) { publish_joint_states = true; joint_states_topic = "/joint-states" })

misnamed_refused : (on_configure none misnamed).0 ≡ error
unfolding new_node name_axes
misnamed_refused = (on_configure_outcome none misnamed).0

misnamed_linked : is_present (on_configure none misnamed).1.arm ≡ true
unfolding new_node name_axes
misnamed_linked = (on_configure_outcome none misnamed).1

on_activate_outcome_example : (on_activate (linked_node false false)).0 ≡ success
on_activate_outcome_example = (on_activate_outcome (linked_node false false)).0

on_deactivate_outcome_example : (on_deactivate (linked_node false true)).1.issued ≡ []
on_deactivate_outcome_example = (on_deactivate_outcome (linked_node false true)).1

on_cleanup_outcome_example : (on_cleanup (linked_node false true)).1.issued ≡ close ∷ []
on_cleanup_outcome_example = (on_cleanup_outcome (linked_node false true)).1.1

cleanup_is_fresh_example :
    means (on_configure none (on_cleanup (linked_node false true)).1)
    ≡ means (on_configure none (new_node (launch false)))
cleanup_is_fresh_example = cleanup_is_fresh none (linked_node false true)
