-- ===== src/Tests/Handlers.antt =====
-- Requests to a node that is linked to the simulated arm.
use litearm_ros.Prelude.{
  Bool, true, false, Option, none, some, [], ◌∷◌, ◌≡◌, ◌≢◌, inl, inr, refl, arith, has_char,
}
use litearm_ros.Double.{whole, AllFinite}
use litearm_ros.Gates.{check_speed_fraction, check_log_filename, check_connected}
use litearm_ros.Gates.Accept.{real_gates_exact, IsSpeedFraction, IsVector}
use litearm_ros.Gates.FileName.{path_join, resolve, log_file_stays}
use litearm_ros.Node.{
  Node, Call, motors_enabled, command, run_command, connected, gated, report, with_arm, ask,
  answered, perform, issue,
}
use litearm_ros.Motion.{PlanReport, read_poses, handle_move_j, handle_move_path}
use litearm_ros.Motion.Poses.{read_poses_lossless}
use litearm_ros.Motion.Success.{joint_motion_succeeds, cartesian_motion_succeeds}
use litearm_ros.Safety.{handle_save_params, handle_emergency_stop}
use litearm_ros.Safety.Success.{gated_services_succeed, ungated_services_succeed}
use litearm_ros.Model.{handle_commit_model}
use litearm_ros.Diagnostics.{handle_reconnect}
use litearm_ros.Diagnostics.Reconnect.{reconnect_outcome}
use litearm_ros.Sdk.{reconnect, read_license}
use litearm_ros.Model.Commit.{commit_model_inverted}
use litearm_ros.Config.{handle_set_speed_scaling}
use litearm_ros.Config.SpeedScaling.{set_speed_scaling_stored}
use litearm_ros.Status.{LitearmStatus, handle_get_status, store_status}
use litearm_ros.Status.Level.{assess, warning, assess_level}
use litearm_ros.Status.Cache.{get_status_caches}
use litearm_ros.Service.{fresh_call, no_plan}
use litearm_ros.Status.Level.{publish_diagnostics}
use litearm_ros.Status.Problems.{message_of, published_problems}
use litearm_ros.Tests.Bench.{
  bench_arm, BenchArm, bench_sdk, license, linked_node, moment, home_pose, six,
}

abbrev call : Bool → Bool → Call BenchArm (Unit {0})
call moves enabled = fresh_call tt (linked_node moves enabled)

abbrev plan_call : Bool → Call BenchArm PlanReport
plan_call moves = fresh_call no_plan (linked_node moves true)

six_given : six ≢ []
six_given e = cc

six_finite : AllFinite six
six_finite = (refl, (refl, (refl, (refl, (refl, (refl, tt))))))

six-IsVector : IsVector six 6
six-IsVector = (six_given, inr refl, six_finite)

full_speed : IsSpeedFraction (whole 1)
unfolding whole
full_speed = (refl, refl, refl)

real_gates_exact_example : (check_speed_fraction (whole 1)).ok ≡ true
real_gates_exact_example = (real_gates_exact (whole 1) "timeout").0.1 full_speed

log_file_stays_example : resolve (path_join "/var/log" "a.bin") ≡ "a.bin" ∷ resolve "/var/log"
unfolding check_log_filename has_char
log_file_stays_example = log_file_stays "/var/log" "a.bin" refl

read_poses_lossless_example : (read_poses six).0 ≡ true
read_poses_lossless_example =
    (read_poses_lossless six).0.1 ((six_given, inl refl, six_finite), refl)

joint_motion_succeeds_example :
    (handle_move_j six (whole 1) (call true true)).response.success ≡ true
joint_motion_succeeds_example =
    (joint_motion_succeeds six six six six six (whole 1) (call true true)).0.1
      ((refl, six-IsVector, full_speed), refl)

cartesian_motion_succeeds_example :
    (handle_move_path six (whole 1) true (plan_call true)).response.success ≡ true
cartesian_motion_succeeds_example =
    (cartesian_motion_succeeds home_pose home_pose home_pose six (whole 1) true
        (plan_call true)).2.1
      ((refl, ((six_given, inl refl, six_finite), refl), full_speed), refl)

gated_services_succeed_example : (handle_save_params (call false false)).response.success ≡ true
unfolding motors_enabled
gated_services_succeed_example = (gated_services_succeed (call false false)).0.1 (refl, refl)

ungated_services_succeed_example : (handle_emergency_stop (call false true)).response.success ≡ true
ungated_services_succeed_example = (ungated_services_succeed (call false true)).0.1 refl

commit_model_inverted_example : (handle_commit_model 0 (call false false)).response.success ≡ false
unfolding motors_enabled
commit_model_inverted_example = (commit_model_inverted 0 (call false false)).1

reconnect_outcome_example :
    (handle_reconnect (call false true)).node.issued ≡ read_license ∷ reconnect ∷ []
reconnect_outcome_example = (reconnect_outcome (call false true)).1

set_speed_scaling_stored_example :
    (handle_set_speed_scaling 40 (call false true)).response.success ≡ true
set_speed_scaling_stored_example =
    (set_speed_scaling_stored 40 (call false true)).0.1 ((omega arith, omega arith), refl)

abbrev status_call : Call BenchArm (Option LitearmStatus)
status_call = fresh_call none (linked_node false true)

get_status_caches_example : (handle_get_status moment (whole 1) status_call).node.have_state ≡ true
unfolding handle_get_status command run_command connected gated report with_arm ask answered perform
    issue store_status check_connected
get_status_caches_example = (get_status_caches moment (whole 1) status_call).4

-- The same node with a licence that is not activated.
abbrev unlicensed : Node BenchArm
unlicensed = record (linked_node false true) { license = record license { activated = false } }

assess_level_example : (assess unlicensed).0 ≡ warning
unfolding connected
assess_level_example = (assess_level unlicensed).1.1 (refl, refl)

-- The device is in zero gravity, and the node has a diagnostics publisher.
abbrev watched : Node BenchArm
watched = record (linked_node false true) {
  arm = some (record (bench_arm true) { in_zero_g = true });
  diagnostics_publisher = some (record { topic = "/diagnostics"; active = true });
}

published_problems_example :
    message_of (publish_diagnostics moment "litearm_driver" watched) ≡ some "zero gravity active"
unfolding connected
published_problems_example = published_problems moment "litearm_driver" watched
