-- ===== src/Tests/Services.antt =====
-- Requests to the simulated arm: granted, refused, and over a closed link.
use litearm_ros.Prelude.{none, [], ℕ, ◌%◌, ◌^◌, pos, true, false, some, ◌≡◌, refl, arith}
use litearm_ros.Double.{whole, zero_d}
use litearm_ros.Sdk.{ok}
use litearm_ros.Node.{
  Node, Call, connected, issue, reading, on_success, tell, require_motion_allowed,
}
use litearm_ros.Node.Effect.{effect}
use litearm_ros.Motion.{handle_move_j}
use litearm_ros.Gates.{
  check_parameter_allows, check_finite_values_of, check_finite_values_impl, first_not_finite,
  check_speed_fraction,
}
use litearm_ros.Node.Footprint.{members, Within}
use litearm_ros.Diagnostics.{DumpReport, dumped}
use litearm_ros.Diagnostics.Dump.{IsCount, dumped_counts}
use litearm_ros.Service.{Request, serve, fresh_call, no_dump}
use litearm_ros.Service.Spec.{Admits, intended}
use litearm_ros.Service.Refines.{Meets, left_by, serve_refines}
use litearm_ros.Service.Footprint.{
  serve_calls_bounded, failed_request_keeps, unlinked_requests_fail,
}
use litearm_ros.Sdk.{get_ff_mask}
use litearm_ros.Node.Answer.{Tells}
use litearm_ros.Model.{handle_get_feedforward_mask}
use litearm_ros.Service.Answers.{readings_told}
use litearm_ros.Service.{no_plan, no_poll, no_model_report}
use litearm_ros.Tests.Bench.{
  moment, BenchArm, bench_arm, bench_sdk, linked_node, world, six, home_pose,
}

abbrev ask_move : Request
ask_move = Request.move_j six (whole 1)

-- The cable is out.
abbrev unplugged : Node BenchArm
unplugged = record (linked_node true true) {
  arm = some (record (bench_arm true) { linked = false });
}

-- The arm is sent exactly the motion that was asked for.
granted :
    intended world ask_move (linked_node true true)
    ≡ left_by (serve world ask_move (linked_node true true))
unfolding serve effect issue handle_move_j require_motion_allowed check_parameter_allows reading
    check_finite_values_of check_finite_values_impl first_not_finite check_speed_fraction whole
    on_success tell
granted = refl

serve_refines_example :
    Meets
      (Admits world ask_move (linked_node true true))
      (intended world ask_move (linked_node true true))
      (linked_node true true)
      (left_by (serve world ask_move (linked_node true true)))
serve_refines_example = serve_refines world ask_move (linked_node true true)

serve_calls_bounded_example :
    Within 2 (linked_node true true) (serve world Request.reconnect (linked_node true true)).node
serve_calls_bounded_example = serve_calls_bounded world Request.reconnect (linked_node true true)

failed_request_keeps_example :
    members (serve world ask_move (linked_node false true)).node ≡ members (linked_node false true)
unfolding serve handle_move_j require_motion_allowed check_parameter_allows
failed_request_keeps_example = failed_request_keeps world ask_move (linked_node false true) refl

unlinked_requests_fail_example :
    left_by (serve world Request.emergency_stop unplugged) ≡ (false, unplugged)
unfolding connected
unlinked_requests_fail_example =
    unlinked_requests_fail world Request.emergency_stop unplugged refl refl

abbrev dump_read : Call BenchArm DumpReport
dump_read = dumped "/tmp/log" (ok 480, fresh_call no_dump (linked_node true true))

dumped_counts_example :
    (dump_read.response.body.bytes ≡ pos 480)
    × (count : ℕ) × (dump_read.response.body.samples ≡ pos count)
    × IsCount 480 (pos 76) count
dumped_counts_example =
    dumped_counts "/tmp/log" 480 (fresh_call no_dump (linked_node true true)) (ground arith)

readings_told_example :
    Tells get_ff_mask
      (λ _ mask. mask % 2 ^ 32)
      handle_get_feedforward_mask
      (fresh_call 0 (linked_node true true))
readings_told_example =
    (readings_told (pos 1) (pos 0) (pos 2) 3 home_pose home_pose home_pose six (whole 1) true []
      (whole 1) (fresh_call zero_d (linked_node true true)) (fresh_call [] (linked_node true true))
      (fresh_call 0 (linked_node true true)) (fresh_call false (linked_node true true))
      (fresh_call [] (linked_node true true)) (fresh_call no_model_report (linked_node true true))
      (fresh_call no_poll (linked_node true true)) (fresh_call none (linked_node true true))
      (fresh_call no_plan (linked_node true true)) moment (fresh_call none (linked_node true true))
      (fresh_call none (linked_node true true))).2
