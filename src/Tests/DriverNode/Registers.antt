-- ===== src/Tests/DriverNode/Registers.antt =====
-- The tests of motion configuration, feedforward and joint parameters of litearm_driver/test/test_litearm_driver.cpp.
use litearm_ros.Prelude.{◌*◌, ◌^◌, pos, negsuc, true, none, List, [], ◌∷◌, map, length, ◌≡◌, refl}
use litearm_ros.Double.{minus_one, Double, finite, zero_d, whole}
use litearm_ros.Sdk.{set_speed}
use litearm_ros.Node.{Call}
use litearm_ros.Service.{fresh_call}
use litearm_ros.Config.{
  handle_set_speed_scaling, handle_set_motion_mode, handle_set_feedforward_scalar,
  handle_get_feedforward_scalar, handle_set_feedforward_mask, handle_get_joint_params,
  handle_set_joint_gains, handle_set_joint_limits, JointParamMessage,
}
use litearm_ros.Status.{build_status}
use litearm_ros.Tests.Bench.{moment}
use litearm_ros.Tests.Fake.{FakeArm, fake_sdk}
use litearm_ros.Tests.Find.{finds}
use litearm_ros.Prelude.{List}
use litearm_ros.Sdk.{get_tcp}
use litearm_ros.Service.{World, Request, Outcome}
use litearm_ros.Service.ReadBack.{write_scalar, read_scalar, serve_all, scalar_reads_back}
use litearm_ros.Diagnostics.{handle_get_tcp}
use litearm_ros.Tests.Bench.{world}
use litearm_ros.Tests.Fake.{fake_registers}
use litearm_ros.Tests.DriverNode.{program, node, call, IsSilentRefusal}

abbrev slowed : Call FakeArm (Unit {0})
slowed = handle_set_speed_scaling 40 (call tt)

speed_scaling_is_sent_and_tracked :
    (slowed.response.success ≡ true)
    × (slowed.node.issued ≡ set_speed (pos 40) ∷ node.issued)
    × ((build_status moment slowed.node none).speed_scaling ≡ 40)
unfolding program
speed_scaling_is_sent_and_tracked = (refl, refl, refl)

motion_mode_is_forwarded_and_explained :
    ((handle_set_motion_mode (pos 0) (call tt)).response.success ≡ true)
    × (finds "mode 0" (handle_set_motion_mode (pos 0) (call tt)).response.message ≡ true)
unfolding program
motion_mode_is_forwarded_and_explained = (refl, refl)

-- 1.25
abbrev written_value : Double
written_value = finite (pos (0x5 * 2 ^ 1072))

abbrev written : Call FakeArm (Unit {0})
written = handle_set_feedforward_scalar (pos 4) (pos 0) written_value (call tt)

abbrev read_back : Call FakeArm Double
read_back = handle_get_feedforward_scalar (pos 4) (pos 0) (fresh_call zero_d written.node)

feedforward_scalar_round_trips :
    (written.response.success ≡ true)
    × (read_back.response.success ≡ true)
    × (read_back.response.body ≡ written_value)
unfolding program
feedforward_scalar_round_trips = (refl, refl, refl)

feedforward_mask_is_written : (handle_set_feedforward_mask 0x1ff (call tt)).response.success ≡ true
unfolding program
feedforward_mask_is_written = refl

-- 1.5
abbrev damping : Double
damping = finite (pos (0x3 * 2 ^ 1073))

abbrev geared : Call FakeArm (Unit {0})
geared = handle_set_joint_gains (pos 0) (whole 12) damping (whole 9) (call tt)

abbrev limited : Call FakeArm (Unit {0})
limited = handle_set_joint_limits (pos 0) minus_one (whole 1) (fresh_call tt geared.node)

abbrev single : Call FakeArm (List JointParamMessage)
single = handle_get_joint_params (pos 0) (fresh_call [] limited.node)

joint_params_read_and_write :
    (length (handle_get_joint_params (negsuc 0) (call [])).response.body ≡ 7)
    × (geared.response.success ≡ true)
    × (limited.response.success ≡ true)
    × (single.response.success ≡ true)
    × (map (λ p. p.kp) single.response.body ≡ whole 12 ∷ [])
    × (map (λ p. p.q_min) single.response.body ≡ minus_one ∷ [])
unfolding program
joint_params_read_and_write = (refl, refl, refl, refl, refl, refl)

joint_index_out_of_range_sends_no_frame :
    IsSilentRefusal (handle_set_joint_gains (pos 7) (whole 1) (whole 1) (whole 1) (call tt))
unfolding program
joint_index_out_of_range_sends_no_frame = (refl, refl)

-- 25 kg, of which the firmware keeps 20; the tool pose is asked for in between.
abbrev overloaded : Outcome FakeArm
overloaded = write_scalar (pos 4) (pos 0) world (whole 25) node

abbrev between : List (World × Request)
between = (world, Request.get_tcp) ∷ []

abbrev reread : Call FakeArm Double
reread = read_scalar (pos 4) (pos 0) (serve_all between overloaded.node)

overloaded_written : overloaded.success ≡ true
unfolding program
overloaded_written = refl

between_issued : (serve_all between overloaded.node).issued ≡ get_tcp ∷ overloaded.node.issued
unfolding program serve_all handle_get_tcp
between_issued = refl

reread_succeeds : reread.response.success ≡ true
unfolding program serve_all handle_get_tcp
reread_succeeds = refl

scalar_reads_back_example : reread.response.body ≡ whole 20
unfolding whole
scalar_reads_back_example =
    scalar_reads_back fake_registers (pos 4) (pos 0) world (whole 25) node between (get_tcp ∷ [])
      overloaded_written between_issued (refl, tt) reread_succeeds
