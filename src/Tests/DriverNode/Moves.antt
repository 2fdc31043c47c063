-- ===== src/Tests/DriverNode/Moves.antt =====
-- The tests of the motion services of litearm_driver/test/test_litearm_driver.cpp.
use litearm_ros.Prelude.{◌*◌, ◌^◌, pos, true, false, List, [], ◌≡◌, refl, replicate}
use litearm_ros.Double.{Double, finite, whole}
use litearm_ros.Node.{Call}
use litearm_ros.Service.{fresh_call}
use litearm_ros.Motion.{handle_move_j, handle_home, handle_inverse_kinematics}
use litearm_ros.Tests.Bench.{home_pose, launch}
use litearm_ros.Tests.Fake.{FakeArm, fake_sdk}
use litearm_ros.Tests.Find.{finds}
use litearm_ros.Tests.DriverNode.{program, node, call, IsSilentRefusal}

-- 0.2
abbrev slow : Double
slow = finite (pos (0x1999999999999a * 2 ^ 1019))

motion_is_refused_without_allow_motion :
    IsSilentRefusal (handle_move_j (replicate 7 slow) slow (call tt))
    × (finds "allow_motion" (handle_move_j (replicate 7 slow) slow (call tt)).response.message
        ≡ true)
    × IsSilentRefusal (handle_home (call tt))
    × (finds "allow_motion" (handle_home (call tt)).response.message ≡ true)
unfolding program
motion_is_refused_without_allow_motion = ((refl, refl), refl, (refl, refl), refl)

abbrev armed : Call FakeArm (Unit {0})
armed = fresh_call tt (record node { parameters = launch true })

the_speed_gate_still_bites :
    IsSilentRefusal (handle_move_j (replicate 7 slow) (whole 30) armed)
    × (finds "fraction" (handle_move_j (replicate 7 slow) (whole 30) armed).response.message ≡ true)
    × IsSilentRefusal (handle_move_j (replicate 6 slow) slow armed)
    × (finds "axes" (handle_move_j (replicate 6 slow) slow armed).response.message ≡ true)
unfolding program
the_speed_gate_still_bites = ((refl, refl), refl, (refl, refl), refl)

abbrev solved : Call FakeArm (List Double)
solved = handle_inverse_kinematics home_pose [] slow (call [])

inverse_kinematics_is_not_behind_allow_motion : finds "allow_motion" solved.response.message ≡ false
unfolding program
inverse_kinematics_is_not_behind_allow_motion = refl
