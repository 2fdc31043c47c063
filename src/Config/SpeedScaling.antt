-- ===== src/Config/SpeedScaling.antt =====
-- The stored speed scaling of litearm_driver/src/litearm_driver_node.cpp.
use litearm_ros.Prelude.{ℕ, pos, true, ◌≡◌, ◌↔◌, arith, if◌then◌else◌}
use litearm_ros.Sdk.{set_speed, Sdk}
use litearm_ros.Gates.{check_speed_percent, check_connected}
use litearm_ros.Node.{
  Call, gated, command, run_command, report, with_arm, ask, answered, perform, issue, connected,
  fill_failure,
}
use litearm_ros.Node.Outcome.{Does-success, answers}
use litearm_ros.Config.Effect.{set_speed_scaling-Does}
use litearm_ros.Policy.{Permitted}
use litearm_ros.Config.{handle_set_speed_scaling, store_speed}

module _ {Arm : Type 0} ⦃sdk : Sdk Arm⦄ where
  stored :
      (percent : ℕ) (call : Call Arm (Unit {0}))
      → let after = handle_set_speed_scaling percent call in
        after.node.speed_scaling
        ≡ (if after.response.success then percent else call.node.speed_scaling)
  unfolding handle_set_speed_scaling command run_command report with_arm ask answered perform issue
      connected gated fill_failure check_connected check_speed_percent store_speed
  stored percent call = ground arith

  succeeds :
      (percent : ℕ) (call : Call Arm (Unit {0}))
      → ((handle_set_speed_scaling percent call).response.success ≡ true) ↔ (
          Permitted call.node (set_speed (pos percent))
          × (answers (set_speed (pos percent)) call.node ≡ true))
  succeeds percent call = Does-success _ _ _ call (set_speed_scaling-Does percent call)

  -- set_speed_scaling succeeds exactly for a percentage of at most 100 that the device takes over an open
  -- link; the reported speed scaling becomes that percentage then, and stays as it was on every failure.
  pub set_speed_scaling_stored :
      (percent : ℕ) (call : Call Arm (Unit {0}))
      → let after = handle_set_speed_scaling percent call in
        ((after.response.success ≡ true) ↔ (
          Permitted call.node (set_speed (pos percent))
          × (answers (set_speed (pos percent)) call.node ≡ true)))
        × (after.node.speed_scaling
            ≡ (if after.response.success then percent else call.node.speed_scaling))
  set_speed_scaling_stored percent call = (succeeds percent call, stored percent call)
