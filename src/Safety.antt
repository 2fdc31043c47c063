-- ===== src/Safety.antt =====
-- The handlers of state and safety (litearm_driver/src/litearm_driver_node.cpp, with the zero
-- gravity helpers that they use).
pub mod ZeroG
pub mod Permission
pub mod Effect
pub mod Success
use litearm_ros.Prelude.{Bool, true, false, Option, none, some, String, ◌<>◌}
use litearm_ros.Double.{Double}
use litearm_ros.Sdk.{
  Command, enable, disable, reset, clear_faults, emergency_stop, park, save_params, reset_factory,
  enter_dfu, zero_g_start, zero_g_stop, Sdk, Result, ok,
}
use litearm_ros.Gates.{check_requires_disabled, check_parameter_allows, check_zero_g_period}
use litearm_ros.Node.{
  Call, Handler, gated, reading, on_success, append_message, set_message, tell, ask, run_command,
  motors_enabled,
}

abbrev in_dfu : String
in_dfu =
    "device entered DFU: the CDC link is gone and this node is unusable until it is "
    <> "reconfigured with a new link"

abbrev zero_g_entered : String
zero_g_entered =
    "zero gravity entered; push the arm by hand, and leave the service (data=false) "
    <> "before any other motion command"

module _ {Arm : Type 0} ⦃sdk : Sdk Arm⦄ where
  unfoldable pub handle_enable : Handler Arm (Unit {0})
  handle_enable = reading λ node. tell "enable" (enable node.enable_attempts)

  unfoldable pub handle_disable : Handler Arm (Unit {0})
  handle_disable = tell "disable" disable

  unfoldable pub handle_reset : Handler Arm (Unit {0})
  handle_reset = tell "reset" reset

  unfoldable pub handle_clear_faults : Handler Arm (Unit {0})
  handle_clear_faults = tell "clear_faults" clear_faults

  unfoldable pub handle_emergency_stop : Handler Arm (Unit {0})
  handle_emergency_stop =
      on_success
        (append_message " (software request; the hardware emergency stop remains the authority)")
        (tell "emergency_stop" emergency_stop)

  unfoldable pub handle_park : Handler Arm (Unit {0})
  handle_park = tell "park" park

  unfoldable pub handle_save_params : Handler Arm (Unit {0})
  handle_save_params = reading λ node.
      gated (check_requires_disabled (motors_enabled node) "save_params")
        (tell "save_params" save_params)

  unfoldable pub handle_reset_factory_params : Handler Arm (Unit {0})
  handle_reset_factory_params = reading λ node.
      gated (check_requires_disabled (motors_enabled node) "reset_factory_params")
        (tell "reset_factory_params" reset_factory)

  unfoldable pub handle_enter_dfu : Handler Arm (Unit {0})
  handle_enter_dfu = reading λ node.
      gated (check_parameter_allows node.parameters.allow_dfu "allow_dfu")
        (on_success (set_message in_dfu) (tell "enter_dfu" enter_dfu))

  -- `if (arm_ == nullptr) return;` and a call on the member `arm_`.
  unfoldable pub on_member :
      {B : Type 0} → Command → Option Arm → Call Arm B → Result (Unit {0}) × Call Arm B
  on_member c none call = (ok tt, call)
  on_member c (some arm) call = ask c (λ _ s. s) arm call

  unfoldable pub start_zero_g : {B : Type 0} → Double → Call Arm B → Result (Unit {0}) × Call Arm B
  start_zero_g period_s call = on_member (zero_g_start period_s) call.node.arm call

  unfoldable pub stop_zero_g : {B : Type 0} → Call Arm B → Result (Unit {0}) × Call Arm B
  stop_zero_g call = on_member (zero_g_stop true) call.node.arm call

  -- The period is read at each call.
  unfoldable pub handle_zero_g : Bool → Handler Arm (Unit {0})
  unfolding start_zero_g stop_zero_g
  handle_zero_g true = reading λ node.
      let period_s = node.parameters.zero_g_keepalive_period_s in
      gated (check_zero_g_period period_s) (
        on_success (set_message zero_g_entered) (run_command "zero_g" (λ _. start_zero_g period_s)))
  handle_zero_g false =
      on_success (set_message "zero gravity left") (run_command "zero_g" (λ _. stop_zero_g))
