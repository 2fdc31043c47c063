-- ===== src/Safety/Success.antt =====
-- When the services of the safety section of litearm_driver/src/litearm_driver_node.cpp succeed.
use litearm_ros.Prelude.{true, false, ◌≡◌, ◌↔◌}
use litearm_ros.Sdk.{
  Command, Sdk, enable, disable, reset, clear_faults, emergency_stop, park, save_params,
  reset_factory, enter_dfu, zero_g_start, zero_g_stop,
}
use litearm_ros.Node.{Call, Handler}
use litearm_ros.Node.Effect.{Does, plain}
use litearm_ros.Node.Outcome.{Does-success, answers}
use litearm_ros.Policy.{Permitted}
use litearm_ros.Safety.{
  handle_enable, handle_disable, handle_reset, handle_clear_faults, handle_emergency_stop,
  handle_park, handle_save_params, handle_reset_factory_params, handle_enter_dfu, handle_zero_g,
}
use litearm_ros.Safety.Effect.{
  enable-Does, disable-Does, reset-Does, clear_faults-Does, emergency_stop-Does, park-Does,
  save_params-Does, reset_factory_params-Does, enter_dfu-Does, zero_g_start-Does, zero_g_stop-Does,
}

module _ {Arm : Type 0} ⦃sdk : Sdk Arm⦄ where
  abbrev Grants : Command → Handler Arm (Unit {0}) → Call Arm (Unit {0}) → Type 0
  Grants c handler call =
      ((handler call).response.success ≡ true)
      ↔ (Permitted call.node c × (answers c call.node ≡ true))

  abbrev Always : Command → Handler Arm (Unit {0}) → Call Arm (Unit {0}) → Type 0
  Always c handler call = ((handler call).response.success ≡ true) ↔ (answers c call.node ≡ true)

  always :
      (c : Command) (handler : Handler Arm (Unit {0})) (call : Call Arm (Unit {0}))
      → Does (Unit {0}) (plain c call.node) handler call
      → Always c handler call
  always c handler call handled =
      let (there, back) = Does-success c (λ _ n. n) handler call handled in
      (λ h. (there h).1, λ a. back (tt, a))

  -- Whatever the parameters and the state of the motors, emergency_stop, disable, reset, clear_faults,
  -- park, leaving zero gravity and enable succeed exactly when the link is up and their SDK call returns:
  -- no gate stands before them.
  pub ungated_services_succeed :
      (call : Call Arm (Unit {0}))
      → Always emergency_stop handle_emergency_stop call
        × Always disable handle_disable call
        × Always reset handle_reset call
        × Always clear_faults handle_clear_faults call
        × Always park handle_park call
        × Always (zero_g_stop true) (handle_zero_g false) call
        × Always (enable call.node.enable_attempts) handle_enable call
  ungated_services_succeed call = (
    always _ _ call (emergency_stop-Does call),
    always _ _ call (disable-Does call),
    always _ _ call (reset-Does call),
    always _ _ call (clear_faults-Does call),
    always _ _ call (park-Does call),
    always _ _ call (zero_g_stop-Does call),
    always _ _ call (enable-Does call),
  )

  -- save_params and reset_factory_params succeed exactly when the cached frame does not say that the
  -- motors are enabled, enter_dfu exactly when allow_dfu is set, and entering zero gravity exactly when
  -- the period parameter is a valid keep-alive period; each if the link is up and its SDK call returns.
  pub gated_services_succeed :
      (call : Call Arm (Unit {0}))
      → let period = call.node.parameters.zero_g_keepalive_period_s in
        Grants save_params handle_save_params call
        × Grants reset_factory handle_reset_factory_params call
        × Grants enter_dfu handle_enter_dfu call
        × Grants (zero_g_start period) (handle_zero_g true) call
  gated_services_succeed call = (
    Does-success _ _ _ call (save_params-Does call),
    Does-success _ _ _ call (reset_factory_params-Does call),
    Does-success _ _ _ call (enter_dfu-Does call),
    Does-success _ _ _ call (zero_g_start-Does call),
  )
