-- ===== src/Safety/Effect.antt =====
-- What the services of the safety section of litearm_driver/src/litearm_driver_node.cpp do.
use litearm_ros.Prelude.{true, false, refl, drop1}
use litearm_ros.Sdk.{
  Command, Sdk, enable, disable, reset, clear_faults, emergency_stop, park, save_params,
  reset_factory, enter_dfu, zero_g_start, zero_g_stop,
}
use litearm_ros.Gates.Accept.{check_zero_g_period_iff}
use litearm_ros.Gates.Iff.{disabled_iff}
use litearm_ros.Node.{Call, Handler}
use litearm_ros.Node.Effect.{
  Does, Does-change, gated-Does, on_success-Does, reading-Does, tell-Does, allows_iff, plain,
}
use litearm_ros.Safety.ZeroG.{start_zero_g_lem, stop_zero_g_lem}
use litearm_ros.Policy.{Permitted}
use litearm_ros.Safety.{
  handle_enable, handle_disable, handle_reset, handle_clear_faults, handle_emergency_stop,
  handle_park, handle_save_params, handle_reset_factory_params, handle_enter_dfu, handle_zero_g,
}

module _ {Arm : Type 0} ⦃sdk : Sdk Arm⦄ (call : Call Arm (Unit {0})) where
  -- The handler makes the call whenever the policy permits it, and else does nothing.
  abbrev Obeys : Command → Handler Arm (Unit {0}) → Type 0
  Obeys c handler = Does (Permitted call.node c) (plain c call.node) handler call

  pub enable-Does : Obeys (enable call.node.enable_attempts) handle_enable
  unfolding handle_enable
  enable-Does = reading-Does _ (tell-Does _ _)

  pub disable-Does : Obeys disable handle_disable
  unfolding handle_disable
  disable-Does = tell-Does _ _

  pub reset-Does : Obeys reset handle_reset
  unfolding handle_reset
  reset-Does = tell-Does _ _

  pub clear_faults-Does : Obeys clear_faults handle_clear_faults
  unfolding handle_clear_faults
  clear_faults-Does = tell-Does _ _

  pub emergency_stop-Does : Obeys emergency_stop handle_emergency_stop
  unfolding handle_emergency_stop
  emergency_stop-Does = on_success-Does _ _ (λ s. refl) (tell-Does _ _)

  pub park-Does : Obeys park handle_park
  unfolding handle_park
  park-Does = tell-Does _ _

  pub save_params-Does : Obeys save_params handle_save_params
  unfolding handle_save_params
  save_params-Does =
      reading-Does _ (Does-change drop1 (gated-Does _ _ (disabled_iff _ _) (tell-Does _ _)))

  pub reset_factory_params-Does : Obeys reset_factory handle_reset_factory_params
  unfolding handle_reset_factory_params
  reset_factory_params-Does =
      reading-Does _ (Does-change drop1 (gated-Does _ _ (disabled_iff _ _) (tell-Does _ _)))

  pub enter_dfu-Does : Obeys enter_dfu handle_enter_dfu
  unfolding handle_enter_dfu
  enter_dfu-Does = reading-Does _ (
      Does-change drop1
        (gated-Does _ _ (allows_iff _ _) (on_success-Does _ _ (λ s. refl) (tell-Does _ _))))

  pub zero_g_start-Does :
      Obeys (zero_g_start call.node.parameters.zero_g_keepalive_period_s) (handle_zero_g true)
  unfolding handle_zero_g
  zero_g_start-Does = reading-Does _ (
      Does-change drop1 (
        gated-Does _ _ (check_zero_g_period_iff _) (
          on_success-Does _ _ (λ s. refl)
            (rw
              (start_zero_g_lem Arm (Unit {0}) "zero_g"
                call.node.parameters.zero_g_keepalive_period_s)
              (tell-Does _ _)))))

  pub zero_g_stop-Does : Obeys (zero_g_stop true) (handle_zero_g false)
  unfolding handle_zero_g
  zero_g_stop-Does =
      on_success-Does _ _ (λ s. refl) (rw (stop_zero_g_lem Arm (Unit {0}) "zero_g") (tell-Does _ _))
