-- ===== src/Safety/Permission.antt =====
-- Every SDK call of the state and safety handlers (litearm_driver/src/litearm_driver_node.cpp) is
-- permitted.
use litearm_ros.Prelude.{Bool, true, false, String, ◌≡◌, refl, arith}
use litearm_ros.Sdk.{Sdk}
use litearm_ros.Gates.{check_requires_disabled}
use litearm_ros.Gates.Accept.{check_zero_g_period_iff}
use litearm_ros.Node.{Call}
use litearm_ros.Node.Growth.{
  Sends, allowed, gated-Sends, on_success-Sends, reading-Sends, tell-Sends,
}
use litearm_ros.Safety.ZeroG.{start_zero_g_lem, stop_zero_g_lem}
use litearm_ros.Policy.{Permitted}
use litearm_ros.Safety.{
  handle_enable, handle_disable, handle_reset, handle_clear_faults, handle_emergency_stop,
  handle_park, handle_save_params, handle_reset_factory_params, handle_enter_dfu, handle_zero_g,
}

pub requires_disabled :
    (enabled : Bool) (operation : String)
    → (check_requires_disabled enabled operation).ok ≡ true
    → enabled ≡ false
unfolding check_requires_disabled
requires_disabled enabled operation h = ground arith

module _ {Arm : Type 0} ⦃sdk : Sdk Arm⦄ (call : Call Arm (Unit {0})) where
  pub enable-Sends : Sends (Permitted call.node) handle_enable call
  unfolding handle_enable
  enable-Sends = reading-Sends _ (tell-Sends _ _ tt)

  pub disable-Sends : Sends (Permitted call.node) handle_disable call
  unfolding handle_disable
  disable-Sends = tell-Sends _ _ tt

  pub reset-Sends : Sends (Permitted call.node) handle_reset call
  unfolding handle_reset
  reset-Sends = tell-Sends _ _ tt

  pub clear_faults-Sends : Sends (Permitted call.node) handle_clear_faults call
  unfolding handle_clear_faults
  clear_faults-Sends = tell-Sends _ _ tt

  pub emergency_stop-Sends : Sends (Permitted call.node) handle_emergency_stop call
  unfolding handle_emergency_stop
  emergency_stop-Sends = on_success-Sends _ _ (λ s. (refl, refl)) (tell-Sends _ _ tt)

  pub park-Sends : Sends (Permitted call.node) handle_park call
  unfolding handle_park
  park-Sends = tell-Sends _ _ tt

  pub save_params-Sends : Sends (Permitted call.node) handle_save_params call
  unfolding handle_save_params
  save_params-Sends =
      reading-Sends _ (gated-Sends _ _ λ h. tell-Sends _ _ (requires_disabled _ _ h))

  pub reset_factory_params-Sends : Sends (Permitted call.node) handle_reset_factory_params call
  unfolding handle_reset_factory_params
  reset_factory_params-Sends =
      reading-Sends _ (gated-Sends _ _ λ h. tell-Sends _ _ (requires_disabled _ _ h))

  pub enter_dfu-Sends : Sends (Permitted call.node) handle_enter_dfu call
  unfolding handle_enter_dfu
  enter_dfu-Sends = reading-Sends _ (
      gated-Sends _ _
        λ h. on_success-Sends _ _ (λ s. (refl, refl)) (tell-Sends _ _ (allowed _ _ h)))

  pub zero_g-Sends : (on : Bool) → Sends (Permitted call.node) (handle_zero_g on) call
  unfolding handle_zero_g
  zero_g-Sends true = reading-Sends _ (
      gated-Sends _ _ λ h.
        on_success-Sends _ _ (λ s. (refl, refl))
          (rw
            (start_zero_g_lem Arm (Unit {0}) "zero_g"
              call.node.parameters.zero_g_keepalive_period_s)
            (tell-Sends _ _ ((check_zero_g_period_iff _).0 h))))
  zero_g-Sends false =
      on_success-Sends _ _ (λ s. (refl, refl))
        (rw (stop_zero_g_lem Arm (Unit {0}) "zero_g") (tell-Sends _ _ tt))
