-- ===== src/Model/Permission.antt =====
-- Every SDK call of the handlers in litearm_driver/src/litearm_driver_model.cpp is permitted.
use litearm_ros.Prelude.{ℕ, ℤ, Bool, true, false, not, List, ◌≡◌, refl, arith}
use litearm_ros.Double.{Double}
use litearm_ros.Sdk.{Sdk, Vector3}
use litearm_ros.Gates.Accept.{check_vector3_finite}
use litearm_ros.Node.{Call}
use litearm_ros.Node.Growth.{
  Sends, sends, same, gated-Sends, on_success-Sends, reading-Sends, command-Sends, tell-Sends,
}
use litearm_ros.Policy.{Permitted}
use litearm_ros.Motion.Permission.{check_of-IsVector, check_values-IsVector}
use litearm_ros.Safety.Permission.{requires_disabled}
use litearm_ros.Model.{
  Catalog, ModelReport, handle_get_feedforward_vector, handle_get_feedforward_mask,
  handle_get_feedforward_catalog, handle_set_gravity_scale, handle_set_inertia_scale,
  handle_set_gravity_vector, handle_probe_model, handle_get_model_body, handle_set_model_body,
  handle_get_model_jm, handle_set_model_jm, handle_commit_model, handle_revert_model,
  handle_get_model_status,
}

module _ {Arm : Type 0} ⦃sdk : Sdk Arm⦄ where
  pub get_feedforward_vector-Sends :
      (item : ℤ) (call : Call Arm (List Double))
      → Sends (Permitted call.node) (handle_get_feedforward_vector item) call
  unfolding handle_get_feedforward_vector
  get_feedforward_vector-Sends item call = command-Sends _ _ _ tt (λ r s. (refl, refl))

  pub get_feedforward_mask-Sends :
      (call : Call Arm ℕ) → Sends (Permitted call.node) handle_get_feedforward_mask call
  unfolding handle_get_feedforward_mask
  get_feedforward_mask-Sends call = command-Sends _ _ _ tt (λ r s. (refl, refl))

  pub get_feedforward_catalog-Sends :
      (call : Call Arm Catalog) → Sends (Permitted call.node) handle_get_feedforward_catalog call
  unfolding handle_get_feedforward_catalog
  get_feedforward_catalog-Sends call = sends same refl

  pub set_gravity_scale-Sends :
      (values : List Double) (call : Call Arm (Unit {0}))
      → Sends (Permitted call.node) (handle_set_gravity_scale values) call
  unfolding handle_set_gravity_scale
  set_gravity_scale-Sends values call =
      gated-Sends _ _ λ h. tell-Sends _ _ (check_of-IsVector values _ _ h)

  pub set_inertia_scale-Sends :
      (values : List Double) (call : Call Arm (Unit {0}))
      → Sends (Permitted call.node) (handle_set_inertia_scale values) call
  unfolding handle_set_inertia_scale
  set_inertia_scale-Sends values call = gated-Sends _ _ λ h.
      on_success-Sends _ _ (λ s. (refl, refl)) (tell-Sends _ _ (check_of-IsVector values _ _ h))

  pub set_gravity_vector-Sends :
      (g : Vector3) (call : Call Arm (Unit {0}))
      → Sends (Permitted call.node) (handle_set_gravity_vector g) call
  unfolding handle_set_gravity_vector
  set_gravity_vector-Sends g call = gated-Sends _ _ λ h. tell-Sends _ _ (check_vector3_finite g h)

  pub probe_model-Sends :
      (call : Call Arm Bool) → Sends (Permitted call.node) handle_probe_model call
  unfolding handle_probe_model
  probe_model-Sends call = command-Sends _ _ _ tt (λ r s. (refl, refl))

  pub get_model_body-Sends :
      (body : ℤ) (call : Call Arm (List Double))
      → Sends (Permitted call.node) (handle_get_model_body body) call
  unfolding handle_get_model_body
  get_model_body-Sends body call = command-Sends _ _ _ tt (λ r s. (refl, refl))

  pub set_model_body-Sends :
      (body : ℤ) (values : List Double) (call : Call Arm (Unit {0}))
      → Sends (Permitted call.node) (handle_set_model_body body values) call
  unfolding handle_set_model_body
  set_model_body-Sends body values call = gated-Sends _ _ λ h.
      on_success-Sends _ _ (λ s. (refl, refl)) (tell-Sends _ _ (check_values-IsVector values _ h))

  pub get_model_jm-Sends :
      (call : Call Arm (List Double)) → Sends (Permitted call.node) handle_get_model_jm call
  unfolding handle_get_model_jm
  get_model_jm-Sends call = command-Sends _ _ _ tt (λ r s. (refl, refl))

  pub set_model_jm-Sends :
      (values : List Double) (call : Call Arm (Unit {0}))
      → Sends (Permitted call.node) (handle_set_model_jm values) call
  unfolding handle_set_model_jm
  set_model_jm-Sends values call = gated-Sends _ _ λ h.
      on_success-Sends _ _ (λ s. (refl, refl)) (tell-Sends _ _ (check_values-IsVector values _ h))

  pub commit_model-Sends :
      (mask : ℕ) (call : Call Arm (Unit {0}))
      → Sends (Permitted call.node) (handle_commit_model mask) call
  unfolding handle_commit_model
  commit_model-Sends mask call = reading-Sends _ (
      gated-Sends _ _ λ h.
        on_success-Sends _ _ (λ s. (refl, refl))
          (tell-Sends _ _ (enabled _ (requires_disabled _ _ h))))
    where
      enabled : (b : Bool) → not b ≡ false → b ≡ true
      enabled b e = ground arith

  pub revert_model-Sends :
      (call : Call Arm (Unit {0})) → Sends (Permitted call.node) handle_revert_model call
  unfolding handle_revert_model
  revert_model-Sends call = tell-Sends _ _ tt

  pub get_model_status-Sends :
      (call : Call Arm ModelReport) → Sends (Permitted call.node) handle_get_model_status call
  unfolding handle_get_model_status
  get_model_status-Sends call = command-Sends _ _ _ tt (λ r s. (refl, refl))
