-- ===== src/Model/Effect.antt =====
-- What the services of litearm_driver/src/litearm_driver_model.cpp do.
use litearm_ros.Prelude.{ℕ, ℤ, ◌%◌, ◌^◌, Bool, true, List, refl, drop1}
use litearm_ros.Double.{Double}
use litearm_ros.Sdk.{
  Command, Sdk, Vector3, get_ff_vec, get_ff_mask, set_gravity_scale, set_inertia_scale,
  set_gravity_vector, model_probe, get_body, set_body as set_model_body, get_jm, set_jm, commit,
  revert, model_status,
}
use litearm_ros.Gates.Iff.{IsVector-iff, any_values_iff, vector3_iff, inverted_iff}
use litearm_ros.Node.{Call, Handler}
use litearm_ros.Node.Effect.{
  Does, does, Does-change, gated-Does, on_success-Does, reading-Does, tell-Does, answer-Does, plain,
}
use litearm_ros.Policy.{Permitted}
use litearm_ros.Model.{
  Catalog, ModelReport, handle_revert_model, handle_get_feedforward_vector,
  handle_get_feedforward_mask, handle_get_feedforward_catalog, handle_set_gravity_scale,
  handle_set_inertia_scale, handle_set_gravity_vector, handle_probe_model, handle_get_model_body,
  handle_set_model_body, handle_get_model_jm, handle_set_model_jm, handle_commit_model,
  handle_get_model_status,
}

module _ {Arm B : Type 0} ⦃sdk : Sdk Arm⦄ (call : Call Arm B) where
  -- The handler makes the call whenever the policy permits it, and else does nothing.
  abbrev Obeys : Command → Handler Arm B → Type 0
  Obeys c handler = Does (Permitted call.node c) (plain c call.node) handler call

module _ {Arm : Type 0} ⦃sdk : Sdk Arm⦄ where
  pub get_feedforward_vector-Does :
      (item : ℤ) (call : Call Arm (List Double))
      → Obeys call (get_ff_vec item) (handle_get_feedforward_vector item)
  unfolding handle_get_feedforward_vector
  get_feedforward_vector-Does item call = answer-Does _ (get_ff_vec item) _ (λ r s. refl)

  pub get_feedforward_mask-Does :
      (call : Call Arm ℕ) → Obeys call get_ff_mask handle_get_feedforward_mask
  unfolding handle_get_feedforward_mask
  get_feedforward_mask-Does call = answer-Does _ get_ff_mask _ (λ r s. refl)

  -- The catalogue is the SDK's static tables: no link is needed.
  pub get_feedforward_catalog-Does :
      (call : Call Arm Catalog)
      → Does (Unit {0}) (true, call.node) handle_get_feedforward_catalog call
  unfolding handle_get_feedforward_catalog
  get_feedforward_catalog-Does call = does tt refl

  pub set_gravity_scale-Does :
      (values : List Double) (call : Call Arm (Unit {0}))
      → Obeys call (set_gravity_scale values) (handle_set_gravity_scale values)
  unfolding handle_set_gravity_scale
  set_gravity_scale-Does values call =
      Does-change drop1 (gated-Does _ _ (IsVector-iff values 7 _) (tell-Does _ _))

  pub set_inertia_scale-Does :
      (values : List Double) (call : Call Arm (Unit {0}))
      → Obeys call (set_inertia_scale values) (handle_set_inertia_scale values)
  unfolding handle_set_inertia_scale
  set_inertia_scale-Does values call =
      Does-change drop1
        (gated-Does _ _ (IsVector-iff values 7 _) (on_success-Does _ _ (λ s. refl) (tell-Does _ _)))

  pub set_gravity_vector-Does :
      (g : Vector3) (call : Call Arm (Unit {0}))
      → Obeys call (set_gravity_vector g) (handle_set_gravity_vector g)
  unfolding handle_set_gravity_vector
  set_gravity_vector-Does g call =
      Does-change drop1 (gated-Does _ _ (vector3_iff g) (tell-Does _ _))

  pub probe_model-Does : (call : Call Arm Bool) → Obeys call model_probe handle_probe_model
  unfolding handle_probe_model
  probe_model-Does call = answer-Does _ model_probe _ (λ r s. refl)

  pub get_model_body-Does :
      (body : ℤ) (call : Call Arm (List Double))
      → Obeys call (get_body body) (handle_get_model_body body)
  unfolding handle_get_model_body
  get_model_body-Does body call = answer-Does _ (get_body body) _ (λ r s. refl)

  pub set_model_body-Does :
      (body : ℤ) (values : List Double) (call : Call Arm (Unit {0}))
      → Obeys call (set_model_body body values) (handle_set_model_body body values)
  unfolding handle_set_model_body
  set_model_body-Does body values call =
      Does-change drop1
        (gated-Does _ _ (any_values_iff values _) (on_success-Does _ _ (λ s. refl) (tell-Does _ _)))

  pub get_model_jm-Does : (call : Call Arm (List Double)) → Obeys call get_jm handle_get_model_jm
  unfolding handle_get_model_jm
  get_model_jm-Does call = answer-Does _ get_jm _ (λ r s. refl)

  pub set_model_jm-Does :
      (values : List Double) (call : Call Arm (Unit {0}))
      → Obeys call (set_jm values) (handle_set_model_jm values)
  unfolding handle_set_model_jm
  set_model_jm-Does values call =
      Does-change drop1
        (gated-Does _ _ (any_values_iff values _) (on_success-Does _ _ (λ s. refl) (tell-Does _ _)))

  pub commit_model-Does :
      (mask : ℕ) (call : Call Arm (Unit {0}))
      → Obeys call (commit (mask % 2 ^ 16)) (handle_commit_model mask)
  unfolding handle_commit_model
  commit_model-Does mask call = reading-Does _ (
      Does-change drop1
        (gated-Does _ _ (inverted_iff _ _) (on_success-Does _ _ (λ s. refl) (tell-Does _ _))))

  pub revert_model-Does : (call : Call Arm (Unit {0})) → Obeys call revert handle_revert_model
  unfolding handle_revert_model
  revert_model-Does call = tell-Does _ _

  pub get_model_status-Does :
      (call : Call Arm ModelReport) → Obeys call model_status handle_get_model_status
  unfolding handle_get_model_status
  get_model_status-Does call = answer-Does _ model_status _ (λ r s. refl)
