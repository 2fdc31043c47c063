-- ===== src/Model/Success.antt =====
-- When the services of litearm_driver/src/litearm_driver_model.cpp that stage values succeed.
use litearm_ros.Prelude.{ℤ, true, List, ◌≡◌, ◌↔◌}
use litearm_ros.Double.{Double}
use litearm_ros.Sdk.{
  Command, Sdk, Vector3, set_gravity_scale, set_inertia_scale, set_gravity_vector, set_body, set_jm,
  revert,
}
use litearm_ros.Node.{Call, Handler}
use litearm_ros.Node.Outcome.{Does-success, answers}
use litearm_ros.Policy.{Permitted}
use litearm_ros.Model.{
  handle_set_gravity_scale, handle_set_inertia_scale, handle_set_gravity_vector,
  handle_set_model_body, handle_set_model_jm, handle_revert_model,
}
use litearm_ros.Model.Effect.{
  set_gravity_scale-Does, set_inertia_scale-Does, set_gravity_vector-Does, set_model_body-Does,
  set_model_jm-Does, revert_model-Does,
}

module _ {Arm : Type 0} ⦃sdk : Sdk Arm⦄ where
  abbrev Grants : Command → Handler Arm (Unit {0}) → Call Arm (Unit {0}) → Type 0
  Grants c handler call =
      ((handler call).response.success ≡ true)
      ↔ (Permitted call.node c × (answers c call.node ≡ true))

  -- Each service that stages values of the model succeeds exactly when its values are finite, and seven
  -- for the gravity and inertia scales, at least one for a body and the joint model, the link is up and
  -- its SDK call returns; the state of the motors and allow_motion do not matter. revert_model has no
  -- condition but the last two.
  pub staging_succeeds :
      (values : List Double) (g : Vector3) (body : ℤ) (call : Call Arm (Unit {0}))
      → Grants (set_gravity_scale values) (handle_set_gravity_scale values) call
        × Grants (set_inertia_scale values) (handle_set_inertia_scale values) call
        × Grants (set_gravity_vector g) (handle_set_gravity_vector g) call
        × Grants (set_body body values) (handle_set_model_body body values) call
        × Grants (set_jm values) (handle_set_model_jm values) call
        × (((handle_revert_model call).response.success ≡ true) ↔ (answers revert call.node ≡ true))
  staging_succeeds values g body call = (
    Does-success _ _ _ call (set_gravity_scale-Does values call),
    Does-success _ _ _ call (set_inertia_scale-Does values call),
    Does-success _ _ _ call (set_gravity_vector-Does g call),
    Does-success _ _ _ call (set_model_body-Does body values call),
    Does-success _ _ _ call (set_model_jm-Does values call),
    reverts,
  )
    where
      reverts :
          ((handle_revert_model call).response.success ≡ true) ↔ (answers revert call.node ≡ true)
      reverts =
          let (there, back) = Does-success _ _ _ call (revert_model-Does call) in
          (λ h. (there h).1, λ a. back (tt, a))
