-- ===== src/Config/Permission.antt =====
-- Every SDK call of the configuration handlers (litearm_driver/src/litearm_driver_node.cpp) is
-- permitted.
use litearm_ros.Prelude.{
  ℕ, ℤ, pos, ltb_ℤ, true, none, some, Option, List, ◌≡◌, refl, inl, inr, Bool-cases,
}
use litearm_ros.Double.{Double}
use litearm_ros.Sdk.{Sdk, Vector3}
use litearm_ros.Gates.{check_connected, check_joint_index}
use litearm_ros.Gates.Accept.{
  integer_gates_exact, check_mass_iff, check_com_finite, check_ff_values_finite,
  check_joint_index_iff,
}
use litearm_ros.Node.{Node, Call, connected, is_linked}
use litearm_ros.Node.Growth.{
  Sends, gated-Sends, on_success-Sends, reading-Sends, command-Sends, tell-Sends,
}
use litearm_ros.Policy.{Permitted, IsReported}
use litearm_ros.Config.{
  JointParamMessage, axes_of, axis_count, handle_set_speed_scaling, handle_set_motion_mode,
  handle_set_payload, handle_set_feedforward_mask, handle_set_feedforward_preset,
  handle_set_feedforward_scalar, handle_set_feedforward_vector, handle_get_feedforward_scalar,
  handle_get_joint_params, handle_set_joint_gains, handle_set_joint_limits,
}

module _ {Arm : Type 0} ⦃sdk : Sdk Arm⦄ where
  -- The index gate speaks of the axes of the session that the link test found.
  IsReported-arm :
      (session : Option Arm) (joint : ℤ)
      → (check_connected (is_linked session)).ok ≡ true
      → (check_joint_index joint (axes_of session)).ok ≡ true
      → IsReported session joint
  unfolding check_connected
  IsReported-arm none joint link index = cc
  IsReported-arm (some arm) joint link index = (check_joint_index_iff joint (sdk.axes arm)).0 index

  reported :
      (node : Node Arm) (joint : ℤ)
      → (check_connected (connected node)).ok ≡ true
      → (check_joint_index joint (axis_count node)).ok ≡ true
      → IsReported node.arm joint
  unfolding connected
  reported node joint link index = IsReported-arm node.arm joint link index

  pub set_speed_scaling-Sends :
      (percent : ℕ) (call : Call Arm (Unit {0}))
      → Sends (Permitted call.node) (handle_set_speed_scaling percent) call
  unfolding handle_set_speed_scaling
  set_speed_scaling-Sends percent call = gated-Sends _ _ λ h.
      command-Sends _ _ _ ((integer_gates_exact (pos percent) (pos 0)).0.0 h) (λ r s. (refl, refl))

  pub set_motion_mode-Sends :
      (mode : ℤ) (call : Call Arm (Unit {0}))
      → Sends (Permitted call.node) (handle_set_motion_mode mode) call
  unfolding handle_set_motion_mode
  set_motion_mode-Sends mode call = on_success-Sends _ _ (λ s. (refl, refl)) (tell-Sends _ _ tt)

  pub set_payload-Sends :
      (mass : Double) (centre : Vector3) (call : Call Arm (Unit {0}))
      → Sends (Permitted call.node) (handle_set_payload mass centre) call
  unfolding handle_set_payload
  set_payload-Sends mass centre call = gated-Sends _ _ λ m. gated-Sends _ _ λ c.
      on_success-Sends _ _ (λ s. (refl, refl))
        (tell-Sends _ _ ((check_mass_iff mass).0 m, check_com_finite centre c))

  pub set_feedforward_mask-Sends :
      (mask : ℕ) (call : Call Arm (Unit {0}))
      → Sends (Permitted call.node) (handle_set_feedforward_mask mask) call
  unfolding handle_set_feedforward_mask
  set_feedforward_mask-Sends mask call = tell-Sends _ _ tt

  pub set_feedforward_preset-Sends :
      (preset : ℤ) (call : Call Arm (Unit {0}))
      → Sends (Permitted call.node) (handle_set_feedforward_preset preset) call
  unfolding handle_set_feedforward_preset
  set_feedforward_preset-Sends preset call =
      gated-Sends _ _ λ h. tell-Sends _ _ ((integer_gates_exact preset (pos 0)).1.0 h)

  pub set_feedforward_scalar-Sends :
      (item sub : ℤ) (value : Double) (call : Call Arm (Unit {0}))
      → Sends (Permitted call.node) (handle_set_feedforward_scalar item sub value) call
  unfolding handle_set_feedforward_scalar
  set_feedforward_scalar-Sends item sub value call = command-Sends _ _ _ tt (λ r s. (refl, refl))

  pub set_feedforward_vector-Sends :
      (item : ℤ) (values : List Double) (call : Call Arm (Unit {0}))
      → Sends (Permitted call.node) (handle_set_feedforward_vector item values) call
  unfolding handle_set_feedforward_vector
  set_feedforward_vector-Sends item values call =
      gated-Sends _ _ λ h. tell-Sends _ _ (check_ff_values_finite values h)

  pub get_feedforward_scalar-Sends :
      (item sub : ℤ) (call : Call Arm Double)
      → Sends (Permitted call.node) (handle_get_feedforward_scalar item sub) call
  unfolding handle_get_feedforward_scalar
  get_feedforward_scalar-Sends item sub call = command-Sends _ _ _ tt (λ r s. (refl, refl))

  pub get_joint_params-Sends :
      (joint : ℤ) (call : Call Arm (List JointParamMessage))
      → Sends (Permitted call.node) (handle_get_joint_params joint) call
  unfolding handle_get_joint_params
  get_joint_params-Sends joint call = reading-Sends _ (
      gated-Sends _ _ λ link. elim (Bool-cases (ltb_ℤ joint (pos 0))) [
        | inl every ↦ rw every (command-Sends _ _ _ tt (λ r s. (refl, refl)))
        | inr one ↦ rw one (
            gated-Sends _ _ λ index.
              command-Sends _ _ _ (reported call.node joint link index) (λ r s. (refl, refl)))
      ])

  pub set_joint_gains-Sends :
      (joint : ℤ) (kp kd tau_max : Double) (call : Call Arm (Unit {0}))
      → Sends (Permitted call.node) (handle_set_joint_gains joint kp kd tau_max) call
  unfolding handle_set_joint_gains
  set_joint_gains-Sends joint kp kd tau_max call = reading-Sends _ (
      gated-Sends _ _
        λ link. gated-Sends _ _ λ index. tell-Sends _ _ (reported call.node joint link index))

  pub set_joint_limits-Sends :
      (joint : ℤ) (q_min q_max : Double) (call : Call Arm (Unit {0}))
      → Sends (Permitted call.node) (handle_set_joint_limits joint q_min q_max) call
  unfolding handle_set_joint_limits
  set_joint_limits-Sends joint q_min q_max call = reading-Sends _ (
      gated-Sends _ _
        λ link. gated-Sends _ _ λ index. tell-Sends _ _ (reported call.node joint link index))
