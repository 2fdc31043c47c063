-- ===== src/Config/Effect.antt =====
-- What the configuration services of litearm_driver/src/litearm_driver_node.cpp do.
use litearm_ros.Prelude.{
  ℕ, ℤ, pos, ◌<ℤ◌, ltb_ℤ, true, Bool-cases, Option, none, some, List, ◌≡◌, ◌↔◌, ◌⊎◌, inl, inr, refl,
  arith, if◌then◌else◌, drop1, drop2,
}
use litearm_ros.Double.{Double}
use litearm_ros.Sdk.{
  Command, Sdk, Vector3, set_speed, set_motion_mode, set_payload, set_ff_mask, ff_preset,
  set_ff_scalar, set_ff_vec, get_ff_scalar, all_joint_params, get_joint_param, set_joint_param,
  set_joint_limits,
}
use litearm_ros.Gates.{check_joint_index}
use litearm_ros.Gates.Accept.{integer_gates_exact, check_mass_iff, check_joint_index_iff}
use litearm_ros.Gates.Iff.{com_iff, ff_values_iff}
use litearm_ros.Node.{Node, Call, Handler}
use litearm_ros.Node.Effect.{
  Does, Does-change, gated-Does, on_success-Does, reading-Does, tell-Does, answer-Does,
  command-Does, link-Does, plain, effect, effect_unlinked,
}
use litearm_ros.Policy.{Permitted, IsReported}
use litearm_ros.Config.{
  JointParamMessage, axes_of, store_speed, handle_set_speed_scaling, handle_set_motion_mode,
  handle_set_payload, handle_set_feedforward_mask, handle_set_feedforward_preset,
  handle_set_feedforward_scalar, handle_set_feedforward_vector, handle_get_feedforward_scalar,
  handle_get_joint_params, handle_set_joint_gains, handle_set_joint_limits,
}

-- One axis of the session, or all of them for a negative index.
abbrev pub asked_params : ℤ → Command
asked_params joint = if ltb_ℤ joint (pos 0) then all_joint_params else get_joint_param joint

negative_iff : (joint : ℤ) → (ltb_ℤ joint (pos 0) ≡ true) ↔ (joint <ℤ pos 0)
negative_iff joint = ground arith

module _ {Arm : Type 0} ⦃sdk : Sdk Arm⦄ where
  -- The speed scaling that the device took.
  abbrev pub keep_speed : ℕ → Unit {0} → Node Arm → Node Arm
  keep_speed percent _ node = record node { speed_scaling = percent }

  pub set_speed_scaling-Does :
      (percent : ℕ) (call : Call Arm (Unit {0}))
      → Does
          (Permitted call.node (set_speed (pos percent)))
          (effect (set_speed (pos percent)) (keep_speed percent) call.node)
          (handle_set_speed_scaling percent)
          call
  unfolding handle_set_speed_scaling store_speed
  set_speed_scaling-Does percent call = Does-change drop1 (
      gated-Does _ _ (integer_gates_exact (pos percent) (pos 0)).0
        (command-Does _ (set_speed (pos percent)) _ (keep_speed percent) (λ r s. refl)))

  module _ {B : Type 0} (call : Call Arm B) where
    -- The handler makes the call whenever the policy permits it, and else does nothing.
    abbrev Obeys : Command → Handler Arm B → Type 0
    Obeys c handler = Does (Permitted call.node c) (plain c call.node) handler call

  pub set_motion_mode-Does :
      (mode : ℤ) (call : Call Arm (Unit {0}))
      → Obeys call (set_motion_mode mode) (handle_set_motion_mode mode)
  unfolding handle_set_motion_mode
  set_motion_mode-Does mode call = on_success-Does _ _ (λ s. refl) (tell-Does _ _)

  pub set_payload-Does :
      (mass : Double) (centre : Vector3) (call : Call Arm (Unit {0}))
      → Obeys call (set_payload mass centre) (handle_set_payload mass centre)
  unfolding handle_set_payload
  set_payload-Does mass centre call = Does-change drop2 (
      gated-Does _ _ (check_mass_iff mass)
        (gated-Does _ _ (com_iff centre) (on_success-Does _ _ (λ s. refl) (tell-Does _ _))))

  pub set_feedforward_mask-Does :
      (mask : ℕ) (call : Call Arm (Unit {0}))
      → Obeys call (set_ff_mask mask) (handle_set_feedforward_mask mask)
  unfolding handle_set_feedforward_mask
  set_feedforward_mask-Does mask call = tell-Does _ _

  pub set_feedforward_preset-Does :
      (preset : ℤ) (call : Call Arm (Unit {0}))
      → Obeys call (ff_preset preset) (handle_set_feedforward_preset preset)
  unfolding handle_set_feedforward_preset
  set_feedforward_preset-Does preset call =
      Does-change drop1 (gated-Does _ _ (integer_gates_exact preset (pos 0)).1 (tell-Does _ _))

  pub set_feedforward_scalar-Does :
      (item sub : ℤ) (value : Double) (call : Call Arm (Unit {0}))
      → Obeys call (set_ff_scalar item sub value) (handle_set_feedforward_scalar item sub value)
  unfolding handle_set_feedforward_scalar
  set_feedforward_scalar-Does item sub value call =
      answer-Does _ (set_ff_scalar item sub value) _ (λ r s. refl)

  pub set_feedforward_vector-Does :
      (item : ℤ) (values : List Double) (call : Call Arm (Unit {0}))
      → Obeys call (set_ff_vec item values) (handle_set_feedforward_vector item values)
  unfolding handle_set_feedforward_vector
  set_feedforward_vector-Does item values call =
      Does-change drop1 (gated-Does _ _ (ff_values_iff values) (tell-Does _ _))

  pub get_feedforward_scalar-Does :
      (item sub : ℤ) (call : Call Arm Double)
      → Obeys call (get_ff_scalar item sub) (handle_get_feedforward_scalar item sub)
  unfolding handle_get_feedforward_scalar
  get_feedforward_scalar-Does item sub call = answer-Does _ (get_ff_scalar item sub) _ (λ r s. refl)

  IsReported-iff :
      (session : Option Arm) (joint : ℤ)
      → ((check_joint_index joint (axes_of session)).ok ≡ true) ↔ IsReported session joint
  IsReported-iff none joint =
      (λ h. absurd (ground (arith, (check_joint_index_iff joint (pos 0)).0 h)), λ h. absurd h)
  IsReported-iff (some arm) joint = check_joint_index_iff joint (sdk.axes arm)

  pub set_joint_gains-Does :
      (joint : ℤ) (kp kd tau_max : Double) (call : Call Arm (Unit {0}))
      → Obeys call
          (set_joint_param joint kp kd tau_max)
          (handle_set_joint_gains joint kp kd tau_max)
  unfolding handle_set_joint_gains
  set_joint_gains-Does joint kp kd tau_max call = reading-Does _ (
      link-Does _ (effect_unlinked (set_joint_param joint kp kd tau_max) (λ _ n. n) call.node)
        (Does-change drop1 (gated-Does _ _ (IsReported-iff call.node.arm joint) (tell-Does _ _))))

  pub set_joint_limits-Does :
      (joint : ℤ) (q_min q_max : Double) (call : Call Arm (Unit {0}))
      → Obeys call (set_joint_limits joint q_min q_max) (handle_set_joint_limits joint q_min q_max)
  unfolding handle_set_joint_limits
  set_joint_limits-Does joint q_min q_max call = reading-Does _ (
      link-Does _ (effect_unlinked (set_joint_limits joint q_min q_max) (λ _ n. n) call.node)
        (Does-change drop1 (gated-Does _ _ (IsReported-iff call.node.arm joint) (tell-Does _ _))))

  pub get_joint_params-Does :
      (joint : ℤ) (call : Call Arm (List JointParamMessage))
      → Does
          ((joint <ℤ pos 0) ⊎ IsReported call.node.arm joint)
          (plain (asked_params joint) call.node)
          (handle_get_joint_params joint)
          call
  unfolding handle_get_joint_params
  get_joint_params-Does joint call = reading-Does _ (
      link-Does _ (effect_unlinked (asked_params joint) (λ _ n. n) call.node)
        (elim (Bool-cases (ltb_ℤ joint (pos 0))) [
          | inl negative ↦ rw negative (
              Does-change (λ u. inl ((negative_iff joint).0 negative), λ q. tt)
                (answer-Does _ all_joint_params _ (λ r s. refl)))
          | inr named ↦ rw named (
              Does-change
                (
                  λ h. inr h.0,
                  λ q. elim q [
                    | inl n ↦ absurd (ground (arith, (negative_iff joint).1 n))
                    | inr r ↦ (r, tt)
                  ],
                )
                (gated-Does _ _ (IsReported-iff call.node.arm joint)
                  (answer-Does _ (get_joint_param joint) _ (λ r s. refl))))
        ]))
