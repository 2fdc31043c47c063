-- ===== src/Config.antt =====
-- The handlers of motion configuration, feedforward writes and joint parameters
-- (litearm_driver/src/litearm_driver_node.cpp).
pub mod Permission
pub mod Effect
pub mod SpeedScaling
use litearm_ros.Prelude.{
  ℕ, ℤ, pos, ltb_ℤ, Option, none, some, List, [], ◌∷◌, map, String, ◌<>◌, to_string, if◌then◌else◌,
}
use litearm_ros.Double.{Double}
use litearm_ros.Sdk.{
  set_speed, set_motion_mode, set_payload, set_ff_mask, ff_preset, set_ff_scalar, set_ff_vec,
  get_ff_scalar, all_joint_params, get_joint_param, set_joint_param, set_joint_limits, Sdk, Vector3,
  JointParam,
}
use litearm_ros.Gates.{
  check_speed_percent, check_mass, check_com, check_ff_preset, check_ff_values, check_connected,
  check_joint_index,
}
use litearm_ros.Node.{
  Node, Handler, gated, reading, on_success, append_message, set_message, set_body, tell, command,
  connected,
}

abbrev mode_note : String
mode_note =
    " (this firmware recognises mode 0 only, which is park(); the SDK rejects other "
    <> "values rather than ACKing a mode change that does not happen)"

abbrev payload_note : String
payload_note =
    " (read it back with get_feedforward_scalar item 4 before trusting it: the "
    <> "firmware clamps silently)"

abbrev scalar_note : String
scalar_note =
    "scalar written; read it back with get_feedforward_scalar, because the firmware "
    <> "clamps silently"

-- `litearm_msgs::msg::JointParam`.
pub record JointParamMessage : Type 0 where
  pub index : ℤ
  pub kp : Double
  pub kd : Double
  pub tau_max : Double
  pub q_min : Double
  pub q_max : Double

unfoldable pub joint_message : JointParam → JointParamMessage
joint_message param = record {
  index = param.idx;
  kp = param.kp;
  kd = param.kd;
  tau_max = param.tau_max;
  q_min = param.q_min;
  q_max = param.q_max;
}

module _ {Arm : Type 0} ⦃sdk : Sdk Arm⦄ where
  unfoldable pub store_speed : ℕ → Handler Arm (Unit {0})
  store_speed percent call =
      set_message ("global speed governor set to " <> to_string percent <> "%")
        (record call { node = record call.node { speed_scaling = percent } })

  unfoldable pub handle_set_speed_scaling : ℕ → Handler Arm (Unit {0})
  unfolding store_speed
  handle_set_speed_scaling percent =
      gated (check_speed_percent (pos percent))
        (command "set_speed_scaling" (set_speed (pos percent)) (λ _. store_speed percent))

  unfoldable pub handle_set_motion_mode : ℤ → Handler Arm (Unit {0})
  handle_set_motion_mode mode =
      on_success (append_message mode_note) (tell "set_motion_mode" (set_motion_mode mode))

  unfoldable pub handle_set_payload : Double → Vector3 → Handler Arm (Unit {0})
  handle_set_payload mass centre = gated (check_mass mass) (
      gated (check_com centre)
        (on_success (append_message payload_note) (tell "set_payload" (set_payload mass centre))))

  unfoldable pub handle_set_feedforward_mask : ℕ → Handler Arm (Unit {0})
  handle_set_feedforward_mask mask = tell "set_feedforward_mask" (set_ff_mask mask)

  unfoldable pub handle_set_feedforward_preset : ℤ → Handler Arm (Unit {0})
  handle_set_feedforward_preset preset =
      gated (check_ff_preset preset) (tell "set_feedforward_preset" (ff_preset preset))

  unfoldable pub handle_set_feedforward_scalar : ℤ → ℤ → Double → Handler Arm (Unit {0})
  handle_set_feedforward_scalar item sub value =
      command "set_feedforward_scalar" (set_ff_scalar item sub value) (λ _. set_message scalar_note)

  unfoldable pub handle_set_feedforward_vector : ℤ → List Double → Handler Arm (Unit {0})
  handle_set_feedforward_vector item values =
      gated (check_ff_values values) (tell "set_feedforward_vector" (set_ff_vec item values))

  unfoldable pub handle_get_feedforward_scalar : ℤ → ℤ → Handler Arm Double
  handle_get_feedforward_scalar item sub =
      command "get_feedforward_scalar" (get_ff_scalar item sub)
        λ answer call. set_message "value read back from the firmware" (set_body answer.value call)

  -- `arm_->n()`, read only where the link is up.
  abbrev pub axes_of : Option Arm → ℤ
  axes_of none = pos 0
  axes_of (some arm) = sdk.axes arm

  abbrev pub axis_count : Node Arm → ℤ
  axis_count node = axes_of node.arm

  unfoldable pub handle_get_joint_params : ℤ → Handler Arm (List JointParamMessage)
  handle_get_joint_params joint = reading λ node. gated (check_connected (connected node)) (
      if ltb_ℤ joint (pos 0)
      then command "get_joint_params" all_joint_params
          (λ params. set_body (map joint_message params))
      else gated (check_joint_index joint (axis_count node)) (
          command "get_joint_params" (get_joint_param joint)
            (λ answer. set_body (joint_message answer.value ∷ []))))

  unfoldable pub handle_set_joint_gains : ℤ → Double → Double → Double → Handler Arm (Unit {0})
  handle_set_joint_gains joint kp kd tau_max = reading λ node.
      gated (check_connected (connected node)) (
        gated (check_joint_index joint (axis_count node))
          (tell "set_joint_gains" (set_joint_param joint kp kd tau_max)))

  unfoldable pub handle_set_joint_limits : ℤ → Double → Double → Handler Arm (Unit {0})
  handle_set_joint_limits joint q_min q_max = reading λ node.
      gated (check_connected (connected node)) (
        gated (check_joint_index joint (axis_count node))
          (tell "set_joint_limits" (set_joint_limits joint q_min q_max)))
