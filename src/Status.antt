-- ===== src/Status.antt =====
-- The status message, the joint states, the diagnostics and the get_status handler (the sections
-- "publishing" and "status" of litearm_driver/src/litearm_driver_node.cpp).
pub mod Contents
pub mod Level
pub mod Problems
pub mod Effect
pub mod Permission
pub mod Cache
pub mod Answer
use litearm_ros.Prelude.{
  ℕ, zero, suc, Bool, true, false, Option, none, some, List, [], ◌∷◌, map, String, if◌then◌else◌,
  take, ◌%◌, ◌^◌,
}
use litearm_ros.Double.{Double, nan}
use litearm_ros.Sdk.{get_status_now, Sdk, RobotState, JointState, Stamped, Moment}
use litearm_ros.Node.{
  Node, Handler, set_message, set_body, command, connected, cached_state, joint_count, frame_age,
}

-- `litearm_msgs::msg::LitearmStatus`; a field that the code leaves unset has its default value.
pub record LitearmStatus : Type 0 where
  pub stamp : ℕ
  pub frame_id : String
  pub connected : Bool
  pub in_dfu : Bool
  pub enabled : Bool
  pub faulted : Bool
  pub cart_busy : Bool
  pub joint_fault : ℕ
  pub drop_hold_inferred : Bool
  pub firmware : String
  pub mode : ℕ
  pub mode_name : String
  pub flags : ℕ
  pub last_reset_reason : String
  pub speed_scaling : ℕ
  pub zero_g_active : Bool
  pub zero_g_error : String
  pub joint_names : List String
  pub temperature_mos : List Double
  pub temperature_coil : List Double
  pub joint_error_code : List ℕ
  pub feedback_age : Double
  pub license_valid : Bool
  pub license_state : ℕ
  pub license_state_name : String
  pub license_uid : String

pub record JointStateMessage : Type 0 where
  pub stamp : ℕ
  pub frame_id : String
  pub name : List String
  pub position : List Double
  pub velocity : List Double
  pub effort : List Double

-- `assign(count, missing)` and then the loop over the axes that the frame has.
unfoldable pub per_axis : {A : Type 0} → (JointState → A) → A → ℕ → List JointState → List A
per_axis field missing zero joints = []
per_axis field missing (suc count) [] = missing ∷ per_axis field missing count []
per_axis field missing (suc count) (joint ∷ joints) =
    field joint ∷ per_axis field missing count joints

abbrev joints_of : Option RobotState → List JointState
joints_of none = []
joints_of (some state) = state.joints

abbrev pub flag_of : (RobotState → Bool) → Option RobotState → Bool
flag_of field none = false
flag_of field (some state) = field state

abbrev number_of : (RobotState → ℕ) → Option RobotState → ℕ
number_of field none = 0
number_of field (some state) = field state

abbrev text_of : (RobotState → String) → Option RobotState → String
text_of field none = ""
text_of field (some state) = field state

module _ {Arm : Type 0} ⦃sdk : Sdk Arm⦄ where
  abbrev pub arm_flag : (Arm → Bool) → Option Arm → Bool
  arm_flag field none = false
  arm_flag field (some arm) = field arm

  abbrev pub arm_text : (Arm → String) → Option Arm → String
  arm_text field none = ""
  arm_text field (some arm) = field arm

  -- The frame that a status is built from: the fresh one, or else the cached one.
  abbrev pub frame_of : Node Arm → Option RobotState → Option RobotState
  frame_of node (some fresh) = some fresh
  frame_of node none = if node.have_state then some node.last_state else none

  unfoldable pub build_status : Moment → Node Arm → Option RobotState → LitearmStatus
  unfolding per_axis
  build_status at node fresh =
      let state = frame_of node fresh in
      let count = joint_count node in
      record {
        stamp = at.ros_now;
        frame_id = node.frame_id;
        connected = connected node;
        in_dfu = arm_flag sdk.is_in_dfu node.arm;
        enabled = flag_of (λ s. s.enabled) state;
        faulted = flag_of (λ s. s.faulted) state;
        cart_busy = flag_of (λ s. s.cart_busy) state;
        joint_fault = number_of (λ s. s.joint_fault) state;
        drop_hold_inferred = flag_of (λ s. s.drop_hold_inferred) state;
        firmware = arm_text sdk.firmware node.arm;
        mode = number_of (λ s. s.mode) state % 2 ^ 16;
        mode_name = text_of (λ s. s.mode_name) state;
        flags = number_of (λ s. s.flags) state;
        last_reset_reason = arm_text sdk.last_reset_reason node.arm;
        speed_scaling = node.speed_scaling;
        zero_g_active = arm_flag sdk.zero_g_active node.arm;
        zero_g_error = arm_text sdk.zero_g_error_text node.arm;
        joint_names = node.joint_names;
        temperature_mos = per_axis (λ j. j.t_mos) nan count (joints_of state);
        temperature_coil = per_axis (λ j. j.t_coil) nan count (joints_of state);
        joint_error_code = per_axis (λ j. j.err) 0 count (joints_of state);
        feedback_age = frame_age at node.last_state_stamp;
        license_valid = node.license_valid;
        license_state = if node.license_valid then node.license.state % 2 ^ 8 else 0;
        license_state_name = if node.license_valid then node.license.state_name else "";
        license_uid = if node.license_valid then node.license.uid_hex else "";
      }

  unfoldable pub joint_states : Moment → Node Arm → RobotState → JointStateMessage
  joint_states at node state =
      let axes = take (joint_count node) state.joints in
      record {
        stamp = at.ros_now;
        frame_id = node.frame_id;
        name = node.joint_names;
        position = map (λ j. j.q) axes;
        velocity = map (λ j. j.dq) axes;
        effort = map (λ j. j.tau) axes;
      }

  -- The two messages that a tick of the status timer publishes, where it does, and the node after.
  unfoldable pub publish_status :
      Moment → Node Arm → Option LitearmStatus × Option JointStateMessage × Node Arm
  unfolding build_status joint_states cached_state
  publish_status at node =
      let (state, node') = cached_state node in
      (
        elim node'.status_publisher [
          | none ↦ none
          | some publisher ↦ some (build_status at node' state)
        ],
        elim node'.joint_state_publisher [
          | none ↦ none
          | some publisher ↦ elim state [
            | none ↦ none
            | some frame ↦ some (joint_states at node' frame)
          ]
        ],
        node',
      )

  -- The answer becomes the cached frame, and the response holds the status built from it.
  unfoldable pub store_status : Moment → Stamped RobotState → Handler Arm (Option LitearmStatus)
  unfolding build_status
  store_status at answer call =
      let node' = record call.node {
        last_state = answer.value;
        last_state_stamp = answer.timestamp;
        have_state = true;
      } in
      set_message "status taken from the firmware"
        (set_body (some (build_status at node' (some answer.value))) (record call { node = node' }))

  unfoldable pub handle_get_status : Moment → Double → Handler Arm (Option LitearmStatus)
  unfolding store_status
  handle_get_status at timeout = command "get_status" (get_status_now timeout) (store_status at)
