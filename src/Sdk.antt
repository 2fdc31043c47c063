-- ===== src/Sdk.antt =====
-- The LiteArm SDK (`litearm::Arm` and its sub-objects), which is not part of this repository: its
-- data as the driver reads it, one constructor of `Command` for each SDK call that the driver
-- makes on the link, and the interface that an SDK object offers. Nothing is assumed of what the
-- firmware answers: `exec` is any function.
use litearm_ros.Prelude.{ℕ, ℤ, Bool, String, List, [], ◌∷◌, Option}
use litearm_ros.Double.{Double}

-- `std::array<double, 3>` and `std::array<double, 6>`.
pub record Vector3 : Type 0 where
  pub x : Double
  pub y : Double
  pub z : Double

pub record Pose : Type 0 where
  pub x : Double
  pub y : Double
  pub z : Double
  pub roll : Double
  pub pitch : Double
  pub yaw : Double

-- `std::vector<double>(a.begin(), a.end())`.
abbrev pub vector_values : Vector3 → List Double
vector_values v = v.x ∷ v.y ∷ v.z ∷ []

abbrev pub pose_values : Pose → List Double
pose_values p = p.x ∷ p.y ∷ p.z ∷ p.roll ∷ p.pitch ∷ p.yaw ∷ []

-- One axis of `litearm::RobotState`.
pub record JointState : Type 0 where
  pub q : Double
  pub dq : Double
  pub tau : Double
  pub t_mos : Double
  pub t_coil : Double
  pub err : ℕ

-- `litearm::RobotState`; its methods without arguments are fields.
pub record RobotState : Type 0 where
  pub enabled : Bool
  pub faulted : Bool
  pub fault_detail : String
  pub cart_busy : Bool
  pub joint_fault : ℕ
  pub drop_hold_inferred : Bool
  pub mode : ℕ
  pub mode_name : String
  pub flags : ℕ
  pub joints : List JointState

-- A value with the time at which the SDK received it.
pub record Stamped (A : Type 0) : Type 0 where
  pub value : A
  pub timestamp : Double

pub record LicenseInfo : Type 0 where
  pub state : ℕ
  pub state_name : String
  pub uid_hex : String
  pub activated : Bool

pub record CartPlan : Type 0 where
  pub ok : Bool
  pub settled : Bool
  pub err : ℤ
  pub n_wp : ℤ
  pub plan_us : ℕ
  pub settle_err_rad : Double
  pub q_final : List Double

pub record JointParam : Type 0 where
  pub idx : ℤ
  pub kp : Double
  pub kd : Double
  pub tau_max : Double
  pub q_min : Double
  pub q_max : Double

pub record ModelStatus : Type 0 where
  pub override_level : ℤ
  pub staged_mask : ℕ
  pub dirty : ℤ

pub record KinBenchResult : Type 0 where
  pub raw : String
  pub timings : List (String × List ℤ)
  pub crc_errors : ℤ
  pub reply_dropped : ℤ
  pub can_tx_fail : ℤ
  pub loop_max_kcycle : ℤ
  pub loop_overruns : ℤ
  pub rx_fifo_lost_motor : ℤ
  pub rx_fifo_lost_bridge : ℤ
  pub gsusb_ring_drops : ℤ

pub record HostStats : Type 0 where
  pub cart_probe_silent : Bool
  pub dropped : ℕ
  pub bad_status_frames : ℕ
  pub flush_failures : ℕ
  pub cart_evicted_unclaimed : ℕ
  pub cart_extra_replies : ℕ

-- The SDK calls of the driver, with their arguments.
pub data Command : Type 0 where
  connect close reconnect read_license : Command
  enable : ℤ → Command
  disable reset clear_faults emergency_stop park save_params reset_factory enter_dfu : Command
  zero_g_start : Double → Command
  zero_g_stop : Bool → Command
  get_status_now : Double → Command
  set_speed set_motion_mode : ℤ → Command
  set_payload : Double → Vector3 → Command
  set_ff_mask : ℕ → Command
  ff_preset : ℤ → Command
  set_ff_scalar : ℤ → ℤ → Double → Command
  set_ff_vec : ℤ → List Double → Command
  get_ff_scalar : ℤ → ℤ → Command
  all_joint_params : Command
  get_joint_param : ℤ → Command
  set_joint_param : ℤ → Double → Double → Double → Command
  set_joint_limits : ℤ → Double → Double → Command
  movej movej_sync : List Double → Double → Command
  move_p move_l : Pose → Double → Bool → Command
  move_js : List Double → List Double → List Double → Command
  send_mit : ℤ → Double → Double → Double → Double → Double → Command
  send_mit_all : List Double → List Double → List Double → List Double → List Double → Command
  home : Command
  move_c : Pose → Pose → Pose → Double → Bool → Command
  move_path : List Pose → Double → Bool → Command
  poll_cart : Command
  ik : Pose → List Double → Double → Command
  get_ff_vec : ℤ → Command
  get_ff_mask : Command
  set_gravity_scale set_inertia_scale : List Double → Command
  set_gravity_vector : Vector3 → Command
  model_probe : Command
  get_body : ℤ → Command
  set_body : ℤ → List Double → Command
  get_jm : Command
  set_jm : List Double → Command
  commit : ℕ → Command
  revert model_status : Command
  log_start : ℤ → Command
  log_stop : Command
  log_dump : String → Bool → Double → ℤ → Double → Command
  get_tcp : Command
  kin_bench : Double → Command

-- What each call returns when it does not throw.
abbrev pub Reply : Command → Type 0
Reply read_license = LicenseInfo
Reply (get_status_now t) = Stamped RobotState
Reply (get_ff_scalar i s) = Stamped Double
Reply all_joint_params = List JointParam
Reply (get_joint_param i) = Stamped JointParam
Reply (move_l p s w) = CartPlan
Reply (move_c a b c s w) = CartPlan
Reply (move_path ps s w) = CartPlan
Reply poll_cart = Option CartPlan
Reply (ik p s t) = List Double
Reply (get_ff_vec i) = Stamped (List Double)
Reply get_ff_mask = ℕ
Reply model_probe = Bool
Reply (get_body b) = Stamped (List Double)
Reply get_jm = Stamped (List Double)
Reply model_status = Stamped ModelStatus
Reply (log_dump f w t r d) = ℕ
Reply get_tcp = Stamped (Option Pose)
Reply (kin_bench t) = Stamped KinBenchResult
Reply _ = Unit {0}

-- An SDK call returns or throws; the driver reads only the exception's text.
pub data Result (A : Type 0) : Type 0 where
  ok : A → Result A
  threw : String → Result A

pub record ArmOptions : Type 0 where
  pub port : Option String

-- The SDK object, over any type of session states. `exec` is every call that goes to the device;
-- the other methods read what the host side of the session holds and send nothing.
pub record Sdk (Arm : Type 0) : Type 0 where
  pub create_arm : ArmOptions → Option Arm
  pub exec : (c : Command) → Arm → Result (Reply c) × Arm
  pub is_connected : Arm → Bool
  pub is_in_dfu : Arm → Bool
  pub axes : Arm → ℤ
  pub firmware : Arm → String
  pub last_reset_reason : Arm → String
  pub zero_g_active : Arm → Bool
  pub zero_g_error_text : Arm → String
  pub port_string : Arm → String
  pub cached : Arm → Result (Stamped (Option RobotState))
  pub host_stats : Arm → HostStats
  pub banner_version : Arm → Option String
  pub cart_supported : Arm → Bool
  pub status_seq : Arm → ℕ
  pub msg_hz : ℕ → Arm → Double
  pub sample_size : ℤ → ℤ
  -- Not the SDK's: whether rclcpp takes the string as the name of a topic.
  pub accepts_topic : String → Bool
  pub default_state : RobotState
  pub default_license : LicenseInfo
  pub kin_bench_timeout : Double
  pub zero_g_keepalive : Double
  pub rsp_status : ℕ
  pub rsp_ack : ℕ
  pub rsp_err : ℕ
  pub rsp_firmware : ℕ
  pub rsp_detail : ℕ
  pub rsp_model_status : ℕ
  pub rsp_log_data : ℕ
  pub ff_vec_items : List (ℤ × String)
  pub ff_scalar_items : List (ℤ × String)
  pub ff_scalar_ro_items : List (ℤ × String)

-- What a callback reads of its surroundings: the ROS time, `now_s() - stamp_s` on the SDK clock, and
-- `std::to_string` of a double.
pub record Moment : Type 0 where
  pub ros_now : ℕ
  pub elapsed : Double → Double
  pub double_to_string : Double → String
