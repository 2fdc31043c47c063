-- ===== src/Tests/Bench.antt =====
-- The simulated device: a six-axis arm whose every call returns, and nodes that are linked to it.
use litearm_ros.Prelude.{ℕ, pos, Bool, true, false, none, some, List, [], ◌∷◌, ◌^◌, not, same_text}
use litearm_ros.Double.{Double, zero_d, whole, finite}
use litearm_ros.Sdk.{
  Command, connect, close, reconnect, enable, disable, zero_g_start, zero_g_stop, read_license,
  get_status_now, get_ff_scalar, all_joint_params, get_joint_param, move_l, move_c, move_path,
  poll_cart, ik, get_ff_vec, get_ff_mask, model_probe, get_body, get_jm, model_status, log_dump,
  get_tcp, kin_bench, Reply, ok, Sdk, RobotState, JointState, Stamped, LicenseInfo, CartPlan,
  JointParam, KinBenchResult, Pose, Moment,
}
use litearm_ros.Node.{Node, Parameters}
use litearm_ros.Lifecycle.{default_parameters}
use litearm_ros.Service.{World}

pub record BenchArm : Type 0 where
  pub linked : Bool
  pub enabled : Bool
  pub in_zero_g : Bool

abbrev joint_of : ℕ → JointState
joint_of k = record {
  q = whole k;
  dq = zero_d;
  tau = zero_d;
  t_mos = whole 30;
  t_coil = whole 40;
  err = 0;
}

abbrev pub frame : Bool → RobotState
frame enabled = record {
  enabled = enabled;
  faulted = false;
  fault_detail = "";
  cart_busy = false;
  joint_fault = 0;
  drop_hold_inferred = false;
  mode = 0;
  mode_name = "park";
  flags = 0;
  joints = joint_of 1 ∷ joint_of 2 ∷ joint_of 3 ∷ joint_of 4 ∷ joint_of 5 ∷ joint_of 6 ∷ [];
}

abbrev pub license : LicenseInfo
license = record { state = 2; state_name = "activated"; uid_hex = "00ff"; activated = true }

abbrev pub stamped : {A : Type 0} → A → Stamped A
stamped value = record { value = value; timestamp = whole 7 }

abbrev plan : CartPlan
plan = record {
  ok = true;
  settled = true;
  err = pos 0;
  n_wp = pos 2;
  plan_us = 900;
  settle_err_rad = zero_d;
  q_final = [];
}

abbrev param : JointParam
param = record {
  idx = pos 0;
  kp = whole 20;
  kd = whole 1;
  tau_max = whole 10;
  q_min = zero_d;
  q_max = whole 3;
}

abbrev bench : KinBenchResult
bench = record {
  raw = "fk=1";
  timings = ("fk", pos 1 ∷ pos 2 ∷ []) ∷ [];
  crc_errors = pos 0;
  reply_dropped = pos 0;
  can_tx_fail = pos 0;
  loop_max_kcycle = pos 5;
  loop_overruns = pos 0;
  rx_fifo_lost_motor = pos 0;
  rx_fifo_lost_bridge = pos 0;
  gsusb_ring_drops = pos 0;
}

abbrev pub reply : (c : Command) → BenchArm → Reply c
reply read_license arm = license
reply (get_status_now t) arm = stamped (frame arm.enabled)
reply (get_ff_scalar i s) arm = stamped zero_d
reply all_joint_params arm = param ∷ []
reply (get_joint_param i) arm = stamped param
reply (move_l p s w) arm = plan
reply (move_c a b c s w) arm = plan
reply (move_path ps s w) arm = plan
reply poll_cart arm = some plan
reply (ik p s t) arm = zero_d ∷ []
reply (get_ff_vec i) arm = stamped (zero_d ∷ [])
reply get_ff_mask arm = 3
reply model_probe arm = true
reply (get_body b) arm = stamped (zero_d ∷ [])
reply get_jm arm = stamped (zero_d ∷ [])
reply model_status arm = stamped (record { override_level = pos 0; staged_mask = 0; dirty = pos 0 })
reply (log_dump f w t r d) arm = 480
reply get_tcp arm = stamped none
reply (kin_bench t) arm = stamped bench
reply _ arm = tt

abbrev pub run : Command → BenchArm → BenchArm
run connect arm = record arm { linked = true }
run reconnect arm = record arm { linked = true }
run close arm = record arm { linked = false }
run (enable attempts) arm = record arm { enabled = true }
run disable arm = record arm { enabled = false }
run (zero_g_start period) arm = record arm { in_zero_g = true }
run (zero_g_stop hold) arm = record arm { in_zero_g = false }
run _ arm = arm

instance abbrev pub bench_sdk : Sdk BenchArm
bench_sdk = record {
  create_arm = λ options. some (record { linked = false; enabled = false; in_zero_g = false });
  exec = λ c arm. (ok (reply c arm), run c arm);
  is_connected = λ arm. arm.linked;
  is_in_dfu = λ arm. false;
  axes = λ arm. pos 6;
  firmware = λ arm. "1.8.0";
  last_reset_reason = λ arm. "power-on";
  zero_g_active = λ arm. arm.in_zero_g;
  zero_g_error_text = λ arm. "";
  port_string = λ arm. "/dev/ttyACM0";
  cached = λ arm. ok (stamped (some (frame arm.enabled)));
  host_stats = λ arm. record {
    cart_probe_silent = false;
    dropped = 0;
    bad_status_frames = 0;
    flush_failures = 0;
    cart_evicted_unclaimed = 0;
    cart_extra_replies = 0;
  };
  banner_version = λ arm. some "1.8.0";
  cart_supported = λ arm. true;
  status_seq = λ arm. 1;
  msg_hz = λ id arm. whole 100;
  sample_size = λ axes. pos 76;
  accepts_topic = λ topic. not (same_text topic "/joint-states");
  default_state = frame false;
  default_license = license;
  kin_bench_timeout = whole 30;
  zero_g_keepalive = finite (pos (2 ^ 1069));
  rsp_status = 1;
  rsp_ack = 2;
  rsp_err = 3;
  rsp_firmware = 4;
  rsp_detail = 5;
  rsp_model_status = 6;
  rsp_log_data = 7;
  ff_vec_items = [];
  ff_scalar_items = [];
  ff_scalar_ro_items = [];
}

-- The parameters of a launch: the defaults, with the answer to "may the arm move".
abbrev pub launch : Bool → Parameters
launch moves = record (default_parameters (finite (pos (2 ^ 1069)))) { allow_motion = moves }

abbrev pub bench_arm : Bool → BenchArm
bench_arm enabled = record { linked = true; enabled = enabled; in_zero_g = false }

-- A node that is linked to the arm.
abbrev pub linked_node : Bool → Bool → Node BenchArm
linked_node moves enabled = record {
  parameters = launch moves;
  port = "";
  joint_names = "joint1" ∷ "joint2" ∷ "joint3" ∷ "joint4" ∷ "joint5" ∷ "joint6" ∷ [];
  auto_enable = true;
  enable_attempts = pos 12;
  status_rate_hz = whole 10;
  publish_joint_states = false;
  joint_states_topic = "/joint_states";
  publish_diagnostics = true;
  diagnostics_rate_hz = whole 1;
  frame_id = "";
  log_dir = "/var/log/litearm";
  arm = some (bench_arm enabled);
  services = [];
  status_publisher = none;
  joint_state_publisher = none;
  diagnostics_publisher = none;
  status_timer = none;
  diagnostics_timer = none;
  license_valid = true;
  license = license;
  speed_scaling = 100;
  last_state = frame enabled;
  have_state = true;
  last_state_stamp = whole 7;
  issued = [];
}

abbrev pub moment : Moment
moment = record { ros_now = 1; elapsed = λ stamp. zero_d; double_to_string = λ d. "0.000000" }

abbrev pub world : World
world = record { at = moment; create_directories = λ dir. ok tt }

abbrev pub home_pose : Pose
home_pose = record {
  x = whole 1;
  y = zero_d;
  z = whole 1;
  roll = zero_d;
  pitch = zero_d;
  yaw = zero_d;
}

abbrev pub six : List Double
six = zero_d ∷ zero_d ∷ zero_d ∷ zero_d ∷ zero_d ∷ zero_d ∷ []
