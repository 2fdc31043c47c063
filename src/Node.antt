-- ===== src/Node.antt =====
-- The state of `LitearmDriverNode` (litearm_driver/include/litearm_driver/litearm_driver_node.hpp)
-- and the helpers that its handlers share (service_helpers.hpp, and the section "helpers" of
-- litearm_driver/src/litearm_driver_node.cpp). One field is not in the source: `issued` lists the
-- SDK calls made so far, latest first, so that theorems can speak of what went to the device.
pub mod Growth
pub mod Outcome
pub mod Effect
pub mod Footprint
pub mod Answer
use litearm_ros.Prelude.{
  ℕ, ℤ, Bool, true, false, not, Option, none, some, List, ◌∷◌, String, ◌<>◌, is_empty,
  if◌then◌else◌, length,
}
use litearm_ros.Double.{Double, zero_d, led, minus_one}
use litearm_ros.Sdk.{
  Command, Reply, Result, ok, threw, Sdk, RobotState, LicenseInfo, Stamped, read_license, Moment,
}
use litearm_ros.Gates.{GateResult, check_connected, check_parameter_allows}

-- The declared ROS parameters, which may be set at any time.
pub record Parameters : Type 0 where
  pub port : String
  pub joint_names : List String
  pub auto_enable : Bool
  pub enable_attempts : ℤ
  pub status_rate_hz : Double
  pub publish_joint_states : Bool
  pub joint_states_topic : String
  pub publish_diagnostics : Bool
  pub diagnostics_rate_hz : Double
  pub zero_g_keepalive_period_s : Double
  pub allow_dfu : Bool
  pub allow_motion : Bool
  pub log_dir : String
  pub frame_id : String

-- A lifecycle publisher: its topic, and whether it is activated.
pub record Publisher : Type 0 where
  pub topic : String
  pub active : Bool

pub record Node (Arm : Type 0) : Type 0 where
  pub parameters : Parameters
  pub port : String
  pub joint_names : List String
  pub auto_enable : Bool
  pub enable_attempts : ℤ
  pub status_rate_hz : Double
  pub publish_joint_states : Bool
  pub joint_states_topic : String
  pub publish_diagnostics : Bool
  pub diagnostics_rate_hz : Double
  pub frame_id : String
  pub log_dir : String
  pub arm : Option Arm
  pub services : List String
  pub status_publisher : Option Publisher
  pub joint_state_publisher : Option Publisher
  pub diagnostics_publisher : Option Publisher
  -- the rates of the two wall timers, where they run
  pub status_timer : Option Double
  pub diagnostics_timer : Option Double
  pub license_valid : Bool
  pub license : LicenseInfo
  pub speed_scaling : ℕ
  pub last_state : RobotState
  pub have_state : Bool
  pub last_state_stamp : Double
  pub issued : List Command

-- A service response: the two fields that all of them have, and the rest.
pub record Response (B : Type 0) : Type 0 where
  pub success : Bool
  pub message : String
  pub body : B

-- What a handler works on: the response object and the node.
pub record Call (Arm B : Type 0) : Type 0 where
  pub response : Response B
  pub node : Node Arm

-- The lambda that a handler passes to `run_command`. A throw keeps what was written before it.
abbrev pub Body : Type 0 → Type 0 → Type 0
Body Arm B = Arm → Call Arm B → Result (Unit {0}) × Call Arm B

abbrev pub Handler : Type 0 → Type 0 → Type 0
Handler Arm B = Call Arm B → Call Arm B

module _ {Arm B : Type 0} where
  abbrev pub set_body : B → Call Arm B → Call Arm B
  set_body b call = record call { response = record call.response { body = b } }

  abbrev pub set_message : String → Call Arm B → Call Arm B
  set_message text call = record call { response = record call.response { message = text } }

  unfoldable pub fill_failure : GateResult → Handler Arm B
  fill_failure gate call = record call {
    response = record call.response { success = false; message = gate.message };
  }

  -- `if (!gate.ok) { fill_failure(response, gate); return; }` before the rest of a handler.
  unfoldable pub gated : GateResult → Handler Arm B → Handler Arm B
  unfolding fill_failure
  gated gate rest call = if not gate.ok then fill_failure gate call else rest call

  -- A handler, and then `if (response->success) { ... }`.
  unfoldable pub on_success : (Call Arm B → Call Arm B) → Handler Arm B → Handler Arm B
  on_success change handler call =
      let after = handler call in if after.response.success then change after else after

  -- A handler that reads the node first.
  unfoldable pub reading : (Node Arm → Handler Arm B) → Handler Arm B
  reading handler call = handler call.node call

  -- `response->message += text`.
  abbrev pub append_message : String → Call Arm B → Call Arm B
  append_message text call = set_message (call.response.message <> text) call

  -- The end of `run_command`: the outcome of the lambda fills the response.
  unfoldable pub report : String → Result (Unit {0}) × Call Arm B → Call Arm B
  report what (ok _, call) = record call {
    response = record call.response {
      success = true;
      message = if is_empty call.response.message then what <> ": ok" else call.response.message;
    };
  }
  report what (threw text, call) = record call {
    response = record call.response { success = false; message = what <> " failed: " <> text };
  }

  -- The rest of a lambda after an SDK call, which a throw skips.
  unfoldable pub answered :
      {R : Type 0}
      → (R → Call Arm B → Call Arm B)
      → Result R × Call Arm B
      → Result (Unit {0}) × Call Arm B
  answered store (ok value, call) = (ok tt, store value call)
  answered store (threw text, call) = (threw text, call)

  -- The dereference `*arm`, behind the test that it is not null.
  unfoldable pub with_arm : Option Arm → (Arm → Call Arm B) → Call Arm B → Call Arm B
  with_arm none use_arm call = call
  with_arm (some arm) use_arm call = use_arm arm

abbrev state_enabled : Result (Stamped (Option RobotState)) → Bool
state_enabled (ok message) = elim message.value [ none ↦ false | some state ↦ state.enabled ]
state_enabled (threw text) = false

module _ {Arm : Type 0} ⦃sdk : Sdk Arm⦄ where
  abbrev pub is_linked : Option Arm → Bool
  is_linked none = false
  is_linked (some arm) = sdk.is_connected arm

  -- `arm_ != nullptr && arm_->is_connected()`.
  unfoldable pub connected : Node Arm → Bool
  connected node = is_linked node.arm

  -- One SDK call on the device.
  unfoldable pub issue : (c : Command) → Arm → Node Arm → Result (Reply c) × Node Arm
  issue c arm node =
      let (answer, arm') = sdk.exec c arm in
      (answer, record node { arm = some arm'; issued = c ∷ node.issued })

  unfoldable pub perform :
      {B : Type 0} (c : Command) → Arm → Call Arm B → Result (Reply c) × Call Arm B
  unfolding issue
  perform c arm call =
      let (answer, node') = issue c arm call.node in (answer, record call { node = node' })

  -- A lambda that makes one SDK call and then writes what it answered.
  unfoldable pub ask : {B : Type 0} (c : Command) → (Reply c → Call Arm B → Call Arm B) → Body Arm B
  unfolding perform answered
  ask c store arm call = answered store (perform c arm call)

  unfoldable pub run_command : {B : Type 0} → String → Body Arm B → Handler Arm B
  unfolding gated connected report with_arm check_connected
  run_command what fn call =
      gated (check_connected (connected call.node))
        (λ s. with_arm s.node.arm (λ arm. report what (fn arm s)) s) call

  -- `run_command` with a lambda that makes one SDK call and writes what it answered, or ignores it.
  unfoldable pub command :
      {B : Type 0} → String → (c : Command) → (Reply c → Call Arm B → Call Arm B) → Handler Arm B
  unfolding run_command ask
  command what c store = run_command what (ask c store)

  unfoldable pub tell : {B : Type 0} → String → Command → Handler Arm B
  unfolding command
  tell what c = command what c (λ _ s. s)

  -- The cached frame says that the motors are enabled; no frame, or a failed read, does not.
  unfoldable pub motors_enabled : Node Arm → Bool
  motors_enabled node = elim node.arm [ none ↦ false | some arm ↦ state_enabled (sdk.cached arm) ]

  abbrev remember : Result (Stamped (Option RobotState)) → Node Arm → Node Arm
  remember (ok message) node = elim message.value [
    | none ↦ node
    | some state ↦ record node {
      last_state = state;
      last_state_stamp = message.timestamp;
      have_state = true;
    }
  ]
  remember (threw text) node = node

  abbrev take_cached : Option Arm → Node Arm → Node Arm
  take_cached none node = node
  take_cached (some arm) node = remember (sdk.cached arm) node

  unfoldable pub cached_state : Node Arm → Option RobotState × Node Arm
  cached_state node =
      let node' = take_cached node.arm node in
      (if node'.have_state then some node'.last_state else none, node')

  abbrev store_license : Result LicenseInfo × Node Arm → Result (Unit {0}) × Node Arm
  store_license (ok record_, node) =
      (ok tt, record node { license = record_; license_valid = true })
  store_license (threw text, node) = (threw text, node)

  unfoldable pub refresh_license_record : Node Arm → Result (Unit {0}) × Node Arm
  unfolding issue
  refresh_license_record node = elim node.arm [
    | none ↦ (ok tt, node)
    | some arm ↦ store_license (issue read_license arm node)
  ]

  -- `joint_names_.size()`.
  abbrev pub joint_count : Node Arm → ℕ
  joint_count node = length node.joint_names

  -- The gate in front of every motion service; the parameter is read at each call.
  unfoldable pub require_motion_allowed : {B : Type 0} → Handler Arm B → Handler Arm B
  unfolding gated
  require_motion_allowed rest call =
      gated (check_parameter_allows call.node.parameters.allow_motion "allow_motion") rest call

-- Seconds since the last status frame, or -1 when there was none.
unfoldable pub frame_age : Moment → Double → Double
frame_age at stamp_s = if led stamp_s zero_d then minus_one else at.elapsed stamp_s
