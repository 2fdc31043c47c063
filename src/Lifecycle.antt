-- ===== src/Lifecycle.antt =====
-- The lifecycle callbacks (litearm_driver/src/litearm_driver_node.cpp): reading the parameters,
-- configuring and closing the session, and the services, publishers and timers of an active node.
pub mod Services
pub mod Axes
pub mod Outcome
pub mod Fresh
use litearm_ros.Prelude.{
  pos, to_int32, Bool, true, false, not, ◌&&◌, Option, none, some, [], String, ◌<>◌, is_empty,
  if◌then◌else◌,
}
use litearm_ros.Double.{Double, ltd, whole, zero_d}
use litearm_ros.Sdk.{connect, close, enable, zero_g_stop, Sdk, Result, ok, threw, ArmOptions}
use litearm_ros.Node.{Node, Parameters, Publisher, issue, refresh_license_record}
use litearm_ros.Config.{axis_count}
use Services.{service_names, register_services}
use Axes.{Naming, named, miscounted, not_reserved, name_axes}

pub data CallbackReturn : Type 0 where
  success failure error : CallbackReturn

abbrev home_dir : Option String → String
home_dir none = "."
home_dir (some path) = path

abbrev pub activated : Option Publisher → Option Publisher
activated none = none
activated (some publisher) = some (record publisher { active = true })

abbrev pub deactivated : Option Publisher → Option Publisher
deactivated none = none
deactivated (some publisher) = some (record publisher { active = false })

abbrev new_publisher : String → Option Publisher
new_publisher topic = some (record { topic = topic; active = false })

abbrev is_present : {A : Type 0} → Option A → Bool
is_present none = false
is_present (some _) = true

module _ {Arm : Type 0} where
  -- The first argument is `getenv("HOME")`.
  unfoldable pub read_parameters : Option String → Node Arm → Node Arm
  read_parameters home node =
      let p = node.parameters in
      record node {
        port = p.port;
        joint_names = p.joint_names;
        auto_enable = p.auto_enable;
        enable_attempts = to_int32 p.enable_attempts;
        status_rate_hz = p.status_rate_hz;
        publish_joint_states = p.publish_joint_states;
        joint_states_topic = p.joint_states_topic;
        publish_diagnostics = p.publish_diagnostics;
        diagnostics_rate_hz = p.diagnostics_rate_hz;
        frame_id = p.frame_id;
        log_dir = if is_empty p.log_dir then home_dir home <> "/.ros/litearm" else p.log_dir;
      }

  unfoldable pub clear_cache : Node Arm → Node Arm
  clear_cache node = record node {
    have_state = false;
    license_valid = false;
    last_state_stamp = zero_d;
  }

  unfoldable pub create_service_servers : Node Arm → Node Arm
  create_service_servers node = record node {
    services = register_services service_names node.services;
  }

  unfoldable pub destroy_service_servers : Node Arm → Node Arm
  destroy_service_servers node = record node { services = [] }

  unfoldable pub activate_publishers : Node Arm → Node Arm
  activate_publishers node = record node {
    status_publisher = activated node.status_publisher;
    joint_state_publisher = activated node.joint_state_publisher;
    diagnostics_publisher = activated node.diagnostics_publisher;
  }

  unfoldable pub deactivate_publishers : Node Arm → Node Arm
  deactivate_publishers node = record node {
    status_publisher = deactivated node.status_publisher;
    joint_state_publisher = deactivated node.joint_state_publisher;
    diagnostics_publisher = deactivated node.diagnostics_publisher;
  }

  -- The period is `1.0 / rate`; that `create_wall_timer` throws for one that exceeds its nanoseconds is
  -- not modelled.
  unfoldable pub start_timers : Node Arm → Node Arm
  start_timers node = record node {
    status_timer =
        if ltd zero_d node.status_rate_hz then some node.status_rate_hz else node.status_timer;
    diagnostics_timer =
        if is_present node.diagnostics_publisher && ltd zero_d node.diagnostics_rate_hz
        then some node.diagnostics_rate_hz
        else node.diagnostics_timer;
  }

  unfoldable pub stop_timers : Node Arm → Node Arm
  stop_timers node = record node { status_timer = none; diagnostics_timer = none }

  -- Both branches only log.
  unfoldable pub on_error : Node Arm → CallbackReturn × Node Arm
  on_error node = (success, node)

-- The parameters as the constructor declares them, with the SDK's keep-alive period.
abbrev pub default_parameters : Double → Parameters
default_parameters keepalive = record {
  port = "";
  joint_names = [];
  auto_enable = true;
  enable_attempts = pos 12;
  status_rate_hz = whole 10;
  publish_joint_states = false;
  joint_states_topic = "/joint_states";
  publish_diagnostics = true;
  diagnostics_rate_hz = whole 1;
  zero_g_keepalive_period_s = keepalive;
  allow_dfu = false;
  allow_motion = false;
  log_dir = "";
  frame_id = "";
}

abbrev pub options_for : String → ArmOptions
options_for port = record { port = if is_empty port then none else some port }

module _ {Arm : Type 0} ⦃sdk : Sdk Arm⦄ where
  -- A node that was just constructed, with the parameters that its launch set.
  unfoldable pub new_node : Parameters → Node Arm
  new_node parameters = record {
    parameters = parameters;
    port = "";
    joint_names = [];
    auto_enable = true;
    enable_attempts = pos 12;
    status_rate_hz = whole 10;
    publish_joint_states = false;
    joint_states_topic = "/joint_states";
    publish_diagnostics = true;
    diagnostics_rate_hz = whole 1;
    frame_id = "";
    log_dir = "";
    arm = none;
    services = [];
    status_publisher = none;
    joint_state_publisher = none;
    diagnostics_publisher = none;
    status_timer = none;
    diagnostics_timer = none;
    license_valid = false;
    license = sdk.default_license;
    speed_scaling = 100;
    last_state = sdk.default_state;
    have_state = false;
    last_state_stamp = zero_d;
    issued = [];
  }

  -- `arm_.reset()` and `CallbackReturn::ERROR`.
  unfoldable pub give_up : Node Arm → CallbackReturn × Node Arm
  give_up node = (error, record node { arm = none })

  -- `create_publisher` throws where rclcpp does not take the topic's name, and the exception leaves
  -- `on_configure`, which is an ERROR; the names of the other two topics are constants.
  unfoldable pub create_publishers : Node Arm → CallbackReturn × Node Arm
  create_publishers node =
      let first = record node { status_publisher = new_publisher "status" } in
      if node.publish_joint_states && not (sdk.accepts_topic node.joint_states_topic)
      then (error, first)
      else (
        success,
        record first {
          joint_state_publisher =
              if node.publish_joint_states
              then new_publisher node.joint_states_topic
              else node.joint_state_publisher;
          diagnostics_publisher =
              if node.publish_diagnostics
              then new_publisher "/diagnostics"
              else node.diagnostics_publisher;
        },
      )

  -- What follows the naming of the axes; a licence record that cannot be read is not fatal. An exception
  -- that leaves a callback is an ERROR of the transition.
  unfoldable pub configure_names : Naming → Node Arm → CallbackReturn × Node Arm
  configure_names miscounted node = give_up node
  configure_names not_reserved node = (error, node)
  configure_names (named names) node =
      create_publishers (refresh_license_record (record node { joint_names = names })).1

  -- What follows `arm_->connect()`.
  unfoldable pub configure_link : Result (Unit {0}) × Node Arm → CallbackReturn × Node Arm
  configure_link (threw text, node) = give_up node
  configure_link (ok _, node) = configure_names (name_axes (axis_count node) node.joint_names) node

  -- What follows `create_arm`.
  unfoldable pub configure_session : Option Arm → Node Arm → CallbackReturn × Node Arm
  configure_session none node = give_up node
  configure_session (some arm) node =
      configure_link (issue connect arm (record node { arm = some arm }))

  unfoldable pub on_configure : Option String → Node Arm → CallbackReturn × Node Arm
  on_configure home node =
      let fresh = record (clear_cache (read_parameters home node)) { speed_scaling = 100 } in
      configure_session (sdk.create_arm (options_for fresh.port)) fresh

  unfoldable pub go_active : Node Arm → CallbackReturn × Node Arm
  go_active node = (success, start_timers (activate_publishers (create_service_servers node)))

  -- What follows `arm_->enable(enable_attempts_)`.
  unfoldable pub activate_enabled : Result (Unit {0}) × Node Arm → CallbackReturn × Node Arm
  activate_enabled (threw text, node) = (error, node)
  activate_enabled (ok _, node) = go_active node

  unfoldable pub activate_session : Option Arm → Node Arm → CallbackReturn × Node Arm
  activate_session none node = (error, node)
  activate_session (some arm) node =
      if node.auto_enable
      then activate_enabled (issue (enable node.enable_attempts) arm node)
      else go_active node

  unfoldable pub on_activate : Node Arm → CallbackReturn × Node Arm
  on_activate node = activate_session node.arm node

  -- Zero gravity is left first; that it could not be left cleanly is only logged.
  unfoldable pub leave_zero_g : Option Arm → Node Arm → Node Arm
  leave_zero_g none node = node
  leave_zero_g (some arm) node =
      if sdk.zero_g_active arm then (issue (zero_g_stop true) arm node).1 else node

  unfoldable pub on_deactivate : Node Arm → CallbackReturn × Node Arm
  on_deactivate node = (
    success,
    deactivate_publishers (destroy_service_servers (stop_timers (leave_zero_g node.arm node))),
  )

  unfoldable pub reset_publishers : Node Arm → Node Arm
  reset_publishers node = record node {
    status_publisher = none;
    joint_state_publisher = none;
    diagnostics_publisher = none;
  }

  -- `arm_->close()`, whose error is only logged, and `arm_.reset()`.
  unfoldable pub close_session : Option Arm → Node Arm → Node Arm
  close_session none node = node
  close_session (some arm) node = record (issue close arm node).1 { arm = none }

  unfoldable pub on_cleanup : Node Arm → CallbackReturn × Node Arm
  on_cleanup node =
      let quiet =
        reset_publishers (deactivate_publishers (destroy_service_servers (stop_timers node))) in
      (success, clear_cache (close_session quiet.arm quiet))

  unfoldable pub on_shutdown : Node Arm → CallbackReturn × Node Arm
  unfolding on_cleanup
  on_shutdown node = on_cleanup node
