-- ===== src/Tests/DriverNode.antt =====
-- The expectations of litearm_driver/test/test_litearm_driver.cpp, test by test, on the model of the
-- node with the arm of Fake. What waits for a message on a topic is not among them.
mod Stops
mod Registers
mod Moves
mod Answers
use litearm_ros.Prelude.{
  true, false, none, some, List, [], ◌∷◌, map, get_elem?, length, String, ◌≡◌, refl, replicate,
  to_string, has_char,
}
use litearm_ros.Double.{minus_one, whole, period_min, period_max}
use litearm_ros.Gates.{
  check_connected, check_speed_percent, check_mass, check_com, check_ff_preset, check_ff_values,
  check_requires_disabled, check_parameter_allows, check_joint_index, check_zero_g_period,
  check_speed_fraction, check_finite_values_of, check_finite_values_impl, first_not_finite,
  check_log_filename, check_finite_pose, check_timeout,
}
use litearm_ros.Node.{
  Node, Call, motors_enabled, connected, issue, refresh_license_record, perform, ask, answered,
  report, with_arm, gated, reading, on_success, run_command, command, tell, fill_failure,
  require_motion_allowed,
}
use litearm_ros.Lifecycle.Axes.{name_axes, axis_names}
use litearm_ros.Lifecycle.Services.{register_services, register_service}
use litearm_ros.Lifecycle.{
  CallbackReturn, success, error, new_node, on_configure, on_activate, on_deactivate,
  configure_session, configure_link, configure_names, clear_cache, read_parameters,
  create_publishers, activate_session, activate_enabled, go_active, activate_publishers,
  start_timers, create_service_servers, destroy_service_servers, leave_zero_g, stop_timers,
  deactivate_publishers, give_up,
}
use litearm_ros.Service.{serve, fresh_call}
use litearm_ros.Service.Names.{lists}
use litearm_ros.Safety.{
  on_member, handle_enable, handle_disable, handle_save_params, handle_enter_dfu,
  handle_emergency_stop, handle_park, handle_zero_g, start_zero_g, stop_zero_g,
}
use litearm_ros.Config.{
  handle_set_speed_scaling, handle_set_payload, handle_set_feedforward_preset,
  handle_set_feedforward_vector, handle_set_motion_mode, handle_set_feedforward_scalar,
  handle_get_feedforward_scalar, handle_set_feedforward_mask, handle_get_joint_params,
  handle_set_joint_gains, handle_set_joint_limits, store_speed, joint_message,
}
use litearm_ros.Motion.{check_optional, handle_move_j, handle_home, handle_inverse_kinematics}
use litearm_ros.Model.{handle_get_feedforward_catalog, format_items}
use litearm_ros.Diagnostics.{handle_get_diagnostics, handle_log_dump}
use litearm_ros.Status.{LitearmStatus, build_status, handle_get_status, store_status}
use litearm_ros.Tests.Bench.{launch, moment}
use litearm_ros.Tests.Fake.{FakeArm, fake_sdk}
use litearm_ros.Tests.Find.{finds}

-- `SetUp`, and `prepare` with what its two transitions returned.
abbrev pub driver : Node FakeArm
driver = new_node (launch false)

abbrev pub configured : CallbackReturn × Node FakeArm
configured = on_configure none driver

abbrev pub activated : CallbackReturn × Node FakeArm
activated = on_activate configured.1

abbrev pub node : Node FakeArm
node = activated.1

-- Everything that the tests run.
pub program : Unit {0}
unfolding new_node on_configure on_activate on_deactivate configure_session configure_link
    configure_names name_axes clear_cache read_parameters create_publishers activate_session
    activate_enabled go_active activate_publishers start_timers create_service_servers
    register_services register_service destroy_service_servers leave_zero_g stop_timers
    deactivate_publishers give_up axis_names issue refresh_license_record connected motors_enabled
    perform ask answered report with_arm gated reading on_success run_command command tell
    fill_failure require_motion_allowed to_string build_status store_status store_speed
    joint_message check_connected check_speed_percent check_mass check_com check_ff_preset
    check_ff_values check_requires_disabled check_parameter_allows check_joint_index
    check_zero_g_period period_min period_max check_speed_fraction check_finite_values_of
    check_finite_values_impl first_not_finite check_log_filename has_char finds handle_enable
    handle_disable handle_save_params handle_enter_dfu handle_emergency_stop handle_park
    handle_zero_g on_member start_zero_g stop_zero_g handle_set_speed_scaling handle_set_payload
    handle_set_feedforward_preset handle_set_feedforward_vector handle_set_motion_mode
    handle_set_feedforward_scalar handle_get_feedforward_scalar handle_set_feedforward_mask
    handle_get_joint_params handle_set_joint_gains handle_set_joint_limits handle_get_status
    handle_move_j handle_home check_finite_pose check_optional check_timeout
    handle_inverse_kinematics serve minus_one whole handle_get_feedforward_catalog format_items
    handle_get_diagnostics handle_log_dump
program = tt

prepared : (configured.0 ≡ success) × (activated.0 ≡ success)
unfolding program
prepared = (refl, refl)

abbrev pub call : {B : Type 0} → B → Call FakeArm B
call body = fresh_call body node

-- A refusal that sends nothing: the response fails, and no call was made.
abbrev pub IsSilentRefusal : {B : Type 0} → Call FakeArm B → Type 0
IsSilentRefusal out = (out.response.success ≡ false) × (out.node.issued ≡ node.issued)

-- `build_status(nullptr)`.
abbrev status : LitearmStatus
status = build_status moment node none

configure_connects_and_names_the_joints :
    (status.connected ≡ true)
    × (status.firmware ≡ "Litearm1.8.0-7J")
    × (length status.joint_names ≡ 7)
    × (get_elem? status.joint_names 0 ≡ some "joint1")
    × (get_elem? status.joint_names 6 ≡ some "joint7")
    × (status.license_valid ≡ true)
unfolding program
configure_connects_and_names_the_joints = (refl, refl, refl, refl, refl, refl)

abbrev misnamed : Node FakeArm
misnamed = new_node (record (launch false) { joint_names = "joint1" ∷ "joint2" ∷ [] })

configure_rejects_a_wrong_length : (on_configure none misnamed).0 ≡ error
unfolding program
configure_rejects_a_wrong_length = refl

-- The names that the test expects, in its order.
abbrev expected : List String
expected =
    "enable" ∷ "disable" ∷ "reset" ∷ "clear_faults" ∷ "emergency_stop" ∷ "park" ∷ "save_params"
    ∷ "reset_factory_params" ∷ "enter_dfu" ∷ "zero_g" ∷ "get_status" ∷ "set_speed_scaling"
    ∷ "set_motion_mode" ∷ "set_payload" ∷ "set_feedforward_mask" ∷ "set_feedforward_preset"
    ∷ "set_feedforward_scalar" ∷ "set_feedforward_vector" ∷ "get_feedforward_scalar"
    ∷ "get_joint_params" ∷ "set_joint_gains" ∷ "set_joint_limits" ∷ "reconnect" ∷ "home" ∷ "get_tcp"
    ∷ "get_diagnostics" ∷ "kin_bench" ∷ "move_j" ∷ "move_j_sync" ∷ "move_p" ∷ "move_js" ∷ "send_mit"
    ∷ "send_mit_all" ∷ "move_l" ∷ "move_c" ∷ "move_path" ∷ "poll_cart" ∷ "inverse_kinematics"
    ∷ "get_feedforward_vector" ∷ "get_feedforward_mask" ∷ "get_feedforward_catalog"
    ∷ "set_gravity_scale" ∷ "set_inertia_scale" ∷ "set_gravity_vector" ∷ "probe_model"
    ∷ "get_model_body" ∷ "set_model_body" ∷ "get_model_jm" ∷ "set_model_jm" ∷ "commit_model"
    ∷ "revert_model" ∷ "get_model_status" ∷ "log_start" ∷ "log_stop" ∷ "log_dump" ∷ []

activation_advertises_the_command_set : map (lists node.services) expected ≡ replicate 55 true
unfolding program
activation_advertises_the_command_set = refl

abbrev rested : CallbackReturn × Node FakeArm
rested = on_deactivate node

deactivation_removes_the_services : (rested.0 ≡ success) × (rested.1.services ≡ [])
unfolding program
deactivation_removes_the_services = (refl, refl)
