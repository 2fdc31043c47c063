-- ===== src/Service.antt =====
-- The services of an active node: the requests, and the handler that
-- `create_service_servers` (litearm_driver/src/litearm_driver_node.cpp) registers for each.
pub mod Trace
pub mod Names
pub mod Spec
pub mod Refines
pub mod Footprint
pub mod ReadBack
pub mod Answers
use litearm_ros.Prelude.{ℕ, ℤ, pos, Bool, false, none, List, [], String}
use litearm_ros.Double.{Double, zero_d}
use litearm_ros.Sdk.{Sdk, Pose, Vector3, Result, Moment}
use litearm_ros.Node.{Node, Call}
use litearm_ros.Diagnostics.{
  DumpReport, handle_reconnect, handle_log_stop, handle_get_tcp, handle_get_diagnostics,
  handle_kin_bench, handle_log_start, handle_log_dump,
}
use litearm_ros.Motion.{
  PlanReport, PollReport, handle_home, handle_move_j, handle_move_j_sync, handle_move_p,
  handle_move_js, handle_send_mit, handle_send_mit_all, handle_move_l, handle_move_c,
  handle_move_path, handle_poll_cart, handle_inverse_kinematics,
}
use litearm_ros.Model.{
  Catalog, ModelReport, handle_revert_model, handle_get_feedforward_vector,
  handle_get_feedforward_mask, handle_get_feedforward_catalog, handle_set_gravity_scale,
  handle_set_inertia_scale, handle_set_gravity_vector, handle_probe_model, handle_get_model_body,
  handle_set_model_body, handle_get_model_jm, handle_set_model_jm, handle_commit_model,
  handle_get_model_status,
}
use litearm_ros.Safety.{
  handle_enable, handle_disable, handle_reset, handle_clear_faults, handle_emergency_stop,
  handle_park, handle_save_params, handle_reset_factory_params, handle_enter_dfu, handle_zero_g,
}
use litearm_ros.Status.{handle_get_status}
use litearm_ros.Config.{
  handle_set_speed_scaling, handle_set_motion_mode, handle_set_payload, handle_set_feedforward_mask,
  handle_set_feedforward_preset, handle_set_feedforward_scalar, handle_set_feedforward_vector,
  handle_get_feedforward_scalar, handle_get_joint_params, handle_set_joint_gains,
  handle_set_joint_limits,
}

-- A request with the fields that its handler reads.
pub data Request : Type 0 where
  reconnect : Request
  home : Request
  revert_model : Request
  log_stop : Request
  enable : Request
  disable : Request
  reset : Request
  clear_faults : Request
  emergency_stop : Request
  park : Request
  save_params : Request
  reset_factory_params : Request
  enter_dfu : Request
  zero_g : Bool → Request
  get_tcp : Request
  get_diagnostics : Request
  kin_bench : Double → Request
  move_j : List Double → Double → Request
  move_j_sync : List Double → Double → Request
  move_p : Pose → Double → Bool → Request
  move_js : List Double → List Double → List Double → Request
  send_mit : ℤ → Double → Double → Double → Double → Double → Request
  send_mit_all : List Double → List Double → List Double → List Double → List Double → Request
  move_l : Pose → Double → Bool → Request
  move_c : Pose → Pose → Pose → Double → Bool → Request
  move_path : List Double → Double → Bool → Request
  poll_cart : Request
  inverse_kinematics : Pose → List Double → Double → Request
  get_feedforward_vector : ℤ → Request
  get_feedforward_mask : Request
  get_feedforward_catalog : Request
  set_gravity_scale : List Double → Request
  set_inertia_scale : List Double → Request
  set_gravity_vector : Vector3 → Request
  probe_model : Request
  get_model_body : ℤ → Request
  set_model_body : ℤ → List Double → Request
  get_model_jm : Request
  set_model_jm : List Double → Request
  commit_model : ℕ → Request
  get_model_status : Request
  log_start : ℤ → Request
  log_dump : String → Bool → Double → Request
  get_status : Double → Request
  set_speed_scaling : ℕ → Request
  set_motion_mode : ℤ → Request
  set_payload : Double → Vector3 → Request
  set_feedforward_mask : ℕ → Request
  set_feedforward_preset : ℤ → Request
  set_feedforward_scalar : ℤ → ℤ → Double → Request
  set_feedforward_vector : ℤ → List Double → Request
  get_feedforward_scalar : ℤ → ℤ → Request
  get_joint_params : ℤ → Request
  set_joint_gains : ℤ → Double → Double → Double → Request
  set_joint_limits : ℤ → Double → Double → Request

-- What a handler reads of the world outside the node and the SDK.
pub record World : Type 0 where
  pub at : Moment
  pub create_directories : String → Result (Unit {0})

-- What a client and the node see of a served request.
pub record Outcome (Arm : Type 0) : Type 0 where
  pub success : Bool
  pub message : String
  pub node : Node Arm

-- The values of a response before its handler runs.
abbrev pub no_plan : PlanReport
no_plan = record {
  settled = false;
  err = pos 0;
  waypoints = pos 0;
  plan_us = 0;
  settle_err_rad = zero_d;
  q_final = [];
}

abbrev pub no_poll : PollReport
no_poll = record { pending = false; plan = no_plan }

abbrev pub no_catalog : Catalog
no_catalog = record { vector_items = []; scalar_items = []; scalar_read_only_items = [] }

abbrev pub no_model_report : ModelReport
no_model_report = record { override_level = pos 0; staged_mask = 0; dirty = pos 0 }

abbrev pub no_dump : DumpReport
no_dump = record { path = ""; bytes = pos 0; samples = pos 0 }

abbrev pub fresh_call : {Arm B : Type 0} → B → Node Arm → Call Arm B
fresh_call body node = record {
  response = record { success = false; message = ""; body = body };
  node = node;
}

abbrev pub finish : {Arm B : Type 0} → Call Arm B → Outcome Arm
finish call = record {
  success = call.response.success;
  message = call.response.message;
  node = call.node;
}

module _ {Arm : Type 0} ⦃sdk : Sdk Arm⦄ where
  unfoldable pub serve : World → Request → Node Arm → Outcome Arm
  serve world reconnect node = finish (handle_reconnect (fresh_call tt node))
  serve world home node = finish (handle_home (fresh_call tt node))
  serve world revert_model node = finish (handle_revert_model (fresh_call tt node))
  serve world log_stop node = finish (handle_log_stop (fresh_call tt node))
  serve world enable node = finish (handle_enable (fresh_call tt node))
  serve world disable node = finish (handle_disable (fresh_call tt node))
  serve world reset node = finish (handle_reset (fresh_call tt node))
  serve world clear_faults node = finish (handle_clear_faults (fresh_call tt node))
  serve world emergency_stop node = finish (handle_emergency_stop (fresh_call tt node))
  serve world park node = finish (handle_park (fresh_call tt node))
  serve world save_params node = finish (handle_save_params (fresh_call tt node))
  serve world reset_factory_params node = finish (handle_reset_factory_params (fresh_call tt node))
  serve world enter_dfu node = finish (handle_enter_dfu (fresh_call tt node))
  serve world (zero_g on) node = finish (handle_zero_g on (fresh_call tt node))
  serve world get_tcp node = finish (handle_get_tcp (fresh_call none node))
  serve world get_diagnostics node = finish (handle_get_diagnostics (fresh_call none node))
  serve world (kin_bench timeout) node = finish (handle_kin_bench timeout (fresh_call none node))
  serve world (move_j q speed) node = finish (handle_move_j q speed (fresh_call tt node))
  serve world (move_j_sync q speed) node = finish (handle_move_j_sync q speed (fresh_call tt node))
  serve world (move_p pose speed wait) node =
      finish (handle_move_p pose speed wait (fresh_call tt node))
  serve world (move_js q dq tau_ff) node = finish (handle_move_js q dq tau_ff (fresh_call tt node))
  serve world (send_mit joint q dq kp kd tau) node =
      finish (handle_send_mit joint q dq kp kd tau (fresh_call tt node))
  serve world (send_mit_all q dq kp kd tau) node =
      finish (handle_send_mit_all q dq kp kd tau (fresh_call tt node))
  serve world (move_l pose speed wait) node =
      finish (handle_move_l pose speed wait (fresh_call no_plan node))
  serve world (move_c start via end speed wait) node =
      finish (handle_move_c start via end speed wait (fresh_call no_plan node))
  serve world (move_path poses speed wait) node =
      finish (handle_move_path poses speed wait (fresh_call no_plan node))
  serve world poll_cart node = finish (handle_poll_cart (fresh_call no_poll node))
  serve world (inverse_kinematics pose seed timeout) node =
      finish (handle_inverse_kinematics pose seed timeout (fresh_call [] node))
  serve world (get_feedforward_vector item) node =
      finish (handle_get_feedforward_vector item (fresh_call [] node))
  serve world get_feedforward_mask node = finish (handle_get_feedforward_mask (fresh_call 0 node))
  serve world get_feedforward_catalog node =
      finish (handle_get_feedforward_catalog (fresh_call no_catalog node))
  serve world (set_gravity_scale values) node =
      finish (handle_set_gravity_scale values (fresh_call tt node))
  serve world (set_inertia_scale values) node =
      finish (handle_set_inertia_scale values (fresh_call tt node))
  serve world (set_gravity_vector g) node =
      finish (handle_set_gravity_vector g (fresh_call tt node))
  serve world probe_model node = finish (handle_probe_model (fresh_call false node))
  serve world (get_model_body body) node = finish (handle_get_model_body body (fresh_call [] node))
  serve world (set_model_body body values) node =
      finish (handle_set_model_body body values (fresh_call tt node))
  serve world get_model_jm node = finish (handle_get_model_jm (fresh_call [] node))
  serve world (set_model_jm values) node = finish (handle_set_model_jm values (fresh_call tt node))
  serve world (commit_model expected_mask) node =
      finish (handle_commit_model expected_mask (fresh_call tt node))
  serve world get_model_status node =
      finish (handle_get_model_status (fresh_call no_model_report node))
  serve world (log_start ticks) node = finish (handle_log_start ticks (fresh_call tt node))
  serve world (log_dump filename wait timeout) node =
      finish
        (handle_log_dump world.create_directories filename wait timeout (fresh_call no_dump node))
  serve world (get_status timeout) node =
      finish (handle_get_status world.at timeout (fresh_call none node))
  serve world (set_speed_scaling percent) node =
      finish (handle_set_speed_scaling percent (fresh_call tt node))
  serve world (set_motion_mode mode) node =
      finish (handle_set_motion_mode mode (fresh_call tt node))
  serve world (set_payload mass centre) node =
      finish (handle_set_payload mass centre (fresh_call tt node))
  serve world (set_feedforward_mask mask) node =
      finish (handle_set_feedforward_mask mask (fresh_call tt node))
  serve world (set_feedforward_preset preset) node =
      finish (handle_set_feedforward_preset preset (fresh_call tt node))
  serve world (set_feedforward_scalar item sub value) node =
      finish (handle_set_feedforward_scalar item sub value (fresh_call tt node))
  serve world (set_feedforward_vector item values) node =
      finish (handle_set_feedforward_vector item values (fresh_call tt node))
  serve world (get_feedforward_scalar item sub) node =
      finish (handle_get_feedforward_scalar item sub (fresh_call zero_d node))
  serve world (get_joint_params joint) node =
      finish (handle_get_joint_params joint (fresh_call [] node))
  serve world (set_joint_gains joint kp kd tau_max) node =
      finish (handle_set_joint_gains joint kp kd tau_max (fresh_call tt node))
  serve world (set_joint_limits joint q_min q_max) node =
      finish (handle_set_joint_limits joint q_min q_max (fresh_call tt node))
