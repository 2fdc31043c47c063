-- ===== src/Service/Spec.antt =====
-- What each service promises its clients, apart from the handlers: the condition under which a request
-- is granted, and what a granted request leaves behind. A request that is not granted fails, and
-- nothing changes.
use litearm_ros.Prelude.{◌%◌, ◌^◌, pos, ◌<ℤ◌, ◌⊎◌, Bool, true, false, if◌then◌else◌}
use litearm_ros.Double.{ltd, zero_d, whole}
use litearm_ros.Sdk.{
  Sdk, clear_faults, commit, disable, emergency_stop, enable, enter_dfu, ff_preset, get_body,
  get_ff_mask, get_ff_scalar, get_ff_vec, get_jm, get_status_now, home, ik, kin_bench, log_start,
  log_stop, model_probe, model_status, move_c, move_js, move_l, move_p, move_path, movej,
  movej_sync, park, poll_cart, reset, reset_factory, revert, save_params, send_mit, send_mit_all,
  set_body, set_ff_mask, set_ff_scalar, set_ff_vec, set_gravity_scale, set_gravity_vector,
  set_inertia_scale, set_jm, set_joint_limits, set_joint_param, set_motion_mode, set_payload,
  set_speed, zero_g_start, zero_g_stop,
}
use litearm_ros.Gates.Accept.{IsTimeout}
use litearm_ros.Node.{Node, connected}
use litearm_ros.Node.Effect.{effect, plain}
use litearm_ros.Policy.{Permitted, FinitePose, IsOptional, IsReported}
use litearm_ros.Motion.{read_poses}
use litearm_ros.Motion.Effect.{PathPermitted}
use litearm_ros.Config.Effect.{keep_speed, asked_params}
use litearm_ros.Status.Effect.{keep_frame}
use litearm_ros.Diagnostics.Effect.{IsPlainName, rebuilt, tool_located, dump_call, log_dumped}
use litearm_ros.Service.{Request, World}

module _ {Arm : Type 0} ⦃sdk : Sdk Arm⦄ where
  -- When a request is granted.
  abbrev pub Admits : World → Request → Node Arm → Type 0
  Admits world Request.reconnect node = Unit
  Admits world Request.home node = Permitted node home
  Admits world Request.revert_model node = Permitted node revert
  Admits world Request.log_stop node = Permitted node log_stop
  Admits world Request.enable node = Permitted node (enable node.enable_attempts)
  Admits world Request.disable node = Permitted node disable
  Admits world Request.reset node = Permitted node reset
  Admits world Request.clear_faults node = Permitted node clear_faults
  Admits world Request.emergency_stop node = Permitted node emergency_stop
  Admits world Request.park node = Permitted node park
  Admits world Request.save_params node = Permitted node save_params
  Admits world Request.reset_factory_params node = Permitted node reset_factory
  Admits world Request.enter_dfu node = Permitted node enter_dfu
  Admits world (Request.zero_g true) node =
      Permitted node (zero_g_start node.parameters.zero_g_keepalive_period_s)
  Admits world (Request.zero_g false) node = Unit
  Admits world Request.get_tcp node = Unit
  Admits world Request.get_diagnostics node = Unit
  Admits world (Request.kin_bench timeout) node = IsTimeout timeout
  Admits world (Request.move_j q speed) node = Permitted node (movej q speed)
  Admits world (Request.move_j_sync q speed) node = Permitted node (movej_sync q speed)
  Admits world (Request.move_p pose speed wait) node = Permitted node (move_p pose speed wait)
  Admits world (Request.move_js q dq tau_ff) node = Permitted node (move_js q dq tau_ff)
  Admits world (Request.send_mit joint q dq kp kd tau) node =
      Permitted node (send_mit joint q dq kp kd tau)
  Admits world (Request.send_mit_all q dq kp kd tau) node =
      Permitted node (send_mit_all q dq kp kd tau)
  Admits world (Request.move_l pose speed wait) node = Permitted node (move_l pose speed wait)
  Admits world (Request.move_c start via end speed wait) node =
      Permitted node (move_c start via end speed wait)
  Admits world (Request.move_path poses speed wait) node = PathPermitted poses speed node
  Admits world Request.poll_cart node = Permitted node poll_cart
  Admits world (Request.inverse_kinematics pose seed timeout) node =
      FinitePose pose × IsOptional seed 7 × IsTimeout timeout
  Admits world (Request.get_feedforward_vector item) node = Permitted node (get_ff_vec item)
  Admits world Request.get_feedforward_mask node = Permitted node get_ff_mask
  Admits world Request.get_feedforward_catalog node = Unit
  Admits world (Request.set_gravity_scale values) node = Permitted node (set_gravity_scale values)
  Admits world (Request.set_inertia_scale values) node = Permitted node (set_inertia_scale values)
  Admits world (Request.set_gravity_vector g) node = Permitted node (set_gravity_vector g)
  Admits world Request.probe_model node = Permitted node model_probe
  Admits world (Request.get_model_body body) node = Permitted node (get_body body)
  Admits world (Request.set_model_body body values) node = Permitted node (set_body body values)
  Admits world Request.get_model_jm node = Permitted node get_jm
  Admits world (Request.set_model_jm values) node = Permitted node (set_jm values)
  Admits world (Request.commit_model expected_mask) node =
      Permitted node (commit (expected_mask % 2 ^ 16))
  Admits world Request.get_model_status node = Permitted node model_status
  Admits world (Request.log_start ticks) node = Permitted node (log_start ticks)
  Admits world (Request.log_dump filename wait timeout) node =
      IsPlainName filename × IsTimeout timeout
  Admits world (Request.get_status timeout) node = Unit
  Admits world (Request.set_speed_scaling percent) node = Permitted node (set_speed (pos percent))
  Admits world (Request.set_motion_mode mode) node = Permitted node (set_motion_mode mode)
  Admits world (Request.set_payload mass centre) node = Permitted node (set_payload mass centre)
  Admits world (Request.set_feedforward_mask mask) node = Permitted node (set_ff_mask mask)
  Admits world (Request.set_feedforward_preset preset) node = Permitted node (ff_preset preset)
  Admits world (Request.set_feedforward_scalar item sub value) node =
      Permitted node (set_ff_scalar item sub value)
  Admits world (Request.set_feedforward_vector item values) node =
      Permitted node (set_ff_vec item values)
  Admits world (Request.get_feedforward_scalar item sub) node =
      Permitted node (get_ff_scalar item sub)
  Admits world (Request.get_joint_params joint) node = (joint <ℤ pos 0) ⊎ IsReported node.arm joint
  Admits world (Request.set_joint_gains joint kp kd tau_max) node =
      Permitted node (set_joint_param joint kp kd tau_max)
  Admits world (Request.set_joint_limits joint q_min q_max) node =
      Permitted node (set_joint_limits joint q_min q_max)

  -- The success and the node that a granted request ends with.
  abbrev pub intended : World → Request → Node Arm → Bool × Node Arm
  intended world Request.reconnect node = rebuilt node
  intended world Request.home node = plain home node
  intended world Request.revert_model node = plain revert node
  intended world Request.log_stop node = plain log_stop node
  intended world Request.enable node = plain (enable node.enable_attempts) node
  intended world Request.disable node = plain disable node
  intended world Request.reset node = plain reset node
  intended world Request.clear_faults node = plain clear_faults node
  intended world Request.emergency_stop node = plain emergency_stop node
  intended world Request.park node = plain park node
  intended world Request.save_params node = plain save_params node
  intended world Request.reset_factory_params node = plain reset_factory node
  intended world Request.enter_dfu node = plain enter_dfu node
  intended world (Request.zero_g true) node =
      plain (zero_g_start node.parameters.zero_g_keepalive_period_s) node
  intended world (Request.zero_g false) node = plain (zero_g_stop true) node
  intended world Request.get_tcp node = tool_located node
  intended world Request.get_diagnostics node = (connected node, node)
  intended world (Request.kin_bench timeout) node =
      plain (kin_bench (if ltd zero_d timeout then timeout else sdk.kin_bench_timeout)) node
  intended world (Request.move_j q speed) node = plain (movej q speed) node
  intended world (Request.move_j_sync q speed) node = plain (movej_sync q speed) node
  intended world (Request.move_p pose speed wait) node = plain (move_p pose speed wait) node
  intended world (Request.move_js q dq tau_ff) node = plain (move_js q dq tau_ff) node
  intended world (Request.send_mit joint q dq kp kd tau) node =
      plain (send_mit joint q dq kp kd tau) node
  intended world (Request.send_mit_all q dq kp kd tau) node =
      plain (send_mit_all q dq kp kd tau) node
  intended world (Request.move_l pose speed wait) node = plain (move_l pose speed wait) node
  intended world (Request.move_c start via end speed wait) node =
      plain (move_c start via end speed wait) node
  intended world (Request.move_path poses speed wait) node =
      plain (move_path (read_poses poses).1 speed wait) node
  intended world Request.poll_cart node = plain poll_cart node
  intended world (Request.inverse_kinematics pose seed timeout) node =
      plain (ik pose seed (if ltd zero_d timeout then timeout else whole 3)) node
  intended world (Request.get_feedforward_vector item) node = plain (get_ff_vec item) node
  intended world Request.get_feedforward_mask node = plain get_ff_mask node
  intended world Request.get_feedforward_catalog node = (true, node)
  intended world (Request.set_gravity_scale values) node = plain (set_gravity_scale values) node
  intended world (Request.set_inertia_scale values) node = plain (set_inertia_scale values) node
  intended world (Request.set_gravity_vector g) node = plain (set_gravity_vector g) node
  intended world Request.probe_model node = plain model_probe node
  intended world (Request.get_model_body body) node = plain (get_body body) node
  intended world (Request.set_model_body body values) node = plain (set_body body values) node
  intended world Request.get_model_jm node = plain get_jm node
  intended world (Request.set_model_jm values) node = plain (set_jm values) node
  intended world (Request.commit_model expected_mask) node =
      plain (commit (expected_mask % 2 ^ 16)) node
  intended world Request.get_model_status node = plain model_status node
  intended world (Request.log_start ticks) node = plain (log_start ticks) node
  intended world (Request.log_dump filename wait timeout) node =
      log_dumped world.create_directories (dump_call filename wait timeout node.log_dir) node
  intended world (Request.get_status timeout) node = effect (get_status_now timeout) keep_frame node
  intended world (Request.set_speed_scaling percent) node =
      effect (set_speed (pos percent)) (keep_speed percent) node
  intended world (Request.set_motion_mode mode) node = plain (set_motion_mode mode) node
  intended world (Request.set_payload mass centre) node = plain (set_payload mass centre) node
  intended world (Request.set_feedforward_mask mask) node = plain (set_ff_mask mask) node
  intended world (Request.set_feedforward_preset preset) node = plain (ff_preset preset) node
  intended world (Request.set_feedforward_scalar item sub value) node =
      plain (set_ff_scalar item sub value) node
  intended world (Request.set_feedforward_vector item values) node =
      plain (set_ff_vec item values) node
  intended world (Request.get_feedforward_scalar item sub) node =
      plain (get_ff_scalar item sub) node
  intended world (Request.get_joint_params joint) node = plain (asked_params joint) node
  intended world (Request.set_joint_gains joint kp kd tau_max) node =
      plain (set_joint_param joint kp kd tau_max) node
  intended world (Request.set_joint_limits joint q_min q_max) node =
      plain (set_joint_limits joint q_min q_max) node
