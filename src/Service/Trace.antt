-- ===== src/Service/Trace.antt =====
-- Every SDK call that a service makes is permitted, and a service leaves the outline of the node.
use litearm_ros.Prelude.{List, ◌++◌, ◌≡◌, All}
use litearm_ros.Sdk.{Sdk, Command}
use litearm_ros.Node.{Node, Call, Handler}
use litearm_ros.Node.Growth.{Sends, Sends-Issues, Sends-outline, Issues, Issues-All, outline}
use litearm_ros.Policy.{Permitted}
use litearm_ros.Service.{Request, World, serve, fresh_call}
use litearm_ros.Diagnostics.Permission.{
  reconnect-Sends, log_stop-Sends, get_tcp-Sends, get_diagnostics-Sends, kin_bench-Sends,
  log_start-Sends, log_dump-Sends,
}
use litearm_ros.Motion.Permission.{
  home-Sends, move_j-Sends, move_j_sync-Sends, move_p-Sends, move_js-Sends, send_mit-Sends,
  send_mit_all-Sends, move_l-Sends, move_c-Sends, move_path-Sends, poll_cart-Sends,
  inverse_kinematics-Sends,
}
use litearm_ros.Model.Permission.{
  revert_model-Sends, get_feedforward_vector-Sends, get_feedforward_mask-Sends,
  get_feedforward_catalog-Sends, set_gravity_scale-Sends, set_inertia_scale-Sends,
  set_gravity_vector-Sends, probe_model-Sends, get_model_body-Sends, set_model_body-Sends,
  get_model_jm-Sends, set_model_jm-Sends, commit_model-Sends, get_model_status-Sends,
}
use litearm_ros.Safety.Permission.{
  enable-Sends, disable-Sends, reset-Sends, clear_faults-Sends, emergency_stop-Sends, park-Sends,
  save_params-Sends, reset_factory_params-Sends, enter_dfu-Sends, zero_g-Sends,
}
use litearm_ros.Status.Permission.{get_status-Sends}
use litearm_ros.Config.Permission.{
  set_speed_scaling-Sends, set_motion_mode-Sends, set_payload-Sends, set_feedforward_mask-Sends,
  set_feedforward_preset-Sends, set_feedforward_scalar-Sends, set_feedforward_vector-Sends,
  get_feedforward_scalar-Sends, get_joint_params-Sends, set_joint_gains-Sends,
  set_joint_limits-Sends,
}

module _ {Arm : Type 0} ⦃sdk : Sdk Arm⦄ where
  -- The trace and the outline of a served request.
  abbrev pub Serves : Node Arm → Node Arm → Type 0
  Serves before after =
      Issues (Permitted before) before.issued after.issued × (outline after ≡ outline before)

  Sends-both :
      {B : Type 0} {call : Call Arm B} (handler : Handler Arm B)
      → Sends (Permitted call.node) handler call
      → Serves call.node (handler call).node
  Sends-both handler s = (Sends-Issues s, Sends-outline s)

  pub served :
      (world : World) (request : Request) (node : Node Arm)
      → Serves node (serve world request node).node
  unfolding serve
  served world Request.reconnect node = Sends-both _ (reconnect-Sends (fresh_call tt node))
  served world Request.home node = Sends-both _ (home-Sends (fresh_call tt node))
  served world Request.revert_model node = Sends-both _ (revert_model-Sends (fresh_call tt node))
  served world Request.log_stop node = Sends-both _ (log_stop-Sends (fresh_call tt node))
  served world Request.enable node = Sends-both _ (enable-Sends (fresh_call tt node))
  served world Request.disable node = Sends-both _ (disable-Sends (fresh_call tt node))
  served world Request.reset node = Sends-both _ (reset-Sends (fresh_call tt node))
  served world Request.clear_faults node = Sends-both _ (clear_faults-Sends (fresh_call tt node))
  served world Request.emergency_stop node =
      Sends-both _ (emergency_stop-Sends (fresh_call tt node))
  served world Request.park node = Sends-both _ (park-Sends (fresh_call tt node))
  served world Request.save_params node = Sends-both _ (save_params-Sends (fresh_call tt node))
  served world Request.reset_factory_params node =
      Sends-both _ (reset_factory_params-Sends (fresh_call tt node))
  served world Request.enter_dfu node = Sends-both _ (enter_dfu-Sends (fresh_call tt node))
  served world (Request.zero_g on) node = Sends-both _ (zero_g-Sends (fresh_call tt node) on)
  served world Request.get_tcp node = Sends-both _ (get_tcp-Sends _)
  served world Request.get_diagnostics node = Sends-both _ (get_diagnostics-Sends _)
  served world (Request.kin_bench timeout) node = Sends-both _ (kin_bench-Sends timeout _)
  served world (Request.move_j q speed) node =
      Sends-both _ (move_j-Sends q speed (fresh_call tt node))
  served world (Request.move_j_sync q speed) node =
      Sends-both _ (move_j_sync-Sends q speed (fresh_call tt node))
  served world (Request.move_p pose speed wait) node =
      Sends-both _ (move_p-Sends pose speed wait (fresh_call tt node))
  served world (Request.move_js q dq tau_ff) node =
      Sends-both _ (move_js-Sends q dq tau_ff (fresh_call tt node))
  served world (Request.send_mit joint q dq kp kd tau) node =
      Sends-both _ (send_mit-Sends joint q dq kp kd tau (fresh_call tt node))
  served world (Request.send_mit_all q dq kp kd tau) node =
      Sends-both _ (send_mit_all-Sends q dq kp kd tau (fresh_call tt node))
  served world (Request.move_l pose speed wait) node = Sends-both _ (move_l-Sends pose speed wait _)
  served world (Request.move_c start via end speed wait) node =
      Sends-both _ (move_c-Sends start via end speed wait _)
  served world (Request.move_path poses speed wait) node =
      Sends-both _ (move_path-Sends poses speed wait _)
  served world Request.poll_cart node = Sends-both _ (poll_cart-Sends _)
  served world (Request.inverse_kinematics pose seed timeout) node =
      Sends-both _ (inverse_kinematics-Sends pose seed timeout _)
  served world (Request.get_feedforward_vector item) node =
      Sends-both _ (get_feedforward_vector-Sends item _)
  served world Request.get_feedforward_mask node = Sends-both _ (get_feedforward_mask-Sends _)
  served world Request.get_feedforward_catalog node = Sends-both _ (get_feedforward_catalog-Sends _)
  served world (Request.set_gravity_scale values) node =
      Sends-both _ (set_gravity_scale-Sends values (fresh_call tt node))
  served world (Request.set_inertia_scale values) node =
      Sends-both _ (set_inertia_scale-Sends values (fresh_call tt node))
  served world (Request.set_gravity_vector g) node =
      Sends-both _ (set_gravity_vector-Sends g (fresh_call tt node))
  served world Request.probe_model node = Sends-both _ (probe_model-Sends _)
  served world (Request.get_model_body body) node = Sends-both _ (get_model_body-Sends body _)
  served world (Request.set_model_body body values) node =
      Sends-both _ (set_model_body-Sends body values (fresh_call tt node))
  served world Request.get_model_jm node = Sends-both _ (get_model_jm-Sends _)
  served world (Request.set_model_jm values) node =
      Sends-both _ (set_model_jm-Sends values (fresh_call tt node))
  served world (Request.commit_model expected_mask) node =
      Sends-both _ (commit_model-Sends expected_mask (fresh_call tt node))
  served world Request.get_model_status node = Sends-both _ (get_model_status-Sends _)
  served world (Request.log_start ticks) node =
      Sends-both _ (log_start-Sends ticks (fresh_call tt node))
  served world (Request.log_dump filename wait timeout) node =
      Sends-both _ (log_dump-Sends world.create_directories filename wait timeout _)
  served world (Request.get_status timeout) node =
      Sends-both _ (get_status-Sends world.at timeout _)
  served world (Request.set_speed_scaling percent) node =
      Sends-both _ (set_speed_scaling-Sends percent (fresh_call tt node))
  served world (Request.set_motion_mode mode) node =
      Sends-both _ (set_motion_mode-Sends mode (fresh_call tt node))
  served world (Request.set_payload mass centre) node =
      Sends-both _ (set_payload-Sends mass centre (fresh_call tt node))
  served world (Request.set_feedforward_mask mask) node =
      Sends-both _ (set_feedforward_mask-Sends mask (fresh_call tt node))
  served world (Request.set_feedforward_preset preset) node =
      Sends-both _ (set_feedforward_preset-Sends preset (fresh_call tt node))
  served world (Request.set_feedforward_scalar item sub value) node =
      Sends-both _ (set_feedforward_scalar-Sends item sub value (fresh_call tt node))
  served world (Request.set_feedforward_vector item values) node =
      Sends-both _ (set_feedforward_vector-Sends item values (fresh_call tt node))
  served world (Request.get_feedforward_scalar item sub) node =
      Sends-both _ (get_feedforward_scalar-Sends item sub _)
  served world (Request.get_joint_params joint) node = Sends-both _ (get_joint_params-Sends joint _)
  served world (Request.set_joint_gains joint kp kd tau_max) node =
      Sends-both _ (set_joint_gains-Sends joint kp kd tau_max (fresh_call tt node))
  served world (Request.set_joint_limits joint q_min q_max) node =
      Sends-both _ (set_joint_limits-Sends joint q_min q_max (fresh_call tt node))

  -- Whatever a client asks for, every SDK call that serving it makes satisfies the policy in the state
  -- before; and the earlier calls, the parameters and the members read from them, the names of the axes,
  -- the services, the publishers, the timers and the presence of a session are as they were.
  pub serve-Permitted :
      (world : World) (request : Request) (node : Node Arm)
      → let after = (serve world request node).node in
        ((new : List Command) × (after.issued ≡ new ++ node.issued) × All (Permitted node) new)
        × (outline after ≡ outline node)
  serve-Permitted world request node =
      let both = served world request node in (Issues-All both.0, both.1)
