-- ===== src/Service/Refines.antt =====
-- The services implement their specification.
use litearm_ros.Prelude.{Bool, true, false, ◌≡◌, ◌⊎◌, inl, inr, none, []}
use litearm_ros.Double.{zero_d}
use litearm_ros.Sdk.{Sdk}
use litearm_ros.Node.{Node, Call, Handler}
use litearm_ros.Node.Effect.{seen, Does, does, declines}
use litearm_ros.Service.{
  Request, World, Outcome, serve, fresh_call, no_plan, no_poll, no_catalog, no_model_report,
  no_dump,
}
use litearm_ros.Service.Spec.{Admits, intended}
use litearm_ros.Diagnostics.Effect.{
  reconnect-Does, log_stop-Does, get_tcp-Does, get_diagnostics-Does, kin_bench-Does, log_start-Does,
  log_dump-Does,
}
use litearm_ros.Motion.Effect.{
  home-Does, move_j-Does, move_j_sync-Does, move_p-Does, move_js-Does, send_mit-Does,
  send_mit_all-Does, move_l-Does, move_c-Does, move_path-Does, poll_cart-Does,
  inverse_kinematics-Does,
}
use litearm_ros.Model.Effect.{
  revert_model-Does, get_feedforward_vector-Does, get_feedforward_mask-Does,
  get_feedforward_catalog-Does, set_gravity_scale-Does, set_inertia_scale-Does,
  set_gravity_vector-Does, probe_model-Does, get_model_body-Does, set_model_body-Does,
  get_model_jm-Does, set_model_jm-Does, commit_model-Does, get_model_status-Does,
}
use litearm_ros.Safety.Effect.{
  enable-Does, disable-Does, reset-Does, clear_faults-Does, emergency_stop-Does, park-Does,
  save_params-Does, reset_factory_params-Does, enter_dfu-Does, zero_g_start-Does, zero_g_stop-Does,
}
use litearm_ros.Status.Effect.{get_status-Does}
use litearm_ros.Config.Effect.{
  set_speed_scaling-Does, set_motion_mode-Does, set_payload-Does, set_feedforward_mask-Does,
  set_feedforward_preset-Does, set_feedforward_scalar-Does, set_feedforward_vector-Does,
  get_feedforward_scalar-Does, get_joint_params-Does, set_joint_gains-Does, set_joint_limits-Does,
}

module _ {Arm : Type 0} ⦃sdk : Sdk Arm⦄ where
  -- Either the condition holds and the intent is met, or it does not and nothing happened.
  abbrev pub Meets : Type 0 → Bool × Node Arm → Node Arm → Bool × Node Arm → Type 0
  Meets Q intent before after = (Q × (after ≡ intent)) ⊎ ((¬ Q) × (after ≡ (false, before)))

  meets :
      {B Q : Type 0} {intent : Bool × Node Arm} (handler : Handler Arm B) (call : Call Arm B)
      → Does Q intent handler call
      → Meets Q intent call.node (seen (handler call))
  meets handler call (does q e) = inl (q, e)
  meets handler call (declines n e) = inr (n, e)

  abbrev pub left_by : Outcome Arm → Bool × Node Arm
  left_by out = (out.success, out.node)

  -- Every service implements its specification: a request that is granted leaves exactly the intended
  -- success and node, the calls made and the session's new state included; any other fails and leaves
  -- the node as it was.
  pub serve_refines :
      (world : World) (request : Request) (node : Node Arm)
      → Meets
          (Admits world request node)
          (intended world request node)
          node
          (left_by (serve world request node))
  unfolding serve
  serve_refines world Request.reconnect node = meets _ _ (reconnect-Does (fresh_call tt node))
  serve_refines world Request.home node = meets _ _ (home-Does (fresh_call tt node))
  serve_refines world Request.revert_model node = meets _ _ (revert_model-Does (fresh_call tt node))
  serve_refines world Request.log_stop node = meets _ _ (log_stop-Does (fresh_call tt node))
  serve_refines world Request.enable node = meets _ _ (enable-Does (fresh_call tt node))
  serve_refines world Request.disable node = meets _ _ (disable-Does (fresh_call tt node))
  serve_refines world Request.reset node = meets _ _ (reset-Does (fresh_call tt node))
  serve_refines world Request.clear_faults node = meets _ _ (clear_faults-Does (fresh_call tt node))
  serve_refines world Request.emergency_stop node =
      meets _ _ (emergency_stop-Does (fresh_call tt node))
  serve_refines world Request.park node = meets _ _ (park-Does (fresh_call tt node))
  serve_refines world Request.save_params node = meets _ _ (save_params-Does (fresh_call tt node))
  serve_refines world Request.reset_factory_params node =
      meets _ _ (reset_factory_params-Does (fresh_call tt node))
  serve_refines world Request.enter_dfu node = meets _ _ (enter_dfu-Does (fresh_call tt node))
  serve_refines world (Request.zero_g true) node =
      meets _ _ (zero_g_start-Does (fresh_call tt node))
  serve_refines world (Request.zero_g false) node =
      meets _ _ (zero_g_stop-Does (fresh_call tt node))
  serve_refines world Request.get_tcp node = meets _ _ (get_tcp-Does (fresh_call none node))
  serve_refines world Request.get_diagnostics node =
      meets _ _ (get_diagnostics-Does (fresh_call none node))
  serve_refines world (Request.kin_bench timeout) node =
      meets _ _ (kin_bench-Does timeout (fresh_call none node))
  serve_refines world (Request.move_j q speed) node =
      meets _ _ (move_j-Does q speed (fresh_call tt node))
  serve_refines world (Request.move_j_sync q speed) node =
      meets _ _ (move_j_sync-Does q speed (fresh_call tt node))
  serve_refines world (Request.move_p pose speed wait) node =
      meets _ _ (move_p-Does pose speed wait (fresh_call tt node))
  serve_refines world (Request.move_js q dq tau_ff) node =
      meets _ _ (move_js-Does q dq tau_ff (fresh_call tt node))
  serve_refines world (Request.send_mit joint q dq kp kd tau) node =
      meets _ _ (send_mit-Does joint q dq kp kd tau (fresh_call tt node))
  serve_refines world (Request.send_mit_all q dq kp kd tau) node =
      meets _ _ (send_mit_all-Does q dq kp kd tau (fresh_call tt node))
  serve_refines world (Request.move_l pose speed wait) node =
      meets _ _ (move_l-Does pose speed wait (fresh_call no_plan node))
  serve_refines world (Request.move_c start via end speed wait) node =
      meets _ _ (move_c-Does start via end speed wait (fresh_call no_plan node))
  serve_refines world (Request.move_path poses speed wait) node =
      meets _ _ (move_path-Does poses speed wait (fresh_call no_plan node))
  serve_refines world Request.poll_cart node = meets _ _ (poll_cart-Does (fresh_call no_poll node))
  serve_refines world (Request.inverse_kinematics pose seed timeout) node =
      meets _ _ (inverse_kinematics-Does pose seed timeout (fresh_call [] node))
  serve_refines world (Request.get_feedforward_vector item) node =
      meets _ _ (get_feedforward_vector-Does item (fresh_call [] node))
  serve_refines world Request.get_feedforward_mask node =
      meets _ _ (get_feedforward_mask-Does (fresh_call 0 node))
  serve_refines world Request.get_feedforward_catalog node =
      meets _ _ (get_feedforward_catalog-Does (fresh_call no_catalog node))
  serve_refines world (Request.set_gravity_scale values) node =
      meets _ _ (set_gravity_scale-Does values (fresh_call tt node))
  serve_refines world (Request.set_inertia_scale values) node =
      meets _ _ (set_inertia_scale-Does values (fresh_call tt node))
  serve_refines world (Request.set_gravity_vector g) node =
      meets _ _ (set_gravity_vector-Does g (fresh_call tt node))
  serve_refines world Request.probe_model node =
      meets _ _ (probe_model-Does (fresh_call false node))
  serve_refines world (Request.get_model_body body) node =
      meets _ _ (get_model_body-Does body (fresh_call [] node))
  serve_refines world (Request.set_model_body body values) node =
      meets _ _ (set_model_body-Does body values (fresh_call tt node))
  serve_refines world Request.get_model_jm node = meets _ _ (get_model_jm-Does (fresh_call [] node))
  serve_refines world (Request.set_model_jm values) node =
      meets _ _ (set_model_jm-Does values (fresh_call tt node))
  serve_refines world (Request.commit_model expected_mask) node =
      meets _ _ (commit_model-Does expected_mask (fresh_call tt node))
  serve_refines world Request.get_model_status node =
      meets _ _ (get_model_status-Does (fresh_call no_model_report node))
  serve_refines world (Request.log_start ticks) node =
      meets _ _ (log_start-Does ticks (fresh_call tt node))
  serve_refines world (Request.log_dump filename wait timeout) node =
      meets _ _
        (log_dump-Does world.create_directories filename wait timeout (fresh_call no_dump node))
  serve_refines world (Request.get_status timeout) node =
      meets _ _ (get_status-Does world.at timeout (fresh_call none node))
  serve_refines world (Request.set_speed_scaling percent) node =
      meets _ _ (set_speed_scaling-Does percent (fresh_call tt node))
  serve_refines world (Request.set_motion_mode mode) node =
      meets _ _ (set_motion_mode-Does mode (fresh_call tt node))
  serve_refines world (Request.set_payload mass centre) node =
      meets _ _ (set_payload-Does mass centre (fresh_call tt node))
  serve_refines world (Request.set_feedforward_mask mask) node =
      meets _ _ (set_feedforward_mask-Does mask (fresh_call tt node))
  serve_refines world (Request.set_feedforward_preset preset) node =
      meets _ _ (set_feedforward_preset-Does preset (fresh_call tt node))
  serve_refines world (Request.set_feedforward_scalar item sub value) node =
      meets _ _ (set_feedforward_scalar-Does item sub value (fresh_call tt node))
  serve_refines world (Request.set_feedforward_vector item values) node =
      meets _ _ (set_feedforward_vector-Does item values (fresh_call tt node))
  serve_refines world (Request.get_feedforward_scalar item sub) node =
      meets _ _ (get_feedforward_scalar-Does item sub (fresh_call zero_d node))
  serve_refines world (Request.get_joint_params joint) node =
      meets _ _ (get_joint_params-Does joint (fresh_call [] node))
  serve_refines world (Request.set_joint_gains joint kp kd tau_max) node =
      meets _ _ (set_joint_gains-Does joint kp kd tau_max (fresh_call tt node))
  serve_refines world (Request.set_joint_limits joint q_min q_max) node =
      meets _ _ (set_joint_limits-Does joint q_min q_max (fresh_call tt node))
