-- ===== src/Service/Footprint.antt =====
-- How little a service touches: what serving a request may leave behind in the node.
use litearm_ros.Prelude.{ℕ, Bool, true, false, ◌≡◌, refl, sym, ◌∙◌, ap, subst, pos, inl, inr, arith}
use litearm_ros.Sdk.{Sdk, get_status_now, set_speed}
use litearm_ros.Node.{Node, connected}
use litearm_ros.Node.Effect.{effect_unlinked}
use litearm_ros.Node.Footprint.{members, Within, Tidy, idle-Tidy, plain-Tidy, effect-Tidy}
use litearm_ros.Config.Effect.{keep_speed}
use litearm_ros.Status.Effect.{keep_frame}
use litearm_ros.Diagnostics.Footprint.{
  rebuilt-Tidy, tool_located-Tidy, log_dumped-Tidy, tool_located_unlinked, log_dumped_unlinked,
}
use litearm_ros.Service.{Request, World, serve}
use litearm_ros.Service.Spec.{Admits, intended}
use litearm_ros.Service.Refines.{serve_refines, left_by}

-- How many SDK calls a request may lead to.
abbrev pub call_limit : Request → ℕ
call_limit Request.reconnect = 2
call_limit Request.get_diagnostics = 0
call_limit Request.get_feedforward_catalog = 0
call_limit _ = 1

-- Rebuilding the link, and naming what the SDK knows, need no link.
abbrev pub needs_link : Request → Bool
needs_link Request.reconnect = false
needs_link Request.get_feedforward_catalog = false
needs_link _ = true

module _ {Arm : Type 0} ⦃sdk : Sdk Arm⦄ where
  intended-Tidy :
      (world : World) (request : Request) (node : Node Arm)
      → Admits world request node
      → Tidy (call_limit request) node (intended world request node)
  intended-Tidy world Request.reconnect node granted = rebuilt-Tidy node
  intended-Tidy world Request.home node granted = plain-Tidy _ node
  intended-Tidy world Request.revert_model node granted = plain-Tidy _ node
  intended-Tidy world Request.log_stop node granted = plain-Tidy _ node
  intended-Tidy world Request.enable node granted = plain-Tidy _ node
  intended-Tidy world Request.disable node granted = plain-Tidy _ node
  intended-Tidy world Request.reset node granted = plain-Tidy _ node
  intended-Tidy world Request.clear_faults node granted = plain-Tidy _ node
  intended-Tidy world Request.emergency_stop node granted = plain-Tidy _ node
  intended-Tidy world Request.park node granted = plain-Tidy _ node
  intended-Tidy world Request.save_params node granted = plain-Tidy _ node
  intended-Tidy world Request.reset_factory_params node granted = plain-Tidy _ node
  intended-Tidy world Request.enter_dfu node granted = plain-Tidy _ node
  intended-Tidy world (Request.zero_g true) node granted = plain-Tidy _ node
  intended-Tidy world (Request.zero_g false) node granted = plain-Tidy _ node
  intended-Tidy world Request.get_tcp node granted = tool_located-Tidy node
  intended-Tidy world Request.get_diagnostics node granted = idle-Tidy 0 (connected node) node
  intended-Tidy world (Request.kin_bench timeout) node granted = plain-Tidy _ node
  intended-Tidy world (Request.move_j q speed) node granted = plain-Tidy _ node
  intended-Tidy world (Request.move_j_sync q speed) node granted = plain-Tidy _ node
  intended-Tidy world (Request.move_p pose speed wait) node granted = plain-Tidy _ node
  intended-Tidy world (Request.move_js q dq tau_ff) node granted = plain-Tidy _ node
  intended-Tidy world (Request.send_mit joint q dq kp kd tau) node granted = plain-Tidy _ node
  intended-Tidy world (Request.send_mit_all q dq kp kd tau) node granted = plain-Tidy _ node
  intended-Tidy world (Request.move_l pose speed wait) node granted = plain-Tidy _ node
  intended-Tidy world (Request.move_c start via end speed wait) node granted = plain-Tidy _ node
  intended-Tidy world (Request.move_path poses speed wait) node granted = plain-Tidy _ node
  intended-Tidy world Request.poll_cart node granted = plain-Tidy _ node
  intended-Tidy world (Request.inverse_kinematics pose seed timeout) node granted =
      plain-Tidy _ node
  intended-Tidy world (Request.get_feedforward_vector item) node granted = plain-Tidy _ node
  intended-Tidy world Request.get_feedforward_mask node granted = plain-Tidy _ node
  intended-Tidy world Request.get_feedforward_catalog node granted = idle-Tidy 0 true node
  intended-Tidy world (Request.set_gravity_scale values) node granted = plain-Tidy _ node
  intended-Tidy world (Request.set_inertia_scale values) node granted = plain-Tidy _ node
  intended-Tidy world (Request.set_gravity_vector g) node granted = plain-Tidy _ node
  intended-Tidy world Request.probe_model node granted = plain-Tidy _ node
  intended-Tidy world (Request.get_model_body body) node granted = plain-Tidy _ node
  intended-Tidy world (Request.set_model_body body values) node granted = plain-Tidy _ node
  intended-Tidy world Request.get_model_jm node granted = plain-Tidy _ node
  intended-Tidy world (Request.set_model_jm values) node granted = plain-Tidy _ node
  intended-Tidy world (Request.commit_model expected_mask) node granted = plain-Tidy _ node
  intended-Tidy world Request.get_model_status node granted = plain-Tidy _ node
  intended-Tidy world (Request.log_start ticks) node granted = plain-Tidy _ node
  intended-Tidy world (Request.log_dump filename wait timeout) node granted =
      log_dumped-Tidy world.create_directories _ node
  intended-Tidy world (Request.get_status timeout) node granted =
      effect-Tidy (get_status_now timeout) keep_frame node λ r n. (refl, refl, λ h. h)
  intended-Tidy world (Request.set_speed_scaling percent) node granted =
      effect-Tidy (set_speed (pos percent)) (keep_speed percent) node
        λ r n. (refl, refl, λ h. ground arith)
  intended-Tidy world (Request.set_motion_mode mode) node granted = plain-Tidy _ node
  intended-Tidy world (Request.set_payload mass centre) node granted = plain-Tidy _ node
  intended-Tidy world (Request.set_feedforward_mask mask) node granted = plain-Tidy _ node
  intended-Tidy world (Request.set_feedforward_preset preset) node granted = plain-Tidy _ node
  intended-Tidy world (Request.set_feedforward_scalar item sub value) node granted =
      plain-Tidy _ node
  intended-Tidy world (Request.set_feedforward_vector item values) node granted = plain-Tidy _ node
  intended-Tidy world (Request.get_feedforward_scalar item sub) node granted = plain-Tidy _ node
  intended-Tidy world (Request.get_joint_params joint) node granted = plain-Tidy _ node
  intended-Tidy world (Request.set_joint_gains joint kp kd tau_max) node granted = plain-Tidy _ node
  intended-Tidy world (Request.set_joint_limits joint q_min q_max) node granted = plain-Tidy _ node

  pub served-Tidy :
      (world : World) (request : Request) (node : Node Arm)
      → Tidy (call_limit request) node (left_by (serve world request node))
  served-Tidy world request node = elim (serve_refines world request node) [
    | inl (granted, e) ↦
        subst (Tidy (call_limit request) node) (sym e) (intended-Tidy world request node granted)
    | inr (denied, e) ↦
        subst (Tidy (call_limit request) node) (sym e) (idle-Tidy (call_limit request) false node)
  ]

  -- Serving a request makes at most one SDK call, but at most two to rebuild the link, and none to
  -- report the host's diagnostics or to name the feedforward items; the earlier calls stay, and the
  -- session is left in the state that these calls, in order, make of its state before.
  pub serve_calls_bounded :
      (world : World) (request : Request) (node : Node Arm)
      → Within (call_limit request) node (serve world request node).node
  serve_calls_bounded world request node = (served-Tidy world request node).0

  -- A request that fails, for whatever reason, leaves every member of the node as it was, but for the
  -- state of the session and the trace of the calls.
  pub failed_request_keeps :
      (world : World) (request : Request) (node : Node Arm)
      → (serve world request node).success ≡ false
      → members (serve world request node).node ≡ members node
  failed_request_keeps world request node failed = elim (served-Tidy world request node).1 [
    | inl succeeded ↦ absurd cc
    | inr kept ↦ kept
  ]

  intended_unlinked :
      (world : World) (request : Request) (node : Node Arm)
      → needs_link request ≡ true
      → connected node ≡ false
      → intended world request node ≡ (false, node)
  intended_unlinked world Request.reconnect node needs down = absurd (ground arith)
  intended_unlinked world Request.home node needs down = effect_unlinked _ _ node down
  intended_unlinked world Request.revert_model node needs down = effect_unlinked _ _ node down
  intended_unlinked world Request.log_stop node needs down = effect_unlinked _ _ node down
  intended_unlinked world Request.enable node needs down = effect_unlinked _ _ node down
  intended_unlinked world Request.disable node needs down = effect_unlinked _ _ node down
  intended_unlinked world Request.reset node needs down = effect_unlinked _ _ node down
  intended_unlinked world Request.clear_faults node needs down = effect_unlinked _ _ node down
  intended_unlinked world Request.emergency_stop node needs down = effect_unlinked _ _ node down
  intended_unlinked world Request.park node needs down = effect_unlinked _ _ node down
  intended_unlinked world Request.save_params node needs down = effect_unlinked _ _ node down
  intended_unlinked world Request.reset_factory_params node needs down =
      effect_unlinked _ _ node down
  intended_unlinked world Request.enter_dfu node needs down = effect_unlinked _ _ node down
  intended_unlinked world (Request.zero_g true) node needs down = effect_unlinked _ _ node down
  intended_unlinked world (Request.zero_g false) node needs down = effect_unlinked _ _ node down
  intended_unlinked world Request.get_tcp node needs down = tool_located_unlinked node down
  intended_unlinked world Request.get_diagnostics node needs down = ap (λ b. (b, node)) down
  intended_unlinked world (Request.kin_bench timeout) node needs down =
      effect_unlinked _ _ node down
  intended_unlinked world (Request.move_j q speed) node needs down = effect_unlinked _ _ node down
  intended_unlinked world (Request.move_j_sync q speed) node needs down =
      effect_unlinked _ _ node down
  intended_unlinked world (Request.move_p pose speed wait) node needs down =
      effect_unlinked _ _ node down
  intended_unlinked world (Request.move_js q dq tau_ff) node needs down =
      effect_unlinked _ _ node down
  intended_unlinked world (Request.send_mit joint q dq kp kd tau) node needs down =
      effect_unlinked _ _ node down
  intended_unlinked world (Request.send_mit_all q dq kp kd tau) node needs down =
      effect_unlinked _ _ node down
  intended_unlinked world (Request.move_l pose speed wait) node needs down =
      effect_unlinked _ _ node down
  intended_unlinked world (Request.move_c start via end speed wait) node needs down =
      effect_unlinked _ _ node down
  intended_unlinked world (Request.move_path poses speed wait) node needs down =
      effect_unlinked _ _ node down
  intended_unlinked world Request.poll_cart node needs down = effect_unlinked _ _ node down
  intended_unlinked world (Request.inverse_kinematics pose seed timeout) node needs down =
      effect_unlinked _ _ node down
  intended_unlinked world (Request.get_feedforward_vector item) node needs down =
      effect_unlinked _ _ node down
  intended_unlinked world Request.get_feedforward_mask node needs down =
      effect_unlinked _ _ node down
  intended_unlinked world Request.get_feedforward_catalog node needs down = absurd (ground arith)
  intended_unlinked world (Request.set_gravity_scale values) node needs down =
      effect_unlinked _ _ node down
  intended_unlinked world (Request.set_inertia_scale values) node needs down =
      effect_unlinked _ _ node down
  intended_unlinked world (Request.set_gravity_vector g) node needs down =
      effect_unlinked _ _ node down
  intended_unlinked world Request.probe_model node needs down = effect_unlinked _ _ node down
  intended_unlinked world (Request.get_model_body body) node needs down =
      effect_unlinked _ _ node down
  intended_unlinked world (Request.set_model_body body values) node needs down =
      effect_unlinked _ _ node down
  intended_unlinked world Request.get_model_jm node needs down = effect_unlinked _ _ node down
  intended_unlinked world (Request.set_model_jm values) node needs down =
      effect_unlinked _ _ node down
  intended_unlinked world (Request.commit_model expected_mask) node needs down =
      effect_unlinked _ _ node down
  intended_unlinked world Request.get_model_status node needs down = effect_unlinked _ _ node down
  intended_unlinked world (Request.log_start ticks) node needs down = effect_unlinked _ _ node down
  intended_unlinked world (Request.log_dump filename wait timeout) node needs down =
      log_dumped_unlinked world.create_directories _ node down
  intended_unlinked world (Request.get_status timeout) node needs down =
      effect_unlinked _ _ node down
  intended_unlinked world (Request.set_speed_scaling percent) node needs down =
      effect_unlinked _ _ node down
  intended_unlinked world (Request.set_motion_mode mode) node needs down =
      effect_unlinked _ _ node down
  intended_unlinked world (Request.set_payload mass centre) node needs down =
      effect_unlinked _ _ node down
  intended_unlinked world (Request.set_feedforward_mask mask) node needs down =
      effect_unlinked _ _ node down
  intended_unlinked world (Request.set_feedforward_preset preset) node needs down =
      effect_unlinked _ _ node down
  intended_unlinked world (Request.set_feedforward_scalar item sub value) node needs down =
      effect_unlinked _ _ node down
  intended_unlinked world (Request.set_feedforward_vector item values) node needs down =
      effect_unlinked _ _ node down
  intended_unlinked world (Request.get_feedforward_scalar item sub) node needs down =
      effect_unlinked _ _ node down
  intended_unlinked world (Request.get_joint_params joint) node needs down =
      effect_unlinked _ _ node down
  intended_unlinked world (Request.set_joint_gains joint kp kd tau_max) node needs down =
      effect_unlinked _ _ node down
  intended_unlinked world (Request.set_joint_limits joint q_min q_max) node needs down =
      effect_unlinked _ _ node down

  -- Over a closed link, or without a session, every request but two fails and changes nothing, so that
  -- no SDK call is made: the two rebuild the link and name the feedforward items.
  pub unlinked_requests_fail :
      (world : World) (request : Request) (node : Node Arm)
      → needs_link request ≡ true
      → connected node ≡ false
      → left_by (serve world request node) ≡ (false, node)
  unlinked_requests_fail world request node needs down = elim (serve_refines world request node) [
    | inl (granted, e) ↦ e ∙ intended_unlinked world request node needs down
    | inr (denied, e) ↦ e
  ]
