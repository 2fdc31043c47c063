-- ===== src/Motion.antt =====
-- The motion handlers (litearm_driver/src/litearm_driver_motion.cpp): a function for each, from the
-- fields of its request to what it does with the response and the node.
pub mod Poses
pub mod Permission
pub mod Effect
pub mod Success
pub mod Refusal
use litearm_ros.Prelude.{
  ℕ, ◌%◌, ℤ, pos, Bool, true, false, not, ◌==◌, Option, none, some, List, [], ◌∷◌, String, ◌<>◌,
  to_string, if◌then◌else◌, length,
}
use litearm_ros.Double.{Double, ltd, zero_d, whole}
use litearm_ros.Sdk.{
  movej, movej_sync, move_p, move_js, send_mit, send_mit_all, home, move_l, move_c, move_path,
  poll_cart, ik, Sdk, Pose, CartPlan,
}
use litearm_ros.Gates.{
  GateResult, pass, fail, check_finite_values, check_finite_values_of, check_speed_fraction,
  check_finite_pose, check_joint_index, check_timeout,
}
use litearm_ros.Node.{
  Handler, gated, on_success, append_message, set_message, set_body, reading, tell, command,
  joint_count, require_motion_allowed,
}

-- The response fields of move_l, move_c and move_path.
pub record PlanReport : Type 0 where
  pub settled : Bool
  pub err : ℤ
  pub waypoints : ℤ
  pub plan_us : ℕ
  pub settle_err_rad : Double
  pub q_final : List Double

abbrev pub report_of : CartPlan → PlanReport
report_of plan = record {
  settled = plan.settled;
  err = plan.err;
  waypoints = plan.n_wp;
  plan_us = plan.plan_us;
  settle_err_rad = plan.settle_err_rad;
  q_final = plan.q_final;
}

unfoldable pub fill_plan : {Arm : Type 0} → CartPlan → Handler Arm PlanReport
fill_plan plan call = set_body (report_of plan) call

pub record PollReport : Type 0 where
  pub pending : Bool
  pub plan : PlanReport

-- The loop of `read_poses`, six values at a time.
unfoldable pub waypoints : List Double → List Pose
waypoints (a ∷ b ∷ c ∷ d ∷ e ∷ f ∷ rest) =
    record { x = a; y = b; z = c; roll = d; pitch = e; yaw = f } ∷ waypoints rest
waypoints _ = []

abbrev pub not_six : ℕ → String
not_six size =
    "poses must hold six values per waypoint; got "
    <> to_string size
    <> ", which is not a multiple of six"

-- The result, the poses that were read, and the gate that goes into the response.
unfoldable pub read_poses : List Double → Bool × List Pose × GateResult
unfolding waypoints
read_poses flat =
    let gate = check_finite_values flat "poses" in
    if not gate.ok
    then (false, [], gate)
    else if not (length flat % 6 == 0)
    then (false, [], fail (not_six (length flat)))
    else (true, waypoints flat, gate)

-- `request->dq.empty() ? GateResult{} : check_finite_values(...)`.
unfoldable pub check_optional : List Double → ℕ → String → GateResult
check_optional [] expected what = pass
check_optional (x ∷ xs) expected what = check_finite_values_of (x ∷ xs) expected what

abbrev pub prefixed : String → GateResult → GateResult
prefixed name gate = record gate { message = name <> ": " <> gate.message }

abbrev pub is_given : List Double → Bool
is_given [] = false
is_given (_ ∷ _) = true

abbrev one_frame : String
one_frame =
    " (one frame only: the firmware's 100 ms watchdog takes the arm back to its hold "
    <> "unless a caller keeps re-sending, which is what the ros2_control component does)"

abbrev feedforward_off : String
feedforward_off =
    " (a tau_ff section switches the firmware's built-in feedforward off for this frame)"

module _ {Arm : Type 0} ⦃sdk : Sdk Arm⦄ where
  unfoldable pub handle_move_j : List Double → Double → Handler Arm (Unit {0})
  handle_move_j q speed = require_motion_allowed (
      reading λ node. gated (check_finite_values_of q (joint_count node) "q") (
        gated (check_speed_fraction speed) (
          on_success (append_message " (blocks until the firmware reports the move finished)")
            (tell "move_j" (movej q speed)))))

  unfoldable pub handle_move_j_sync : List Double → Double → Handler Arm (Unit {0})
  handle_move_j_sync q speed = require_motion_allowed (
      reading λ node.
        gated (check_finite_values_of q (joint_count node) "q")
          (gated (check_speed_fraction speed) (tell "move_j_sync" (movej_sync q speed))))

  unfoldable pub handle_move_p : Pose → Double → Bool → Handler Arm (Unit {0})
  handle_move_p pose speed wait = require_motion_allowed (
      gated (check_finite_pose pose) (
        gated (check_speed_fraction speed) (
          on_success
            (λ s.
              if not wait
              then append_message " (wait=false: the plan is in flight; poll_cart reports it)" s
              else s)
            (tell "move_p" (move_p pose speed wait)))))

  unfoldable pub handle_move_js : List Double → List Double → List Double → Handler Arm (Unit {0})
  handle_move_js q dq tau_ff = require_motion_allowed (
      reading λ node. gated (check_finite_values_of q (joint_count node) "q") (
        gated (check_optional dq (joint_count node) "dq") (
          gated (check_optional tau_ff (joint_count node) "tau_ff") (
            on_success
              (λ s.
                let noted = append_message one_frame s in
                if is_given tau_ff then append_message feedforward_off noted else noted)
              (tell "move_js" (move_js q dq tau_ff))))))

  unfoldable pub handle_send_mit :
      ℤ → Double → Double → Double → Double → Double → Handler Arm (Unit {0})
  handle_send_mit joint q dq kp kd tau = require_motion_allowed (
      reading λ node. gated (check_joint_index joint (pos (joint_count node))) (
        gated (check_finite_values (q ∷ dq ∷ kp ∷ kd ∷ tau ∷ []) "q/dq/kp/kd/tau")
          (tell "send_mit" (send_mit joint q dq kp kd tau))))

  -- The loop over the named arrays, which returns at the first that is refused.
  unfoldable pub gated_arrays :
      {B : Type 0} → List (String × List Double) → Handler Arm B → Handler Arm B
  gated_arrays [] rest = rest
  gated_arrays ((name, values) ∷ arrays) rest =
      let later = gated_arrays arrays rest in
      reading λ node. gated (check_finite_values_of values (joint_count node) name) later

  unfoldable pub handle_send_mit_all :
      List Double → List Double → List Double → List Double → List Double → Handler Arm (Unit {0})
  handle_send_mit_all q dq kp kd tau = require_motion_allowed (
      gated_arrays (("q", q) ∷ ("dq", dq) ∷ ("kp", kp) ∷ ("kd", kd) ∷ ("tau", tau) ∷ []) (
        on_success
          (append_message
            " (raw gains for one frame: the firmware adds no feedforward of its own on this path)")
          (tell "send_mit_all" (send_mit_all q dq kp kd tau))))

  unfoldable pub handle_home : Handler Arm (Unit {0})
  handle_home = require_motion_allowed (
      on_success
        (append_message (
          " (the firmware walks to the URDF zero pose at its own low speed; "
          <> "support the arm first)"))
        (tell "home" home))

  unfoldable pub handle_move_l : Pose → Double → Bool → Handler Arm PlanReport
  handle_move_l pose speed wait = require_motion_allowed (
      gated (check_finite_pose pose)
        (gated (check_speed_fraction speed) (command "move_l" (move_l pose speed wait) fill_plan)))

  -- The loop over the named poses.
  unfoldable pub gated_poses : {B : Type 0} → List (String × Pose) → Handler Arm B → Handler Arm B
  gated_poses [] rest = rest
  gated_poses ((name, pose) ∷ poses) rest =
      let later = gated_poses poses rest in gated (prefixed name (check_finite_pose pose)) later

  unfoldable pub handle_move_c : Pose → Pose → Pose → Double → Bool → Handler Arm PlanReport
  handle_move_c start via end speed wait = require_motion_allowed (
      gated_poses (("start", start) ∷ ("via", via) ∷ ("end", end) ∷ []) (
        gated (check_speed_fraction speed)
          (command "move_c" (move_c start via end speed wait) fill_plan)))

  -- `read_poses` fills the gate that goes into the response where it returns false.
  unfoldable pub handle_move_path : List Double → Double → Bool → Handler Arm PlanReport
  handle_move_path flat speed wait = require_motion_allowed (
      gated (record (read_poses flat).2 { ok = (read_poses flat).0 })
        (gated (check_speed_fraction speed)
          (command "move_path" (move_path (read_poses flat).1 speed wait) fill_plan)))

  unfoldable pub poll_answer : Option CartPlan → Handler Arm PollReport
  poll_answer none s =
      set_message "no cartesian plan has been reported yet"
        (set_body (record s.response.body { pending = true }) s)
  poll_answer (some plan) s =
      set_message (if plan.ok then "cartesian plan finished" else "cartesian plan was refused")
        (set_body (record { pending = false; plan = report_of plan }) s)

  unfoldable pub handle_poll_cart : Handler Arm PollReport
  unfolding poll_answer
  handle_poll_cart = command "poll_cart" poll_cart poll_answer

  -- No allow_motion gate: this one only solves.
  unfoldable pub handle_inverse_kinematics : Pose → List Double → Double → Handler Arm (List Double)
  handle_inverse_kinematics pose seed timeout = gated (check_finite_pose pose) (
      gated (check_optional seed 7 "seed") (
        gated (check_timeout timeout "timeout") (
          command "inverse_kinematics"
            (ik pose seed (if ltd zero_d timeout then timeout else whole 3)) set_body)))
