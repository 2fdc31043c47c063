-- ===== src/Motion/Effect.antt =====
-- What the motion services of litearm_driver/src/litearm_driver_motion.cpp do: their one SDK call when
-- the policy permits it, and nothing when not.
use litearm_ros.Prelude.{
  ℕ, ℤ, Bool, true, Option, none, some, List, [], ◌∷◌, String, ◌≡◌, ◌↔◌, refl, inl, inr, arith,
  length, ◌%◌, All, drop1, drop3, drop4, if◌then◌else◌,
}
use litearm_ros.Double.{Double, ltd, zero_d, whole}
use litearm_ros.Sdk.{
  movej, movej_sync, move_p, move_js, send_mit, send_mit_all, home, move_l, move_c, move_path,
  poll_cart, ik, Sdk, Pose, CartPlan,
}
use litearm_ros.Gates.Accept.{
  IsVector, IsSpeedFraction, IsTimeout, check_speed_fraction_iff, check_joint_index_iff,
  check_timeout_iff,
}
use litearm_ros.Gates.Iff.{IsVector-iff, given_values_iff, pose_iff}
use litearm_ros.Node.{Node, Call, Handler, joint_count, set_body}
use litearm_ros.Node.Effect.{
  Does, Does-change, gated-Does, on_success-Does, reading-Does, answer-Does, tell-Does,
  require_motion_allowed-Does, plain,
}
use litearm_ros.Policy.{AllowsMotion, IsOptional, FinitePose, Permitted}
use litearm_ros.Motion.{
  PlanReport, PollReport, check_optional, handle_move_j, handle_move_j_sync, handle_move_p,
  handle_move_js, handle_send_mit, handle_send_mit_all, handle_home, handle_move_l, handle_move_c,
  handle_move_path, handle_poll_cart, poll_answer, handle_inverse_kinematics, fill_plan, read_poses,
  gated_arrays, gated_poses,
}
use litearm_ros.Motion.Poses.{read_poses_lossless}

IsOptional-iff :
    (xs : List Double) (n : ℕ) (what : String)
    → ((check_optional xs n what).ok ≡ true) ↔ IsOptional xs n
unfolding check_optional
IsOptional-iff [] n what = (λ h. inl refl, λ h. refl)
IsOptional-iff (x ∷ xs) n what = (
  λ h. inr ((IsVector-iff (x ∷ xs) n what).0 h),
  λ h. elim h [ inl e ↦ absurd cc | inr v ↦ (IsVector-iff (x ∷ xs) n what).1 v ],
)

fill_plan_node :
    {Arm : Type 0} (plan : CartPlan) (call : Call Arm PlanReport)
    → (fill_plan plan call).node ≡ call.node
unfolding fill_plan
fill_plan_node plan call = refl

poll_answer_node :
    {Arm : Type 0} ⦃sdk : Sdk Arm⦄ (plan : Option CartPlan) (call : Call Arm PollReport)
    → (poll_answer plan call).node ≡ call.node
unfolding poll_answer
poll_answer_node none call = refl
poll_answer_node (some plan) call = refl

module _ {Arm : Type 0} ⦃sdk : Sdk Arm⦄ where
  pub move_j-Does :
      (q : List Double) (speed : Double) (call : Call Arm (Unit {0}))
      → Does
          (Permitted call.node (movej q speed))
          (plain (movej q speed) call.node)
          (handle_move_j q speed)
          call
  unfolding handle_move_j
  move_j-Does q speed call = Does-change drop3 (
      require_motion_allowed-Does _ (
        reading-Does _ (
          gated-Does _ _ (IsVector-iff q _ _) (
            gated-Does _ _ (check_speed_fraction_iff speed)
              (on_success-Does _ _ (λ s. refl) (tell-Does _ _))))))

  pub move_j_sync-Does :
      (q : List Double) (speed : Double) (call : Call Arm (Unit {0}))
      → Does
          (Permitted call.node (movej_sync q speed))
          (plain (movej_sync q speed) call.node)
          (handle_move_j_sync q speed)
          call
  unfolding handle_move_j_sync
  move_j_sync-Does q speed call = Does-change drop3 (
      require_motion_allowed-Does _ (
        reading-Does _ (
          gated-Does _ _ (IsVector-iff q _ _)
            (gated-Does _ _ (check_speed_fraction_iff speed) (tell-Does _ _)))))

  pub move_p-Does :
      (pose : Pose) (speed : Double) (wait : Bool) (call : Call Arm (Unit {0}))
      → Does
          (Permitted call.node (move_p pose speed wait))
          (plain (move_p pose speed wait) call.node)
          (handle_move_p pose speed wait)
          call
  unfolding handle_move_p
  move_p-Does pose speed wait call = Does-change drop3 (
      require_motion_allowed-Does _ (
        gated-Does _ _ (pose_iff pose) (
          gated-Does _ _ (check_speed_fraction_iff speed)
            (on_success-Does _ _ (λ s. ground arith) (tell-Does _ _)))))

  pub move_js-Does :
      (q dq tau_ff : List Double) (call : Call Arm (Unit {0}))
      → Does
          (Permitted call.node (move_js q dq tau_ff))
          (plain (move_js q dq tau_ff) call.node)
          (handle_move_js q dq tau_ff)
          call
  unfolding handle_move_js
  move_js-Does q dq tau_ff call = Does-change drop4 (
      require_motion_allowed-Does _ (
        reading-Does _ (
          gated-Does _ _ (IsVector-iff q _ _) (
            gated-Does _ _ (IsOptional-iff dq _ _) (
              gated-Does _ _ (IsOptional-iff tau_ff _ _)
                (on_success-Does _ _ (λ s. ground arith) (tell-Does _ _)))))))

  pub send_mit-Does :
      (joint : ℤ) (q dq kp kd tau : Double) (call : Call Arm (Unit {0}))
      → Does
          (Permitted call.node (send_mit joint q dq kp kd tau))
          (plain (send_mit joint q dq kp kd tau) call.node)
          (handle_send_mit joint q dq kp kd tau)
          call
  unfolding handle_send_mit
  send_mit-Does joint q dq kp kd tau call = Does-change drop3 (
      require_motion_allowed-Does _ (
        reading-Does _ (
          gated-Does _ _ (check_joint_index_iff joint _)
            (gated-Does _ _ (given_values_iff q _ _) (tell-Does _ _)))))

  pub home-Does :
      (call : Call Arm (Unit {0}))
      → Does (Permitted call.node home) (plain home call.node) handle_home call
  unfolding handle_home
  home-Does call =
      Does-change drop1
        (require_motion_allowed-Does _ (on_success-Does _ _ (λ s. refl) (tell-Does _ _)))

  pub move_l-Does :
      (pose : Pose) (speed : Double) (wait : Bool) (call : Call Arm PlanReport)
      → Does
          (Permitted call.node (move_l pose speed wait))
          (plain (move_l pose speed wait) call.node)
          (handle_move_l pose speed wait)
          call
  unfolding handle_move_l
  move_l-Does pose speed wait call = Does-change drop3 (
      require_motion_allowed-Does _ (
        gated-Does _ _ (pose_iff pose) (
          gated-Does _ _ (check_speed_fraction_iff speed)
            (answer-Does "move_l" (move_l pose speed wait) fill_plan fill_plan_node))))

  gated_arrays-Does :
      {B Q : Type 0} {intent : Bool × Node Arm} (arrays : List (String × List Double))
      (rest : Handler Arm B) (call : Call Arm B)
      → Does Q intent rest call
      → Does
          (All (λ entry. IsVector entry.1 (joint_count call.node)) arrays × Q)
          intent
          (gated_arrays arrays rest)
          call
  unfolding gated_arrays
  gated_arrays-Does [] rest call h = Does-change (λ q. (tt, q), λ p. p.1) h
  gated_arrays-Does ((name, values) ∷ arrays) rest call h =
      Does-change (λ (v, (vs, q)). ((v, vs), q), λ ((v, vs), q). (v, (vs, q)))
        (reading-Does _
          (gated-Does _ _ (IsVector-iff values _ _) (gated_arrays-Does arrays rest call h)))

  gated_poses-Does :
      {B Q : Type 0} {intent : Bool × Node Arm} (poses : List (String × Pose))
      (rest : Handler Arm B) (call : Call Arm B)
      → Does Q intent rest call
      → Does (All (λ entry. FinitePose entry.1) poses × Q) intent (gated_poses poses rest) call
  unfolding gated_poses
  gated_poses-Does [] rest call h = Does-change (λ q. (tt, q), λ p. p.1) h
  gated_poses-Does ((name, pose) ∷ poses) rest call h =
      Does-change (λ (v, (vs, q)). ((v, vs), q), λ ((v, vs), q). (v, (vs, q)))
        (gated-Does _ _ (pose_iff pose) (gated_poses-Does poses rest call h))

  pub send_mit_all-Does :
      (q dq kp kd tau : List Double) (call : Call Arm (Unit {0}))
      → Does
          (Permitted call.node (send_mit_all q dq kp kd tau))
          (plain (send_mit_all q dq kp kd tau) call.node)
          (handle_send_mit_all q dq kp kd tau)
          call
  unfolding handle_send_mit_all
  send_mit_all-Does q dq kp kd tau call =
      Does-change
        (
          λ (m, ((a, (b, (c, (d, (e, u))))), w)). (m, a, b, c, d, e),
          λ (m, a, b, c, d, e). (m, ((a, (b, (c, (d, (e, tt))))), tt)),
        )
        (require_motion_allowed-Does _
          (gated_arrays-Does _ _ call (on_success-Does _ _ (λ s. refl) (tell-Does _ _))))

  pub move_c-Does :
      (first via last : Pose) (speed : Double) (wait : Bool) (call : Call Arm PlanReport)
      → Does
          (Permitted call.node (move_c first via last speed wait))
          (plain (move_c first via last speed wait) call.node)
          (handle_move_c first via last speed wait)
          call
  unfolding handle_move_c
  move_c-Does first via last speed wait call =
      Does-change
        (
          λ (m, ((a, (b, (c, u))), (s, w))). (m, a, b, c, s),
          λ (m, a, b, c, s). (m, ((a, (b, (c, tt))), (s, tt))),
        )
        (require_motion_allowed-Does _ (
          gated_poses-Does _ _ call (
            gated-Does _ _ (check_speed_fraction_iff speed)
              (answer-Does "move_c" (move_c first via last speed wait) fill_plan fill_plan_node))))

  -- What a path takes: the array is one of finite waypoints of six values.
  abbrev pub PathPermitted : List Double → Double → Node Arm → Type 0
  PathPermitted flat speed node =
      AllowsMotion node × (IsVector flat 0 × (length flat % 6 ≡ 0)) × IsSpeedFraction speed

  pub move_path-Does :
      (flat : List Double) (speed : Double) (wait : Bool) (call : Call Arm PlanReport)
      → Does
          (PathPermitted flat speed call.node)
          (plain (move_path (read_poses flat).1 speed wait) call.node)
          (handle_move_path flat speed wait)
          call
  unfolding handle_move_path
  move_path-Does flat speed wait call = Does-change drop3 (
      require_motion_allowed-Does _ (
        gated-Does _ _ (read_poses_lossless flat).0 (
          gated-Does _ _ (check_speed_fraction_iff speed) (
            answer-Does "move_path" (move_path (read_poses flat).1 speed wait) fill_plan
              fill_plan_node))))

  pub poll_cart-Does :
      (call : Call Arm PollReport) → Does Unit (plain poll_cart call.node) handle_poll_cart call
  unfolding handle_poll_cart
  poll_cart-Does call = answer-Does "poll_cart" poll_cart poll_answer poll_answer_node

  -- No motion is asked for, so allow_motion does not matter.
  pub inverse_kinematics-Does :
      (pose : Pose) (seed : List Double) (timeout : Double) (call : Call Arm (List Double))
      → Does
          (FinitePose pose × IsOptional seed 7 × IsTimeout timeout)
          (plain (ik pose seed (if ltd zero_d timeout then timeout else whole 3)) call.node)
          (handle_inverse_kinematics pose seed timeout)
          call
  unfolding handle_inverse_kinematics
  inverse_kinematics-Does pose seed timeout call = Does-change drop3 (
      gated-Does _ _ (pose_iff pose) (
        gated-Does _ _ (IsOptional-iff seed _ _) (
          gated-Does _ _ (check_timeout_iff timeout _) (
            answer-Does "inverse_kinematics"
              (ik pose seed (if ltd zero_d timeout then timeout else whole 3)) set_body
              (λ r s. refl)))))
