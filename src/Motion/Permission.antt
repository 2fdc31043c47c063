-- ===== src/Motion/Permission.antt =====
-- Every SDK call of the handlers in litearm_driver/src/litearm_driver_motion.cpp is permitted.
use litearm_ros.Prelude.{
  ℕ, ℤ, Bool, true, List, [], ◌∷◌, String, ◌≡◌, refl, inl, inr, arith, if◌then◌else◌, All,
}
use litearm_ros.Double.{Double, ltd, zero_d, whole}
use litearm_ros.Sdk.{Command, Sdk, Pose}
use litearm_ros.Gates.{check_finite_values_of, check_finite_values, check_timeout}
use litearm_ros.Gates.Accept.{
  IsVector, check_finite_values_exact, check_speed_fraction_iff, check_pose_finite,
  check_joint_index_iff, check_timeout_iff,
}
use litearm_ros.Node.{Call, Handler, joint_count}
use litearm_ros.Node.Growth.{
  Sends, gated-Sends, on_success-Sends, reading-Sends, command-Sends, tell-Sends,
  require_motion_allowed-Sends,
}
use litearm_ros.Policy.{IsOptional, FinitePose, IsWait, Permitted}
use litearm_ros.Motion.{
  PlanReport, PollReport, fill_plan, check_optional, gated_arrays, gated_poses, handle_move_j,
  handle_move_j_sync, handle_move_p, handle_move_js, handle_send_mit, handle_send_mit_all,
  handle_home, handle_move_l, handle_move_c, handle_move_path, handle_poll_cart,
  handle_inverse_kinematics,
}
use litearm_ros.Motion.Poses.{read_poses-IsReadFrom, read_poses-ne-nil}

pub check_of-IsVector :
    (xs : List Double) (n : ℕ) (what : String)
    → (check_finite_values_of xs n what).ok ≡ true
    → IsVector xs n
unfolding check_finite_values_of
check_of-IsVector xs n what h = (check_finite_values_exact xs n what).0 h

pub check_optional-IsOptional :
    (xs : List Double) (n : ℕ) (what : String)
    → (check_optional xs n what).ok ≡ true
    → IsOptional xs n
unfolding check_optional
check_optional-IsOptional [] n what h = inl refl
check_optional-IsOptional (x ∷ xs) n what h = inr (check_of-IsVector (x ∷ xs) n what h)

pub check_values-IsVector :
    (xs : List Double) (what : String) → (check_finite_values xs what).ok ≡ true → IsVector xs 0
unfolding check_finite_values
check_values-IsVector xs what h = (check_finite_values_exact xs 0 what).0 h

pub chosen-IsWait :
    (t default_wait : Double) (what : String)
    → (check_timeout t what).ok ≡ true
    → IsWait default_wait
    → IsWait (if ltd zero_d t then t else default_wait)
chosen-IsWait t default_wait what h d =
    let facts = (check_timeout_iff t what).0 h in ground (arith, facts, d)

module _ {Arm : Type 0} ⦃sdk : Sdk Arm⦄ where
  pub move_j-Sends :
      (q : List Double) (speed : Double) (call : Call Arm (Unit {0}))
      → Sends (Permitted call.node) (handle_move_j q speed) call
  unfolding handle_move_j
  move_j-Sends q speed call = require_motion_allowed-Sends _ λ motion. reading-Sends _ (
      gated-Sends _ _ λ values. gated-Sends _ _ λ fraction.
        on_success-Sends _ _ (λ s. (refl, refl))
          (tell-Sends _ _
            (motion, check_of-IsVector q _ _ values, (check_speed_fraction_iff speed).0 fraction)))

  pub move_j_sync-Sends :
      (q : List Double) (speed : Double) (call : Call Arm (Unit {0}))
      → Sends (Permitted call.node) (handle_move_j_sync q speed) call
  unfolding handle_move_j_sync
  move_j_sync-Sends q speed call = require_motion_allowed-Sends _ λ motion. reading-Sends _ (
      gated-Sends _ _ λ values. gated-Sends _ _ λ fraction.
        tell-Sends _ _
          (motion, check_of-IsVector q _ _ values, (check_speed_fraction_iff speed).0 fraction))

  pub move_p-Sends :
      (pose : Pose) (speed : Double) (wait : Bool) (call : Call Arm (Unit {0}))
      → Sends (Permitted call.node) (handle_move_p pose speed wait) call
  unfolding handle_move_p
  move_p-Sends pose speed wait call = require_motion_allowed-Sends _ λ motion.
      gated-Sends _ _ λ finite_pose. gated-Sends _ _ λ fraction.
        on_success-Sends _ _ (λ s. ground arith)
          (tell-Sends _ _ (
            motion,
            check_pose_finite pose finite_pose,
            (check_speed_fraction_iff speed).0 fraction,
          ))

  pub move_js-Sends :
      (q dq tau_ff : List Double) (call : Call Arm (Unit {0}))
      → Sends (Permitted call.node) (handle_move_js q dq tau_ff) call
  unfolding handle_move_js
  move_js-Sends q dq tau_ff call = require_motion_allowed-Sends _ λ motion. reading-Sends _ (
      gated-Sends _ _ λ q_ok. gated-Sends _ _ λ dq_ok. gated-Sends _ _ λ tau_ok.
        on_success-Sends _ _ (λ s. ground arith)
          (tell-Sends _ _ (
            motion,
            check_of-IsVector q _ _ q_ok,
            check_optional-IsOptional dq _ _ dq_ok,
            check_optional-IsOptional tau_ff _ _ tau_ok,
          )))

  pub send_mit-Sends :
      (joint : ℤ) (q dq kp kd tau : Double) (call : Call Arm (Unit {0}))
      → Sends (Permitted call.node) (handle_send_mit joint q dq kp kd tau) call
  unfolding handle_send_mit
  send_mit-Sends joint q dq kp kd tau call = require_motion_allowed-Sends _ λ motion.
      reading-Sends _ (
        gated-Sends _ _ λ axis. gated-Sends _ _ λ values.
          tell-Sends _ _
            (motion, (check_joint_index_iff joint _).0 axis, (check_values-IsVector _ _ values).2))

  gated_arrays-Sends :
      {B : Type 0} {P : Command → Type 0} {call : Call Arm B} (arrays : List (String × List Double))
      (rest : Handler Arm B)
      → (All (λ entry. IsVector entry.1 (joint_count call.node)) arrays → Sends P rest call)
      → Sends P (gated_arrays arrays rest) call
  unfolding gated_arrays
  gated_arrays-Sends [] rest h = h tt
  gated_arrays-Sends ((name, values) ∷ arrays) rest h = reading-Sends _ (
      gated-Sends _ _ λ passed.
        gated_arrays-Sends arrays rest λ others. h (check_of-IsVector values _ _ passed, others))

  pub send_mit_all-Sends :
      (q dq kp kd tau : List Double) (call : Call Arm (Unit {0}))
      → Sends (Permitted call.node) (handle_send_mit_all q dq kp kd tau) call
  unfolding handle_send_mit_all
  send_mit_all-Sends q dq kp kd tau call = require_motion_allowed-Sends _ λ motion.
      gated_arrays-Sends _ _ λ (q_ok, (dq_ok, (kp_ok, (kd_ok, (tau_ok, _))))).
        on_success-Sends _ _ (λ s. (refl, refl))
          (tell-Sends _ _ (motion, q_ok, dq_ok, kp_ok, kd_ok, tau_ok))

  pub home-Sends : (call : Call Arm (Unit {0})) → Sends (Permitted call.node) handle_home call
  unfolding handle_home
  home-Sends call =
      require_motion_allowed-Sends _
        λ motion. on_success-Sends _ _ (λ s. (refl, refl)) (tell-Sends _ _ motion)

  pub move_l-Sends :
      (pose : Pose) (speed : Double) (wait : Bool) (call : Call Arm PlanReport)
      → Sends (Permitted call.node) (handle_move_l pose speed wait) call
  unfolding handle_move_l fill_plan
  move_l-Sends pose speed wait call = require_motion_allowed-Sends _ λ motion.
      gated-Sends _ _ λ finite_pose. gated-Sends _ _ λ fraction.
        command-Sends _ _ _
          (motion, check_pose_finite pose finite_pose, (check_speed_fraction_iff speed).0 fraction)
          (λ r s. (refl, refl))

  gated_poses-Sends :
      {B : Type 0} {P : Command → Type 0} {call : Call Arm B} (poses : List (String × Pose))
      (rest : Handler Arm B)
      → (All (λ entry. FinitePose entry.1) poses → Sends P rest call)
      → Sends P (gated_poses poses rest) call
  unfolding gated_poses
  gated_poses-Sends [] rest h = h tt
  gated_poses-Sends ((name, pose) ∷ poses) rest h =
      gated-Sends _ _
        λ passed. gated_poses-Sends poses rest λ others. h (check_pose_finite pose passed, others)

  pub move_c-Sends :
      (start via end : Pose) (speed : Double) (wait : Bool) (call : Call Arm PlanReport)
      → Sends (Permitted call.node) (handle_move_c start via end speed wait) call
  unfolding handle_move_c fill_plan
  move_c-Sends start via end speed wait call = require_motion_allowed-Sends _ λ motion.
      gated_poses-Sends _ _ λ (start_ok, (via_ok, (end_ok, _))). gated-Sends _ _ λ fraction.
        command-Sends _ _ _
          (motion, start_ok, via_ok, end_ok, (check_speed_fraction_iff speed).0 fraction)
          (λ r s. (refl, refl))

  pub move_path-Sends :
      (flat : List Double) (speed : Double) (wait : Bool) (call : Call Arm PlanReport)
      → Sends (Permitted call.node) (handle_move_path flat speed wait) call
  unfolding handle_move_path fill_plan
  move_path-Sends flat speed wait call = require_motion_allowed-Sends _ λ motion.
      gated-Sends _ _ λ read. gated-Sends _ _ λ fraction.
        command-Sends _ _ _
          (
            motion,
            read_poses-ne-nil flat read,
            (read_poses-IsReadFrom flat read).2,
            (check_speed_fraction_iff speed).0 fraction,
          )
          (λ r s. (refl, refl))

  pub poll_cart-Sends :
      (call : Call Arm PollReport) → Sends (Permitted call.node) handle_poll_cart call
  unfolding handle_poll_cart
  poll_cart-Sends call = command-Sends _ _ _ tt (λ r s. ground arith)

  pub inverse_kinematics-Sends :
      (pose : Pose) (seed : List Double) (timeout : Double) (call : Call Arm (List Double))
      → Sends (Permitted call.node) (handle_inverse_kinematics pose seed timeout) call
  unfolding handle_inverse_kinematics whole
  inverse_kinematics-Sends pose seed timeout call = gated-Sends _ _ λ finite_pose.
      gated-Sends _ _ λ seed_ok. gated-Sends _ _ λ timeout_ok.
        command-Sends _ _ _
          (
            check_pose_finite pose finite_pose,
            check_optional-IsOptional seed 7 _ seed_ok,
            chosen-IsWait timeout (whole 3) _ timeout_ok (refl, refl),
          )
          (λ r s. (refl, refl))
