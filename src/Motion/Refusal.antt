-- ===== src/Motion/Refusal.antt =====
-- The motion services of litearm_driver/src/litearm_driver_motion.cpp while `allow_motion` is not set.
use litearm_ros.Prelude.{ℤ, Bool, false, List, ◌≡◌, refl}
use litearm_ros.Double.{Double}
use litearm_ros.Sdk.{Sdk, Pose}
use litearm_ros.Gates.{check_parameter_allows}
use litearm_ros.Node.{Call, Handler, gated, fill_failure, require_motion_allowed}
use litearm_ros.Motion.{
  PlanReport, handle_move_j, handle_move_j_sync, handle_move_p, handle_move_js, handle_send_mit,
  handle_send_mit_all, handle_home, handle_move_l, handle_move_c, handle_move_path,
}

module _ {Arm B : Type 0} ⦃sdk : Sdk Arm⦄ where
  -- The handler refuses: the node stays as it was, and the response is that of the closed gate.
  abbrev Refuses : Handler Arm B → Call Arm B → Type 0
  Refuses handler call =
      handler call ≡ fill_failure (check_parameter_allows false "allow_motion") call

  motion_closed :
      (rest : Handler Arm B) (call : Call Arm B)
      → call.node.parameters.allow_motion ≡ false
      → Refuses (require_motion_allowed rest) call
  unfolding require_motion_allowed gated check_parameter_allows
  motion_closed rest call h = rw h refl

module _ {Arm : Type 0} ⦃sdk : Sdk Arm⦄ where
  -- While allow_motion is false, every service that moves the arm and fills no plan gives the closed
  -- gate's refusal, whatever its arguments, and leaves the node, the session's state included, as it was.
  pub motion_refused :
      (q dq kp kd tau : List Double) (joint : ℤ) (a b c d e speed : Double) (pose : Pose)
      (wait : Bool) (call : Call Arm (Unit {0}))
      → call.node.parameters.allow_motion ≡ false
      → Refuses (handle_move_j q speed) call
        × Refuses (handle_move_j_sync q speed) call
        × Refuses (handle_move_p pose speed wait) call
        × Refuses (handle_move_js q dq tau) call
        × Refuses (handle_send_mit joint a b c d e) call
        × Refuses (handle_send_mit_all q dq kp kd tau) call
        × Refuses handle_home call
  unfolding handle_move_j handle_move_j_sync handle_move_p handle_move_js handle_send_mit
      handle_send_mit_all handle_home
  motion_refused q dq kp kd tau joint a b c d e speed pose wait call h = (
    motion_closed _ call h,
    motion_closed _ call h,
    motion_closed _ call h,
    motion_closed _ call h,
    motion_closed _ call h,
    motion_closed _ call h,
    motion_closed _ call h,
  )

  -- While allow_motion is false, the three cartesian services that fill a plan refuse in the same way.
  pub plan_refused :
      (first via last : Pose) (flat : List Double) (speed : Double) (wait : Bool)
      (call : Call Arm PlanReport)
      → call.node.parameters.allow_motion ≡ false
      → Refuses (handle_move_l first speed wait) call
        × Refuses (handle_move_c first via last speed wait) call
        × Refuses (handle_move_path flat speed wait) call
  unfolding handle_move_l handle_move_c handle_move_path
  plan_refused first via last flat speed wait call h =
      (motion_closed _ call h, motion_closed _ call h, motion_closed _ call h)
