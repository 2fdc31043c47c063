-- ===== src/Motion/Success.antt =====
-- When the motion services of litearm_driver/src/litearm_driver_motion.cpp succeed: the gates refuse
-- nothing but what the policy forbids.
use litearm_ros.Prelude.{ℤ, Bool, true, List, ◌≡◌, ◌↔◌}
use litearm_ros.Double.{Double}
use litearm_ros.Sdk.{
  Command, movej, movej_sync, move_p, move_js, send_mit, send_mit_all, home, move_l, move_c,
  move_path, Sdk, Pose,
}
use litearm_ros.Node.{Node, Call, Handler}
use litearm_ros.Node.Outcome.{Does-success, answers}
use litearm_ros.Policy.{Permitted}
use litearm_ros.Motion.{
  PlanReport, handle_move_j, handle_move_j_sync, handle_move_p, handle_move_js, handle_send_mit,
  handle_send_mit_all, handle_home, handle_move_l, handle_move_c, handle_move_path, read_poses,
}
use litearm_ros.Motion.Effect.{
  PathPermitted, move_j-Does, move_j_sync-Does, move_p-Does, move_js-Does, send_mit-Does,
  send_mit_all-Does, home-Does, move_l-Does, move_c-Does, move_path-Does,
}

module _ {Arm : Type 0} ⦃sdk : Sdk Arm⦄ where
  -- What it takes for the call to be made and to return.
  abbrev pub Granted : Command → Node Arm → Type 0
  Granted c node = Permitted node c × (answers c node ≡ true)

  abbrev PathGranted : List Double → Double → Bool → Node Arm → Type 0
  PathGranted flat speed wait node =
      PathPermitted flat speed node
      × (answers (move_path (read_poses flat).1 speed wait) node ≡ true)

  abbrev pub Grants : {B : Type 0} → Command → Handler Arm B → Call Arm B → Type 0
  Grants c handler call = ((handler call).response.success ≡ true) ↔ Granted c call.node

  -- Each joint-space motion service succeeds exactly when the policy permits its SDK call in the state
  -- of the node (motion is allowed, the arrays have the joints' length where they must, and they and the
  -- speed are in range), the link is up and the SDK call returns: no permitted request is refused.
  pub joint_motion_succeeds :
      (q dq kp kd tau : List Double) (speed : Double) (call : Call Arm (Unit {0}))
      → Grants (movej q speed) (handle_move_j q speed) call
        × Grants (movej_sync q speed) (handle_move_j_sync q speed) call
        × Grants (move_js q dq tau) (handle_move_js q dq tau) call
        × Grants (send_mit_all q dq kp kd tau) (handle_send_mit_all q dq kp kd tau) call
        × Grants home handle_home call
  joint_motion_succeeds q dq kp kd tau speed call = (
    Does-success _ _ _ call (move_j-Does q speed call),
    Does-success _ _ _ call (move_j_sync-Does q speed call),
    Does-success _ _ _ call (move_js-Does q dq tau call),
    Does-success _ _ _ call (send_mit_all-Does q dq kp kd tau call),
    Does-success _ _ _ call (home-Does call),
  )

  -- The services that send one motor a frame and that move to a pose succeed exactly when the policy
  -- permits their SDK call in the state of the node, the link is up and the SDK call returns.
  pub frame_and_pose_succeed :
      (joint : ℤ) (q dq kp kd tau : Double) (pose : Pose) (speed : Double) (wait : Bool)
      (call : Call Arm (Unit {0}))
      → Grants (send_mit joint q dq kp kd tau) (handle_send_mit joint q dq kp kd tau) call
        × Grants (move_p pose speed wait) (handle_move_p pose speed wait) call
  frame_and_pose_succeed joint q dq kp kd tau pose speed wait call = (
    Does-success _ _ _ call (send_mit-Does joint q dq kp kd tau call),
    Does-success _ _ _ call (move_p-Does pose speed wait call),
  )

  -- move_l and move_c succeed exactly when the policy permits their SDK call in the state of the node,
  -- the link is up and the SDK call returns; move_path when motion is allowed, the flat array holds
  -- finite waypoints of six values, at least one, the speed is in range, the link is up and the SDK call
  -- with the poses that were read returns. What the SDK said of the plan does not matter.
  pub cartesian_motion_succeeds :
      (first via last : Pose) (flat : List Double) (speed : Double) (wait : Bool)
      (call : Call Arm PlanReport)
      → Grants (move_l first speed wait) (handle_move_l first speed wait) call
        × Grants (move_c first via last speed wait) (handle_move_c first via last speed wait) call
        × (((handle_move_path flat speed wait call).response.success ≡ true)
            ↔ PathGranted flat speed wait call.node)
  cartesian_motion_succeeds first via last flat speed wait call = (
    Does-success _ _ _ call (move_l-Does first speed wait call),
    Does-success _ _ _ call (move_c-Does first via last speed wait call),
    Does-success _ _ _ call (move_path-Does flat speed wait call),
  )
