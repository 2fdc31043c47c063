-- ===== src/System/Reporting.antt =====
-- What a tick of the status timer (litearm_driver/src/litearm_driver_node.cpp) publishes and leaves
-- alone, in the states that events reach.
use litearm_ros.Prelude.{true, ◌&&◌, Option, none, some, ◌≡◌, arith, if◌then◌else◌}
use litearm_ros.Double.{Double}
use litearm_ros.Sdk.{Sdk, Moment, RobotState}
use litearm_ros.Node.{Node, Parameters, cached_state}
use litearm_ros.Node.Growth.{outline, is_present}
use litearm_ros.Status.{build_status, joint_states, publish_status}
use litearm_ros.System.{Phase, unconfigured, inactive, active, finalized, System, Reaches, launched}
use litearm_ros.System.Invariant.{Shape, is_on, reachable-IsWell}

module _ {Arm : Type 0} ⦃sdk : Sdk Arm⦄ where
  -- The frame that the node has cached.
  abbrev pub known_frame : Node Arm → Option RobotState
  known_frame node = if node.have_state then some node.last_state else none

  timed_publisher :
      (phase : Phase) (node : Node Arm) (rate : Double)
      → Shape phase (outline node)
      → node.status_timer ≡ some rate
      → is_on node.status_publisher ≡ true
  timed_publisher unconfigured node rate h timer = absurd (ground (arith, h, timer))
  timed_publisher inactive node rate h timer = absurd (ground (arith, h, timer))
  timed_publisher active node rate h timer = h.2
  timed_publisher finalized node rate h timer = absurd (ground (arith, h, timer))

  -- The messages of one tick of a node with a status publisher, and what is left of the node.
  abbrev pub PublishesOnce : Moment → Node Arm → Type 0
  PublishesOnce at node =
      let (status, joints, after) = publish_status at node in
      (status ≡ some (build_status at after (known_frame after)))
      × (joints ≡ (
          if is_present node.joint_state_publisher && after.have_state
          then some (joint_states at after after.last_state)
          else none))
      × (after.issued ≡ node.issued)
      × (after.arm ≡ node.arm)
      × (outline after ≡ outline node)

  publishes :
      (at : Moment) (node : Node Arm) → is_on node.status_publisher ≡ true → PublishesOnce at node
  unfolding publish_status cached_state
  publishes at node on = ground arith

  -- In every state that events reach where the status timer runs, the status publisher is active, and a
  -- tick publishes one status, built from the frame that the node has cached then, and the joint states of
  -- that frame exactly when there is one and joint states are published. It makes no SDK call and leaves
  -- the session, the parameters, the services, the publishers and the timers as they were.
  pub timer_reports :
      (parameters : Parameters) (system : System Arm) (at : Moment) (rate : Double)
      → Reaches (λ event. Unit) (launched parameters) system
      → system.node.status_timer ≡ some rate
      → (is_on system.node.status_publisher ≡ true) × PublishesOnce at system.node
  timer_reports parameters system at rate path timer =
      let on : is_on system.node.status_publisher ≡ true =
        timed_publisher system.phase system.node rate (reachable-IsWell parameters system path)
          timer in
      (on, publishes at system.node on)
