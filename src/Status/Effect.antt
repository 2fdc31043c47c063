-- ===== src/Status/Effect.antt =====
-- What `handle_get_status` of litearm_driver/src/litearm_driver_node.cpp does.
use litearm_ros.Prelude.{true, Option, refl}
use litearm_ros.Double.{Double}
use litearm_ros.Sdk.{Sdk, Moment, Stamped, RobotState, get_status_now}
use litearm_ros.Node.{Node, Call}
use litearm_ros.Node.Effect.{Does, command-Does, effect}
use litearm_ros.Status.{LitearmStatus, handle_get_status, store_status}

-- The frame that the device answered, and its time.
abbrev pub keep_frame : {Arm : Type 0} → Stamped RobotState → Node Arm → Node Arm
keep_frame answer node = record node {
  last_state = answer.value;
  last_state_stamp = answer.timestamp;
  have_state = true;
}

module _ {Arm : Type 0} ⦃sdk : Sdk Arm⦄ where
  pub get_status-Does :
      (at : Moment) (timeout : Double) (call : Call Arm (Option LitearmStatus))
      → Does
          (Unit {0})
          (effect (get_status_now timeout) keep_frame call.node)
          (handle_get_status at timeout)
          call
  unfolding handle_get_status store_status
  get_status-Does at timeout call =
      command-Does _ (get_status_now timeout) (store_status at) keep_frame (λ r s. refl)
