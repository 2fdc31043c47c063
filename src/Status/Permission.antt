-- ===== src/Status/Permission.antt =====
-- The one SDK call of `handle_get_status` (litearm_driver/src/litearm_driver_node.cpp).
use litearm_ros.Prelude.{Option, refl}
use litearm_ros.Double.{Double}
use litearm_ros.Sdk.{Sdk, Moment}
use litearm_ros.Node.{Call}
use litearm_ros.Node.Growth.{Sends, command-Sends}
use litearm_ros.Policy.{Permitted}
use litearm_ros.Status.{LitearmStatus, handle_get_status}

module _ {Arm : Type 0} ⦃sdk : Sdk Arm⦄ where
  pub get_status-Sends :
      (at : Moment) (timeout : Double) (call : Call Arm (Option LitearmStatus))
      → Sends (Permitted call.node) (handle_get_status at timeout) call
  unfolding handle_get_status
  get_status-Sends at timeout call = command-Sends _ _ _ tt (λ r s. (refl, refl))
