-- ===== src/Diagnostics/Reconnect.antt =====
-- `handle_reconnect` of litearm_driver/src/litearm_driver_diagnostics.cpp.
use litearm_ros.Prelude.{Bool, false, ◌&&◌, Option, none, some, List, ◌∷◌, ◌≡◌, arith}
use litearm_ros.Sdk.{Command, Sdk, ok, threw, reconnect, read_license}
use litearm_ros.Node.{Call, reading, issue, refresh_license_record, fill_failure}
use litearm_ros.Node.Outcome.{is_ok}
use litearm_ros.Diagnostics.{handle_reconnect, reconnect_session, reconnected, then_refresh}

module _ {Arm : Type 0} ⦃sdk : Sdk Arm⦄ where
  -- Whether rebuilding the link and then reading the licence both return.
  abbrev rebuilds : Option Arm → Bool
  rebuilds none = false
  rebuilds (some arm) =
      is_ok (sdk.exec reconnect arm).0 && is_ok (sdk.exec read_license (sdk.exec reconnect arm).1).0

  -- The calls that are made: none without a session, and the licence is read once the link is back.
  abbrev rebuilding : List Command → Option Arm → List Command
  rebuilding before none = before
  rebuilding before (some arm) = elim (sdk.exec reconnect arm).0 [
    | ok _ ↦ read_license ∷ reconnect ∷ before
    | threw text ↦ reconnect ∷ before
  ]

  -- reconnect succeeds exactly when there is a session, linked or not, and both reconnecting and then
  -- reading the licence return; it makes these two calls in this order, the second only if the first
  -- returned, and none without a session.
  pub reconnect_outcome :
      (call : Call Arm (Unit {0}))
      → let after = handle_reconnect call in
        (after.response.success ≡ rebuilds call.node.arm)
        × (after.node.issued ≡ rebuilding call.node.issued call.node.arm)
  unfolding handle_reconnect reading reconnect_session reconnected then_refresh
      refresh_license_record issue fill_failure
  reconnect_outcome call = ground arith
