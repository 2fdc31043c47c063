-- ===== src/Lifecycle/Fresh.antt =====
-- Nothing of an earlier session outlives `on_cleanup` (litearm_driver/src/litearm_driver_node.cpp).
use litearm_ros.Prelude.{Option, [], String, ◌≡◌, arith, if◌then◌else◌}
use litearm_ros.Sdk.{Sdk}
use litearm_ros.Node.{Node, issue, refresh_license_record}
use litearm_ros.Lifecycle.{
  CallbackReturn, on_configure, configure_session, configure_link, configure_names, give_up,
  read_parameters, clear_cache, create_publishers, deactivate_publishers, destroy_service_servers,
  stop_timers, on_cleanup, reset_publishers, close_session, new_node,
}

module _ {Arm : Type 0} ⦃sdk : Sdk Arm⦄ where
  -- The node up to the trace of its calls and to the records that it does not mark as valid.
  abbrev pub meaning : Node Arm → Node Arm
  meaning node = record node {
    license = if node.license_valid then node.license else sdk.default_license;
    last_state = if node.have_state then node.last_state else sdk.default_state;
    issued = [];
  }

  abbrev pub means : CallbackReturn × Node Arm → CallbackReturn × Node Arm
  means (result, node) = (result, meaning node)

  -- A node that is cleaned up, in whatever state it was, configures exactly as one that was just
  -- constructed with its parameters, the SDK creating the same session for both: with the same result, and
  -- with the same members, up to the trace of the calls and to records that are not marked as valid.
  pub cleanup_is_fresh :
      (home : Option String) (node : Node Arm)
      → means (on_configure home (on_cleanup node).1)
        ≡ means (on_configure home (new_node node.parameters))
  unfolding on_cleanup reset_publishers close_session deactivate_publishers destroy_service_servers
      stop_timers clear_cache on_configure configure_session configure_link configure_names give_up
      create_publishers read_parameters issue refresh_license_record new_node
  cleanup_is_fresh home node = ground arith
