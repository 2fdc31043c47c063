-- ===== src/System/Cached.antt =====
-- What a running node has cached: only of the session it has, and never a speed above 100 percent.
use litearm_ros.Prelude.{Option, none, some, String, refl, inr, arith}
use litearm_ros.Double.{Double}
use litearm_ros.Sdk.{Sdk, Moment}
use litearm_ros.Node.{Node, Parameters, issue, refresh_license_record, cached_state}
use litearm_ros.Node.Footprint.{IsCurrent}
use litearm_ros.Status.{publish_status}
use litearm_ros.Lifecycle.{
  on_configure, configure_session, configure_link, configure_names, give_up, read_parameters,
  clear_cache, create_publishers, on_activate, activate_session, activate_enabled, go_active,
  create_service_servers, activate_publishers, start_timers, on_deactivate, leave_zero_g,
  deactivate_publishers, destroy_service_servers, stop_timers, on_cleanup, reset_publishers,
  close_session, on_shutdown, new_node,
}
use litearm_ros.Service.{World, Request, serve}
use litearm_ros.Service.Footprint.{served-Tidy}
use litearm_ros.System.{Phase, System, Event, react, step, tick, Reaches, stay, advance, launched}
use litearm_ros.System.Cases.{react-Cases}

module _ {Arm : Type 0} ⦃sdk : Sdk Arm⦄ where
  configured-IsCurrent :
      (home : Option String) (node : Node Arm) → IsCurrent (on_configure home node).1
  unfolding on_configure configure_session configure_link configure_names give_up create_publishers
      read_parameters clear_cache issue refresh_license_record
  configured-IsCurrent home node = ground arith

  activated-IsCurrent : (node : Node Arm) → IsCurrent node → IsCurrent (on_activate node).1
  unfolding on_activate activate_session activate_enabled go_active create_service_servers
      activate_publishers start_timers issue
  activated-IsCurrent node h = ground arith

  deactivated-IsCurrent : (node : Node Arm) → IsCurrent node → IsCurrent (on_deactivate node).1
  unfolding on_deactivate leave_zero_g deactivate_publishers destroy_service_servers stop_timers
      issue
  deactivated-IsCurrent node h = ground arith

  cleaned-IsCurrent : (node : Node Arm) → IsCurrent node → IsCurrent (on_cleanup node).1
  unfolding on_cleanup reset_publishers close_session deactivate_publishers destroy_service_servers
      stop_timers issue clear_cache
  cleaned-IsCurrent node h = ground arith

  ticked-IsCurrent :
      (timer : Option Double) (at : Moment) (node : Node Arm)
      → IsCurrent node
      → IsCurrent (tick timer at node)
  unfolding publish_status cached_state
  ticked-IsCurrent none at node h = h
  ticked-IsCurrent (some rate) at node h = ground arith

  serving-IsCurrent :
      (world : World) (r : Request) (node : Node Arm)
      → IsCurrent node
      → IsCurrent (serve world r node).node
  serving-IsCurrent world r node h = (served-Tidy world r node).2 h

  reacting-IsCurrent :
      (event : Event) (phase : Phase) (node : Node Arm)
      → IsCurrent node
      → IsCurrent (react event phase node).node
  unfolding on_shutdown
  reacting-IsCurrent event phase node h =
      react-Cases (λ e after. IsCurrent after) event phase node
        (record {
          idle = λ e. h;
          configures = λ home. configured-IsCurrent home node;
          activates = activated-IsCurrent node h;
          deactivates = deactivated-IsCurrent node h;
          cleans_up = cleaned-IsCurrent node h;
          shuts_down = cleaned-IsCurrent node h;
          serves = λ world r. serving-IsCurrent world r node h;
          ticks = λ timer at. ticked-IsCurrent timer at node h;
          sets = λ parameters. h;
        })

  -- In every state that events reach from the launch, the reported speed scaling is at most 100
  -- percent, and a node without a session has neither a cached frame nor a licence record that is
  -- marked as valid.
  pub reachable-IsCurrent :
      (parameters : Parameters) (system : System Arm)
      → Reaches (λ event. Unit) (launched parameters) system
      → IsCurrent system.node
  unfolding new_node step
  reachable-IsCurrent parameters _ stay = (ground arith, inr (refl, refl))
  reachable-IsCurrent parameters _ (advance {system} event e path) =
      reacting-IsCurrent event system.phase system.node (reachable-IsCurrent parameters system path)
