-- ===== src/System.antt =====
-- The node over time: the managed lifecycle of ROS 2, in whose order the callbacks of
-- litearm_driver/src/litearm_driver_node.cpp are called, the service requests, the ticks of the
-- status timer and the parameter writes. The order is that which the ROS 2 documentation gives; an
-- event that the phase does not allow changes nothing. One event ends before the next one begins.
pub mod Invariant
pub mod Calls
pub mod Cases
pub mod Grounds
pub mod Consent
pub mod Cached
pub mod Ending
pub mod Restart
pub mod Replay
pub mod Reporting
pub mod Startup
pub mod Stopping
use litearm_ros.Prelude.{Option, none, some, String, if◌then◌else◌}
use litearm_ros.Double.{Double}
use litearm_ros.Sdk.{Sdk, Moment}
use litearm_ros.Node.{Node, Parameters}
use litearm_ros.Status.{publish_status}
use litearm_ros.Lifecycle.{
  CallbackReturn, success, failure, error, on_configure, on_activate, on_deactivate, on_cleanup,
  on_shutdown, on_error, new_node,
}
use litearm_ros.Service.{World, Request, serve}
use litearm_ros.Service.Names.{name_of, lists}

pub data Phase : Type 0 where
  unconfigured inactive active finalized : Phase

pub record System (Arm : Type 0) : Type 0 where
  pub phase : Phase
  pub node : Node Arm

-- What happens to the node. A configuration brings `getenv("HOME")`.
pub data Event : Type 0 where
  configure : Option String → Event
  activate deactivate cleanup shutdown : Event
  request : World → Request → Event
  status_tick : Moment → Event
  set_parameters : Parameters → Event

module _ {Arm : Type 0} where
  -- A callback that returns ERROR is followed by `on_error`.
  abbrev pub recover : CallbackReturn × Node Arm → System Arm
  recover (success, node) = record { phase = unconfigured; node = node }
  recover (failure, node) = record { phase = finalized; node = node }
  recover (error, node) = record { phase = finalized; node = node }

  -- Where a callback leaves the node: in `next`, back in `before`, or after the recovery.
  abbrev pub settle : Phase → Phase → CallbackReturn × Node Arm → System Arm
  settle next before (success, node) = record { phase = next; node = node }
  settle next before (failure, node) = record { phase = before; node = node }
  settle next before (error, node) = recover (on_error node)

module _ {Arm : Type 0} ⦃sdk : Sdk Arm⦄ where
  -- A shutdown is possible from every phase but the last.
  abbrev pub finalize : Phase → Node Arm → System Arm
  finalize finalized node = record { phase = finalized; node = node }
  finalize phase node = settle finalized phase (on_shutdown node)

  -- The callback of the status timer, where that runs.
  abbrev pub tick : Option Double → Moment → Node Arm → Node Arm
  tick none at node = node
  tick (some rate) at node = (publish_status at node).2

  abbrev pub react : Event → Phase → Node Arm → System Arm
  react (configure home) unconfigured node = settle inactive unconfigured (on_configure home node)
  react activate inactive node = settle active inactive (on_activate node)
  react deactivate active node = settle inactive active (on_deactivate node)
  react cleanup inactive node = settle unconfigured inactive (on_cleanup node)
  react shutdown phase node = finalize phase node
  react (request world r) phase node = record {
    phase = phase;
    node = if lists node.services (name_of r) then (serve world r node).node else node;
  }
  react (status_tick at) phase node = record {
    phase = phase;
    node = tick node.status_timer at node;
  }
  react (set_parameters parameters) phase node = record {
    phase = phase;
    node = record node { parameters = parameters };
  }
  react _ phase node = record { phase = phase; node = node }

  unfoldable pub step : Event → System Arm → System Arm
  step event system = react event system.phase system.node

  -- Before the first event.
  abbrev pub launched : Parameters → System Arm
  launched parameters = record { phase = unconfigured; node = new_node parameters }

  -- The states that a sequence of events, each of which satisfies `E`, reaches.
  pub data Reaches (E : Event → Type 0) (from : System Arm) : System Arm → Type 0 where
    stay : Reaches E from from
    advance :
        {system : System Arm} (event : Event)
        → E event
        → Reaches E from system
        → Reaches E from (step event system)
