-- ===== src/System/Cases.antt =====
-- What an event does to the node, one case for each callback of
-- litearm_driver/src/litearm_driver_node.cpp that it can lead to.
use litearm_ros.Prelude.{Bool-cases, Option, String, ◌≡◌, refl, sym, subst, inl, inr}
use litearm_ros.Double.{Double}
use litearm_ros.Sdk.{Sdk, Moment}
use litearm_ros.Node.{Node, Parameters}
use litearm_ros.Lifecycle.{
  CallbackReturn, success, failure, error, on_configure, on_activate, on_deactivate, on_cleanup,
  on_shutdown, on_error,
}
use litearm_ros.Service.{World, Request, serve}
use litearm_ros.Service.Names.{name_of, lists}
use litearm_ros.System.{
  Phase, unconfigured, inactive, active, finalized, Event, settle, react, tick,
}

module _ {Arm : Type 0} ⦃sdk : Sdk Arm⦄ where
  pub settles_node :
      (after before : Phase) (out : CallbackReturn × Node Arm)
      → (settle after before out).node ≡ out.1
  unfolding on_error
  settles_node after before (success, node) = refl
  settles_node after before (failure, node) = refl
  settles_node after before (error, node) = refl

  -- A callback, a service, a tick or a write is all that an event leads to.
  pub record Cases (P : Event → Node Arm → Type 0) (node : Node Arm) : Type 0 where
    pub idle : (event : Event) → P event node
    pub configures : (home : Option String) → P (Event.configure home) (on_configure home node).1
    pub activates : P Event.activate (on_activate node).1
    pub deactivates : P Event.deactivate (on_deactivate node).1
    pub cleans_up : P Event.cleanup (on_cleanup node).1
    pub shuts_down : P Event.shutdown (on_shutdown node).1
    pub serves : (world : World) (r : Request) → P (Event.request world r) (serve world r node).node
    pub ticks :
        (timer : Option Double) (at : Moment) → P (Event.status_tick at) (tick timer at node)
    pub sets :
        (parameters : Parameters)
        → P (Event.set_parameters parameters) (record node { parameters = parameters })

  settled_by :
      (P : Event → Node Arm → Type 0) (event : Event) (after before : Phase)
      (out : CallbackReturn × Node Arm)
      → P event out.1
      → P event (settle after before out).node
  settled_by P event after before out h = subst (P event) (sym (settles_node after before out)) h

  -- Whatever the phase, an event leaves the node in one of the cases.
  pub react-Cases :
      (P : Event → Node Arm → Type 0) (event : Event) (phase : Phase) (node : Node Arm)
      → Cases P node
      → P event (react event phase node).node
  react-Cases P (Event.configure home) unconfigured node c =
      settled_by P (Event.configure home) inactive unconfigured (on_configure home node)
        (c.configures home)
  react-Cases P Event.activate inactive node c =
      settled_by P Event.activate active inactive (on_activate node) c.activates
  react-Cases P Event.deactivate active node c =
      settled_by P Event.deactivate inactive active (on_deactivate node) c.deactivates
  react-Cases P Event.cleanup inactive node c =
      settled_by P Event.cleanup unconfigured inactive (on_cleanup node) c.cleans_up
  react-Cases P Event.shutdown unconfigured node c =
      settled_by P Event.shutdown finalized unconfigured (on_shutdown node) c.shuts_down
  react-Cases P Event.shutdown inactive node c =
      settled_by P Event.shutdown finalized inactive (on_shutdown node) c.shuts_down
  react-Cases P Event.shutdown active node c =
      settled_by P Event.shutdown finalized active (on_shutdown node) c.shuts_down
  react-Cases P (Event.request world r) phase node c =
      elim (Bool-cases (lists node.services (name_of r))) [
        | inl known ↦ rw known (c.serves world r)
        | inr unknown ↦ rw unknown (c.idle (Event.request world r))
      ]
  react-Cases P (Event.status_tick at) phase node c = c.ticks node.status_timer at
  react-Cases P (Event.set_parameters parameters) phase node c = c.sets parameters
  react-Cases P event phase node c = c.idle event
