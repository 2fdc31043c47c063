-- ===== src/System/Grounds.antt =====
-- The reason for each call that the node makes: the event, the phase it is handled in, and what the
-- callback of litearm_driver/src/litearm_driver_node.cpp finds there.
use litearm_ros.Prelude.{
  Bool-cases, true, Option, List, ◌∷◌, ◌++◌, String, ◌≡◌, ap, inl, inr, ◌⊎◌, All, arith,
}
use litearm_ros.Sdk.{Command, Sdk, connect, close, read_license, enable, zero_g_stop}
use litearm_ros.Node.{Node, issue, refresh_license_record}
use litearm_ros.Node.Growth.{Issues, Issues.same, Issues.more, Issues-All, Issues-eq}
use litearm_ros.Policy.{Permitted}
use litearm_ros.Status.{arm_flag}
use litearm_ros.Lifecycle.{
  CallbackReturn, on_configure, configure_session, configure_link, configure_names, give_up,
  read_parameters, clear_cache, create_publishers, on_activate, activate_session, activate_enabled,
  go_active, create_service_servers, activate_publishers, start_timers, on_deactivate, leave_zero_g,
  deactivate_publishers, destroy_service_servers, stop_timers, on_cleanup, reset_publishers,
  close_session, on_shutdown,
}
use litearm_ros.Service.Names.{name_of, lists}
use litearm_ros.Service.Trace.{served}
use litearm_ros.System.Calls.{ticks, Issues-weaken}
use litearm_ros.System.Cases.{settles_node}
use litearm_ros.System.{
  Phase, unconfigured, inactive, active, finalized, System, Event, settle, react, step,
}

-- At most the two calls, the one before the other, each of which satisfies `P`.
noted :
    (P : Command → Type 0) (c d : Command) (before after : List Command)
    → (after ≡ before) ⊎ ((after ≡ c ∷ before) × P c) ⊎ ((after ≡ d ∷ c ∷ before) × P c × P d)
    → Issues P before after
noted P c d before after (inl e) = Issues-eq _ _ e same
noted P c d before after (inr (inl (e, p))) = Issues-eq _ _ e (more c p same)
noted P c d before after (inr (inr (e, p, q))) = Issues-eq _ _ e (more d q (more c p same))

module _ {Arm : Type 0} ⦃sdk : Sdk Arm⦄ where
  -- What an event that is handled in a phase gives reason to call: configuring connects and reads the
  -- licence, activating enables where auto_enable is set, deactivating stops zero gravity where that is
  -- active, cleaning up and shutting down close the session, and a service that is offered makes the calls
  -- that the policy permits. A tick, a write of the parameters, and an event that the phase does not allow
  -- give no reason for a call.
  abbrev pub IsGrounded : Event → Phase → Node Arm → Command → Type 0
  IsGrounded (Event.configure home) unconfigured node c = (c ≡ connect) ⊎ (c ≡ read_license)
  IsGrounded Event.activate inactive node c =
      (node.auto_enable ≡ true) × (c ≡ enable node.enable_attempts)
  IsGrounded Event.deactivate active node c =
      (arm_flag (λ arm. sdk.zero_g_active arm) node.arm ≡ true) × (c ≡ zero_g_stop true)
  IsGrounded Event.cleanup inactive node c = c ≡ close
  IsGrounded Event.shutdown finalized node c = ⊥
  IsGrounded Event.shutdown phase node c = c ≡ close
  IsGrounded (Event.request world r) phase node c =
      (lists node.services (name_of r) ≡ true) × Permitted node c
  IsGrounded event phase node c = ⊥

  configures :
      (home : Option String) (node : Node Arm)
      → Issues
          (λ c. (c ≡ connect) ⊎ (c ≡ read_license))
          node.issued
          (on_configure home node).1.issued
  unfolding on_configure configure_session configure_link configure_names give_up create_publishers
      read_parameters clear_cache issue refresh_license_record
  configures home node =
      noted _ connect read_license node.issued (on_configure home node).1.issued (ground arith)

  activates :
      (node : Node Arm)
      → Issues
          (λ c. (node.auto_enable ≡ true) × (c ≡ enable node.enable_attempts))
          node.issued
          (on_activate node).1.issued
  unfolding on_activate activate_session activate_enabled go_active create_service_servers
      activate_publishers start_timers issue
  activates node =
      noted _ (enable node.enable_attempts) connect node.issued (on_activate node).1.issued
        (ground arith)

  deactivates :
      (node : Node Arm)
      → Issues
          (λ c. (arm_flag (λ arm. sdk.zero_g_active arm) node.arm ≡ true) × (c ≡ zero_g_stop true))
          node.issued
          (on_deactivate node).1.issued
  unfolding on_deactivate leave_zero_g deactivate_publishers destroy_service_servers stop_timers
      issue
  deactivates node =
      noted _ (zero_g_stop true) connect node.issued (on_deactivate node).1.issued (ground arith)

  closes : (node : Node Arm) → Issues (λ c. c ≡ close) node.issued (on_cleanup node).1.issued
  unfolding on_cleanup reset_publishers close_session deactivate_publishers destroy_service_servers
      stop_timers issue clear_cache
  closes node = noted _ close connect node.issued (on_cleanup node).1.issued (ground arith)

  settled :
      {P : Command → Type 0} {calls : List Command} (next before : Phase)
      (out : CallbackReturn × Node Arm)
      → Issues P calls out.1.issued
      → Issues P calls (settle next before out).node.issued
  settled next before out i = Issues-eq _ _ (ap (λ n. n.issued) (settles_node next before out)) i

  shuts_down :
      (before : Phase) (node : Node Arm)
      → Issues (λ c. c ≡ close) node.issued (settle finalized before (on_shutdown node)).node.issued
  unfolding on_shutdown
  shuts_down before node = settled finalized before (on_shutdown node) (closes node)

  grounded :
      (event : Event) (phase : Phase) (node : Node Arm)
      → Issues (IsGrounded event phase node) node.issued (react event phase node).node.issued
  grounded (Event.configure home) unconfigured node =
      settled inactive unconfigured (on_configure home node) (configures home node)
  grounded Event.activate inactive node =
      settled active inactive (on_activate node) (activates node)
  grounded Event.deactivate active node =
      settled inactive active (on_deactivate node) (deactivates node)
  grounded Event.cleanup inactive node =
      settled unconfigured inactive (on_cleanup node) (closes node)
  grounded Event.shutdown unconfigured node = shuts_down unconfigured node
  grounded Event.shutdown inactive node = shuts_down inactive node
  grounded Event.shutdown active node = shuts_down active node
  grounded Event.shutdown finalized node = same
  grounded (Event.request world r) phase node =
      elim (Bool-cases (lists node.services (name_of r))) [
        | inl known ↦ rw known (Issues-weaken (λ c p. (known, p)) (served world r node).0)
        | inr unknown ↦ rw unknown same
      ]
  grounded (Event.status_tick at) phase node =
      Issues-eq _ _ (ticks node.status_timer at node).0 same
  grounded (Event.set_parameters parameters) phase node = same
  grounded event phase node = same

  -- Every call that an event adds to the trace has its reason in the event, the phase and the node before
  -- it: connecting and reading the licence for a configuration of an unconfigured node, enabling (with the
  -- configured number of attempts, only where auto_enable is set) for an activation of an inactive one,
  -- stopping zero gravity (only where it is active, back into the hold) for a deactivation of an active
  -- one, closing for a cleanup of an inactive node or a shutdown of one that is not finalized, and for a
  -- request to a service that is offered only what the policy permits. No other event adds a call, and no
  -- call that was made is forgotten.
  pub step-IsGrounded :
      (event : Event) (system : System Arm)
      → (new : List Command) × ((step event system).node.issued ≡ new ++ system.node.issued)
        × All (IsGrounded event system.phase system.node) new
  unfolding step
  step-IsGrounded event system = Issues-All (grounded event system.phase system.node)
