-- ===== src/System/Invariant.antt =====
-- What each phase of the managed lifecycle says of the session, the services, the publishers and the
-- timers of the node.
use litearm_ros.Prelude.{
  Bool, true, false, Bool-cases, Option, none, some, [], String, ◌≡◌, refl, sym, subst, ap,
  if◌then◌else◌, ◌&&◌, inl, inr, arith,
}
use litearm_ros.Double.{Double, ltd, zero_d}
use litearm_ros.Sdk.{Sdk, Moment}
use litearm_ros.Node.{Node, Parameters, Publisher, cached_state, issue, refresh_license_record}
use litearm_ros.Node.Growth.{Outline, outline, is_present}
use litearm_ros.Status.{publish_status}
use litearm_ros.Lifecycle.{
  CallbackReturn, success, failure, error, on_configure, configure_session, configure_link,
  configure_names, give_up, read_parameters, clear_cache, create_publishers, on_activate,
  activate_session, activate_enabled, go_active, create_service_servers, activate_publishers,
  start_timers, on_deactivate, leave_zero_g, deactivate_publishers, destroy_service_servers,
  stop_timers, activated, on_cleanup, reset_publishers, close_session, on_shutdown, on_error,
  new_node,
}
use litearm_ros.Lifecycle.Services.{service_names, services_from_none}
use litearm_ros.Service.{World, Request, serve}
use litearm_ros.Service.Names.{name_of, lists}
use litearm_ros.Service.Trace.{serve-Permitted}
use litearm_ros.System.{
  Phase, unconfigured, inactive, active, finalized, System, Event, settle, react, step, Reaches,
  stay, advance, tick, launched,
}

abbrev pub is_on : Option Publisher → Bool
is_on none = false
is_on (some publisher) = publisher.active

-- Nothing is offered, published or timed.
abbrev pub IsStill : Outline → Type 0
IsStill o =
    (o.services ≡ [])
    × (o.status_timer ≡ none)
    × (o.diagnostics_timer ≡ none)
    × (is_on o.status_publisher ≡ false)
    × (is_on o.joint_state_publisher ≡ false)
    × (is_on o.diagnostics_publisher ≡ false)

-- What activating turns on: the services, the publishers that there are, and the timers with a rate.
abbrev pub running : Outline → Outline
running o = record o {
  services = service_names;
  status_publisher = activated o.status_publisher;
  joint_state_publisher = activated o.joint_state_publisher;
  diagnostics_publisher = activated o.diagnostics_publisher;
  status_timer = if ltd zero_d o.status_rate_hz then some o.status_rate_hz else none;
  diagnostics_timer =
      if is_present o.diagnostics_publisher && ltd zero_d o.diagnostics_rate_hz
      then some o.diagnostics_rate_hz
      else none;
}

abbrev pub Shape : Phase → Outline → Type 0
Shape unconfigured o = IsStill o
Shape inactive o = IsStill o × (o.has_session ≡ true) × (is_present o.status_publisher ≡ true)
Shape active o = (o ≡ running o) × (o.has_session ≡ true) × (is_on o.status_publisher ≡ true)
Shape finalized o = IsStill o × (o.has_session ≡ false)

abbrev pub IsWell : {Arm : Type 0} → System Arm → Type 0
IsWell system = Shape system.phase (outline system.node)

module _ {Arm : Type 0} where
  -- A callback that succeeds has the shape of `next`; one that does not leaves nothing running.
  abbrev Settles : Phase → CallbackReturn × Node Arm → Type 0
  Settles next (success, node) = Shape next (outline node)
  Settles next (failure, node) = ⊥
  Settles next (error, node) = IsStill (outline node)

  settle-IsWell :
      (next before : Phase) (out : CallbackReturn × Node Arm)
      → Settles next out
      → IsWell (settle next before out)
  unfolding on_error
  settle-IsWell next before (success, node) h = h
  settle-IsWell next before (failure, node) h = absurd h
  settle-IsWell next before (error, node) h = h

module _ {Arm : Type 0} ⦃sdk : Sdk Arm⦄ where
  configured :
      (home : Option String) (node : Node Arm)
      → IsStill (outline node)
      → Settles inactive (on_configure home node)
  unfolding on_configure configure_session configure_link configure_names give_up create_publishers
      read_parameters clear_cache issue refresh_license_record
  configured home node h = ground arith

  activated_well :
      (node : Node Arm) → Shape inactive (outline node) → Settles active (on_activate node)
  unfolding on_activate activate_session activate_enabled go_active create_service_servers
      activate_publishers start_timers issue
  activated_well node h = ground (arith, services_from_none node.services)

  deactivated_well :
      (node : Node Arm) → Shape active (outline node) → Settles inactive (on_deactivate node)
  unfolding on_deactivate leave_zero_g deactivate_publishers destroy_service_servers stop_timers
      issue
  deactivated_well node h = ground arith

  cleaned_up : (node : Node Arm) → Settles unconfigured (on_cleanup node)
  unfolding on_cleanup reset_publishers close_session deactivate_publishers destroy_service_servers
      stop_timers issue clear_cache
  cleaned_up node = ground arith

  shut_down : (node : Node Arm) → Settles finalized (on_shutdown node)
  unfolding on_shutdown on_cleanup reset_publishers close_session deactivate_publishers
      destroy_service_servers stop_timers issue clear_cache
  shut_down node = ground arith

  served_well :
      (phase : Phase) (world : World) (r : Request) (node : Node Arm)
      → Shape phase (outline node)
      → Shape phase (outline (serve world r node).node)
  served_well phase world r node h = subst (Shape phase) (sym (serve-Permitted world r node).1) h

  ticked :
      (timer : Option Double) (at : Moment) (node : Node Arm)
      → outline (tick timer at node) ≡ outline node
  unfolding publish_status cached_state
  ticked none at node = refl
  ticked (some rate) at node = ground arith

  told :
      (phase : Phase) (parameters : Parameters) (node : Node Arm)
      → Shape phase (outline node)
      → Shape phase (outline (record node { parameters = parameters }))
  told unconfigured parameters node h = h
  told inactive parameters node h = h
  told active parameters node h =
      (ap {A = Outline} (λ o. record o { parameters = parameters }) h.0, h.1, h.2)
  told finalized parameters node h = h

  reacts :
      (event : Event) (phase : Phase) (node : Node Arm)
      → Shape phase (outline node)
      → IsWell (react event phase node)
  reacts (Event.configure home) unconfigured node h =
      settle-IsWell inactive unconfigured (on_configure home node) (configured home node h)
  reacts Event.activate inactive node h =
      settle-IsWell active inactive (on_activate node) (activated_well node h)
  reacts Event.deactivate active node h =
      settle-IsWell inactive active (on_deactivate node) (deactivated_well node h)
  reacts Event.cleanup inactive node h =
      settle-IsWell unconfigured inactive (on_cleanup node) (cleaned_up node)
  reacts Event.shutdown unconfigured node h =
      settle-IsWell finalized unconfigured (on_shutdown node) (shut_down node)
  reacts Event.shutdown inactive node h =
      settle-IsWell finalized inactive (on_shutdown node) (shut_down node)
  reacts Event.shutdown active node h =
      settle-IsWell finalized active (on_shutdown node) (shut_down node)
  reacts Event.shutdown finalized node h = h
  reacts (Event.request world r) phase node h =
      elim (Bool-cases (lists node.services (name_of r))) [
        | inl known ↦ rw known (served_well phase world r node h)
        | inr unknown ↦ rw unknown h
      ]
  reacts (Event.status_tick at) phase node h =
      subst (Shape phase) (sym (ticked node.status_timer at node)) h
  reacts (Event.set_parameters parameters) phase node h = told phase parameters node h
  reacts _ phase node h = h

  pub step-IsWell :
      (event : Event) (system : System Arm) → IsWell system → IsWell (step event system)
  unfolding step
  step-IsWell event system h = reacts event system.phase system.node h

  from_launch :
      (E : Event → Type 0) (parameters : Parameters) (system : System Arm)
      → Reaches E (launched parameters) system
      → IsWell system
  unfolding new_node
  from_launch E parameters _ stay = (refl, refl, refl, refl, refl, refl)
  from_launch E parameters _ (advance {system} event e path) =
      step-IsWell event system (from_launch E parameters system path)

  -- In every state that events reach from the launch, the node fits its phase: while unconfigured,
  -- inactive or finalized, it offers no service, runs no timer and has no active publisher; inactive,
  -- it has a session and a status publisher; active, it has a session and a status publisher, every
  -- publisher that it has is active, it offers exactly the services of `create_service_servers`, and
  -- runs exactly the timers whose rate is positive, the diagnostics timer only for a publisher;
  -- finalized, it has no session.
  pub reachable-IsWell :
      (parameters : Parameters) (system : System Arm)
      → Reaches (λ event. Unit) (launched parameters) system
      → IsWell system
  reachable-IsWell parameters system path = from_launch _ parameters system path
