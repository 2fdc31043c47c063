-- ===== src/System/Calls.antt =====
-- What a running node sends to the device: the calls of the lifecycle callbacks, and for its clients
-- only what the policy permits.
use litearm_ros.Prelude.{
  Bool, true, false, Option, none, some, List, ◌∷◌, String, ◌≡◌, refl, sym, subst, ap, inl, inr,
  ◌⊎◌, arith,
}
use litearm_ros.Double.{Double}
use litearm_ros.Sdk.{Command, Sdk, Moment, connect, close, read_license, enable, zero_g_stop}
use litearm_ros.Node.{Node, Parameters, issue, refresh_license_record, cached_state}
use litearm_ros.Node.Growth.{Issues, Issues.same, Issues.more, Issues-eq}
use litearm_ros.Policy.{Permitted}
use litearm_ros.Status.{publish_status}
use litearm_ros.Lifecycle.{
  on_configure, configure_session, configure_link, configure_names, give_up, read_parameters,
  clear_cache, create_publishers, on_activate, activate_session, activate_enabled, go_active,
  create_service_servers, activate_publishers, start_timers, on_deactivate, leave_zero_g,
  deactivate_publishers, destroy_service_servers, stop_timers, on_cleanup, reset_publishers,
  close_session, on_shutdown,
}
use litearm_ros.Service.{World, Request, serve}
use litearm_ros.Service.Trace.{served}
use litearm_ros.System.Cases.{react-Cases}
use litearm_ros.System.{Phase, Event, react, tick}

-- The calls that the lifecycle callbacks make.
abbrev is_lifecycle : Command → Bool
is_lifecycle connect = true
is_lifecycle close = true
is_lifecycle read_license = true
is_lifecycle (enable attempts) = true
is_lifecycle (zero_g_stop on) = on
is_lifecycle _ = false

abbrev pub IsLifecycle : Command → Type 0
IsLifecycle c = is_lifecycle c ≡ true

-- Only lifecycle calls were made, and the parameters were left alone.
abbrev Housekeeping : {Arm : Type 0} → Node Arm → Node Arm → Type 0
Housekeeping before after =
    Issues IsLifecycle before.issued after.issued × (after.parameters ≡ before.parameters)

abbrev Steady : {Arm : Type 0} → Command → Command → Node Arm → Node Arm → Type 0
Steady c d before after =
    ((after.issued ≡ before.issued)
      ⊎ (after.issued ≡ c ∷ before.issued)
      ⊎ (after.issued ≡ d ∷ c ∷ before.issued))
    × (after.parameters ≡ before.parameters)

steady :
    {Arm : Type 0} (c d : Command) (before after : Node Arm)
    → IsLifecycle c
    → IsLifecycle d
    → Steady c d before after
    → Housekeeping before after
steady c d before after hc hd (inl e, p) = (Issues-eq _ _ e same, p)
steady c d before after hc hd (inr (inl e), p) = (Issues-eq _ _ e (more c hc same), p)
steady c d before after hc hd (inr (inr e), p) = (Issues-eq _ _ e (more d hd (more c hc same)), p)

pub Issues-weaken :
    {P Q : Command → Type 0} {before after : List Command}
    → ((c : Command) → P c → Q c)
    → Issues P before after
    → Issues Q before after
Issues-weaken w same = same
Issues-weaken w (more c p rest) = more c (w c p) (Issues-weaken w rest)

-- A write of the parameters keeps what `I` says of them.
abbrev pub Keeps : (Parameters → Type 0) → Event → Type 0
Keeps I (Event.set_parameters parameters) = I parameters
Keeps I _ = Unit

module _ {Arm : Type 0} ⦃sdk : Sdk Arm⦄ where
  configures :
      (path : Option String) (node : Node Arm) → Housekeeping node (on_configure path node).1
  unfolding on_configure configure_session configure_link configure_names give_up create_publishers
      read_parameters clear_cache issue refresh_license_record
  configures path node =
      steady connect read_license node (on_configure path node).1 refl refl (ground arith)

  activates : (node : Node Arm) → Housekeeping node (on_activate node).1
  unfolding on_activate activate_session activate_enabled go_active create_service_servers
      activate_publishers start_timers issue
  activates node =
      steady (enable node.enable_attempts) connect node (on_activate node).1 refl refl
        (ground arith)

  deactivates : (node : Node Arm) → Housekeeping node (on_deactivate node).1
  unfolding on_deactivate leave_zero_g deactivate_publishers destroy_service_servers stop_timers
      issue
  deactivates node =
      steady (zero_g_stop true) connect node (on_deactivate node).1 refl refl (ground arith)

  cleans_up : (node : Node Arm) → Housekeeping node (on_cleanup node).1
  unfolding on_cleanup reset_publishers close_session deactivate_publishers destroy_service_servers
      stop_timers issue clear_cache
  cleans_up node = steady close connect node (on_cleanup node).1 refl refl (ground arith)

  shuts_down : (node : Node Arm) → Housekeeping node (on_shutdown node).1
  unfolding on_shutdown on_cleanup
  shuts_down node = cleans_up node

  pub ticks :
      (timer : Option Double) (at : Moment) (node : Node Arm)
      → ((tick timer at node).issued ≡ node.issued)
        × ((tick timer at node).parameters ≡ node.parameters)
  unfolding publish_status cached_state
  ticks none at node = (refl, refl)
  ticks (some rate) at node = ground arith

  -- A call is the lifecycle's own, or the policy permits it in the state before.
  abbrev pub Justified : Node Arm → Command → Type 0
  Justified node c = IsLifecycle c ⊎ Permitted node c

  abbrev pub Reacts : (Parameters → Type 0) → Event → Node Arm → Node Arm → Type 0
  Reacts I event before after =
      Issues (Justified before) before.issued after.issued
      × (Keeps I event → I before.parameters → I after.parameters)

  -- Nothing new, or lifecycle calls only, with the parameters left alone.
  keeping :
      (I : Parameters → Type 0) (event : Event) (before after : Node Arm)
      → Housekeeping before after
      → Reacts I event before after
  keeping I event before after (i, e) = (Issues-weaken (λ c l. inl l) i, λ k h. subst I (sym e) h)

  serving :
      (I : Parameters → Type 0) (world : World) (r : Request) (node : Node Arm)
      → Reacts I (Event.request world r) node (serve world r node).node
  serving I world r node =
      let (i, e) = served world r node in
      (Issues-weaken (λ c p. inr p) i, λ k h. subst I (sym (ap (λ o. o.parameters) e)) h)

  pub reacting :
      (I : Parameters → Type 0) (event : Event) (phase : Phase) (node : Node Arm)
      → Reacts I event node (react event phase node).node
  reacting I event phase node =
      react-Cases (λ e after. Reacts I e node after) event phase node
        (record {
          idle = λ e. keeping I e node node (same, refl);
          configures = λ path.
              keeping I (Event.configure path) node (on_configure path node).1
                (configures path node);
          activates = keeping I Event.activate node (on_activate node).1 (activates node);
          deactivates = keeping I Event.deactivate node (on_deactivate node).1 (deactivates node);
          cleans_up = keeping I Event.cleanup node (on_cleanup node).1 (cleans_up node);
          shuts_down = keeping I Event.shutdown node (on_shutdown node).1 (shuts_down node);
          serves = λ world r. serving I world r node;
          ticks = λ timer at.
              let (e, p) = ticks timer at node in
              keeping I (Event.status_tick at) node (tick timer at node) (Issues-eq _ _ e same, p);
          sets = λ parameters. (same, λ k h. k);
        })
