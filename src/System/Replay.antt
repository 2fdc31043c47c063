-- ===== src/System/Replay.antt =====
-- The trace of the SDK calls against the session that they are made on, over the events of the node.
use mathlib.Core.List.{append_assoc, append_cancel_right}
use litearm_ros.Prelude.{
  Bool, true, false, Option, none, some, List, [], ◌∷◌, ◌++◌, String, ◌≡◌, refl, sym, subst, ap,
  ◌∙◌, inl, inr, ◌⊎◌, All, All-append, arith,
}
use litearm_ros.Double.{Double}
use litearm_ros.Sdk.{Command, Sdk, Moment, connect, close, read_license, enable, zero_g_stop}
use litearm_ros.Node.{Node, Parameters, issue, refresh_license_record, cached_state}
use litearm_ros.Node.Footprint.{after_call, replay, replay-append}
use litearm_ros.Policy.{Permitted}
use litearm_ros.Status.{publish_status}
use litearm_ros.Lifecycle.{
  on_configure, configure_session, configure_link, configure_names, give_up, read_parameters,
  clear_cache, create_publishers, on_activate, activate_session, activate_enabled, go_active,
  create_service_servers, activate_publishers, start_timers, on_deactivate, leave_zero_g,
  deactivate_publishers, destroy_service_servers, stop_timers, on_cleanup, reset_publishers,
  close_session, on_shutdown, new_node, options_for,
}
use litearm_ros.Service.{World, Request, serve}
use litearm_ros.Service.Trace.{serve-Permitted}
use litearm_ros.Service.Footprint.{serve_calls_bounded}
use litearm_ros.System.Cases.{react-Cases}
use litearm_ros.System.{Phase, System, Event, react, step, tick, Reaches, stay, advance, launched}

-- The calls that begin and end what a session does.
abbrev is_border : Command → Bool
is_border connect = true
is_border close = true
is_border _ = false

abbrev IsInner : Command → Type 0
IsInner c = is_border c ≡ false

module _ {Arm : Type 0} ⦃sdk : Sdk Arm⦄ where
  replay-none : (calls : List Command) → replay {Arm = Arm} calls none ≡ none
  replay-none [] = refl
  replay-none (c ∷ calls) = ap (after_call c) (replay-none calls)

  replay_longer :
      (calls later : List Command) (fresh : Option Arm)
      → replay calls (replay (later ++ connect ∷ []) fresh)
        ≡ replay ((calls ++ later) ++ connect ∷ []) fresh
  replay_longer calls later fresh =
      sym (replay-append calls (later ++ connect ∷ []) fresh)
      ∙ ap (λ xs. replay xs fresh) (sym (append_assoc calls later (connect ∷ [])))

  Permitted-IsInner : (node : Node Arm) (c : Command) → Permitted node c → IsInner c
  Permitted-IsInner node connect p = absurd p
  Permitted-IsInner node close p = absurd p
  Permitted-IsInner node _ p = refl

  All-IsInner :
      (node : Node Arm) (calls : List Command) → All (Permitted node) calls → All IsInner calls
  All-IsInner node [] p = tt
  All-IsInner node (c ∷ calls) (p, rest) = (Permitted-IsInner node c p, All-IsInner node calls rest)

  -- The session came of a connection over the port that is configured, and of the calls since then.
  abbrev IsSession : Node Arm → Type 0
  IsSession node =
      (later older : List Command) × (node.issued ≡ later ++ connect ∷ older)
      × All IsInner later
      × (node.arm ≡ replay (later ++ connect ∷ []) (sdk.create_arm (options_for node.port)))

  abbrev pub IsReplayed : Node Arm → Type 0
  IsReplayed node = (node.arm ≡ none) ⊎ IsSession node

  -- More calls of the same session.
  goes_on :
      (before after : Node Arm) (calls : List Command)
      → after.port ≡ before.port
      → after.issued ≡ calls ++ before.issued
      → All IsInner calls
      → after.arm ≡ replay calls before.arm
      → IsReplayed before
      → IsReplayed after
  goes_on before after calls p i inner a (inl closed) =
      inl (a ∙ ap (replay calls) closed ∙ replay-none calls)
  goes_on before after calls p i inner a (inr (later, older, trace, all, session)) = inr (
    calls ++ later,
    older,
    i ∙ ap (λ xs. calls ++ xs) trace ∙ sym (append_assoc calls later (connect ∷ older)),
    All-append IsInner calls later inner all,
    a
        ∙ ap (replay calls) session
        ∙ replay_longer calls later (sdk.create_arm (options_for before.port))
        ∙ ap (λ port. replay ((calls ++ later) ++ connect ∷ []) (sdk.create_arm (options_for port)))
            (sym p),
  )

  -- A callback that goes on with at most one call.
  goes_on_by :
      (c : Command) (before after : Node Arm)
      → IsInner c
      → after.port ≡ before.port
      → ((after.issued ≡ before.issued) × (after.arm ≡ before.arm))
        ⊎ ((after.issued ≡ c ∷ before.issued) × (after.arm ≡ after_call c before.arm))
      → IsReplayed before
      → IsReplayed after
  goes_on_by c before after inner p (inl (i, a)) h = goes_on before after [] p i tt a h
  goes_on_by c before after inner p (inr (i, a)) h =
      goes_on before after (c ∷ []) p i (inner, tt) a h

  -- A callback that begins a session, or is left without one.
  abbrev Begins : Node Arm → Node Arm → Type 0
  Begins before after =
      (after.port ≡ before.parameters.port)
      × ((after.arm ≡ none)
          ⊎ ((after.issued ≡ connect ∷ before.issued)
              × (after.arm
                  ≡ replay (connect ∷ []) (sdk.create_arm (options_for before.parameters.port))))
          ⊎ ((after.issued ≡ read_license ∷ connect ∷ before.issued)
              × (after.arm
                  ≡ replay (read_license ∷ connect ∷ [])
                      (sdk.create_arm (options_for before.parameters.port)))))

  begins : (before after : Node Arm) → Begins before after → IsReplayed after
  begins before after (p, inl closed) = inl closed
  begins before after (p, inr (inl (i, a))) = inr (
    [],
    before.issued,
    i,
    tt,
    a ∙ ap (λ port. replay (connect ∷ []) (sdk.create_arm (options_for port))) (sym p),
  )
  begins before after (p, inr (inr (i, a))) = inr (
    read_license ∷ [],
    before.issued,
    i,
    (refl, tt),
    a
        ∙ ap (λ port. replay (read_license ∷ connect ∷ []) (sdk.create_arm (options_for port)))
            (sym p),
  )

  configured-Begins :
      (home : Option String) (node : Node Arm) → Begins node (on_configure home node).1
  unfolding on_configure configure_session configure_link configure_names give_up create_publishers
      read_parameters clear_cache issue refresh_license_record
  configured-Begins home node = ground arith

  activated-IsReplayed : (node : Node Arm) → IsReplayed node → IsReplayed (on_activate node).1
  unfolding on_activate activate_session activate_enabled go_active create_service_servers
      activate_publishers start_timers issue
  activated-IsReplayed node h =
      goes_on_by (enable node.enable_attempts) node (on_activate node).1 refl (ground arith)
        (ground arith) h

  deactivated-IsReplayed : (node : Node Arm) → IsReplayed node → IsReplayed (on_deactivate node).1
  unfolding on_deactivate leave_zero_g deactivate_publishers destroy_service_servers stop_timers
      issue
  deactivated-IsReplayed node h =
      goes_on_by (zero_g_stop true) node (on_deactivate node).1 refl (ground arith) (ground arith) h

  cleaned-IsReplayed : (node : Node Arm) → IsReplayed (on_cleanup node).1
  unfolding on_cleanup reset_publishers close_session deactivate_publishers destroy_service_servers
      stop_timers issue clear_cache
  cleaned-IsReplayed node = inl (ground arith)

  ticked-IsReplayed :
      (timer : Option Double) (at : Moment) (node : Node Arm)
      → IsReplayed node
      → IsReplayed (tick timer at node)
  unfolding publish_status cached_state
  ticked-IsReplayed none at node h = h
  ticked-IsReplayed (some rate) at node h =
      goes_on_by read_license node (tick (some rate) at node) refl (ground arith) (ground arith) h

  serving-IsReplayed :
      (world : World) (r : Request) (node : Node Arm)
      → IsReplayed node
      → IsReplayed (serve world r node).node
  serving-IsReplayed world r node h =
      let (calls, i, a, l) = serve_calls_bounded world r node in
      let ((new, j, permitted), o) = serve-Permitted world r node in
      let e : new ≡ calls = append_cancel_right new calls node.issued (sym j ∙ i) in
      goes_on node (serve world r node).node calls (ap (λ x. x.port) o) i
        (subst (All IsInner) e (All-IsInner node new permitted)) a h

  reacting-IsReplayed :
      (event : Event) (phase : Phase) (node : Node Arm)
      → IsReplayed node
      → IsReplayed (react event phase node).node
  unfolding on_shutdown
  reacting-IsReplayed event phase node h =
      react-Cases (λ e after. IsReplayed after) event phase node
        (record {
          idle = λ e. h;
          configures = λ home. begins node (on_configure home node).1 (configured-Begins home node);
          activates = activated-IsReplayed node h;
          deactivates = deactivated-IsReplayed node h;
          cleans_up = cleaned-IsReplayed node;
          shuts_down = cleaned-IsReplayed node;
          serves = λ world r. serving-IsReplayed world r node h;
          ticks = λ timer at. ticked-IsReplayed timer at node h;
          sets = λ parameters. h;
        })

  -- In every state that events reach from the launch, the node has no session, or the state of its session
  -- is that of a new session on the configured port after connect and then every SDK call that was made
  -- since, in order and with nothing else in between; none of these is another connect, or close.
  pub reachable-IsReplayed :
      (parameters : Parameters) (system : System Arm)
      → Reaches (λ event. Unit) (launched parameters) system
      → IsReplayed system.node
  unfolding new_node step
  reachable-IsReplayed parameters _ stay = inl refl
  reachable-IsReplayed parameters _ (advance {system} event e path) =
      reacting-IsReplayed event system.phase system.node
        (reachable-IsReplayed parameters system path)
