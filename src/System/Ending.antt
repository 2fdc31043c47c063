-- ===== src/System/Ending.antt =====
-- How a run of the node ends, and how it starts over.
use litearm_ros.Prelude.{false, Option, none, some, List, [], ◌≡◌, refl, sym, subst, ap, arith}
use litearm_ros.Sdk.{Command, Sdk}
use litearm_ros.Node.{Node, Parameters}
use litearm_ros.Node.Growth.{is_present}
use litearm_ros.Lifecycle.{on_cleanup, on_shutdown}
use litearm_ros.Service.Names.{lists, name_of}
use litearm_ros.System.{
  finalized, System, Event, step, react, Reaches, stay, advance, launched, tick,
}
use litearm_ros.System.Invariant.{IsWell, reachable-IsWell, step-IsWell}

-- Nothing more will happen, and the calls are those that were made.
abbrev pub IsOver : {Arm : Type 0} → List Command → System Arm → Type 0
IsOver calls system =
    (system.phase ≡ finalized)
    × (system.node.services ≡ [])
    × (system.node.status_timer ≡ none)
    × (system.node.arm ≡ none)
    × (system.node.issued ≡ calls)

module _ {Arm : Type 0} ⦃sdk : Sdk Arm⦄ where
  IsOver-reacts :
      (event : Event) (calls : List Command) (node : Node Arm)
      → node.services ≡ []
      → node.status_timer ≡ none
      → node.arm ≡ none
      → node.issued ≡ calls
      → IsOver calls (react event finalized node)
  IsOver-reacts (Event.configure home) calls node s t a i = (refl, s, t, a, i)
  IsOver-reacts Event.activate calls node s t a i = (refl, s, t, a, i)
  IsOver-reacts Event.deactivate calls node s t a i = (refl, s, t, a, i)
  IsOver-reacts Event.cleanup calls node s t a i = (refl, s, t, a, i)
  IsOver-reacts Event.shutdown calls node s t a i = (refl, s, t, a, i)
  IsOver-reacts (Event.request world r) calls node s t a i =
      let unknown : lists node.services (name_of r) ≡ false = ap (λ xs. lists xs (name_of r)) s in
      rw unknown (refl, s, t, a, i)
  IsOver-reacts (Event.status_tick at) calls node s t a i =
      let e : tick node.status_timer at node ≡ node = rw t refl in rw e (refl, s, t, a, i)
  IsOver-reacts (Event.set_parameters parameters) calls node s t a i = (refl, s, t, a, i)

  IsOver-steps :
      (event : Event) (calls : List Command) (system : System Arm)
      → IsOver calls system
      → IsOver calls (step event system)
  unfolding step
  IsOver-steps event calls system (p, s, t, a, i) =
      subst (λ phase. IsOver calls (react event phase system.node)) (sym p)
        (IsOver-reacts event calls system.node s t a i)

  stays-IsOver :
      (E : Event → Type 0) (calls : List Command) (system later : System Arm)
      → IsOver calls system
      → Reaches E system later
      → IsOver calls later
  stays-IsOver E calls system _ h stay = h
  stays-IsOver E calls system _ h (advance {system = middle} event e path) =
      IsOver-steps event calls middle (stays-IsOver E calls system middle h path)

  session_gone : (session : Option Arm) → is_present session ≡ false → session ≡ none
  session_gone none h = refl
  session_gone (some arm) h = absurd cc

  shutdown_finalizes : (system : System Arm) → (step Event.shutdown system).phase ≡ finalized
  unfolding step on_shutdown on_cleanup
  shutdown_finalizes system = ground arith

  well-IsOver :
      (system : System Arm)
      → system.phase ≡ finalized
      → IsWell system
      → IsOver system.node.issued system
  well-IsOver system p h = ground (arith, session_gone system.node.arm)

  -- A shutdown, in any state that events reach, ends the node for good: whatever events follow, it stays
  -- finalized, offers no service, runs no status timer, has no session, and makes no further SDK call.
  pub shutdown_is_final :
      (parameters : Parameters) (system later : System Arm)
      → Reaches (λ event. Unit) (launched parameters) system
      → Reaches (λ event. Unit) (step Event.shutdown system) later
      → IsOver (step Event.shutdown system).node.issued later
  shutdown_is_final parameters system later path rest =
      let last = step Event.shutdown system in
      stays-IsOver _ last.node.issued last later
        (well-IsOver last (shutdown_finalizes system)
          (step-IsWell Event.shutdown system (reachable-IsWell parameters system path)))
        rest
