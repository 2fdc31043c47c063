-- ===== src/System/Stopping.antt =====
-- The services that stop the arm are always there, and are never held back.
use litearm_ros.Prelude.{true, Option, none, some, ◌∷◌, ◌≡◌, refl, ap, ◌∙◌, inl, inr, arith}
use litearm_ros.Sdk.{Sdk, Command, emergency_stop, disable}
use litearm_ros.Node.{Node, Parameters, issue, connected, is_linked}
use litearm_ros.Node.Effect.{effect_on, effect, plain}
use litearm_ros.Node.Growth.{outline}
use litearm_ros.Lifecycle.Services.{service_names}
use litearm_ros.Service.{World, Request, serve}
use litearm_ros.Service.Names.{name_of, lists}
use litearm_ros.Service.Refines.{serve_refines}
use litearm_ros.System.{
  Phase, unconfigured, inactive, active, finalized, System, Event, step, Reaches, launched,
}
use litearm_ros.System.Invariant.{Shape, reachable-IsWell}

module _ {Arm : Type 0} ⦃sdk : Sdk Arm⦄ where
  plain_on_issued :
      (c : Command) (session : Option Arm) (node : Node Arm)
      → is_linked session ≡ true
      → (effect_on c (λ _ n. n) session node).1.issued ≡ c ∷ node.issued
  unfolding issue
  plain_on_issued c none node up = absurd cc
  plain_on_issued c (some arm) node up = ground arith

  plain_issued :
      (c : Command) (node : Node Arm)
      → connected node ≡ true
      → (plain c node).1.issued ≡ c ∷ node.issued
  unfolding effect connected
  plain_issued c node up = plain_on_issued c node.arm node up

  stop_served :
      (world : World) (node : Node Arm)
      → connected node ≡ true
      → ((serve world Request.emergency_stop node).node.issued ≡ emergency_stop ∷ node.issued)
        × ((serve world Request.disable node).node.issued ≡ disable ∷ node.issued)
  stop_served world node up = (
    elim (serve_refines world Request.emergency_stop node) [
      | inl (granted, e) ↦ ap (λ out. out.1.issued) e ∙ plain_issued emergency_stop node up
      | inr (denied, e) ↦ absurd (denied tt)
    ],
    elim (serve_refines world Request.disable node) [
      | inl (granted, e) ↦ ap (λ out. out.1.issued) e ∙ plain_issued disable node up
      | inr (denied, e) ↦ absurd (denied tt)
    ],
  )

  offered :
      (phase : Phase) (node : Node Arm)
      → phase ≡ active
      → Shape phase (outline node)
      → node.services ≡ service_names
  offered unconfigured node a h = absurd (ground arith)
  offered inactive node a h = absurd (ground arith)
  offered active node a h = ap (λ o. o.services) h.0
  offered finalized node a h = absurd (ground arith)

  handled :
      (world : World) (r : Request) (system : System Arm)
      → lists service_names (name_of r) ≡ true
      → system.node.services ≡ service_names
      → (step (Event.request world r) system).node ≡ (serve world r system.node).node
  unfolding step
  handled world r system known all =
      let listed : lists system.node.services (name_of r) ≡ true =
        ap (λ names. lists names (name_of r)) all ∙ known in
      rw listed refl

  -- In every active state that events reach, while the link is up, whatever the parameters, the mode and
  -- the state of the motors: a request for emergency_stop sends exactly that to the device, and a request
  -- for disable sends exactly that.
  pub stop_is_sent :
      (parameters : Parameters) (system : System Arm) (world : World)
      → Reaches (λ event. Unit) (launched parameters) system
      → system.phase ≡ active
      → connected system.node ≡ true
      → ((step (Event.request world Request.emergency_stop) system).node.issued
          ≡ emergency_stop ∷ system.node.issued)
        × ((step (Event.request world Request.disable) system).node.issued
            ≡ disable ∷ system.node.issued)
  stop_is_sent parameters system world path a up =
      let all : system.node.services ≡ service_names =
        offered system.phase system.node a (reachable-IsWell parameters system path) in
      let (stop, off) = stop_served world system.node up in
      (
        ap (λ node. node.issued) (handled world Request.emergency_stop system refl all) ∙ stop,
        ap (λ node. node.issued) (handled world Request.disable system refl all) ∙ off,
      )
