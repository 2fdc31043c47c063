-- ===== src/System/Restart.antt =====
-- Deactivating and activating again, and starting over.
use litearm_ros.Prelude.{[], ◌≡◌, refl, sym, ◌∙◌, arith}
use litearm_ros.Sdk.{Sdk}
use litearm_ros.Node.{Node, Parameters, issue}
use litearm_ros.Node.Growth.{Outline, outline}
use litearm_ros.Lifecycle.{
  CallbackReturn, success, failure, error, on_activate, activate_session, activate_enabled,
  go_active, create_service_servers, activate_publishers, start_timers, on_deactivate, leave_zero_g,
  deactivate_publishers, destroy_service_servers, stop_timers, on_error,
}
use litearm_ros.Lifecycle.Services.{services_from_none}
use litearm_ros.System.{
  Phase, unconfigured, inactive, active, finalized, System, Event, settle, step, Reaches, launched,
}
use litearm_ros.System.Invariant.{Shape, running, reachable-IsWell}

module _ {Arm : Type 0} ⦃sdk : Sdk Arm⦄ where
  -- A success has turned on what `running` says.
  abbrev TurnsOn : Outline → CallbackReturn × Node Arm → Type 0
  TurnsOn o (success, node) = outline node ≡ o
  TurnsOn o (failure, node) = Unit
  TurnsOn o (error, node) = Unit

  reactivated :
      (node : Node Arm) → TurnsOn (running (outline node)) (on_activate (on_deactivate node).1)
  unfolding on_activate activate_session activate_enabled go_active create_service_servers
      activate_publishers start_timers issue on_deactivate leave_zero_g deactivate_publishers
      destroy_service_servers stop_timers
  reactivated node = ground (arith, services_from_none [] refl)

  settled_active :
      (o : Outline) (out : CallbackReturn × Node Arm)
      → TurnsOn o out
      → (settle active inactive out).phase ≡ active
      → outline (settle active inactive out).node ≡ o
  unfolding on_error
  settled_active o (success, node) t h = t
  settled_active o (failure, node) t h = absurd (ground arith)
  settled_active o (error, node) t h = absurd (ground arith)

  abbrev restarted : System Arm → System Arm
  restarted system = step Event.activate (step Event.deactivate system)

  restarts :
      (phase : Phase) (node : Node Arm)
      → phase ≡ active
      → Shape phase (outline node)
      → (restarted (record { phase = phase; node = node })).phase ≡ active
      → outline (restarted (record { phase = phase; node = node })).node ≡ outline node
  unfolding step on_deactivate
  restarts unconfigured node a h on = absurd (ground arith)
  restarts inactive node a h on = absurd (ground arith)
  restarts active node a h on =
      settled_active (running (outline node)) (on_activate (on_deactivate node).1)
        (reactivated node) on
      ∙ sym h.0
  restarts finalized node a h on = absurd (ground arith)

  -- In every active state that events reach, deactivating and then activating again, where that
  -- succeeds, brings back exactly the same services, publishers and timers, on the same parameters and
  -- names of the axes.
  pub reactivation_restores :
      (parameters : Parameters) (system : System Arm)
      → Reaches (λ event. Unit) (launched parameters) system
      → system.phase ≡ active
      → (step Event.activate (step Event.deactivate system)).phase ≡ active
      → outline (step Event.activate (step Event.deactivate system)).node ≡ outline system.node
  reactivation_restores parameters system path a on =
      restarts system.phase system.node a (reachable-IsWell parameters system path) on
