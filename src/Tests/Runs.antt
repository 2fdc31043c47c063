-- ===== src/Tests/Runs.antt =====
-- A morning with the simulated arm: configured, activated, and asked to move.
use litearm_ros.Prelude.{◌∷◌, true, false, none, some, List, ◌++◌, ◌≡◌, refl, All}
use litearm_ros.Double.{whole}
use litearm_ros.Sdk.{Command}
use litearm_ros.Sdk.{emergency_stop}
use litearm_ros.System.Startup.{bring_up}
use litearm_ros.System.Stopping.{stop_is_sent}
use litearm_ros.Node.{connected, issue, refresh_license_record}
use litearm_ros.Lifecycle.Axes.{name_axes}
use litearm_ros.Lifecycle.{
  start_timers, activate_publishers, create_service_servers, on_configure, configure_session,
  configure_link, configure_names, clear_cache, read_parameters, new_node, on_activate,
  activate_session, create_publishers, activate_enabled, go_active, on_deactivate, leave_zero_g,
  deactivate_publishers, destroy_service_servers, stop_timers,
}
use litearm_ros.Node.Growth.{outline}
use litearm_ros.Node.Footprint.{IsCurrent}
use litearm_ros.Service.{Request, serve}
use litearm_ros.Service.Trace.{serve-Permitted}
use litearm_ros.System.{
  active, System, Event, configure, activate, deactivate, shutdown, step, Reaches, stay, advance,
  launched,
}
use litearm_ros.System.Invariant.{IsWell, reachable-IsWell}
use litearm_ros.System.Cached.{reachable-IsCurrent}
use litearm_ros.System.Ending.{IsOver, shutdown_is_final}
use litearm_ros.System.Replay.{IsReplayed, reachable-IsReplayed}
use litearm_ros.System.Invariant.{is_on}
use litearm_ros.System.Reporting.{PublishesOnce, timer_reports}
use litearm_ros.System.Restart.{reactivation_restores}
use litearm_ros.System.Calls.{Keeps}
use litearm_ros.System.Grounds.{IsGrounded, step-IsGrounded}
use litearm_ros.System.Consent.{
  is_motion, is_dfu, no_motion_without_consent, no_dfu_without_consent,
}
use litearm_ros.Tests.Bench.{BenchArm, bench_sdk, linked_node, launch, moment, world, six}

abbrev asked : Event
asked = Event.request world (Request.move_j six (whole 1))

abbrev off : System BenchArm
off = launched (launch false)

abbrev running : System BenchArm
running = step activate (step (configure none) off)

abbrev morning : System BenchArm
morning = step asked running

to_morning :
    (E : Event → Type 0) → E (configure none) → E activate → E asked → Reaches E off morning
to_morning E c a r = advance asked r (advance activate a (advance (configure none) c stay))

reachable-IsWell_example : IsWell morning
reachable-IsWell_example =
    reachable-IsWell (launch false) morning (to_morning (λ event. Unit) tt tt tt)

no_motion_without_consent_example : All (λ c. is_motion c ≡ false) morning.node.issued
no_motion_without_consent_example =
    no_motion_without_consent (launch false) morning refl
      (to_morning (Keeps λ p. p.allow_motion ≡ false) tt tt tt)

no_dfu_without_consent_example : All (λ c. is_dfu c ≡ false) morning.node.issued
no_dfu_without_consent_example =
    no_dfu_without_consent (launch false) morning refl
      (to_morning (Keeps λ p. p.allow_dfu ≡ false) tt tt tt)

-- A deactivation of the simulated arm.
step-IsGrounded_example :
    (new : List Command) × ((step deactivate running).node.issued ≡ new ++ running.node.issued)
    × All (IsGrounded deactivate running.phase running.node) new
step-IsGrounded_example = step-IsGrounded deactivate running

serve-Permitted_example :
    outline (serve world (Request.move_j six (whole 1)) (linked_node true true)).node
    ≡ outline (linked_node true true)
serve-Permitted_example =
    (serve-Permitted world (Request.move_j six (whole 1)) (linked_node true true)).1

reachable-IsCurrent_example : IsCurrent morning.node
reachable-IsCurrent_example =
    reachable-IsCurrent (launch false) morning (to_morning (λ event. Unit) tt tt tt)

reachable-IsReplayed_example : IsReplayed morning.node
reachable-IsReplayed_example =
    reachable-IsReplayed (launch false) morning (to_morning (λ event. Unit) tt tt tt)

abbrev closed : System BenchArm
closed = step shutdown morning

-- Someone asks for a motion, and for an activation, after the shutdown.
shutdown_is_final_example : IsOver closed.node.issued (step activate (step asked closed))
shutdown_is_final_example =
    shutdown_is_final (launch false) morning (step activate (step asked closed))
      (to_morning (λ event. Unit) tt tt tt) (advance activate tt (advance asked tt stay))

running_active : running.phase ≡ active
unfolding step on_configure configure_session configure_link issue configure_names name_axes
    clear_cache read_parameters new_node on_activate activate_session create_publishers
    refresh_license_record activate_enabled go_active
running_active = refl

-- A pause of the simulated arm: it enables again.
paused_active : (step activate (step deactivate running)).phase ≡ active
unfolding step on_configure configure_session configure_link issue configure_names name_axes
    clear_cache read_parameters new_node on_activate activate_session create_publishers
    refresh_license_record activate_enabled go_active on_deactivate leave_zero_g
    deactivate_publishers destroy_service_servers stop_timers start_timers activate_publishers
    create_service_servers
paused_active = refl

reactivation_restores_example :
    outline (step activate (step deactivate running)).node ≡ outline running.node
reactivation_restores_example =
    reactivation_restores (launch false) running
      (advance activate tt (advance (configure none) tt stay)) running_active paused_active

running_timed : running.node.status_timer ≡ some (whole 10)
unfolding step on_configure configure_session configure_link issue configure_names name_axes
    clear_cache read_parameters new_node on_activate activate_session create_publishers
    refresh_license_record activate_enabled go_active create_service_servers activate_publishers
    start_timers whole
running_timed = refl

timer_reports_example :
    (is_on running.node.status_publisher ≡ true) × PublishesOnce moment running.node
timer_reports_example =
    timer_reports (launch false) running moment (whole 10)
      (advance activate tt (advance (configure none) tt stay)) running_timed

running_linked : connected running.node ≡ true
unfolding connected step on_configure configure_session configure_link issue configure_names
    name_axes clear_cache read_parameters new_node on_activate activate_session create_publishers
    refresh_license_record activate_enabled go_active create_service_servers activate_publishers
    start_timers
running_linked = refl

stop_is_sent_example :
    (step (Event.request world Request.emergency_stop) running).node.issued
    ≡ emergency_stop ∷ running.node.issued
stop_is_sent_example =
    (stop_is_sent (launch false) running world
      (advance activate tt (advance (configure none) tt stay)) running_active running_linked).0

bring_up_example : running.phase ≡ active
unfolding name_axes
bring_up_example = bring_up BenchArm (launch false) none
