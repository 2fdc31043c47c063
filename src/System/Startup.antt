-- ===== src/System/Startup.antt =====
-- Bringing the node up: configuring and activating it after its launch.
use litearm_ros.Prelude.{
  Bool, true, false, ◌&&◌, ◌||◌, not, Option, none, some, String, ◌≡◌, arith, if◌then◌else◌,
  to_int32,
}
use litearm_ros.Sdk.{Sdk, Command, connect, read_license, enable}
use litearm_ros.Node.{Parameters, issue, refresh_license_record}
use litearm_ros.Node.Outcome.{is_ok}
use litearm_ros.Lifecycle.Axes.{Naming, named, miscounted, not_reserved, name_axes}
use litearm_ros.Lifecycle.{
  on_configure, configure_session, configure_link, configure_names, give_up, read_parameters,
  clear_cache, create_publishers, on_activate, activate_session, activate_enabled, go_active,
  create_service_servers, activate_publishers, start_timers, on_error, new_node, options_for,
}
use litearm_ros.System.{unconfigured, active, Event, step, launched}

abbrev is_named : Naming → Bool
is_named (named names) = true
is_named miscounted = false
is_named not_reserved = false

module _ {Arm : Type 0} ⦃sdk : Sdk Arm⦄ where
  -- The session after a call.
  abbrev after : Command → Arm → Arm
  after c arm = (sdk.exec c arm).1

  -- A device that takes its part: it connects, its axes have names, rclcpp takes the topic's name where
  -- the joint states are to be published, and the device enables where it is asked to; whether the
  -- licence can be read in between does not matter.
  abbrev pub takes_part : Parameters → Option Arm → Bool
  takes_part parameters none = false
  takes_part parameters (some arm) =
      let linked = after connect arm in
      is_ok (sdk.exec connect arm).0
      && is_named (name_axes (sdk.axes linked) parameters.joint_names)
      && (not parameters.publish_joint_states || sdk.accepts_topic parameters.joint_states_topic)
      && (not parameters.auto_enable
          || is_ok
              (sdk.exec (enable (to_int32 parameters.enable_attempts))
                (after read_license linked)).0)

module _ (Arm : Type 0) ⦃sdk : Sdk Arm⦄ where
  -- After its launch, configuring and then activating the node makes it active exactly when the SDK
  -- session is created, connecting returns, the axes can be named, the topic of the joint states, where
  -- these are to be published, has a name that rclcpp takes and, where auto_enable is set, enabling with
  -- the configured number of attempts returns, whether or not the licence can be read; if not, the node
  -- is unconfigured.
  pub bring_up :
      (parameters : Parameters) (home : Option String)
      → (step Event.activate (step (Event.configure home) (launched {Arm = Arm} parameters))).phase
        ≡ (if takes_part parameters (sdk.create_arm (options_for parameters.port))
            then active
            else unconfigured)
  unfolding step on_configure configure_session configure_link configure_names give_up
      create_publishers read_parameters clear_cache issue refresh_license_record on_activate
      activate_session activate_enabled go_active create_service_servers activate_publishers
      start_timers on_error new_node
  bring_up parameters home = ground arith
