-- ===== src/Lifecycle/Outcome.antt =====
-- What the lifecycle callbacks of litearm_driver/src/litearm_driver_node.cpp leave behind.
use litearm_ros.Prelude.{
  pos_part, Bool, true, false, not, ◌||◌, ◌++◌, Option, none, some, List, ◌∷◌, String,
  if◌then◌else◌, length, ◌≡◌, refl, ap, arith, sym, ◌∙◌,
}
use litearm_ros.Double.{zero_d}
use litearm_ros.Lifecycle.Services.{service_names, services_offered}
use litearm_ros.Sdk.{Command, Sdk, Result, ok, threw, connect, close, zero_g_stop, enable}
use litearm_ros.Node.{Node, issue, refresh_license_record}
use litearm_ros.Node.Growth.{is_present, outline}
use litearm_ros.Node.Outcome.{is_ok}
use litearm_ros.Lifecycle.Axes.{Naming, named, miscounted, not_reserved, name_axes, named_length}
use litearm_ros.Lifecycle.{
  CallbackReturn, success, error, on_configure, configure_session, configure_link, configure_names,
  give_up, read_parameters, clear_cache, create_publishers, on_activate, activate_session,
  activate_enabled, go_active, create_service_servers, activate_publishers, start_timers,
  options_for, on_cleanup, on_shutdown, on_deactivate, leave_zero_g, close_session,
  reset_publishers, deactivate_publishers, destroy_service_servers, stop_timers,
}

module _ {Arm : Type 0} ⦃sdk : Sdk Arm⦄ where
  abbrev linked_names : List String → Result (Unit {0}) × Arm → Option Naming
  linked_names names (threw text, arm) = none
  linked_names names (ok _, arm) = some (name_axes (sdk.axes arm) names)

  abbrev session_names : List String → Option Arm → Option Naming
  session_names names none = none
  session_names names (some arm) = linked_names names (sdk.exec connect arm)

  -- The naming that the parameters and the device behind the link determine, if there is a link.
  abbrev determined : Node Arm → Option Naming
  determined node =
      session_names node.parameters.joint_names (sdk.create_arm (options_for node.parameters.port))

  -- The joint states are not published, or rclcpp takes the name of their topic.
  abbrev topic_accepted : Node Arm → Bool
  topic_accepted node =
      let p = node.parameters in
      not p.publish_joint_states || sdk.accepts_topic p.joint_states_topic

  -- What configuring leaves behind, by the naming that is determined and the topic's acceptance.
  abbrev AfterConfigure : Option Naming → Bool → CallbackReturn × Node Arm → Type 0
  AfterConfigure (some (named names)) true (result, node) =
      (result ≡ success)
      × (is_present node.arm ≡ true)
      × (node.joint_names ≡ names)
      × (node.speed_scaling ≡ 100)
      × (node.have_state ≡ false)
  AfterConfigure (some (named names)) false (result, node) =
      (result ≡ error)
      × (is_present node.arm ≡ true)
      × (node.joint_names ≡ names)
      × (is_present node.status_publisher ≡ true)
  AfterConfigure (some not_reserved) _ (result, node) =
      (result ≡ error) × (is_present node.arm ≡ true)
  AfterConfigure (some miscounted) _ (result, node) =
      (result ≡ error) × (is_present node.arm ≡ false)
  AfterConfigure none _ (result, node) = (result ≡ error) × (is_present node.arm ≡ false)

  by_names :
      (path : Option String) (node : Node Arm) (names : Option Naming) (accepted : Bool)
      → determined node ≡ names
      → topic_accepted node ≡ accepted
      → AfterConfigure names accepted (on_configure path node)
  unfolding on_configure configure_session configure_link configure_names give_up create_publishers
      read_parameters clear_cache issue refresh_license_record
  by_names path node (some (named names)) true h t = ground arith
  by_names path node (some (named names)) false h t = ground arith
  by_names path node (some not_reserved) _ h t = ground arith
  by_names path node (some miscounted) _ h t = ground arith
  by_names path node none _ h t = ground arith

  -- If the SDK session is created, connecting returns, the axes can be named and, where the joint states
  -- are to be published, rclcpp takes their topic's name, configuring succeeds, and the node has a
  -- session, those joint names, a speed scaling of 100 and no cached frame. If only the topic's name is
  -- not taken, it returns ERROR with the session, those joint names and the status publisher kept. Else
  -- it returns ERROR, and the node has no session, except that it keeps it where the device reports a
  -- negative number of axes and no names are configured. A licence record that cannot be read is no
  -- error.
  pub on_configure_outcome :
      (path : Option String) (node : Node Arm)
      → AfterConfigure (determined node) (topic_accepted node) (on_configure path node)
  on_configure_outcome path node =
      by_names path node (determined node) (topic_accepted node) refl refl

  linked_length :
      (names result : List String) (out : Result (Unit {0}) × Arm)
      → linked_names names out ≡ some (named result)
      → length result ≡ pos_part (sdk.axes out.1)
  linked_length names result (ok _, arm) h = named_length (sdk.axes arm) names result cc
  linked_length names result (threw text, arm) h = absurd cc

  determined-length :
      (node : Node Arm) (arm : Arm) (result : List String)
      → sdk.create_arm (options_for node.parameters.port) ≡ some arm
      → determined node ≡ some (named result)
      → length result ≡ pos_part (sdk.axes (sdk.exec connect arm).1)
  determined-length node arm result created h =
      linked_length node.parameters.joint_names result (sdk.exec connect arm)
        (sym (ap (session_names node.parameters.joint_names) created) ∙ h)

  counted_names :
      (path : Option String) (node : Node Arm) (arm : Arm) (names : Option Naming) (accepted : Bool)
      → topic_accepted node ≡ accepted
      → sdk.create_arm (options_for node.parameters.port) ≡ some arm
      → determined node ≡ names
      → (on_configure path node).0 ≡ success
      → length (on_configure path node).1.joint_names ≡ pos_part (sdk.axes (sdk.exec connect arm).1)
  counted_names path node arm (some (named names)) true t created h done =
      ap length (by_names path node (some (named names)) true h t).2
      ∙ determined-length node arm names created h
  counted_names path node arm (some (named names)) false t created h done =
      absurd (ground (arith, by_names path node (some (named names)) false h t))
  counted_names path node arm (some not_reserved) accepted t created h done =
      absurd (ground (arith, by_names path node (some not_reserved) accepted h t))
  counted_names path node arm (some miscounted) accepted t created h done =
      absurd (ground (arith, by_names path node (some miscounted) accepted h t))
  counted_names path node arm none accepted t created h done =
      absurd (ground (arith, by_names path node none accepted h t))

  -- Without configured names a node that was configured has as many joints as the axes that the SDK
  -- reports after connecting; with configured names too, since others are refused.
  pub configured_joint_count :
      (path : Option String) (node : Node Arm) (arm : Arm)
      → sdk.create_arm (options_for node.parameters.port) ≡ some arm
      → (on_configure path node).0 ≡ success
      → length (on_configure path node).1.joint_names ≡ pos_part (sdk.axes (sdk.exec connect arm).1)
  configured_joint_count path node arm created done =
      counted_names path node arm (determined node) (topic_accepted node) refl created refl done

  abbrev ready_on : Node Arm → Option Arm → Bool
  ready_on node none = false
  ready_on node (some arm) =
      not node.auto_enable || is_ok (sdk.exec (enable node.enable_attempts) arm).0

  -- There is a session, and if the motors are to be enabled, enabling them returns.
  abbrev ready : Node Arm → Bool
  ready node = ready_on node node.arm

  activate_success :
      (node : Node Arm)
      → ready node ≡ true
      → let out = on_activate node in
        (out.0 ≡ success)
        × (out.1.services ≡ node.services ++ service_names)
        × (out.1.issued
            ≡ (if node.auto_enable then enable node.enable_attempts ∷ node.issued else node.issued))
  unfolding on_activate activate_session activate_enabled go_active create_service_servers
      activate_publishers start_timers issue
  activate_success node h = ground (arith, services_offered node.services)

  activate_error :
      (node : Node Arm)
      → ready node ≡ false
      → let out = on_activate node in (out.0 ≡ error) × (outline out.1 ≡ outline node)
  unfolding on_activate activate_session activate_enabled go_active create_service_servers
      activate_publishers start_timers issue
  activate_error node h = ground arith

  -- What activating leaves behind, by whether the node was ready.
  abbrev AfterActivate : Bool → Node Arm → CallbackReturn × Node Arm → Type 0
  AfterActivate true before (result, node) =
      (result ≡ success)
      × (node.services ≡ before.services ++ service_names)
      × (node.issued ≡ (
          if before.auto_enable
          then enable before.enable_attempts ∷ before.issued
          else before.issued))
  AfterActivate false before (result, node) = (result ≡ error) × (outline node ≡ outline before)

  by_readiness :
      (node : Node Arm) (is_ready : Bool)
      → ready node ≡ is_ready
      → AfterActivate is_ready node (on_activate node)
  by_readiness node true h = activate_success node h
  by_readiness node false h = activate_error node h

  -- If there is a session and, where auto_enable is set, enabling with the configured number of attempts
  -- returns, activating succeeds: it adds the services, and made the one call enable if auto_enable is set
  -- and none if not. If not, it returns ERROR, no service, publisher or timer was touched, and a session
  -- that was open still is.
  pub on_activate_outcome : (node : Node Arm) → AfterActivate (ready node) node (on_activate node)
  on_activate_outcome node = by_readiness node (ready node) refl

  abbrev leaving : Node Arm → Option Arm → List Command
  leaving node none = node.issued
  leaving node (some arm) =
      if sdk.zero_g_active arm then zero_g_stop true ∷ node.issued else node.issued

  -- Deactivating always succeeds: it stops zero gravity exactly when that is active, makes no other call,
  -- and keeps the session (open or absent), the cached frame with its arrival time, the licence record
  -- with its mark, the joint names and the speed scaling.
  pub on_deactivate_outcome :
      (node : Node Arm)
      → let out = on_deactivate node in
        (out.0 ≡ success)
        × (out.1.issued ≡ leaving node node.arm)
        × (is_present out.1.arm ≡ is_present node.arm)
        × (out.1.last_state ≡ node.last_state)
        × (out.1.have_state ≡ node.have_state)
        × (out.1.last_state_stamp ≡ node.last_state_stamp)
        × (out.1.license_valid ≡ node.license_valid)
        × (out.1.license ≡ node.license)
        × (out.1.joint_names ≡ node.joint_names)
        × (out.1.speed_scaling ≡ node.speed_scaling)
  unfolding on_deactivate leave_zero_g deactivate_publishers destroy_service_servers stop_timers
      issue
  on_deactivate_outcome node = ground arith

  abbrev closing : Node Arm → Option Arm → List Command
  closing node none = node.issued
  closing node (some arm) = close ∷ node.issued

  -- Cleaning up, and shutting down alike, always succeeds, whether closing the session returns or throws:
  -- close is the one call, made exactly when there is a session, and then there is no session, no
  -- publisher, no cached frame, no licence record and no arrival time.
  pub on_cleanup_outcome :
      (node : Node Arm)
      → let out = on_cleanup node in
        (out ≡ on_shutdown node)
        × ((out.0 ≡ success)
            × (out.1.issued ≡ closing node node.arm)
            × (is_present out.1.arm ≡ false)
            × (out.1.status_publisher ≡ none)
            × (out.1.joint_state_publisher ≡ none)
            × (out.1.diagnostics_publisher ≡ none)
            × (out.1.have_state ≡ false)
            × (out.1.license_valid ≡ false)
            × (out.1.last_state_stamp ≡ zero_d))
  unfolding on_cleanup on_shutdown reset_publishers close_session deactivate_publishers
      destroy_service_servers stop_timers issue clear_cache
  on_cleanup_outcome node = (refl, ground arith)
