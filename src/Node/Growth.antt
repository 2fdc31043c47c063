-- ===== src/Node/Growth.antt =====
-- What the helpers of litearm_driver/include/litearm_driver/service_helpers.hpp send to the device.
use litearm_ros.Prelude.{
  ℤ, Bool, true, false, none, some, Option, List, [], ◌∷◌, ◌++◌, String, ◌≡◌, refl, subst, sym, All,
  arith, Bool-cases, inl, inr, ◌⊎◌, ap, ◌∙◌,
}
use litearm_ros.Double.{Double}
use litearm_ros.Sdk.{Command, Reply, Result, ok, threw, Sdk}
use litearm_ros.Gates.{GateResult, check_parameter_allows, check_connected}
use litearm_ros.Node.{
  Parameters, Publisher, Node, Call, Handler, gated, on_success, report, with_arm, perform, ask,
  answered, run_command, reading, command, tell, require_motion_allowed, connected,
}

-- From `before` to `after` only calls that satisfy `P` were made.
pub data Issues (P : Command → Type 0) (before : List Command) : List Command → Type 0 where
  same : Issues P before before
  more :
      {after : List Command} (c : Command)
      → P c
      → Issues P before after
      → Issues P before (c ∷ after)

pub Issues-trans :
    {P : Command → Type 0} {a b c : List Command} → Issues P a b → Issues P b c → Issues P a c
Issues-trans ab same = ab
Issues-trans ab (more c p bc) = more c p (Issues-trans ab bc)

pub Issues-All :
    {P : Command → Type 0} {before after : List Command}
    → Issues P before after
    → (new : List Command) × (after ≡ new ++ before) × All P new
Issues-All same = ([], refl, tt)
Issues-All (more c p rest) =
    let (new, e, all) = Issues-All rest in (c ∷ new, ap (λ xs. c ∷ xs) e, (p, all))

pub allowed : (b : Bool) (name : String) → (check_parameter_allows b name).ok ≡ true → b ≡ true
unfolding check_parameter_allows
allowed b name e = ground arith

-- Whether there is a session.
abbrev pub is_present {ℓ} : {A : Type ℓ} → Option A → Bool
is_present none = false
is_present (some _) = true

-- What only the lifecycle callbacks change: all but the session's state, the cached records, the
-- speed scaling and the trace.
pub record Outline : Type 0 where
  pub parameters : Parameters
  pub joint_names : List String
  pub port : String
  pub auto_enable : Bool
  pub enable_attempts : ℤ
  pub status_rate_hz : Double
  pub publish_joint_states : Bool
  pub joint_states_topic : String
  pub publish_diagnostics : Bool
  pub diagnostics_rate_hz : Double
  pub frame_id : String
  pub log_dir : String
  pub has_session : Bool
  pub services : List String
  pub status_publisher : Option Publisher
  pub joint_state_publisher : Option Publisher
  pub diagnostics_publisher : Option Publisher
  pub status_timer : Option Double
  pub diagnostics_timer : Option Double

abbrev pub outline : {Arm : Type 0} → Node Arm → Outline
outline node = record {
  parameters = node.parameters;
  joint_names = node.joint_names;
  port = node.port;
  auto_enable = node.auto_enable;
  enable_attempts = node.enable_attempts;
  status_rate_hz = node.status_rate_hz;
  publish_joint_states = node.publish_joint_states;
  joint_states_topic = node.joint_states_topic;
  publish_diagnostics = node.publish_diagnostics;
  diagnostics_rate_hz = node.diagnostics_rate_hz;
  frame_id = node.frame_id;
  log_dir = node.log_dir;
  has_session = is_present node.arm;
  services = node.services;
  status_publisher = node.status_publisher;
  joint_state_publisher = node.joint_state_publisher;
  diagnostics_publisher = node.diagnostics_publisher;
  status_timer = node.status_timer;
  diagnostics_timer = node.diagnostics_timer;
}

-- Nothing was sent, and the outline is as before.
abbrev pub Quiet : {Arm : Type 0} → Node Arm → Node Arm → Type 0
Quiet before after = (after.issued ≡ before.issued) × (outline after ≡ outline before)

-- The call `c` was sent, or nothing, and the outline is as before.
abbrev pub SendsOnce : {Arm : Type 0} → Command → Node Arm → Node Arm → Type 0
SendsOnce c before after =
    ((after.issued ≡ before.issued) ⊎ (after.issued ≡ c ∷ before.issued))
    × (outline after ≡ outline before)

module _ {Arm B : Type 0} where
  on_success-Quiet :
      (change : Call Arm B → Call Arm B) (handler : Handler Arm B) (call : Call Arm B)
      → ((s : Call Arm B) → Quiet s.node (change s).node)
      → Quiet (handler call).node (on_success change handler call).node
  unfolding on_success
  on_success-Quiet change handler call keeps = ground (arith, keeps (handler call))

  report_node :
      (what : String) (out : Result (Unit {0}) × Call Arm B) → (report what out).node ≡ out.1.node
  unfolding report
  report_node what (ok _, call) = refl
  report_node what (threw text, call) = refl

  answered-Quiet :
      {R : Type 0} (store : R → Call Arm B → Call Arm B) (out : Result R × Call Arm B)
      → ((r : R) (s : Call Arm B) → Quiet s.node (store r s).node)
      → Quiet out.1.node (answered store out).1.node
  unfolding answered
  answered-Quiet store (ok value, call) keeps = keeps value call
  answered-Quiet store (threw text, call) keeps = (refl, refl)

module _ {Arm B : Type 0} ⦃sdk : Sdk Arm⦄ where
  -- A command of a session sends one call.
  reported_ask :
      (what : String) (c : Command) (store : Reply c → Call Arm B → Call Arm B) (arm : Arm)
      (call : Call Arm B)
      → ((r : Reply c) (s : Call Arm B) → Quiet s.node (store r s).node)
      → is_present call.node.arm ≡ true
      → SendsOnce c call.node (report what (ask c store arm call)).node
  unfolding ask
  reported_ask what c store arm call keeps session = ground (
    arith,
    report_node what (answered store (perform c arm call)),
    answered-Quiet store (perform c arm call) keeps,
  )

  with_arm-SendsOnce :
      (c : Command) (session : Option Arm) (rest : Arm → Call Arm B) (call : Call Arm B)
      → ((arm : Arm) → is_present session ≡ true → SendsOnce c call.node (rest arm).node)
      → SendsOnce c call.node (with_arm session rest call).node
  unfolding with_arm
  with_arm-SendsOnce c none rest call h = (inl refl, refl)
  with_arm-SendsOnce c (some arm) rest call h = h arm refl

  gated-SendsOnce :
      (c : Command) (gate : GateResult) (rest : Handler Arm B) (call : Call Arm B)
      → SendsOnce c call.node (rest call).node
      → SendsOnce c call.node (gated gate rest call).node
  unfolding gated
  gated-SendsOnce c gate rest call h = elim (Bool-cases gate.ok) [
    | inl passed ↦ rw passed h
    | inr refused ↦ rw refused (inl refl, refl)
  ]

  -- One call of a session, and then something that leaves the node alone.
  pub perform-SendsOnce :
      (c : Command) (arm : Arm) (call after : Call Arm B)
      → is_present call.node.arm ≡ true
      → after.node ≡ (perform c arm call).1.node
      → SendsOnce c call.node after.node
  unfolding perform
  perform-SendsOnce c arm call after session e = ground arith

  pub command-SendsOnce :
      (what : String) (c : Command) (store : Reply c → Call Arm B → Call Arm B) (call : Call Arm B)
      → ((r : Reply c) (s : Call Arm B) → Quiet s.node (store r s).node)
      → SendsOnce c call.node (command what c store call).node
  unfolding command run_command
  command-SendsOnce what c store call keeps =
      gated-SendsOnce c (check_connected (connected call.node))
        (λ s. with_arm s.node.arm (λ arm. report what (ask c store arm s)) s) call
        (with_arm-SendsOnce c call.node.arm (λ arm. report what (ask c store arm call)) call
          (λ arm session. reported_ask what c store arm call keeps session))

-- A handler makes only calls that satisfy `P` when it works on `call`, and keeps the outline.
pub data Sends {Arm B : Type 0} (P : Command → Type 0) (handler : Handler Arm B) (call : Call Arm B)
    : Type 0 where
  sends :
      Issues P call.node.issued (handler call).node.issued
      → outline (handler call).node ≡ outline call.node
      → Sends P handler call

module _ {Arm B : Type 0} {P : Command → Type 0} {handler : Handler Arm B} {call : Call Arm B} where
  pub Sends-Issues : Sends P handler call → Issues P call.node.issued (handler call).node.issued
  Sends-Issues (sends i o) = i

  pub Sends-outline : Sends P handler call → outline (handler call).node ≡ outline call.node
  Sends-outline (sends i o) = o

-- Moving a trace along an equation.
pub Issues-eq :
    {P : Command → Type 0} {before : List Command} (after after' : List Command)
    → after' ≡ after
    → Issues P before after
    → Issues P before after'
Issues-eq {P} {before} after after' e i = subst (Issues P before) (sym e) i

with_arm-parts :
    {Arm B : Type 0} {P : Command → Type 0} (session : Option Arm) (rest : Arm → Call Arm B)
    (call : Call Arm B)
    → ((arm : Arm)
        → is_present session ≡ true
        → Issues P call.node.issued (rest arm).node.issued
          × (outline (rest arm).node ≡ outline call.node))
    → Issues P call.node.issued (with_arm session rest call).node.issued
      × (outline (with_arm session rest call).node ≡ outline call.node)
unfolding with_arm
with_arm-parts none rest call h = (same, refl)
with_arm-parts (some arm) rest call h = h arm refl

module _ {Arm B : Type 0} {P : Command → Type 0} {call : Call Arm B} where
  pub gated-Sends :
      (gate : GateResult) (rest : Handler Arm B)
      → (gate.ok ≡ true → Sends P rest call)
      → Sends P (gated gate rest) call
  unfolding gated
  gated-Sends gate rest h = elim (Bool-cases gate.ok) [
    | inl passed ↦
        sends (rw passed (Sends-Issues (h passed))) (rw passed (Sends-outline (h passed)))
    | inr refused ↦ sends (rw refused same) (rw refused refl)
  ]

  pub on_success-Sends :
      (change : Call Arm B → Call Arm B) (handler : Handler Arm B)
      → ((s : Call Arm B) → Quiet s.node (change s).node)
      → Sends P handler call
      → Sends P (on_success change handler) call
  on_success-Sends change handler keeps (sends i o) =
      let quiet = on_success-Quiet change handler call keeps in
      sends (Issues-eq _ _ quiet.0 i) (quiet.1 ∙ o)

  pub once-Sends :
      (c : Command) (handler : Handler Arm B)
      → P c
      → SendsOnce c call.node (handler call).node
      → Sends P handler call
  once-Sends c handler p once = elim once.0 [
    | inl e ↦ sends (Issues-eq _ _ e same) once.1
    | inr e ↦ sends (Issues-eq _ _ e (more c p same)) once.1
  ]

  -- A handler that looks at the session is safe if it is for every session.
  pub with_arm-Sends :
      (rest : Arm → Handler Arm B)
      → ((arm : Arm) → is_present call.node.arm ≡ true → Sends P (rest arm) call)
      → Sends P (λ s. with_arm s.node.arm (λ arm. rest arm s) s) call
  with_arm-Sends rest h =
      let parts =
        with_arm-parts call.node.arm (λ arm. rest arm call) call
          λ arm session. (Sends-Issues (h arm session), Sends-outline (h arm session)) in
      sends parts.0 parts.1

  pub reading-Sends :
      (handler : Node Arm → Handler Arm B)
      → Sends P (handler call.node) call
      → Sends P (reading handler) call
  unfolding reading
  reading-Sends handler (sends i o) = sends i o

module _ {Arm B : Type 0} ⦃sdk : Sdk Arm⦄ {P : Command → Type 0} {call : Call Arm B} where
  pub command-Sends :
      (what : String) (c : Command) (store : Reply c → Call Arm B → Call Arm B)
      → P c
      → ((r : Reply c) (s : Call Arm B) → Quiet s.node (store r s).node)
      → Sends P (command what c store) call
  command-Sends what c store p keeps =
      once-Sends c (command what c store) p (command-SendsOnce what c store call keeps)

  pub tell-Sends : (what : String) (c : Command) → P c → Sends P (tell what c) call
  unfolding tell
  tell-Sends what c p = command-Sends what c (λ _ s. s) p (λ r s. (refl, refl))

  pub require_motion_allowed-Sends :
      (rest : Handler Arm B)
      → (call.node.parameters.allow_motion ≡ true → Sends P rest call)
      → Sends P (require_motion_allowed rest) call
  unfolding require_motion_allowed
  require_motion_allowed-Sends rest h =
      let gate = check_parameter_allows call.node.parameters.allow_motion "allow_motion" in
      let inner =
        gated-Sends gate rest λ e. h (allowed call.node.parameters.allow_motion "allow_motion" e) in
      sends (Sends-Issues inner) (Sends-outline inner)
