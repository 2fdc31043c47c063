-- ===== src/Node/Answer.antt =====
-- What a handler built from the helpers of litearm_driver/include/litearm_driver/service_helpers.hpp
-- writes into the body of its response.
use litearm_ros.Prelude.{
  true, false, Bool-cases, Option, none, some, String, ◌≡◌, refl, ◌⊎◌, inl, inr, arith,
}
use litearm_ros.Sdk.{Command, Reply, Result, ok, threw, Sdk}
use litearm_ros.Gates.{GateResult, check_parameter_allows, check_connected}
use litearm_ros.Node.{
  Node, Call, Handler, fill_failure, gated, on_success, report, with_arm, perform, issue, ask,
  answered, run_command, reading, command, require_motion_allowed, is_linked, connected,
}

module _ {Arm : Type 0} ⦃sdk : Sdk Arm⦄ where
  abbrev answer_on : (c : Command) → Option Arm → Option (Result (Reply c))
  answer_on c none = none
  answer_on c (some arm) = some (sdk.exec c arm).0

  -- What the session, if there is one, answers to the call.
  abbrev pub answer_of : (c : Command) → Node Arm → Option (Result (Reply c))
  answer_of c node = answer_on c node.arm

  -- A success has the session's answer in its body, as `view` shows it; a failure has what was there.
  pub data Tells {B : Type 0} (c : Command) (view : B → Reply c → B) (handler : Handler Arm B)
      (call : Call Arm B) : Type 0 where
    silent :
        (handler call).response.success ≡ false
        → (handler call).response.body ≡ call.response.body
        → Tells c view handler call
    told :
        (answer : Reply c)
        → (handler call).response.success ≡ true
        → answer_of c call.node ≡ some (ok answer)
        → (handler call).response.body ≡ view call.response.body answer
        → Tells c view handler call

module _ {Arm B : Type 0} ⦃sdk : Sdk Arm⦄ {c : Command} {view : B → Reply c → B}
    {call : Call Arm B} where
  pub gated-Tells :
      (gate : GateResult) (rest : Handler Arm B)
      → Tells c view rest call
      → Tells c view (gated gate rest) call
  unfolding gated fill_failure
  gated-Tells gate rest tells = elim (Bool-cases gate.ok) [
    | inl passed ↦ elim tells [
      | silent f b ↦ silent (rw passed f) (rw passed b)
      | told answer s e b ↦ told answer (rw passed s) e (rw passed b)
    ]
    | inr refused ↦ silent (rw refused refl) (rw refused refl)
  ]

  pub require_motion_allowed-Tells :
      (rest : Handler Arm B)
      → Tells c view rest call
      → Tells c view (require_motion_allowed rest) call
  unfolding require_motion_allowed
  require_motion_allowed-Tells rest tells =
      elim (gated-Tells (check_parameter_allows call.node.parameters.allow_motion "allow_motion")
        rest tells) [ silent f b ↦ silent f b | told answer s e b ↦ told answer s e b ]

  pub on_success-Tells :
      (change : Call Arm B → Call Arm B) (handler : Handler Arm B)
      → ((s : Call Arm B)
          → ((change s).response.success ≡ s.response.success)
            × ((change s).response.body ≡ s.response.body))
      → Tells c view handler call
      → Tells c view (on_success change handler) call
  unfolding on_success
  on_success-Tells change handler keeps (silent f b) =
      silent (ground (arith, f)) (ground (arith, f, b))
  on_success-Tells change handler keeps (told answer s e b) =
      told answer (ground (arith, s, keeps (handler call))) e
        (ground (arith, s, b, keeps (handler call)))

  pub reading-Tells :
      (handler : Node Arm → Handler Arm B)
      → Tells c view (handler call.node) call
      → Tells c view (reading handler) call
  unfolding reading
  reading-Tells handler (silent f b) = silent f b
  reading-Tells handler (told answer s e b) = told answer s e b

module _ {Arm B : Type 0} ⦃sdk : Sdk Arm⦄ where
  -- The same of one SDK call, for a response before and after.
  abbrev Told :
      (c : Command) → (B → Reply c → B) → Option (Result (Reply c)) → B → Call Arm B → Type 0
  Told c view said before out =
      ((out.response.success ≡ false) × (out.response.body ≡ before))
      ⊎ ((answer : Reply c) × (out.response.success ≡ true)
          × (said ≡ some (ok answer))
          × (out.response.body ≡ view before answer))

  reported-Told :
      (what : String) (c : Command) (store : Reply c → Call Arm B → Call Arm B)
      (view : B → Reply c → B) (call : Call Arm B) (answer : Result (Reply c))
      → ((r : Reply c) (s : Call Arm B) → (store r s).response.body ≡ view s.response.body r)
      → Told c view (some answer) call.response.body (report what (answered store (answer, call)))
  unfolding report answered
  reported-Told what c store view call (ok value) h = inr (value, refl, refl, h value call)
  reported-Told what c store view call (threw text) h = inl (refl, refl)

  linked-Told :
      (what : String) (c : Command) (store : Reply c → Call Arm B → Call Arm B)
      (view : B → Reply c → B) (session : Option Arm) (call : Call Arm B)
      → ((r : Reply c) (s : Call Arm B) → (store r s).response.body ≡ view s.response.body r)
      → Told c view (answer_on c session) call.response.body (
          gated
            (check_connected (is_linked session))
            (λ s. with_arm session (λ arm. report what (ask c store arm s)) s)
            call)
  unfolding gated fill_failure check_connected with_arm ask perform issue
  linked-Told what c store view none call h = inl (refl, refl)
  linked-Told what c store view (some arm) call h = elim (Bool-cases (sdk.is_connected arm)) [
    | inl up ↦
        let node' : Node Arm = (issue c arm call.node).1 in
        rw up (reported-Told what c store view (record call { node = node' }) (sdk.exec c arm).0 h)
    | inr down ↦ rw down (inl (refl, refl))
  ]

  pub command-Tells :
      (what : String) (c : Command) (store : Reply c → Call Arm B → Call Arm B)
      (view : B → Reply c → B) (call : Call Arm B)
      → ((r : Reply c) (s : Call Arm B) → (store r s).response.body ≡ view s.response.body r)
      → Tells c view (command what c store) call
  unfolding command run_command connected
  command-Tells what c store view call h =
      elim (linked-Told what c store view call.node.arm call h) [
        | inl (f, b) ↦ silent f b
        | inr (answer, s, e, b) ↦ told answer s e b
      ]
