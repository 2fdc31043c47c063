-- ===== src/Service/ReadBack.antt =====
-- Writing a scalar register of the firmware and reading it back (litearm_driver/README.md: the firmware
-- clamps silently, so read back what you wrote), with other requests in between.
use mathlib.Core.List.{append_assoc, append_cancel_right}
use litearm_ros.Prelude.{
  ℤ, Bool, true, false, Option, none, some, List, [], ◌∷◌, ◌++◌, ◌≡◌, refl, sym, subst, ap, ◌∙◌,
  inl, inr, All, arith,
}
use litearm_ros.Double.{Double, zero_d}
use litearm_ros.Sdk.{
  Command, Sdk, ok, Stamped, set_ff_scalar, get_ff_scalar, get_status_now, all_joint_params,
  get_joint_param, get_ff_vec, get_ff_mask, get_body, get_jm, model_status, get_tcp, read_license,
  poll_cart,
}
use litearm_ros.Node.{Node, Call, issue}
use litearm_ros.Node.Effect.{effect, effect_on}
use litearm_ros.Node.Outcome.{is_ok}
use litearm_ros.Node.Answer.{Tells, silent, told, answer_of, command-Tells}
use litearm_ros.Node.Footprint.{after_call, replay, replay-append}
use litearm_ros.Config.{handle_get_feedforward_scalar}
use litearm_ros.Service.{Request, World, Outcome, serve, fresh_call}
use litearm_ros.Service.Refines.{serve_refines}
use litearm_ros.Service.Footprint.{serve_calls_bounded}

-- The calls that the SDK documents as reading the device.
abbrev pub is_read : Command → Bool
is_read (get_status_now t) = true
is_read (get_ff_scalar item sub) = true
is_read (get_ff_vec item) = true
is_read get_ff_mask = true
is_read all_joint_params = true
is_read (get_joint_param joint) = true
is_read (get_body body) = true
is_read get_jm = true
is_read model_status = true
is_read get_tcp = true
is_read read_license = true
is_read poll_cart = true
is_read _ = false

abbrev pub IsRead : Command → Type 0
IsRead c = is_read c ≡ true

-- A device with scalar registers: a write stores the value as the firmware clamps it, a read answers
-- with what is stored, and a call that only reads leaves the registers alone.
pub record Registers (Arm : Type 0) (sdk : Sdk Arm) : Type 0 where
  pub stored : ℤ → ℤ → Arm → Double
  pub clamped : ℤ → ℤ → Double → Double
  pub write_stores :
      (item sub : ℤ) (value : Double) (arm : Arm)
      → is_ok (sdk.exec (set_ff_scalar item sub value) arm).0 ≡ true
      → stored item sub (sdk.exec (set_ff_scalar item sub value) arm).1 ≡ clamped item sub value
  pub read_tells :
      (item sub : ℤ) (arm : Arm) (answer : Stamped Double)
      → (sdk.exec (get_ff_scalar item sub) arm).0 ≡ ok answer
      → answer.value ≡ stored item sub arm
  pub read_keeps :
      (c : Command) (item sub : ℤ) (arm : Arm)
      → IsRead c
      → stored item sub (sdk.exec c arm).1 ≡ stored item sub arm

module _ {Arm : Type 0} ⦃sdk : Sdk Arm⦄ where
  -- Requests served one after another.
  unfoldable pub serve_all : List (World × Request) → Node Arm → Node Arm
  serve_all [] node = node
  serve_all ((world, request) ∷ later) node = serve_all later (serve world request node).node

  abbrev Replays : Node Arm → Node Arm → Type 0
  Replays before after =
      (calls : List Command) × (after.issued ≡ calls ++ before.issued)
      × (after.arm ≡ replay calls before.arm)

  serve_all-Replays :
      (requests : List (World × Request)) (node : Node Arm) → Replays node (serve_all requests node)
  unfolding serve_all
  serve_all-Replays [] node = ([], refl, refl)
  serve_all-Replays ((world, request) ∷ later) node =
      let (first, i, a, l) = serve_calls_bounded world request node in
      let (rest, j, b) = serve_all-Replays later (serve world request node).node in
      (
        rest ++ first,
        j ∙ ap (λ xs. rest ++ xs) i ∙ sym (append_assoc rest first node.issued),
        b ∙ ap (replay rest) a ∙ sym (replay-append rest first node.arm),
      )

module _ {Arm : Type 0} ⦃sdk : Sdk Arm⦄ (item sub : ℤ) where
  -- The write, and the read of the same register.
  abbrev pub write_scalar : World → Double → Node Arm → Outcome Arm
  write_scalar world value node = serve world (Request.set_feedforward_scalar item sub value) node

  abbrev pub read_scalar : Node Arm → Call Arm Double
  read_scalar node = handle_get_feedforward_scalar item sub (fresh_call zero_d node)

module _ {Arm : Type 0} ⦃sdk : Sdk Arm⦄ (registers : Registers Arm sdk) (item sub : ℤ) where
  abbrev stored_in : Option Arm → Option Double
  stored_in none = none
  stored_in (some arm) = some (registers.stored item sub arm)

  replay-stored_in :
      (calls : List Command) (session : Option Arm)
      → All IsRead calls
      → stored_in (replay calls session) ≡ stored_in session
  replay-stored_in [] session reads = refl
  replay-stored_in (c ∷ calls) session (read, reads) =
      call-stored_in (replay calls session) ∙ replay-stored_in calls session reads
    where
      call-stored_in : (s : Option Arm) → stored_in (after_call c s) ≡ stored_in s
      call-stored_in none = refl
      call-stored_in (some arm) = ap some (registers.read_keeps c item sub arm read)

  written_on :
      (value : Double) (session : Option Arm) (node : Node Arm)
      → let out = effect_on (set_ff_scalar item sub value) (λ _ n. n) session node in
        out.0 ≡ true → stored_in out.1.arm ≡ some (registers.clamped item sub value)
  unfolding issue
  written_on value none node h = absurd cc
  written_on value (some arm) node h = ground (arith, registers.write_stores item sub value arm)

  written :
      (world : World) (value : Double) (node : Node Arm)
      → let out = serve world (Request.set_feedforward_scalar item sub value) node in
        out.success ≡ true → stored_in out.node.arm ≡ some (registers.clamped item sub value)
  unfolding effect
  written world value node h =
      elim (serve_refines world (Request.set_feedforward_scalar item sub value) node) [
        | inl (granted, e) ↦
            ap (λ out. stored_in out.1.arm) e
            ∙ written_on value node.arm node (sym (ap (λ out. out.0) e) ∙ h)
        | inr (denied, e) ↦ absurd (denied tt)
      ]

  told_stored :
      (session : Option Arm) (answer : Stamped Double) (node : Node Arm)
      → node.arm ≡ session
      → answer_of (get_ff_scalar item sub) node ≡ some (ok answer)
      → some answer.value ≡ stored_in session
  told_stored none answer node e h = absurd (ground (arith, h, e))
  told_stored (some arm) answer node e h =
      ap some (registers.read_tells item sub arm answer (ground (arith, h, e)))

  read_told :
      (call : Call Arm Double)
      → (handle_get_feedforward_scalar item sub call).response.success ≡ true
      → some (handle_get_feedforward_scalar item sub call).response.body ≡ stored_in call.node.arm
  unfolding handle_get_feedforward_scalar
  read_told call h =
      let told_by : Tells (get_ff_scalar item sub) (λ _ answer. answer.value)
          (handle_get_feedforward_scalar item sub) call =
        command-Tells _ (get_ff_scalar item sub) _ _ call (λ r s. refl) in
      elim told_by [
        | silent f b ↦ absurd (ground (arith, f, h))
        | told answer s e b ↦ ap some b ∙ told_stored call.node.arm answer call.node refl e
      ]

  -- On a device with such registers: after a successful set_feedforward_scalar, and any requests whose SDK
  -- calls only read the device, whether they succeed or not, a successful get_feedforward_scalar of the
  -- same register answers with the written value as the firmware clamps it.
  pub scalar_reads_back :
      (world : World) (value : Double) (node : Node Arm) (requests : List (World × Request))
      (calls : List Command)
      → (write_scalar item sub world value node).success ≡ true
      → (serve_all requests (write_scalar item sub world value node).node).issued
        ≡ calls ++ (write_scalar item sub world value node).node.issued
      → All IsRead calls
      → (read_scalar item sub
          (serve_all requests (write_scalar item sub world value node).node)).response.success
        ≡ true
      → (read_scalar item sub
          (serve_all requests (write_scalar item sub world value node).node)).response.body
        ≡ registers.clamped item sub value
  scalar_reads_back world value node requests calls ok_write trace reads ok_read =
      let wrote = write_scalar item sub world value node in
      let later = serve_all requests wrote.node in
      let (made, i, a) = serve_all-Replays requests wrote.node in
      let same : made ≡ calls = append_cancel_right made calls wrote.node.issued (sym i ∙ trace) in
      let chain : some (read_scalar item sub later).response.body
          ≡ some (registers.clamped item sub value) =
        read_told (fresh_call zero_d later) ok_read
        ∙ ap stored_in a
        ∙ replay-stored_in made wrote.node.arm (subst (All IsRead) (sym same) reads)
        ∙ written world value node ok_write in
      cc
