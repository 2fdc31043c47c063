-- ===== src/System/Consent.antt =====
-- What no run of a node sends to the device while its parameters do not allow it.
use litearm_ros.Prelude.{Bool, true, false, Bool-cases, List, ◌≡◌, inl, inr, All, arith}
use litearm_ros.Sdk.{
  Command, Sdk, movej, movej_sync, move_p, move_l, move_js, send_mit, send_mit_all, home, move_c,
  move_path, enter_dfu,
}
use litearm_ros.Node.{Node, Parameters}
use litearm_ros.Node.Growth.{Issues, Issues.same, Issues.more}
use litearm_ros.Policy.{Permitted, AllowsMotion}
use litearm_ros.Lifecycle.{new_node}
use litearm_ros.System.{System, step, Reaches, stay, advance, launched}
use litearm_ros.System.Calls.{IsLifecycle, Keeps, Justified, reacting}

-- The calls of the motion services.
abbrev pub is_motion : Command → Bool
is_motion (movej q v) = true
is_motion (movej_sync q v) = true
is_motion (move_p p v w) = true
is_motion (move_l p v w) = true
is_motion (move_js q dq tau) = true
is_motion (send_mit j q dq kp kd tau) = true
is_motion (send_mit_all q dq kp kd tau) = true
is_motion home = true
is_motion (move_c a b c v w) = true
is_motion (move_path ps v w) = true
is_motion _ = false

abbrev pub is_dfu : Command → Bool
is_dfu enter_dfu = true
is_dfu _ = false

lifecycle_only : (c : Command) → IsLifecycle c → (is_motion c ≡ false) × (is_dfu c ≡ false)
lifecycle_only c h = ground arith

Issues-keep :
    {P Q : Command → Type 0} {before after : List Command}
    → ((c : Command) → P c → Q c)
    → Issues P before after
    → All Q before
    → All Q after
Issues-keep w same h = h
Issues-keep w (more c p rest) h = (w c p, Issues-keep w rest h)

module _ {Arm : Type 0} ⦃sdk : Sdk Arm⦄ where
  -- What the policy denies while the parameters satisfy `I`, no run that keeps `I` does.
  guarded :
      (Q : Command → Type 0) (I : Parameters → Type 0) (parameters : Parameters)
      (system : System Arm)
      → ((node : Node Arm) (c : Command) → I node.parameters → Justified node c → Q c)
      → I parameters
      → Reaches (Keeps I) (launched parameters) system
      → I system.node.parameters × All Q system.node.issued
  unfolding new_node step
  guarded Q I parameters _ allows h stay = (h, tt)
  guarded Q I parameters _ allows h (advance {system} event k path) =
      let (now, all) = guarded Q I parameters system allows h path in
      let (i, keeps) = reacting I event system.phase system.node in
      (keeps k now, Issues-keep (λ c j. allows system.node c now j) i all)

  motion-Permitted :
      (node : Node Arm) (c : Command) → Permitted node c → is_motion c ≡ true → AllowsMotion node
  motion-Permitted node (movej q v) p e = p.0
  motion-Permitted node (movej_sync q v) p e = p.0
  motion-Permitted node (move_p pose v w) p e = p.0
  motion-Permitted node (move_l pose v w) p e = p.0
  motion-Permitted node (move_js q dq tau) p e = p.0
  motion-Permitted node (send_mit j q dq kp kd tau) p e = p.0
  motion-Permitted node (send_mit_all q dq kp kd tau) p e = p.0
  motion-Permitted node home p e = p
  motion-Permitted node (move_c a b c v w) p e = p.0
  motion-Permitted node (move_path ps v w) p e = p.0
  motion-Permitted node c p e = absurd (ground arith)

  dfu-Permitted :
      (node : Node Arm) (c : Command)
      → Permitted node c
      → is_dfu c ≡ true
      → node.parameters.allow_dfu ≡ true
  dfu-Permitted node enter_dfu p e = p
  dfu-Permitted node c p e = absurd (ground arith)

  motionless :
      (node : Node Arm) (c : Command)
      → node.parameters.allow_motion ≡ false
      → Justified node c
      → is_motion c ≡ false
  motionless node c h (inl own) = (lifecycle_only c own).0
  motionless node c h (inr p) = elim (Bool-cases (is_motion c)) [
    | inl moves ↦ absurd (ground (arith, motion-Permitted node c p moves))
    | inr quiet ↦ quiet
  ]

  dfuless :
      (node : Node Arm) (c : Command)
      → node.parameters.allow_dfu ≡ false
      → Justified node c
      → is_dfu c ≡ false
  dfuless node c h (inl own) = (lifecycle_only c own).1
  dfuless node c h (inr p) = elim (Bool-cases (is_dfu c)) [
    | inl enters ↦ absurd (ground (arith, dfu-Permitted node c p enters))
    | inr quiet ↦ quiet
  ]

  -- From a launch with `allow_motion` false, through events none of which sets it to true, the node
  -- never makes any of the ten SDK calls of the motion services (the joint, pose, frame and path motions
  -- and home). Enabling, parking and zero gravity are not among them.
  pub no_motion_without_consent :
      (parameters : Parameters) (system : System Arm)
      → parameters.allow_motion ≡ false
      → Reaches (Keeps λ p. p.allow_motion ≡ false) (launched parameters) system
      → All (λ c. is_motion c ≡ false) system.node.issued
  no_motion_without_consent parameters system h path =
      (guarded (λ c. is_motion c ≡ false) (λ p. p.allow_motion ≡ false) parameters system motionless
        h path).1

  -- From a launch with `allow_dfu` false, through events none of which sets it to true, the node never
  -- sends the device into DFU.
  pub no_dfu_without_consent :
      (parameters : Parameters) (system : System Arm)
      → parameters.allow_dfu ≡ false
      → Reaches (Keeps λ p. p.allow_dfu ≡ false) (launched parameters) system
      → All (λ c. is_dfu c ≡ false) system.node.issued
  no_dfu_without_consent parameters system h path =
      (guarded (λ c. is_dfu c ≡ false) (λ p. p.allow_dfu ≡ false) parameters system dfuless h
        path).1
