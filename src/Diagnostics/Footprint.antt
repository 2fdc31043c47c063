-- ===== src/Diagnostics/Footprint.antt =====
-- What the services of litearm_driver/src/litearm_driver_diagnostics.cpp that are more than one plain
-- SDK call touch in the node.
use litearm_ros.Prelude.{
  false, Bool-cases, Option, none, some, [], ◌∷◌, String, ◌≡◌, refl, inl, inr, arith, ap, sym,
}
use litearm_ros.Sdk.{
  Command, Result, ok, threw, Sdk, reconnect, read_license, get_tcp, LicenseInfo, Stamped, Pose,
}
use litearm_ros.Node.{Node, issue, connected, is_linked}
use litearm_ros.Node.Effect.{settled}
use litearm_ros.Node.Footprint.{after_call, replay, Tidy, idle-Tidy, plain-Tidy}
use litearm_ros.Diagnostics.Effect.{
  rebuilt, rebuilt_on, relicensed, keep_license, tool_located, located_on, located, log_dumped,
  dumped_into,
}

module _ {Arm : Type 0} ⦃sdk : Sdk Arm⦄ where
  licensed-Tidy :
      (answer : Result LicenseInfo) (arm : Arm) (node : Node Arm)
      → some arm ≡ replay (read_license ∷ reconnect ∷ []) node.arm
      → Tidy 2 node (
          settled keep_license (
            answer,
            record node { arm = some arm; issued = read_license ∷ reconnect ∷ node.issued },
          ))
  licensed-Tidy (ok info) arm node a =
      ((read_license ∷ reconnect ∷ [], refl, a, ground arith), inl refl, λ h. (h.0, inl refl))
  licensed-Tidy (threw text) arm node a =
      ((read_license ∷ reconnect ∷ [], refl, a, ground arith), inr refl, λ h. (h.0, inl refl))

  relicensed-Tidy :
      (answer : Result (Unit {0})) (arm : Arm) (node : Node Arm)
      → some arm ≡ replay (reconnect ∷ []) node.arm
      → Tidy 2 node
          (relicensed (answer, record node { arm = some arm; issued = reconnect ∷ node.issued }))
  unfolding issue
  relicensed-Tidy (ok _) arm node a =
      licensed-Tidy (sdk.exec read_license arm).0 (sdk.exec read_license arm).1 node
        (ap (after_call read_license) a)
  relicensed-Tidy (threw text) arm node a =
      ((reconnect ∷ [], refl, a, ground arith), inr refl, λ h. (h.0, inl refl))

  rebuilt_on-Tidy :
      (session : Option Arm) (node : Node Arm)
      → node.arm ≡ session
      → Tidy 2 node (rebuilt_on session node)
  unfolding issue
  rebuilt_on-Tidy none node e = idle-Tidy 2 false node
  rebuilt_on-Tidy (some arm) node e =
      relicensed-Tidy (sdk.exec reconnect arm).0 (sdk.exec reconnect arm).1 node
        (ap (after_call reconnect) (sym e))

  pub rebuilt-Tidy : (node : Node Arm) → Tidy 2 node (rebuilt node)
  unfolding rebuilt
  rebuilt-Tidy node = rebuilt_on-Tidy node.arm node refl

  located-Tidy :
      (answer : Result (Stamped (Option Pose))) (arm : Arm) (node : Node Arm)
      → some arm ≡ replay (get_tcp ∷ []) node.arm
      → Tidy 1 node
          (located (answer, record node { arm = some arm; issued = get_tcp ∷ node.issued }))
  located-Tidy (ok found) arm node a =
      ((get_tcp ∷ [], refl, a, ground arith), inr refl, λ h. (h.0, inl refl))
  located-Tidy (threw text) arm node a =
      ((get_tcp ∷ [], refl, a, ground arith), inr refl, λ h. (h.0, inl refl))

  located_on-Tidy :
      (session : Option Arm) (node : Node Arm)
      → node.arm ≡ session
      → Tidy 1 node (located_on session node)
  unfolding issue
  located_on-Tidy none node e = idle-Tidy 1 false node
  located_on-Tidy (some arm) node e = elim (Bool-cases (sdk.is_connected arm)) [
    | inl up ↦ rw up (
        located-Tidy (sdk.exec get_tcp arm).0 (sdk.exec get_tcp arm).1 node
          (ap (after_call get_tcp) (sym e)))
    | inr down ↦ rw down (idle-Tidy 1 false node)
  ]

  pub tool_located-Tidy : (node : Node Arm) → Tidy 1 node (tool_located node)
  unfolding tool_located
  tool_located-Tidy node = located_on-Tidy node.arm node refl

  dumped_into-Tidy :
      (made : Result (Unit {0})) (c : Command) (node : Node Arm)
      → Tidy 1 node (dumped_into made c node)
  dumped_into-Tidy (ok _) c node = plain-Tidy c node
  dumped_into-Tidy (threw text) c node = idle-Tidy 1 false node

  pub log_dumped-Tidy :
      (create_directories : String → Result (Unit {0})) (c : Command) (node : Node Arm)
      → Tidy 1 node (log_dumped create_directories c node)
  unfolding log_dumped
  log_dumped-Tidy create_directories c node = elim (Bool-cases (connected node)) [
    | inl up ↦ rw up (dumped_into-Tidy (create_directories node.log_dir) c node)
    | inr down ↦ rw down (idle-Tidy 1 false node)
  ]

  located_on_unlinked :
      (session : Option Arm) (node : Node Arm)
      → is_linked session ≡ false
      → located_on session node ≡ (false, node)
  located_on_unlinked none node down = refl
  located_on_unlinked (some arm) node down = rw down refl

  pub tool_located_unlinked :
      (node : Node Arm) → connected node ≡ false → tool_located node ≡ (false, node)
  unfolding tool_located connected
  tool_located_unlinked node down = located_on_unlinked node.arm node down

  pub log_dumped_unlinked :
      (create_directories : String → Result (Unit {0})) (c : Command) (node : Node Arm)
      → connected node ≡ false
      → log_dumped create_directories c node ≡ (false, node)
  unfolding log_dumped
  log_dumped_unlinked create_directories c node down = rw down refl
