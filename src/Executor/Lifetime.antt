-- ===== src/Executor/Lifetime.antt =====
-- A handler and the end of the session, step by step: `run_command` (service_helpers.hpp), which takes
-- `arm_.get()`, reads the link and makes its call, against `arm_->close()` and `arm_.reset()` of
-- `on_cleanup` and `on_shutdown` (litearm_driver/src/litearm_driver_node.cpp).
use litearm_ros.Prelude.{ℕ, Bool, true, false, ◌&&◌, not, ◌≡◌, ◌↔◌, refl, arith, if◌then◌else◌}
use litearm_ros.Service.{Request}
use litearm_ros.Executor.{
  Group, sdk_group, default_group, group_type, same_group, service_group, HasRoom,
}

-- Where a handler is: it has taken the pointer (null or not), or its SDK call is on its way.
pub data HandlerPoint : Type 0 where
  not_started : HandlerPoint
  has_pointer : Bool → HandlerPoint
  in_call returned : HandlerPoint

-- Where the callback is that closes the session.
pub data CloserPoint : Type 0 where
  not_begun closing closed finished : CloserPoint

-- `held`: `arm_` is not null. `alive`: the object that it pointed to is not destroyed.
pub record Threads : Type 0 where
  pub handler : HandlerPoint
  pub closer : CloserPoint
  pub held : Bool
  pub alive : Bool
  pub linked : Bool

abbrev pub handler_runs : HandlerPoint → Bool
handler_runs (has_pointer present) = true
handler_runs in_call = true
handler_runs _ = false

abbrev pub closer_runs : CloserPoint → Bool
closer_runs closing = true
closer_runs closed = true
closer_runs _ = false

-- The handler has a pointer to the session that it reads, or calls.
abbrev pub uses_session : HandlerPoint → Bool
uses_session (has_pointer present) = present
uses_session in_call = true
uses_session _ = false

-- Callbacks of one group that run, given that the other one does or not.
abbrev busy_with : Group → Group → Bool → ℕ
busy_with g h runs = if same_group g h && runs then 1 else 0

-- One step of either thread. `g` is the group of the handler and `h` that of the closing callback.
pub data Move (g h : Group) : Threads → Threads → Type 0 where
  take :
      (s : Threads)
      → s.handler ≡ not_started
      → HasRoom (group_type g) (busy_with g h (closer_runs s.closer))
      → Move g h s (record s { handler = has_pointer s.held })
  refuse :
      (s : Threads) (present : Bool)
      → s.handler ≡ has_pointer present
      → present && s.linked ≡ false
      → Move g h s (record s { handler = returned })
  call :
      (s : Threads)
      → s.handler ≡ has_pointer true
      → s.linked ≡ true
      → Move g h s (record s { handler = in_call })
  finish : (s : Threads) → s.handler ≡ in_call → Move g h s (record s { handler = returned })
  begin :
      (s : Threads)
      → s.closer ≡ not_begun
      → HasRoom (group_type h) (busy_with h g (handler_runs s.handler))
      → Move g h s (record s { closer = if s.held then closing else finished })
  close :
      (s : Threads) → s.closer ≡ closing → Move g h s (record s { closer = closed; linked = false })
  destroy :
      (s : Threads)
      → s.closer ≡ closed
      → Move g h s (record s { closer = finished; held = false; alive = false })

pub data Interleaves (g h : Group) (from : Threads) : Threads → Type 0 where
  here : Interleaves g h from from
  then_move : {s t : Threads} → Interleaves g h from s → Move g h s t → Interleaves g h from t

-- A handler is about to use a session that is destroyed.
abbrev pub IsDangling : Threads → Type 0
IsDangling s = (uses_session s.handler ≡ true) × (s.alive ≡ false)

-- A node with a linked session, and a request and a cleanup to come.
abbrev pub connected_start : Threads
connected_start = record {
  handler = not_started;
  closer = not_begun;
  held = true;
  alive = true;
  linked = true;
}

-- What one group guarantees.
abbrev IsOrdered : Threads → Type 0
IsOrdered s =
    (s.held ≡ s.alive)
    × (handler_runs s.handler && closer_runs s.closer ≡ false)
    × (uses_session s.handler && not s.alive ≡ false)

Move-IsOrdered : {s t : Threads} → Move sdk_group sdk_group s t → IsOrdered s → IsOrdered t
Move-IsOrdered (take s at room) o = ground arith
Move-IsOrdered (refuse s present at barred) o = ground arith
Move-IsOrdered (call s at up) o = ground arith
Move-IsOrdered (finish s at) o = ground arith
Move-IsOrdered (begin s at room) o = ground arith
Move-IsOrdered (close s at) o = ground arith
Move-IsOrdered (destroy s at) o = ground arith

ordered : (s : Threads) → Interleaves sdk_group sdk_group connected_start s → IsOrdered s
ordered _ here = (refl, refl, refl)
ordered _ (then_move {s} path move) = Move-IsOrdered move (ordered s path)

not_dangling : (s : Threads) → IsOrdered s → IsDangling s → ⊥
not_dangling s o d = absurd (ground (arith, o, d))

-- The handler's call is on its way when the session is destroyed.
overtaken : (s : Threads) × Interleaves sdk_group default_group connected_start s × IsDangling s
overtaken = (
  _,
  then_move
      (then_move
        (then_move (then_move (then_move here (take connected_start refl refl)) (call _ refl refl))
          (begin _ refl refl))
        (close _ refl))
      (destroy _ refl),
  (refl, refl),
)

by_group :
    (h : Group)
    → ((s : Threads) × Interleaves sdk_group h connected_start s × IsDangling s)
      ↔ (same_group sdk_group h ≡ false)
by_group sdk_group =
    (λ found. absurd (not_dangling found.0 (ordered found.0 found.1) found.2), λ e. absurd cc)
by_group default_group = (λ found. refl, λ e. overtaken)

-- Some interleaving of a handler with the callback that closes the session lets the handler use the
-- session when it is destroyed, exactly when that callback is not in the group of the service
-- handlers.
pub lifetime_needs_one_group :
    (request : Request) (h : Group)
    → ((s : Threads) × Interleaves (service_group request) h connected_start s × IsDangling s)
      ↔ (same_group (service_group request) h ≡ false)
lifetime_needs_one_group request h = by_group h
