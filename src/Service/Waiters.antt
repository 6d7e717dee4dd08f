-- ===== src/Service/Waiters.antt =====
-- The register of waiting reads (internal/service/service.go).
use tuplespace.Base.{
  ℕ, suc, ◌+◌, ◌/◌, ◌%◌, ◌<◌, ◌≡◌, refl, Bool, not, List, [], ◌∷◌, Text, codes, ltb, ◌==◌, ==_refl,
  keep, if◌then◌else◌, arith,
}
use tuplespace.Types.{Template}

-- A time is a number of nanoseconds.
pub record WaiterInfo : Type 0 where
  pub id : ℕ
  pub space : Text
  pub operation : Text
  pub wait_ms : ℕ
  pub started_at : ℕ
  pub template : Template

pub record Register : Type 0 where
  pub next_waiter_id : ℕ
  pub active_waiters : List WaiterInfo

abbrev pub u64 : ℕ → ℕ
u64 n = n % 18446744073709551616

unfoldable pub without_waiter : ℕ → List WaiterInfo → List WaiterInfo
without_waiter id = keep (λ w. not (w.id == id))

-- wait.Milliseconds() of a wait in nanoseconds
abbrev pub milliseconds : ℕ → ℕ
milliseconds wait = wait / 1000000

-- The entry of an identifier in use would be replaced.
unfoldable pub register_waiter : Text → Template → ℕ → Bool → ℕ → Register → Register × ℕ
unfolding without_waiter
register_waiter space template wait destructive now r =
    let id = u64 (r.next_waiter_id + 1) in
    let info : WaiterInfo = record {
      id = id;
      space = space;
      operation = if destructive then codes "in" else codes "rd";
      wait_ms = milliseconds wait;
      started_at = now;
      template = template;
    } in
    (record { next_waiter_id = id; active_waiters = info ∷ without_waiter id r.active_waiters }, id)

unfoldable pub unregister_waiter : ℕ → Register → Register
unfolding without_waiter
unregister_waiter id r = record r { active_waiters = without_waiter id r.active_waiters }

-- The order of `waitersSnapshot`.
unfoldable pub before : WaiterInfo → WaiterInfo → Bool
before a b = if a.started_at == b.started_at then ltb a.id b.id else ltb a.started_at b.started_at

unfoldable pub insert_sorted : WaiterInfo → List WaiterInfo → List WaiterInfo
unfolding before
insert_sorted w [] = w ∷ []
insert_sorted w (x ∷ xs) = if before x w then x ∷ insert_sorted w xs else w ∷ x ∷ xs

-- sort.Slice with that order
unfoldable pub sort_waiters : List WaiterInfo → List WaiterInfo
unfolding insert_sorted
sort_waiters [] = []
sort_waiters (w ∷ ws) = insert_sorted w (sort_waiters ws)

unfoldable pub waiters_snapshot : Register → List WaiterInfo
unfolding sort_waiters
waiters_snapshot r = sort_waiters r.active_waiters

-- `next_waiter_id` is the largest identifier so far.
abbrev pub AllBelow : ℕ → List WaiterInfo → Type 0
AllBelow n [] = Unit
AllBelow n (w ∷ ws) = (w.id < suc n) × AllBelow n ws

without_waiter-new :
    (n id : ℕ) (ws : List WaiterInfo) → AllBelow n ws → n < id → without_waiter id ws ≡ ws
unfolding without_waiter
without_waiter-new n id [] h lt = refl
without_waiter-new n id (w ∷ ws) (b, h) lt = ground (arith, without_waiter-new n id ws h lt)

forget_new :
    (n id : ℕ) (w : WaiterInfo) (ws : List WaiterInfo)
    → AllBelow n ws
    → n < id
    → w.id ≡ id
    → without_waiter id (w ∷ without_waiter id ws) ≡ ws
unfolding without_waiter
forget_new n id w ws h lt same =
    rw (without_waiter-new n id ws h lt)
      (rw same (rw (==_refl id) (without_waiter-new n id ws h lt)))

-- A waiter that is registered and then unregistered leaves the other waiters as they were, as long as
-- the counter does not wrap.
pub unregister-register :
    (space : Text) (template : Template) (wait : ℕ) (destructive : Bool) (now : ℕ) (r : Register)
    → AllBelow r.next_waiter_id r.active_waiters
    → r.next_waiter_id + 1 < 18446744073709551616
    → let (r', id) = register_waiter space template wait destructive now r in
      (unregister_waiter id r').active_waiters ≡ r.active_waiters
unfolding register_waiter unregister_waiter
unregister-register space template wait destructive now r h small =
    let n = r.next_waiter_id in
    let exact : u64 (n + 1) ≡ n + 1 = omega arith in
    forget_new n (u64 (n + 1)) _ r.active_waiters h (omega arith) refl
