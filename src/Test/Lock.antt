-- ===== src/Test/Lock.antt =====
-- Two threads that take the lock of subnet 0: the first is inside, the second waits for the mutex of the
-- subnet; and a third state, where the first has let the mutex go and not yet cleared the flag.
use rancher_flat_network.Prelude.{ℕ, ◌≡◌, refl, true, false}
use rancher_flat_network.Wrangler.Lock.{
  Locks, Pc, called, loaded, marked, taken, inside, released, idle, Move, call, load, mark, take,
  return, clear, System, Step, pick, Reach, start, later, initial, update, is_ip_allocating,
}
use rancher_flat_network.Wrangler.Lock
use rancher_flat_network.Wrangler.Safety.{CanMove, mutual_exclusion, no_deadlock, no_entrance}

abbrev moved : System → ℕ → Locks → Pc → System
moved s i m p = record { locks = m; pc = update s.pc i p }

abbrev go :
    {s : System} (i : ℕ) {m : Locks} {p : Pc}
    → Move s.locks (s.pc i) m p
    → Reach s
    → Reach (moved s i m p)
go i mv r = later r (pick i mv)

abbrev entered : (s : System) × Reach s
entered = (
  _,
  go 0 (return {s = 0}) (
      go 0 (take {s = 0} refl)
        (go 0 (mark {s = 0}) (go 0 (load {s = 0} refl) (go 0 (call {s = 0}) start)))),
)

abbrev waiting : (s : System) × Reach s
waiting = (_, go 1 (mark {s = 0}) (go 1 (load {s = 0} refl) (go 1 (call {s = 0}) entered.1)))

-- The second thread comes in once the first has let the mutex go, and then the first clears the flag.
abbrev overtaken : (s : System) × Reach s
overtaken = (
  _,
  go 0 (clear {s = 0})
      (go 1 (return {s = 0}) (go 1 (take {s = 0} refl) (go 0 (Lock.release {s = 0}) waiting.1))),
)

is_ip_allocating-overtaken :
    (overtaken.0.pc 1 ≡ inside 0) × (is_ip_allocating overtaken.0 0 ≡ false)
unfolding is_ip_allocating
is_ip_allocating-overtaken = (refl, refl)

mutual_exclusion_example : ◌≡◌ {A = ℕ} 0 0
mutual_exclusion_example = mutual_exclusion entered.0 0 0 0 entered.1 refl refl

no_deadlock_example : (j : ℕ) × CanMove waiting.0 j
no_deadlock_example = no_deadlock waiting.0 waiting.1 1 (λ e. cc)

no_entrance_example :
    ¬ Move waiting.0.locks (called 7) (record (waiting.0.locks) { global = true }) (loaded 7)
no_entrance_example =
    no_entrance waiting.0 waiting.1 0 7 1 refl (record (waiting.0.locks) { global = true })
      (loaded 7)
