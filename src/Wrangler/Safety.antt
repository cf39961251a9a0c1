-- ===== src/Wrangler/Safety.antt =====
-- What the lock of a subnet promises: exclusion and progress, and what its flag says.
use rancher_flat_network.Prelude.{
  ℕ, ◌≡◌, ◌≢◌, refl, true, ◌==◌, arith, Bool-cases, inl, inr, sym, subst, ◌∙◌, ap,
}
use rancher_flat_network.Wrangler.Lock.{
  Locks, Pc, idle, called, loaded, marked, taken, inside, released, Move, call, load, mark, take,
  return, clear, System, Step, pick, Reach, is_ip_allocating,
}
use rancher_flat_network.Wrangler.Lock
use rancher_flat_network.Wrangler.Exclusion.{has_global, owns, has_marked, Reach-Inv}

-- In no reachable state are two threads behind IPAllocateLock of one subnet.
pub mutual_exclusion :
    (s : System) (n i j : ℕ) → Reach s → s.pc i ≡ inside n → s.pc j ≡ inside n → i ≡ j
mutual_exclusion s n i j r at_i at_j =
    let inv = Reach-Inv r in (inv.inner n).unique i j (own i at_i) (own j at_j)
  where
    own : (k : ℕ) → s.pc k ≡ inside n → owns n (s.pc k) ≡ true
    own k e = let same : (n == n) ≡ true = ground arith in ap (owns n) e ∙ same

-- In every reachable state in which IsIPAllocating is true of a subnet, some thread is between the
-- setting of its flag in lock and the clearing of it in unlock.
pub is_ip_allocating-has_marked :
    (s : System) (n : ℕ)
    → Reach s
    → is_ip_allocating s n ≡ true
    → (i : ℕ) × (has_marked n (s.pc i) ≡ true)
unfolding is_ip_allocating
is_ip_allocating-has_marked s n r h = (Reach-Inv r).flagged n h

-- The thread can make a move that is not a new call.
abbrev pub CanMove : System → ℕ → Type 0
CanMove s i = (s.pc i ≢ idle) × ((m : Locks) × (p : Pc) × Move s.locks (s.pc i) m p)

moves :
    (s : System) (i : ℕ) (q : Pc)
    → s.pc i ≡ q
    → q ≢ idle
    → (m : Locks) (p : Pc) → Move s.locks q m p
    → CanMove s i
moves s i q e busy m p mv =
    ((λ f. busy (sym e ∙ f)), (m, p, subst (λ x. Move s.locks x m p) (sym e) mv))

-- The owner of the mutex of a subnet can go on.
owner_moves : (s : System) (n i : ℕ) (q : Pc) → s.pc i ≡ q → owns n q ≡ true → CanMove s i
owner_moves s n i (taken t) e o = moves s i (taken t) e (λ f. cc) _ _ return
owner_moves s n i (inside t) e o = moves s i (inside t) e (λ f. cc) _ _ Lock.release
owner_moves s n i idle e o = absurd cc
owner_moves s n i (called t) e o = absurd cc
owner_moves s n i (loaded t) e o = absurd cc
owner_moves s n i (marked t) e o = absurd cc
owner_moves s n i (released t) e o = absurd cc

module _ (s : System) (r : Reach s) where
  -- A thread that waits for the mutex of a subnet can go on, or its owner can.
  waiting_moves : (n i : ℕ) → s.pc i ≡ marked n → (j : ℕ) × CanMove s j
  waiting_moves n i e = elim (Bool-cases (s.locks.locked n)) [
    | inr free ↦ (i, moves s i (marked n) e (λ f. cc) _ _ (take free))
    | inl held ↦
        let (j, o) = ((Reach-Inv r).inner n).owner held in (j, owner_moves s n j (s.pc j) refl o)
  ]

  holder_moves : (i : ℕ) (q : Pc) → s.pc i ≡ q → has_global q ≡ true → (j : ℕ) × CanMove s j
  holder_moves i (loaded n) e g = (i, moves s i (loaded n) e (λ f. cc) _ _ mark)
  holder_moves i (marked n) e g = waiting_moves n i e
  holder_moves i (taken n) e g = (i, moves s i (taken n) e (λ f. cc) _ _ return)
  holder_moves i idle e g = absurd cc
  holder_moves i (called n) e g = absurd cc
  holder_moves i (inside n) e g = absurd cc
  holder_moves i (released n) e g = absurd cc

  progress_at : (i : ℕ) (q : Pc) → s.pc i ≡ q → q ≢ idle → (j : ℕ) × CanMove s j
  progress_at i idle e busy = absurd (busy refl)
  progress_at i (called n) e busy = elim (Bool-cases s.locks.global) [
    | inr free ↦ (i, moves s i (called n) e (λ f. cc) _ _ (load free))
    | inl held ↦ let (j, g) = (Reach-Inv r).outer.owner held in holder_moves j (s.pc j) refl g
  ]
  progress_at i (loaded n) e busy = holder_moves i (loaded n) e refl
  progress_at i (marked n) e busy = holder_moves i (marked n) e refl
  progress_at i (taken n) e busy = holder_moves i (taken n) e refl
  progress_at i (inside n) e busy = (i, moves s i (inside n) e busy _ _ Lock.release)
  progress_at i (released n) e busy = (i, moves s i (released n) e busy _ _ clear)

  -- No deadlock: in every reachable state in which some thread is not idle, some thread that is not
  -- idle can make a move.
  pub no_deadlock : (i : ℕ) → s.pc i ≢ idle → (j : ℕ) × CanMove s j
  no_deadlock i busy = progress_at i (s.pc i) refl busy

  -- In every reachable state in which a thread waits for the mutex of one subnet, no thread can come
  -- past the start of IPAllocateLock, of whatever subnet.
  pub no_entrance :
      (n k i : ℕ) → s.pc i ≡ marked n → (m : Locks) (p : Pc) → ¬ Move s.locks (called k) m p
  no_entrance n k i waits m p (load free) =
      let held : s.locks.global ≡ true = (Reach-Inv r).outer.busy i (ap has_global waits) in cc
