-- ===== src/Wrangler/Exclusion.antt =====
-- What holds of the locks of subnets in every reachable state.
use rancher_flat_network.Prelude.{
  ℕ, ◌≡◌, refl, Bool, true, false, ◌==◌, arith, Bool-cases, inl, inr, sym, subst, ◌∙◌, ap,
}
use rancher_flat_network.Wrangler.Lock.{
  Locks, Pc, idle, called, loaded, marked, taken, inside, released, Move, call, load, mark, take,
  return, clear, System, Step, pick, Reach, start, later, initial, update, is_ip_allocating,
}
use rancher_flat_network.Wrangler.Lock
use rancher_flat_network.Wrangler.Mutex.{IsMutex, keep, acquire, release}

-- The thread holds ipAllocateLockMutex.
abbrev pub has_global : Pc → Bool
has_global (loaded s) = true
has_global (marked s) = true
has_global (taken s) = true
has_global _ = false

-- The thread holds the mutex of the subnet.
abbrev pub owns : ℕ → Pc → Bool
owns n (taken s) = s == n
owns n (inside s) = s == n
owns n _ = false

-- The thread has set the flag of the subnet and not cleared it.
abbrev pub has_marked : ℕ → Pc → Bool
has_marked n (marked s) = s == n
has_marked n (taken s) = s == n
has_marked n (inside s) = s == n
has_marked n (released s) = s == n
has_marked n _ = false

pub record Inv (m : Locks) (pc : ℕ → Pc) : Type 0 where
  pub outer : IsMutex m.global has_global pc
  pub inner : (n : ℕ) → IsMutex (m.locked n) (owns n) pc
  pub flagged : (n : ℕ) → m.is_locked n ≡ true → (i : ℕ) × (has_marked n (pc i) ≡ true)

module _ (m : Locks) (pc : ℕ → Pc) (i : ℕ) (inv : Inv m pc) where
  outer_kept :
      {q : Pc}
      → q ≡ pc i
      → (p : Pc) → has_global p ≡ has_global q
      → IsMutex m.global has_global (update pc i p)
  outer_kept e p f = keep has_global pc i p (f ∙ ap has_global e) inv.outer

  inner_kept :
      {q : Pc}
      → q ≡ pc i
      → (p : Pc) (n : ℕ) → owns n p ≡ owns n q
      → IsMutex (m.locked n) (owns n) (update pc i p)
  inner_kept e p n f = keep (owns n) pc i p (f ∙ ap (owns n) e) (inv.inner n)

  flagged_kept :
      {q : Pc}
      → q ≡ pc i
      → (p : Pc) (n : ℕ) → (has_marked n q ≡ true → has_marked n p ≡ true)
      → m.is_locked n ≡ true
      → (j : ℕ) × (has_marked n (update pc i p j) ≡ true)
  flagged_kept e p n f h =
      let (j, a) = inv.flagged n h in
      elim (Bool-cases (i == j)) [
        | inl here ↦
            let same : j ≡ i = ground arith in
            let at_i : has_marked n (pc i) ≡ true =
              subst (λ k. has_marked n (pc k) ≡ true) same a in
            (j, rw here (f (ap (has_marked n) e ∙ at_i)))
        | inr there ↦ (j, rw there a)
      ]

  flag_of :
      (p : Pc) (n : ℕ) → has_marked n p ≡ true → (j : ℕ) × (has_marked n (update pc i p j) ≡ true)
  flag_of p n a = let here : (i == i) ≡ true = ground arith in (i, rw here a)

  Move-Inv : {q p : Pc} {m' : Locks} → q ≡ pc i → Move m q m' p → Inv m' (update pc i p)
  Move-Inv e (call {s}) = record {
    outer = outer_kept e (called s) refl;
    inner = λ n. inner_kept e (called s) n refl;
    flagged = λ n. flagged_kept e (called s) n (λ a. cc);
  }
  Move-Inv e (load {s} free) = record {
    outer =
        acquire has_global pc i (loaded s) refl
          (subst (λ b. IsMutex b has_global pc) free inv.outer);
    inner = λ n. inner_kept e (loaded s) n refl;
    flagged = λ n. flagged_kept e (loaded s) n (λ a. cc);
  }
  Move-Inv e (mark {s}) = record {
    outer = outer_kept e (marked s) refl;
    inner = λ n. inner_kept e (marked s) n refl;
    flagged = λ n h. elim (Bool-cases (s == n)) [
      | inl same ↦ flag_of (marked s) n same
      | inr other ↦ flagged_kept e (marked s) n (λ a. cc) (ground arith)
    ];
  }
  Move-Inv e (take {s} free) = record {
    outer = outer_kept e (taken s) refl;
    inner = λ n. elim (Bool-cases (s == n)) [
      | inl same ↦
          let at_n : m.locked n ≡ false = ground arith in
          rw same (
            acquire (owns n) pc i (taken s) same
              (subst (λ b. IsMutex b (owns n) pc) at_n (inv.inner n)))
      | inr other ↦ rw other (inner_kept e (taken s) n other)
    ];
    flagged = λ n. flagged_kept e (taken s) n (λ a. a);
  }
  Move-Inv e (return {s}) = record {
    outer = release has_global pc i (inside s) (sym (ap has_global e)) refl inv.outer;
    inner = λ n. inner_kept e (inside s) n refl;
    flagged = λ n. flagged_kept e (inside s) n (λ a. a);
  }
  Move-Inv e (Lock.release {s}) = record {
    outer = outer_kept e (released s) refl;
    inner = λ n. elim (Bool-cases (s == n)) [
      | inl same ↦
          rw same
            (release (owns n) pc i (released s) (sym (ap (owns n) e) ∙ same) refl (inv.inner n))
      | inr other ↦ rw other (inner_kept e (released s) n (sym other))
    ];
    flagged = λ n. flagged_kept e (released s) n (λ a. a);
  }
  Move-Inv e (clear {s}) = record {
    outer = outer_kept e idle refl;
    inner = λ n. inner_kept e idle n refl;
    flagged = λ n h. elim (Bool-cases (s == n)) [
      | inl same ↦ absurd (ground arith)
      | inr other ↦ flagged_kept e idle n (λ a. cc) (ground arith)
    ];
  }

initial-Inv : Inv initial.locks initial.pc
initial-Inv = record {
  outer = record { unique = λ i j a b. cc; busy = λ i a. cc; owner = λ h. cc };
  inner = λ n. record { unique = λ i j a b. cc; busy = λ i a. cc; owner = λ h. cc };
  flagged = λ n h. cc;
}

Step-Inv : {s t : System} → Step s t → Inv s.locks s.pc → Inv t.locks t.pc
Step-Inv {s} (pick i mv) inv = Move-Inv s.locks s.pc i inv refl mv

pub Reach-Inv : {s : System} → Reach s → Inv s.locks s.pc
Reach-Inv start = initial-Inv
Reach-Inv (later r st) = Step-Inv st (Reach-Inv r)
