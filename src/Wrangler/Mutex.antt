-- ===== src/Wrangler/Mutex.antt =====
-- A mutex among threads: who owns it, and what its taking and its release keep.
use rancher_flat_network.Prelude.{
  ℕ, ◌≡◌, refl, Bool, true, false, ◌==◌, arith, Bool-cases, inl, inr, sym, subst, ◌∙◌,
}
use rancher_flat_network.Wrangler.Lock.{Pc, update}

-- The mutex is taken just where one thread owns it, by the test `own` of where a thread stands.
pub record IsMutex (held : Bool) (own : Pc → Bool) (pc : ℕ → Pc) : Type 0 where
  pub unique : (i j : ℕ) → own (pc i) ≡ true → own (pc j) ≡ true → i ≡ j
  pub busy : (i : ℕ) → own (pc i) ≡ true → held ≡ true
  pub owner : held ≡ true → (i : ℕ) × (own (pc i) ≡ true)

module _ (own : Pc → Bool) (pc : ℕ → Pc) (i : ℕ) (p : Pc) where
  at_same : own (update pc i p i) ≡ own p
  at_same = ground arith

  at_other : (j : ℕ) → (i == j) ≡ false → own (update pc i p j) ≡ own (pc j)
  at_other j e = rw e refl

  pub keep :
      {held : Bool} → own p ≡ own (pc i) → IsMutex held own pc → IsMutex held own (update pc i p)
  keep {held} e m = record {
    unique = λ j k a b. m.unique j k (sym (same j) ∙ a) (sym (same k) ∙ b);
    busy = λ j a. m.busy j (sym (same j) ∙ a);
    owner = λ h. let (j, a) = m.owner h in (j, same j ∙ a);
  }
    where
      same : (j : ℕ) → own (update pc i p j) ≡ own (pc j)
      same j = elim (Bool-cases (i == j)) [
        | inl here ↦ ground (arith, e)
        | inr there ↦ at_other j there
      ]

  pub acquire : own p ≡ true → IsMutex false own pc → IsMutex true own (update pc i p)
  acquire e m = record {
    unique = λ j k a b. sym (only j a) ∙ only k b;
    busy = λ j a. refl;
    owner = λ h. (i, at_same ∙ e);
  }
    where
      only : (j : ℕ) → own (update pc i p j) ≡ true → i ≡ j
      only j a = elim (Bool-cases (i == j)) [
        | inl here ↦ ground arith
        | inr there ↦ let taken : false ≡ true = m.busy j (sym (at_other j there) ∙ a) in absurd cc
      ]

  pub release :
      {held : Bool}
      → own (pc i) ≡ true
      → own p ≡ false
      → IsMutex held own pc
      → IsMutex false own (update pc i p)
  release e f m = record {
    unique = λ j k a b. absurd (none j a);
    busy = λ j a. absurd (none j a);
    owner = λ h. absurd cc;
  }
    where
      none : (j : ℕ) → ¬ (own (update pc i p j) ≡ true)
      none j a = elim (Bool-cases (i == j)) [
        | inl here ↦
            let same : i ≡ j = ground arith in
            let b : own (update pc i p i) ≡ true =
              subst (λ k. own (update pc i p k) ≡ true) (sym same) a in
            let c : own p ≡ true = sym at_same ∙ b in cc
        | inr there ↦ let same : i ≡ j = m.unique i j e (sym (at_other j there) ∙ a) in ground arith
      ]
