-- ===== src/Maps/Laws.antt =====
-- Reads after writes of maps, and maps that are equal to themselves.
use rancher_flat_network.Prelude.{
  ◌≡◌, refl, Bool, true, false, List, [], ◌∷◌, none, some, arith, Bool-cases, inl, inr, All, subst,
  ◌∙◌,
}
use rancher_flat_network.Net.{Bytes, eq_bytes}
use rancher_flat_network.Slices.Order.{eq_bytes_refl, eq_of_eq_bytes, eq_bytes_sym}
use rancher_flat_network.Types.{set_key}
use rancher_flat_network.Maps.{look_up, delete_key, has_entry, within_map, same_map}

-- Equal keys may be put for one another.
pub eq_bytes_at : (a b k : Bytes) → eq_bytes a b ≡ true → eq_bytes a k ≡ eq_bytes b k
eq_bytes_at a b k h = let same : a ≡ b = eq_of_eq_bytes a b h in rw same refl

module _ {ℓ} {A : Type ℓ} where
  pub look_up-set_key :
      (k : Bytes) (v : A) (m : List (Bytes × A)) → look_up k (set_key k v m) ≡ some v
  unfolding look_up set_key
  look_up-set_key k v [] = let e = eq_bytes_refl k in rw e refl
  look_up-set_key k v ((j, w) ∷ m) = elim (Bool-cases (eq_bytes j k)) [
    | inl here ↦ let e = eq_bytes_refl k in rw here (rw e refl)
    | inr there ↦ rw there (rw there (look_up-set_key k v m))
  ]

  pub look_up-set_other :
      (k l : Bytes) (v : A) (m : List (Bytes × A))
      → eq_bytes k l ≡ false
      → look_up l (set_key k v m) ≡ look_up l m
  unfolding look_up set_key
  look_up-set_other k l v [] e = rw e refl
  look_up-set_other k l v ((j, w) ∷ m) e = elim (Bool-cases (eq_bytes j k)) [
    | inl here ↦ let other = eq_bytes_at j k l here in rw here (rw other (rw e refl))
    | inr there ↦ elim (Bool-cases (eq_bytes j l)) [
      | inl found ↦ rw there (rw found refl)
      | inr further ↦ rw there (rw further (look_up-set_other k l v m e))
    ]
  ]

  pub look_up-delete_key : (k : Bytes) (m : List (Bytes × A)) → look_up k (delete_key k m) ≡ none
  unfolding look_up delete_key
  look_up-delete_key k [] = refl
  look_up-delete_key k ((j, w) ∷ m) = elim (Bool-cases (eq_bytes j k)) [
    | inl here ↦ rw here (look_up-delete_key k m)
    | inr there ↦ rw there (rw there (look_up-delete_key k m))
  ]

  pub look_up-delete_other :
      (k l : Bytes) (m : List (Bytes × A))
      → eq_bytes k l ≡ false
      → look_up l (delete_key k m) ≡ look_up l m
  unfolding look_up delete_key
  look_up-delete_other k l [] e = refl
  look_up-delete_other k l ((j, w) ∷ m) e = elim (Bool-cases (eq_bytes j k)) [
    | inl here ↦
        let other = eq_bytes_at j k l here in
        rw here (rw other (rw e (look_up-delete_other k l m e)))
    | inr there ↦ elim (Bool-cases (eq_bytes j l)) [
      | inl found ↦ rw there (rw found refl)
      | inr further ↦ rw there (rw further (look_up-delete_other k l m e))
    ]
  ]

  -- No key stands twice.
  abbrev pub IsMap : List (Bytes × A) → Type 0
  IsMap [] = Unit {0}
  IsMap ((k, v) ∷ m) = All (λ e. eq_bytes e.0 k ≡ false) m × IsMap m

  set_key-Apart :
      (k l : Bytes) (v : A) (m : List (Bytes × A))
      → eq_bytes k l ≡ false
      → All (λ e. eq_bytes e.0 l ≡ false) m
      → All (λ e. eq_bytes e.0 l ≡ false) (set_key k v m)
  unfolding set_key
  set_key-Apart k l v [] e a = (e, tt)
  set_key-Apart k l v ((j, w) ∷ m) e a = elim (Bool-cases (eq_bytes j k)) [
    | inl here ↦ rw here (e, a.1)
    | inr there ↦ rw there (a.0, set_key-Apart k l v m e a.1)
  ]

  pub set_key-IsMap : (k : Bytes) (v : A) (m : List (Bytes × A)) → IsMap m → IsMap (set_key k v m)
  unfolding set_key
  set_key-IsMap k v [] h = (tt, tt)
  set_key-IsMap k v ((j, w) ∷ m) h = elim (Bool-cases (eq_bytes j k)) [
    | inl here ↦
        let same : j ≡ k = eq_of_eq_bytes j k here in
        rw here (subst (λ x. All (λ e. eq_bytes e.0 x ≡ false) m) same h.0, h.1)
    | inr there ↦
        rw there (set_key-Apart k j v m (eq_bytes_sym k j ∙ there) h.0, set_key-IsMap k v m h.1)
  ]

  module _ (same : A → A → Bool) (reflexive : (a : A) → same a a ≡ true) where
    within_cons :
        (k : Bytes) (v : A) (m n : List (Bytes × A))
        → All (λ e. eq_bytes e.0 k ≡ false) m
        → within_map same m n ≡ true
        → within_map same m ((k, v) ∷ n) ≡ true
    unfolding within_map has_entry
    within_cons k v [] n a h = refl
    within_cons k v ((j, w) ∷ m) n a h =
        let flip = eq_bytes_sym j k in let rest = within_cons k v m n a.1 in ground (arith, a.0)

    within_self : (m : List (Bytes × A)) → IsMap m → within_map same m m ≡ true
    unfolding within_map has_entry
    within_self [] h = refl
    within_self ((k, v) ∷ m) h =
        let first = eq_bytes_refl k in
        let kept = within_cons k v m m h.0 (within_self m h.1) in ground (arith, reflexive v)

    pub same_map_refl : (m : List (Bytes × A)) → IsMap m → same_map same m m ≡ true
    unfolding same_map
    same_map_refl m h = let e = within_self m h in rw e refl
