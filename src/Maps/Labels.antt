-- ===== src/Maps/Labels.antt =====
-- Labels: reads after writes, where a missing key reads as "".
use rancher_flat_network.Prelude.{◌≡◌, refl, false, [], ◌∷◌, Bool-cases, inl, inr, All, ◌∙◌}
use rancher_flat_network.Net.{Bytes, eq_bytes}
use rancher_flat_network.Slices.Order.{eq_bytes_refl}
use rancher_flat_network.Types.{Labels, get_key, set_key}
use rancher_flat_network.Maps.{merge, delete_key}
use rancher_flat_network.Maps.Laws.{eq_bytes_at}

pub get_key-set_key : (k v : Bytes) (m : Labels) → get_key k (set_key k v m) ≡ v
unfolding get_key set_key
get_key-set_key k v [] = let e = eq_bytes_refl k in rw e refl
get_key-set_key k v ((j, w) ∷ m) = elim (Bool-cases (eq_bytes j k)) [
  | inl here ↦ let e = eq_bytes_refl k in rw here (rw e refl)
  | inr there ↦ rw there (rw there (get_key-set_key k v m))
]

pub get_key-set_other :
    (k l v : Bytes) (m : Labels) → eq_bytes k l ≡ false → get_key l (set_key k v m) ≡ get_key l m
unfolding get_key set_key
get_key-set_other k l v [] e = rw e refl
get_key-set_other k l v ((j, w) ∷ m) e = elim (Bool-cases (eq_bytes j k)) [
  | inl here ↦ let other = eq_bytes_at j k l here in rw here (rw other (rw e refl))
  | inr there ↦ elim (Bool-cases (eq_bytes j l)) [
    | inl found ↦ rw there (rw found refl)
    | inr further ↦ rw there (rw further (get_key-set_other k l v m e))
  ]
]

pub get_key-merge_other :
    (k : Bytes) (m n : Labels)
    → All (λ e. eq_bytes e.0 k ≡ false) m
    → get_key k (merge m n) ≡ get_key k n
unfolding merge
get_key-merge_other k [] n a = refl
get_key-merge_other k ((j, v) ∷ m) n a =
    get_key-merge_other k m (set_key j v n) a.1 ∙ get_key-set_other j k v n a.0

pub get_key-delete_key : (k : Bytes) (m : Labels) → get_key k (delete_key k m) ≡ []
unfolding get_key delete_key
get_key-delete_key k [] = refl
get_key-delete_key k ((j, w) ∷ m) = elim (Bool-cases (eq_bytes j k)) [
  | inl here ↦ rw here (get_key-delete_key k m)
  | inr there ↦ rw there (rw there (get_key-delete_key k m))
]
