-- ===== src/Maps.antt =====
-- Go maps from strings as association lists: a key stands for its first entry.
pub mod Laws
pub mod Labels
use rancher_flat_network.Prelude.{
  Bool, true, false, ◌&&◌, List, [], ◌∷◌, Option, none, some, if◌then◌else◌,
}
use rancher_flat_network.Net.{Bytes, eq_bytes}
use rancher_flat_network.Types.{set_key}

module _ {ℓ} {A : Type ℓ} where
  -- `v, ok := m[k]`
  unfoldable pub look_up : Bytes → List (Bytes × A) → Option A
  look_up k [] = none
  look_up k ((j, v) ∷ m) = if eq_bytes j k then some v else look_up k m

  -- `delete(m, k)`
  unfoldable pub delete_key : Bytes → List (Bytes × A) → List (Bytes × A)
  delete_key k [] = []
  delete_key k ((j, v) ∷ m) =
      let rest = delete_key k m in if eq_bytes j k then rest else (j, v) ∷ rest

  -- Every entry of the first map, set in the second one.
  unfoldable pub merge : List (Bytes × A) → List (Bytes × A) → List (Bytes × A)
  merge [] n = n
  merge ((k, v) ∷ m) n = merge m (set_key k v n)

  module _ (same : A → A → Bool) where
    unfoldable pub has_entry : Bytes → A → List (Bytes × A) → Bool
    has_entry k v [] = false
    has_entry k v ((j, w) ∷ m) = if eq_bytes j k then same w v else has_entry k v m

    unfoldable pub within_map : List (Bytes × A) → List (Bytes × A) → Bool
    within_map [] n = true
    within_map ((k, v) ∷ m) n = has_entry k v n && within_map m n

    -- reflect.DeepEqual: the same keys with the same values.
    unfoldable pub same_map : List (Bytes × A) → List (Bytes × A) → Bool
    same_map m n = within_map m n && within_map n m
