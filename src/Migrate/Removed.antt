-- ===== src/Migrate/Removed.antt =====
-- What removeV1Labels leaves of the labels of an object.
use rancher_flat_network.Prelude.{
  ◌≡◌, refl, true, false, [], ◌∷◌, none, if◌then◌else◌, Bool-cases, inl, inr, ap, ◌∙◌, sym,
}
use rancher_flat_network.Net.{Bytes, eq_bytes}
use rancher_flat_network.Slices.Order.{eq_of_eq_bytes}
use rancher_flat_network.Types.{Labels}
use rancher_flat_network.Maps.{look_up, delete_key}
use rancher_flat_network.Maps.Laws.{look_up-delete_key, look_up-delete_other}
use rancher_flat_network.Migrate.{is_v1_label, remove_each, remove_v1_labels}

-- What one round does to a key.
round : Bytes → Labels → Labels
round j mu = if is_v1_label j then delete_key j mu else mu

round-kept :
    (j k : Bytes) (mu : Labels)
    → (is_v1_label j ≡ true → eq_bytes j k ≡ false)
    → look_up k (round j mu) ≡ look_up k mu
unfolding round
round-kept j k mu f = elim (Bool-cases (is_v1_label j)) [
  | inl old ↦ rw old (look_up-delete_other j k mu (f old))
  | inr new ↦ rw new refl
]

itself : (k : Bytes) (mu : Labels) → look_up k mu ≡ none → look_up k (round k mu) ≡ none
unfolding round
itself k mu h = elim (Bool-cases (is_v1_label k)) [
  | inl old ↦ rw old (look_up-delete_key k mu)
  | inr new ↦ rw new h
]

gone : (j k : Bytes) (mu : Labels) → is_v1_label k ≡ true → j ≡ k → look_up k (round j mu) ≡ none
unfolding round
gone j k mu o e = rw e (rw o (look_up-delete_key k mu))

apart : (j k : Bytes) → is_v1_label k ≡ false → is_v1_label j ≡ true → eq_bytes j k ≡ false
apart j k n o = elim (Bool-cases (eq_bytes j k)) [
  | inr other ↦ other
  | inl same ↦
      let clash : true ≡ false = sym o ∙ ap is_v1_label (eq_of_eq_bytes j k same) ∙ n in absurd cc
]

round-none : (j k : Bytes) (mu : Labels) → look_up k mu ≡ none → look_up k (round j mu) ≡ none
round-none j k mu h = elim (Bool-cases (eq_bytes j k)) [
  | inl same ↦ at_same j k mu h (eq_of_eq_bytes j k same)
  | inr other ↦ round-kept j k mu (λ old. other) ∙ h
]
  where
    at_same :
        (j k : Bytes) (mu : Labels) → look_up k mu ≡ none → j ≡ k → look_up k (round j mu) ≡ none
    at_same j k mu h e = rw e (itself k mu h)

remove_each-none :
    (k : Bytes) (m mu : Labels) → look_up k mu ≡ none → look_up k (remove_each m mu) ≡ none
unfolding remove_each round
remove_each-none k [] mu h = h
remove_each-none k ((j, v) ∷ m) mu h = remove_each-none k m (round j mu) (round-none j k mu h)

remove_each-new :
    (k : Bytes) (m mu : Labels)
    → is_v1_label k ≡ false
    → look_up k (remove_each m mu) ≡ look_up k mu
unfolding remove_each round
remove_each-new k [] mu h = refl
remove_each-new k ((j, v) ∷ m) mu h =
    remove_each-new k m (round j mu) h ∙ round-kept j k mu (apart j k h)

remove_each-old :
    (k : Bytes) (m mu : Labels)
    → is_v1_label k ≡ true
    → (look_up k m ≡ none → look_up k mu ≡ none)
    → look_up k (remove_each m mu) ≡ none
unfolding remove_each round look_up
remove_each-old k [] mu o f = f refl
remove_each-old k ((j, v) ∷ m) mu o f = elim (Bool-cases (eq_bytes j k)) [
  | inl same ↦ remove_each-none k m (round j mu) (gone j k mu o (eq_of_eq_bytes j k same))
  | inr other ↦
      remove_each-old k m (round j mu) o (λ e. round-kept j k mu (λ old. other) ∙ f (rw other e))
]

-- removeV1Labels: a label of the older operator is gone, and any other is as it was.
pub remove_v1_labels-look_up :
    (k : Bytes) (m : Labels)
    → ((is_v1_label k ≡ true) → look_up k (remove_v1_labels m) ≡ none)
      × ((is_v1_label k ≡ false) → look_up k (remove_v1_labels m) ≡ look_up k m)
unfolding remove_v1_labels
remove_v1_labels-look_up k m =
    ((λ o. remove_each-old k m m o (λ e. e)), λ n. remove_each-new k m m n)
