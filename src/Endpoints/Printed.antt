-- ===== src/Endpoints/Printed.antt =====
-- A network selection that is written as namespace/name@interface is read back.
use rancher_flat_network.Prelude.{
  ℕ, ◌≡◌, refl, Bool, true, false, ◌&&◌, [], ◌∷◌, ◌++◌, arith, All, ◌==◌, ◌∙◌, ap,
}
use rancher_flat_network.Net.{Bytes}
use rancher_flat_network.Types.{ok}
use rancher_flat_network.Common.Annotation.{split}
use rancher_flat_network.Endpoints.Selection.{
  is_alnum, is_name_char, is_name_tail, is_valid_name, is_valid_unit, namespace_units,
  interface_units, checked_element, parse_pod_network_selection_element,
}

-- The separator is not in the text.
Lacks : ℕ → Bytes → Type 0
Lacks sep = All (λ c. (c == sep) ≡ false)

split-Lacks : (sep : ℕ) (s : Bytes) → Lacks sep s → split sep s ≡ s ∷ []
unfolding split Lacks
split-Lacks sep [] h = refl
split-Lacks sep (c ∷ s) h =
    let ih = split-Lacks sep s h.1 in let first = h.0 in rw first (rw ih refl)

split-append : (sep : ℕ) (s t : Bytes) → Lacks sep s → split sep (s ++ sep ∷ t) ≡ s ∷ split sep t
unfolding split Lacks
split-append sep [] t h = let same : (sep == sep) ≡ true = ground arith in rw same refl
split-append sep (c ∷ s) t h =
    let ih = split-append sep s t h.1 in let first = h.0 in rw first (rw ih refl)

-- A name has no `/` and no `@`.
IsPlain : Bytes → Type 0
IsPlain s = Lacks b'/' s × Lacks b'@' s

alnum_apart : (c : ℕ) → is_alnum c ≡ true → ((c == b'/') ≡ false) × ((c == b'@') ≡ false)
unfolding is_alnum
alnum_apart c h = ground (arith, h)

name_char_apart : (c : ℕ) → is_name_char c ≡ true → ((c == b'/') ≡ false) × ((c == b'@') ≡ false)
unfolding is_name_char is_alnum
name_char_apart c h = ground (arith, h)

cons-IsPlain :
    (c : ℕ) (s : Bytes)
    → ((c == b'/') ≡ false) × ((c == b'@') ≡ false)
    → IsPlain s
    → IsPlain (c ∷ s)
unfolding IsPlain Lacks
cons-IsPlain c s h k = ((h.0, k.0), (h.1, k.1))

left_true : (a b : Bool) → (a && b) ≡ true → a ≡ true
left_true a b h = ground arith

right_true : (a b : Bool) → (a && b) ≡ true → b ≡ true
right_true a b h = ground arith

name_tail-IsPlain : (s : Bytes) → is_name_tail s ≡ true → IsPlain s
unfolding is_name_tail IsPlain Lacks
name_tail-IsPlain [] h = (tt, tt)
name_tail-IsPlain (c ∷ []) h = cons-IsPlain c [] (alnum_apart c h) (tt, tt)
name_tail-IsPlain (c ∷ d ∷ s) h =
    cons-IsPlain c (d ∷ s) (name_char_apart c (left_true (is_name_char c) (is_name_tail (d ∷ s)) h))
      (name_tail-IsPlain (d ∷ s) (right_true (is_name_char c) (is_name_tail (d ∷ s)) h))

valid_name-IsPlain : (s : Bytes) → is_valid_name s ≡ true → IsPlain s
unfolding is_valid_name IsPlain Lacks
valid_name-IsPlain [] h = (tt, tt)
valid_name-IsPlain (c ∷ []) h = cons-IsPlain c [] (alnum_apart c h) (tt, tt)
valid_name-IsPlain (c ∷ d ∷ s) h =
    cons-IsPlain c (d ∷ s) (alnum_apart c (left_true (is_alnum c) (is_name_tail (d ∷ s)) h))
      (name_tail-IsPlain (d ∷ s) (right_true (is_alnum c) (is_name_tail (d ∷ s)) h))

Lacks-append : (sep : ℕ) (s t : Bytes) → Lacks sep s → Lacks sep t → Lacks sep (s ++ t)
unfolding Lacks
Lacks-append sep [] t h k = k
Lacks-append sep (c ∷ s) t h k = (h.0, Lacks-append sep s t h.1 k)

valid_unit : (s : Bytes) → is_valid_name s ≡ true → is_valid_unit s ≡ true
unfolding is_valid_unit
valid_unit s h = ground (arith, h)

-- Three names that validNameRegex matches, written namespace/name@interface, are what
-- parsePodNetworkSelectionElement reads, whatever the default namespace is.
pub parse_pod_network_selection_element-printed :
    (namespace name interface default : Bytes)
    → is_valid_name namespace ≡ true
    → is_valid_name name ≡ true
    → is_valid_name interface ≡ true
    → parse_pod_network_selection_element (namespace ++ b'/' ∷ (name ++ b'@' ∷ interface)) default
      ≡ ok (record { namespace = namespace; name = name; interface_request = interface })
unfolding parse_pod_network_selection_element namespace_units interface_units checked_element
    IsPlain Lacks
parse_pod_network_selection_element-printed namespace name interface default a b d =
    let p = valid_name-IsPlain namespace a in
    let q = valid_name-IsPlain name b in
    let r = valid_name-IsPlain interface d in
    let first =
      split-append b'/' namespace (name ++ b'@' ∷ interface) p.0
      ∙ ap (λ x. namespace ∷ x)
          (split-Lacks b'/' (name ++ b'@' ∷ interface)
            (Lacks-append b'/' name _ q.0 (refl, r.0))) in
    let second =
      split-append b'@' name interface q.1 ∙ ap (λ x. name ∷ x) (split-Lacks b'@' interface r.1) in
    let u = valid_unit namespace a in
    let v = valid_unit name b in
    let w = valid_unit interface d in
    rw (first, parse_pod_network_selection_element) (rw second (rw u (rw v (rw w refl))))
