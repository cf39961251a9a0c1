-- ===== src/Endpoints/Selection.antt =====
-- The network selections of a service, and how a network of a pod is matched with them. Decoding JSON is
-- a parameter: json.Unmarshal leaves a slice behind, and answers whether it went well; a `null` in the
-- text leaves a nil pointer in the slice.
use rancher_flat_network.Prelude.{
  ℕ, Bool, false, ◌&&◌, ◌||◌, List, [], ◌∷◌, ◌++◌, Option, none, some, if◌then◌else◌, is_empty, leb,
  ◌==◌,
}
use rancher_flat_network.Net.{Bytes, eq_bytes}
use rancher_flat_network.Types.{other, Result, ok, err}
use rancher_flat_network.Common.Annotation.{split, trim_space}
use rancher_flat_network.Cluster.{Outcome, returned, panicked}

pub record NetworkSelectionElement : Type 0 where
  pub namespace : Bytes
  pub name : Bytes
  pub interface_request : Bytes

-- One character of [a-z0-9], and of [-a-z0-9].
unfoldable pub is_alnum : ℕ → Bool
is_alnum c = (leb b'a' c && leb c b'z') || (leb b'0' c && leb c b'9')

unfoldable pub is_name_char : ℕ → Bool
unfolding is_alnum
is_name_char c = c == b'-' || is_alnum c

-- [-a-z0-9]*[a-z0-9] to the end
unfoldable pub is_name_tail : Bytes → Bool
unfolding is_alnum is_name_char
is_name_tail [] = false
is_name_tail (c ∷ []) = is_alnum c
is_name_tail (c ∷ d ∷ s) = is_name_char c && is_name_tail (d ∷ s)

-- validNameRegex: ^[a-z0-9]([-a-z0-9]*[a-z0-9])?$
unfoldable pub is_valid_name : Bytes → Bool
unfolding is_alnum is_name_tail
is_valid_name [] = false
is_valid_name (c ∷ []) = is_alnum c
is_valid_name (c ∷ d ∷ s) = is_alnum c && is_name_tail (d ∷ s)

-- The checks of one unit: a unit may be empty.
unfoldable pub is_valid_unit : Bytes → Bool
unfolding is_valid_name
is_valid_unit s = is_empty s || is_valid_name s

-- namespace/name, or the name alone
unfoldable pub namespace_units : Bytes → List Bytes → Option (Bytes × Bytes)
namespace_units default (name ∷ []) = some (default, name)
namespace_units default (namespace ∷ name ∷ []) = some (namespace, name)
namespace_units default _ = none

-- name@interface, or the name alone
unfoldable pub interface_units : List Bytes → Option (Bytes × Bytes)
interface_units (name ∷ []) = some (name, [])
interface_units (name ∷ interface ∷ []) = some (name, interface)
interface_units _ = none

unfoldable pub checked_element : Bytes → Bytes → Bytes → Result NetworkSelectionElement
unfolding is_valid_unit
checked_element namespace name interface =
    if is_valid_unit namespace && is_valid_unit name && is_valid_unit interface
    then ok (record { namespace = namespace; name = name; interface_request = interface })
    else err other

unfoldable pub parse_pod_network_selection_element : Bytes → Bytes → Result NetworkSelectionElement
unfolding namespace_units interface_units checked_element split
parse_pod_network_selection_element selection default =
    elim (namespace_units default (split b'/' selection)) [
      | none ↦ err other
      | some (namespace, rest) ↦ elim (interface_units (split b'@' rest)) [
        | none ↦ err other
        | some (name, interface) ↦ checked_element namespace name interface
      ]
    ]

unfoldable pub parse_elements : Bytes → List Bytes → Result (List (Option NetworkSelectionElement))
unfolding parse_pod_network_selection_element trim_space
parse_elements default [] = ok []
parse_elements default (s ∷ ss) =
    let rest = parse_elements default ss in
    elim (parse_pod_network_selection_element (trim_space s) default) [
      | err e ↦ err e
      | ok x ↦ elim rest [ err e ↦ err e | ok xs ↦ ok (some x ∷ xs) ]
    ]

-- The last loop: a nil pointer panics.
unfoldable pub with_namespaces :
    Bytes → List (Option NetworkSelectionElement) → Outcome (List NetworkSelectionElement)
with_namespaces default [] = returned []
with_namespaces default (none ∷ xs) = panicked
with_namespaces default (some x ∷ xs) =
    let rest = with_namespaces default xs in
    let y : NetworkSelectionElement =
      if is_empty x.namespace then record x { namespace = default } else x in
    elim rest [ panicked ↦ panicked | returned ys ↦ returned (y ∷ ys) ]

-- json.Unmarshal into a slice of elements
abbrev pub Decode : Type 0
Decode = Bytes → List (Option NetworkSelectionElement) × Bool

unfoldable pub parse_service_network_selections :
    Decode → Bytes → Bytes → Outcome (Result (List NetworkSelectionElement))
unfolding with_namespaces parse_elements split
parse_service_network_selections decode text default =
    let decoded = decode text in
    if is_empty text
    then returned (err other)
    else elim (if decoded.1 then ok decoded.0 else elim (parse_elements default (split b',' text)) [
      | err e ↦ err e
      | ok xs ↦ ok (decoded.0 ++ xs)
    ]) [
      | err e ↦ returned (err e)
      | ok xs ↦ elim (with_namespaces default xs) [
        | panicked ↦ panicked
        | returned ys ↦ returned (ok ys)
      ]
    ]

-- The text up to the first slash and behind it, as strings.SplitN(s, "/", 2) has them.
unfoldable pub cut_slash : Bytes → Option (Bytes × Bytes)
cut_slash [] = none
cut_slash (c ∷ s) =
    let rest = cut_slash s in
    if c == b'/' then some ([], s) else elim rest [ none ↦ none | some (a, b) ↦ some (c ∷ a, b) ]

unfoldable pub any_element : Bytes → Bytes → List NetworkSelectionElement → Bool
any_element name namespace [] = false
any_element name namespace (x ∷ xs) =
    (eq_bytes name x.name && eq_bytes namespace x.namespace) || any_element name namespace xs

unfoldable pub is_in_network_selection_elements_array :
    Bytes → Bytes → List NetworkSelectionElement → Bool
unfolding cut_slash any_element
is_in_network_selection_elements_array status_name namespace networks =
    elim (cut_slash status_name) [
      | none ↦ any_element status_name namespace networks
      | some (net_namespace, net_name) ↦ any_element net_name net_namespace networks
    ]
