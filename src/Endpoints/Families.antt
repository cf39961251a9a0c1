-- ===== src/Endpoints/Families.antt =====
-- The address type of an EndpointSlice, against the families of its addresses.
use rancher_flat_network.Prelude.{
  ◌≡◌, refl, Bool, true, false, not, ◌&&◌, ◌||◌, List, [], ◌∷◌, Option, none, some, is_empty, ap,
  ◌∙◌, Bool-cases, inl, inr, ◌⊎◌,
}
use rancher_flat_network.Net.{Bytes, to4, to16}
use rancher_flat_network.Net.Parse.{parse_ip}
use rancher_flat_network.Types.{other, Result, ok, err}
use rancher_flat_network.Endpoints.Resources.{
  AddressType, ipv4, ipv6, EndpointResource, next_address_type, add_ipv4, add_ipv6,
  address_type_from, all_addresses, or_ipv4, get_endpoint_slice_address_type,
}

-- The text of an address of the family; other text is of neither.
pub is_v4 : Bytes → Bool
is_v4 a =
    not (is_empty (parse_ip a))
    && not (is_empty (to16 (parse_ip a)))
    && not (is_empty (to4 (parse_ip a)))

pub is_v6 : Bytes → Bool
is_v6 a =
    not (is_empty (parse_ip a)) && not (is_empty (to16 (parse_ip a))) && is_empty (to4 (parse_ip a))

pub any_address : (Bytes → Bool) → List Bytes → Bool
any_address p [] = false
any_address p (x ∷ xs) = p x || any_address p xs

-- The type by which families are there: IPv4 where there is none, an error where there are both.
pub type_of : Bool → Bool → Result AddressType
type_of true true = err other
type_of v4 true = ok ipv6
type_of v4 false = ok ipv4

is_seen4 : Option AddressType → Bool
is_seen4 (some ipv4) = true
is_seen4 _ = false

is_seen6 : Option AddressType → Bool
is_seen6 (some ipv6) = true
is_seen6 _ = false

-- What one address does to any type so far.
Does : Bytes → Bool → Bool → (Option AddressType → Result (Option AddressType)) → Type 0
Does x v4 v6 f =
    (is_v4 x ≡ v4) × ((is_v6 x ≡ v6) × ((t : Option AddressType) → next_address_type t x ≡ f t))

family-cases :
    (x : Bytes) → Does x false false ok ⊎ (Does x true false add_ipv4 ⊎ Does x false true add_ipv6)
unfolding Does is_v4 is_v6 next_address_type add_ipv4 add_ipv6
family-cases x = elim (Bool-cases (is_empty (parse_ip x))) [
  | inl a ↦ inl (rw a refl, (rw a refl, λ t. rw a refl))
  | inr a ↦ elim (Bool-cases (is_empty (to16 (parse_ip x)))) [
    | inl b ↦ inl (rw a (rw b refl), (rw a (rw b refl), λ t. rw a (rw b refl)))
    | inr b ↦ elim (Bool-cases (is_empty (to4 (parse_ip x)))) [
      | inl d ↦
          inr
            (inr (rw a (rw b (rw d refl)), (rw a (rw b (rw d refl)), λ t. rw a (rw b (rw d refl)))))
      | inr d ↦
          inr
            (inl (rw a (rw b (rw d refl)), (rw a (rw b (rw d refl)), λ t. rw a (rw b (rw d refl)))))
    ]
  ]
]

from_ok :
    (t u : Option AddressType) (x : Bytes) (xs : List Bytes)
    → next_address_type t x ≡ ok u
    → address_type_from t (x ∷ xs) ≡ address_type_from u xs
unfolding address_type_from
from_ok t u x xs e = rw (e, address_type_from) refl

from_err :
    (t : Option AddressType) (x : Bytes) (xs : List Bytes)
    → next_address_type t x ≡ err other
    → address_type_from t (x ∷ xs) ≡ err other
unfolding address_type_from
from_err t x xs e = rw (e, address_type_from) refl

address_type_from-families :
    (t : Option AddressType) (xs : List Bytes)
    → or_ipv4 (address_type_from t xs)
      ≡ type_of (is_seen4 t || any_address is_v4 xs) (is_seen6 t || any_address is_v6 xs)
unfolding any_address or_ipv4 type_of is_seen4 is_seen6 Does add_ipv4 add_ipv6 address_type_from
address_type_from-families none [] = refl
address_type_from-families (some ipv4) [] = refl
address_type_from-families (some ipv6) [] = refl
address_type_from-families none (x ∷ xs) = elim (family-cases x) [
  | inl (a, (b, f)) ↦
      let e = from_ok none none x xs (f none) in
      let ih = address_type_from-families none xs in ap or_ipv4 e ∙ rw a (rw b ih)
  | inr (inl (a, (b, f))) ↦
      let e = from_ok none (some ipv4) x xs (f none) in
      let ih = address_type_from-families (some ipv4) xs in ap or_ipv4 e ∙ rw a (rw b ih)
  | inr (inr (a, (b, f))) ↦
      let e = from_ok none (some ipv6) x xs (f none) in
      let ih = address_type_from-families (some ipv6) xs in ap or_ipv4 e ∙ rw a (rw b ih)
]
address_type_from-families (some ipv4) (x ∷ xs) =
    let ih = address_type_from-families (some ipv4) xs in
    elim (family-cases x) [
      | inl (a, (b, f)) ↦
          ap or_ipv4 (from_ok (some ipv4) (some ipv4) x xs (f (some ipv4))) ∙ rw b ih
      | inr (inl (a, (b, f))) ↦
          ap or_ipv4 (from_ok (some ipv4) (some ipv4) x xs (f (some ipv4))) ∙ rw b ih
      | inr (inr (a, (b, f))) ↦ ap or_ipv4 (from_err (some ipv4) x xs (f (some ipv4))) ∙ rw b refl
    ]
address_type_from-families (some ipv6) (x ∷ xs) =
    let ih = address_type_from-families (some ipv6) xs in
    elim (family-cases x) [
      | inl (a, (b, f)) ↦
          ap or_ipv4 (from_ok (some ipv6) (some ipv6) x xs (f (some ipv6))) ∙ rw a ih
      | inr (inl (a, (b, f))) ↦ ap or_ipv4 (from_err (some ipv6) x xs (f (some ipv6))) ∙ rw a refl
      | inr (inr (a, (b, f))) ↦
          ap or_ipv4 (from_ok (some ipv6) (some ipv6) x xs (f (some ipv6))) ∙ rw a ih
    ]

-- GetEndpointSliceAddressType goes by the families of all the addresses that parse: IPv6 where only
-- IPv6 is there, IPv4 where only IPv4 or none is there, and an error where both are, in any order.
pub get_endpoint_slice_address_type-type_of :
    (r : EndpointResource)
    → get_endpoint_slice_address_type r
      ≡ type_of
          (any_address is_v4 (all_addresses r.endpoints))
          (any_address is_v6 (all_addresses r.endpoints))
unfolding get_endpoint_slice_address_type any_address is_v4 is_seen4 is_v6 is_seen6
get_endpoint_slice_address_type-type_of r =
    address_type_from-families none (all_addresses r.endpoints)
