-- ===== src/Net/Parse.antt =====
-- net.ParseCIDR and net.ParseIP of Go, on the bytes of a text. A zone (`%eth0`) is an error in both.
use rancher_flat_network.Prelude.{
  ℕ, suc, zero, ◌+◌, ◌-◌, ◌*◌, ◌/◌, ◌%◌, ◌^◌, Bool, true, false, not, ◌&&◌, ◌||◌, [], ◌∷◌, ◌++◌,
  Option, none, some, if◌then◌else◌, ◌==◌, ltb, leb, length, is_empty,
}
use mathlib.Core.List.{reverse}
use rancher_flat_network.Net.{Bytes, Ip, IpNet, mask, to16}

infixl 5 ◌>>=◌
abbrev ◌>>=◌ {ℓ κ} : {A : Type ℓ} {B : Type κ} → Option A → (A → Option B) → Option B
some a >>= f = f a
none >>= f = none

is_digit : ℕ → Bool
is_digit c = leb b'0' c && leb c b'9'

-- parseIPv4Fields: `val` is the open field with `n` digits, `fields` are the closed ones, last first.
parse_ipv4 : ℕ → ℕ → Bytes → Bytes → Option Bytes
unfolding is_digit
parse_ipv4 val n fields [] = if length fields == 3 then some (reverse (val ∷ fields)) else none
parse_ipv4 val n fields (c ∷ s) =
    let digit = parse_ipv4 (val * 10 + (c - b'0')) (n + 1) fields s in
    let closed = parse_ipv4 0 0 (val ∷ fields) s in
    if is_digit c
    then (if (n == 1 && val == 0) || ltb 255 (val * 10 + (c - b'0')) then none else digit)
    else if c == b'.'
    then (if n == 0 || is_empty s || length fields == 3 then none else closed)
    else none

unfoldable pub hex_digit : ℕ → Option ℕ
unfolding is_digit
hex_digit c =
    if is_digit c
    then some (c - b'0')
    else if leb b'a' c && leb c b'f'
    then some (c - b'a' + 10)
    else if leb b'A' c && leb c b'F'
    then some (c - b'A' + 10)
    else none

-- A group of at most four hexadecimal digits: its value, its length and the rest.
hex_group : ℕ → ℕ → Bytes → Option (ℕ × ℕ × Bytes)
unfolding hex_digit
hex_group acc n [] = some (acc, n, [])
hex_group acc n (c ∷ s) =
    let more = λ (d : ℕ). hex_group (acc * 16 + d) (n + 1) s in
    elim (hex_digit c) [ none ↦ some (acc, n, c ∷ s) | some d ↦ if ltb 3 n then none else more d ]

zeros : ℕ → Bytes
zeros zero = []
zeros (suc n) = 0 ∷ zeros n

-- `pre` holds the bytes before the ellipsis, if there was one, and `cur` those since.
total : Option Bytes → Bytes → ℕ
total none cur = length cur
total (some pre) cur = length pre + length cur

finish : Option Bytes → Bytes → Option Bytes
unfolding zeros
finish none cur = if length cur == 16 then some cur else none
finish (some pre) cur =
    if ltb (length pre + length cur) 16
    then some (pre ++ zeros (16 - (length pre + length cur)) ++ cur)
    else none

has_ellipsis : Option Bytes → Bool
has_ellipsis none = false
has_ellipsis (some pre) = true

-- An IPv4 address in the last four bytes.
tail_ipv4 : Option Bytes → Bytes → Bytes → Option Bytes
unfolding parse_ipv4 finish total has_ellipsis
tail_ipv4 pre cur s =
    if (not (has_ellipsis pre) && not (total pre cur == 12)) || ltb 16 (total pre cur + 4)
    then none
    else parse_ipv4 0 0 [] s >>= λ v4. finish pre (cur ++ v4)

-- What follows a group: `next` is the loop's next round.
after_group :
    (Option Bytes → Bytes → Bytes → Option Bytes) → Option Bytes → Bytes → Bytes → Option Bytes
unfolding finish tail_ipv4 has_ellipsis
after_group next pre cur [] = finish pre cur
after_group next pre cur (c ∷ []) = none
after_group next pre cur (c ∷ d ∷ rest) =
    if c == b':'
    then (if d == b':'
        then (if has_ellipsis pre
            then none
            else if is_empty rest
            then finish (some cur) []
            else next (some cur) [] rest)
        else next pre cur (d ∷ rest))
    else none

starts_with_dot : Bytes → Bool
starts_with_dot [] = false
starts_with_dot (c ∷ s) = c == b'.'

-- The loop of parseIPv6; it saves two bytes a round, so nine rounds are enough.
parse_groups : ℕ → Option Bytes → Bytes → Bytes → Option Bytes
unfolding hex_group after_group tail_ipv4 starts_with_dot
parse_groups zero pre cur s = none
parse_groups (suc fuel) pre cur s =
    if total pre cur == 16
    then (if is_empty s then finish pre cur else none)
    else hex_group 0 0 s >>= λ g.
        if g.1 == 0
        then none
        else if starts_with_dot g.2
        then tail_ipv4 pre cur s
        else after_group (parse_groups fuel) pre (cur ++ g.0 / 256 ∷ g.0 % 256 ∷ []) g.2

parse_ipv6 : Bytes → Option Bytes
unfolding parse_groups finish
parse_ipv6 (c ∷ d ∷ s) =
    if c == b':' && d == b':'
    then (if is_empty s then finish (some []) [] else parse_groups 9 (some []) [] s)
    else parse_groups 9 none [] (c ∷ d ∷ s)
parse_ipv6 s = parse_groups 9 none [] s

pub data Family : Type 0 where
  v4 v6 neither : Family

-- The first separator in the text decides the kind of address.
family : Bytes → Family
family [] = neither
family (c ∷ s) =
    if c == b'.' then v4 else if c == b':' then v6 else if c == b'%' then neither else family s

-- netip.ParseAddr: an address of 4 or of 16 bytes.
parse_addr : Bytes → Option Bytes
unfolding family parse_ipv4 parse_ipv6
parse_addr s = elim (family s) [ v4 ↦ parse_ipv4 0 0 [] s | v6 ↦ parse_ipv6 s | neither ↦ none ]

-- net.ParseIP: 16 bytes, or nil
unfoldable pub parse_ip : Bytes → Ip
unfolding parse_addr
parse_ip s = elim (parse_addr s) [ none ↦ [] | some a ↦ to16 a ]

-- The prefix length: digits only, below 0xFFFFFF.
parse_digits : ℕ → Bytes → Option ℕ
unfolding is_digit
parse_digits n [] = some n
parse_digits n (c ∷ s) =
    let rest = parse_digits (n * 10 + (c - b'0')) s in
    if is_digit c && ltb (n * 10 + (c - b'0')) 0xFFFFFF then rest else none

-- net.CIDRMask: `n` leading ones in `k` bytes
unfoldable pub cidr_mask : ℕ → ℕ → Bytes
cidr_mask n zero = []
cidr_mask n (suc k) = (if ltb n 8 then 256 - 2 ^ (8 - n) else 255) ∷ cidr_mask (n - 8) k

-- The text before the first `/` and behind it.
cut_slash : Bytes → Option (Bytes × Bytes)
cut_slash [] = none
cut_slash (c ∷ s) =
    let rest = cut_slash s in
    if c == b'/' then some ([], s) else elim rest [ none ↦ none | some (a, b) ↦ some (c ∷ a, b) ]

network_of : Bytes → ℕ → Option (Ip × IpNet)
unfolding cidr_mask
network_of a n =
    if ltb (8 * length a) n
    then none
    else (let m = cidr_mask n (length a) in
        some (to16 a, record { ip = mask (to16 a) m; net_mask = m }))

-- net.ParseCIDR
unfoldable pub parse_cidr : Bytes → Option (Ip × IpNet)
unfolding cut_slash parse_addr parse_digits network_of
parse_cidr s = do
  parts ← cut_slash s
  a ← parse_addr parts.0
  n ← if is_empty parts.1 then none else parse_digits 0 parts.1
  network_of a n
