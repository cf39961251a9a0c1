-- ===== src/Ipcalc/Canonical.antt =====
-- What a list of ranges stands for: a set of addresses, kept as ascending ranges that neither
-- overlap nor touch.
use rancher_flat_network.Prelude.{
  ℕ, ◌+◌, ◌≤◌, ◌<◌, ◌≡◌, refl, Bool, false, ◌&&◌, ◌||◌, List, [], ◌∷◌, arith, leb, All, ◌∙◌, sym,
}
use mathlib.Core.Path.{ap₂}
use rancher_flat_network.Net.{Ip}
use rancher_flat_network.Net.Value.{value, IsIp16, le_bytes-value, to16_of_IsIp16, value_injective}
use rancher_flat_network.Types.{IpRange}
use rancher_flat_network.Ipcalc.{in_range, in_any_range, ip_in_ranges}

abbrev pub IsRange : IpRange → Type 0
IsRange r = IsIp16 r.from × IsIp16 r.to

-- `n` is the number of an address of some range.
unfoldable pub contains : ℕ → List IpRange → Bool
contains n [] = false
contains n (r ∷ rs) = leb (value r.from) n && leb n (value r.to) || contains n rs

-- From the bound `b` on: ascending, non-empty ranges with a free address between two neighbours.
abbrev pub IsCanonical : ℕ → List IpRange → Type 0
IsCanonical b [] = Unit
IsCanonical b (r ∷ rs) =
    IsRange r × (b ≤ value r.from) × (value r.from ≤ value r.to) × IsCanonical (value r.to + 2) rs

pub IsCanonical-mono : (b c : ℕ) (rs : List IpRange) → b ≤ c → IsCanonical c rs → IsCanonical b rs
IsCanonical-mono b c [] h k = tt
IsCanonical-mono b c (r ∷ rs) h k = (k.0, omega arith, k.2, k.3)

pub IsCanonical-All : (b : ℕ) (rs : List IpRange) → IsCanonical b rs → All IsRange rs
IsCanonical-All b [] h = tt
IsCanonical-All b (r ∷ rs) h = (h.0, IsCanonical-All (value r.to + 2) rs h.3)

pub contains_below :
    (n b : ℕ) (rs : List IpRange) → n < b → IsCanonical b rs → contains n rs ≡ false
unfolding contains
contains_below n b [] h k = refl
contains_below n b (r ∷ rs) h k = ground (arith, contains_below n (value r.to + 2) rs)

in_range-value :
    (ip : Ip) (r : IpRange)
    → IsIp16 ip
    → IsRange r
    → in_range ip r ≡ (leb (value r.from) (value ip) && leb (value ip) (value r.to))
unfolding in_range
in_range-value ip r h k = ground (
  arith,
  le_bytes-value r.from ip k.0 h,
  le_bytes-value ip r.to h k.1,
  to16_of_IsIp16 r.from k.0,
  to16_of_IsIp16 r.to k.1,
)

in_any_range-contains :
    (ip : Ip) (rs : List IpRange)
    → IsIp16 ip
    → All IsRange rs
    → in_any_range ip rs ≡ contains (value ip) rs
unfolding in_any_range contains
in_any_range-contains ip [] h k = refl
in_any_range-contains ip (r ∷ rs) h k =
    ground (arith, in_range-value ip r h k.0, in_any_range-contains ip rs h k.1)

-- For an address of 16 bytes and ranges whose ends have 16 bytes, IPInRanges tells whether the number
-- of the address is in one of the ranges.
pub ip_in_ranges-contains :
    (ip : Ip) (rs : List IpRange)
    → IsIp16 ip
    → All IsRange rs
    → ip_in_ranges ip rs ≡ contains (value ip) rs
unfolding ip_in_ranges
ip_in_ranges-contains ip rs h k =
    ground (arith, in_any_range-contains ip rs h k, to16_of_IsIp16 ip h)

range_ext :
    (r s : IpRange)
    → IsRange r
    → IsRange s
    → value r.from ≡ value s.from
    → value r.to ≡ value s.to
    → r ≡ s
range_ext r s h k e f = cc (
  value_injective r.from s.from h.0.0 k.0.0 (h.0.1 ∙ sym k.0.1) e,
  value_injective r.to s.to h.1.0 k.1.0 (h.1.1 ∙ sym k.1.1) f,
)

from_le :
    (b c : ℕ) (r s : IpRange) (rs ss : List IpRange)
    → IsCanonical b (r ∷ rs)
    → IsCanonical c (s ∷ ss)
    → ((n : ℕ) → contains n (r ∷ rs) ≡ contains n (s ∷ ss))
    → value s.from ≤ value r.from
unfolding contains
from_le b c r s rs ss h k same =
    ground (arith, same (value r.from), contains_below (value r.from) (value s.to + 2) ss)

to_le :
    (b c : ℕ) (r s : IpRange) (rs ss : List IpRange)
    → IsCanonical b (r ∷ rs)
    → IsCanonical c (s ∷ ss)
    → ((n : ℕ) → contains n (r ∷ rs) ≡ contains n (s ∷ ss))
    → value r.from ≡ value s.from
    → value s.to ≤ value r.to
unfolding contains
to_le b c r s rs ss h k same e =
    ground (arith, same (value r.to + 1), contains_below (value r.to + 1) (value r.to + 2) rs)

tail_same :
    (b c : ℕ) (r s : IpRange) (rs ss : List IpRange)
    → IsCanonical b (r ∷ rs)
    → IsCanonical c (s ∷ ss)
    → ((n : ℕ) → contains n (r ∷ rs) ≡ contains n (s ∷ ss))
    → value r.from ≡ value s.from
    → value r.to ≡ value s.to
    → (n : ℕ) → contains n rs ≡ contains n ss
unfolding contains
tail_same b c r s rs ss h k same e f n =
    ground
      (arith, same n, contains_below n (value r.to + 2) rs, contains_below n (value s.to + 2) ss)

-- Two canonical lists with the same addresses are the same list.
pub IsCanonical-ext :
    (b : ℕ) (rs ss : List IpRange)
    → IsCanonical b rs
    → IsCanonical b ss
    → ((n : ℕ) → contains n rs ≡ contains n ss)
    → rs ≡ ss
unfolding contains
IsCanonical-ext b [] [] h k same = refl
IsCanonical-ext b [] (s ∷ ss) h k same = absurd (ground (arith, same (value s.from)))
IsCanonical-ext b (r ∷ rs) [] h k same = absurd (ground (arith, same (value r.from)))
IsCanonical-ext b (r ∷ rs) (s ∷ ss) h k same =
    let back = λ (n : ℕ). sym (same n) in
    let e : value r.from ≡ value s.from =
      omega (arith, from_le b b r s rs ss h k same, from_le b b s r ss rs k h back) in
    let f : value r.to ≡ value s.to =
      omega (arith, to_le b b r s rs ss h k same e, to_le b b s r ss rs k h back (sym e)) in
    let k3 : IsCanonical (value r.to + 2) ss = rw f k.3 in
    ap₂ ◌∷◌ (range_ext r s h.0 k.0 e f)
      (IsCanonical-ext (value r.to + 2) rs ss h.3 k3 (tail_same b b r s rs ss h k same e f))
