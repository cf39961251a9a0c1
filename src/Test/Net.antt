-- ===== src/Test/Net.antt =====
-- Addresses and networks as Go reads them.
use rancher_flat_network.Prelude.{◌≡◌, refl, some, none, ◌∷◌, []}
use rancher_flat_network.Types.{codes}
use rancher_flat_network.Net.{to16, mask, and_bytes, compare_bytes}
use rancher_flat_network.Net.Parse.{parse_cidr, parse_ip}

parse_v4 :
    parse_cidr (codes "10.128.3.4/16")
    ≡ some (
      0 ∷ 0 ∷ 0 ∷ 0 ∷ 0 ∷ 0 ∷ 0 ∷ 0 ∷ 0 ∷ 0 ∷ 255 ∷ 255 ∷ 10 ∷ 128 ∷ 3 ∷ 4 ∷ [],
      record { ip = 10 ∷ 128 ∷ 0 ∷ 0 ∷ []; net_mask = 255 ∷ 255 ∷ 0 ∷ 0 ∷ [] },
    )
unfolding parse_cidr to16 mask and_bytes compare_bytes
parse_v4 = refl

parse_v6 :
    parse_ip (codes "fd00::1:ab")
    ≡ 253 ∷ 0 ∷ 0 ∷ 0 ∷ 0 ∷ 0 ∷ 0 ∷ 0 ∷ 0 ∷ 0 ∷ 0 ∷ 0 ∷ 0 ∷ 1 ∷ 0 ∷ 171 ∷ []
unfolding parse_ip to16
parse_v6 = refl

parse_mapped :
    parse_ip (codes "::ffff:1.2.3.4")
    ≡ 0 ∷ 0 ∷ 0 ∷ 0 ∷ 0 ∷ 0 ∷ 0 ∷ 0 ∷ 0 ∷ 0 ∷ 255 ∷ 255 ∷ 1 ∷ 2 ∷ 3 ∷ 4 ∷ []
unfolding parse_ip to16
parse_mapped = refl

parse_leading_zero : parse_ip (codes "1.02.3.4") ≡ []
unfolding parse_ip to16
parse_leading_zero = refl

parse_no_mask : parse_cidr (codes "10.0.0.0") ≡ none
unfolding parse_cidr
parse_no_mask = refl
