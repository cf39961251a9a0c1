-- ===== src/Cni/Ipvlan.antt =====
-- ModeToString, ModeFromString, FlagFromString and FlagToString of pkg/cni/ipvlan/ipvlan.go. The
-- modes and flags are those of netlink.
use rancher_flat_network.Prelude.{
  ℕ, ◌≡◌, refl, ◌||◌, if◌then◌else◌, is_empty, ◌⊎◌, inl, inr, [], ◌∷◌, ◌↔◌, arith,
}
use rancher_flat_network.Net.{Bytes, eq_bytes, compare_bytes}
use rancher_flat_network.Types.{Result, ok, err, invalid_mode, codes}
use rancher_flat_network.Slices.Order.{eq_of_eq_bytes}

pub data Mode : Type 0 where
  l2 l3 l3s : Mode
  other : ℕ → Mode

pub data Flag : Type 0 where
  bridge private vepa : Flag
  other_flag : ℕ → Flag

unfoldable pub mode_from_string : Bytes → Result Mode
mode_from_string s =
    if is_empty s || eq_bytes s (codes "l2")
    then ok l2
    else if eq_bytes s (codes "l3")
    then ok l3
    else if eq_bytes s (codes "l3s")
    then ok l3s
    else err invalid_mode

unfoldable pub flag_from_string : Bytes → Result Flag
flag_from_string s =
    if is_empty s || eq_bytes s (codes "bridge")
    then ok bridge
    else if eq_bytes s (codes "private")
    then ok private
    else if eq_bytes s (codes "vepa")
    then ok vepa
    else err invalid_mode

unfoldable pub mode_to_string : Mode → Result Bytes
mode_to_string l2 = ok (codes "l2")
mode_to_string l3 = ok (codes "l3")
mode_to_string l3s = ok (codes "l3s")
mode_to_string (other n) = err invalid_mode

unfoldable pub flag_to_string : Flag → Result Bytes
flag_to_string bridge = ok (codes "bridge")
flag_to_string private = ok (codes "private")
flag_to_string vepa = ok (codes "vepa")
flag_to_string (other_flag n) = err invalid_mode

text_of_mode :
    (m : Mode) (s : Bytes)
    → mode_from_string s ≡ ok m
    → (mode_to_string m ≡ ok s) ⊎ ((s ≡ []) × (m ≡ l2))
unfolding mode_to_string mode_from_string
text_of_mode m [] h = inr (refl, cc)
text_of_mode m (c ∷ s) h = ground (
  arith,
  eq_of_eq_bytes (c ∷ s) (codes "l2"),
  eq_of_eq_bytes (c ∷ s) (codes "l3"),
  eq_of_eq_bytes (c ∷ s) (codes "l3s"),
)

mode_of_text : (m : Mode) (s : Bytes) → mode_to_string m ≡ ok s → mode_from_string s ≡ ok m
unfolding mode_to_string mode_from_string compare_bytes
mode_of_text l2 s h = let e : codes "l2" ≡ s = cc in rw (← e)
mode_of_text l3 s h = let e : codes "l3" ≡ s = cc in rw (← e)
mode_of_text l3s s h = let e : codes "l3s" ≡ s = cc in rw (← e)
mode_of_text (other n) s h = cc

-- An ipvlan mode that has a text is read back from it, and a text that is read as a mode is that
-- mode's text or empty, which stands for l2.
pub ipvlan_mode_from_string_iff :
    (m : Mode) (s : Bytes)
    → (mode_from_string s ≡ ok m) ↔ ((mode_to_string m ≡ ok s) ⊎ ((s ≡ []) × (m ≡ l2)))
unfolding mode_from_string
ipvlan_mode_from_string_iff m s =
    (text_of_mode m s, elim [ inl e ↦ mode_of_text m s e | inr (e, f) ↦ rw (e, f) refl ])

text_of_flag :
    (f : Flag) (s : Bytes)
    → flag_from_string s ≡ ok f
    → (flag_to_string f ≡ ok s) ⊎ ((s ≡ []) × (f ≡ bridge))
unfolding flag_to_string flag_from_string
text_of_flag f [] h = inr (refl, cc)
text_of_flag f (c ∷ s) h = ground (
  arith,
  eq_of_eq_bytes (c ∷ s) (codes "bridge"),
  eq_of_eq_bytes (c ∷ s) (codes "private"),
  eq_of_eq_bytes (c ∷ s) (codes "vepa"),
)

flag_of_text : (f : Flag) (s : Bytes) → flag_to_string f ≡ ok s → flag_from_string s ≡ ok f
unfolding flag_to_string flag_from_string compare_bytes
flag_of_text bridge s h = let e : codes "bridge" ≡ s = cc in rw (← e)
flag_of_text private s h = let e : codes "private" ≡ s = cc in rw (← e)
flag_of_text vepa s h = let e : codes "vepa" ≡ s = cc in rw (← e)
flag_of_text (other_flag n) s h = cc

-- An ipvlan flag that has a text is read back from it, and a text that is read as a flag is that flag's text or empty,
-- which stands for the bridge flag.
pub flag_from_string_iff :
    (f : Flag) (s : Bytes)
    → (flag_from_string s ≡ ok f) ↔ ((flag_to_string f ≡ ok s) ⊎ ((s ≡ []) × (f ≡ bridge)))
unfolding flag_from_string
flag_from_string_iff f s =
    (text_of_flag f s, elim [ inl e ↦ flag_of_text f s e | inr (e, g) ↦ rw (e, g) refl ])
