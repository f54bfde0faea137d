-- ===== src/Scenario/Peer.antt =====
-- `fixture_peer.parse::<IpAddr>()` of crates/simferret/src/scenario.rs, as far as it can give an
-- IPv4 address: the standard library reads four decimal groups of at most three digits, with no
-- leading zero and at most 255. A text that parses as IPv6 is never the IPv4 peer.
use simferret.Prelude.{
  ℕ, ◌+◌, ◌-◌, ◌*◌, ◌≡◌, refl, Bool, true, false, ◌&&◌, ◌||◌, List, [], ◌∷◌, Option, none, some,
  Text, codes, ltb, leb, ◌==◌, if◌then◌else◌, length,
}

-- The groups between the dots.
unfoldable pub split_dots : Text → List Text
split_dots [] = [] ∷ []
split_dots (c ∷ text) =
    let groups = split_dots text in
    if c == b'.' then [] ∷ groups else elim groups [ [] ↦ [] | g ∷ gs ↦ (c ∷ g) ∷ gs ]

unfoldable pub digits_from : ℕ → Text → Option ℕ
digits_from n [] = some n
digits_from n (c ∷ text) =
    let rest = digits_from (n * 10 + (c - b'0')) text in
    if leb b'0' c && leb c b'9' then rest else none

-- One group: `0`, or up to three digits with no leading zero, at most 255.
unfoldable pub octet : Text → Option ℕ
octet [] = none
octet (c ∷ rest) =
    if ltb 3 (length (c ∷ rest)) || (c == b'0' && ltb 1 (length (c ∷ rest)))
    then none
    else elim (digits_from 0 (c ∷ rest)) [
      | none ↦ none
      | some n ↦ if leb n 255 then some n else none
    ]

unfoldable pub octets : List Text → List (Option ℕ)
octets [] = []
octets (g ∷ gs) = octet g ∷ octets gs

unfoldable pub four : List (Option ℕ) → Option (ℕ × ℕ × ℕ × ℕ)
four (some a ∷ some b ∷ some c ∷ some d ∷ []) = some (a, b, c, d)
four _ = none

unfoldable pub parse_ipv4 : Text → Option (ℕ × ℕ × ℕ × ℕ)
parse_ipv4 text = four (octets (split_dots text))

-- `peer != Ipv4Addr::new(10, 0, 2, 2)`, or no address at all
unfoldable pub is_fixture_peer : Text → Bool
is_fixture_peer text = elim (parse_ipv4 text) [
  | none ↦ false
  | some (a, b, c, d) ↦ a == 10 && b == 0 && c == 2 && d == 2
]

fixture_peer_accepted : is_fixture_peer (codes "10.0.2.2") ≡ true
unfolding is_fixture_peer parse_ipv4 four octets octet digits_from split_dots
fixture_peer_accepted = refl

padded_peer_refused : is_fixture_peer (codes "10.0.02.2") ≡ false
unfolding is_fixture_peer parse_ipv4 four octets octet digits_from split_dots
padded_peer_refused = refl
