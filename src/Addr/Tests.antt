-- ===== src/Addr/Tests.antt =====
-- Runs of the parsers and the comparison, and their theorems at concrete strings and addresses.
use Prim.Native.String.{String}
use Prim.Native.Char.{code}
use libyaooi.Prelude.{ℕ, ◌≡◌, ◌↔◌, refl, [], ◌∷◌, true, false, arith}
use libyaooi.Addr.Chars.{Bytes, isdigit, isxdigit, rejected, accepted, fault}
use libyaooi.Addr.{v4, v6, addrparse}
use libyaooi.Addr.V4.Grammar.{Dotted}
use libyaooi.Addr.V4.Exact.{parse_ipv4-Dotted}
use libyaooi.Addr.V6.Hex.{Group}
use libyaooi.Addr.V6.Accepted.{last, more, parse_ipv6-Joined}
use libyaooi.Addr.V4.{parse_ipv4}
use libyaooi.Addr.V6.{parse_ipv6}

abbrev codes : String → Bytes
codes String.[] = []
codes (String.◌∷◌ c s) = code c ∷ codes s

loopback : addrparse true (codes "127.0.0.1") ≡ accepted (v4 (127 ∷ 0 ∷ 0 ∷ 1 ∷ []))
unfolding addrparse parse_ipv4 isdigit
loopback = refl

too_large : parse_ipv4 (codes "127.0.0.256") ≡ rejected
unfolding parse_ipv4 isdigit
too_large = refl

eight_groups :
    addrparse true (codes "1:2:3:4:5:6:7:aBcD")
    ≡ accepted (v6 (1 ∷ 2 ∷ 3 ∷ 4 ∷ 5 ∷ 6 ∷ 7 ∷ 0xabcd ∷ []))
unfolding addrparse parse_ipv4 parse_ipv6
eight_groups = refl

-- "::1" comes out as 1:: .
leading_zeroes : parse_ipv6 true (codes "::1") ≡ accepted (1 ∷ 0 ∷ 0 ∷ 0 ∷ 0 ∷ 0 ∷ 0 ∷ 0 ∷ [])
unfolding parse_ipv6
leading_zeroes = refl

inner_zeroes : parse_ipv6 true (codes "1::2") ≡ rejected
unfolding parse_ipv6
inner_zeroes = refl

null_result : addrparse false (codes "::") ≡ fault
unfolding addrparse parse_ipv4 parse_ipv6
null_result = refl

parse_ipv4-Dotted_example :
    (parse_ipv4 (codes "10.0.0.1") ≡ accepted (10 ∷ 0 ∷ 0 ∷ 1 ∷ []))
    ↔ (Dotted (codes "10.0.0.1") (10 ∷ 0 ∷ 0 ∷ 1 ∷ []) × (◌≡◌ {A = ℕ} 4 4))
parse_ipv4-Dotted_example = parse_ipv4-Dotted (codes "10.0.0.1") (10 ∷ 0 ∷ 0 ∷ 1 ∷ []) (omega arith)

one : Group (codes "1") 1
unfolding isxdigit
one = record { some_digit = cc; digits = (refl, tt); short = omega arith; spells = refl }

face : Group (codes "fAcE") 0xface
unfolding isxdigit
face = record {
  some_digit = cc;
  digits = (refl, (refl, (refl, (refl, tt))));
  short = omega arith;
  spells = refl;
}

-- "1:fAcE" and "::1:fAcE" are one address to the parser.
parse_ipv6-Joined_example :
    (parse_ipv6 true (codes "1:fAcE") ≡ accepted (1 ∷ 0xface ∷ 0 ∷ 0 ∷ 0 ∷ 0 ∷ 0 ∷ 0 ∷ []))
    × (parse_ipv6 true (codes "::1:fAcE") ≡ accepted (1 ∷ 0xface ∷ 0 ∷ 0 ∷ 0 ∷ 0 ∷ 0 ∷ 0 ∷ []))
parse_ipv6-Joined_example = parse_ipv6-Joined true (more one (last face)) (omega arith)
