-- ===== src/Pii/Public.antt =====
-- What the checks of internal/privacyengine/pii.go mean: no digit beside a match, and the blocks of
-- addresses that are not public.
use cpa_plugin_privacyfilter.Base.{
  ℕ, zero, suc, ◌+◌, ◌-◌, ◌*◌, ◌^◌, ◌<◌, ◌≤◌, Bool, true, false, ◌&&◌, ◌||◌, Option, none, some,
  List, [], ◌∷◌, All, ◌≡◌, refl, sym, subst, ltb, leb, ◌==◌, if◌then◌else◌, Bool-cases, inl, inr,
  true≢false, Bytes, length, get_elem?, arith,
}
use cpa_plugin_privacyfilter.Base.Text.{is_digit, byte_is}
use cpa_plugin_privacyfilter.Pii.{
  touches, is_non_public, parse_fields, parse_ipv4, field_digit, is_non_public_ipv4,
}

-- An ASCII digit
abbrev pub Digit : ℕ → Type 0
Digit c = (48 ≤ c) × (c ≤ 57)

-- Neither the byte before `start` nor the one at `stop` is a digit.
pub record Alone (text : Bytes) (start stop : ℕ) : Type 0 where
  pub before : (i c : ℕ) → suc i ≡ start → get_elem? text i ≡ some c → ¬ Digit c
  pub behind : (c : ℕ) → get_elem? text stop ≡ some c → ¬ Digit c

-- A block of addresses: its first octets and the length of its prefix, as RFC 4632 writes them.
pub record Block : Type 0 where
  pub network : ℕ
  pub prefix : ℕ

abbrev pub address : ℕ → ℕ → ℕ → ℕ → ℕ
address a b c d = a * 16777216 + b * 65536 + c * 256 + d

abbrev block : ℕ → ℕ → ℕ → ℕ → ℕ → Block
block a b c d prefix = record { network = address a b c d; prefix = prefix }

-- Loopback, the private networks of RFC 1918, link-local, the unspecified address, multicast, and the
-- documentation blocks of RFC 5737.
abbrev pub special_blocks : List Block
special_blocks =
    block 127 0 0 0 8
    ∷ block 10 0 0 0 8
    ∷ block 172 16 0 0 12
    ∷ block 192 168 0 0 16
    ∷ block 169 254 0 0 16
    ∷ block 0 0 0 0 32
    ∷ block 224 0 0 0 4
    ∷ block 192 0 2 0 24
    ∷ block 198 51 100 0 24
    ∷ block 203 0 113 0 24
    ∷ []

abbrev pub Outside : ℕ → Block → Type 0
Outside n k = ¬ ((k.network ≤ n) × (n < k.network + 2 ^ (32 - k.prefix)))

-- Four octets of an address that is in none of the blocks.
abbrev pub Public : List ℕ → Type 0
Public (a ∷ b ∷ c ∷ d ∷ []) = All (Outside (address a b c d)) special_blocks
Public _ = ⊥

pub or_false : (a b : Bool) → (a || b) ≡ false → (a ≡ false) × (b ≡ false)
or_false true b h = absurd (true≢false h)
or_false false b h = (refl, h)

module _ (a b c d : ℕ) (la : a ≤ 255) (lb : b ≤ 255) (lc : c ≤ 255) (ld : d ≤ 255) where
  octets-Public : is_non_public (a ∷ b ∷ c ∷ d ∷ []) ≡ false → Public (a ∷ b ∷ c ∷ d ∷ [])
  octets-Public h =
      let (h9, k10) = or_false _ (a == 203 && b == 0 && c == 113) h in
      let (h8, k9) = or_false _ (a == 198 && b == 51 && c == 100) h9 in
      let (h7, k8) = or_false _ (a == 192 && b == 0 && c == 2) h8 in
      let (h6, k7) = or_false _ (leb 224 a && leb a 239) h7 in
      let (h5, k6) = or_false _ (a == 0 && b == 0 && c == 0 && d == 0) h6 in
      let (h4, k5) = or_false _ (a == 169 && b == 254) h5 in
      let (h3, k4) = or_false _ (a == 192 && b == 168) h4 in
      let (h2, k3) = or_false _ (a == 172 && leb 16 b && leb b 31) h3 in
      let (k1, k2) = or_false _ (a == 10) h2 in
      (
        λ o. ground arith,
        (
          λ o. ground arith,
          (
            λ o. ground arith,
            (
              λ o. ground arith,
              (
                λ o. ground arith,
                (
                  λ o. ground arith,
                  (
                    λ o. ground arith,
                    (λ o. ground arith, (λ o. ground arith, (λ o. ground arith, tt))),
                  ),
                ),
              ),
            ),
          ),
        ),
      )

-- What an Option of fields says of its octets.
abbrev Octets : Option (List ℕ) → Type 0
Octets none = Unit {0}
Octets (some vs) = All (λ v. v ≤ 255) vs

abbrev Octet : Option ℕ → Type 0
Octet none = Unit {0}
Octet (some v) = v ≤ 255

if-Octet : (b : Bool) (v : ℕ) → (b ≡ false → v ≤ 255) → Octet (if b then none else some v)
if-Octet true v h = tt
if-Octet false v h = h refl

field_digit-Octet : (current : Option ℕ) (c : ℕ) → Octet current → Octet (field_digit current c)
field_digit-Octet none c h = elim (Bool-cases (is_digit c)) [
  | inl y ↦ rw y (ground arith)
  | inr n ↦ rw n tt
]
field_digit-Octet (some v) c h = if-Octet _ (v * 10 + (c - 48)) (λ n. ground arith)

if-Octets : (b : Bool) (x y : Option (List ℕ)) → Octets x → Octets y → Octets (if b then x else y)
if-Octets true x y h g = h
if-Octets false x y h g = g

later-Octets :
    (v : ℕ) (later : Option (List ℕ))
    → v ≤ 255
    → Octets later
    → Octets (elim later [ none ↦ none | some vs ↦ some (v ∷ vs) ])
later-Octets v none h g = tt
later-Octets v (some vs) h g = (h, g)

digit-Octets :
    (cs : Bytes) (w : Option ℕ)
    → Octet w
    → ((v : ℕ) → v ≤ 255 → Octets (parse_fields (some v) cs))
    → Octets (elim w [ none ↦ none | some w ↦ parse_fields (some w) cs ])
digit-Octets cs none h g = tt
digit-Octets cs (some w) h g = g w h

parse_fields-Octets :
    (current : Option ℕ) (cs : Bytes) → Octet current → Octets (parse_fields current cs)
unfolding parse_fields
parse_fields-Octets none [] h = tt
parse_fields-Octets (some v) [] h = (h, tt)
parse_fields-Octets none (c ∷ cs) h = if-Octets (c == 46) none _ tt (
    digit-Octets cs (field_digit none c) (field_digit-Octet none c tt)
      (λ v g. parse_fields-Octets (some v) cs g))
parse_fields-Octets (some v) (c ∷ cs) h =
    if-Octets (c == 46) _ _
      (later-Octets v (parse_fields none cs) h (parse_fields-Octets none cs tt))
      (digit-Octets cs (field_digit (some v) c) (field_digit-Octet (some v) c h)
        (λ w g. parse_fields-Octets (some w) cs g))

fields-Public :
    (vs : List ℕ) → length vs ≡ 4 → All (λ v. v ≤ 255) vs → is_non_public vs ≡ false → Public vs
fields-Public [] l h g = absurd (omega arith)
fields-Public (a ∷ []) l h g = absurd (omega arith)
fields-Public (a ∷ b ∷ []) l h g = absurd (omega arith)
fields-Public (a ∷ b ∷ c ∷ []) l h g = absurd (omega arith)
fields-Public (a ∷ b ∷ c ∷ d ∷ []) l h g =
    let (la, (lb, (lc, (ld, _)))) = h in octets-Public a b c d la lb lc ld g
fields-Public (a ∷ b ∷ c ∷ d ∷ e ∷ vs) l h g = absurd (omega arith)

parse_ipv4-fields :
    (text : Bytes) {vs : List ℕ}
    → parse_ipv4 text ≡ some vs
    → (parse_fields none text ≡ some vs) × (length vs ≡ 4)
unfolding parse_ipv4
parse_ipv4-fields text h = ground arith

-- An address that passes the check is in none of the blocks.
pub is_non_public_ipv4-Public :
    (text : Bytes)
    → is_non_public_ipv4 text ≡ false
    → (vs : List ℕ) → parse_ipv4 text ≡ some vs
    → Public vs
unfolding is_non_public_ipv4
is_non_public_ipv4-Public text h vs e =
    let (parsed, four) = parse_ipv4-fields text e in
    let octets : Octets (some vs) = subst Octets parsed (parse_fields-Octets none text tt) in
    fields-Public vs four octets (rw (is_non_public_ipv4, e) at h)

get_elem-lt {ℓ} :
    {A : Type ℓ} (xs : List A) (i : ℕ) {x : A} → get_elem? xs i ≡ some x → i < length xs
get_elem-lt [] i h = cc
get_elem-lt (x ∷ xs) zero h = omega arith
get_elem-lt (x ∷ xs) (suc i) h = omega (arith, get_elem-lt xs i h)

no_digit : (c : ℕ) → is_digit c ≡ false → ¬ Digit c
no_digit c h d = ground arith

byte_at :
    (text : Bytes) (i c : ℕ)
    → get_elem? text i ≡ some c
    → byte_is is_digit text i ≡ false
    → is_digit c ≡ false
byte_at text i c e h = rw (byte_is, e) at h

and_false : (a b : Bool) → (a && b) ≡ false → a ≡ true → b ≡ false
and_false true b h y = h
and_false false b h y = absurd (true≢false (sym y))

pub touches-Alone :
    (text : Bytes) (start stop : ℕ)
    → touches is_digit text start stop ≡ false
    → Alone text start stop
touches-Alone text start stop h =
    let (x, y) = or_false (ltb 0 start && byte_is is_digit text (start - 1)) _ h in
    record {
      before = λ i c e g.
          let k : start - 1 ≡ i = omega arith in
          no_digit c (byte_at text i c g (rw k at (and_false (ltb 0 start) _ x (ground arith))));
      behind = λ c g. no_digit c (
          byte_at text stop c g
            (and_false (ltb stop (length text)) _ y (ground (arith, get_elem-lt text stop g))));
    }
