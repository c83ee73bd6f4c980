-- ===== src/Payload/Encode/Runes.antt =====
-- What a decoded rune tells of the bytes that it is decoded from.
use cpa_plugin_privacyfilter.Base.{
  ℕ, ◌+◌, ◌-◌, ◌*◌, ◌≤◌, ◌<◌, true, ◌&&◌, [], ◌∷◌, ◌≡◌, ◌≢◌, ◌⊎◌, inl, inr, refl, ◌==◌, Bool-cases,
  arith, Bytes, take,
}
use cpa_plugin_privacyfilter.Payload.Encode.{
  decode_rune, decode_three, decode_four, rune_error, is_between, second_low, second_high,
}

abbrev pub High : Bytes → Type 0
High [] = Unit {0}
High (b ∷ bs) = (128 ≤ b) × High bs

-- What the code needs to know of a decoded rune.
abbrev pub Decoded : Bytes → ℕ × ℕ → Type 0
Decoded text (r, size) =
    ((r ≡ rune_error) × (size ≡ 1))
    ⊎ ((2 ≤ size)
        × High (take size text)
        × ((r ≢ 8232) ⊎ (take size text ≡ 226 ∷ 128 ∷ 168 ∷ []))
        × ((r ≢ 8233) ⊎ (take size text ≡ 226 ∷ 128 ∷ 169 ∷ [])))

decode_two-Decoded :
    (b c : ℕ) (cs : Bytes)
    → 194 ≤ b
    → b ≤ 223
    → 128 ≤ c
    → c ≤ 191
    → Decoded (b ∷ c ∷ cs) ((b - 192) * 64 + (c - 128), 2)
decode_two-Decoded b c cs h1 h2 h3 h4 =
    inr (omega arith, (omega arith, (omega arith, tt)), inl (omega arith), inl (omega arith))

second_range : (b c : ℕ) → second_low b ≤ c → c ≤ second_high b → (128 ≤ c) × (c ≤ 191)
second_range b c h k = ground arith

second_range_four : (c : ℕ) → second_low 240 ≤ c → 144 ≤ c
second_range_four c h = h

three_rune :
    (b c d x : ℕ)
    → 224 ≤ b
    → b ≤ 239
    → 128 ≤ c
    → c ≤ 191
    → 128 ≤ d
    → d ≤ 191
    → 8192 ≤ x
    → x < 8256
    → ((b - 224) * 4096 + (c - 128) * 64 + (d - 128) ≢ x)
      ⊎ (b ∷ c ∷ d ∷ [] ≡ 226 ∷ 128 ∷ (x - 8064) ∷ [])
three_rune b c d x h1 h2 h3 h4 h5 h6 h7 h8 =
    elim (Bool-cases ((b - 224) * 4096 + (c - 128) * 64 + (d - 128) == x)) [
      | inl y ↦
          let e : (b - 224) * 4096 + (c - 128) * 64 + (d - 128) ≡ x = ground arith in
          let eb : b ≡ 226 = omega arith in
          let ec : c ≡ 128 = omega arith in
          let ed : d ≡ x - 8064 = omega arith in inr (rw (eb, ec, ed))
      | inr n ↦ inl (ground arith)
    ]

decode_three-Decoded :
    (b c : ℕ) (cs : Bytes)
    → 224 ≤ b
    → b ≤ 239
    → second_low b ≤ c
    → c ≤ second_high b
    → Decoded (b ∷ c ∷ cs) (decode_three b c cs)
decode_three-Decoded b c [] h1 h2 h3 h4 = inl (refl, refl)
decode_three-Decoded b c (d ∷ ds) h1 h2 h3 h4 =
    let (c1, c2) = second_range b c h3 h4 in
    elim (Bool-cases (is_between 128 191 d)) [
      | inl y ↦
          let d1 : 128 ≤ d = ground arith in
          let d2 : d ≤ 191 = ground arith in
          rw y (
            inr (
              omega arith,
              (omega arith, (c1, (d1, tt))),
              three_rune b c d 8232 h1 h2 c1 c2 d1 d2 (omega arith) (omega arith),
              three_rune b c d 8233 h1 h2 c1 c2 d1 d2 (omega arith) (omega arith),
            ))
      | inr n ↦ rw n (inl (refl, refl))
    ]

four_rune :
    (b c : ℕ) → 240 ≤ b → second_low b ≤ c → 128 ≤ c → 65536 ≤ (b - 240) * 262144 + (c - 128) * 4096
four_rune b c h k l = elim (Bool-cases (b == 240)) [
  | inl y ↦ let e : b ≡ 240 = ground arith in let c1 : 144 ≤ c = rw e at k in omega arith
  | inr n ↦ let e : 241 ≤ b = ground arith in omega arith
]

decode_four-Decoded :
    (b c : ℕ) (cs : Bytes)
    → 240 ≤ b
    → b ≤ 244
    → second_low b ≤ c
    → c ≤ second_high b
    → Decoded (b ∷ c ∷ cs) (decode_four b c cs)
decode_four-Decoded b c [] h1 h2 h3 h4 = inl (refl, refl)
decode_four-Decoded b c (d ∷ []) h1 h2 h3 h4 = inl (refl, refl)
decode_four-Decoded b c (d ∷ e ∷ es) h1 h2 h3 h4 =
    let (c1, c2) = second_range b c h3 h4 in
    elim (Bool-cases (is_between 128 191 d && is_between 128 191 e)) [
      | inl y ↦
          let d1 : 128 ≤ d = ground arith in
          let e1 : 128 ≤ e = ground arith in
          let big : 65536 ≤ (b - 240) * 262144 + (c - 128) * 4096 = four_rune b c h1 h3 c1 in
          rw y (
            inr (
              omega arith,
              (omega arith, (c1, (d1, (e1, tt)))),
              inl (omega arith),
              inl (omega arith),
            ))
      | inr n ↦ rw n (inl (refl, refl))
    ]

both_between :
    (lo hi b lo' hi' c : ℕ)
    → (is_between lo hi b && is_between lo' hi' c) ≡ true
    → ((lo ≤ b) × (b ≤ hi)) × ((lo' ≤ c) × (c ≤ hi'))
both_between lo hi b lo' hi' c h = ground arith

pub decode_rune-Decoded : (b : ℕ) (rest : Bytes) → Decoded (b ∷ rest) (decode_rune b rest)
unfolding decode_rune
decode_rune-Decoded b [] = inl (refl, refl)
decode_rune-Decoded b (c ∷ cs) = elim (Bool-cases (is_between 194 223 b && is_between 128 191 c)) [
  | inl y ↦
      rw y (decode_two-Decoded b c cs (ground arith) (ground arith) (ground arith) (ground arith))
  | inr n ↦
      elim (Bool-cases (is_between 224 239 b && is_between (second_low b) (second_high b) c)) [
        | inl y ↦
            let (p, q) = both_between _ _ _ _ _ _ y in
            rw (n, y) (decode_three-Decoded b c cs p.0 p.1 q.0 q.1)
        | inr m ↦
            elim (Bool-cases
              (is_between 240 244 b && is_between (second_low b) (second_high b) c)) [
                | inl y ↦
                    let (p, q) = both_between _ _ _ _ _ _ y in
                    rw (n, m, y) (decode_four-Decoded b c cs p.0 p.1 q.0 q.1)
                | inr z ↦ rw (n, m, z) (inl (refl, refl))
              ]
      ]
]
