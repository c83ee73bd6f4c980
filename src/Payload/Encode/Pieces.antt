-- ===== src/Payload/Encode/Pieces.antt =====
-- What one turn of the loop of `encodeStringContext` writes, and what it is read as.
use cpa_plugin_privacyfilter.Base.{
  ℕ, ◌+◌, ◌*◌, ◌/◌, ◌%◌, ◌≤◌, ◌<◌, false, ◌&&◌, ◌||◌, some, [], ◌∷◌, ◌++◌, ◌≡◌, ◌≢◌, ◌⊎◌, inl, inr,
  refl, if◌then◌else◌, ltb, ◌==◌, Bool-cases, arith, Bytes, take, drop,
}
use cpa_plugin_privacyfilter.Payload.Encode.{
  decode_rune, hex, encode_ascii, encode_rune, encode_head,
}
use cpa_plugin_privacyfilter.Payload.Encode.Grammar.{
  quote, backslash, backspace, form_feed, line_feed, carriage_return, tabulator, hex_value, utf8,
  Reads, plain, escaped, unicode,
}
use cpa_plugin_privacyfilter.Payload.Encode.Runes.{High, Decoded, decode_rune-Decoded}

hex_value-hex : (n : ℕ) → n < 16 → hex_value (hex n) ≡ some n
hex_value-hex n h = ground arith

control_ascii : ℕ → Bytes
control_ascii c =
    if c == 8
    then 92 ∷ 98 ∷ []
    else if c == 12
    then 92 ∷ 102 ∷ []
    else if c == 10
    then 92 ∷ 110 ∷ []
    else if c == 13
    then 92 ∷ 114 ∷ []
    else if c == 9
    then 92 ∷ 116 ∷ []
    else if ltb c 32
    then 92 ∷ 117 ∷ 48 ∷ 48 ∷ hex (c / 16) ∷ hex (c % 16) ∷ []
    else c ∷ []

unicode_ascii-Reads :
    (c : ℕ) {s v : Bytes}
    → c < 32
    → Reads s v
    → Reads (92 ∷ 117 ∷ 48 ∷ 48 ∷ hex (c / 16) ∷ hex (c % 16) ∷ s) (c ∷ v)
unicode_ascii-Reads c {s} {v} h r =
    let e : 0 * 4096 + 0 * 256 + (c / 16) * 16 + c % 16 ≡ c = omega arith in
    let k : utf8 (0 * 4096 + 0 * 256 + (c / 16) * 16 + c % 16) ≡ c ∷ [] = rw e (ground arith) in
    let u : Reads (92 ∷ 117 ∷ 48 ∷ 48 ∷ hex (c / 16) ∷ hex (c % 16) ∷ s)
        (utf8 (0 * 4096 + 0 * 256 + (c / 16) * 16 + c % 16) ++ v) =
      unicode refl refl (hex_value-hex (c / 16) (omega arith))
        (hex_value-hex (c % 16) (omega arith)) (omega arith) r in
    rw k at u

control_ascii-Reads :
    (c : ℕ) {s v : Bytes}
    → c < 128
    → c ≢ 34
    → c ≢ 92
    → Reads s v
    → Reads (control_ascii c ++ s) (c ∷ v)
unfolding control_ascii
control_ascii-Reads c h q b r = elim (Bool-cases (c == 8)) [
  | inl y ↦ let e : c ≡ 8 = ground arith in rw e (escaped backspace r)
  | inr n1 ↦ elim (Bool-cases (c == 12)) [
    | inl y ↦ let e : c ≡ 12 = ground arith in rw e (escaped form_feed r)
    | inr n2 ↦ elim (Bool-cases (c == 10)) [
      | inl y ↦ let e : c ≡ 10 = ground arith in rw e (escaped line_feed r)
      | inr n3 ↦ elim (Bool-cases (c == 13)) [
        | inl y ↦ let e : c ≡ 13 = ground arith in rw e (escaped carriage_return r)
        | inr n4 ↦ elim (Bool-cases (c == 9)) [
          | inl y ↦ let e : c ≡ 9 = ground arith in rw e (escaped tabulator r)
          | inr n5 ↦ elim (Bool-cases (ltb c 32)) [
            | inl y ↦ rw (n1, n2, n3, n4, n5, y) (unicode_ascii-Reads c (ground arith) r)
            | inr n6 ↦ rw (n1, n2, n3, n4, n5, n6) (plain (ground arith) q b r)
          ]
        ]
      ]
    ]
  ]
]

encode_ascii-Reads :
    (c : ℕ) {s v : Bytes} → c < 128 → Reads s v → Reads (encode_ascii c ++ s) (c ∷ v)
unfolding encode_ascii control_ascii
encode_ascii-Reads c h r = elim (Bool-cases (c == 34 || c == 92)) [
  | inl y ↦ elim (Bool-cases (c == 34)) [
    | inl z ↦ let e : c ≡ 34 = ground arith in rw e (escaped quote r)
    | inr z ↦ let e : c ≡ 92 = ground arith in rw e (escaped backslash r)
  ]
  | inr n ↦ rw n (control_ascii-Reads c h (ground arith) (ground arith) r)
]

High-Reads : (bs : Bytes) {s v : Bytes} → High bs → Reads s v → Reads (bs ++ s) (bs ++ v)
High-Reads [] h r = r
High-Reads (b ∷ bs) h r = plain (omega arith) (omega arith) (omega arith) (High-Reads bs h.1 r)

-- What a string is read as: its own bytes, with U+FFFD for each byte that is not part of valid
-- UTF-8.
abbrev pub repair_rune : ℕ × ℕ → Bytes → Bytes × ℕ
repair_rune (r, size) text = if size == 1 then (239 ∷ 191 ∷ 189 ∷ [], 1) else (take size text, size)

unfoldable pub repair_head : ℕ → Bytes → Bytes × ℕ
repair_head c rest = if ltb c 128 then (c ∷ [], 1) else repair_rune (decode_rune c rest) (c ∷ rest)

pub data Repairs : Bytes → Bytes → Type 0 where
  at_end : Repairs [] []
  further :
      {c : ℕ} {rest v : Bytes}
      → Repairs (drop (repair_head c rest).1 (c ∷ rest)) v
      → Repairs (c ∷ rest) ((repair_head c rest).0 ++ v)

pub Repairs-next :
    (c : ℕ) (rest : Bytes) {size : ℕ} {v : Bytes}
    → size ≡ (repair_head c rest).1
    → Repairs (drop size (c ∷ rest)) v
    → Repairs (c ∷ rest) ((repair_head c rest).0 ++ v)
Repairs-next c rest e g = further (rw e at g)

-- A piece and the bytes that it is read as, which take the same number of bytes of the text.
pub record Corresponds (p q : Bytes × ℕ) : Type 0 where
  pub same_size : p.1 ≡ q.1
  pub moves : 1 ≤ p.1
  pub reads : {s v : Bytes} → Reads s v → Reads (p.0 ++ s) (q.0 ++ v)

separator-Corresponds :
    (size n : ℕ)
    → 1 ≤ size
    → (n ≡ 8) ⊎ (n ≡ 9)
    → Corresponds (92 ∷ 117 ∷ 50 ∷ 48 ∷ 50 ∷ hex n ∷ [], size) (226 ∷ 128 ∷ (160 + n) ∷ [], size)
separator-Corresponds size n h (inl e) = rw e (record {
  same_size = refl;
  moves = h;
  reads = λ r. unicode {i = 2} {j = 0} {k = 2} {l = 8} refl refl refl refl (omega arith) r;
})
separator-Corresponds size n h (inr e) = rw e (record {
  same_size = refl;
  moves = h;
  reads = λ r. unicode {i = 2} {j = 0} {k = 2} {l = 9} refl refl refl refl (omega arith) r;
})

encode_rune-Corresponds :
    (d : ℕ × ℕ) (text : Bytes)
    → Decoded text d
    → Corresponds (encode_rune d text) (repair_rune d text)
encode_rune-Corresponds (r, size) text (inl (e, f)) =
    rw (e, f)
      (record {
        same_size = refl;
        moves = omega arith;
        reads = λ r.
            High-Reads (239 ∷ 191 ∷ 189 ∷ []) (omega arith, (omega arith, (omega arith, tt))) r;
      })
encode_rune-Corresponds (r, size) text (inr (h, high, ls, ps)) =
    let z : (size == 1) ≡ false = ground arith in
    let z' : (r == 65533 && size == 1) ≡ false = ground arith in
    elim (Bool-cases (r == 8232)) [
      | inl y ↦
          let e : r ≡ 8232 = ground arith in
          elim ls [
            | inl n ↦ absurd (n e)
            | inr p ↦ rw (z', z, e, p) (separator-Corresponds size 8 (omega arith) (inl refl))
          ]
      | inr n ↦ elim (Bool-cases (r == 8233)) [
        | inl y ↦
            let e : r ≡ 8233 = ground arith in
            elim ps [
              | inl m ↦ absurd (m e)
              | inr p ↦ rw (z', z, e, p) (separator-Corresponds size 9 (omega arith) (inr refl))
            ]
        | inr m ↦
            rw (z', z, n, m)
              (record {
                same_size = refl;
                moves = omega arith;
                reads = λ k. High-Reads (take size text) high k;
              })
      ]
    ]

pub encode_head-Corresponds :
    (c : ℕ) (rest : Bytes) → Corresponds (encode_head c rest) (repair_head c rest)
unfolding encode_head repair_head
encode_head-Corresponds c rest = elim (Bool-cases (ltb c 128)) [
  | inl y ↦ rw y (record {
    same_size = refl;
    moves = omega arith;
    reads = λ r. encode_ascii-Reads c (ground arith) r;
  })
  | inr n ↦
      rw n (encode_rune-Corresponds (decode_rune c rest) (c ∷ rest) (decode_rune-Decoded c rest))
]
