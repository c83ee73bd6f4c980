-- ===== src/Payload/Scanner/Strings.antt =====
-- `stringValue` and `skipWhitespace` of payload/jsonscan.go, with what they use of `unicode/utf8` and of
-- `json.Unmarshal` on a string.
use cpa_plugin_privacyfilter.Base.{
  ℕ, zero, suc, ◌+◌, ◌-◌, ◌*◌, ◌/◌, ◌%◌, Bool, true, false, not, ◌&&◌, ◌||◌, Option, none, some, [],
  ◌∷◌, ◌++◌, if◌then◌else◌, ltb, leb, ◌==◌, Bytes, length, take, drop,
}
use cpa_plugin_privacyfilter.Base.Text.{is_digit}
use cpa_plugin_privacyfilter.Base.Int.{pos, ltb_ℤ}
use cpa_plugin_privacyfilter.Payload.{
  invalid_json, string_too_large, Step, return, fail, ◌>>=◌, Limits,
}
use cpa_plugin_privacyfilter.Payload.Encode.{decode_rune}
use cpa_plugin_privacyfilter.Payload.Encode.Grammar.{hex_value, utf8}
use cpa_plugin_privacyfilter.Payload.Encode.Pieces.{repair_head}
use cpa_plugin_privacyfilter.Payload.Scanner.{Scanner, get, modify, advance, check_now, check_at}

abbrev pub is_hex : ℕ → Bool
is_hex c = is_digit c || leb 97 c && leb c 102 || leb 65 c && leb c 70

-- `utf8.Valid`, on fuel: a rune is not empty, so the length is enough.
unfoldable pub is_valid_utf8 : ℕ → Bytes → Bool
unfolding decode_rune
is_valid_utf8 fuel [] = true
is_valid_utf8 zero (c ∷ rest) = true
is_valid_utf8 (suc fuel) (c ∷ rest) =
    let size = if ltb c 128 then 1 else (decode_rune c rest).1 in
    let tail_valid = is_valid_utf8 fuel (drop size (c ∷ rest)) in
    if ltb c 128 then tail_valid else not (size == 1) && tail_valid

-- `getu4` on the bytes after `\u`
abbrev pub hex_four : Bytes → Option ℕ
hex_four (a ∷ b ∷ c ∷ d ∷ rest) = elim (hex_value a) [
  | none ↦ none
  | some i ↦ elim (hex_value b) [
    | none ↦ none
    | some j ↦ elim (hex_value c) [
      | none ↦ none
      | some k ↦ elim (hex_value d) [
        | none ↦ none
        | some l ↦ some (i * 4096 + j * 256 + k * 16 + l)
      ]
    ]
  ]
]
hex_four _ = none

-- A second escape `\uXXXX`.
abbrev pub next_escape : Bytes → Option ℕ
next_escape (b ∷ u ∷ rest) = if b == 92 && u == 117 then hex_four rest else none
next_escape _ = none

-- The code point of a surrogate pair.
abbrev pub pair_rune : ℕ → Option ℕ → Option ℕ
pair_rune high none = none
pair_rune high (some low) =
    if leb 55296 high && ltb high 56320 && leb 56320 low && ltb low 57344
    then some (65536 + (high - 55296) * 1024 + (low - 56320))
    else none

abbrev pub utf8_four : ℕ → Bytes
utf8_four r = (240 + r / 262144) ∷ (128 + r / 4096 % 64) ∷ (128 + r / 64 % 64) ∷ (128 + r % 64) ∷ []

-- A `\u` escape, from the bytes after the `u`: what it stands for, and its length with `\u`.
abbrev pub unquote_unicode : Bytes → Bytes × ℕ
unquote_unicode rest = elim (hex_four rest) [
  | none ↦ ([], 2)
  | some r ↦
      if leb 55296 r && ltb r 57344
      then (elim (pair_rune r (next_escape (drop 4 rest))) [
        | none ↦ (239 ∷ 191 ∷ 189 ∷ [], 6)
        | some p ↦ (utf8_four p, 12)
      ])
      else (utf8 r, 6)
]

abbrev pub unquote_escape : ℕ → Bytes → Bytes × ℕ
unquote_escape e rest =
    if e == 117
    then unquote_unicode rest
    else if e == 98
    then (8 ∷ [], 2)
    else if e == 102
    then (12 ∷ [], 2)
    else if e == 110
    then (10 ∷ [], 2)
    else if e == 114
    then (13 ∷ [], 2)
    else if e == 116
    then (9 ∷ [], 2)
    else (e ∷ [], 2)

abbrev pub unquote_head : ℕ → Bytes → Bytes × ℕ
unquote_head c [] = repair_head c []
unquote_head c (e ∷ rest) = if c == 92 then unquote_escape e rest else repair_head c (e ∷ rest)

-- `json.Unmarshal` of a string whose escapes were checked, from the bytes between the quotes.
unfoldable pub unquote : ℕ → Bytes → Bytes
unfolding repair_head decode_rune
unquote fuel [] = []
unquote zero (c ∷ rest) = []
unquote (suc fuel) (c ∷ rest) =
    let (piece, size) = unquote_head c rest in piece ++ unquote fuel (drop size (c ∷ rest))

-- The offset of the first of the bytes that is not a hexadecimal digit.
abbrev pub first_not_hex : ℕ → Bytes → Option ℕ
first_not_hex j [] = none
first_not_hex j (c ∷ cs) = if is_hex c then first_not_hex (suc j) cs else some j

-- An escape whose letter stands at `i`: its length with the backslash.
abbrev pub escape_length : ℕ → Bytes → Step Scanner ℕ
escape_length i [] = fail (invalid_json i)
escape_length i (e ∷ rest) =
    if e == 34 || e == 92 || e == 47 || e == 98 || e == 102 || e == 110 || e == 114 || e == 116
    then return 2
    else if e == 117
    then (if ltb (length rest) 4
        then fail (invalid_json i)
        else elim (first_not_hex (suc i) (take 4 rest)) [
          | none ↦ return 6
          | some j ↦ fail (invalid_json j)
        ])
    else fail (invalid_json i)

-- What the loop passes at `i`, where no quote stands.
abbrev pub unit_length : ℕ → ℕ → Bytes → Step Scanner ℕ
unit_length i c rest =
    if c == 92
    then escape_length (suc i) rest
    else if ltb c 32
    then fail (invalid_json i)
    else return 1

module _ (done : ℕ → Bool) (limits : Limits) where
  -- At the closing quote: the value, from the raw bytes.
  unfoldable pub finish_string : ℕ → Bool → Bytes → Bytes → Step Scanner Bytes
  unfolding unquote is_valid_utf8 check_now
  finish_string stop has_escape raw rest = do
    let value =
        (if not has_escape && is_valid_utf8 (length raw) raw then raw else unquote (length raw) raw)
    _ ← modify (λ s. record s { position = stop; rest = rest })
    if ltb_ℤ limits.max_string_bytes (pos (length value))
        then fail string_too_large
        else (check_now done >>= λ _. return value)

  -- The loop at `i`, with the raw bytes so far; each turn passes a byte, so the length is fuel enough.
  unfoldable pub string_loop : ℕ → ℕ → Bool → Bytes → Bytes → Step Scanner Bytes
  unfolding finish_string check_at
  string_loop fuel i has_escape raw [] = fail (invalid_json i)
  string_loop zero i has_escape raw (c ∷ rest) = fail (invalid_json i)
  string_loop (suc fuel) i has_escape raw (c ∷ rest) = do
    _ ← check_at done i
    let further =
        (unit_length i c rest >>= λ n.
        string_loop fuel (i + n) (has_escape || c == 92) (raw ++ take n (c ∷ rest))
          (drop n (c ∷ rest)))
    if c == 34 then finish_string (suc i) has_escape raw rest else further

  -- `stringValue`, at an opening quote
  unfoldable pub string_value : Step Scanner Bytes
  unfolding string_loop
  string_value = do s ← get; string_loop (length s.rest) (suc s.position) false [] (drop 1 s.rest)

  abbrev pub is_space : ℕ → Bool
  is_space c = c == 32 || c == 9 || c == 10 || c == 13

  -- `skipWhitespace`, over the bytes that are left
  unfoldable pub skip_loop : Bytes → Step Scanner (Unit {0})
  unfolding check_at
  skip_loop [] = return tt
  skip_loop (c ∷ cs) = do
    let further = (do _ ← advance 1; s ← get; _ ← check_at done s.position; skip_loop cs)
    if is_space c then further else return tt

  unfoldable pub skip_whitespace : Step Scanner (Unit {0})
  unfolding skip_loop
  skip_whitespace = do s ← get; skip_loop s.rest
