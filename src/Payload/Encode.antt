-- ===== src/Payload/Encode.antt =====
-- `encodeStringContext` of payload/jsonscan.go, and `utf8.DecodeRuneInString`, which it uses.
pub mod Grammar
pub mod Runes
pub mod RoundTrip
pub mod Pieces
use cpa_plugin_privacyfilter.Base.{
  ℕ, zero, suc, ◌+◌, ◌-◌, ◌*◌, ◌/◌, ◌%◌, Bool, true, false, ◌&&◌, ◌||◌, List, [], ◌∷◌, ◌++◌,
  if◌then◌else◌, ltb, leb, ◌==◌, Bytes, length, take, drop,
}
use cpa_plugin_privacyfilter.Payload.{Step, return, fail, canceled, ◌>>=◌, check_context}

-- `utf8.RuneError`
abbrev pub rune_error : ℕ
rune_error = 65533

abbrev pub is_between : ℕ → ℕ → ℕ → Bool
is_between lo hi b = leb lo b && leb b hi

-- The range of the second byte after a first byte of 224 or more.
abbrev pub second_low : ℕ → ℕ
second_low b = if b == 224 then 160 else (if b == 240 then 144 else 128)

abbrev pub second_high : ℕ → ℕ
second_high b = if b == 237 then 159 else (if b == 244 then 143 else 191)

abbrev pub decode_three : ℕ → ℕ → Bytes → ℕ × ℕ
decode_three b c [] = (rune_error, 1)
decode_three b c (d ∷ ds) =
    if is_between 128 191 d
    then ((b - 224) * 4096 + (c - 128) * 64 + (d - 128), 3)
    else (rune_error, 1)

abbrev pub decode_four : ℕ → ℕ → Bytes → ℕ × ℕ
decode_four b c [] = (rune_error, 1)
decode_four b c (d ∷ []) = (rune_error, 1)
decode_four b c (d ∷ e ∷ es) =
    if is_between 128 191 d && is_between 128 191 e
    then ((b - 240) * 262144 + (c - 128) * 4096 + (d - 128) * 64 + (e - 128), 4)
    else (rune_error, 1)

-- `utf8.DecodeRuneInString` on a string whose first byte is 128 or more: the rune, and its length.
unfoldable pub decode_rune : ℕ → Bytes → ℕ × ℕ
decode_rune b [] = (rune_error, 1)
decode_rune b (c ∷ cs) =
    if is_between 194 223 b && is_between 128 191 c
    then ((b - 192) * 64 + (c - 128), 2)
    else if is_between 224 239 b && is_between (second_low b) (second_high b) c
    then decode_three b c cs
    else if is_between 240 244 b && is_between (second_low b) (second_high b) c
    then decode_four b c cs
    else (rune_error, 1)

-- `hex[n]`
abbrev pub hex : ℕ → ℕ
hex n = if ltb n 10 then 48 + n else 87 + n

-- The bytes that one byte below 128 becomes.
unfoldable pub encode_ascii : ℕ → Bytes
encode_ascii c =
    if c == 34 || c == 92
    then 92 ∷ c ∷ []
    else if c == 8
    then 92 ∷ 98 ∷ []
    else if c == 12
    then 92 ∷ 102 ∷ []
    else if c == 10
    then 92 ∷ 110 ∷ []
    else if c == 13
    then 92 ∷ 114 ∷ []
    else if c == 9
    then 92 ∷ 116 ∷ []
    else if ltb c 32
    then 92 ∷ 117 ∷ 48 ∷ 48 ∷ hex (c / 16) ∷ hex (c % 16) ∷ []
    else c ∷ []

abbrev pub encode_rune : ℕ × ℕ → Bytes → Bytes × ℕ
encode_rune (r, size) text =
    if r == rune_error && size == 1
    then (239 ∷ 191 ∷ 189 ∷ [], 1)
    else if r == 8232 || r == 8233
    then (92 ∷ 117 ∷ 50 ∷ 48 ∷ 50 ∷ hex (r % 256 % 16) ∷ [], size)
    else (take size text, size)

-- The body of the loop: what the text at `i` becomes, and how far the loop moves.
unfoldable pub encode_head : ℕ → Bytes → Bytes × ℕ
unfolding decode_rune encode_ascii
encode_head c rest =
    if ltb c 128 then (encode_ascii c, 1) else encode_rune (decode_rune c rest) (c ∷ rest)

abbrev pub context_check_interval : ℕ
context_check_interval = 1024

module _ (done : ℕ → Bool) where
  -- The check at the head of the loop: the next index at which the context is read.
  unfoldable pub poll : ℕ → ℕ → Step ℕ ℕ
  poll i next_check =
      if leb next_check i
      then (check_context done >>= λ _. return (i + context_check_interval))
      else return next_check

  -- The loop, on fuel. It moves by at least one byte, so the length of the text is enough; with less,
  -- it fails as if the context were canceled.
  unfoldable pub encode_loop : ℕ → ℕ → ℕ → Bytes → Bytes → Step ℕ Bytes
  unfolding poll encode_head
  encode_loop fuel i next_check out [] = return out
  encode_loop zero i next_check out (c ∷ rest) = fail canceled
  encode_loop (suc fuel) i next_check out (c ∷ rest) = do
    next ← poll i next_check
    let (piece, size) = encode_head c rest
    encode_loop fuel (i + size) next (out ++ piece) (drop size (c ∷ rest))

  unfoldable pub encode_string_context : Bytes → Step ℕ Bytes
  unfolding encode_loop check_context
  encode_string_context value = do
    out ← encode_loop (length value) 0 context_check_interval (34 ∷ []) value
    _ ← check_context done
    return (out ++ (34 ∷ []))
