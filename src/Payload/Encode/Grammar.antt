-- ===== src/Payload/Encode/Grammar.antt =====
-- The strings of the JSON grammar (RFC 8259, section 7), as a relation between the bytes between
-- the quotes and the bytes that they stand for.
use cpa_plugin_privacyfilter.Base.{
  ℕ, ◌+◌, ◌-◌, ◌*◌, ◌/◌, ◌%◌, ◌≤◌, ◌<◌, ◌&&◌, Option, none, some, [], ◌∷◌, ◌++◌, ◌≡◌, ◌≢◌,
  if◌then◌else◌, ltb, leb, Bytes,
}

-- The character that a one-letter escape stands for.
pub data Escape : ℕ → ℕ → Type 0 where
  quote : Escape 34 34
  backslash : Escape 92 92
  solidus : Escape 47 47
  backspace : Escape 98 8
  form_feed : Escape 102 12
  line_feed : Escape 110 10
  carriage_return : Escape 114 13
  tabulator : Escape 116 9

abbrev pub hex_value : ℕ → Option ℕ
hex_value c =
    if leb 48 c && leb c 57
    then some (c - 48)
    else if leb 97 c && leb c 102
    then some (c - 87)
    else if leb 65 c && leb c 70
    then some (c - 55)
    else none

-- The bytes of a code point of the basic plane in UTF-8.
abbrev pub utf8 : ℕ → Bytes
utf8 r =
    if ltb r 128
    then r ∷ []
    else if ltb r 2048
    then (192 + r / 64) ∷ (128 + r % 64) ∷ []
    else (224 + r / 4096) ∷ (128 + r / 64 % 64) ∷ (128 + r % 64) ∷ []

pub data Reads : Bytes → Bytes → Type 0 where
  at_end : Reads [] []
  plain : {b : ℕ} {s v : Bytes} → 32 ≤ b → b ≢ 34 → b ≢ 92 → Reads s v → Reads (b ∷ s) (b ∷ v)
  escaped : {e c : ℕ} {s v : Bytes} → Escape e c → Reads s v → Reads (92 ∷ e ∷ s) (c ∷ v)
  -- `\uXXXX`, for a code point that is not a surrogate
  unicode :
      {a b c d i j k l : ℕ} {s v : Bytes}
      → hex_value a ≡ some i
      → hex_value b ≡ some j
      → hex_value c ≡ some k
      → hex_value d ≡ some l
      → i * 4096 + j * 256 + k * 16 + l < 55296
      → Reads s v
      → Reads (92 ∷ 117 ∷ a ∷ b ∷ c ∷ d ∷ s) (utf8 (i * 4096 + j * 256 + k * 16 + l) ++ v)
