-- ===== src/Secrets/Noise.antt =====
-- The texts that are no secrets (internal/privacyengine/secrets.go). The expressions that are not a
-- plain test of bytes are arguments, and so is what goes by the Unicode tables or by floating-point
-- numbers, which are the values of a type `F`.
use cpa_plugin_privacyfilter.Base.{
  ℕ, ◌+◌, Bool, true, false, not, ◌&&◌, ◌||◌, Option, none, some, List, [], ◌∷◌, ltb, leb, ◌==◌,
  if◌then◌else◌, Bytes, bytes_eq, length, take, drop,
}
use cpa_plugin_privacyfilter.Base.Text.{
  codes, is_digit, starts_with, ends_with, contains, has_byte, contains_any, index_byte, count_byte,
  any_of,
}
use cpa_plugin_privacyfilter.Matching.{Regex}

-- The test of `MatchString`.
abbrev pub Matches : Type 0
Matches = Bytes → Bool

-- The function of `FindStringIndex`, whose indices are never negative.
abbrev pub Finder : Type 0
Finder = Bytes → Option (ℕ × ℕ)

-- What the file is written with: library functions, and its own expressions.
pub record Toolbox {ℓ} (F : Type ℓ) : Type ℓ where
  pub to_lower : Bytes → Bytes
  pub to_upper : Bytes → Bytes
  pub trim_space : Bytes → Bytes
  -- `shannonEntropy`, `<` on floating-point numbers, and the numbers 0, 3.0, 4.0 and 4.8
  pub shannon_entropy : Bytes → F
  pub below : F → F → Bool
  pub zero_point : F
  pub short_min : F
  pub entropy_min : F
  pub entropy_min_strict : F
  pub template_var : Matches
  pub simple_var : Matches
  pub credential_placeholder : Matches
  pub host_port_prefix : Matches
  pub auth_header_prefix : Matches
  pub secret_context : Finder
  pub context_secret : Regex

unfoldable pub every_byte : (ℕ → Bool) → Bytes → Bool
every_byte test [] = true
every_byte test (c ∷ cs) = test c && every_byte test cs

-- `^[*xX._-]{3,}$`
unfoldable pub re_mask_only : Matches
unfolding every_byte has_byte
re_mask_only text = leb 3 (length text) && every_byte (λ c. has_byte c (codes "*xX._-")) text

abbrev pub is_hex_byte : ℕ → Bool
is_hex_byte c = is_digit c || (leb 65 c && leb c 70) || (leb 97 c && leb c 102)

-- `^[0-9a-fA-F]+$`
unfoldable pub re_hex_only : Matches
unfolding every_byte
re_hex_only text = leb 1 (length text) && every_byte is_hex_byte text

-- Groups of hexadecimal digits of the given lengths, with dashes between them.
unfoldable pub hex_groups : List ℕ → Bytes → Bool
unfolding every_byte starts_with
hex_groups [] text = false
hex_groups (n ∷ []) text = length text == n && every_byte is_hex_byte text
hex_groups (n ∷ m ∷ ns) text =
    leb n (length text)
    && every_byte is_hex_byte (take n text)
    && starts_with (drop n text) (codes "-")
    && hex_groups (m ∷ ns) (drop (n + 1) text)

-- `isUUID`, with its expression
unfoldable pub is_uuid : Matches
unfolding hex_groups
is_uuid value = hex_groups (8 ∷ 4 ∷ 4 ∷ 4 ∷ 12 ∷ []) value

unfoldable pub is_hex_hash : Matches
unfolding re_hex_only
is_hex_hash value =
    (length value == 32 || length value == 40 || length value == 64) && re_hex_only value

abbrev pub common_placeholders : List Bytes
common_placeholders =
    codes "REPLACE_ME"
    ∷ codes "REPLACE_THIS"
    ∷ codes "REPLACE_WITH"
    ∷ codes "YOUR_KEY"
    ∷ codes "YOUR_TOKEN"
    ∷ codes "YOUR_SECRET"
    ∷ codes "YOUR_API_KEY"
    ∷ codes "YOUR_PASSWORD"
    ∷ codes "INSERT_HERE"
    ∷ codes "INSERT_KEY"
    ∷ codes "INSERT_TOKEN"
    ∷ codes "PLACEHOLDER"
    ∷ codes "EXAMPLE_KEY"
    ∷ codes "EXAMPLE_TOKEN"
    ∷ codes "TODO"
    ∷ codes "FIXME"
    ∷ codes "XXXX"
    ∷ []

-- `hasJSONNoise`
unfoldable pub has_json_noise : Matches
unfolding has_byte
has_json_noise value = has_byte 44 value

unfoldable pub is_filesystem_path : Matches
unfolding count_byte starts_with
is_filesystem_path value =
    if ltb (count_byte 47 value) 2
    then false
    else starts_with value (codes "/")
      || starts_with value (codes "./")
      || starts_with value (codes "../")

abbrev pub benign_id_suffixes : List Bytes
benign_id_suffixes =
    codes "_id" ∷ codes "_uuid" ∷ codes "_uid" ∷ codes "_oid" ∷ codes "_no" ∷ codes "_seq" ∷ []

abbrev pub credential_words : List Bytes
credential_words =
    codes "key"
    ∷ codes "secret"
    ∷ codes "token"
    ∷ codes "auth"
    ∷ codes "password"
    ∷ codes "credential"
    ∷ []

module _ {ℓ} {F : Type ℓ} (t : Toolbox F) where
  unfoldable pub is_exact_common_placeholder : Matches
  unfolding any_of bytes_eq
  is_exact_common_placeholder value = any_of (bytes_eq (t.to_upper value)) common_placeholders

  unfoldable pub is_likely_placeholder : Matches
  unfolding any_of contains
  is_likely_placeholder value = any_of (contains (t.to_upper value)) common_placeholders

  unfoldable pub is_credential_placeholder : Matches
  unfolding is_exact_common_placeholder re_mask_only
  is_credential_placeholder value =
      let trimmed = t.trim_space value in
      length trimmed == 0
      || t.template_var trimmed
      || t.simple_var trimmed
      || t.credential_placeholder trimmed
      || re_mask_only trimmed
      || is_exact_common_placeholder trimmed

  unfoldable pub is_context_secret_noise : Matches
  unfolding is_credential_placeholder contains contains_any
  is_context_secret_noise value =
      if is_credential_placeholder value || t.template_var value || contains value (codes "${")
      then true
      else if leb (length value) 16 && t.below (t.shannon_entropy value) t.short_min
      then true
      else leb (length value) 24 && contains_any value (codes "()[]{}")

  unfoldable pub looks_like_url_match : Matches
  unfolding contains
  looks_like_url_match value = contains value (codes "://") || t.host_port_prefix value

  -- The test of the name before the equals sign.
  is_business_id : Bytes → Bool
  unfolding any_of contains ends_with
  is_business_id name =
      not (any_of (contains name) credential_words) && any_of (ends_with name) benign_id_suffixes

  unfoldable pub is_business_id_assignment : Matches
  unfolding is_business_id index_byte
  is_business_id_assignment value = elim (index_byte 61 value) [
    | none ↦ false
    | some equals ↦ if equals == 0 then false else is_business_id (t.to_lower (take equals value))
  ]
