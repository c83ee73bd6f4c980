-- ===== src/Secrets/Tokens.antt =====
-- `forEachEntropyToken` of internal/privacyengine/secrets.go.
pub mod Runs
use cpa_plugin_privacyfilter.Base.{
  ℕ, zero, suc, ◌+◌, ◌-◌, ◌%◌, Bool, true, false, ◌&&◌, ◌||◌, Option, none, some, List, [], ◌∷◌,
  leb, ◌==◌, if◌then◌else◌, Bytes,
}
use cpa_plugin_privacyfilter.Base.Text.{codes, is_digit, is_upper, is_lower, has_byte}
use cpa_plugin_privacyfilter.Matching.{Scan, finish, ◌▷◌, check}

-- `isEntropyTokenByte`, with its table
unfoldable pub is_entropy_token_byte : ℕ → Bool
unfolding has_byte
is_entropy_token_byte c = is_lower c || is_upper c || is_digit c || has_byte c (codes "+/=_-")

-- What is done at the end of a run: `start >= 0 && i-start >= 20`.
abbrev pub close_token : (ℕ → ℕ → Scan) → Option ℕ → ℕ → Scan
close_token visit none i = finish
close_token visit (some start) i = if leb 20 (i - start) then visit start i else finish

abbrev pub token_start : Option ℕ → ℕ → Option ℕ
token_start none i = some i
token_start (some start) i = some start

module _ (done : ℕ → Bool) (visit : ℕ → ℕ → Scan) where
  -- `if i&4095 == 0`
  unfoldable pub check_often : ℕ → Scan
  unfolding check
  check_often i = if i % 4096 == 0 then check done else finish

  -- The loop, from the byte at `i`; the last turn is at the end of the text.
  unfoldable pub token_loop : Option ℕ → ℕ → Bytes → Scan
  unfolding check_often is_entropy_token_byte
  token_loop start i [] = check_often i ▷ close_token visit start i
  token_loop start i (c ∷ cs) =
      let inside : Scan = token_loop (token_start start i) (suc i) cs in
      let outside : Scan = close_token visit start i ▷ token_loop none (suc i) cs in
      check_often i ▷ (if is_entropy_token_byte c then inside else outside)

  unfoldable pub for_each_entropy_token : Bytes → Scan
  unfolding token_loop
  for_each_entropy_token text = token_loop none 0 text
