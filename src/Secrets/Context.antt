-- ===== src/Secrets/Context.antt =====
-- What stands before and around a token (internal/privacyengine/secrets.go). A slice of a text
-- or the byte at an index is `none` where the Go program would panic, and so is what depends on it.
pub mod Slices
use cpa_plugin_privacyfilter.Base.{
  ℕ, zero, suc, ◌+◌, ◌-◌, max, Bool, true, false, not, ◌&&◌, ◌||◌, Option, none, some, List, [],
  ◌∷◌, ltb, leb, ◌==◌, if◌then◌else◌, Bytes, length, drop, slice, get_elem?,
}
use cpa_plugin_privacyfilter.Base.Int.{ℤ, pos, pos_part, ltb_ℤ, leb_ℤ}
use cpa_plugin_privacyfilter.Base.Text.{codes, contains, has_byte, contains_any, any_of}
use cpa_plugin_privacyfilter.Matching.{rune_width}
use cpa_plugin_privacyfilter.Secrets.Noise.{Matches, Finder, Toolbox, every_byte}

-- `text[from:to]`
unfoldable pub checked_slice : Bytes → ℕ → ℕ → Option Bytes
checked_slice text from to =
    if leb from to && leb to (length text) then some (slice text from to) else none

abbrev pub and_then {ℓ κ} : {A : Type ℓ} {B : Type κ} → Option A → (A → Option B) → Option B
and_then none f = none
and_then (some a) f = f a

-- `start < 0 || start >= end || end > len(text)`
abbrev pub is_no_span : Bytes → ℤ → ℤ → Bool
is_no_span text start stop =
    ltb_ℤ start (pos 0) || leb_ℤ stop start || ltb_ℤ (pos (length text)) stop

-- `!utf8.RuneStart(b)`
abbrev pub is_continuation : ℕ → Bool
is_continuation c = leb 128 c && ltb c 192

-- The loop of `contextStart`, on fuel: `none` if it indexes the text out of range, or does not end.
unfoldable pub skip_continuation : Bytes → ℕ → ℕ → ℕ → Option ℕ
skip_continuation text zero lookback start = none
skip_continuation text (suc fuel) lookback start =
    let next = skip_continuation text fuel (suc lookback) start in
    let tested : Option ℕ =
      and_then (get_elem? text lookback) (λ c. if is_continuation c then next else some lookback) in
    if ltb lookback start && ltb lookback (length text) then tested else some lookback

-- `contextStart`; `contextLookback` is 30, so that the loop makes 30 turns at most.
unfoldable pub context_start : Bytes → ℕ → Option ℕ
unfolding skip_continuation
context_start text start = skip_continuation text 31 (start - 30) start

-- `contextProbeEnd`; `contextOverlapLookahead` is 64.
unfoldable pub context_probe_end : Bytes → ℕ → ℕ → ℕ
context_probe_end text start stop =
    let probe = if ltb (start + 64) start || ltb stop (start + 64) then stop else start + 64 in
    if ltb (length text) probe then length text else probe

-- What the loop of `lastMatchIndex` advances by, from the text at the offset.
unfoldable pub advance : Bytes → ℕ → ℕ
unfolding rune_width
advance tail zero = rune_width tail
advance tail (suc n) = suc n

-- The loop of `lastMatchIndex` at `offset`, on fuel: `none` if it slices the text out of range, or does
-- not end. The last match so far is an argument.
unfoldable pub last_match_loop : Finder → Bytes → ℕ → ℕ → Option (ℕ × ℕ) → Option (Option (ℕ × ℕ))
unfolding checked_slice advance
last_match_loop re text zero offset last = none
last_match_loop re text (suc fuel) offset last =
    let rest : Option (Option (ℕ × ℕ)) = and_then (checked_slice text offset (length text)) (λ tail.
      elim (re tail) [
        | none ↦ some last
        | some (a, b) ↦
            let later =
              last_match_loop re text fuel (offset + advance tail b)
                (some (offset + a, offset + b)) in
            if b == 0 && offset == length text then some (some (offset + a, offset + b)) else later
      ]) in
    if leb offset (length text) then rest else some last

-- `lastMatchIndex`; the offset grows in each turn.
unfoldable pub last_match_index : Finder → Bytes → Option (Option (ℕ × ℕ))
unfolding last_match_loop
last_match_index re text = last_match_loop re text (length text + 2) 0 none

-- The end of `hasStrongSecretContext`, from the last match in the region.
unfoldable pub is_strong : Bytes → ℕ → Option (ℕ × ℕ) → Option Bool
unfolding checked_slice every_byte has_byte
is_strong region candidate_start none = some false
is_strong region candidate_start (some (last_start, last_end)) =
    if ltb (length region) candidate_start
      || ltb last_end last_start
      || ltb (length region) last_end
    then some false
    else if leb candidate_start last_start || ltb candidate_start last_end
    then some true
    else and_then (checked_slice region last_end candidate_start)
        (λ between. some (every_byte (λ c. has_byte c (codes " \t\r\n=:'\"")) between))

abbrev pub url_prefixes : List Bytes
url_prefixes =
    codes "http://"
    ∷ codes "https://"
    ∷ codes "ftp://"
    ∷ codes "ssh://"
    ∷ codes "s3://"
    ∷ codes "gs://"
    ∷ codes "oss://"
    ∷ codes "git@"
    ∷ codes "sha256:"
    ∷ codes "sha1:"
    ∷ codes "md5:"
    ∷ []

-- The byte at an index that the guard has tested.
abbrev pub boundary_at : Bytes → ℕ → Option Bool
boundary_at text i = and_then (get_elem? text i) (λ c. some (has_byte c (codes "/\\:.@?=")))

-- `if`, where the test may panic.
abbrev pub or_else : Option Bool → Option Bool → Option Bool
or_else none b = none
or_else (some true) b = some true
or_else (some false) b = b

-- `isOnPathOrURLBoundary`
unfoldable pub is_on_path_or_url_boundary : Bytes → ℤ → ℤ → Option Bool
unfolding checked_slice contains_any has_byte contains any_of
is_on_path_or_url_boundary text start stop =
    let s = pos_part start in
    let e = pos_part stop in
    if is_no_span text start stop
    then some true
    else or_else
        (and_then (checked_slice text s e) (λ value. some (contains_any value (codes "/\\:"))))
        (or_else (if ltb 0 s then boundary_at text (s - 1) else some false) (
          or_else (if ltb e (length text) then boundary_at text e else some false) (
            and_then (checked_slice text (s - 8) s)
              (λ lookback. some (any_of (contains lookback) url_prefixes)))))

module _ {ℓ} {F : Type ℓ} (t : Toolbox F) where
  unfoldable pub has_secret_context : Bytes → ℤ → ℤ → Option Bool
  unfolding checked_slice context_start context_probe_end
  has_secret_context text start stop =
      let s = pos_part start in
      if is_no_span text start stop
      then some false
      else and_then (context_start text s) (λ lookback.
        and_then (checked_slice text lookback (context_probe_end text s (pos_part stop)))
          (λ region. elim (t.secret_context region) [ none ↦ some false | some m ↦ some true ]))

  unfoldable pub has_strong_secret_context : Bytes → ℤ → ℤ → Option Bool
  unfolding checked_slice context_start context_probe_end last_match_index is_strong
  has_strong_secret_context text start stop =
      let s = pos_part start in
      if is_no_span text start stop
      then some false
      else and_then (context_start text s) (λ lookback.
        or_else
          (and_then (checked_slice text lookback s) (λ before. some (t.auth_header_prefix before)))
          (and_then (checked_slice text lookback (context_probe_end text s (pos_part stop)))
            (λ region.
              and_then (last_match_index t.secret_context region)
                (is_strong region (s - lookback)))))
