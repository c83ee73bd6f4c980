-- ===== src/Payload/Splice.antt =====
-- `splice` and `appendWithContext` of payload/jsonscan.go.
pub mod Masked
use cpa_plugin_privacyfilter.Base.{
  ℕ, zero, suc, ◌+◌, ◌-◌, ◌*◌, ◌^◌, min, Bool, ◌||◌, List, [], ◌∷◌, ◌++◌, if◌then◌else◌, ltb, leb,
  Bytes, length, take, drop, slice,
}
use cpa_plugin_privacyfilter.Payload.{
  PayloadError, Result, Step, return, fail, ◌>>=◌, check_context, Span, overlapping_replacements,
  replacement_limit,
}

-- `stringEdit`
pub record StringEdit : Type 0 where
  pub span : Span
  pub encoded : Bytes

-- `int(^uint(0) >> 1)` on a 64-bit platform
abbrev pub max_int : ℕ
max_int = 2 ^ 63 - 1

abbrev pub chunk_bytes : ℕ
chunk_bytes = 64 * 2 ^ 10

module _ (done : ℕ → Bool) where
  -- `appendWithContext`, on fuel: a chunk is not empty, so the length of `src` is enough.
  unfoldable pub append_chunks : ℕ → Bytes → Bytes → Step ℕ Bytes
  append_chunks fuel dst [] = return dst
  append_chunks zero dst (b ∷ src) = return dst
  append_chunks (suc fuel) dst (b ∷ src) = do
    let n = min chunk_bytes (length (b ∷ src))
    _ ← check_context done
    append_chunks fuel (dst ++ take n (b ∷ src)) (drop n (b ∷ src))

  abbrev pub append_with_context : Bytes → Bytes → Step ℕ Bytes
  append_with_context dst src = append_chunks (length src) dst src

  -- The size after an edit, or the error that it does not fit an `int`.
  abbrev pub resize : ℕ → ℕ → ℕ → Step ℕ ℕ
  resize size old new =
      if ltb old new
      then (if ltb (max_int - (new - old)) size
          then fail replacement_limit
          else return (size + (new - old)))
      else return (size - (old - new))

  -- One edit of the first loop: the guard, and the size after the edit.
  unfoldable pub check_edit : Bytes → ℕ → ℕ → StringEdit → Step ℕ ℕ
  check_edit body size previous_end e =
      if ltb e.span.start previous_end
        || leb e.span.stop e.span.start
        || ltb (length body) e.span.stop
      then fail overlapping_replacements
      else resize size (e.span.stop - e.span.start) (length e.encoded)

  -- The first loop of `splice`: the edits are checked, and the size of the result is computed.
  unfoldable pub check_edits : Bytes → ℕ → ℕ → List StringEdit → Step ℕ ℕ
  unfolding check_context check_edit
  check_edits body size previous_end [] = return size
  check_edits body size previous_end (e ∷ es) = do
    _ ← check_context done
    size' ← check_edit body size previous_end e
    check_edits body size' e.span.stop es

  -- The second loop, with the tail of the body after it.
  unfoldable pub write_edits : Bytes → Bytes → ℕ → List StringEdit → Step ℕ Bytes
  unfolding append_chunks
  write_edits body out previous_end [] = append_with_context out (drop previous_end body)
  write_edits body out previous_end (e ∷ es) = do
    out' ← append_with_context out (slice body previous_end e.span.start)
    out'' ← append_with_context out' e.encoded
    write_edits body out'' e.span.stop es

  unfoldable pub splice : Bytes → List StringEdit → Step ℕ Bytes
  unfolding check_edits write_edits
  splice body edits = do size ← check_edits body (length body) 0 edits; write_edits body [] 0 edits
