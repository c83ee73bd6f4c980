-- ===== src/Matching.antt =====
-- `forEachSubmatchIndex` and `forEachMatchIndex` of internal/privacyengine/secrets.go. A regular
-- expression is the function that `FindStringSubmatchIndex` is on it. A detector is a `Scan`: the
-- candidates that it hands to the collector, in order, the error with which it ends if the
-- collector takes them all, and how often it has read the context.
pub mod Fuel
pub mod Induction
pub mod Bounds
pub mod Ends
use cpa_plugin_privacyfilter.Base.{
  ℕ, zero, suc, ◌+◌, ◌-◌, max, Bool, true, false, Option, none, some, List, [], ◌∷◌, ◌++◌, map, ltb,
  leb, ◌==◌, if◌then◌else◌, Bytes, length, drop, get_elem?,
}
use cpa_plugin_privacyfilter.Base.Int.{ℤ, pos, negsuc}
use cpa_plugin_privacyfilter.Spans.{Candidate}
use cpa_plugin_privacyfilter.Engine.{EngineError, canceled}
use cpa_plugin_privacyfilter.Payload.Encode.{decode_rune}

-- The indices of a match and of its groups, in pairs; -1 where a group took no part.
abbrev pub Regex : Type 0
Regex = Bytes → Option (List ℤ)

abbrev pub Scan : Type 0
Scan = ℕ → List Candidate × Option EngineError × ℕ

abbrev pub finish : Scan
finish t = ([], none, t)

-- `collector.add`, if the visit gets so far.
abbrev pub emit : Option Candidate → Scan
emit none t = ([], none, t)
emit (some k) t = (k ∷ [], none, t)

abbrev pub after :
    List Candidate
    → List Candidate × Option EngineError × ℕ
    → List Candidate × Option EngineError × ℕ
after ks (ks', e, t) = (ks ++ ks', e, t)

abbrev pub proceed :
    Scan → List Candidate × Option EngineError × ℕ → List Candidate × Option EngineError × ℕ
proceed k (ks, none, t) = after ks (k t)
proceed k (ks, some e, t) = (ks, some e, t)

infixl 5 ◌▷◌
abbrev pub ◌▷◌ : Scan → Scan → Scan
(m ▷ k) t = proceed k (m t)

-- `index >= 0` makes `offset + index`.
abbrev pub absolute : ℕ → List ℤ → List ℤ
absolute offset [] = []
absolute offset (pos i ∷ is) = pos (offset + i) ∷ absolute offset is
absolute offset (negsuc i ∷ is) = negsuc i ∷ absolute offset is

abbrev pub index_at : List ℤ → ℕ → ℤ
index_at is n = elim (get_elem? is n) [ none ↦ negsuc 0 | some i ↦ i ]

-- The width of the rune at the head, at least 1.
unfoldable pub rune_width : Bytes → ℕ
unfolding decode_rune
rune_width [] = 1
rune_width (c ∷ rest) = if ltb c 128 then 1 else max 1 (decode_rune c rest).1

-- Where the loop goes on after a match that ends at `stop`; `none` leaves the loop.
unfoldable pub next_offset : Bytes → ℕ → ℤ → Option ℕ
unfolding rune_width
next_offset text offset (pos stop) =
    if ltb offset stop
    then some stop
    else if offset == length text
    then none
    else some (offset + rune_width (drop offset text))
next_offset text offset (negsuc i) =
    if offset == length text then none else some (offset + rune_width (drop offset text))

abbrev pub resume : (ℕ → Scan) → Option ℕ → Scan
resume loop none = finish
resume loop (some offset) = loop offset

abbrev pub at_match : Bytes → (List ℤ → Option Candidate) → (ℕ → Scan) → ℕ → Option (List ℤ) → Scan
unfolding next_offset
at_match text visit loop offset none = finish
at_match text visit loop offset (some indices) =
    emit (visit (absolute offset indices))
    ▷ resume loop (next_offset text offset (index_at (absolute offset indices) 1))

-- The visit that `forEachMatchIndex` passes on.
abbrev pub match_visit : (ℤ → ℤ → Option Candidate) → List ℤ → Option Candidate
match_visit visit [] = none
match_visit visit (i ∷ []) = none
match_visit visit (i ∷ j ∷ is) = visit i j

module _ (done : ℕ → Bool) where
  -- `if err := ctx.Err(); err != nil { return err }`
  unfoldable pub check : Scan
  check t = ([], (if done t then some canceled else none), suc t)

  -- The loop of `forEachSubmatchIndex` at `offset`, on fuel.
  unfoldable pub submatch_loop : Regex → Bytes → (List ℤ → Option Candidate) → ℕ → ℕ → Scan
  unfolding check at_match
  submatch_loop re text visit zero offset = finish
  submatch_loop re text visit (suc fuel) offset =
      let rest : Scan =
        check
        ▷ at_match text visit (submatch_loop re text visit fuel) offset (re (drop offset text)) in
      if ltb (length text) offset then finish else rest

  -- `forEachSubmatchIndex`: the offset grows in each turn, so Matching/Fuel shows this enough.
  unfoldable pub for_each_submatch : Regex → Bytes → (List ℤ → Option Candidate) → Scan
  unfolding submatch_loop
  for_each_submatch re text visit = submatch_loop re text visit (length text + 2) 0

  -- `forEachMatchIndex`
  unfoldable pub for_each_match : Regex → Bytes → (ℤ → ℤ → Option Candidate) → Scan
  unfolding for_each_submatch
  for_each_match re text visit = for_each_submatch re text (match_visit visit)
