-- ===== src/Matching/Induction.antt =====
-- What holds of a run over the matches of an expression, from what holds of its parts.
use cpa_plugin_privacyfilter.Base.{
  ℕ, zero, suc, ◌+◌, ◌≤◌, Bool, true, false, Option, none, some, List, ◌≡◌, refl, ltb,
  if◌then◌else◌, Bool-cases, inl, inr, Bytes, length, drop, arith,
}
use cpa_plugin_privacyfilter.Base.Int.{ℤ}
use cpa_plugin_privacyfilter.Spans.{Candidate}
use cpa_plugin_privacyfilter.Matching.{
  Regex, Scan, finish, emit, ◌▷◌, absolute, check, resume, at_match, submatch_loop,
  for_each_submatch, match_visit, for_each_match,
}

-- A property of detectors that goes over to what is built of them.
pub record Composes (done : ℕ → Bool) (R : Scan → Type 0) : Type 0 where
  pub finished : R finish
  pub checked : R (check done)
  pub chained : (m k : Scan) → R m → R k → R (m ▷ k)

pub if-R : (R : Scan → Type 0) (b : Bool) (m k : Scan) → R m → R k → R (if b then m else k)
if-R R true m k h g = h
if-R R false m k h g = g

module _ (done : ℕ → Bool) (R : Scan → Type 0) (c : Composes done R) where
  resume-R : (loop : ℕ → Scan) (n : Option ℕ) → ((o : ℕ) → R (loop o)) → R (resume loop n)
  resume-R loop none h = c.finished
  resume-R loop (some o) h = h o

  at_match-R :
      (text : Bytes) (visit : List ℤ → Option Candidate) (loop : ℕ → Scan) (offset : ℕ)
      (m : Option (List ℤ))
      → ((is : List ℤ) → m ≡ some is → R (emit (visit (absolute offset is))))
      → ((o : ℕ) → R (loop o))
      → R (at_match text visit loop offset m)
  unfolding at_match
  at_match-R text visit loop offset none h g = c.finished
  at_match-R text visit loop offset (some is) h g =
      c.chained (emit (visit (absolute offset is))) (resume loop _) (h is refl) (resume-R loop _ g)

  module _ (re : Regex) (text : Bytes) (visit : List ℤ → Option Candidate)
      (h : (offset : ℕ) (is : List ℤ)
        → offset ≤ length text
        → re (drop offset text) ≡ some is
        → R (emit (visit (absolute offset is)))) where
    submatch_loop-R : (fuel offset : ℕ) → R (submatch_loop done re text visit fuel offset)
    unfolding submatch_loop
    submatch_loop-R zero offset = c.finished
    submatch_loop-R (suc fuel) offset = elim (Bool-cases (ltb (length text) offset)) [
      | inl y ↦ rw y c.finished
      | inr n ↦ rw n (
          c.chained (check done)
            (at_match text visit (submatch_loop done re text visit fuel) offset
              (re (drop offset text)))
            c.checked
            (at_match-R text visit (submatch_loop done re text visit fuel) offset
              (re (drop offset text)) (λ is e. h offset is (ground arith) e)
              (submatch_loop-R fuel)))
    ]

    pub for_each_submatch-R : R (for_each_submatch done re text visit)
    unfolding for_each_submatch
    for_each_submatch-R = submatch_loop-R (length text + 2) 0

  pub for_each_match-R :
      (re : Regex) (text : Bytes) (visit : ℤ → ℤ → Option Candidate)
      → ((offset : ℕ) (is : List ℤ)
          → offset ≤ length text
          → re (drop offset text) ≡ some is
          → R (emit (match_visit visit (absolute offset is))))
      → R (for_each_match done re text visit)
  unfolding for_each_match
  for_each_match-R re text visit h = for_each_submatch-R re text (match_visit visit) h
