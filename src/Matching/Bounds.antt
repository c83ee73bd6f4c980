-- ===== src/Matching/Bounds.antt =====
-- What the candidates of a detector have in common, from what its visits have in common.
use cpa_plugin_privacyfilter.Base.{
  ℕ, ◌+◌, ◌≤◌, ◌<◌, Bool, true, false, Option, none, some, List, ◌∷◌, ◌≡◌, refl, if◌then◌else◌,
  Bytes, length, length-drop, drop, All, All-append, arith,
}
use cpa_plugin_privacyfilter.Base.Int.{ℤ, pos}
use cpa_plugin_privacyfilter.Spans.{Candidate}
use cpa_plugin_privacyfilter.Engine.{EngineError}
use cpa_plugin_privacyfilter.Matching.{
  Regex, Scan, finish, emit, proceed, ◌▷◌, check, for_each_match,
}
use cpa_plugin_privacyfilter.Matching.Induction.{Composes, for_each_match-R}

-- What `FindStringSubmatchIndex` documents: the first two indices of a match are its bounds in the
-- text. Those of the expressions that are used here match no empty text.
pub record Finds (re : Regex) : Type 0 where
  pub bounds :
      (text : Bytes) (is : List ℤ)
      → re text ≡ some is
      → (a b : ℕ) × (rest : List ℤ) × (is ≡ pos a ∷ pos b ∷ rest) × (a < b) × (b ≤ length text)

-- Every candidate of a run satisfies `P`.
pub record Emits (P : Candidate → Type 0) (m : Scan) : Type 0 where
  pub all : (t : ℕ) → All P (m t).0

abbrev pub Fits : (Candidate → Type 0) → Option Candidate → Type 0
Fits P none = Unit {0}
Fits P (some k) = P k

module _ (P : Candidate → Type 0) where
  -- A visit that goes by a test.
  pub if-Fits :
      (b : Bool) (x y : Option Candidate)
      → (b ≡ true → Fits P x)
      → (b ≡ false → Fits P y)
      → Fits P (if b then x else y)
  if-Fits true x y h g = h refl
  if-Fits false x y h g = g refl

  pub finish-Emits : Emits P finish
  finish-Emits = record { all = λ t. tt }

  proceed-All :
      (k : Scan) (r : List Candidate × Option EngineError × ℕ)
      → All P r.0
      → Emits P k
      → All P (proceed k r).0
  proceed-All k (ks, none, t) h g = All-append P ks (k t).0 h (g.all t)
  proceed-All k (ks, some e, t) h g = h

  pub ▷-Emits : (m k : Scan) → Emits P m → Emits P k → Emits P (m ▷ k)
  ▷-Emits m k h g = record { all = λ t. proceed-All k (m t) (h.all t) g }

  pub emit-Emits : (o : Option Candidate) → Fits P o → Emits P (emit o)
  emit-Emits none h = record { all = λ t. tt }
  emit-Emits (some k) h = record { all = λ t. (h, tt) }

  pub check-Emits : (done : ℕ → Bool) → Emits P (check done)
  unfolding check
  check-Emits done = record { all = λ t. tt }

  pub Emits-Composes : (done : ℕ → Bool) → Composes done (Emits P)
  Emits-Composes done = record {
    finished = finish-Emits;
    checked = check-Emits done;
    chained = ▷-Emits;
  }

  -- If every visit to the bounds of a match in the text gives a candidate that satisfies `P`, or
  -- none, then every candidate does.
  pub for_each_match-Emits :
      (done : ℕ → Bool) (re : Regex) (text : Bytes) (visit : ℤ → ℤ → Option Candidate)
      → Finds re
      → ((a b : ℕ) → a < b → b ≤ length text → Fits P (visit (pos a) (pos b)))
      → Emits P (for_each_match done re text visit)
  for_each_match-Emits done re text visit f h =
      for_each_match-R done (Emits P) (Emits-Composes done) re text visit (λ offset is o e.
        let (a, b, rest, k, lt, le) = f.bounds (drop offset text) is e in
        emit-Emits _ (
          rw k
            (h (offset + a) (offset + b) (omega arith) (omega (arith, length-drop offset text)))))
