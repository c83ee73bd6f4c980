-- ===== src/Matching/Ends.antt =====
-- How a detector ends, from how its visits end.
use cpa_plugin_privacyfilter.Base.{ℕ, Bool, Option, none, some, List, Bool-cases, inl, inr}
use cpa_plugin_privacyfilter.Spans.{Candidate}
use cpa_plugin_privacyfilter.Engine.{EngineError, canceled}
use cpa_plugin_privacyfilter.Matching.{Scan, emit, proceed, ◌▷◌, check}
use cpa_plugin_privacyfilter.Matching.Induction.{Composes}

module _ (Q : Option EngineError → Type 0) where
  -- Every run ends as `Q` says.
  pub record Ends (m : Scan) : Type 0 where
    pub ends : (t : ℕ) → Q (m t).1

  -- The two ends that a loop has itself.
  pub record Allowed : Type 0 where
    pub finished : Q none
    pub stopped : Q (some canceled)

module _ (Q : Option EngineError → Type 0) (ok : Allowed Q) where
  proceed_end :
      (k : Scan) (r : List Candidate × Option EngineError × ℕ)
      → Q r.1
      → Ends Q k
      → Q (proceed k r).1
  proceed_end k (ks, none, t) h g = g.ends t
  proceed_end k (ks, some e, t) h g = h

  pub ▷-Ends : (m k : Scan) → Ends Q m → Ends Q k → Ends Q (m ▷ k)
  ▷-Ends m k h g = record { ends = λ t. proceed_end k (m t) (h.ends t) g }

  emit_end : (o : Option Candidate) (t : ℕ) → Q (emit o t).1
  emit_end none t = ok.finished
  emit_end (some k) t = ok.finished

  pub emit-Ends : (o : Option Candidate) → Ends Q (emit o)
  emit-Ends o = record { ends = emit_end o }

  check_end : (done : ℕ → Bool) (t : ℕ) → Q (check done t).1
  unfolding check
  check_end done t = elim (Bool-cases (done t)) [
    | inl y ↦ rw y ok.stopped
    | inr n ↦ rw n ok.finished
  ]

  pub Ends-Composes : (done : ℕ → Bool) → Composes done (Ends Q)
  Ends-Composes done = record {
    finished = record { ends = λ t. ok.finished };
    checked = record { ends = check_end done };
    chained = ▷-Ends;
  }
