-- ===== src/Spans/Collect.antt =====
-- Sequences of candidates given to one collector.
use cpa_plugin_privacyfilter.Base.{
  ◌+◌, ℕ, ◌≤◌, ◌<◌, Bool, true, false, ◌&&◌, ◌||◌, inl, inr, Bool-cases, implies, Option, none,
  some, List, [], ◌∷◌, ◌++◌, ◌≡◌, refl, ◌∙◌, ltb, if◌then◌else◌, arith, Bytes, length,
}
use cpa_plugin_privacyfilter.Base.Int.{ℤ, pos, pos_part}
use cpa_plugin_privacyfilter.Budget.{LimitError, findings}
use cpa_plugin_privacyfilter.Spans.{
  Span, Candidate, Collector, new_collector, is_preferred, is_valid, accept, add,
}
use cpa_plugin_privacyfilter.Spans.Search.{IsDisjoint}
use cpa_plugin_privacyfilter.Spans.Union.{inside, covered}
use cpa_plugin_privacyfilter.Spans.Merge.{
  insert_merge, length-insert_merge-le, add_span-insert_merge, covered-insert_merge,
  insert_merge-IsDisjoint,
}
use cpa_plugin_privacyfilter.Spans.Preferred.{flagged, flagged-insert_merge}

-- The spans lie in the text, ascend, do not overlap, and are no more than the limit.
pub record IsCollected (c : Collector) : Type 0 where
  pub disjoint : IsDisjoint 0 c.text_len c.spans
  pub bounded : length c.spans ≤ c.max_findings

-- A candidate covers a position if it is not dropped by the guard and the position lies in it.
abbrev pub reports : ℕ → ℕ → Candidate → Bool
reports text_len p k = is_valid text_len k && inside p (accept k)

valid_range :
    (n : ℕ) (k : Candidate)
    → is_valid n k ≡ true
    → ((accept k).start < (accept k).stop) × ((accept k).stop ≤ n)
unfolding is_valid
valid_range n k h = ground arith

-- What one `add` does to the spans.
abbrev pub merged_spans : Collector → Candidate → List Span
merged_spans c k =
    if is_valid c.text_len k then insert_merge c.preferred (accept k) c.spans else c.spans

abbrev pub over_limit : Collector → LimitError
over_limit c = record {
  resource = findings;
  limit = pos c.max_findings;
  used = pos (length c.spans);
  requested = pos 1;
}

-- `add` either leaves the collector as it was and reports the limit, when the merged spans would
-- outnumber it, or keeps everything but the spans.
pub add_lem :
    (c : Collector) (k : Candidate)
    → IsCollected c
    → add c k ≡ (
        if ltb c.max_findings (length (merged_spans c k))
        then (c, some (over_limit c))
        else (record c { spans = merged_spans c k }, none))
unfolding add
add_lem c k w = elim (Bool-cases (is_valid c.text_len k)) [
  | inl y ↦ rw y (add_span-insert_merge c (accept k) 0 c.text_len w.disjoint)
  | inr n ↦ rw n (ground (arith, w.bounded))
]

merged_spans-IsDisjoint :
    (c : Collector) (k : Candidate) → IsCollected c → IsDisjoint 0 c.text_len (merged_spans c k)
merged_spans-IsDisjoint c k w = elim (Bool-cases (is_valid c.text_len k)) [
  | inl y ↦
      let (a, b) = valid_range c.text_len k y in
      rw y (
        insert_merge-IsDisjoint c.preferred (accept k) 0 c.text_len c.spans (omega arith) a b
          w.disjoint)
  | inr n ↦ rw n w.disjoint
]

covered-merged_spans :
    (p : ℕ) (c : Collector) (k : Candidate)
    → IsCollected c
    → covered p (merged_spans c k) ≡ (reports c.text_len p k || covered p c.spans)
covered-merged_spans p c k w = elim (Bool-cases (is_valid c.text_len k)) [
  | inl y ↦
      let (a, b) = valid_range c.text_len k y in
      rw y (covered-insert_merge c.preferred (accept k) p 0 c.text_len c.spans a w.disjoint)
  | inr n ↦ rw n
]

-- A position covered by a candidate or a span whose rule is preferred.
abbrev pub flags : List Bytes → ℕ → ℕ → Candidate → Bool
flags pre n p k = is_preferred pre k.rule_id && reports n p k

flagged-merged_spans :
    (p : ℕ) (c : Collector) (k : Candidate)
    → IsCollected c
    → (flags c.preferred c.text_len p k || flagged c.preferred p c.spans) ≡ true
    → flagged c.preferred p (merged_spans c k) ≡ true
flagged-merged_spans p c k w h = elim (Bool-cases (is_valid c.text_len k)) [
  | inl y ↦
      let (a, b) = valid_range c.text_len k y in
      rw y (
        flagged-insert_merge c.preferred p (accept k) c.spans 0 c.text_len a w.disjoint (rw y at h))
  | inr n ↦ rw n (ground arith)
]

-- One `add`: the collector stays well formed, its limits stay, and either it covers exactly what it
-- covered and what the candidate covers, with every preferred position still in a span of a
-- preferred rule, or it is unchanged and the union would have had more spans than the limit.
pub add-IsCollected : (c : Collector) (k : Candidate) → IsCollected c → IsCollected (add c k).0
add-IsCollected c k w =
    let d = merged_spans-IsDisjoint c k w in
    rw (add_lem c k w) (elim (Bool-cases (ltb c.max_findings (length (merged_spans c k)))) [
      | inl y ↦ rw y w
      | inr n ↦ rw n (record { disjoint = d; bounded = ground arith })
    ])

-- The detectors' calls of `add`, one after the other: the first error ends the inspection.
unfoldable pub add_all : List Candidate → Collector → Collector × Option LimitError
add_all [] c = (c, none)
add_all (k ∷ ks) c =
    let rest = add_all ks (add c k).0 in
    elim (add c k).1 [ none ↦ rest | some e ↦ ((add c k).0, some e) ]

abbrev pub any {ℓ} : {A : Type ℓ} → (A → Bool) → List A → Bool
any f [] = false
any f (x ∷ xs) = f x || any f xs

-- The outcome of adding `ks`.
pub record Collects (ks : List Candidate) (c d : Collector) : Type 0 where
  pub collected : IsCollected d
  pub same_text : d.text_len ≡ c.text_len
  pub same_preferred : d.preferred ≡ c.preferred
  pub same_max : d.max_findings ≡ c.max_findings
  pub union : (p : ℕ) → covered p d.spans ≡ (any (reports c.text_len p) ks || covered p c.spans)
  pub kept :
      (p : ℕ)
      → (any (flags c.preferred c.text_len p) ks || flagged c.preferred p c.spans) ≡ true
      → flagged c.preferred p d.spans ≡ true

some-ne-none : {e : LimitError} → ¬ (some e ≡ none)
some-ne-none h = cc

any-flags_step :
    (f : Candidate → Bool) (k : Candidate) (ks : List Candidate) (now old : Bool)
    → ((f k || old) ≡ true → now ≡ true)
    → ((f k || any f ks) || old) ≡ true
    → (any f ks || now) ≡ true
any-flags_step f k ks now old g h = ground arith

implies-true : (a b : Bool) → (a ≡ true → b ≡ true) → implies a b ≡ true
implies-true true b h = h refl
implies-true false b h = refl

or_false : (b : Bool) → (b || false) ≡ b
or_false b = ground arith

Collects-step :
    (k : Candidate) (ks : List Candidate) (c : Collector) {d : Collector}
    → IsCollected c
    → Collects ks (record c { spans = merged_spans c k }) d
    → Collects (k ∷ ks) c d
Collects-step k ks c w r = record {
  collected = r.collected;
  same_text = r.same_text;
  same_preferred = r.same_preferred;
  same_max = r.same_max;
  union = λ p. r.union p ∙ rw (covered-merged_spans p c k w) (ground arith);
  kept = λ p e. r.kept p (any-flags_step _ k ks _ _ (flagged-merged_spans p c k w) e);
}

add_all-granted :
    (k : Candidate) (ks : List Candidate) (c c' : Collector)
    → add c k ≡ (c', none)
    → add_all (k ∷ ks) c ≡ add_all ks c'
unfolding add_all
add_all-granted k ks c c' e = ground arith

add_all-refused :
    (k : Candidate) (ks : List Candidate) (c c' : Collector) (x : LimitError)
    → add c k ≡ (c', some x)
    → (add_all (k ∷ ks) c).1 ≡ some x
unfolding add_all
add_all-refused k ks c c' x e = ground arith

add_all-Collects :
    (ks : List Candidate) (c : Collector)
    → IsCollected c
    → (add_all ks c).1 ≡ none
    → Collects ks c (add_all ks c).0
add_all-Collects [] c w h =
    unfold add_all in
    record {
      collected = w;
      same_text = refl;
      same_preferred = refl;
      same_max = refl;
      union = λ p. refl;
      kept = λ p e. e;
    }
add_all-Collects (k ∷ ks) c w h =
    elim (Bool-cases (ltb c.max_findings (length (merged_spans c k)))) [
      | inl y ↦
          let e : add c k ≡ (c, some (over_limit c)) = add_lem c k w ∙ rw y in
          absurd (some-ne-none (rw (add_all-refused k ks c c (over_limit c) e) at h))
      | inr n ↦
          let c' = record c { spans = merged_spans c k } in
          let e : add c k ≡ (c', none) = add_lem c k w ∙ rw n in
          let w' : IsCollected c' = rw e at (add-IsCollected c k w) in
          let f = add_all-granted k ks c c' e in
          rw f (Collects-step k ks c w (add_all-Collects ks c' w' (rw f at h)))
    ]

-- Whatever candidates a new collector is given, in whatever order, if it refuses none it ends with
-- spans that are not empty, ascend, do not overlap and lie in the text, no more of them than there
-- is room for, and that cover exactly the positions that some valid candidate covers; a position
-- under a valid candidate of a preferred rule is in a span of a preferred rule.
pub add_all-union :
    (ks : List Candidate) (text_len : ℕ) (room : ℤ) (preferred : List Bytes)
    → (add_all ks (new_collector text_len room preferred)).1 ≡ none
    → (let d = (add_all ks (new_collector text_len room preferred)).0 in
        IsDisjoint 0 text_len d.spans
        × (length d.spans ≤ pos_part room)
        × ((p : ℕ) → covered p d.spans ≡ any (reports text_len p) ks)
        × ((p : ℕ)
            → implies (any (flags preferred text_len p) ks) (flagged preferred p d.spans) ≡ true))
unfolding covered flagged
add_all-union ks text_len room preferred h =
    let c = new_collector text_len room preferred in
    let r = add_all-Collects ks c (record { disjoint = omega arith; bounded = omega arith }) h in
    (
      rw r.same_text at r.collected.disjoint,
      rw r.same_max at r.collected.bounded,
      λ p. r.union p ∙ or_false (any (reports text_len p) ks),
      λ p. implies-true _ _ (λ e. r.kept p (or_false (any (flags preferred text_len p) ks) ∙ e)),
    )

not_ltb : (a b : ℕ) → b ≤ a → ltb a b ≡ false
not_ltb a b h = ground arith

length-merged_spans-le :
    (c : Collector) (k : Candidate) → IsCollected c → length (merged_spans c k) ≤ length c.spans + 1
length-merged_spans-le c k w = elim (Bool-cases (is_valid c.text_len k)) [
  | inl y ↦ rw y (length-insert_merge-le c.preferred (accept k) c.spans)
  | inr n ↦ rw n (omega arith)
]

-- A collector refuses nothing while the spans it holds and the candidates to come are together no
-- more than its limit.
pub add_all-eq-none :
    (ks : List Candidate) (c : Collector)
    → IsCollected c
    → length c.spans + length ks ≤ c.max_findings
    → (add_all ks c).1 ≡ none
add_all-eq-none [] c w h = unfold add_all in refl
add_all-eq-none (k ∷ ks) c w h =
    let c' = record c { spans = merged_spans c k } in
    let b = length-merged_spans-le c k w in
    let e : add c k ≡ (c', none) =
      add_lem c k w ∙ rw (not_ltb c.max_findings (length (merged_spans c k)) (omega arith)) in
    let w' : IsCollected c' = rw e at (add-IsCollected c k w) in
    rw (add_all-granted k ks c c' e) (add_all-eq-none ks c' w' (omega arith))

pub add_all-append :
    (xs ys : List Candidate) (c : Collector)
    → (add_all xs c).1 ≡ none
    → add_all (xs ++ ys) c ≡ add_all ys (add_all xs c).0
unfolding add_all
add_all-append [] ys c h = refl
add_all-append (x ∷ xs) ys c h = ground (arith, add_all-append xs ys (add c x).0)
