-- ===== src/Spans/Merge.antt =====
-- `add_span` as a recursion on the spans, with the bisection and the slices gone.
use cpa_plugin_privacyfilter.Base.{
  ℕ, suc, ◌+◌, ◌-◌, ◌≤◌, ◌<◌, Bool, true, false, none, some, ◌||◌, ◌++◌, inl, inr, Bool-cases, List,
  [], ◌∷◌, ◌≡◌, refl, ltb, if◌then◌else◌, length, arith, take, drop, length-append, length-take,
  length-drop, Bytes, ap,
}
use cpa_plugin_privacyfilter.Base.Int.{pos}
use cpa_plugin_privacyfilter.Budget.{findings}
use cpa_plugin_privacyfilter.Spans.{
  Span, Collector, absorb, is_preferred, merge_one, add_span, add_at,
}
use cpa_plugin_privacyfilter.Spans.Search.{
  IsDisjoint, count_before, count_before-le, search_index-count_before,
}
use cpa_plugin_privacyfilter.Spans.Union.{
  covered, inside, absorbed, absorb-IsDisjoint, covered-absorbed,
}

drop-plus : (i n : ℕ) (s : Span) (ss : List Span) → drop (suc i + n) (s ∷ ss) ≡ drop (i + n) ss
drop-plus i n s ss = let e : suc i + n ≡ suc (i + n) = omega arith in ap (λ k. drop k (s ∷ ss)) e

drop-zero_plus : (n : ℕ) (ss : List Span) → drop (0 + n) ss ≡ drop n ss
drop-zero_plus n ss = let e : 0 + n ≡ n = omega arith in ap (λ k. drop k ss) e

absorb-count_le :
    (pre : List Bytes) (first : Bool) (m : Span) (pref : Bool) (ss : List Span)
    → (absorb pre first m pref ss).2 ≤ length ss
unfolding absorb
absorb-count_le pre first m pref [] = omega arith
absorb-count_le pre first m pref (s ∷ ss) = ground (
  arith,
  absorb-count_le pre false (merge_one pre first m pref s).0 (merge_one pre first m pref s).1 ss,
)

module _ (pre : List Bytes) (m : Span) where
  unfoldable pub insert_merge : List Span → List Span
  insert_merge [] = m ∷ []
  insert_merge (s ∷ ss) =
      if ltb m.start s.stop
      then absorbed pre true m (is_preferred pre m.rule_id) (s ∷ ss)
      else s ∷ insert_merge ss

  spliced : List Span → List Span
  spliced ss =
      let i = count_before m.start ss in
      let (m', _, n) = absorb pre true m (is_preferred pre m.rule_id) (drop i ss) in
      take i ss ++ (m' ∷ drop (i + n) ss)

  spliced-insert_merge : (ss : List Span) → spliced ss ≡ insert_merge ss
  unfolding spliced insert_merge absorbed count_before
  spliced-insert_merge [] = unfold absorb in refl
  spliced-insert_merge (s ∷ ss) = elim (Bool-cases (ltb m.start s.stop)) [
    | inl y ↦ rw y (rw drop-zero_plus)
    | inr n ↦ rw n (rw drop-plus (ap (◌∷◌ s) (spliced-insert_merge ss)))
  ]

  pub covered-insert_merge :
      (p lo hi : ℕ) (ss : List Span)
      → m.start < m.stop
      → IsDisjoint lo hi ss
      → covered p (insert_merge ss) ≡ (inside p m || covered p ss)
  unfolding insert_merge covered
  covered-insert_merge p lo hi [] b d = refl
  covered-insert_merge p lo hi (s ∷ ss) b d = elim (Bool-cases (ltb m.start s.stop)) [
    | inl y ↦ rw y (covered-absorbed pre p true m _ (s ∷ ss) lo hi b (ground arith) d)
    | inr n ↦ rw n (ground (arith, covered-insert_merge p s.stop hi ss b d.2))
  ]

  pub insert_merge-IsDisjoint :
      (lo hi : ℕ) (ss : List Span)
      → lo ≤ m.start
      → m.start < m.stop
      → m.stop ≤ hi
      → IsDisjoint lo hi ss
      → IsDisjoint lo hi (insert_merge ss)
  unfolding insert_merge
  insert_merge-IsDisjoint lo hi [] a b c d = (a, b, c)
  insert_merge-IsDisjoint lo hi (s ∷ ss) a b c d = elim (Bool-cases (ltb m.start s.stop)) [
    | inl y ↦ rw y (absorb-IsDisjoint pre true m _ (s ∷ ss) lo lo hi a b c (omega arith) d)
    | inr n ↦ rw n (d.0, d.1, insert_merge-IsDisjoint s.stop hi ss (ground arith) b c d.2)
  ]

length-spliced :
    (pre : List Bytes) (m : Span) (ss : List Span)
    → length ss
        + 1
        - (absorb pre true m (is_preferred pre m.rule_id) (drop (count_before m.start ss) ss)).2
      ≡ length (spliced pre m ss)
unfolding spliced
length-spliced pre m ss =
    let i = count_before m.start ss in
    let n = (absorb pre true m (is_preferred pre m.rule_id) (drop i ss)).2 in
    let bound = absorb-count_le pre true m (is_preferred pre m.rule_id) (drop i ss) in
    rw length-append (
      omega (
        arith,
        bound,
        count_before-le m.start ss,
        length-take i ss,
        length-drop i ss,
        length-drop (i + n) ss,
      ))

-- On disjoint spans `add_span` refuses exactly when the merged spans outnumber the limit, with
-- the collector unchanged; otherwise its spans become `insert_merge`.
pub add_span-insert_merge :
    (c : Collector) (m : Span) (lo hi : ℕ)
    → IsDisjoint lo hi c.spans
    → add_span c m ≡ (
        let merged = insert_merge c.preferred m c.spans in
        if ltb c.max_findings (length merged)
        then (
          c,
          some (record {
            resource = findings;
            limit = pos c.max_findings;
            used = pos (length c.spans);
            requested = pos 1;
          }),
        )
        else (record c { spans = merged }, none))
unfolding add_span
add_span-insert_merge c m lo hi d =
    rw
      (
        search_index-count_before m.start lo hi c.spans d,
        ← spliced-insert_merge c.preferred m c.spans,
        ← length-spliced c.preferred m c.spans,
      )
      (unfold spliced add_at in refl)

length-absorbed-le :
    (pre : List Bytes) (first : Bool) (m : Span) (pref : Bool) (ss : List Span)
    → length (absorbed pre first m pref ss) ≤ length ss + 1
unfolding absorbed
length-absorbed-le pre first m pref ss =
    omega (arith, length-drop (absorb pre first m pref ss).2 ss)

pub length-insert_merge-le :
    (pre : List Bytes) (m : Span) (ss : List Span) → length (insert_merge pre m ss) ≤ length ss + 1
unfolding insert_merge
length-insert_merge-le pre m [] = omega arith
length-insert_merge-le pre m (s ∷ ss) = elim (Bool-cases (ltb m.start s.stop)) [
  | inl y ↦ rw y (length-absorbed-le pre true m (is_preferred pre m.rule_id) (s ∷ ss))
  | inr n ↦ rw n (omega (arith, length-insert_merge-le pre m ss))
]
