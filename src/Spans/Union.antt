-- ===== src/Spans/Union.antt =====
-- Adding a candidate is the union of the covered positions.
use cpa_plugin_privacyfilter.Base.{
  ℕ, ◌≤◌, ◌<◌, Bool, false, ◌&&◌, ◌||◌, min, max, inl, inr, Bool-cases, List, [], ◌∷◌, ◌≡◌, refl,
  ltb, leb, if◌then◌else◌, arith, drop, Bytes, ◌∙◌,
}
use cpa_plugin_privacyfilter.Spans.{Span, merge_one, absorb}
use cpa_plugin_privacyfilter.Spans.Search.{IsDisjoint, IsDisjoint-le}

abbrev pub inside : ℕ → Span → Bool
inside p s = leb s.start p && ltb p s.stop

-- Position `p` lies in one of the spans.
unfoldable pub covered : ℕ → List Span → Bool
covered p [] = false
covered p (s ∷ ss) = inside p s || covered p ss

-- The hull of two overlapping ranges covers what they cover.
hull_covers :
    (p : ℕ) (m s : Span) (from to : ℕ) (rest : Bool)
    → from ≡ min m.start s.start
    → to ≡ max m.stop s.stop
    → s.start < m.stop
    → m.start < s.stop
    → ((leb from p && ltb p to) || rest) ≡ (inside p m || (inside p s || rest))
hull_covers p m s from to rest f t a b = ground arith

module _ (pre : List Bytes) where
  -- What the loop leaves: the merged span, before the spans that it did not reach.
  unfoldable pub absorbed : Bool → Span → Bool → List Span → List Span
  absorbed first m pref ss = let (m', _, n) = absorb pre first m pref ss in m' ∷ drop n ss

  pub merge_one_hull :
      (first : Bool) (m : Span) (pref : Bool) (s : Span)
      → ((merge_one pre first m pref s).0.start ≡ min m.start s.start)
        × ((merge_one pre first m pref s).0.stop ≡ max m.stop s.stop)
  unfolding merge_one
  merge_one_hull first m pref s = ground arith

  pub absorbed-cons :
      (first : Bool) (m : Span) (pref : Bool) (s : Span) (ss : List Span)
      → absorbed first m pref (s ∷ ss) ≡ (
          if ltb s.start m.stop
          then absorbed false (merge_one pre first m pref s).0 (merge_one pre first m pref s).1 ss
          else m ∷ s ∷ ss)
  unfolding absorbed absorb
  absorbed-cons first m pref s ss = ground arith

  pub absorb-IsDisjoint :
      (first : Bool) (m : Span) (pref : Bool) (ss : List Span) (l lo hi : ℕ)
      → l ≤ m.start
      → m.start < m.stop
      → m.stop ≤ hi
      → l ≤ lo
      → IsDisjoint lo hi ss
      → IsDisjoint l hi (absorbed first m pref ss)
  absorb-IsDisjoint first m pref [] l lo hi a b c g d = unfold absorbed absorb in (a, b, c)
  absorb-IsDisjoint first m pref (s ∷ ss) l lo hi a b c g d =
      let m' = (merge_one pre first m pref s).0 in
      let p' = (merge_one pre first m pref s).1 in
      let (f, t) = merge_one_hull first m pref s in
      rw (absorbed-cons first m pref s ss) (elim (Bool-cases (ltb s.start m.stop)) [
        | inl y ↦ rw y (
            absorb-IsDisjoint false m' p' ss l s.stop hi (omega arith) (omega arith)
              (omega (arith, IsDisjoint-le s.stop hi ss d.2)) (omega arith) d.2)
        | inr n ↦ rw n (a, b, (ground arith, d.1, d.2))
      ])

  -- The first span, if there is one, ends after the merged span starts.
  abbrev pub Reaches : Span → List Span → Type 0
  Reaches m [] = Unit {0}
  Reaches m (s ∷ ss) = m.start < s.stop

  pub Reaches-merge_one :
      (first : Bool) (m : Span) (pref : Bool) (s : Span) (ss : List Span) (hi : ℕ)
      → m.start < s.stop
      → s.start < s.stop
      → IsDisjoint s.stop hi ss
      → Reaches (merge_one pre first m pref s).0 ss
  Reaches-merge_one first m pref s [] hi a b d = tt
  Reaches-merge_one first m pref s (t ∷ ss) hi a b d =
      omega (arith, (merge_one_hull first m pref s).0)

  pub covered-absorbed :
      (p : ℕ) (first : Bool) (m : Span) (pref : Bool) (ss : List Span) (lo hi : ℕ)
      → m.start < m.stop
      → Reaches m ss
      → IsDisjoint lo hi ss
      → covered p (absorbed first m pref ss) ≡ (inside p m || covered p ss)
  unfolding covered
  covered-absorbed p first m pref [] lo hi b r d = unfold absorbed absorb in refl
  covered-absorbed p first m pref (s ∷ ss) lo hi b r d =
      let m' = (merge_one pre first m pref s).0 in
      let p' = (merge_one pre first m pref s).1 in
      let (f, t) = merge_one_hull first m pref s in
      rw (absorbed-cons first m pref s ss) (elim (Bool-cases (ltb s.start m.stop)) [
        | inl y ↦ rw y (
            covered-absorbed p false m' p' ss s.stop hi (omega arith)
              (Reaches-merge_one first m pref s ss hi r d.1 d.2) d.2
            ∙ hull_covers p m s m'.start m'.stop (covered p ss) f t (ground arith) r)
        | inr n ↦ rw n
      ])
