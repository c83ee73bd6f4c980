-- ===== src/Spans/Preferred.antt =====
-- A rule of the preferred set, such as one that blocks the request, is not lost in a merge.
use cpa_plugin_privacyfilter.Base.{
  ℕ, ◌<◌, Bool, true, false, ◌&&◌, ◌||◌, inl, inr, Bool-cases, min, max, List, [], ◌∷◌, ◌≡◌, refl,
  ltb, leb, arith, Bytes,
}
use cpa_plugin_privacyfilter.Spans.{Span, is_preferred, merge_one, absorb}
use cpa_plugin_privacyfilter.Spans.Search.{IsDisjoint}
use cpa_plugin_privacyfilter.Spans.Union.{
  inside, absorbed, absorbed-cons, merge_one_hull, Reaches, Reaches-merge_one,
}
use cpa_plugin_privacyfilter.Spans.Merge.{insert_merge}

module _ (pre : List Bytes) (p : ℕ) where
  -- Position `p` lies in a span whose rule is preferred.
  unfoldable pub flagged : List Span → Bool
  flagged [] = false
  flagged (s ∷ ss) = (is_preferred pre s.rule_id && inside p s) || flagged ss

  merge_one_pref :
      (first : Bool) (m : Span) (pref : Bool) (s : Span)
      → pref ≡ is_preferred pre m.rule_id
      → ((merge_one pre first m pref s).1
          ≡ is_preferred pre (merge_one pre first m pref s).0.rule_id)
        × ((merge_one pre first m pref s).1 ≡ (pref || is_preferred pre s.rule_id))
  unfolding merge_one
  merge_one_pref first m pref s h = ground arith

  hull_flags :
      (m s : Span) (from to : ℕ) (a b rest : Bool)
      → from ≡ min m.start s.start
      → to ≡ max m.stop s.stop
      → ((a && inside p m) || ((b && inside p s) || rest)) ≡ true
      → (((a || b) && (leb from p && ltb p to)) || rest) ≡ true
  hull_flags m s from to a b rest f t h = ground arith

  flagged-absorbed :
      (first : Bool) (m : Span) (pref : Bool) (ss : List Span) (lo hi : ℕ)
      → m.start < m.stop
      → Reaches pre m ss
      → IsDisjoint lo hi ss
      → pref ≡ is_preferred pre m.rule_id
      → ((pref && inside p m) || flagged ss) ≡ true
      → flagged (absorbed pre first m pref ss) ≡ true
  unfolding flagged
  flagged-absorbed first m pref [] lo hi b r d e h = unfold absorbed absorb in ground arith
  flagged-absorbed first m pref (s ∷ ss) lo hi b r d e h =
      let m' = (merge_one pre first m pref s).0 in
      let p' = (merge_one pre first m pref s).1 in
      let (f, t) = merge_one_hull pre first m pref s in
      let (kept, joined) = merge_one_pref first m pref s e in
      rw (absorbed-cons pre first m pref s ss) (elim (Bool-cases (ltb s.start m.stop)) [
        | inl y ↦ rw y (
            flagged-absorbed false m' p' ss s.stop hi (omega arith)
              (Reaches-merge_one pre first m pref s ss hi r d.1 d.2) d.2 kept
              (rw joined (
                hull_flags m s m'.start m'.stop pref (is_preferred pre s.rule_id) (flagged ss) f t
                  h)))
        | inr n ↦ rw n (ground arith)
      ])

  pub flagged-insert_merge :
      (m : Span) (ss : List Span) (lo hi : ℕ)
      → m.start < m.stop
      → IsDisjoint lo hi ss
      → ((is_preferred pre m.rule_id && inside p m) || flagged ss) ≡ true
      → flagged (insert_merge pre m ss) ≡ true
  unfolding insert_merge flagged
  flagged-insert_merge m [] lo hi b d h = h
  flagged-insert_merge m (s ∷ ss) lo hi b d h = elim (Bool-cases (ltb m.start s.stop)) [
    | inl y ↦ rw y (flagged-absorbed true m _ (s ∷ ss) lo hi b (ground arith) d refl h)
    | inr n ↦ rw n (ground (arith, flagged-insert_merge m ss s.stop hi b d.2))
  ]
