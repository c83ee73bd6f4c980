-- ===== src/Cache/Remove.antt =====
-- What `Prune` and `Complete` remove, and what `Seen` and `Record` remember (request_cache.go).
use cpa_plugin_privacyfilter.Base.{
  ◌+◌, true, false, inl, inr, Bool-cases, Option-cases, Option, none, some, List, [], ◌∷◌, ltb,
  Bytes, bytes_eq_iff, length, ◌≡◌, ◌↔◌, refl, ◌∙◌, ap, sym, arith,
}
use cpa_plugin_privacyfilter.Base.Int.{ℤ, pos, leb_ℤ}
use mathlib.Core.List.{reverse, reverse-reverse}
use cpa_plugin_privacyfilter.Cache.State.{ScanState, Metrics, seen, record_scan}
use cpa_plugin_privacyfilter.Cache.{
  Entry, Cache, find_entry, has_key, delete_key, unlink, expired, prune, prune_expired_locked,
  is_empty, complete,
}
use cpa_plugin_privacyfilter.Cache.Lookup.{
  has_entry, has_entry-unlink, find_entry-eq-some, find_entry-eq-none,
}
use cpa_plugin_privacyfilter.Cache.Order.{
  IsLinked, Sorted, live, remove_locked-IsLinked, unlink_absent,
}
use cpa_plugin_privacyfilter.Cache.Loops.{prune_loop-live}
use cpa_plugin_privacyfilter.Cache.Find.{same_bytes}
use cpa_plugin_privacyfilter.Cache.Acquire.{counted-IsLinked}

never_expires : (ttl now : ℤ) (es : List Entry) → leb_ℤ ttl (pos 0) ≡ true → live ttl now es ≡ es
unfolding live expired
never_expires ttl now [] h = refl
never_expires ttl now (e ∷ es) h = ground (arith, never_expires ttl now es h)

-- On a cache whose list is in the order of the last accesses, `Prune` keeps exactly the entries that
-- have not expired, in order, and returns the number of the others; map and list stay linked.
pub prune-live :
    (now : ℤ) (c : Cache)
    → IsLinked c
    → Sorted c.lru
    → ((prune now c).0.lru ≡ live c.ttl now c.lru)
      × IsLinked (prune now c).0
      × ((prune now c).1 + length (live c.ttl now c.lru) ≡ length c.lru)
unfolding prune
prune-live now c w s = elim (Bool-cases (leb_ℤ c.ttl (pos 0))) [
  | inl y ↦ rw (y, never_expires c.ttl now c.lru y) (refl, w, omega arith)
  | inr n ↦
      let (l, w', k, total) =
        prune_loop-live now (reverse c.lru) c w s (sym (reverse-reverse c.lru)) in
      elim (Bool-cases (ltb 0 (prune_expired_locked now c).1)) [
        | inl y ↦ rw (n, y) (l, counted-IsLinked _ _ w', omega (arith, total, ap length l))
        | inr z ↦ rw (n, z) (l, w', omega (arith, total, ap length l))
      ]
]

complete_found :
    (id : Bytes) (c : Cache) (e : Entry)
    → is_empty id ≡ false
    → has_key id c.entries ≡ true
    → find_entry id c.lru ≡ some e
    → ((complete id c).0.lru ≡ unlink e.request_id c.lru)
      × ((complete id c).0.entries ≡ delete_key e.request_id c.entries)
      × ((complete id c).1 ≡ true)
unfolding complete
complete_found id c e n h f = rw (n, h, f) (refl, refl, refl)

complete_missing :
    (id : Bytes) (c : Cache) → has_key id c.entries ≡ false → complete id c ≡ (c, false)
unfolding complete
complete_missing id c h = ground arith

relinked : {c d : Cache} → IsLinked c → d.entries ≡ c.entries → d.lru ≡ c.lru → IsLinked d
relinked w e l = record {
  agree = λ id. ap (has_key id) e ∙ w.agree id ∙ sym (ap (has_entry id) l);
  distinct_keys = rw e w.distinct_keys;
  distinct = rw l w.distinct;
  same_length = ap length e ∙ w.same_length ∙ sym (ap length l);
}

-- `Complete` of a request id on a linked cache removes its entry and no other, reports whether
-- there was one, and leaves map and list linked; a second `Complete` finds nothing.
pub complete_lem :
    (id : Bytes) (c : Cache)
    → is_empty id ≡ false
    → IsLinked c
    → ((complete id c).0.lru ≡ unlink id c.lru)
      × ((complete id c).1 ≡ has_entry id c.lru)
      × IsLinked (complete id c).0
      × (complete id (complete id c).0 ≡ ((complete id c).0, false))
complete_lem id c n w = elim (Option-cases (find_entry id c.lru)) [
  | inl f ↦
      let absent = find_entry-eq-none id c.lru f in
      let e = complete_missing id c (w.agree id ∙ absent) in
      rw e (sym (unlink_absent id c.lru absent), sym absent, w, e)
  | inr (x, f) ↦
      let (i, has) = find_entry-eq-some id c.lru x f in
      let (l, k, b) = complete_found id c x n (w.agree id ∙ has) f in
      let w' = relinked (remove_locked-IsLinked c x w) k l in
      let l' = l ∙ ap (λ j. unlink j c.lru) i in
      let gone =
        ap (has_entry id) l' ∙ has_entry-unlink id id c.lru w.distinct ∙ rw (same_bytes id) in
      (l', b ∙ sym has, w', complete_missing id _ (w'.agree id ∙ gone))
]

-- After `Record` the state has seen exactly the bodies with the digest of the sanitized output, or
-- of the input if the scan changed nothing, whatever it had seen before.
pub seen-record_scan :
    {R : Type 0} (digest : Bytes → Bytes) (input : Bytes) (output : Option Bytes) (s : ScanState R)
    (m m' : Metrics) (body : Bytes)
    → ((seen digest body (record_scan digest input output s m).0 m').1 ≡ true)
      ↔ (digest (elim output [ none ↦ input | some out ↦ out ]) ≡ digest body)
unfolding seen record_scan
seen-record_scan digest input output s m m' body = bytes_eq_iff _ _
