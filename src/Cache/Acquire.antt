-- ===== src/Cache/Acquire.antt =====
-- What `Acquire` promises (request_cache.go).
use cpa_plugin_privacyfilter.Base.{
  ℕ, false, inl, inr, Bool-cases, List, ltb, if◌then◌else◌, Bytes, length, ◌≡◌, ◌∙◌, sym, arith,
}
use cpa_plugin_privacyfilter.Base.Int.{ℤ, pos, leb_ℤ, ◌<ℤ◌}
use mathlib.Core.List.{reverse, reverse-reverse}
use cpa_plugin_privacyfilter.Cache.State.{Context}
use cpa_plugin_privacyfilter.Cache.{
  Entry, Cache, System, prune_expired_locked, is_empty, find_or_insert, acquire, Event, count_event,
  count_expirations,
}
use cpa_plugin_privacyfilter.Cache.Order.{IsLinked, Sorted, live, All-live, find_entry-live}
use cpa_plugin_privacyfilter.Cache.Loops.{Keeps, prune_loop-live}
use cpa_plugin_privacyfilter.Cache.Find.{
  IsValid, reusable, next_lru, next_heap, next_address, Outcome, find_or_insert-Outcome,
  count_event-IsLinked,
}

-- The cache once `Acquire` has pruned it.
abbrev pruned : ℤ → Cache → Cache
pruned now c0 =
    let c = count_event Event.acquire_call c0 in
    let r = prune_expired_locked now c in if ltb 0 r.1 then count_expirations r.1 r.0 else r.0

pub counted-IsLinked : (n : ℕ) (c : Cache) → IsLinked c → IsLinked (count_expirations n c)
counted-IsLinked n c w = record {
  agree = w.agree;
  distinct_keys = w.distinct_keys;
  distinct = w.distinct;
  same_length = w.same_length;
}

pruned-live :
    (now : ℤ) (c : Cache)
    → IsLinked c
    → Sorted c.lru
    → ((pruned now c).lru ≡ live c.ttl now c.lru) × IsLinked (pruned now c) × Keeps c (pruned now c)
pruned-live now c w s =
    let c' = count_event Event.acquire_call c in
    let (l, w', k, n) =
      prune_loop-live now (reverse c.lru) c' (count_event-IsLinked c Event.acquire_call w) s
        (sym (reverse-reverse c.lru)) in
    elim (Bool-cases (ltb 0 (prune_expired_locked now c').1)) [
      | inl y ↦
          rw y (l, counted-IsLinked _ _ w', record { same_ttl = k.same_ttl; same_max = k.same_max })
      | inr n ↦ rw n (l, w', record { same_ttl = k.same_ttl; same_max = k.same_max })
    ]

module _ {R : Type 0} (id : Bytes) (context : Context) (now : ℤ) (s : System R) where
  rebase-Outcome :
      (c : Cache) (es : List Entry) (r : System R × ℕ)
      → c.lru ≡ es
      → Keeps s.cache c
      → Outcome id context now (record s { cache = c }) c.lru r
      → Outcome id context now s es r
  rebase-Outcome c es r l k o = record {
    lru = o.lru ∙ λ i.
        next_lru id now (k.same_max i) (length s.heap) (l i) (reusable id context s.heap (l i));
    heap = o.heap ∙ λ i. next_heap context s.heap (reusable id context s.heap (l i));
    address = o.address ∙ λ i. next_address (length s.heap) (reusable id context s.heap (l i));
    linked = o.linked;
    keeps = record {
      same_ttl = o.keeps.same_ttl ∙ k.same_ttl;
      same_max = o.keeps.same_max ∙ k.same_max;
    };
  }

  acquire-pruned :
      is_empty id ≡ false
      → pos 0 <ℤ s.cache.max_entries
      → acquire id context now s
        ≡ find_or_insert id context now (record s { cache = pruned now s.cache })
  unfolding acquire
  acquire-pruned e p = let q : leb_ℤ s.cache.max_entries (pos 0) ≡ false = ground arith in rw (e, q)

  -- On a well-formed cache, for a request id and a cache that retains anything, `Acquire` works on the
  -- entries that have not expired: it returns the state of the entry of that id if its context
  -- is the one asked for, and otherwise a new state at a new address; the list becomes
  -- `next_lru`, with the entry in front and cut to the cache's bound.
  pub acquire-Outcome :
      {t : ℤ}
      → IsValid t s
      → is_empty id ≡ false
      → pos 0 <ℤ s.cache.max_entries
      → Outcome id context now s (live s.cache.ttl now s.cache.lru) (acquire id context now s)
  acquire-Outcome v e p =
      let c = pruned now s.cache in
      let (l, w, k) = pruned-live now s.cache v.linked v.sorted in
      let es = live s.cache.ttl now s.cache.lru in
      rw (acquire-pruned e p) (
        rebase-Outcome c es _ l k (
          find_or_insert-Outcome id context now (record s { cache = c }) w
            (rw k.same_max (omega arith)) (rw l (All-live _ s.cache.ttl now s.cache.lru v.placed))
            (λ x f. rw k.same_ttl (find_entry-live id s.cache.ttl now s.cache.lru x (rw l at f)))))
