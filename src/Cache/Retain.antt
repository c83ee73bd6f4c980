-- ===== src/Cache/Retain.antt =====
-- `Acquire` keeps the cache well formed and requests apart; `Prune` and `Complete` remove what they
-- say (request_cache.go).
use cpa_plugin_privacyfilter.Base.{
  none-ne-some, ℕ, ◌≤◌, ◌<◌, true, false, inl, inr, Bool-cases, Option-cases, Option, none, some,
  List, [], ◌∷◌, ◌++◌, Bytes, bytes_eq_iff, length, get_elem?, length-append, length-take, ◌≡◌, ◌⊎◌,
  refl, ◌∙◌, ap, sym, arith,
}
use cpa_plugin_privacyfilter.Base.Int.{ℤ, pos, pos_part, ◌≤ℤ◌, ◌<ℤ◌}
use cpa_plugin_privacyfilter.Cache.State.{Context, context_eq, ScanState, new_state}
use cpa_plugin_privacyfilter.Cache.{Entry, System, find_entry, unlink, is_empty, acquire}
use cpa_plugin_privacyfilter.Cache.Lookup.{length-unlink, find_entry-eq-some}
use cpa_plugin_privacyfilter.Cache.Order.{
  Sorted, AllBefore, All, live, All-unlink, All-take, All-live, unlink-Sorted, take-Sorted,
  live-Sorted, All-find_entry,
}
use cpa_plugin_privacyfilter.Cache.Find.{
  IsValid, reusable, not_reusable, reusable_found, next_lru, next_heap,
}
use cpa_plugin_privacyfilter.Cache.Acquire.{acquire-Outcome}

context_eq_sound : (a b : Context) → context_eq a b ≡ true → a ≡ b
unfolding context_eq
context_eq_sound a b h =
    ground (arith, bytes_eq_iff a.source_format b.source_format, bytes_eq_iff a.model b.model)

-- What a list needs to be that of a valid cache.
record IsFit (t : ℤ) (n : ℕ) (max_entries : ℤ) (es : List Entry) : Type 0 where
  sorted : Sorted es
  past : AllBefore t es
  placed : All (λ e. e.state < n) es
  bounded : pos (length es) ≤ℤ max_entries

All-weaken :
    (P Q : Entry → Type 0) → ((e : Entry) → P e → Q e) → (es : List Entry) → All P es → All Q es
All-weaken P Q f [] h = tt
All-weaken P Q f (e ∷ es) h = (f e h.0, All-weaken P Q f es h.1)

length-live-le : (ttl now : ℤ) (es : List Entry) → length (live ttl now es) ≤ length es
unfolding live
length-live-le ttl now [] = omega arith
length-live-le ttl now (e ∷ es) = ground (arith, length-live-le ttl now es)

same_entry : {x e : Entry} → some x ≡ some e → x ≡ e
same_entry h = cc

lost_state :
    {R : Type 0} (id : Bytes) (context : Context) (heap : List (ScanState R)) (es : List Entry)
    (x : Entry)
    → find_entry id es ≡ some x
    → get_elem? heap x.state ≡ none
    → reusable id context heap es ≡ none
unfolding reusable
lost_state id context heap es x f g = ground arith

reusable-eq-some :
    {R : Type 0} (id : Bytes) (context : Context) (heap : List (ScanState R)) (es : List Entry)
    (e : Entry)
    → reusable id context heap es ≡ some e
    → (find_entry id es ≡ some e)
      × ((state : ScanState R) × (get_elem? heap e.state ≡ some state)
          × (context_eq state.context context ≡ true))
reusable-eq-some id context heap es e h = elim (Option-cases (find_entry id es)) [
  | inl n ↦ absurd (none-ne-some (rw (not_reusable id context (pos 0) heap es n) at h))
  | inr (x, f) ↦ elim (Option-cases (get_elem? heap x.state)) [
    | inl g ↦ absurd (none-ne-some (sym (lost_state id context heap es x f g) ∙ h))
    | inr (state, g) ↦
        let r = sym (reusable_found id context (pos 0) heap es x state f g) ∙ h in
        elim (Bool-cases (context_eq state.context context)) [
          | inl y ↦
              let same : x ≡ e = same_entry (rw y at r) in
              (f ∙ ap some same, (state, ap (λ k. get_elem? heap k.state) (sym same) ∙ g, y))
          | inr n ↦ absurd (none-ne-some (rw n at r))
        ]
  ]
]

fits_bound : (m : ℤ) (k : ℕ) → pos 0 <ℤ m → k ≤ pos_part m → pos k ≤ℤ m
fits_bound m k p h = ground arith

insert-IsFit :
    (id : Bytes) (t now max_entries : ℤ) (n n' : ℕ) (es : List Entry)
    → t ≤ℤ now
    → pos 0 <ℤ max_entries
    → IsFit t n max_entries es
    → n < n'
    → IsFit now n' max_entries (next_lru id now max_entries n es none)
insert-IsFit id t now max_entries n n' es le p f h = record {
  sorted = take-Sorted _ _ (
    All-unlink _ id es (All-weaken _ _ (λ e q. omega arith) es f.past),
    unlink-Sorted id es f.sorted,
  );
  past =
      All-take _ _ _
        (omega arith, All-unlink _ id es (All-weaken _ _ (λ e q. omega arith) es f.past));
  placed = All-take _ _ _ (h, All-unlink _ id es (All-weaken _ _ (λ e q. omega arith) es f.placed));
  bounded = fits_bound max_entries _ p (
      omega (
        arith,
        length-take (pos_part max_entries)
            (record { request_id = id; state = n; last_access = now } ∷ unlink id es),
      ));
}

touch-IsFit :
    (id : Bytes) (t now max_entries : ℤ) (n : ℕ) (es : List Entry) (e : Entry)
    → t ≤ℤ now
    → IsFit t n max_entries es
    → find_entry id es ≡ some e
    → IsFit now n max_entries (record e { last_access = now } ∷ unlink id es)
touch-IsFit id t now max_entries n es e le f h =
    let (i, has) = find_entry-eq-some id es e h in
    record {
      sorted = (
        All-unlink _ id es (All-weaken _ _ (λ x q. omega arith) es f.past),
        unlink-Sorted id es f.sorted,
      );
      past = (omega arith, All-unlink _ id es (All-weaken _ _ (λ x q. omega arith) es f.past));
      placed = (All-find_entry _ id es e f.placed h, All-unlink _ id es f.placed);
      bounded = omega (arith, rw has at (length-unlink id es), f.bounded);
    }

live-IsFit :
    {R : Type 0} (t now : ℤ) (s : System R)
    → IsValid t s
    → IsFit t (length s.heap) s.cache.max_entries (live s.cache.ttl now s.cache.lru)
live-IsFit t now s v = record {
  sorted = live-Sorted _ now _ v.sorted;
  past = All-live _ _ now _ v.past;
  placed = All-live _ _ now _ v.placed;
  bounded = omega (arith, length-live-le s.cache.ttl now s.cache.lru, v.bounded);
}

module _ {R : Type 0} (id : Bytes) (context : Context) (t now : ℤ) (s : System R) where
  next-IsFit :
      (o : Option Entry)
      → IsValid t s
      → t ≤ℤ now
      → pos 0 <ℤ s.cache.max_entries
      → reusable id context s.heap (live s.cache.ttl now s.cache.lru) ≡ o
      → IsFit now
          (length (next_heap context s.heap o))
          s.cache.max_entries
          (next_lru id now s.cache.max_entries (length s.heap) (live s.cache.ttl now s.cache.lru) o)
  next-IsFit none v le p h =
      insert-IsFit id t now s.cache.max_entries (length s.heap) _ _ le p (live-IsFit t now s v)
        (omega (arith, length-append s.heap (new_state context true ∷ [])))
  next-IsFit (some e) v le p h =
      touch-IsFit id t now s.cache.max_entries (length s.heap) _ e le (live-IsFit t now s v)
        (reusable-eq-some id context s.heap _ e h).0

  -- `Acquire`, of a request id at a time no earlier than the last one, keeps a cache that retains
  -- anything well formed: map and list hold the same ids, each once, in the order of their last
  -- accesses, every state exists, and there are no more entries than the bound.
  pub acquire-IsValid :
      IsValid t s
      → t ≤ℤ now
      → is_empty id ≡ false
      → pos 0 <ℤ s.cache.max_entries
      → IsValid now (acquire id context now s).0
  acquire-IsValid v le e p =
      let o = acquire-Outcome id context now s v e p in
      let f = next-IsFit _ v le p refl in
      record {
        linked = o.linked;
        sorted = rw o.lru f.sorted;
        past = rw o.lru f.past;
        placed = rw (o.lru, o.heap) f.placed;
        bounded = rw (o.lru, o.keeps.same_max) f.bounded;
      }

  get_elem?-allocated :
      (xs : List (ScanState R)) (x : ScanState R) → get_elem? (xs ++ (x ∷ [])) (length xs) ≡ some x
  get_elem?-allocated [] x = refl
  get_elem?-allocated (y ∷ xs) x = get_elem?-allocated xs x

  -- For a request id on a well-formed cache that retains anything, the state that `Acquire` returns
  -- exists and has the context that was asked for. It is a new one, with no fingerprint and no
  -- renderer, unless it is the unchanged state of a live entry of that very id.
  pub acquire-isolates :
      IsValid t s
      → is_empty id ≡ false
      → pos 0 <ℤ s.cache.max_entries
      → (state : ScanState R) × (get_elem?
            (acquire id context now s).0.heap
            (acquire id context now s).1
          ≡ some state)
        × (state.context ≡ context)
        × ((state ≡ new_state context true)
            ⊎ ((e : Entry) × (find_entry id (live s.cache.ttl now s.cache.lru) ≡ some e)
                × (e.state ≡ (acquire id context now s).1)
                × (get_elem? s.heap e.state ≡ some state)))
  acquire-isolates v e p =
      let o = acquire-Outcome id context now s v e p in
      elim (Option-cases (reusable id context s.heap (live s.cache.ttl now s.cache.lru))) [
        | inl n ↦
            let at_end = get_elem?-allocated s.heap (new_state context true) in
            (new_state context true, rw (o.heap, o.address, n) at_end, refl, inl refl)
        | inr (x, f) ↦
            let (found, (state, g, same)) = reusable-eq-some id context s.heap _ x f in
            (
              state,
              rw (o.heap, o.address, f) g,
              context_eq_sound _ _ same,
              inr (x, found, sym (rw f at o.address), g),
            )
      ]
