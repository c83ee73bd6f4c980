-- ===== src/Cache/Find.antt =====
-- The lookup and the insertion of `Acquire`, on a list of live entries (request_cache.go).
use cpa_plugin_privacyfilter.Base.{
  ℕ, zero, suc, ◌<◌, true, false, inl, inr, Bool-cases, Option-cases, Option, none, some, List, [],
  ◌∷◌, ◌++◌, if◌then◌else◌, Bytes, bytes_eq, bytes_eq_iff, length, get_elem?, take, ◌≡◌, refl, ◌∙◌,
  ap, sym, arith,
}
use cpa_plugin_privacyfilter.Base.Int.{ℤ, pos, pos_part, ◌≤ℤ◌}
use mathlib.Core.List.{reverse, reverse-reverse}
use cpa_plugin_privacyfilter.Cache.State.{Context, context_eq, ScanState, new_state}
use cpa_plugin_privacyfilter.Cache.{
  Entry, Cache, System, has_key, find_entry, delete_key, unlink, expired, insert_new, use_entry,
  find_or_insert, Event, count_event,
}
use cpa_plugin_privacyfilter.Cache.Lookup.{
  has_entry, has_key-delete, delete-DistinctKeys, length-delete, has_entry-unlink, length-unlink,
  unlink-Distinct, find_entry-eq-some, find_entry-eq-none,
}
use cpa_plugin_privacyfilter.Cache.Order.{
  IsLinked, remove_locked-IsLinked, Sorted, AllBefore, All, All-find_entry, unlink_absent,
}
use cpa_plugin_privacyfilter.Cache.Loops.{Keeps, evict_loop-take}

-- A well-formed cache whose clock shows `t`.
pub record IsValid {R : Type 0} (t : ℤ) (s : System R) : Type 0 where
  pub linked : IsLinked s.cache
  pub sorted : Sorted s.cache.lru
  pub past : AllBefore t s.cache.lru
  pub placed : All (λ e. e.state < length s.heap) s.cache.lru
  pub bounded : pos (length s.cache.lru) ≤ℤ s.cache.max_entries

-- The live entry of the id, if its state has the context that is asked for.
unfoldable pub reusable :
    {R : Type 0} → Bytes → Context → List (ScanState R) → List Entry → Option Entry
reusable id context heap es = elim (find_entry id es) [
  | none ↦ none
  | some e ↦ elim (get_elem? heap e.state) [
    | none ↦ none
    | some state ↦ if context_eq state.context context then some e else none
  ]
]

-- The cache after `Acquire`, from the live entries `es`: a reused entry moves to the front with
-- the new time; otherwise a new entry comes to the front and the list is cut to its bound.
abbrev pub next_lru : Bytes → ℤ → ℤ → ℕ → List Entry → Option Entry → List Entry
next_lru id now max_entries address es (some e) = record e { last_access = now } ∷ unlink id es
next_lru id now max_entries address es none =
    take (pos_part max_entries)
      (record { request_id = id; state = address; last_access = now } ∷ unlink id es)

abbrev pub next_heap :
    {R : Type 0} → Context → List (ScanState R) → Option Entry → List (ScanState R)
next_heap context heap (some e) = heap
next_heap context heap none = heap ++ (new_state context true ∷ [])

abbrev pub next_address : ℕ → Option Entry → ℕ
next_address fresh (some e) = e.state
next_address fresh none = fresh

-- `r` is what `Acquire` returns, if `es` are the live entries of `s`.
pub record Outcome {R : Type 0} (id : Bytes) (context : Context) (now : ℤ) (s : System R)
    (es : List Entry) (r : System R × ℕ) : Type 0 where
  pub lru :
      r.0.cache.lru
      ≡ next_lru id now s.cache.max_entries (length s.heap) es (reusable id context s.heap es)
  pub heap : r.0.heap ≡ next_heap context s.heap (reusable id context s.heap es)
  pub address : r.1 ≡ next_address (length s.heap) (reusable id context s.heap es)
  pub linked : IsLinked r.0.cache
  pub keeps : Keeps s.cache r.0.cache

pub same_bytes : (a : Bytes) → bytes_eq a a ≡ true
same_bytes a = (bytes_eq_iff a a).1 refl

push_entry-IsLinked :
    (id : Bytes) (c : Cache) (e : Entry) (v : Event)
    → IsLinked c
    → e.request_id ≡ id
    → has_entry id c.lru ≡ false
    → IsLinked
        (count_event v (record c { entries = id ∷ delete_key id c.entries; lru = e ∷ c.lru }))
unfolding has_key has_entry
push_entry-IsLinked id c e v w i h = record {
  agree = λ k. ground (arith, has_key-delete id k c.entries, w.agree k);
  distinct_keys = (
    has_key-delete id id c.entries ∙ rw (same_bytes id),
    delete-DistinctKeys id c.entries w.distinct_keys,
  );
  distinct = (rw i h, w.distinct);
  same_length =
      omega
        (arith, rw (w.agree id, h) at (length-delete id c.entries w.distinct_keys), w.same_length);
}

pub count_event-IsLinked : (c : Cache) (v : Event) → IsLinked c → IsLinked (count_event v c)
count_event-IsLinked c v w = record {
  agree = w.agree;
  distinct_keys = w.distinct_keys;
  distinct = w.distinct;
  same_length = w.same_length;
}

get_elem?-eq-some :
    {A : Type 0} (xs : List A) (i : ℕ) → i < length xs → (a : A) × (get_elem? xs i ≡ some a)
get_elem?-eq-some [] i h = absurd (omega arith)
get_elem?-eq-some (x ∷ xs) zero h = (x, refl)
get_elem?-eq-some (x ∷ xs) (suc i) h = get_elem?-eq-some xs i (omega arith)

touched-IsLinked :
    (id : Bytes) (now : ℤ) (c : Cache) (e : Entry)
    → IsLinked c
    → find_entry id c.lru ≡ some e
    → IsLinked (
        count_event Event.reuse
          (record c { lru = record e { last_access = now } ∷ unlink e.request_id c.lru }))
unfolding has_entry
touched-IsLinked id now c e w f =
    let (i, h) = find_entry-eq-some id c.lru e f in
    record {
      agree = λ k. ground (
        arith,
        w.agree k,
        has_entry-unlink e.request_id k c.lru w.distinct,
        bytes_eq_iff e.request_id k,
        h,
      );
      distinct_keys = w.distinct_keys;
      distinct = (
        has_entry-unlink e.request_id e.request_id c.lru w.distinct ∙ rw (same_bytes e.request_id),
        unlink-Distinct e.request_id c.lru w.distinct,
      );
      same_length = omega (
        arith,
        rw (i, h) at (length-unlink e.request_id c.lru),
        ap (λ x. length (unlink x c.lru)) i,
        w.same_length,
      );
    }

module _ {R : Type 0} (id : Bytes) (context : Context) (now : ℤ) where
  insert_new_lem :
      (s : System R)
      → IsLinked s.cache
      → has_entry id s.cache.lru ≡ false
      → pos 0 ≤ℤ s.cache.max_entries
      → ((insert_new id context now s).0.cache.lru
          ≡ take
              (pos_part s.cache.max_entries)
              (record { request_id = id; state = length s.heap; last_access = now } ∷ s.cache.lru))
        × IsLinked (insert_new id context now s).0.cache
        × Keeps s.cache (insert_new id context now s).0.cache
        × ((insert_new id context now s).0.heap ≡ s.heap ++ (new_state context true ∷ []))
        × ((insert_new id context now s).1 ≡ length s.heap)
  unfolding insert_new
  insert_new_lem s w h p =
      let e : Entry = record { request_id = id; state = length s.heap; last_access = now } in
      let c = count_event Event.creation (record (s.cache) {
        entries = id ∷ delete_key id s.cache.entries;
        lru = e ∷ s.cache.lru;
      }) in
      let (l, w', k) =
        evict_loop-take (reverse c.lru) c (push_entry-IsLinked id s.cache e Event.creation w refl h)
          p (sym (reverse-reverse c.lru)) in
      (l, w', record { same_ttl = k.same_ttl; same_max = k.same_max }, refl, refl)

  -- With no reusable entry, and the id out of the list by then, a new entry is inserted.
  inserted-Outcome :
      (s s' : System R) (es : List Entry)
      → IsLinked s'.cache
      → pos 0 ≤ℤ s.cache.max_entries
      → Keeps s.cache s'.cache
      → s'.heap ≡ s.heap
      → s'.cache.lru ≡ unlink id es
      → has_entry id s'.cache.lru ≡ false
      → reusable id context s.heap es ≡ none
      → Outcome id context now s es (insert_new id context now s')
  inserted-Outcome s s' es w p k hp l absent n =
      let (l', w', k', h', a') = insert_new_lem s' w absent (rw k.same_max p) in
      record {
        lru = rw n (
            l' ∙ λ i.
            take (pos_part (k.same_max i))
              (record { request_id = id; state = length (hp i); last_access = now } ∷ l i));
        heap = rw n (h' ∙ ap (λ h. h ++ (new_state context true ∷ [])) hp);
        address = rw n (a' ∙ ap length hp);
        linked = w';
        keeps = record { same_ttl = k'.same_ttl ∙ k.same_ttl; same_max = k'.same_max ∙ k.same_max };
      }

  find_or_insert_missing :
      (s : System R)
      → find_entry id s.cache.lru ≡ none
      → find_or_insert id context now s ≡ insert_new id context now s
  unfolding find_or_insert
  find_or_insert_missing s n = ground arith

  pub not_reusable :
      (heap : List (ScanState R)) (es : List Entry)
      → find_entry id es ≡ none
      → reusable id context heap es ≡ none
  unfolding reusable
  not_reusable heap es n = rw (n, reusable)

  find_or_insert_found :
      (s : System R) (e : Entry)
      → IsLinked s.cache
      → find_entry id s.cache.lru ≡ some e
      → find_or_insert id context now s ≡ use_entry id context now s e (get_elem? s.heap e.state)
  unfolding find_or_insert
  find_or_insert_found s e w f =
      let has = w.agree id ∙ (find_entry-eq-some id s.cache.lru e f).1 in rw (has, f)

  pub reusable_found :
      (heap : List (ScanState R)) (es : List Entry) (e : Entry) (state : ScanState R)
      → find_entry id es ≡ some e
      → get_elem? heap e.state ≡ some state
      → reusable id context heap es ≡ (if context_eq state.context context then some e else none)
  unfolding reusable
  reusable_found heap es e state f g = ground arith

  use_entry-Outcome :
      (s : System R) (e : Entry) (state : ScanState R)
      → IsLinked s.cache
      → pos 0 ≤ℤ s.cache.max_entries
      → find_entry id s.cache.lru ≡ some e
      → get_elem? s.heap e.state ≡ some state
      → expired s.cache.ttl now e ≡ false
      → Outcome id context now s s.cache.lru
          (use_entry id context now s e (get_elem? s.heap e.state))
  unfolding use_entry
  use_entry-Outcome s e state w p f g x =
      let (i, h) = find_entry-eq-some id s.cache.lru e f in
      let found = reusable_found s.heap s.cache.lru e state f g in
      elim (Bool-cases (context_eq state.context context)) [
        | inl y ↦
            rw (g, x, y)
              (record {
                lru =
                    rw (found, y)
                      (ap (λ k. record e { last_access = now } ∷ unlink k s.cache.lru) i);
                heap = rw (found, y);
                address = rw (found, y);
                linked = touched-IsLinked id now s.cache e w f;
                keeps = record { same_ttl = refl; same_max = refl };
              })
        | inr n ↦
            rw (g, x, n)
              (inserted-Outcome s _ s.cache.lru
                (count_event-IsLinked _ Event.context_reset (remove_locked-IsLinked s.cache e w)) p
                (record { same_ttl = refl; same_max = refl }) refl
                (ap (λ k. unlink k s.cache.lru) i)
                (has_entry-unlink e.request_id id s.cache.lru w.distinct
                  ∙ ground (arith, bytes_eq_iff e.request_id id))
                (found ∙ rw n))
      ]

  pub find_or_insert-Outcome :
      (s : System R)
      → IsLinked s.cache
      → pos 0 ≤ℤ s.cache.max_entries
      → All (λ e. e.state < length s.heap) s.cache.lru
      → ((e : Entry) → find_entry id s.cache.lru ≡ some e → expired s.cache.ttl now e ≡ false)
      → Outcome id context now s s.cache.lru (find_or_insert id context now s)
  unfolding find_or_insert
  find_or_insert-Outcome s w p placed fresh = elim (Option-cases (find_entry id s.cache.lru)) [
    | inl n ↦
        let absent = find_entry-eq-none id s.cache.lru n in
        rw (find_or_insert_missing s n) (
          inserted-Outcome s s s.cache.lru w p (record { same_ttl = refl; same_max = refl }) refl
            (sym (unlink_absent id s.cache.lru absent)) absent (not_reusable s.heap s.cache.lru n))
    | inr (e, f) ↦
        let (state, g) =
          get_elem?-eq-some s.heap e.state (All-find_entry _ id s.cache.lru e placed f) in
        rw (find_or_insert_found s e w f) (use_entry-Outcome s e state w p f g (fresh e f))
  ]
