-- ===== src/Cache.antt =====
-- `RequestScanCache` of request_cache.go. A state is an address in `heap`, since callers keep using
-- a state that the cache has dropped. An entry is known by its request id: `entries` holds the
-- keys of the map, `lru` the entries in list order, front first, and the map's value at a key is
-- the entry of that id. The mutex makes each operation one step.
pub mod State
pub mod Lookup
pub mod Order
pub mod Loops
pub mod Find
pub mod Acquire
pub mod Retain
pub mod Remove
use cpa_plugin_privacyfilter.Base.{
  ℕ, zero, suc, ◌+◌, Bool, true, false, not, ◌&&◌, ◌||◌, Option, none, some, List, [], ◌∷◌, ◌++◌,
  ltb, if◌then◌else◌, Bytes, bytes_eq, length, get_elem?,
}
use cpa_plugin_privacyfilter.Base.Int.{ℤ, pos, ltb_ℤ, leb_ℤ, ◌-ℤ◌}
use mathlib.Core.List.{reverse}
use cpa_plugin_privacyfilter.Cache.State.{
  Context, context_eq, Metrics, no_metrics, add_counter, ScanState, new_state,
}

pub record Entry : Type 0 where
  pub request_id : Bytes
  pub state : ℕ
  pub last_access : ℤ

pub record Cache : Type 0 where
  pub entries : List Bytes
  pub lru : List Entry
  pub ttl : ℤ
  pub max_entries : ℤ
  pub metrics : Metrics

-- `newRequestScanCache`: negative options count as zero.
unfoldable pub new_cache : ℤ → ℤ → Cache
new_cache ttl max_entries = record {
  entries = [];
  lru = [];
  ttl = if ltb_ℤ ttl (pos 0) then pos 0 else ttl;
  max_entries = if ltb_ℤ max_entries (pos 0) then pos 0 else max_entries;
  metrics = no_metrics;
}

-- `c.entries[id]`: whether the key is there, and the entry that it leads to
unfoldable pub has_key : Bytes → List Bytes → Bool
has_key id [] = false
has_key id (k ∷ ks) = bytes_eq k id || has_key id ks

unfoldable pub find_entry : Bytes → List Entry → Option Entry
find_entry id [] = none
find_entry id (e ∷ es) = if bytes_eq e.request_id id then some e else find_entry id es

-- `delete(c.entries, id)`
unfoldable pub delete_key : Bytes → List Bytes → List Bytes
delete_key id [] = []
delete_key id (k ∷ ks) = if bytes_eq k id then delete_key id ks else k ∷ delete_key id ks

-- `c.lru.Remove(entry.element)`
unfoldable pub unlink : Bytes → List Entry → List Entry
unlink id [] = []
unlink id (e ∷ es) = if bytes_eq e.request_id id then es else e ∷ unlink id es

-- `removeLocked`
abbrev pub remove_locked : Cache → Entry → Cache
remove_locked c e = record c {
  entries = delete_key e.request_id c.entries;
  lru = unlink e.request_id c.lru;
}

-- `expired`
unfoldable pub expired : ℤ → ℤ → Entry → Bool
unfolding ◌-ℤ◌
expired ttl now e = ltb_ℤ (pos 0) ttl && leb_ℤ ttl (now -ℤ e.last_access)

-- The loop of `pruneExpiredLocked`, over the list from its back.
unfoldable pub prune_loop : ℤ → List Entry → Cache → Cache × ℕ
prune_loop now [] c = (c, 0)
prune_loop now (e ∷ es) c =
    let (c', n) = prune_loop now es (remove_locked c e) in
    if expired c.ttl now e then (c', suc n) else (c, 0)

abbrev pub prune_expired_locked : ℤ → Cache → Cache × ℕ
prune_expired_locked now c = prune_loop now (reverse c.lru) c

abbrev pub count_expirations : ℕ → Cache → Cache
count_expirations n c = record c {
  metrics = record (c.metrics) { expirations = add_counter c.metrics.expirations n };
}

-- the loop at the end of `Acquire`, over the list from its back
unfoldable pub evict_loop : List Entry → Cache → Cache
evict_loop [] c = c
evict_loop (e ∷ es) c =
    let c' = remove_locked c e in
    let counted = record c' {
      metrics = record (c'.metrics) { evictions = add_counter c'.metrics.evictions 1 };
    } in
    let rest = evict_loop es counted in
    if ltb_ℤ c.max_entries (pos (length c.entries)) then rest else c

-- The states that have been made, by address, and the cache.
pub record System (R : Type 0) : Type 0 where
  pub heap : List (ScanState R)
  pub cache : Cache

-- the counters that `Acquire` moves
pub data Event : Type 0 where
  acquire_call ephemeral_made reuse context_reset creation expiration : Event

abbrev pub bump : Event → Metrics → Metrics
bump acquire_call m = record m { acquires = add_counter m.acquires 1 }
bump ephemeral_made m = record m { ephemeral = add_counter m.ephemeral 1 }
bump reuse m = record m { reused = add_counter m.reused 1 }
bump context_reset m = record m { context_resets = add_counter m.context_resets 1 }
bump creation m = record m { created = add_counter m.created 1 }
bump expiration m = record m { expirations = add_counter m.expirations 1 }

abbrev pub count_event : Event → Cache → Cache
count_event v c = record c { metrics = bump v c.metrics }

abbrev pub is_empty : Bytes → Bool
is_empty [] = true
is_empty (b ∷ bs) = false

module _ {R : Type 0} where
  -- `newRequestScanState(context, &c.metrics)`: a state at a new address
  abbrev pub allocate : Context → List (ScanState R) → List (ScanState R) × ℕ
  allocate context heap = (heap ++ (new_state context true ∷ []), length heap)

  -- The end of `Acquire`: a new state is inserted, and the oldest entries make room.
  unfoldable pub insert_new : Bytes → Context → ℤ → System R → System R × ℕ
  unfolding evict_loop
  insert_new id context now s =
      let (heap, a) = allocate context s.heap in
      let entry : Entry = record { request_id = id; state = a; last_access = now } in
      let c = count_event creation (record (s.cache) {
        entries = id ∷ delete_key id s.cache.entries;
        lru = entry ∷ s.cache.lru;
      }) in
      (record { heap = heap; cache = evict_loop (reverse c.lru) c }, a)

  -- The entry found for the id: it is dropped if it has expired or has another context, and
  -- otherwise moved to the front.
  unfoldable pub use_entry :
      Bytes → Context → ℤ → System R → Entry → Option (ScanState R) → System R × ℕ
  unfolding insert_new expired
  use_entry id context now s e none = insert_new id context now s
  use_entry id context now s e (some state) =
      if expired s.cache.ttl now e
      then insert_new id context now
          (record s { cache = count_event expiration (remove_locked s.cache e) })
      else if context_eq state.context context
      then (
        record s {
          cache = count_event reuse (record (s.cache) {
            lru = record e { last_access = now } ∷ unlink e.request_id s.cache.lru;
          });
        },
        e.state,
      )
      else insert_new id context now
          (record s { cache = count_event context_reset (remove_locked s.cache e) })

  pub find_or_insert : Bytes → Context → ℤ → System R → System R × ℕ
  find_or_insert id context now s =
      if has_key id s.cache.entries
      then elim (find_entry id s.cache.lru) [
        | none ↦ insert_new id context now s
        | some e ↦ use_entry id context now s e (get_elem? s.heap e.state)
      ]
      else insert_new id context now s

  -- `Acquire`
  unfoldable pub acquire : Bytes → Context → ℤ → System R → System R × ℕ
  unfolding prune_loop find_or_insert
  acquire id context now s =
      let c = count_event acquire_call s.cache in
      if is_empty id || leb_ℤ c.max_entries (pos 0)
      then (let (heap, a) = allocate context s.heap in
          (record { heap = heap; cache = count_event ephemeral_made c }, a))
      else (let (pruned, n) = prune_expired_locked now c in
          let counted = if ltb 0 n then count_expirations n pruned else pruned in
          find_or_insert id context now (record s { cache = counted }))

-- `Complete`
unfoldable pub complete : Bytes → Cache → Cache × Bool
unfolding has_key find_entry delete_key unlink
complete id c =
    if is_empty id
    then (c, false)
    else if has_key id c.entries
    then (elim (find_entry id c.lru) [
      | none ↦ (record c { entries = delete_key id c.entries }, true)
      | some e ↦
          let r = remove_locked c e in
          (
            record r {
              metrics = record (r.metrics) { completions = add_counter r.metrics.completions 1 };
            },
            true,
          )
    ])
    else (c, false)

-- `Prune`
unfoldable pub prune : ℤ → Cache → Cache × ℕ
unfolding prune_loop
prune now c =
    if leb_ℤ c.ttl (pos 0)
    then (c, 0)
    else (let (pruned, n) = prune_expired_locked now c in
        (if ltb 0 n then count_expirations n pruned else pruned, n))

-- `Clear`
unfoldable pub clear : Cache → Cache × ℕ
clear c = (record c { entries = []; lru = [] }, length c.entries)
