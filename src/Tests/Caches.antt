-- ===== src/Tests/Caches.antt =====
-- The request cache on concrete inputs.
use cpa_plugin_privacyfilter.Base.{
  ℕ, ◌+◌, true, false, some, [], ◌∷◌, Bytes, bytes_eq, ◌≡◌, ◌⊎◌, ◌↔◌, refl, length, arith,
  get_elem?,
}
use cpa_plugin_privacyfilter.Base.Int.{pos}
use cpa_plugin_privacyfilter.Cache.State.{
  Context, ScanState, new_state, no_metrics, context_eq, seen, record_scan,
}
use cpa_plugin_privacyfilter.Cache.{
  Entry, Cache, System, has_key, find_entry, unlink, expired, delete_key, use_entry, acquire, prune,
  complete,
}
use cpa_plugin_privacyfilter.Cache.Lookup.{has_entry}
use cpa_plugin_privacyfilter.Cache.Order.{IsLinked, live}
use cpa_plugin_privacyfilter.Cache.Find.{IsValid, Outcome}
use cpa_plugin_privacyfilter.Cache.Acquire.{acquire-Outcome}
use cpa_plugin_privacyfilter.Cache.Retain.{acquire-IsValid, acquire-isolates}
use cpa_plugin_privacyfilter.Cache.Remove.{prune-live, complete_lem, seen-record_scan}

abbrev context : ℕ → Context
context n = record { revision = n; source_format = 1 ∷ []; model = 2 ∷ [] }

abbrev id_a : Bytes
id_a = 7 ∷ []

abbrev id_b : Bytes
id_b = 8 ∷ []

abbrev entry_a : Entry
entry_a = record { request_id = id_a; state = 0; last_access = pos 5 }

abbrev entry_b : Entry
entry_b = record { request_id = id_b; state = 1; last_access = pos 2 }

abbrev two : Cache
two = record {
  entries = id_a ∷ id_b ∷ [];
  lru = entry_a ∷ entry_b ∷ [];
  ttl = pos 10;
  max_entries = pos 2;
  metrics = no_metrics;
}

abbrev system : System ℕ
system = record { heap = new_state (context 1) true ∷ new_state (context 1) true ∷ []; cache = two }

two-IsLinked : IsLinked two
unfolding has_key has_entry bytes_eq
two-IsLinked = record {
  agree = λ id. refl;
  distinct_keys = (refl, (refl, tt));
  distinct = (refl, (refl, tt));
  same_length = refl;
}

system-IsValid : IsValid (pos 6) system
system-IsValid = record {
  linked = two-IsLinked;
  sorted = omega arith;
  past = omega arith;
  placed = omega arith;
  bounded = omega arith;
}

-- At time 12 the second entry has expired, and the first is reused.
acquire_reuses : (acquire id_a (context 1) (pos 12) system).1 ≡ 0
unfolding acquire has_key find_entry unlink bytes_eq context_eq expired delete_key use_entry
acquire_reuses = refl

-- Another context gets a state of its own.
acquire_resets : (acquire id_a (context 2) (pos 12) system).1 ≡ 2
unfolding acquire has_key find_entry unlink bytes_eq context_eq expired delete_key use_entry
acquire_resets = refl

acquire-Outcome_example :
    Outcome id_a
      (context 1)
      (pos 12)
      system
      (live (pos 10) (pos 12) two.lru)
      (acquire id_a (context 1) (pos 12) system)
acquire-Outcome_example =
    acquire-Outcome id_a (context 1) (pos 12) system {t = pos 6} system-IsValid refl (omega arith)

acquire-IsValid_example : IsValid (pos 12) (acquire id_a (context 2) (pos 12) system).0
acquire-IsValid_example =
    acquire-IsValid id_a (context 2) (pos 6) (pos 12) system system-IsValid (omega arith) refl
      (omega arith)

acquire-isolates_example :
    (state : ScanState ℕ) × (get_elem?
        (acquire id_a (context 2) (pos 12) system).0.heap
        (acquire id_a (context 2) (pos 12) system).1
      ≡ some state)
    × (state.context ≡ context 2)
    × ((state ≡ new_state (context 2) true)
        ⊎ ((e : Entry) × (find_entry id_a (live (pos 10) (pos 12) two.lru) ≡ some e)
            × (e.state ≡ (acquire id_a (context 2) (pos 12) system).1)
            × (get_elem? system.heap e.state ≡ some state)))
acquire-isolates_example =
    acquire-isolates id_a (context 2) (pos 6) (pos 12) system system-IsValid refl (omega arith)

prune-live_example :
    ((prune (pos 12) two).0.lru ≡ live (pos 10) (pos 12) two.lru)
    × IsLinked (prune (pos 12) two).0
    × ((prune (pos 12) two).1 + length (live (pos 10) (pos 12) two.lru) ≡ 2)
prune-live_example = prune-live (pos 12) two two-IsLinked (omega arith)

live_run : live (pos 10) (pos 12) two.lru ≡ entry_a ∷ []
unfolding live expired
live_run = refl

complete_lem_example :
    ((complete id_b two).0.lru ≡ unlink id_b two.lru)
    × ((complete id_b two).1 ≡ has_entry id_b two.lru)
    × IsLinked (complete id_b two).0
    × (complete id_b (complete id_b two).0 ≡ ((complete id_b two).0, false))
complete_lem_example = complete_lem id_b two refl two-IsLinked

abbrev digest : Bytes → Bytes
digest body = body

seen-record_scan_example :
    ((seen digest id_a
        (record_scan digest id_a (some id_b) (new_state {R = ℕ} (context 1) true) no_metrics).0
        no_metrics).1
      ≡ true)
    ↔ (digest id_b ≡ digest id_a)
seen-record_scan_example =
    seen-record_scan digest id_a (some id_b) (new_state {R = ℕ} (context 1) true) no_metrics
      no_metrics id_a
