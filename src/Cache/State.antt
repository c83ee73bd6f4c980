-- ===== src/Cache/State.antt =====
-- The request-scoped scan state of request_cache.go. A digest is what `sha256.Sum256` returns for
-- the bytes; the renderer slot is opaque, as in the source.
use cpa_plugin_privacyfilter.Base.{
  ℕ, ◌+◌, ◌%◌, ◌^◌, Bool, false, ◌&&◌, Option, none, some, ◌==◌, if◌then◌else◌, Bytes, bytes_eq,
}

-- `RequestScanContext`
pub record Context : Type 0 where
  pub revision : ℕ
  pub source_format : Bytes
  pub model : Bytes

-- `entry.state.context == context`
unfoldable pub context_eq : Context → Context → Bool
context_eq a b =
    a.revision == b.revision
    && (bytes_eq a.source_format b.source_format && bytes_eq a.model b.model)

pub record Metrics : Type 0 where
  pub acquires : ℕ
  pub created : ℕ
  pub reused : ℕ
  pub context_resets : ℕ
  pub ephemeral : ℕ
  pub seen_hits : ℕ
  pub seen_misses : ℕ
  pub records : ℕ
  pub completions : ℕ
  pub expirations : ℕ
  pub evictions : ℕ

abbrev pub no_metrics : Metrics
no_metrics = record {
  acquires = 0;
  created = 0;
  reused = 0;
  context_resets = 0;
  ephemeral = 0;
  seen_hits = 0;
  seen_misses = 0;
  records = 0;
  completions = 0;
  expirations = 0;
  evictions = 0;
}

-- `counter.Add(n)` on an `atomic.Uint64`
unfoldable pub add_counter : ℕ → ℕ → ℕ
add_counter counter n = (counter + n) % 2 ^ 64

-- `RequestScanState`. `owned` says that its metrics pointer is the cache's, and not nil;
-- `fingerprint` is `none` while `hasFingerprint` is false, and so for the renderer slot.
pub record ScanState (R : Type 0) : Type 0 where
  pub context : Context
  pub owned : Bool
  pub fingerprint : Option Bytes
  pub renderer : Option R

module _ {R : Type 0} where
  -- `newRequestScanState`
  abbrev pub new_state : Context → Bool → ScanState R
  new_state context owned = record {
    context = context;
    owned = owned;
    fingerprint = none;
    renderer = none;
  }

  -- `Seen`, with the metrics of the cache that owns the state
  unfoldable pub seen : (Bytes → Bytes) → Bytes → ScanState R → Metrics → Metrics × Bool
  unfolding add_counter
  seen digest body s m =
      let hit : Bool = elim s.fingerprint [ none ↦ false | some f ↦ bytes_eq f (digest body) ] in
      (
        if s.owned
            then (if hit
                then record m { seen_hits = add_counter m.seen_hits 1 }
                else record m { seen_misses = add_counter m.seen_misses 1 })
            else m,
        hit,
      )

  -- `Record`; a nil output is `none`
  unfoldable pub record_scan :
      (Bytes → Bytes) → Bytes → Option Bytes → ScanState R → Metrics → ScanState R × Metrics
  unfolding add_counter
  record_scan digest input output s m =
      let body : Bytes = elim output [ none ↦ input | some out ↦ out ] in
      (
        record s { fingerprint = some (digest body) },
        if s.owned then record m { records = add_counter m.records 1 } else m,
      )

  -- `LoadRendererState`
  abbrev pub load_renderer : ScanState R → Option R
  load_renderer s = s.renderer

  -- `StoreRendererState`
  unfoldable pub store_renderer : R → ScanState R → ScanState R
  store_renderer r s = record s { renderer = some r }

  -- `GetOrCreateRendererState` with a factory: the state, and the slot's value
  unfoldable pub get_or_create_renderer : R → ScanState R → ScanState R × R
  get_or_create_renderer made s = elim s.renderer [
    | none ↦ (record s { renderer = some made }, made)
    | some r ↦ (s, r)
  ]
