-- ===== src/Cache/Lookup.antt =====
-- The map and the list of the cache, as one association by request id.
use cpa_plugin_privacyfilter.Base.{
  ◌+◌, Bool, true, false, not, ◌&&◌, ◌||◌, none, some, List, [], ◌∷◌, if◌then◌else◌, Bytes,
  bytes_eq, bytes_eq_iff, length, ◌≡◌, refl, arith,
}
use cpa_plugin_privacyfilter.Cache.{Entry, has_key, find_entry, delete_key, unlink}

-- Some entry of the list has the id.
unfoldable pub has_entry : Bytes → List Entry → Bool
has_entry id [] = false
has_entry id (e ∷ es) = bytes_eq e.request_id id || has_entry id es

-- No id occurs twice in the list.
abbrev pub Distinct : List Entry → Type 0
Distinct [] = Unit
Distinct (e ∷ es) = (has_entry e.request_id es ≡ false) × Distinct es

abbrev pub DistinctKeys : List Bytes → Type 0
DistinctKeys [] = Unit
DistinctKeys (k ∷ ks) = (has_key k ks ≡ false) × DistinctKeys ks

pub has_key-delete :
    (id k : Bytes) (ks : List Bytes)
    → has_key k (delete_key id ks) ≡ (not (bytes_eq id k) && has_key k ks)
unfolding has_key delete_key
has_key-delete id k [] = ground arith
has_key-delete id k (j ∷ ks) =
    ground (arith, bytes_eq_iff j id, bytes_eq_iff j k, bytes_eq_iff id k, has_key-delete id k ks)

pub has_entry-unlink :
    (id k : Bytes) (es : List Entry)
    → Distinct es
    → has_entry k (unlink id es) ≡ (not (bytes_eq id k) && has_entry k es)
unfolding has_entry unlink
has_entry-unlink id k [] d = ground arith
has_entry-unlink id k (e ∷ es) d = ground (
  arith,
  bytes_eq_iff e.request_id id,
  bytes_eq_iff e.request_id k,
  bytes_eq_iff id k,
  has_entry-unlink id k es d.1,
)

pub unlink-Distinct : (id : Bytes) (es : List Entry) → Distinct es → Distinct (unlink id es)
unfolding has_entry unlink
unlink-Distinct id [] d = tt
unlink-Distinct id (e ∷ es) d =
    ground (arith, has_entry-unlink id e.request_id es d.1, unlink-Distinct id es d.1)

pub length-unlink :
    (id : Bytes) (es : List Entry)
    → length (unlink id es) + (if has_entry id es then 1 else 0) ≡ length es
unfolding has_entry unlink
length-unlink id [] = omega arith
length-unlink id (e ∷ es) = ground (arith, length-unlink id es)

absent_key : (id : Bytes) (ks : List Bytes) → has_key id ks ≡ false → delete_key id ks ≡ ks
unfolding has_key delete_key
absent_key id [] h = refl
absent_key id (k ∷ ks) h = ground (arith, absent_key id ks)

pub length-delete :
    (id : Bytes) (ks : List Bytes)
    → DistinctKeys ks
    → length (delete_key id ks) + (if has_key id ks then 1 else 0) ≡ length ks
unfolding has_key delete_key
length-delete id [] d = omega arith
length-delete id (k ∷ ks) d =
    ground (arith, bytes_eq_iff k id, absent_key k ks d.0, length-delete id ks d.1)

pub delete-DistinctKeys :
    (id : Bytes) (ks : List Bytes) → DistinctKeys ks → DistinctKeys (delete_key id ks)
unfolding has_key delete_key
delete-DistinctKeys id [] d = tt
delete-DistinctKeys id (k ∷ ks) d =
    ground (arith, has_key-delete id k ks, delete-DistinctKeys id ks d.1)

pub find_entry-eq-some :
    (id : Bytes) (es : List Entry) (e : Entry)
    → find_entry id es ≡ some e
    → (e.request_id ≡ id) × (has_entry id es ≡ true)
unfolding find_entry has_entry
find_entry-eq-some id [] e h = cc
find_entry-eq-some id (x ∷ es) e h =
    ground (arith, bytes_eq_iff x.request_id id, find_entry-eq-some id es e)

pub find_entry-eq-none :
    (id : Bytes) (es : List Entry) → find_entry id es ≡ none → has_entry id es ≡ false
unfolding find_entry has_entry
find_entry-eq-none id [] h = refl
find_entry-eq-none id (x ∷ es) h = ground (arith, find_entry-eq-none id es)
