-- ===== src/Cache/Order.antt =====
-- The list in the order of its last accesses, most recent first, and its two loops from the back.
use cpa_plugin_privacyfilter.Base.{
  none-ne-some, ℕ, zero, suc, true, false, inl, inr, Bool-cases, some, List, [], ◌∷◌, ◌++◌,
  if◌then◌else◌, Bytes, bytes_eq, bytes_eq_iff, length, take, ◌≡◌, refl, ◌∙◌, sym, subst, arith,
}
use cpa_plugin_privacyfilter.Base.Int.{ℤ, ◌≤ℤ◌}
use cpa_plugin_privacyfilter.Cache.{
  Entry, Cache, has_key, find_entry, unlink, expired, remove_locked,
}
use cpa_plugin_privacyfilter.Cache.Lookup.{
  has_entry, Distinct, DistinctKeys, has_key-delete, has_entry-unlink, unlink-Distinct,
  length-unlink, length-delete, delete-DistinctKeys,
}

-- The keys of the map are the ids of the list, and no id occurs twice.
pub record IsLinked (c : Cache) : Type 0 where
  pub agree : (id : Bytes) → has_key id c.entries ≡ has_entry id c.lru
  pub distinct_keys : DistinctKeys c.entries
  pub distinct : Distinct c.lru
  pub same_length : length c.entries ≡ length c.lru

pub remove_locked-IsLinked : (c : Cache) (e : Entry) → IsLinked c → IsLinked (remove_locked c e)
remove_locked-IsLinked c e w = record {
  agree = λ id.
      has_key-delete e.request_id id c.entries
      ∙ rw (w.agree id) (sym (has_entry-unlink e.request_id id c.lru w.distinct));
  distinct_keys = delete-DistinctKeys e.request_id c.entries w.distinct_keys;
  distinct = unlink-Distinct e.request_id c.lru w.distinct;
  same_length =
      let h = w.agree e.request_id in
      let a = length-delete e.request_id c.entries w.distinct_keys in
      omega (arith, rw h at a, length-unlink e.request_id c.lru, w.same_length);
}

-- The last entry of the list is the one that its removal takes.
pub unlink_last :
    (e : Entry) (xs : List Entry)
    → Distinct (xs ++ (e ∷ []))
    → unlink e.request_id (xs ++ (e ∷ [])) ≡ xs
unfolding unlink has_entry
unlink_last e [] d = ground (arith, bytes_eq_iff e.request_id e.request_id)
unlink_last e (x ∷ xs) d =
    ground
      (arith, bytes_eq_iff x.request_id e.request_id, unlink_last e xs d.1, has_entry_last e xs)
  where
    has_entry_last : (f : Entry) (ys : List Entry) → has_entry f.request_id (ys ++ (f ∷ [])) ≡ true
    has_entry_last f [] = ground (arith, bytes_eq_iff f.request_id f.request_id)
    has_entry_last f (y ∷ ys) = ground (arith, has_entry_last f ys)

-- Every entry has the property; every entry was accessed at or before `t`.
abbrev pub All : (Entry → Type 0) → List Entry → Type 0
All P [] = Unit
All P (e ∷ es) = P e × All P es

abbrev pub AllBefore : ℤ → List Entry → Type 0
AllBefore t = All (λ e. e.last_access ≤ℤ t)

-- Last accesses descend from the front to the back.
abbrev pub Sorted : List Entry → Type 0
Sorted [] = Unit
Sorted (e ∷ es) = AllBefore e.last_access es × Sorted es

-- The entries that have not expired.
unfoldable pub live : ℤ → ℤ → List Entry → List Entry
live ttl now [] = []
live ttl now (e ∷ es) = if expired ttl now e then live ttl now es else e ∷ live ttl now es

pub live_drop_last :
    (ttl now : ℤ) (xs : List Entry) (e : Entry)
    → expired ttl now e ≡ true
    → live ttl now (xs ++ (e ∷ [])) ≡ live ttl now xs
unfolding live
live_drop_last ttl now [] e h = ground arith
live_drop_last ttl now (x ∷ xs) e h = ground (arith, live_drop_last ttl now xs e)

AllBefore_last :
    (t : ℤ) (xs : List Entry) (e : Entry) → AllBefore t (xs ++ (e ∷ [])) → e.last_access ≤ℤ t
AllBefore_last t [] e h = h.0
AllBefore_last t (x ∷ xs) e h = AllBefore_last t xs e h.1

pub expired_mono :
    (ttl now : ℤ) (x e : Entry)
    → e.last_access ≤ℤ x.last_access
    → expired ttl now e ≡ false
    → expired ttl now x ≡ false
unfolding expired
expired_mono ttl now x e h k = ground arith

pub live_last :
    (ttl now : ℤ) (xs : List Entry) (e : Entry)
    → Sorted (xs ++ (e ∷ []))
    → expired ttl now e ≡ false
    → live ttl now (xs ++ (e ∷ [])) ≡ xs ++ (e ∷ [])
unfolding live
live_last ttl now [] e s h = ground arith
live_last ttl now (x ∷ xs) e s h = ground (
  arith,
  live_last ttl now xs e s.1,
  expired_mono ttl now x e (AllBefore_last x.last_access xs e s.0),
)

pub Sorted-init : (xs : List Entry) (e : Entry) → Sorted (xs ++ (e ∷ [])) → Sorted xs
Sorted-init [] e s = tt
Sorted-init (x ∷ xs) e s = (AllBefore_init x.last_access xs s.0, Sorted-init xs e s.1)
  where
    AllBefore_init : (t : ℤ) (ys : List Entry) → AllBefore t (ys ++ (e ∷ [])) → AllBefore t ys
    AllBefore_init t [] h = tt
    AllBefore_init t (y ∷ ys) h = (h.0, AllBefore_init t ys h.1)

module _ (P : Entry → Type 0) where
  pub All-unlink : (id : Bytes) (es : List Entry) → All P es → All P (unlink id es)
  unfolding unlink
  All-unlink id [] h = tt
  All-unlink id (e ∷ es) h = elim (Bool-cases (bytes_eq e.request_id id)) [
    | inl y ↦ rw y h.1
    | inr n ↦ rw n (h.0, All-unlink id es h.1)
  ]

  pub All-take : (n : ℕ) (es : List Entry) → All P es → All P (take n es)
  All-take zero es h = tt
  All-take (suc n) [] h = tt
  All-take (suc n) (e ∷ es) h = (h.0, All-take n es h.1)

  pub All-live : (ttl now : ℤ) (es : List Entry) → All P es → All P (live ttl now es)
  unfolding live
  All-live ttl now [] h = tt
  All-live ttl now (e ∷ es) h = elim (Bool-cases (expired ttl now e)) [
    | inl y ↦ rw y (All-live ttl now es h.1)
    | inr n ↦ rw n (h.0, All-live ttl now es h.1)
  ]

pub unlink-Sorted : (id : Bytes) (es : List Entry) → Sorted es → Sorted (unlink id es)
unfolding unlink
unlink-Sorted id [] h = tt
unlink-Sorted id (e ∷ es) h = elim (Bool-cases (bytes_eq e.request_id id)) [
  | inl y ↦ rw y h.1
  | inr n ↦ rw n (All-unlink _ id es h.0, unlink-Sorted id es h.1)
]

pub take-Sorted : (n : ℕ) (es : List Entry) → Sorted es → Sorted (take n es)
take-Sorted zero es h = tt
take-Sorted (suc n) [] h = tt
take-Sorted (suc n) (e ∷ es) h = (All-take _ n es h.0, take-Sorted n es h.1)

pub live-Sorted : (ttl now : ℤ) (es : List Entry) → Sorted es → Sorted (live ttl now es)
unfolding live
live-Sorted ttl now [] h = tt
live-Sorted ttl now (e ∷ es) h = elim (Bool-cases (expired ttl now e)) [
  | inl y ↦ rw y (live-Sorted ttl now es h.1)
  | inr n ↦ rw n (All-live _ ttl now es h.0, live-Sorted ttl now es h.1)
]

same_entry : {x e : Entry} → some x ≡ some e → x ≡ e
same_entry h = cc

-- An entry found among the live ones has not expired.
pub find_entry-live :
    (id : Bytes) (ttl now : ℤ) (es : List Entry) (e : Entry)
    → find_entry id (live ttl now es) ≡ some e
    → expired ttl now e ≡ false
unfolding live find_entry
find_entry-live id ttl now [] e h = cc
find_entry-live id ttl now (x ∷ es) e h = ground (arith, find_entry-live id ttl now es e)

pub All-find_entry :
    (P : Entry → Type 0) (id : Bytes) (es : List Entry) (e : Entry)
    → All P es
    → find_entry id es ≡ some e
    → P e
unfolding find_entry
All-find_entry P id [] e a h = absurd (none-ne-some h)
All-find_entry P id (x ∷ es) e a h = elim (Bool-cases (bytes_eq x.request_id id)) [
  | inl y ↦ subst P (same_entry (rw y at h)) a.0
  | inr n ↦ All-find_entry P id es e a.1 (rw n at h)
]

pub unlink_absent : (id : Bytes) (es : List Entry) → has_entry id es ≡ false → unlink id es ≡ es
unfolding unlink has_entry
unlink_absent id [] h = refl
unlink_absent id (e ∷ es) h = ground (arith, unlink_absent id es)
