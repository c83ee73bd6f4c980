-- ===== src/Secrets/Keys/Normal.antt =====
-- The normal form of the name of a field, and what depends on the normal form only.
use cpa_plugin_privacyfilter.Base.{
  ℕ, Bool, true, false, not, ◌&&◌, ◌||◌, none, some, [], ◌∷◌, map, ◌≡◌, ◌≢◌, ◌↔◌, ◌⊎◌, false≢true,
  refl, sym, ap, ◌∙◌, ltb, ◌==◌, if◌then◌else◌, Bool-cases, inl, inr, Bytes, bytes_eq, bytes_eq_iff,
  length, arith,
}
use cpa_plugin_privacyfilter.Base.Text.{codes, is_digit, is_lower, any_of}
use cpa_plugin_privacyfilter.Secrets.Keys.{
  is_folded, fold_byte, scan_key, normalize_credential_field_key, credential_names,
  is_credential_field_key, is_credential_ancestor_field_key,
}

-- A byte of a normal form.
abbrev is_plain : ℕ → Bool
is_plain c = is_lower c || is_digit c || c == 95

unfoldable all_plain : Bytes → Bool
all_plain [] = true
all_plain (c ∷ cs) = is_plain c && all_plain cs

fold_plain : (c : ℕ) → is_plain (fold_byte c) ≡ (is_folded c || is_plain c)
unfolding fold_byte
fold_plain c = ground arith

fold_byte-eq : (c : ℕ) → is_folded c ≡ false → fold_byte c ≡ c
unfolding fold_byte
fold_byte-eq c h = ground arith

fold_byte_idem : (c : ℕ) → fold_byte (fold_byte c) ≡ fold_byte c
unfolding fold_byte
fold_byte_idem c = ground arith

map_fold_idem : (k : Bytes) → map fold_byte (map fold_byte k) ≡ map fold_byte k
map_fold_idem [] = refl
map_fold_idem (c ∷ cs) = rw (fold_byte_idem c, map_fold_idem cs) refl

length-map-fold : (k : Bytes) → length (map fold_byte k) ≡ length k
length-map-fold [] = refl
length-map-fold (c ∷ cs) = rw (length-map-fold cs) refl

-- The key in lower case and with underscores if it is the name of a field, and the empty text else.
unfoldable pub standard : Bytes → Bytes
unfolding all_plain
standard key = if length key == 0 || ltb 64 (length key) || not (all_plain key) then [] else key

data Scanned (key : Bytes) : Type 0 where
  refused : scan_key key ≡ none → all_plain (map fold_byte key) ≡ false → Scanned key
  same :
      scan_key key ≡ some false
      → all_plain (map fold_byte key) ≡ true
      → map fold_byte key ≡ key
      → Scanned key
  changed : scan_key key ≡ some true → all_plain (map fold_byte key) ≡ true → Scanned key

scan_key-Scanned : (key : Bytes) → Scanned key
unfolding scan_key all_plain
scan_key-Scanned [] = same refl refl refl
scan_key-Scanned (c ∷ cs) = elim (Bool-cases (is_folded c)) [
  | inl y ↦ elim (scan_key-Scanned cs) [
    | refused s p ↦ refused (rw (y, s) refl) (rw (fold_plain c, y, p) refl)
    | same s p e ↦ changed (rw (y, s) refl) (rw (fold_plain c, y, p) refl)
    | changed s p ↦ changed (rw (y, s) refl) (rw (fold_plain c, y, p) refl)
  ]
  | inr n ↦ elim (Bool-cases (is_plain c)) [
    | inr r ↦ refused (rw (n, r) refl) (rw (fold_plain c, n, r) refl)
    | inl r ↦ elim (scan_key-Scanned cs) [
      | refused s p ↦ refused (rw (n, r) s) (rw (fold_plain c, n, r, p) refl)
      | same s p e ↦
          same (rw (n, r) s) (rw (fold_plain c, n, r, p) refl) (rw (fold_byte-eq c n, e) refl)
      | changed s p ↦ changed (rw (n, r) s) (rw (fold_plain c, n, r, p) refl)
    ]
  ]
]

refused_either : (b : Bool) (k : Bytes) → (if b then [] else []) ≡ (if b || true then [] else k)
refused_either true k = refl
refused_either false k = refl

kept_either :
    (b : Bool) (k k' : Bytes) → k ≡ k' → (if b then [] else k) ≡ (if b || false then [] else k')
kept_either true k k' h = refl
kept_either false k k' h = h

standard-map-fold :
    (key : Bytes) → normalize_credential_field_key key ≡ standard (map fold_byte key)
unfolding normalize_credential_field_key standard
standard-map-fold key =
    let too_long = length key == 0 || ltb 64 (length key) in
    elim (scan_key-Scanned key) [
      | refused s p ↦ rw (s, p, length-map-fold key) (refused_either too_long (map fold_byte key))
      | same s p e ↦
          rw (s, p, length-map-fold key) (kept_either too_long key (map fold_byte key) (sym e))
      | changed s p ↦
          rw (s, p, length-map-fold key)
            (kept_either too_long (map fold_byte key) (map fold_byte key) refl)
    ]

-- Names of fields that differ only in the case of ASCII letters, and in dashes for underscores, are
-- treated alike: both are names of credentials or neither is, and so for ancestors.
pub is_credential_field_key-fold :
    (key key' : Bytes)
    → map fold_byte key ≡ map fold_byte key'
    → (is_credential_field_key key ≡ is_credential_field_key key')
      × (is_credential_ancestor_field_key key ≡ is_credential_ancestor_field_key key')
unfolding is_credential_field_key is_credential_ancestor_field_key
is_credential_field_key-fold key key' h =
    let e : normalize_credential_field_key key ≡ normalize_credential_field_key key' =
      standard-map-fold key ∙ ap standard h ∙ sym (standard-map-fold key') in
    (
      ap (λ k. any_of (bytes_eq k) credential_names) e,
      ap
          (λ k.
            not (bytes_eq k (codes "ak"))
            && not (bytes_eq k (codes "sk"))
            && is_credential_field_key k)
          e,
    )

standard_cases : (m : Bytes) → (standard m ≡ m) ⊎ (standard m ≡ [])
unfolding standard
standard_cases m = elim (Bool-cases (length m == 0 || ltb 64 (length m) || not (all_plain m))) [
  | inl y ↦ inr (rw y refl)
  | inr n ↦ inl (rw n refl)
]

-- A normal form is its own normal form.
normalize_idem :
    (key : Bytes)
    → normalize_credential_field_key (normalize_credential_field_key key)
      ≡ normalize_credential_field_key key
normalize_idem key =
    rw (standard-map-fold (normalize_credential_field_key key), standard-map-fold key)
      (elim (standard_cases (map fold_byte key)) [
        | inl e ↦ rw (e, map_fold_idem key) e
        | inr e ↦ rw e (unfold standard in refl)
      ])

bytes_differ : (a b : Bytes) → (not (bytes_eq a b) ≡ true) ↔ (a ≢ b)
bytes_differ a b = elim (Bool-cases (bytes_eq a b)) [
  | inl y ↦ (λ h. absurd (false≢true (rw y at h)), λ n. absurd (n ((bytes_eq_iff a b).0 y)))
  | inr m ↦ (λ h e. false≢true (sym m ∙ (bytes_eq_iff a b).1 e), λ n. rw m refl)
]

and_iff : (a b : Bool) → ((a && b) ≡ true) ↔ ((a ≡ true) × (b ≡ true))
and_iff true b = (λ h. (refl, h), λ h. h.1)
and_iff false b = (λ h. absurd (false≢true h), λ h. h.0)

-- The names of credentials that also mark what stands below them are all of them but AK and SK.
pub is_credential_ancestor_field_key_lem :
    (key : Bytes)
    → (is_credential_ancestor_field_key key ≡ true) ↔ (
        (is_credential_field_key key ≡ true)
        × (normalize_credential_field_key key ≢ codes "ak")
        × (normalize_credential_field_key key ≢ codes "sk"))
unfolding is_credential_field_key is_credential_ancestor_field_key
is_credential_ancestor_field_key_lem key =
    let k = normalize_credential_field_key key in
    let again : is_credential_field_key k ≡ is_credential_field_key key =
      ap (λ k. any_of (bytes_eq k) credential_names) (normalize_idem key) in
    let ak = bytes_differ k (codes "ak") in
    let sk = bytes_differ k (codes "sk") in
    let all =
      and_iff (not (bytes_eq k (codes "ak")) && not (bytes_eq k (codes "sk")))
        (is_credential_field_key k) in
    let both = and_iff (not (bytes_eq k (codes "ak"))) (not (bytes_eq k (codes "sk"))) in
    (
      λ h. (sym again ∙ (all.0 h).1, ak.0 (both.0 (all.0 h).0).0, sk.0 (both.0 (all.0 h).0).1),
      λ (c, a, s). all.1 (both.1 (ak.1 a, sk.1 s), again ∙ c),
    )
