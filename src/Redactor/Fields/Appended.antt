-- ===== src/Redactor/Fields/Appended.antt =====
-- What one name, and then a list of names, adds to a merged context.
use cpa_plugin_privacyfilter.Base.{
  ℕ, zero, suc, ◌-◌, ◌≤◌, Bool, true, false, not, ◌&&◌, ◌||◌, List, [], ◌∷◌, ◌++◌, ◌≡◌, refl, sym,
  ap, ◌∙◌, ◌⊎◌, leb, ◌==◌, if◌then◌else◌, Bool-cases, true≢false, inl, inr, Bytes, length,
  length-append, length-take, take, arith,
}
use cpa_plugin_privacyfilter.Base.Text.{any_of, any_of-append}
use cpa_plugin_privacyfilter.Secrets.Keys.{
  is_credential_ancestor_field_key, max_field_context_ancestors,
}
use cpa_plugin_privacyfilter.Redactor.Fields.{
  Merged, has_credential_ancestor_key, append_ancestor, append_ancestors,
}

any_of-take {ℓ} :
    {A : Type ℓ} (test : A → Bool) (n : ℕ) (xs : List A)
    → any_of test xs ≡ false
    → any_of test (take n xs) ≡ false
unfolding any_of
any_of-take test zero xs h = refl
any_of-take test (suc n) [] h = refl
any_of-take test (suc n) (x ∷ xs) h = elim (Bool-cases (test x)) [
  | inl y ↦ absurd (true≢false (rw y at h))
  | inr m ↦ rw m (any_of-take test n xs (rw m at h))
]

empty_key : (key : Bytes) → (length key == 0) ≡ true → is_credential_ancestor_field_key key ≡ false
unfolding is_credential_ancestor_field_key
empty_key [] h = refl
empty_key (c ∷ cs) h = ground arith

pub or_false-r : (a : Bool) → a ≡ (a || false)
or_false-r true = refl
or_false-r false = refl

or_true-r : (a : Bool) → (a || true) ≡ true
or_true-r true = refl
or_true-r false = refl

or_assoc : (a b c : Bool) → (a || b || c) ≡ (a || (b || c))
or_assoc true b c = refl
or_assoc false b c = refl

-- One more name at the end.
longer :
    (m : Merged) (keys : List Bytes) (key : Bytes)
    → has_credential_ancestor_key (record { immediate = m.immediate; filled = keys ++ key ∷ [] })
      ≡ (is_credential_ancestor_field_key m.immediate
          || any_of is_credential_ancestor_field_key keys
          || is_credential_ancestor_field_key key)
unfolding has_credential_ancestor_key any_of
longer m keys key =
    ap (◌||◌ (is_credential_ancestor_field_key m.immediate)) (
      any_of-append is_credential_ancestor_field_key keys (key ∷ [])
      ∙ ap (◌||◌ (any_of is_credential_ancestor_field_key keys))
          (sym (or_false-r (is_credential_ancestor_field_key key))))
    ∙ sym (or_assoc (is_credential_ancestor_field_key m.immediate) _ _)

-- The full array takes a name only if it is a credential and there is none yet.
full :
    (key : Bytes) (m : Merged)
    → has_credential_ancestor_key (
        if is_credential_ancestor_field_key key && not (has_credential_ancestor_key m)
        then record {
          immediate = m.immediate;
          filled = take (max_field_context_ancestors - 1) m.filled ++ key ∷ [];
        }
        else m)
      ≡ (has_credential_ancestor_key m || is_credential_ancestor_field_key key)
full key m = elim (Bool-cases (is_credential_ancestor_field_key key)) [
  | inr n ↦ rw n (or_false-r (has_credential_ancestor_key m))
  | inl y ↦ elim (Bool-cases (has_credential_ancestor_key m)) [
    | inl h ↦ rw (y, h) h
    | inr h ↦
        rw (y, h)
          (longer m (take (max_field_context_ancestors - 1) m.filled) key ∙ rw y (or_true-r _))
  ]
]

-- A name that the array has no room for.
abbrev crowded : Bytes → Merged → Merged
crowded key m =
    if is_credential_ancestor_field_key key && not (has_credential_ancestor_key m)
    then record {
      immediate = m.immediate;
      filled = take (max_field_context_ancestors - 1) m.filled ++ key ∷ [];
    }
    else m

abbrev longer_by : Bytes → Merged → Merged
longer_by key m = record { immediate = m.immediate; filled = m.filled ++ key ∷ [] }

if_true : (b : Bool) (x y : Merged) → b ≡ true → (if b then x else y) ≡ x
if_true true x y h = refl
if_true false x y h = absurd (true≢false (sym h))

if_false : (b : Bool) (x y : Merged) → b ≡ false → (if b then x else y) ≡ y
if_false true x y h = absurd (true≢false h)
if_false false x y h = refl

-- The three ways of `append_ancestor`.
pub append_ancestor_cases :
    (key : Bytes) (m : Merged)
    → (((length key == 0) ≡ true) × (append_ancestor key m ≡ m))
      ⊎ ((append_ancestor key m ≡ crowded key m)
          ⊎ ((leb max_field_context_ancestors (length m.filled) ≡ false)
              × (append_ancestor key m ≡ longer_by key m)))
unfolding append_ancestor
append_ancestor_cases key m = elim (Bool-cases (length key == 0)) [
  | inl e ↦ inl (
    e,
    if_true (length key == 0) m
        (if leb max_field_context_ancestors (length m.filled)
          then crowded key m
          else longer_by key m)
        e,
  )
  | inr n ↦
      let first =
        if_false (length key == 0) m
          (if leb max_field_context_ancestors (length m.filled)
            then crowded key m
            else longer_by key m)
          n in
      elim (Bool-cases (leb max_field_context_ancestors (length m.filled))) [
        | inl y ↦ inr (inl (first ∙ if_true _ (crowded key m) (longer_by key m) y))
        | inr z ↦ inr (inr (z, first ∙ if_false _ (crowded key m) (longer_by key m) z))
      ]
]

pub append_ancestor-keeps :
    (key : Bytes) (m : Merged)
    → has_credential_ancestor_key (append_ancestor key m)
      ≡ (has_credential_ancestor_key m || is_credential_ancestor_field_key key)
append_ancestor-keeps key m = elim (append_ancestor_cases key m) [
  | inl (z, e) ↦
      ap has_credential_ancestor_key e
      ∙ or_false-r (has_credential_ancestor_key m)
      ∙ ap (◌||◌ (has_credential_ancestor_key m)) (sym (empty_key key z))
  | inr r ↦ elim r [
    | inl e ↦ ap has_credential_ancestor_key e ∙ full key m
    | inr (z, e) ↦
        ap has_credential_ancestor_key e
        ∙ (longer m m.filled key ∙ unfold has_credential_ancestor_key in refl)
  ]
]

pub append_ancestors-keeps :
    (keys : List Bytes) (m : Merged)
    → has_credential_ancestor_key (append_ancestors keys m)
      ≡ (has_credential_ancestor_key m || any_of is_credential_ancestor_field_key keys)
unfolding append_ancestors any_of
append_ancestors-keeps [] m = or_false-r (has_credential_ancestor_key m)
append_ancestors-keeps (key ∷ keys) m =
    append_ancestors-keeps keys (append_ancestor key m)
    ∙ ap (λ b. b || any_of is_credential_ancestor_field_key keys) (append_ancestor-keeps key m)
    ∙ or_assoc (has_credential_ancestor_key m) _ _

crowded_room :
    (b : Bool) (key : Bytes) (m : Merged)
    → length m.filled ≤ max_field_context_ancestors
    → length
        (if b
          then record {
            immediate = m.immediate;
            filled = take (max_field_context_ancestors - 1) m.filled ++ key ∷ [];
          }
          else m).filled
      ≤ max_field_context_ancestors
crowded_room true key m h =
    omega (arith, length-append (take 3 m.filled) (key ∷ []), length-take 3 m.filled)
crowded_room false key m h = h

pub crowded_immediate :
    (b : Bool) (key : Bytes) (m : Merged)
    → (if b
        then record {
          immediate = m.immediate;
          filled = take (max_field_context_ancestors - 1) m.filled ++ key ∷ [];
        }
        else m).immediate
      ≡ m.immediate
crowded_immediate true key m = refl
crowded_immediate false key m = refl

pub append_ancestor_room :
    (key : Bytes) (m : Merged)
    → length m.filled ≤ max_field_context_ancestors
    → length (append_ancestor key m).filled ≤ max_field_context_ancestors
append_ancestor_room key m h = elim (append_ancestor_cases key m) [
  | inl (z, e) ↦ rw e h
  | inr r ↦ elim r [
    | inl e ↦ rw e (crowded_room _ key m h)
    | inr (z, e) ↦ rw (e, length-append m.filled (key ∷ [])) (ground arith)
  ]
]

pub append_ancestors_room :
    (keys : List Bytes) (m : Merged)
    → length m.filled ≤ max_field_context_ancestors
    → length (append_ancestors keys m).filled ≤ max_field_context_ancestors
unfolding append_ancestors
append_ancestors_room [] m h = h
append_ancestors_room (key ∷ keys) m h =
    append_ancestors_room keys (append_ancestor key m) (append_ancestor_room key m h)
