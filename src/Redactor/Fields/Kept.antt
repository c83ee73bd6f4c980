-- ===== src/Redactor/Fields/Kept.antt =====
-- No credential among the names of the fields is lost when contexts are merged.
use cpa_plugin_privacyfilter.Base.{
  ℕ, zero, suc, ◌≤◌, min, Bool, true, false, not, ◌&&◌, ◌||◌, Option, List, [], ◌∷◌, ◌≡◌, refl, sym,
  ap, ◌∙◌, if◌then◌else◌, Bool-cases, false≢true, inl, inr, Bytes, length, take, arith,
}
use cpa_plugin_privacyfilter.Base.Int.{pos}
use cpa_plugin_privacyfilter.Base.Text.{any_of, codes}
use cpa_plugin_privacyfilter.Spans.{secret, Candidate}
use cpa_plugin_privacyfilter.Secrets.Keys.{
  in_tool, ToolScope, FieldContext, detect_credential_field, is_credential_field_key,
  is_credential_ancestor_field_key, credential_field_applies, max_field_context_ancestors,
}
use cpa_plugin_privacyfilter.Secrets.Keys.Normal.{is_credential_ancestor_field_key_lem}
use cpa_plugin_privacyfilter.Payload.Context.{StringKeyContext}
use cpa_plugin_privacyfilter.Walker.{Scope}
use cpa_plugin_privacyfilter.Redactor.Fields.{
  engine_scope, engine_field_context, Merged, has_credential_ancestor_key, append_ancestor,
  append_ancestors, counted, merge_keys, merge_string_key_contexts,
}
use cpa_plugin_privacyfilter.Redactor.Fields.Appended.{
  or_false-r, append_ancestor_cases, append_ancestor-keeps, append_ancestors-keeps,
  crowded_immediate, append_ancestor_room, append_ancestors_room,
}

or_field :
    (key : Bytes) (b : Bool)
    → (is_credential_field_key key || (is_credential_ancestor_field_key key || b))
      ≡ (is_credential_field_key key || b)
or_field key b = elim (Bool-cases (is_credential_ancestor_field_key key)) [
  | inl y ↦ let (field, _, _) = (is_credential_ancestor_field_key_lem key).0 y in rw (y, field) refl
  | inr n ↦ rw n refl
]

take_whole {ℓ} : {A : Type ℓ} (n : ℕ) (xs : List A) → length xs ≤ n → take n xs ≡ xs
take_whole zero [] h = refl
take_whole zero (x ∷ xs) h = absurd (omega arith)
take_whole (suc n) [] h = refl
take_whole (suc n) (x ∷ xs) h = ap (◌∷◌ x) (take_whole n xs (omega arith))

same_immediate : (key : Bytes) (m : Merged) → (append_ancestor key m).immediate ≡ m.immediate
same_immediate key m = elim (append_ancestor_cases key m) [
  | inl (z, e) ↦ ap (λ m. m.immediate) e
  | inr r ↦ elim r [
    | inl e ↦ ap (λ m. m.immediate) e ∙ crowded_immediate _ key m
    | inr (z, e) ↦ ap (λ m. m.immediate) e
  ]
]

start_has :
    (key : Bytes)
    → has_credential_ancestor_key (record { immediate = key; filled = [] })
      ≡ is_credential_ancestor_field_key key
unfolding has_credential_ancestor_key any_of
start_has key = sym (or_false-r (is_credential_ancestor_field_key key))

or_assoc_four : (a b c d : Bool) → (a || b || c || d) ≡ (a || (b || c || d))
or_assoc_four true b c d = refl
or_assoc_four false b c d = refl

guarded :
    (b x y : Bool)
    → b ≡ true
    → (if not true || not b then false else if x then true else y) ≡ (x || y)
guarded true true y h = refl
guarded true false y h = refl
guarded false x y h = absurd (false≢true h)

-- The two guards and the loop of `credentialFieldApplies`.
applies_when :
    (s : ToolScope) (encoded : Bool)
    → in_tool s ≡ true
    → (key : Bytes) (keys : List Bytes) (n : ℕ)
    → credential_field_applies (record {
      immediate_key = key;
      ancestors = keys;
      ancestor_count = n;
      tool_scope = s;
      structured = true;
      encoded = encoded;
    })
      ≡ (is_credential_field_key key
          || any_of is_credential_ancestor_field_key
              (take (min n max_field_context_ancestors) keys))
unfolding credential_field_applies
applies_when s encoded h key keys n =
    guarded (in_tool s) (is_credential_field_key key)
      (any_of is_credential_ancestor_field_key (take (min n max_field_context_ancestors) keys)) h

merge_immediate :
    (keys : List Bytes) (m : Merged) → (append_ancestors keys m).immediate ≡ m.immediate
unfolding append_ancestors
merge_immediate [] m = refl
merge_immediate (key ∷ keys) m = merge_immediate keys (append_ancestor key m) ∙ same_immediate key m

-- The names of credentials above a text.
abbrev pub above : StringKeyContext → Bool
above c = any_of is_credential_ancestor_field_key (counted c)

-- The candidate that is all of a text.
abbrev pub whole : Bytes → Candidate
whole text = record {
  start = pos 0;
  stop = pos (length text);
  kind = secret;
  rule_id = codes "builtin.credential-field";
}

guards_swap :
    (a p : Bool) (ks : List Candidate)
    → (if not a || p then [] else ks) ≡ (if not p && a then ks else [])
guards_swap true true ks = refl
guards_swap true false ks = refl
guards_swap false true ks = refl
guards_swap false false ks = refl

detected_when :
    (is_placeholder : Bytes → Bool) (f : FieldContext) (text : Bytes)
    → detect_credential_field is_placeholder f text
      ≡ (if not (is_placeholder text) && credential_field_applies f then whole text ∷ [] else [])
unfolding detect_credential_field
detected_when is_placeholder f text =
    guards_swap (credential_field_applies f) (is_placeholder text) (whole text ∷ [])

module _ (inner outer : StringKeyContext) where
  abbrev start : Merged
  start = record { immediate = inner.immediate_key; filled = [] }

  abbrev half : Merged
  half = append_ancestors (counted inner) start

  abbrev more : Merged
  more = append_ancestor outer.immediate_key half

  merge_keys-keeps : has_credential_ancestor_key (merge_keys inner outer) ≡ (
      is_credential_ancestor_field_key inner.immediate_key
      || (above inner || is_credential_ancestor_field_key outer.immediate_key || above outer))
  unfolding merge_keys
  merge_keys-keeps =
      append_ancestors-keeps (counted outer) more
      ∙ ap (λ b. b || above outer) (append_ancestor-keeps outer.immediate_key half)
      ∙ ap (λ b. b || is_credential_ancestor_field_key outer.immediate_key || above outer)
          (append_ancestors-keeps (counted inner) start
            ∙ ap (λ b. b || above inner) (start_has inner.immediate_key))
      ∙ or_assoc_four (is_credential_ancestor_field_key inner.immediate_key) (above inner)
          (is_credential_ancestor_field_key outer.immediate_key) (above outer)

  merge_keys_room : length (merge_keys inner outer).filled ≤ max_field_context_ancestors
  unfolding merge_keys
  merge_keys_room = append_ancestors_room (counted outer) more (
      append_ancestor_room outer.immediate_key half
        (append_ancestors_room (counted inner) start (omega arith)))

  merge_keys_immediate : (merge_keys inner outer).immediate ≡ inner.immediate_key
  unfolding merge_keys
  merge_keys_immediate =
      merge_immediate (counted outer) more
      ∙ (same_immediate outer.immediate_key half ∙ merge_immediate (counted inner) start)

  merged_applies :
      (scope : Option Scope) (encoded : Bool)
      → in_tool (engine_scope scope) ≡ true
      → credential_field_applies (
          engine_field_context (record {
            fields = merge_string_key_contexts inner outer;
            tool_scope = scope;
            structured = true;
            encoded = encoded;
          }))
        ≡ (is_credential_field_key inner.immediate_key
            || (above inner || is_credential_ancestor_field_key outer.immediate_key || above outer))
  unfolding merge_string_key_contexts
  merged_applies scope encoded h =
      let m = merge_keys inner outer in
      let room : length m.filled ≤ max_field_context_ancestors = merge_keys_room in
      applies_when (engine_scope scope) encoded h m.immediate m.filled (length m.filled)
      ∙ ap
          (λ keys.
            is_credential_field_key m.immediate || any_of is_credential_ancestor_field_key keys)
          (take_whole (min (length m.filled) max_field_context_ancestors) m.filled (omega arith))
      ∙ sym (or_field m.immediate (any_of is_credential_ancestor_field_key m.filled))
      ∙ ap (◌||◌ (is_credential_field_key m.immediate))
          (unfold has_credential_ancestor_key in merge_keys-keeps)
      ∙ ap
          (λ key.
            is_credential_field_key key
            || (is_credential_ancestor_field_key inner.immediate_key
                || (above inner
                    || is_credential_ancestor_field_key outer.immediate_key
                    || above outer)))
          merge_keys_immediate
      ∙ or_field inner.immediate_key
          (above inner || is_credential_ancestor_field_key outer.immediate_key || above outer)

  -- In the input or the output of a tool, a text of structured data under merged contexts is a
  -- candidate as a whole exactly if it is no placeholder, and either its own key is the name of a
  -- credential or one of the keys above it that do count is a name that marks what stands below it:
  -- the keys above it in its document, the key of the outer text, and the keys above that. The array
  -- of four names loses none of them.
  pub merge_string_key_contexts-applies :
      (scope : Option Scope) (encoded : Bool)
      → in_tool (engine_scope scope) ≡ true
      → (is_placeholder : Bytes → Bool) (text : Bytes)
      → detect_credential_field is_placeholder
          (engine_field_context (record {
            fields = merge_string_key_contexts inner outer;
            tool_scope = scope;
            structured = true;
            encoded = encoded;
          }))
          text
        ≡ (if not (is_placeholder text)
              && (is_credential_field_key inner.immediate_key
                  || (above inner
                      || is_credential_ancestor_field_key outer.immediate_key
                      || above outer))
            then whole text ∷ []
            else [])
  merge_string_key_contexts-applies scope encoded h is_placeholder text =
      detected_when is_placeholder _ text
      ∙ ap (λ b. if not (is_placeholder text) && b then whole text ∷ [] else [])
          (merged_applies scope encoded h)
