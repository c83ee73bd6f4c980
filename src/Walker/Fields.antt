-- ===== src/Walker/Fields.antt =====
-- The look-ups of fields in walker/common.go: `field`, `oneOf`, `unique`, `uniqueObjectKeys`, `shape`,
-- `missing`, and the helpers that mark, add and walk a field.
use cpa_plugin_privacyfilter.Base.{
  ℕ, ◌*◌, ◌^◌, ◌-◌, ◌/◌, Bool, true, false, not, ◌&&◌, ◌||◌, Option, none, some, List, [], ◌∷◌,
  ◌++◌, ltb, ◌==◌, if◌then◌else◌, Bytes, bytes_eq, length,
}
use cpa_plugin_privacyfilter.Base.Text.{words, codes, any_of}
use cpa_plugin_privacyfilter.Payload.{structural_limit, invalid}
use cpa_plugin_privacyfilter.Walker.{
  Scope, scope_system, scope_user, scope_assistant, scope_tool_output, TargetKind, json_value,
  Mutability, direct, plain, quoted, walk_payload, walk_shape, walk_ambiguous,
}
use cpa_plugin_privacyfilter.Walker.Tree.{
  Node, string_node, object_node, array_node, Members, no_members, member, Nodes, no_nodes, item,
  kind_of, path_of, key_path, values_of, member_keys, is_string, is_object, is_array, is_number,
  is_boolean, is_null, elements, members_of, text_of,
}
use cpa_plugin_privacyfilter.Walker.Steps.{
  charges, reads_context, Walk, ret, refuse, Done, done, perform, add, mark_opaque, unsupported,
  each, ◌>>=◌, ◌>>◌,
}

-- `shape`, of a node that there is
abbrev pub shape {ℓ} : {A : Type ℓ} → Node → Bytes → Bytes → Walk A
shape n expected detail = refuse (walk_shape (path_of n) expected (kind_of n) detail)

abbrev pub missing {ℓ} : {A : Type ℓ} → Node → Bytes → Bytes → Walk A
missing n key expected =
    refuse (walk_shape (key_path n key) expected invalid (codes "required field"))

-- The end of `field`, from the values that have the key.
abbrev pub only_value : Node → Bytes → List Node → Walk (Option Node)
only_value n key [] = ret none
only_value n key (v ∷ []) = ret (some v)
only_value n key (v ∷ w ∷ vs) = refuse (walk_ambiguous (key_path n key) (key ∷ []))

unfoldable pub field : Node → Bytes → Walk (Option Node)
unfolding values_of
field (object_node path ms) key = only_value (object_node path ms) key (values_of key ms)
field n key = shape n (codes "object") (codes "field lookup")

-- A step for a field that is there.
unfoldable pub with_field : Node → Bytes → (Node → Done) → Done
unfolding field
with_field n key f = do found ← field n key; elim found [ none ↦ done | some v ↦ f v ]

-- The same, where null counts as no field.
unfoldable pub with_value : Node → Bytes → (Node → Done) → Done
unfolding with_field
with_value n key f = with_field n key (λ v. if is_null v then done else f v)

-- The loop of `oneOf`, with what was found so far; the name of the key is read nowhere.
unfoldable pub one_of_loop : Node → List Bytes → Option Node → List Bytes → Walk (Option Node)
unfolding field
one_of_loop n keys found [] = ret found
one_of_loop n keys found (key ∷ rest) = do
  value ← field n key
  let kept = one_of_loop n keys found rest
  elim value [
    | none ↦ kept
    | some v ↦ elim found [
      | none ↦ one_of_loop n keys (some v) rest
      | some w ↦ refuse (walk_ambiguous (path_of n) keys)
    ]
  ]

-- `oneOf`
unfoldable pub one_of : Node → List Bytes → Walk (Option Node)
unfolding one_of_loop
one_of n keys = one_of_loop n keys none keys

-- `unique`
unfoldable pub unique : Node → List Bytes → Done
unfolding each field
unique n keys = each keys (λ key. field n key >>= λ found. done)

-- `sort.Strings`, on the order of the bytes
unfoldable pub bytes_ltb : Bytes → Bytes → Bool
bytes_ltb a [] = false
bytes_ltb [] (y ∷ ys) = true
bytes_ltb (x ∷ xs) (y ∷ ys) = ltb x y || x == y && bytes_ltb xs ys

unfoldable pub insert_key : Bytes → List Bytes → List Bytes
unfolding bytes_ltb
insert_key key [] = key ∷ []
insert_key key (k ∷ ks) =
    let rest = insert_key key ks in if bytes_ltb k key then k ∷ rest else key ∷ k ∷ ks

unfoldable pub sort_keys : List Bytes → List Bytes
unfolding insert_key
sort_keys [] = []
sort_keys (k ∷ ks) = insert_key k (sort_keys ks)

-- The loop over the sorted keys: the first that equals the one before it.
unfoldable pub repeated_key : List Bytes → Option Bytes
unfolding bytes_eq
repeated_key [] = none
repeated_key (k ∷ []) = none
repeated_key (k ∷ l ∷ ks) =
    let rest = repeated_key (l ∷ ks) in if bytes_eq l k then some l else rest

abbrev pub retained_tree_index_entry_bytes : ℕ
retained_tree_index_entry_bytes = 128

abbrev pub max_int : ℕ
max_int = 2 ^ 63 - 1

abbrev pub refuse_repeated : Node → Option Bytes → Done
refuse_repeated n none = done
refuse_repeated n (some key) = refuse (walk_ambiguous (key_path n key) (key ∷ []))

-- `uniqueObjectKeys`
unfoldable pub unique_object_keys : Node → Done
unfolding member_keys sort_keys repeated_key
unique_object_keys n =
    let keys = member_keys (members_of n) in
    if not (is_object n)
    then shape n (codes "object") (codes "duplicate-field validation")
    else if ltb (length keys) 2
    then done
    else if ltb (max_int / retained_tree_index_entry_bytes) (length keys)
    then refuse (walk_payload structural_limit)
    else (perform (charges (length keys * retained_tree_index_entry_bytes))
        >> refuse_repeated n (repeated_key (sort_keys keys)))

-- `unsupportedValue`: its prefix, and the value that is quoted.
abbrev pub unsupported_value : Node → Bytes → Bytes → Done
unsupported_value n prefix untrusted = unsupported n (quoted prefix untrusted)

-- `markFields`
unfoldable pub mark_fields : Node → List Bytes → Done
unfolding each with_field
mark_fields n keys = each keys (λ key. with_field n key mark_opaque)

abbrev or_null : Bytes → Bool → Bytes
or_null expected nullable = if nullable then expected ++ codes " or null" else expected

-- The common form of the four helpers below: a field of a kind, required or not, with null admitted
-- or not.
unfoldable pub typed_field :
    Bytes → (Node → Bool) → Node → Bytes → Bool → Bool → (Node → Done) → Done
unfolding field
typed_field expected is_expected n key required nullable f = do
  found ← field n key
  elim found [
    | none ↦ if required then missing n key expected else done
    | some v ↦
        if is_null v && nullable
        then done
        else if is_expected v
        then f v
        else shape v (or_null expected nullable) key
  ]

-- `markOpaqueStringField`
unfoldable pub mark_opaque_string_field : Node → Bytes → Bool → Bool → Done
unfolding typed_field
mark_opaque_string_field n key required nullable =
    typed_field (codes "string") is_string n key required nullable mark_opaque

-- The loop over `key`s with an optional, nullable string.
unfoldable pub mark_opaque_string_fields : Node → List Bytes → Done
unfolding each mark_opaque_string_field
mark_opaque_string_fields n keys = each keys (λ key. mark_opaque_string_field n key false true)

-- `addStringField`
unfoldable pub add_string_field : Node → Bytes → Bool → Bool → Scope → TargetKind → Done
unfolding typed_field
add_string_field n key required nullable scope kind =
    typed_field (codes "string") is_string n key required nullable (λ v. add v scope kind direct)

-- `markOpaqueStringArrayField`
unfoldable pub mark_opaque_string_array_field : Node → Bytes → Bool → Bool → Done
unfolding typed_field each
mark_opaque_string_array_field n key required nullable =
    typed_field (codes "array") is_array n key required nullable (λ v. each (elements v) (λ x.
      if is_string x then mark_opaque x else shape x (codes "string") (key ++ codes " element")))

-- `walkStringValues`
unfoldable mutual
  pub walk_string_values : Node → Scope → TargetKind → Done
  walk_string_values (string_node path token) scope kind =
      perform reads_context >> add (string_node path token) scope kind direct
  walk_string_values (object_node path ms) scope kind =
      perform reads_context >> walk_member_values ms scope kind
  walk_string_values (array_node path items) scope kind =
      perform reads_context >> walk_item_values items scope kind
  walk_string_values n scope kind = perform reads_context

  pub walk_member_values : Members → Scope → TargetKind → Done
  walk_member_values no_members scope kind = done
  walk_member_values (member k v rest) scope kind =
      walk_string_values v scope kind >> walk_member_values rest scope kind

  pub walk_item_values : Nodes → Scope → TargetKind → Done
  walk_item_values no_nodes scope kind = done
  walk_item_values (item v rest) scope kind =
      walk_string_values v scope kind >> walk_item_values rest scope kind

-- `walkStringObjectField`
unfoldable pub walk_string_object_field : Node → Bytes → Bool → Bool → Scope → Done
unfolding typed_field walk_string_values
walk_string_object_field n key required nullable scope =
    typed_field (codes "object") is_object n key required nullable
      (λ v. walk_string_values v scope json_value)

-- `stringField`, `objectField` and `arrayField`, of a field that may be missing, and of one that may
-- not.
unfoldable pub optional_of : Bytes → (Node → Bool) → Node → Bytes → Walk (Option Node)
unfolding field
optional_of expected is_expected n key = do
  found ← field n key
  elim found [
    | none ↦ ret none
    | some v ↦ if is_expected v then ret (some v) else shape v expected key
  ]

unfoldable pub required_of : Bytes → (Node → Bool) → Node → Bytes → Walk Node
unfolding field
required_of expected is_expected n key = do
  found ← field n key
  elim found [
    | none ↦ missing n key expected
    | some v ↦ if is_expected v then ret v else shape v expected key
  ]

abbrev pub string_field : Node → Bytes → Walk (Option Node)
string_field n key = optional_of (codes "string") is_string n key

abbrev pub required_string : Node → Bytes → Walk Node
required_string n key = required_of (codes "string") is_string n key

abbrev pub required_object : Node → Bytes → Walk Node
required_object n key = required_of (codes "object") is_object n key

abbrev pub required_array : Node → Bytes → Walk Node
required_array n key = required_of (codes "array") is_array n key

-- `scopeForRole`
unfoldable pub scope_for_role : Bytes → Option Scope
unfolding any_of bytes_eq
scope_for_role role =
    if any_of (bytes_eq role) (words "system developer")
    then some scope_system
    else if bytes_eq role (codes "user")
    then some scope_user
    else if any_of (bytes_eq role) (words "assistant model")
    then some scope_assistant
    else if any_of (bytes_eq role) (words "tool function")
    then some scope_tool_output
    else none

-- Loops and fields that several protocols write out: an optional number, an optional boolean, and the
-- elements of an array that are to be objects.
unfoldable pub number_field : Node → Bytes → Bytes → Done
unfolding with_field
number_field n key detail =
    with_field n key
      (λ v. if is_number v || is_null v then done else shape v (codes "number or null") detail)

unfoldable pub boolean_field : Node → Bytes → Bytes → Done
unfolding with_field
boolean_field n key detail =
    with_field n key (λ v. if is_boolean v then done else shape v (codes "boolean") detail)

unfoldable pub each_object : List Node → Bytes → (Node → Done) → Done
unfolding each
each_object ns detail f = each ns (λ n. if is_object n then f n else unsupported n (plain detail))

abbrev pub has : Option Node → Bool
has none = false
has (some n) = true

abbrev pub for_some : Option Node → (Node → Done) → Done
for_some none f = done
for_some (some n) f = f n

-- A required string that is added, one that is marked, and a type that is marked and read.
unfoldable pub add_required : Node → Bytes → Scope → TargetKind → Mutability → Done
unfolding required_of
add_required n key scope kind mutable = do text ← required_string n key; add text scope kind mutable

unfoldable pub mark_required : Node → Bytes → Done
unfolding required_of
mark_required n key = required_string n key >>= mark_opaque

unfoldable pub mark_type : Node → Walk Bytes
unfolding required_of
mark_type n = do t ← required_string n (codes "type"); mark_opaque t; ret (text_of t)

-- A field that is a string or null, under the name that its error has.
unfoldable pub string_or_null : Node → Bytes → Bytes → (Node → Done) → Done
unfolding with_value
string_or_null n key detail f =
    with_value n key (λ v. if is_string v then f v else shape v (codes "string or null") detail)
