-- ===== src/Payload/Context.antt =====
-- `StringKeyContextAt` and `normalizeContextKey` of payload/payload.go. The two loops of the latter
-- are those of `normalizeCredentialFieldKey`.
use cpa_plugin_privacyfilter.Base.{
  ℕ, zero, suc, Option, none, some, List, [], ◌∷◌, ◌++◌, ◌||◌, ltb, leb, ◌==◌, if◌then◌else◌, Bytes,
  length, get_elem?,
}
use cpa_plugin_privacyfilter.Payload.{PathSegment, object_key, array_index, PathNode}
use cpa_plugin_privacyfilter.Payload.Token.{Document}
use cpa_plugin_privacyfilter.Secrets.Keys.{fold_byte, scan_key, rewrite_key}

-- The list stands for the array, whose other elements are empty.
pub record StringKeyContext : Type 0 where
  pub immediate_key : Bytes
  pub ancestors : List Bytes
  pub ancestor_count : ℕ

abbrev pub max_context_ancestors : ℕ
max_context_ancestors = 4

abbrev pub max_context_key_bytes : ℕ
max_context_key_bytes = 64

unfoldable pub normalize_context_key : Bytes → Bytes
unfolding fold_byte scan_key
normalize_context_key key =
    if length key == 0 || ltb max_context_key_bytes (length key)
    then []
    else rewrite_key key (scan_key key)

abbrev pub segment_key : PathSegment → Bytes
segment_key (object_key key) = key
segment_key (array_index i) = []

-- What a segment adds to the ancestors: an index has no key, and neither has a name that is no key.
abbrev pub add_ancestor : PathSegment → List Bytes → List Bytes
unfolding normalize_context_key
add_ancestor (array_index i) found = found
add_ancestor (object_key key) found =
    if length (normalize_context_key key) == 0
    then found
    else found ++ normalize_context_key key ∷ []

-- The loop, on fuel: a parent is made before its children.
unfoldable pub ancestor_loop : ℕ → List PathNode → Option ℕ → List Bytes → List Bytes
unfolding normalize_context_key
ancestor_loop zero paths current found = found
ancestor_loop (suc fuel) paths none found = found
ancestor_loop (suc fuel) paths (some r) found =
    let rest : List Bytes = elim (get_elem? paths r) [
      | none ↦ found
      | some n ↦ ancestor_loop fuel paths n.parent (add_ancestor n.segment found)
    ] in
    if leb max_context_ancestors (length found) then found else rest

-- From the path of a string on.
unfoldable pub context_of_path : List PathNode → Option ℕ → StringKeyContext
unfolding ancestor_loop normalize_context_key
context_of_path paths none = record { immediate_key = []; ancestors = []; ancestor_count = 0 }
context_of_path paths (some r) = elim (get_elem? paths r) [
  | none ↦ record { immediate_key = []; ancestors = []; ancestor_count = 0 }
  | some n ↦
      let found = ancestor_loop (length paths) paths n.parent [] in
      record {
        immediate_key = normalize_context_key (segment_key n.segment);
        ancestors = found;
        ancestor_count = length found;
      }
]

-- `StringKeyContextAt`
unfoldable pub string_key_context_at : Document → ℕ → Option StringKeyContext
unfolding context_of_path
string_key_context_at d i = elim (get_elem? d.strings i) [
  | none ↦ none
  | some t ↦ some (context_of_path d.paths t.path_ref)
]
