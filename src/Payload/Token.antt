-- ===== src/Payload/Token.antt =====
-- `Document`, its string tokens and the look-ups of payload/payload.go. A pointer to a document is
-- the document's number; a token made by hand has none.
use cpa_plugin_privacyfilter.Base.{
  ℕ, zero, suc, Bool, true, false, ◌&&◌, Option, none, some, List, [], ◌∷◌, if◌then◌else◌, ◌==◌,
  Bytes, bytes_eq, length, get_elem?, slice,
}
use cpa_plugin_privacyfilter.Base.Int.{eq_ℤ}
use cpa_plugin_privacyfilter.Payload.{
  invalid_token, path_not_found, path_ambiguous, Result, ok, failed, Kind, invalid, object, array,
  string, number, boolean, null, Span, PathSegment, object_key, array_index, PathNode, Limits,
}
use mathlib.Core.List.{reverse}

abbrev pub JsonPath : Type 0
JsonPath = List PathSegment

-- `StringToken`
pub record StringToken : Type 0 where
  pub value : Bytes
  pub span : Span
  pub path : JsonPath
  pub parent_kind : Kind
  pub depth : ℕ
  pub document : Option ℕ
  pub ordinal : ℕ
  pub path_ref : Option ℕ

pub record Document : Type 0 where
  pub number_of : ℕ
  pub body : Bytes
  pub root_kind : Kind
  pub root_span : Span
  pub limits : Limits
  pub strings : List StringToken
  pub paths : List PathNode
  pub structural_bytes : ℕ
  pub node_count : ℕ

-- `==` on kinds, spans and segments
abbrev pub kind_code : Kind → ℕ
kind_code invalid = 0
kind_code object = 1
kind_code array = 2
kind_code string = 3
kind_code number = 4
kind_code boolean = 5
kind_code null = 6

abbrev pub span_eq : Span → Span → Bool
span_eq a b = a.start == b.start && a.stop == b.stop

abbrev pub segment_eq : PathSegment → PathSegment → Bool
segment_eq (object_key a) (object_key b) = bytes_eq a b
segment_eq (array_index a) (array_index b) = eq_ℤ a b
segment_eq (object_key a) (array_index b) = false
segment_eq (array_index a) (object_key b) = false

-- `Path.Equal` and `Path.HasPrefix`
unfoldable pub path_eq : JsonPath → JsonPath → Bool
path_eq [] [] = true
path_eq (a ∷ p) (b ∷ q) = segment_eq a b && path_eq p q
path_eq [] (b ∷ q) = false
path_eq (a ∷ p) [] = false

unfoldable pub has_prefix : JsonPath → JsonPath → Bool
has_prefix p [] = true
has_prefix [] (b ∷ q) = false
has_prefix (a ∷ p) (b ∷ q) = segment_eq a b && has_prefix p q

-- The loop of `pathEqual`, from the last segment of the path to the first.
unfoldable pub path_matches : List PathNode → Option ℕ → JsonPath → Bool
path_matches paths none [] = true
path_matches paths none (s ∷ path) = false
path_matches paths (some r) [] = false
path_matches paths (some r) (s ∷ path) = elim (get_elem? paths r) [
  | none ↦ false
  | some n ↦ segment_eq n.segment s && path_matches paths n.parent path
]

abbrev pub path_equal : Document → Option ℕ → JsonPath → Bool
path_equal d ref path = path_matches d.paths ref (reverse path)

-- `materializePath`, on fuel: a parent is made before its children.
unfoldable pub materialize : ℕ → List PathNode → Option ℕ → JsonPath → JsonPath
materialize fuel paths none path = path
materialize zero paths (some r) path = path
materialize (suc fuel) paths (some r) path = elim (get_elem? paths r) [
  | none ↦ path
  | some n ↦ materialize fuel paths n.parent (n.segment ∷ path)
]

abbrev pub materialize_path : Document → Option ℕ → JsonPath
materialize_path d ref = materialize (length d.paths) d.paths ref []

abbrev pub clone_token : Document → StringToken → StringToken
clone_token d t = record t { path = materialize_path d t.path_ref }

-- `token.document != d`
abbrev pub belongs : Document → StringToken → Bool
belongs d t = elim t.document [ none ↦ false | some n ↦ n == d.number_of ]

-- The comparison of `canonicalToken`.
abbrev pub is_unchanged : Document → StringToken → StringToken → Bool
is_unchanged d token canonical =
    bytes_eq token.value canonical.value
    && span_eq token.span canonical.span
    && kind_code token.parent_kind == kind_code canonical.parent_kind
    && token.depth == canonical.depth
    && path_equal d canonical.path_ref token.path

unfoldable pub canonical_token : Document → StringToken → Result StringToken
unfolding path_matches
canonical_token d token =
    if belongs d token
    then (elim (get_elem? d.strings token.ordinal) [
      | none ↦ failed invalid_token
      | some canonical ↦
          if is_unchanged d token canonical then ok canonical else failed invalid_token
    ])
    else failed invalid_token

-- `StringTokenAt`
unfoldable pub string_token_at : Document → ℕ → Option StringToken
unfolding materialize
string_token_at d i = elim (get_elem? d.strings i) [ none ↦ none | some t ↦ some (clone_token d t) ]

-- `StringsAt`, over the strings of the document
unfoldable pub strings_at : Document → JsonPath → List StringToken → List StringToken
unfolding path_matches materialize
strings_at d path [] = []
strings_at d path (t ∷ ts) =
    if path_equal d t.path_ref path
    then clone_token d t ∷ strings_at d path ts
    else strings_at d path ts

-- The loop of `StringAt`
unfoldable pub string_at_loop :
    Document → JsonPath → Option StringToken → List StringToken → Result StringToken
unfolding path_matches materialize
string_at_loop d path none [] = failed path_not_found
string_at_loop d path (some t) [] = ok t
string_at_loop d path seen (t ∷ ts) =
    let again = string_at_loop d path (some (clone_token d t)) ts in
    let rest = string_at_loop d path seen ts in
    if path_equal d t.path_ref path
    then elim seen [ none ↦ again | some s ↦ failed path_ambiguous ]
    else rest

unfoldable pub string_at : Document → JsonPath → Result StringToken
unfolding string_at_loop
string_at d path = string_at_loop d path none d.strings

-- `RawString`
unfoldable pub raw_string : Document → StringToken → Result Bytes
unfolding canonical_token
raw_string d token = elim (canonical_token d token) [
  | failed e ↦ failed e
  | ok t ↦ ok (slice d.body t.span.start t.span.stop)
]
