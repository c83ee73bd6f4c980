-- ===== src/Walker/Tree.antt =====
-- `node` of walker/tree.go, and the look-up of fields in walker/common.go. The path of a node is
-- what `treePath.Clone` returns for it; a list that a node holds is a data type of its own.
use cpa_plugin_privacyfilter.Base.{
  ℕ, suc, max, Bool, true, false, List, [], ◌∷◌, ◌++◌, if◌then◌else◌, Bytes, bytes_eq,
}
use cpa_plugin_privacyfilter.Payload.{
  Kind, object, array, string, number, boolean, null, Span, object_key,
}
use cpa_plugin_privacyfilter.Payload.Token.{JsonPath}

pub record TreeString : Type 0 where
  pub value : Bytes
  pub span : Span
  pub ordinal : ℕ

mutual
  pub data Node : Type 0 where
    string_node : JsonPath → TreeString → Node
    object_node : JsonPath → Members → Node
    array_node : JsonPath → Nodes → Node
    number_node : JsonPath → Node
    boolean_node : JsonPath → Bool → Node
    null_node : JsonPath → Node

  pub data Members : Type 0 where
    no_members : Members
    member : Bytes → Node → Members → Members

  pub data Nodes : Type 0 where
    no_nodes : Nodes
    item : Node → Nodes → Nodes

abbrev pub kind_of : Node → Kind
kind_of (string_node path token) = string
kind_of (object_node path ms) = object
kind_of (array_node path nodes) = array
kind_of (number_node path) = number
kind_of (boolean_node path b) = boolean
kind_of (null_node path) = null

abbrev pub path_of : Node → JsonPath
path_of (string_node path token) = path
path_of (object_node path ms) = path
path_of (array_node path nodes) = path
path_of (number_node path) = path
path_of (boolean_node path b) = path
path_of (null_node path) = path

abbrev pub key_path : Node → Bytes → JsonPath
key_path n key = path_of n ++ object_key key ∷ []

-- The values of the members with a key.
unfoldable pub values_of : Bytes → Members → List Node
unfolding bytes_eq
values_of key no_members = []
values_of key (member k n rest) =
    let found = values_of key rest in if bytes_eq k key then n ∷ found else found

unfoldable pub member_keys : Members → List Bytes
member_keys no_members = []
member_keys (member k n rest) = k ∷ member_keys rest

unfoldable pub items_of : Nodes → List Node
items_of no_nodes = []
items_of (item n rest) = n ∷ items_of rest

-- `value.kind == payload.KindString` and the like
abbrev pub is_string : Node → Bool
is_string (string_node path token) = true
is_string _ = false

abbrev pub is_object : Node → Bool
is_object (object_node path ms) = true
is_object _ = false

abbrev pub is_array : Node → Bool
is_array (array_node path items) = true
is_array _ = false

abbrev pub is_number : Node → Bool
is_number (number_node path) = true
is_number _ = false

abbrev pub is_boolean : Node → Bool
is_boolean (boolean_node path b) = true
is_boolean _ = false

abbrev pub is_null : Node → Bool
is_null (null_node path) = true
is_null _ = false

-- `token.Value`, read where the kind is that of a string.
abbrev pub text_of : Node → Bytes
text_of (string_node path token) = token.value
text_of _ = []

-- `value.array`
unfoldable pub elements : Node → List Node
unfolding items_of
elements (array_node path items) = items_of items
elements _ = []

-- `value.object`
abbrev pub members_of : Node → Members
members_of (object_node path ms) = ms
members_of _ = no_members

-- `thought.boolean`
abbrev pub is_true : Node → Bool
is_true (boolean_node path b) = b
is_true _ = false

-- How many nodes the longest way down from a node has.
unfoldable mutual
  pub depth_of : Node → ℕ
  depth_of (object_node path ms) = suc (members_depth ms)
  depth_of (array_node path items) = suc (items_depth items)
  depth_of _ = 1

  pub members_depth : Members → ℕ
  members_depth no_members = 0
  members_depth (member key n rest) = max (depth_of n) (members_depth rest)

  pub items_depth : Nodes → ℕ
  items_depth no_nodes = 0
  items_depth (item n rest) = max (depth_of n) (items_depth rest)

-- Where the strings of a tree start, in order.
unfoldable mutual
  pub starts_of : Node → List ℕ
  starts_of (string_node path token) = token.span.start ∷ []
  starts_of (object_node path ms) = starts_of_members ms
  starts_of (array_node path items) = starts_of_items items
  starts_of _ = []

  pub starts_of_members : Members → List ℕ
  starts_of_members no_members = []
  starts_of_members (member key n rest) = starts_of n ++ starts_of_members rest

  pub starts_of_items : Nodes → List ℕ
  starts_of_items no_nodes = []
  starts_of_items (item n rest) = starts_of n ++ starts_of_items rest
