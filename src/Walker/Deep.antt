-- ===== src/Walker/Deep.antt =====
-- A walk that goes on with a field of a node goes on with a node that is less deep, so that walks which
-- agree on such nodes are equal: for the protocols that recur on fuel.
use cpa_plugin_privacyfilter.Base.{
  ◌≤◌, ◌<◌, max, Bool, true, false, Option, none, some, List, [], ◌∷◌, if◌then◌else◌, Bytes,
  bytes_eq, All, All-map, ◌≡◌, refl, ap, ◌∙◌, arith,
}
use cpa_plugin_privacyfilter.Walker.Tree.{
  Node, string_node, object_node, array_node, number_node, boolean_node, null_node, Members,
  no_members, member, Nodes, no_nodes, item, values_of, items_of, elements, depth_of, members_depth,
  items_depth,
}
use cpa_plugin_privacyfilter.Walker.Steps.{Walk, Done, each, ◌>>=◌}
use cpa_plugin_privacyfilter.Walker.Fields.{field, only_value, with_field}
use mathlib.Core.Path.{fun_ext}

pub depth_pos : (n : Node) → 1 ≤ depth_of n
unfolding depth_of
depth_pos (string_node path token) = omega arith
depth_pos (object_node path ms) = omega arith
depth_pos (array_node path items) = omega arith
depth_pos (number_node path) = omega arith
depth_pos (boolean_node path b) = omega arith
depth_pos (null_node path) = omega arith

if-All :
    (P : Node → Type 0) (b : Bool) (n : Node) (ns : List Node)
    → P n
    → All P ns
    → All P (if b then n ∷ ns else ns)
if-All P true n ns h k = (h, k)
if-All P false n ns h k = k

values_shallow :
    (key : Bytes) (ms : Members) → All (λ v. depth_of v ≤ members_depth ms) (values_of key ms)
unfolding depth_of values_of
values_shallow key no_members = tt
values_shallow key (member k n rest) =
    if-All (λ v. depth_of v ≤ max (depth_of n) (members_depth rest)) (bytes_eq k key) n
      (values_of key rest) (omega arith)
      (All-map (λ v h. omega arith) (values_of key rest) (values_shallow key rest))

items_shallow : (items : Nodes) → All (λ v. depth_of v ≤ items_depth items) (items_of items)
unfolding depth_of items_of
items_shallow no_nodes = tt
items_shallow (item n rest) =
    (omega arith, All-map (λ v h. omega arith) (items_of rest) (items_shallow rest))

pub elements_shallow : (n : Node) → All (λ v. depth_of v < depth_of n) (elements n)
unfolding depth_of elements
elements_shallow (array_node path items) =
    All-map (λ v h. omega arith) (items_of items) (items_shallow items)
elements_shallow (string_node path token) = tt
elements_shallow (object_node path ms) = tt
elements_shallow (number_node path) = tt
elements_shallow (boolean_node path b) = tt
elements_shallow (null_node path) = tt

module _ {ℓ κ} {A : Type ℓ} {B : Type κ} where
  pub bind_cong : (m : Walk A) (f g : A → Walk B) → ((x : A) → f x ≡ g x) → (m >>= f) ≡ (m >>= g)
  bind_cong m f g h = ap (λ f. m >>= f) (fun_ext h)

  pub bind_left : (m n : Walk A) (f : A → Walk B) → m ≡ n → (m >>= f) ≡ (n >>= f)
  bind_left m n f h = ap (λ m. m >>= f) h

pub each_cong {ℓ} :
    {A : Type ℓ} (xs : List A) (f g : A → Done) → All (λ x. f x ≡ g x) xs → each xs f ≡ each xs g
unfolding each
each_cong [] f g h = refl
each_cong (x ∷ xs) f g h =
    bind_left (f x) (g x) (λ _. each xs f) h.0
    ∙ bind_cong (g x) (λ _. each xs f) (λ _. each xs g) (λ u. each_cong xs f g h.1)

module _ {ℓ} {B : Type ℓ} where
  only_value_deep :
      (n : Node) (key : Bytes) (P : Node → Type 0) (vs : List Node) (f g : Option Node → Walk B)
      → All P vs
      → f none ≡ g none
      → ((v : Node) → P v → f (some v) ≡ g (some v))
      → (only_value n key vs >>= f) ≡ (only_value n key vs >>= g)
  unfolding ◌>>=◌
  only_value_deep n key P [] f g a h k = h
  only_value_deep n key P (v ∷ []) f g a h k = k v a.0
  only_value_deep n key P (v ∷ w ∷ vs) f g a h k = refl

  pub field_deep :
      (n : Node) (key : Bytes) (f g : Option Node → Walk B)
      → f none ≡ g none
      → ((v : Node) → depth_of v < depth_of n → f (some v) ≡ g (some v))
      → (field n key >>= f) ≡ (field n key >>= g)
  unfolding field depth_of ◌>>=◌
  field_deep (object_node path ms) key f g h k =
      only_value_deep (object_node path ms) key (λ v. depth_of v ≤ members_depth ms)
        (values_of key ms) f g (values_shallow key ms) h (λ v l. k v (omega arith))
  field_deep (string_node path token) key f g h k = refl
  field_deep (array_node path items) key f g h k = refl
  field_deep (number_node path) key f g h k = refl
  field_deep (boolean_node path b) key f g h k = refl
  field_deep (null_node path) key f g h k = refl

pub with_field_deep :
    (n : Node) (key : Bytes) (f g : Node → Done)
    → ((v : Node) → depth_of v < depth_of n → f v ≡ g v)
    → with_field n key f ≡ with_field n key g
unfolding with_field
with_field_deep n key f g h = field_deep n key _ _ refl h

pub if_cong :
    (b : Bool) (x y x' y' : Done) → x ≡ x' → y ≡ y' → (if b then x else y) ≡ (if b then x' else y')
if_cong true x y x' y' h k = h
if_cong false x y x' y' h k = k
