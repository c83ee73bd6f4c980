-- ===== src/Walker/Reached.antt =====
-- A string that a walk adds is selected, if the walk succeeds: `Reaches` says that a walk that is not
-- refused performs an action.
use cpa_plugin_privacyfilter.Base.{
  ℕ, Bool, true, false, ◌&&◌, Option, none, some, List, [], ◌∷◌, ◌++◌, if◌then◌else◌, Bytes,
  bytes_eq, Any, ◌≡◌, refl, sym, subst, ◌⊎◌, inl, inr, Bool-cases, bytes_eq_iff,
}
use cpa_plugin_privacyfilter.Payload.Token.{
  JsonPath, StringToken, Document, string_token_at, span_eq,
}
use cpa_plugin_privacyfilter.Payload.Context.{StringKeyContext, string_key_context_at}
use cpa_plugin_privacyfilter.Walker.{Scope, TargetKind, Mutability, Target, walk_internal}
use cpa_plugin_privacyfilter.Walker.Tree.{
  TreeString, Node, string_node, object_node, array_node, Members, Nodes, values_of,
}
use cpa_plugin_privacyfilter.Walker.Steps.{Action, adds, Walk, ret, refuse, act, Done, each, ◌>>=◌}
use cpa_plugin_privacyfilter.Walker.Fields.{
  field, only_value, optional_of, string_field, required_of, required_string, required_array,
}
use cpa_plugin_privacyfilter.Walker.Collect.{
  Selection, Collector, Outcome, stopped, going, ◌>=>◌, retain, retained_field_context_bytes,
  target_of, select, add_token, add_string, add_target, read_context, perform_action, run,
  is_disposed,
}
use cpa_plugin_privacyfilter.Walker.Collect.Moves.{
  Move, selects, protects, turns_away, Moves, stays, moves, Follows,
}
use cpa_plugin_privacyfilter.Walker.Collect.Runs.{run-Follows, span_start, and_left, and_right}
use cpa_plugin_privacyfilter.Walker.Collect.Apart.{mark_unsupported_keeps}

module _ {ℓ} {A : Type ℓ} (a : Action) where
  abbrev pub Reaches : Walk A → Type 0
  Reaches (ret x) = ⊥
  Reaches (refuse e) = Unit {0}
  Reaches (act b w) = (a ≡ b) ⊎ Reaches w

module _ {ℓ κ} {A : Type ℓ} {B : Type κ} (a : Action) where
  pub Reaches-after :
      (m : Walk A) (f : A → Walk B) → ((x : A) → Reaches a (f x)) → Reaches a (m >>= f)
  unfolding ◌>>=◌
  Reaches-after (ret x) f h = h x
  Reaches-after (refuse e) f h = tt
  Reaches-after (act b w) f h = inr (Reaches-after w f h)

  pub Reaches-before : (m : Walk A) (f : A → Walk B) → Reaches a m → Reaches a (m >>= f)
  unfolding ◌>>=◌
  Reaches-before (ret x) f h = absurd h
  Reaches-before (refuse e) f h = tt
  Reaches-before (act b w) f (inl e) = inl e
  Reaches-before (act b w) f (inr h) = inr (Reaches-before w f h)

  -- Where the first walk returns a known value.
  pub Reaches-from :
      (m : Walk A) (x : A) (f : A → Walk B) → m ≡ ret x → Reaches a (f x) → Reaches a (m >>= f)
  unfolding ◌>>=◌
  Reaches-from m x f e h = subst (λ m. Reaches a (m >>= f)) (sym e) h

pub record Reached {ℓ} {A : Type ℓ} (a : Action) (w : Walk A) : Type 0 where
  pub reaches : Reaches a w

module _ {ℓ κ} {A : Type ℓ} {B : Type κ} {a : Action} where
  -- The same in a form that determines the action and the walk.
  pub after : (m : Walk A) (f : A → Walk B) → ((x : A) → Reached a (f x)) → Reached a (m >>= f)
  after m f h = record { reaches = Reaches-after a m f (λ x. (h x).reaches) }

  pub before : (m : Walk A) (f : A → Walk B) → Reached a m → Reached a (m >>= f)
  before m f h = record { reaches = Reaches-before a m f h.reaches }

  pub from :
      (m : Walk A) (f : A → Walk B) (x : A) → m ≡ ret x → Reached a (f x) → Reached a (m >>= f)
  from m f x e h = record { reaches = Reaches-from a m x f e h.reaches }

module _ {ℓ} {A : Type ℓ} (P : A → Type 0) where
  pub Any-map : (Q : A → Type 0) → ((x : A) → P x → Q x) → (xs : List A) → Any P xs → Any Q xs
  Any-map Q f [] h = absurd h
  Any-map Q f (x ∷ xs) (inl h) = inl (f x h)
  Any-map Q f (x ∷ xs) (inr h) = inr (Any-map Q f xs h)

  Any-append : (xs ys : List A) → Any P xs → Any P (xs ++ ys)
  Any-append [] ys h = absurd h
  Any-append (x ∷ xs) ys (inl h) = inl h
  Any-append (x ∷ xs) ys (inr h) = inr (Any-append xs ys h)

  Any-last : (xs : List A) (y : A) → P y → Any P (xs ++ y ∷ [])
  Any-last [] y h = inl h
  Any-last (x ∷ xs) y h = inr (Any-last xs y h)

pub Reaches-each {ℓ} :
    {A : Type ℓ} (a : Action) (xs : List A) (f : A → Done)
    → Any (λ x. Reaches a (f x)) xs
    → Reaches a (each xs f)
unfolding each
Reaches-each a [] f h = absurd h
Reaches-each a (x ∷ xs) f (inl h) = Reaches-before a (f x) (λ _. each xs f) h
Reaches-each a (x ∷ xs) f (inr h) =
    Reaches-after a (f x) (λ _. each xs f) (λ _. Reaches-each a xs f h)

pub reached_each {ℓ} :
    {A : Type ℓ} {a : Action} (xs : List A) (f : A → Done)
    → Any (λ x. Reached a (f x)) xs
    → Reached a (each xs f)
reached_each {a = a} xs f h = record {
  reaches =
      Reaches-each a xs f
        (Any-map (λ x. Reached a (f x)) (λ x. Reaches a (f x)) (λ x r. r.reaches) xs h);
}

pub field-one :
    (path : JsonPath) (ms : Members) (key : Bytes) (v : Node)
    → values_of key ms ≡ v ∷ []
    → field (object_node path ms) key ≡ ret (some v)
unfolding field
field-one path ms key v e =
    subst (λ vs. only_value (object_node path ms) key vs ≡ ret (some v)) (sym e) refl

pub string_field-one :
    (path : JsonPath) (ms : Members) (key : Bytes) (p : JsonPath) (t : TreeString)
    → values_of key ms ≡ string_node p t ∷ []
    → string_field (object_node path ms) key ≡ ret (some (string_node p t))
unfolding optional_of ◌>>=◌
string_field-one path ms key p t e = rw (field-one path ms key (string_node p t) e) refl

pub required_array-one :
    (path : JsonPath) (ms : Members) (key : Bytes) (p : JsonPath) (items : Nodes)
    → values_of key ms ≡ array_node p items ∷ []
    → required_array (object_node path ms) key ≡ ret (array_node p items)
unfolding required_of ◌>>=◌
required_array-one path ms key p items e = rw (field-one path ms key (array_node p items) e) refl

pub required_string-one :
    (path : JsonPath) (ms : Members) (key : Bytes) (p : JsonPath) (t : TreeString)
    → values_of key ms ≡ string_node p t ∷ []
    → required_string (object_node path ms) key ≡ ret (string_node p t)
unfolding required_of ◌>>=◌
required_string-one path ms key p t e = rw (field-one path ms key (string_node p t) e) refl

-- The target of a string, with its scope and its kind.
pub record IsTarget (s : TreeString) (scope : Scope) (kind : TargetKind) (t : Target) : Type 0 where
  pub starts : t.token.span.start ≡ s.span.start
  pub value_is : t.token.value ≡ s.value
  pub scope_is : t.scope ≡ scope
  pub kind_is : t.kind ≡ kind

module _ (s : TreeString) (scope : Scope) (kind : TargetKind) where
  -- An outcome that has stopped, or has a target for the string.
  abbrev pub Has : Outcome → Type 0
  Has (stopped e) = Unit {0}
  Has (going c) = Any (IsTarget s scope kind) c.selection.found

  pub Has-then :
      (o : Outcome) (f : Collector → Outcome) → ((c : Collector) → Has (f c)) → Has (o >=> f)
  Has-then (stopped e) f h = tt
  Has-then (going c) f h = h c

  if-Has : (b : Bool) (o p : Outcome) → Has o → Has p → Has (if b then o else p)
  if-Has true o p h k = h
  if-Has false o p h k = k

  abbrev Listed : Selection → Type 0
  Listed x = Any (IsTarget s scope kind) x.found

  reject_start-Listed :
      (b : Bool) (a : ℕ) (x : Selection)
      → Listed x
      → Listed (if b then x else record x { rejected = a ∷ x.rejected })
  reject_start-Listed true a x k = k
  reject_start-Listed false a x k = k

  Move-Listed : {x y : Selection} → Move x y → Listed x → Listed y
  Move-Listed (selects a t x e n) k = Any-append (IsTarget s scope kind) x.found (t ∷ []) k
  Move-Listed (protects a x n) k = k
  Move-Listed (turns_away n detail x) k =
      unfold is_disposed in
      mark_unsupported_keeps Listed (λ a x. reject_start-Listed (is_disposed a x) a x) n x k

  Moves-Listed : {x y : Selection} → Moves x y → Listed x → Listed y
  Moves-Listed stays k = k
  Moves-Listed (moves m h) k = Moves-Listed h (Move-Listed m k)

  still-Has : (x : Selection) (o : Outcome) → Listed x → Follows x o → Has o
  still-Has x (stopped e) k h = tt
  still-Has x (going c) k h = Moves-Listed h k

  -- What stands after an outcome keeps the target.
  pub Has-kept :
      (o : Outcome) (f : Collector → Outcome)
      → Has o
      → ((c : Collector) → Follows c.selection (f c))
      → Has (o >=> f)
  Has-kept (stopped e) f h k = tt
  Has-kept (going c) f h k = still-Has c.selection (f c) h (k c)

  added_token :
      (token : Option StringToken) (found : Option StringKeyContext) (mutable : Mutability)
      (c : Collector)
      → Has (elim token [
        | none ↦ stopped walk_internal
        | some t ↦
            if bytes_eq t.value s.value && span_eq t.span s.span
            then (retain retained_field_context_bytes c >=> λ c. (elim found [
              | none ↦ stopped walk_internal
              | some fields ↦ going (record c {
                selection = select s.span.start (target_of t fields scope kind mutable) c.selection;
              })
            ]))
            else stopped walk_internal
      ])
  added_token none found mutable c = tt
  added_token (some t) none mutable c = if-Has _ _ (stopped _) (Has-then (retain _ c) _ λ c. tt) tt
  added_token (some t) (some fields) mutable c =
      elim (Bool-cases (bytes_eq t.value s.value && span_eq t.span s.span)) [
        | inr differs ↦ rw differs tt
        | inl y ↦ rw y (
            Has-then (retain _ c) _ λ c.
              Any-last (IsTarget s scope kind) c.selection.found
                (target_of t fields scope kind mutable)
                (record {
                  starts = span_start t.span s.span (and_right _ _ y);
                  value_is = (bytes_eq_iff t.value s.value).0 (and_left _ _ y);
                  scope_is = refl;
                  kind_is = refl;
                }))
      ]

  module _ (canceled : ℕ → Bool) (d : Document) (path : JsonPath) (mutable : Mutability) where
    add_target-Has :
        (c : Collector) → Has (add_target canceled d (string_node path s) scope kind mutable c)
    unfolding add_target add_string add_token
    add_target-Has c =
        Has-then (read_context canceled d c) (add_string canceled d path s scope kind mutable) λ c.
          if-Has (is_disposed s.span.start c.selection) (stopped _) _ tt (
            Has-then _ (add_token canceled d s scope kind mutable) λ c.
              added_token (string_token_at d s.ordinal) (string_key_context_at d s.ordinal) mutable
                c)

    -- A walk that reaches the string leaves a target for it.
    pub run-Has :
        (w : Done)
        → Reaches (adds (string_node path s) scope kind mutable) w
        → (c : Collector) → Has (run canceled d w c)
    unfolding run perform_action
    run-Has (ret u) h c = absurd h
    run-Has (refuse e) h c = tt
    run-Has (act b w) (inl e) c =
        Has-kept (perform_action canceled d b c) (run canceled d w)
          (subst (λ b. Has (perform_action canceled d b c)) e (add_target-Has c))
          (run-Follows canceled d w)
    run-Has (act b w) (inr h) c =
        Has-then (perform_action canceled d b c) (run canceled d w) (run-Has w h)
