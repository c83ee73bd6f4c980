-- ===== src/Walker/Collect/Disposed.antt =====
-- `ensureStringDisposition` leaves no string of a tree out.
use cpa_plugin_privacyfilter.Base.{
  ℕ, Bool, true, false, ◌||◌, List, [], ◌∷◌, ◌++◌, ◌==◌, if◌then◌else◌, All, All-map, All-append,
  ◌≡◌, refl, subst, false≢true, arith,
}
use cpa_plugin_privacyfilter.Base.Text.{codes, any_of}
use cpa_plugin_privacyfilter.Payload.Token.{JsonPath, Document}
use cpa_plugin_privacyfilter.Walker.{Detail, plain}
use cpa_plugin_privacyfilter.Walker.Tree.{
  TreeString, Node, string_node, object_node, array_node, number_node, boolean_node, null_node,
  Members, no_members, member, Nodes, no_nodes, item, starts_of, starts_of_members, starts_of_items,
}
use cpa_plugin_privacyfilter.Walker.Collect.{
  Selection, Collector, Outcome, stopped, going, ◌>=>◌, has_start, is_disposed, mark_unsupported,
  count_undisposed, reject, read_context, too_long, reserve_unsupported, detail_bytes, ensure,
  ensure_members, ensure_items,
}
use cpa_plugin_privacyfilter.Walker.Collect.Moves.{
  Moves, stays, Moves-trans, Follows, reject-Follows,
}
use cpa_plugin_privacyfilter.Walker.Collect.Runs.{after_read}
use cpa_plugin_privacyfilter.Walker.Collect.Apart.{Moves-disposed}

same : (a : ℕ) → (a == a) ≡ true
same a = ground arith

last_true : (b t o r : Bool) → b ≡ true → (t || o || (b || r)) ≡ true
last_true true true true r e = refl
last_true true true false r e = refl
last_true true false true r e = refl
last_true true false false r e = refl
last_true false t o r e = absurd (false≢true e)

-- An outcome that has stopped, or has disposed of some strings.
abbrev pub Covers : Selection → List ℕ → Outcome → Type 0
Covers x starts (stopped e) = Unit {0}
Covers x starts (going c) = Moves x c.selection × All (λ s. is_disposed s c.selection ≡ true) starts

Covers-both :
    (x : Selection) (ss ts : List ℕ) (c : Collector) (o : Outcome)
    → Covers x ss (going c)
    → Covers c.selection ts o
    → Covers x (ss ++ ts) o
Covers-both x ss ts c (stopped e) h k = tt
Covers-both x ss ts c (going c') h k =
    (Moves-trans h.0 k.0, All-append _ ss ts (All-map (λ s. Moves-disposed s k.0) ss h.1) k.1)

Covers-more :
    (x : Selection) (ss : List ℕ) (c : Collector) (o : Outcome)
    → Covers x ss (going c)
    → Follows c.selection o
    → Covers x ss o
Covers-more x ss c (stopped e) h k = tt
Covers-more x ss c (going c') h k = (Moves-trans h.0 k, All-map (λ s. Moves-disposed s k) ss h.1)

pub Covers-then :
    (x : Selection) (ss ts : List ℕ) (o : Outcome) (f : Collector → Outcome)
    → Covers x ss o
    → ((c : Collector) → Covers c.selection ts (f c))
    → Covers x (ss ++ ts) (o >=> f)
Covers-then x ss ts (stopped e) f h k = tt
Covers-then x ss ts (going c) f h k = Covers-both x ss ts c (f c) h (k c)

pub Covers-kept :
    (x : Selection) (ss : List ℕ) (o : Outcome) (f : Collector → Outcome)
    → Covers x ss o
    → ((c : Collector) → Follows c.selection (f c))
    → Covers x ss (o >=> f)
Covers-kept x ss (stopped e) f h k = tt
Covers-kept x ss (going c) f h k = Covers-more x ss c (f c) h (k c)

pub Covers-none : (x : Selection) (o : Outcome) → Follows x o → Covers x [] o
Covers-none x (stopped e) h = tt
Covers-none x (going c) h = (h, tt)

then_going : (o : Outcome) → (o >=> going) ≡ o
then_going (stopped e) = refl
then_going (going c) = refl

-- An outcome that has stopped, or has disposed of a string.
abbrev Ends : ℕ → Outcome → Type 0
Ends s (stopped e) = Unit {0}
Ends s (going c) = is_disposed s c.selection ≡ true

Ends-then :
    (s : ℕ) (o : Outcome) (f : Collector → Outcome)
    → ((c : Collector) → Ends s (f c))
    → Ends s (o >=> f)
Ends-then s (stopped e) f h = tt
Ends-then s (going c) f h = h c

if-Ends : (s : ℕ) (b : Bool) (o p : Outcome) → Ends s o → Ends s p → Ends s (if b then o else p)
if-Ends s true o p h k = h
if-Ends s false o p h k = k

Covers-one : (s : ℕ) (x : Selection) (o : Outcome) → Follows x o → Ends s o → Covers x (s ∷ []) o
Covers-one s x (stopped e) h k = tt
Covers-one s x (going c) h k = (h, (k, tt))

start_disposed :
    (b : Bool) (a : ℕ) (x : Selection)
    → is_disposed a x ≡ b
    → is_disposed a (if b then x else record x { rejected = a ∷ x.rejected }) ≡ true
unfolding is_disposed has_start any_of
start_disposed true a x e = e
start_disposed false a x e =
    last_true (a == a) (has_start a x.targets) (has_start a x.opaque) (has_start a x.rejected)
      (same a)

-- The string of a call of `unsupported` is disposed.
rejected_string :
    (path : JsonPath) (t : TreeString) (detail : Detail) (c : Collector)
    → Covers c.selection (t.span.start ∷ []) (reject (string_node path t) detail c)
unfolding reject mark_unsupported
rejected_string path t detail c =
    Covers-one (t.span.start) c.selection (reject (string_node path t) detail c)
      (reject-Follows (string_node path t) detail c)
      (if-Ends t.span.start (too_long detail) (stopped _) _ tt (
        Ends-then t.span.start (reserve_unsupported (string_node path t) (detail_bytes detail) c) _
          λ c'.
            unfold is_disposed in
            start_disposed (is_disposed t.span.start c'.selection) t.span.start c'.selection refl))

-- A turn of `ensureStringDisposition`, by the test.
ensured_string :
    (b : Bool) (path : JsonPath) (t : TreeString) (detail : Detail) (c : Collector)
    → is_disposed t.span.start c.selection ≡ b
    → Covers c.selection
        (t.span.start ∷ [])
        (if (if b then 0 else 1) == 0 then going c else reject (string_node path t) detail c)
ensured_string true path t detail c e = (stays, (e, tt))
ensured_string false path t detail c e = rejected_string path t detail c

ensure_string :
    (path : JsonPath) (t : TreeString) (detail : Detail) (c : Collector)
    → Covers c.selection (t.span.start ∷ []) (
        if count_undisposed c.selection (string_node path t) == 0
        then going c
        else reject (string_node path t) detail c)
unfolding count_undisposed is_disposed
ensure_string path t detail c =
    ensured_string (is_disposed t.span.start c.selection) path t detail c refl

module _ (canceled : ℕ → Bool) (d : Document) where
  pub read_only : (c : Collector) → Covers c.selection [] (read_context canceled d c)
  read_only c = Covers-none c.selection _ (
      subst (Follows c.selection) (then_going (read_context canceled d c))
        (after_read canceled d c going λ c. stays))

  Covers-read :
      (starts : List ℕ) (c : Collector) (f : Collector → Outcome)
      → ((c : Collector) → Covers c.selection starts (f c))
      → Covers c.selection starts (read_context canceled d c >=> f)
  Covers-read starts c f h =
      Covers-then c.selection [] starts (read_context canceled d c) f (read_only c) h

  mutual
    unfolding ensure starts_of

    pub ensure-Covers :
        (n : Node) (c : Collector) → Covers c.selection (starts_of n) (ensure canceled d n c)
    ensure-Covers (string_node path t) c =
        Covers-read (t.span.start ∷ []) c _
          (ensure_string path t (plain (codes "string has no explicit protocol disposition")))
    ensure-Covers (object_node path ms) c = Covers-read _ c _ (ensure_members-Covers ms)
    ensure-Covers (array_node path items) c = Covers-read _ c _ (ensure_items-Covers items)
    ensure-Covers (number_node path) c = read_only c
    ensure-Covers (boolean_node path b) c = read_only c
    ensure-Covers (null_node path) c = read_only c

    ensure_members-Covers :
        (ms : Members) (c : Collector)
        → Covers c.selection (starts_of_members ms) (ensure_members canceled d ms c)
    ensure_members-Covers no_members c = (stays, tt)
    ensure_members-Covers (member key n rest) c =
        Covers-then c.selection (starts_of n) _ (ensure canceled d n c) _ (ensure-Covers n c)
          (ensure_members-Covers rest)

    ensure_items-Covers :
        (items : Nodes) (c : Collector)
        → Covers c.selection (starts_of_items items) (ensure_items canceled d items c)
    ensure_items-Covers no_nodes c = (stays, tt)
    ensure_items-Covers (item n rest) c =
        Covers-then c.selection (starts_of n) _ (ensure canceled d n c) _ (ensure-Covers n c)
          (ensure_items-Covers rest)

  Covers-follow : (x : Selection) (ss : List ℕ) (o : Outcome) → Covers x ss o → Follows x o
  Covers-follow x ss (stopped e) h = tt
  Covers-follow x ss (going c) h = h.0

  pub ensure-Follows : (n : Node) (c : Collector) → Follows c.selection (ensure canceled d n c)
  ensure-Follows n c =
      Covers-follow c.selection (starts_of n) (ensure canceled d n c) (ensure-Covers n c)
