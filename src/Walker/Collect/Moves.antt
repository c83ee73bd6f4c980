-- ===== src/Walker/Collect/Moves.antt =====
-- What the collector does to its selection, as a relation: it selects a string, protects one, or turns
-- a subtree away. Every run of a walk is a sequence of such moves, whatever the walk is.
use cpa_plugin_privacyfilter.Base.{ℕ, Bool, true, false, ◌∷◌, if◌then◌else◌, ◌≡◌, refl, sym, subst}
use cpa_plugin_privacyfilter.Walker.{Target, Detail}
use cpa_plugin_privacyfilter.Walker.Tree.{Node}
use cpa_plugin_privacyfilter.Walker.Collect.{
  Selection, Collector, Outcome, stopped, going, ◌>=>◌, retain, is_disposed, mark_unsupported,
  reserve_unsupported, append_unsupported, too_long, reject, reserve_target_capacity, select,
}

abbrev pub protect : ℕ → Selection → Selection
protect s x = record x { opaque = s ∷ x.opaque }

pub data Move : Selection → Selection → Type 0 where
  selects :
      (s : ℕ) (t : Target) (x : Selection)
      → t.token.span.start ≡ s
      → is_disposed s x ≡ false
      → Move x (select s t x)
  protects : (s : ℕ) (x : Selection) → is_disposed s x ≡ false → Move x (protect s x)
  turns_away :
      (n : Node) (detail : Detail) (x : Selection)
      → Move x (append_unsupported n detail (mark_unsupported n x))

pub data Moves : Selection → Selection → Type 0 where
  stays : {x : Selection} → Moves x x
  moves : {x y z : Selection} → Move x y → Moves y z → Moves x z

pub Moves-trans : {x y z : Selection} → Moves x y → Moves y z → Moves x z
Moves-trans stays k = k
Moves-trans (moves m h) k = moves m (Moves-trans h k)

-- An outcome that has stopped, or has come by moves to where it is.
abbrev pub Follows : Selection → Outcome → Type 0
Follows x (stopped e) = Unit {0}
Follows x (going c) = Moves x c.selection

after-Moves : {x y : Selection} (o : Outcome) → Moves x y → Follows y o → Follows x o
after-Moves (stopped e) h k = tt
after-Moves (going c) h k = Moves-trans h k

pub Follows-then :
    (x : Selection) (o : Outcome) (f : Collector → Outcome)
    → Follows x o
    → ((c : Collector) → Follows c.selection (f c))
    → Follows x (o >=> f)
Follows-then x (stopped e) f h k = tt
Follows-then x (going c) f h k = after-Moves (f c) h (k c)

pub if-Follows :
    (x : Selection) (b : Bool) (o p : Outcome)
    → Follows x o
    → Follows x p
    → Follows x (if b then o else p)
if-Follows x true o p h k = h
if-Follows x false o p h k = k

-- An outcome that has stopped, or has left the selection as it was.
abbrev pub Keeps : Selection → Outcome → Type 0
Keeps x (stopped e) = Unit {0}
Keeps x (going c) = c.selection ≡ x

pub Keeps-then :
    (x : Selection) (o : Outcome) (f : Collector → Outcome)
    → Keeps x o
    → ((c : Collector) → c.selection ≡ x → Keeps x (f c))
    → Keeps x (o >=> f)
Keeps-then x (stopped e) f h k = tt
Keeps-then x (going c) f h k = k c h

pub Keeps-follow :
    (x : Selection) (o : Outcome) (f : Collector → Outcome)
    → Keeps x o
    → ((c : Collector) → c.selection ≡ x → Follows x (f c))
    → Follows x (o >=> f)
Keeps-follow x (stopped e) f h k = tt
Keeps-follow x (going c) f h k = k c h

pub if-Keeps :
    (x : Selection) (b : Bool) (o p : Outcome)
    → Keeps x o
    → Keeps x p
    → Keeps x (if b then o else p)
if-Keeps x true o p h k = h
if-Keeps x false o p h k = k

stays_at : (x : Selection) (c : Collector) → c.selection ≡ x → Moves x c.selection
stays_at x c e = subst (λ y. Moves x y) (sym e) stays

pub kept_follow : (x : Selection) (o : Outcome) → Keeps x o → Follows x o
kept_follow x (stopped e) h = tt
kept_follow x (going c) h = stays_at x c h

pub retain-Keeps :
    (x : Selection) (bytes : ℕ) (c : Collector) → c.selection ≡ x → Keeps x (retain bytes c)
unfolding retain
retain-Keeps x bytes c e = if-Keeps x _ (stopped _) (going _) tt e

pub reserve_target_capacity-Keeps :
    (x : Selection) (c : Collector) → c.selection ≡ x → Keeps x (reserve_target_capacity c)
unfolding reserve_target_capacity
reserve_target_capacity-Keeps x c e =
    if-Keeps x _ (going c) _ e (Keeps-then x (retain _ c) _ (retain-Keeps x _ c e) λ c e. e)

pub reject-Follows :
    (n : Node) (detail : Detail) (c : Collector) → Follows c.selection (reject n detail c)
unfolding reject reserve_unsupported
reject-Follows n detail c = if-Follows c.selection (too_long detail) (stopped _) _ tt (
    Keeps-follow c.selection (reserve_unsupported n _ c) _ (retain-Keeps c.selection _ _ refl)
      λ c' e.
        subst (λ x. Moves x (append_unsupported n detail (mark_unsupported n c'.selection))) e
          (moves (turns_away n detail c'.selection) stays))
