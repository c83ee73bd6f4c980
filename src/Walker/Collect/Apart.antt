-- ===== src/Walker/Collect/Apart.antt =====
-- What the moves of a collector keep: no string is disposed in two ways, none is forgotten, the
-- selected strings are those of the targets, and a string is turned away only with an issue.
use cpa_plugin_privacyfilter.Base.{
  ℕ, Bool, true, false, not, ◌&&◌, ◌||◌, [], ◌∷◌, ◌==◌, if◌then◌else◌, map, length, length-append,
  ◌<◌, ◌⊎◌, ◌≡◌, refl, sym, ap, ◌∙◌, subst, inr, true≢false, ==_iff, arith,
}
use mathlib.Core.List.{map-append}
use cpa_plugin_privacyfilter.Base.Text.{any_of, any_of-append}
use cpa_plugin_privacyfilter.Walker.{Target}
use cpa_plugin_privacyfilter.Walker.Tree.{
  Node, string_node, object_node, array_node, number_node, boolean_node, null_node, Members,
  no_members, member, Nodes, no_nodes, item, path_of,
}
use cpa_plugin_privacyfilter.Walker.Collect.{
  Selection, has_start, is_disposed, reject_start, mark_unsupported, mark_unsupported_members,
  mark_unsupported_items,
}
use cpa_plugin_privacyfilter.Walker.Collect.Moves.{
  Move, selects, protects, turns_away, Moves, stays, moves,
}

-- At most one of three.
abbrev pub at_most_one : Bool → Bool → Bool → Bool
at_most_one t o r = not (t && o) && not (t && r) && not (o && r)

abbrev pub exactly_one : Bool → Bool → Bool → Bool
exactly_one t o r = (t || o || r) && at_most_one t o r

unfoldable pub is_apart : ℕ → Selection → Bool
is_apart s x = at_most_one (has_start s x.targets) (has_start s x.opaque) (has_start s x.rejected)

-- A test on one more start, added where a string was not disposed.
added_first :
    (b t o r : Bool)
    → (b ≡ true → (t || o || r) ≡ false)
    → at_most_one t o r ≡ true
    → at_most_one (b || t) o r ≡ true
added_first true true o r h k = absurd (true≢false (h refl))
added_first true false true r h k = absurd (true≢false (h refl))
added_first true false false true h k = absurd (true≢false (h refl))
added_first true false false false h k = refl
added_first false t o r h k = k

added_second :
    (b t o r : Bool)
    → (b ≡ true → (t || o || r) ≡ false)
    → at_most_one t o r ≡ true
    → at_most_one t (b || o) r ≡ true
added_second true true o r h k = absurd (true≢false (h refl))
added_second true false true r h k = absurd (true≢false (h refl))
added_second true false false true h k = absurd (true≢false (h refl))
added_second true false false false h k = refl
added_second false t o r h k = k

added_third :
    (b t o r : Bool)
    → (b ≡ true → (t || o || r) ≡ false)
    → at_most_one t o r ≡ true
    → at_most_one t o (b || r) ≡ true
added_third true true o r h k = absurd (true≢false (h refl))
added_third true false true r h k = absurd (true≢false (h refl))
added_third true false false true h k = absurd (true≢false (h refl))
added_third true false false false h k = refl
added_third false t o r h k = k

first_more : (b t o r : Bool) → (t || o || r) ≡ true → ((b || t) || o || r) ≡ true
first_more true t o r k = refl
first_more false t o r k = k

second_more : (b t o r : Bool) → (t || o || r) ≡ true → (t || (b || o) || r) ≡ true
second_more true true o r k = refl
second_more true false o r k = refl
second_more false t o r k = k

third_more : (b t o r : Bool) → (t || o || r) ≡ true → (t || o || (b || r)) ≡ true
third_more true true true r k = refl
third_more true true false r k = refl
third_more true false true r k = refl
third_more true false false r k = refl
third_more false t o r k = k

-- What `reject_start` keeps, a whole subtree keeps.
module _ (P : Selection → Type 0)
    (keep : (a : ℕ) (x : Selection) → P x → P (reject_start a x)) where
  mutual
    unfolding mark_unsupported is_disposed

    pub mark_unsupported_keeps : (n : Node) (x : Selection) → P x → P (mark_unsupported n x)
    mark_unsupported_keeps (string_node path t) x k = keep t.span.start x k
    mark_unsupported_keeps (object_node path ms) x k = mark_members_keeps ms x k
    mark_unsupported_keeps (array_node path items) x k = mark_items_keeps items x k
    mark_unsupported_keeps (number_node path) x k = k
    mark_unsupported_keeps (boolean_node path b) x k = k
    mark_unsupported_keeps (null_node path) x k = k

    mark_members_keeps : (ms : Members) (x : Selection) → P x → P (mark_unsupported_members ms x)
    mark_members_keeps no_members x k = k
    mark_members_keeps (member key n rest) x k =
        mark_members_keeps rest _ (mark_unsupported_keeps n x k)

    mark_items_keeps : (items : Nodes) (x : Selection) → P x → P (mark_unsupported_items items x)
    mark_items_keeps no_nodes x k = k
    mark_items_keeps (item n rest) x k = mark_items_keeps rest _ (mark_unsupported_keeps n x k)

one_at_end : (p q : Bool) → (p || q) ≡ (q || (p || false))
one_at_end true true = refl
one_at_end true false = refl
one_at_end false true = refl
one_at_end false false = refl

at_start : (P : ℕ → Type 0) (a s : ℕ) → (a == s) ≡ true → P a → P s
at_start P a s e h = subst P ((==_iff a s).0 e) h

module _ (s : ℕ) where
  -- `reject_start`, by the value of its test.
  rejected_start :
      (b : Bool) (a : ℕ) (x : Selection)
      → is_disposed a x ≡ b
      → is_apart s x ≡ true
      → is_apart s (if b then x else record x { rejected = a ∷ x.rejected }) ≡ true
  unfolding is_apart has_start any_of
  rejected_start true a x e k = k
  rejected_start false a x e k =
      added_third (a == s) (has_start s x.targets) (has_start s x.opaque) (has_start s x.rejected)
        (λ q. unfold is_disposed in at_start (λ z. is_disposed z x ≡ false) a s q e) k

  reject_start-apart :
      (a : ℕ) (x : Selection) → is_apart s x ≡ true → is_apart s (reject_start a x) ≡ true
  unfolding is_apart is_disposed has_start any_of
  reject_start-apart a x k = rejected_start (is_disposed a x) a x refl k

  Move-apart : {x y : Selection} → Move x y → is_apart s x ≡ true → is_apart s y ≡ true
  unfolding is_apart has_start is_disposed any_of
  Move-apart (selects a t x e n) k =
      added_first (a == s) (has_start s x.targets) (has_start s x.opaque) (has_start s x.rejected)
        (λ q. at_start (λ z. is_disposed z x ≡ false) a s q n) k
  Move-apart (protects a x n) k =
      added_second (a == s) (has_start s x.targets) (has_start s x.opaque) (has_start s x.rejected)
        (λ q. at_start (λ z. is_disposed z x ≡ false) a s q n) k
  Move-apart (turns_away n detail x) k =
      mark_unsupported_keeps (λ x. is_apart s x ≡ true) reject_start-apart n x k

  pub Moves-apart : {x y : Selection} → Moves x y → is_apart s x ≡ true → is_apart s y ≡ true
  Moves-apart stays k = k
  Moves-apart (moves m h) k = Moves-apart h (Move-apart m k)

  -- A string stays disposed.
  reject_start-disposed :
      (b : Bool) (a : ℕ) (x : Selection)
      → is_disposed s x ≡ true
      → is_disposed s (if b then x else record x { rejected = a ∷ x.rejected }) ≡ true
  unfolding is_disposed has_start any_of
  reject_start-disposed true a x k = k
  reject_start-disposed false a x k =
      third_more (a == s) (has_start s x.targets) (has_start s x.opaque) (has_start s x.rejected) k

  Move-disposed : {x y : Selection} → Move x y → is_disposed s x ≡ true → is_disposed s y ≡ true
  unfolding is_disposed has_start any_of
  Move-disposed (selects a t x e n) k =
      first_more (a == s) (has_start s x.targets) (has_start s x.opaque) (has_start s x.rejected) k
  Move-disposed (protects a x n) k =
      second_more (a == s) (has_start s x.targets) (has_start s x.opaque) (has_start s x.rejected) k
  Move-disposed (turns_away n detail x) k =
      mark_unsupported_keeps (λ x. is_disposed s x ≡ true)
        (λ a x. reject_start-disposed (is_disposed a x) a x) n x k

  pub Moves-disposed :
      {x y : Selection} → Moves x y → is_disposed s x ≡ true → is_disposed s y ≡ true
  Moves-disposed stays k = k
  Moves-disposed (moves m h) k = Moves-disposed h (Move-disposed m k)

abbrev pub target_start : Target → ℕ
target_start t = t.token.span.start

-- The selected starts are those of the targets.
module _ (s : ℕ) where
  abbrev pub IsListed : Selection → Type 0
  IsListed x = has_start s x.targets ≡ has_start s (map target_start x.found)

  reject_start-IsListed :
      (b : Bool) (a : ℕ) (x : Selection)
      → IsListed x
      → IsListed (if b then x else record x { rejected = a ∷ x.rejected })
  reject_start-IsListed true a x k = k
  reject_start-IsListed false a x k = k

  Move-IsListed : {x y : Selection} → Move x y → IsListed x → IsListed y
  unfolding has_start any_of
  Move-IsListed (selects a t x e n) k =
      ap (◌||◌ (a == s)) k
      ∙ one_at_end (a == s) (has_start s (map target_start x.found))
      ∙ ap (λ z. has_start s (map target_start x.found) || ((z == s) || false)) (sym e)
      ∙ sym (any_of-append (λ z. z == s) (map target_start x.found) (target_start t ∷ []))
      ∙ sym (ap (has_start s) (map-append target_start x.found (t ∷ [])))
  Move-IsListed (protects a x n) k = k
  Move-IsListed (turns_away n detail x) k =
      unfold is_disposed in
      mark_unsupported_keeps IsListed (λ a x. reject_start-IsListed (is_disposed a x) a x) n x k

  pub Moves-IsListed : {x y : Selection} → Moves x y → IsListed x → IsListed y
  Moves-IsListed stays k = k
  Moves-IsListed (moves m h) k = Moves-IsListed h (Move-IsListed m k)

-- A string is turned away only with an issue.
abbrev pub Reported : Selection → Type 0
Reported x = (x.rejected ≡ []) ⊎ (0 < length x.issues)

Move-Reported : {x y : Selection} → Move x y → Reported x → Reported y
Move-Reported (selects a t x e n) k = k
Move-Reported (protects a x n) k = k
Move-Reported (turns_away n detail x) k = inr (
    omega (
      arith,
      length-append (mark_unsupported n x).issues
          (record { path = path_of n; detail = detail } ∷ []),
    ))

pub Moves-Reported : {x y : Selection} → Moves x y → Reported x → Reported y
Moves-Reported stays k = k
Moves-Reported (moves m h) k = Moves-Reported h (Move-Reported m k)
