-- ===== src/Walker/Steps.antt =====
-- The steps of a walk. A protocol reads the tree and never the collector, so a walk is the sequence of
-- what it does to the collector, up to its end or its first error. The collector's own error, which
-- every method tests on entry and which `Registry.Walk` returns in the place of any other, ends the
-- walk where it arises: Walker/Collect.
use cpa_plugin_privacyfilter.Base.{ℕ, List, [], ◌∷◌}
use cpa_plugin_privacyfilter.Walker.{Scope, TargetKind, Mutability, Detail, WalkError}
use cpa_plugin_privacyfilter.Walker.Tree.{Node}

-- `add`, `markOpaque`, `unsupported` and `unsupportedValue`, the charge of `uniqueObjectKeys`, and a
-- read of the context.
pub data Action : Type 0 where
  adds : Node → Scope → TargetKind → Mutability → Action
  marks : Node → Action
  rejects : Node → Detail → Action
  charges : ℕ → Action
  reads_context : Action

pub data Walk {ℓ} (A : Type ℓ) : Type ℓ where
  ret : A → Walk A
  refuse : WalkError → Walk A
  act : Action → Walk A → Walk A

module _ {ℓ κ} {A : Type ℓ} {B : Type κ} where
  infixl 5 ◌>>=◌
  unfoldable pub ◌>>=◌ : Walk A → (A → Walk B) → Walk B
  ret a >>= f = f a
  refuse e >>= f = refuse e
  act b w >>= f = act b (w >>= f)

module _ {ℓ} {B : Type ℓ} where
  infixl 5 ◌>>◌
  abbrev pub ◌>>◌ : Walk (Unit {0}) → Walk B → Walk B
  m >> k = m >>= λ _. k

abbrev pub Done : Type 0
Done = Walk (Unit {0})

abbrev pub done : Done
done = ret tt

abbrev pub perform : Action → Done
perform a = act a done

abbrev pub add : Node → Scope → TargetKind → Mutability → Done
add n scope kind mutable = perform (adds n scope kind mutable)

abbrev pub mark_opaque : Node → Done
mark_opaque n = perform (marks n)

abbrev pub unsupported : Node → Detail → Done
unsupported n detail = perform (rejects n detail)

-- A loop that stops at the first error.
module _ {ℓ} {A : Type ℓ} where
  unfoldable pub each : List A → (A → Done) → Done
  each [] f = done
  each (x ∷ xs) f = f x >> each xs f
