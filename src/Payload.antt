-- ===== src/Payload.antt =====
-- The data of payload/payload.go and its `Limits`, with the steps in which payload/jsonscan.go
-- runs: a step reads and changes a state, and may end in an error.

pub mod Normal
pub mod Encode
pub mod Splice
pub mod Token
pub mod Context
pub mod Scanner
pub mod Replace
use cpa_plugin_privacyfilter.Base.{
  ◌⊎◌, inl, inr, ℕ, suc, ◌+◌, ◌*◌, ◌^◌, Bool, true, false, ◌&&◌, ◌||◌, Option, none, some, List, [],
  ◌∷◌, ◌++◌, if◌then◌else◌, ◌==◌, Bytes, bytes_eq, ◌≡◌, refl, length,
}
use cpa_plugin_privacyfilter.Base.Int.{ℤ, pos, ltb_ℤ, eq_ℤ}

-- The errors. `canceled` is the error of the context, `invalid_json` has the byte offset.
pub data PayloadError : Type 0 where
  canceled root_not_object body_too_large depth_limit node_limit structural_limit : PayloadError
  string_too_large replacement_limit overlapping_replacements invalid_token : PayloadError
  path_not_found path_ambiguous invalid_limits : PayloadError
  invalid_json : ℕ → PayloadError

pub data Result {ℓ} (A : Type ℓ) : Type ℓ where
  failed : PayloadError → Result A
  ok : A → Result A

pub Result-cases {ℓ} :
    {A : Type ℓ} (r : Result A) → ((e : PayloadError) × (r ≡ failed e)) ⊎ ((a : A) × (r ≡ ok a))
Result-cases (failed e) = inl (e, refl)
Result-cases (ok a) = inr (a, refl)

abbrev pub Step {ℓ} : Type 0 → Type ℓ → Type ℓ
Step S A = S → Result A × S

module _ {ℓ} {S : Type 0} {A : Type ℓ} where
  abbrev pub return : A → Step S A
  return a s = (ok a, s)

  pub return-eq-ok : (a : A) {b : A} (s : S) {t : S} → return a s ≡ (ok b, t) → a ≡ b
  return-eq-ok a s h = cc

  abbrev pub fail : PayloadError → Step S A
  fail e s = (failed e, s)

module _ {ℓ κ} {S : Type 0} {A : Type ℓ} {B : Type κ} where
  abbrev pub continue : (A → Step S B) → Result A × S → Result B × S
  continue f (failed e, s) = (failed e, s)
  continue f (ok a, s) = f a s

  infixl 5 ◌>>=◌
  abbrev pub ◌>>=◌ : Step S A → (A → Step S B) → Step S B
  (m >>= f) s = continue f (m s)

  continue-eq-ok :
      (f : A → Step S B) (r : Result A × S) {b : B} {t : S}
      → continue f r ≡ (ok b, t)
      → (a : A) × (u : S) × (r ≡ (ok a, u)) × (f a u ≡ (ok b, t))
  continue-eq-ok f (failed e, u) h = cc
  continue-eq-ok f (ok a, u) h = (a, u, refl, h)

  pub bind-eq-ok :
      (m : Step S A) (f : A → Step S B) (s : S) {b : B} {t : S}
      → (m >>= f) s ≡ (ok b, t)
      → (a : A) × (u : S) × (m s ≡ (ok a, u)) × (f a u ≡ (ok b, t))
  bind-eq-ok m f s h = continue-eq-ok f (m s) h

-- `ctx.Err()`: the state counts how often the context was read, and `done` says at which read it
-- is canceled.
unfoldable pub check_context : (ℕ → Bool) → Step ℕ (Unit {0})
check_context done t = (if done t then failed canceled else ok tt, suc t)

-- `Kind`
pub data Kind : Type 0 where
  invalid object array string number boolean null : Kind

-- `Span`, with `End` as `stop`. The spans that the scanner makes are not negative.
pub record Span : Type 0 where
  pub start : ℕ
  pub stop : ℕ

-- `PathSegment`, as `Key` and `Index` construct it
pub data PathSegment : Type 0 where
  object_key : Bytes → PathSegment
  array_index : ℤ → PathSegment

pub record PathNode : Type 0 where
  pub parent : Option ℕ
  pub segment : PathSegment

pub record Limits : Type 0 where
  pub max_body_bytes : ℤ
  pub max_depth : ℤ
  pub max_nodes : ℤ
  pub max_structural_bytes : ℤ
  pub max_string_bytes : ℤ
  pub max_replacements : ℤ
  pub max_replacement_bytes : ℤ

abbrev pub hard_limits : Limits
hard_limits = record {
  max_body_bytes = pos (32 * 2 ^ 20);
  max_depth = pos 128;
  max_nodes = pos 250000;
  max_structural_bytes = pos (128 * 2 ^ 20);
  max_string_bytes = pos (8 * 2 ^ 20);
  max_replacements = pos 100000;
  max_replacement_bytes = pos (32 * 2 ^ 20);
}

-- `DefaultLimits`: each default is the hard maximum.
abbrev pub default_limits : Limits
default_limits = hard_limits

abbrev pub or_default : ℤ → ℤ → ℤ
or_default l d = if eq_ℤ l (pos 0) then d else l

abbrev pub fill_defaults : Limits → Limits
fill_defaults l = record {
  max_body_bytes = or_default l.max_body_bytes default_limits.max_body_bytes;
  max_depth = or_default l.max_depth default_limits.max_depth;
  max_nodes = or_default l.max_nodes default_limits.max_nodes;
  max_structural_bytes = or_default l.max_structural_bytes default_limits.max_structural_bytes;
  max_string_bytes = or_default l.max_string_bytes default_limits.max_string_bytes;
  max_replacements = or_default l.max_replacements default_limits.max_replacements;
  max_replacement_bytes = or_default l.max_replacement_bytes default_limits.max_replacement_bytes;
}

abbrev pub is_negative : Limits → Bool
is_negative l =
    ltb_ℤ l.max_body_bytes (pos 0)
    || ltb_ℤ l.max_depth (pos 0)
    || ltb_ℤ l.max_nodes (pos 0)
    || ltb_ℤ l.max_structural_bytes (pos 0)
    || ltb_ℤ l.max_string_bytes (pos 0)
    || ltb_ℤ l.max_replacements (pos 0)
    || ltb_ℤ l.max_replacement_bytes (pos 0)

abbrev pub exceeds_hard_limits : Limits → Bool
exceeds_hard_limits l =
    ltb_ℤ hard_limits.max_body_bytes l.max_body_bytes
    || ltb_ℤ hard_limits.max_depth l.max_depth
    || ltb_ℤ hard_limits.max_nodes l.max_nodes
    || ltb_ℤ hard_limits.max_structural_bytes l.max_structural_bytes
    || ltb_ℤ hard_limits.max_string_bytes l.max_string_bytes
    || ltb_ℤ hard_limits.max_replacements l.max_replacements
    || ltb_ℤ hard_limits.max_replacement_bytes l.max_replacement_bytes

-- `normalized`
unfoldable pub normalized : Limits → Result Limits
normalized l =
    if is_negative l
    then failed invalid_limits
    else if exceeds_hard_limits (fill_defaults l)
    then failed invalid_limits
    else ok (fill_defaults l)
