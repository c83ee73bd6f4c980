-- ===== src/Secrets/Context/Slices.antt =====
-- The slices of `hasSecretContext`, `hasStrongSecretContext` and `isOnPathOrURLBoundary`.
use cpa_plugin_privacyfilter.Base.{
  ℕ, zero, suc, ◌-◌, ◌≤◌, ◌<◌, ◌+◌, ◌==◌, ◌&&◌, Bool, true, false, ◌||◌, Option, none, some, List,
  [], ◌∷◌, ◌≡◌, refl, ltb, leb, if◌then◌else◌, Option-cases, inl, inr, Bytes, length, slice,
  get_elem?, arith,
}
use cpa_plugin_privacyfilter.Base.Int.{ℤ, pos_part}
use cpa_plugin_privacyfilter.Matching.Fuel.{rune_width-pos}
use cpa_plugin_privacyfilter.Secrets.Noise.{Toolbox, Finder}
use cpa_plugin_privacyfilter.Secrets.Context.{
  checked_slice, and_then, or_else, is_no_span, skip_continuation, is_continuation, advance,
  last_match_loop, last_match_index, context_start, context_probe_end, is_strong, boundary_at,
  is_on_path_or_url_boundary, has_secret_context, has_strong_secret_context,
}

-- A result without a panic.
pub data Returns {ℓ} {A : Type ℓ} (o : Option A) : Type ℓ where
  returned : (a : A) → o ≡ some a → Returns o

pub and_then-Returns {ℓ κ} :
    {A : Type ℓ} {B : Type κ} (o : Option A) (f : A → Option B)
    → Returns o
    → ((a : A) → Returns (f a))
    → Returns (and_then o f)
and_then-Returns o f (returned a e) h = rw e (h a)

or_else-Returns : (a b : Option Bool) → Returns a → Returns b → Returns (or_else a b)
or_else-Returns a b (returned true e) h = rw e (returned true refl)
or_else-Returns a b (returned false e) h = rw e h

pub if-Returns {ℓ} :
    {A : Type ℓ} (b : Bool) (x y : Option A)
    → (b ≡ true → Returns x)
    → (b ≡ false → Returns y)
    → Returns (if b then x else y)
if-Returns true x y h g = h refl
if-Returns false x y h g = g refl

checked_slice-Returns :
    (text : Bytes) (from to : ℕ)
    → from ≤ to
    → to ≤ length text
    → Returns (checked_slice text from to)
unfolding checked_slice
checked_slice-Returns text from to h g = returned (slice text from to) (ground arith)

get_elem-Returns {ℓ} : {A : Type ℓ} (xs : List A) (i : ℕ) → i < length xs → Returns (get_elem? xs i)
get_elem-Returns [] i h = absurd (omega arith)
get_elem-Returns (x ∷ xs) zero h = returned x refl
get_elem-Returns (x ∷ xs) (suc i) h = get_elem-Returns xs i (omega arith)

-- A start that is found, and is not beyond the token.
pub record Starts (start : ℕ) (o : Option ℕ) : Type 0 where
  pub lookback : ℕ
  pub is_found : o ≡ some lookback
  pub before : lookback ≤ start

if-Starts :
    (start : ℕ) (b : Bool) (x y : Option ℕ)
    → (b ≡ true → Starts start x)
    → Starts start y
    → Starts start (if b then x else y)
if-Starts start true x y h g = h refl
if-Starts start false x y h g = g

skip_continuation-Starts :
    (text : Bytes) (fuel lookback start : ℕ)
    → lookback ≤ start
    → start < lookback + fuel
    → Starts start (skip_continuation text fuel lookback start)
unfolding skip_continuation
skip_continuation-Starts text zero lookback start h g = absurd (omega arith)
skip_continuation-Starts text (suc fuel) lookback start h g =
    let here : Starts start (some lookback) = record {
      lookback = lookback;
      is_found = refl;
      before = h;
    } in
    if-Starts start (ltb lookback start && ltb lookback (length text)) _ (some lookback)
      (λ y. elim (get_elem-Returns text lookback (ground arith)) [
        | returned c e ↦ rw e (
            if-Starts start (is_continuation c) (skip_continuation text fuel (suc lookback) start)
              (some lookback)
              (λ m.
                skip_continuation-Starts text fuel (suc lookback) start (ground arith)
                  (ground arith))
              here)
      ])
      here

context_start-Starts : (text : Bytes) (start : ℕ) → Starts start (context_start text start)
unfolding context_start
context_start-Starts text start =
    skip_continuation-Starts text 31 (start - 30) start (omega arith) (omega arith)

advance-pos : (tail : Bytes) (b : ℕ) → 1 ≤ advance tail b
unfolding advance
advance-pos tail zero = rune_width-pos tail
advance-pos tail (suc b) = omega arith

last_match_loop-Returns :
    (re : Finder) (text : Bytes) (fuel offset : ℕ) (last : Option (ℕ × ℕ))
    → length text + 2 ≤ offset + fuel
    → 1 ≤ fuel
    → Returns (last_match_loop re text fuel offset last)
unfolding last_match_loop
last_match_loop-Returns re text zero offset last h g = absurd (omega arith)
last_match_loop-Returns re text (suc fuel) offset last h g =
    if-Returns (leb offset (length text)) _ (some last)
      (λ y.
        and_then-Returns (checked_slice text offset (length text)) _
          (checked_slice-Returns text offset (length text) (ground arith) (omega arith))
          (λ tail. elim (Option-cases (re tail)) [
            | inl n ↦ rw n (returned last refl)
            | inr ((a, b), e) ↦ rw e (
                if-Returns (b == 0 && offset == length text) (some (some (offset + a, offset + b)))
                  _ (λ z. returned _ refl)
                  (λ z.
                    last_match_loop-Returns re text fuel (offset + advance tail b)
                      (some (offset + a, offset + b)) (omega (arith, advance-pos tail b))
                      (ground arith)))
          ]))
      (λ n. returned last refl)

last_match_index-Returns : (re : Finder) (text : Bytes) → Returns (last_match_index re text)
unfolding last_match_index
last_match_index-Returns re text =
    last_match_loop-Returns re text (length text + 2) 0 none (omega arith) (omega arith)

context_probe_end-bounds :
    (text : Bytes) (start stop : ℕ)
    → start < stop
    → stop ≤ length text
    → (start < context_probe_end text start stop) × (context_probe_end text start stop ≤ stop)
unfolding context_probe_end
context_probe_end-bounds text start stop h g = ground arith

is_strong-Returns :
    (region : Bytes) (c : ℕ) (last : Option (ℕ × ℕ)) → Returns (is_strong region c last)
unfolding is_strong
is_strong-Returns region c none = returned false refl
is_strong-Returns region c (some (a, b)) =
    if-Returns (ltb (length region) c || ltb b a || ltb (length region) b) (some false) _
      (λ h. returned false refl)
      (λ h.
        if-Returns (leb c a || ltb c b) (some true) _ (λ g. returned true refl)
          (λ g.
            and_then-Returns (checked_slice region b c) _
              (checked_slice-Returns region b c (ground arith) (ground arith))
              (λ between. returned _ refl)))

-- The bounds of a token, as the guards of the three functions leave them.
span_bounds :
    (text : Bytes) (start stop : ℤ)
    → is_no_span text start stop ≡ false
    → (pos_part start < pos_part stop) × (pos_part stop ≤ length text)
span_bounds text start stop h = ground arith

boundary_at-Returns : (text : Bytes) (i : ℕ) → i < length text → Returns (boundary_at text i)
boundary_at-Returns text i h =
    and_then-Returns (get_elem? text i) _ (get_elem-Returns text i h) (λ c. returned _ refl)

module _ {ℓ} {F : Type ℓ} (t : Toolbox F) (text : Bytes) (start stop : ℤ) where
  has_secret_context-Returns : Returns (has_secret_context t text start stop)
  unfolding has_secret_context
  has_secret_context-Returns =
      if-Returns (is_no_span text start stop) (some false) _ (λ h. returned false refl)
        (λ h.
          let (lt, le) = span_bounds text start stop h in
          let (low, high) = context_probe_end-bounds text (pos_part start) (pos_part stop) lt le in
          let back = context_start-Starts text (pos_part start) in
          rw back.is_found (
            and_then-Returns
              (checked_slice text back.lookback
                (context_probe_end text (pos_part start) (pos_part stop)))
              _ (checked_slice-Returns text _ _ (omega (arith, back.before)) (omega arith))
              (λ region. elim (Option-cases (t.secret_context region)) [
                | inl n ↦ rw n (returned false refl)
                | inr (m, e) ↦ rw e (returned true refl)
              ])))

  has_strong_secret_context-Returns : Returns (has_strong_secret_context t text start stop)
  unfolding has_strong_secret_context
  has_strong_secret_context-Returns =
      if-Returns (is_no_span text start stop) (some false) _ (λ h. returned false refl)
        (λ h.
          let (lt, le) = span_bounds text start stop h in
          let (low, high) = context_probe_end-bounds text (pos_part start) (pos_part stop) lt le in
          let back = context_start-Starts text (pos_part start) in
          rw back.is_found (
            or_else-Returns _ _
              (and_then-Returns (checked_slice text back.lookback (pos_part start)) _
                (checked_slice-Returns text _ _ back.before (omega arith))
                (λ before. returned _ refl))
              (and_then-Returns
                (checked_slice text back.lookback
                  (context_probe_end text (pos_part start) (pos_part stop)))
                _ (checked_slice-Returns text _ _ (omega (arith, back.before)) (omega arith))
                (λ region.
                  and_then-Returns (last_match_index t.secret_context region) _
                    (last_match_index-Returns t.secret_context region)
                    (is_strong-Returns region (pos_part start - back.lookback))))))

  is_on_path_or_url_boundary-Returns : Returns (is_on_path_or_url_boundary text start stop)
  unfolding is_on_path_or_url_boundary
  is_on_path_or_url_boundary-Returns =
      if-Returns (is_no_span text start stop) (some true) _ (λ h. returned true refl)
        (λ h.
          let (lt, le) = span_bounds text start stop h in
          or_else-Returns _ _
            (and_then-Returns (checked_slice text (pos_part start) (pos_part stop)) _
              (checked_slice-Returns text _ _ (omega arith) le) (λ value. returned _ refl))
            (or_else-Returns _ _
              (if-Returns (ltb 0 (pos_part start)) (boundary_at text (pos_part start - 1))
                (some false) (λ g. boundary_at-Returns text (pos_part start - 1) (ground arith))
                (λ g. returned false refl))
              (or_else-Returns _ _
                (if-Returns (ltb (pos_part stop) (length text)) (boundary_at text (pos_part stop))
                  (some false) (λ g. boundary_at-Returns text (pos_part stop) (ground arith))
                  (λ g. returned false refl))
                (and_then-Returns (checked_slice text (pos_part start - 8) (pos_part start)) _
                  (checked_slice-Returns text _ _ (omega arith) (omega arith))
                  (λ lookback. returned _ refl)))))

  -- Whatever the expressions find and whatever the two indices are, none of the three tests of the
  -- context of a token slices or indexes a text out of range, and the loops of `contextStart` and
  -- `lastMatchIndex` end.
  pub context-Returns :
      Returns (has_secret_context t text start stop)
      × Returns (has_strong_secret_context t text start stop)
      × Returns (is_on_path_or_url_boundary text start stop)
  context-Returns = (
    has_secret_context-Returns, has_strong_secret_context-Returns,
    is_on_path_or_url_boundary-Returns,
  )
