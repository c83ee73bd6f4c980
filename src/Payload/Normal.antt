-- ===== src/Payload/Normal.antt =====
-- What `normalized` makes of limits.
use cpa_plugin_privacyfilter.Base.{
  Bool, true, false, ◌||◌, ◌≡◌, ◌≢◌, ◌⊎◌, inl, inr, refl, subst, Bool-cases, arith,
}
use cpa_plugin_privacyfilter.Base.Int.{ℤ, pos, ◌≤ℤ◌, ◌<ℤ◌, ltb_ℤ}
use cpa_plugin_privacyfilter.Payload.{
  ok, Limits, hard_limits, or_default, fill_defaults, is_negative, exceeds_hard_limits, normalized,
}

-- A field of the limits, from the given one: positive, at most the hard maximum, and the maximum
-- itself in place of 0.
abbrev pub Bounded : ℤ → ℤ → ℤ → Type 0
Bounded hard given l =
    (pos 0 <ℤ l) × (l ≤ℤ hard) × (((given ≡ pos 0) × (l ≡ hard)) ⊎ ((given ≢ pos 0) × (l ≡ given)))

abbrev pub AllBounded : Limits → Limits → Type 0
AllBounded l n =
    Bounded hard_limits.max_body_bytes l.max_body_bytes n.max_body_bytes
    × Bounded hard_limits.max_depth l.max_depth n.max_depth
    × Bounded hard_limits.max_nodes l.max_nodes n.max_nodes
    × Bounded hard_limits.max_structural_bytes l.max_structural_bytes n.max_structural_bytes
    × Bounded hard_limits.max_string_bytes l.max_string_bytes n.max_string_bytes
    × Bounded hard_limits.max_replacements l.max_replacements n.max_replacements
    × Bounded hard_limits.max_replacement_bytes l.max_replacement_bytes n.max_replacement_bytes

field_Bounded :
    (hard given : ℤ)
    → pos 0 <ℤ hard
    → ltb_ℤ given (pos 0) ≡ false
    → ltb_ℤ hard (or_default given hard) ≡ false
    → Bounded hard given (or_default given hard)
field_Bounded hard given p n x = ground arith

or_left : (a b : Bool) → (a || b) ≡ false → a ≡ false
or_left true b h = cc
or_left false b h = refl

or_right : (a b : Bool) → (a || b) ≡ false → b ≡ false
or_right true b h = cc
or_right false b h = h

seven :
    (a b c d e f g : Bool)
    → (a || b || c || d || e || f || g) ≡ false
    → (a ≡ false)
      × (b ≡ false)
      × (c ≡ false)
      × (d ≡ false)
      × (e ≡ false)
      × (f ≡ false)
      × (g ≡ false)
seven a b c d e f g h = ground arith

normalized_parts :
    (l : Limits) {n : Limits}
    → normalized l ≡ ok n
    → (is_negative l ≡ false)
      × (exceeds_hard_limits (fill_defaults l) ≡ false)
      × (fill_defaults l ≡ n)
unfolding normalized
normalized_parts l h = elim (Bool-cases (is_negative l)) [
  | inl y ↦ let bad = rw y at h in cc
  | inr z ↦ elim (Bool-cases (exceeds_hard_limits (fill_defaults l))) [
    | inl y ↦ let bad = rw (z, y) at h in cc
    | inr w ↦ let k = rw (z, w) at h in (z, w, cc)
  ]
]

-- Normalized limits are positive and at most the hard maxima, so that no limit is disabled; a zero
-- field has become the maximum, and every other field is unchanged.
pub normalized-Bounded : (l : Limits) {n : Limits} → normalized l ≡ ok n → AllBounded l n
normalized-Bounded l h =
    let (a, b, c) = normalized_parts l h in
    let (n1, n2, n3, n4, n5, n6, n7) = seven _ _ _ _ _ _ _ a in
    let (x1, x2, x3, x4, x5, x6, x7) = seven _ _ _ _ _ _ _ b in
    subst (AllBounded l) c (
      field_Bounded _ l.max_body_bytes (omega arith) n1 x1,
      field_Bounded _ l.max_depth (omega arith) n2 x2,
      field_Bounded _ l.max_nodes (omega arith) n3 x3,
      field_Bounded _ l.max_structural_bytes (omega arith) n4 x4,
      field_Bounded _ l.max_string_bytes (omega arith) n5 x5,
      field_Bounded _ l.max_replacements (omega arith) n6 x6,
      field_Bounded _ l.max_replacement_bytes (omega arith) n7 x7,
    )
