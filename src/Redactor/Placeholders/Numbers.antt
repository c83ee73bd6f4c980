-- ===== src/Redactor/Placeholders/Numbers.antt =====
-- Different numbers give different placeholders.
use cpa_plugin_privacyfilter.Base.{
  ℕ, zero, suc, ◌+◌, ◌-◌, ◌*◌, ◌/◌, ◌%◌, ◌≤◌, ◌<◌, true, false, [], ◌∷◌, ◌++◌, ◌≡◌, ◌≢◌, refl, sym,
  ap, ◌∙◌, ltb, leb, ◌==◌, Bool-cases, inl, inr, Bytes, length, length-append, length-take, take,
  arith, append-nil,
}
use mathlib.Core.List.{append_cancel_left, append_cancel_right}
use cpa_plugin_privacyfilter.Base.Text.{codes, ends_with}
use cpa_plugin_privacyfilter.Redactor.Placeholders.{itoa_loop, itoa, numbered_placeholder}

-- The number that digits stand for.
unfoldable value_of : ℕ → Bytes → ℕ
value_of acc [] = acc
value_of acc (c ∷ cs) = value_of (acc * 10 + (c - 48)) cs

value_of-last :
    (acc : ℕ) (cs : Bytes) (c : ℕ) → value_of acc (cs ++ c ∷ []) ≡ value_of acc cs * 10 + (c - 48)
unfolding value_of
value_of-last acc [] c = refl
value_of-last acc (d ∷ cs) c = value_of-last (acc * 10 + (d - 48)) cs c

value_of-itoa_loop : (fuel n : ℕ) → n < fuel → value_of 0 (itoa_loop fuel n) ≡ n
unfolding itoa_loop
value_of-itoa_loop zero n h = absurd (omega arith)
value_of-itoa_loop (suc fuel) n h = elim (Bool-cases (ltb n 10)) [
  | inl y ↦ rw y (unfold value_of in (omega arith))
  | inr m ↦
      rw
        (
          m,
          value_of-last 0 (itoa_loop fuel (n / 10)) (48 + n % 10),
          value_of-itoa_loop fuel (n / 10) (ground arith),
        )
        (omega arith)
]

value_of-itoa : (n : ℕ) → value_of 0 (itoa n) ≡ n
unfolding itoa
value_of-itoa n = value_of-itoa_loop (suc n) n (omega arith)

-- A numbered placeholder is the base with a sign and the number put in at one place.
record Shape (base : Bytes) : Type 0 where
  stem : Bytes
  tail : Bytes
  numbered : (n : ℕ) → 1 < n → numbered_placeholder base n ≡ stem ++ ((codes "#" ++ itoa n) ++ tail)
  whole : length stem + length tail ≡ length base

many : (n : ℕ) → 1 < n → leb n 1 ≡ false
many n h = ground arith

short_stem :
    (base : Bytes) (c : ℕ)
    → (length base == 0) ≡ false
    → length (take (length base - 1) base) + length (c ∷ []) ≡ length base
short_stem base c h = ground (arith, length-take (length base - 1) base)

base-Shape : (base : Bytes) → (length base == 0) ≡ false → Shape base
unfolding numbered_placeholder
base-Shape base h = elim (Bool-cases (ends_with base (codes "]"))) [
  | inl y ↦ record {
    stem = take (length base - 1) base;
    tail = codes "]";
    numbered = λ n g. rw (h, many n g, y) refl;
    whole = short_stem base 93 h;
  }
  | inr m ↦ elim (Bool-cases (ends_with base (codes ">"))) [
    | inl y ↦ record {
      stem = take (length base - 1) base;
      tail = codes ">";
      numbered = λ n g. rw (h, many n g, m, y) refl;
      whole = short_stem base 62 h;
    }
    | inr k ↦ record {
      stem = base;
      tail = [];
      numbered =
          λ n g. rw (h, many n g, m, k) (ap (◌++◌ base) (sym (append-nil (codes "#" ++ itoa n))));
      whole = omega arith;
    }
  ]
]

-- The first placeholder is the base.
first : (base : Bytes) (n : ℕ) → n ≤ 1 → numbered_placeholder base n ≡ base
unfolding numbered_placeholder
first base n h = elim (Bool-cases (length base == 0)) [
  | inl y ↦ rw y refl
  | inr m ↦ let one : leb n 1 ≡ true = ground arith in rw (m, one) refl
]

-- A later one is longer than the base.
later : (base : Bytes) → Shape base → (n : ℕ) → 1 < n → numbered_placeholder base n ≢ base
later base s n h e =
    let same : length (s.stem ++ ((codes "#" ++ itoa n) ++ s.tail)) ≡ length base =
      ap length (sym (s.numbered n h) ∙ e) in
    omega (
      arith,
      length-append s.stem ((codes "#" ++ itoa n) ++ s.tail),
      length-append (codes "#" ++ itoa n) s.tail,
      s.whole,
      same,
    )

both_later :
    (base : Bytes)
    → Shape base
    → (n m : ℕ) → 1 < n
    → 1 < m
    → numbered_placeholder base n ≡ numbered_placeholder base m
    → n ≡ m
both_later base s n m h k e =
    let inner = append_cancel_left s.stem _ _ (sym (s.numbered n h) ∙ e ∙ s.numbered m k) in
    let texts = append_cancel_right (codes "#" ++ itoa n) (codes "#" ++ itoa m) s.tail inner in
    sym (value_of-itoa n)
    ∙ ap (value_of 0) (append_cancel_left (codes "#") (itoa n) (itoa m) texts)
    ∙ value_of-itoa m

-- Two numbers of one kind give two placeholders, if the base is not empty.
pub numbered_placeholder-injective :
    (base : Bytes) (n m : ℕ)
    → base ≢ []
    → 1 ≤ n
    → 1 ≤ m
    → numbered_placeholder base n ≡ numbered_placeholder base m
    → n ≡ m
numbered_placeholder-injective [] n m b h k e = absurd (b refl)
numbered_placeholder-injective (c ∷ cs) n m b h k e =
    let s : Shape (c ∷ cs) = base-Shape (c ∷ cs) (ground arith) in
    elim (Bool-cases (leb n 1)) [
      | inl x ↦ elim (Bool-cases (leb m 1)) [
        | inl y ↦ ground arith
        | inr y ↦
            absurd (later (c ∷ cs) s m (ground arith) (sym e ∙ first (c ∷ cs) n (ground arith)))
      ]
      | inr x ↦ elim (Bool-cases (leb m 1)) [
        | inl y ↦ absurd (later (c ∷ cs) s n (ground arith) (e ∙ first (c ∷ cs) m (ground arith)))
        | inr y ↦ both_later (c ∷ cs) s n m (ground arith) (ground arith) e
      ]
    ]
