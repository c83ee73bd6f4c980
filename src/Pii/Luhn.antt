-- ===== src/Pii/Luhn.antt =====
-- The Luhn check: what `luhnValid` computes, and the errors that it finds.
use cpa_plugin_privacyfilter.Base.{
  ℕ, ◌+◌, ◌-◌, ◌*◌, ◌/◌, ◌%◌, Bool, true, false, not, some, [], ◌∷◌, ◌++◌, ◌≡◌, ◌≢◌, ◌↔◌, refl, sym,
  ap, ◌∙◌, ◌==◌, Bool-cases, Option-cases, inl, inr, Bytes, All, All-append, arith, subst,
  none-ne-some, false≢true,
}
use cpa_plugin_privacyfilter.Base.Text.{is_digit}
use cpa_plugin_privacyfilter.Pii.{weigh, is_multiple, luhn_loop, luhn_valid}
use mathlib.Core.List.{
  reverse, reverse-append, reverse-cons, reverse-reverse, append_assoc, nil≢cons,
}

-- The sum of ISO/IEC 7812-1, from the last digit: every second digit is doubled, and the digits
-- of the product are added.
abbrev pub digit_sum : ℕ → ℕ
digit_sum n = n / 10 + n % 10

unfoldable pub checksum : Bytes → ℕ
checksum [] = 0
checksum (c ∷ []) = c - 48
checksum (c ∷ d ∷ cs) = (c - 48) + digit_sum ((d - 48) * 2) + checksum cs

-- Only ASCII digits.
abbrev pub Digits : Bytes → Type 0
Digits cs = All (λ c. is_digit c ≡ true) cs

Digits-reverse : (cs : Bytes) → Digits cs → Digits (reverse cs)
Digits-reverse [] h = tt
Digits-reverse (c ∷ cs) h =
    rw (reverse-cons c cs)
      (All-append (λ c. is_digit c ≡ true) (reverse cs) (c ∷ []) (Digits-reverse cs h.1) (h.0, tt))

Digits-unreverse : (cs : Bytes) → Digits (reverse cs) → Digits cs
Digits-unreverse cs h = subst Digits (reverse-reverse cs) (Digits-reverse (reverse cs) h)

weigh-digit_sum : (c : ℕ) → is_digit c ≡ true → weigh true (c - 48) ≡ digit_sum ((c - 48) * 2)
weigh-digit_sum c h = ground arith

luhn_loop-checksum :
    (cs : Bytes) (sum : ℕ) → Digits cs → luhn_loop false sum cs ≡ some (sum + checksum cs)
unfolding luhn_loop checksum
luhn_loop-checksum [] sum h = ap some (omega arith)
luhn_loop-checksum (c ∷ []) sum h = rw h.0 refl
luhn_loop-checksum (c ∷ d ∷ cs) sum h =
    rw (h.0, h.1.0, weigh-digit_sum d h.1.0) (luhn_loop-checksum cs _ h.1.1 ∙ ap some (omega arith))

luhn_loop-Digits :
    (cs : Bytes) (double : Bool) (sum v : ℕ) → luhn_loop double sum cs ≡ some v → Digits cs
unfolding luhn_loop
luhn_loop-Digits [] double sum v h = tt
luhn_loop-Digits (c ∷ cs) double sum v h = elim (Bool-cases (is_digit c)) [
  | inl y ↦ (y, luhn_loop-Digits cs (not double) _ v (rw y at h))
  | inr n ↦ absurd (none-ne-some (rw n at h))
]

eq_of_test : {m : ℕ} → (m == 0) ≡ true → m ≡ 0
eq_of_test h = ground arith

test_of_eq : {m : ℕ} → m ≡ 0 → (m == 0) ≡ true
test_of_eq h = ground arith

zero_sum : {n : ℕ} → 0 + n ≡ n
zero_sum = omega arith

-- What is tested once the loop has ended.
luhn_valid_sum :
    (c : ℕ) (cs : Bytes)
    → Digits (reverse (c ∷ cs))
    → luhn_valid (c ∷ cs) ≡ (checksum (reverse (c ∷ cs)) % 10 == 0)
unfolding luhn_valid
luhn_valid_sum c cs ds =
    ap is_multiple (luhn_loop-checksum (reverse (c ∷ cs)) 0 ds) ∙ ap (λ sum. sum % 10 == 0) zero_sum

-- `luhnValid` accepts the texts of ASCII digits whose weighted sum, as ISO/IEC 7812-1 defines it, is
-- a multiple of 10, and no others. The empty text is not one.
pub luhn_valid-checksum :
    (number : Bytes)
    → (luhn_valid number ≡ true)
      ↔ ((number ≢ []) × Digits number × (checksum (reverse number) % 10 ≡ 0))
unfolding luhn_valid checksum
luhn_valid-checksum [] = (λ h. absurd (false≢true h), λ h. absurd (h.0 refl))
luhn_valid-checksum (c ∷ cs) = (
  λ h. elim (Option-cases (luhn_loop false 0 (reverse (c ∷ cs)))) [
    | inl n ↦ absurd (false≢true (sym (ap is_multiple n) ∙ h))
    | inr (v, k) ↦
        let ds : Digits (reverse (c ∷ cs)) = luhn_loop-Digits (reverse (c ∷ cs)) false 0 v k in
        (
          λ e. nil≢cons (sym e),
          Digits-unreverse (c ∷ cs) ds,
          eq_of_test
              (sym (luhn_valid_sum c cs (luhn_loop-Digits (reverse (c ∷ cs)) false 0 v k)) ∙ h),
        )
  ],
  λ (o, ds, e). luhn_valid_sum c cs (Digits-reverse (c ∷ cs) ds) ∙ test_of_eq e,
)

-- One digit of a number changes one term of the sum.
checksum-split :
    (xs ys : Bytes)
    → (rest : ℕ) × (double : Bool) × ((c : ℕ)
        → is_digit c ≡ true
        → checksum (xs ++ c ∷ ys) ≡ rest + weigh double (c - 48))
unfolding checksum
checksum-split [] [] = (0, false, λ c h. omega arith)
checksum-split [] (d ∷ ys) = (digit_sum ((d - 48) * 2) + checksum ys, false, λ c h. omega arith)
checksum-split (x ∷ []) ys =
    ((x - 48) + checksum ys, true, λ c h. rw (weigh-digit_sum c h) (omega arith))
checksum-split (x ∷ x' ∷ xs) ys =
    let (rest, double, k) = checksum-split xs ys in
    ((x - 48) + digit_sum ((x' - 48) * 2) + rest, double, λ c h. omega (arith, k c h))

weigh-injective :
    (double : Bool) (rest c d : ℕ)
    → is_digit c ≡ true
    → is_digit d ≡ true
    → (rest + weigh double (c - 48)) % 10 ≡ 0
    → (rest + weigh double (d - 48)) % 10 ≡ 0
    → c ≡ d
weigh-injective true rest c d hc hd ec ed = ground arith
weigh-injective false rest c d hc hd ec ed = ground arith

Digits-middle : (xs ys : Bytes) (c : ℕ) → Digits (xs ++ c ∷ ys) → is_digit c ≡ true
Digits-middle [] ys c h = h.0
Digits-middle (x ∷ xs) ys c h = Digits-middle xs ys c h.1

reverse-middle : (xs ys : Bytes) (c : ℕ) → reverse (xs ++ c ∷ ys) ≡ reverse ys ++ c ∷ reverse xs
reverse-middle xs ys c =
    rw (reverse-append xs (c ∷ ys), reverse-cons c ys)
      (append_assoc (reverse ys) (c ∷ []) (reverse xs))

-- A digit of a valid number replaced by any other byte gives an invalid one.
pub luhn_valid-substitution :
    (xs ys : Bytes) (c d : ℕ)
    → luhn_valid (xs ++ c ∷ ys) ≡ true
    → c ≢ d
    → luhn_valid (xs ++ d ∷ ys) ≡ false
luhn_valid-substitution xs ys c d h ne = elim (Bool-cases (luhn_valid (xs ++ d ∷ ys))) [
  | inr n ↦ n
  | inl y ↦
      let (o, dc, ec) = (luhn_valid-checksum (xs ++ c ∷ ys)).0 h in
      let (o', dd, ed) = (luhn_valid-checksum (xs ++ d ∷ ys)).0 y in
      let (rest, double, k) = checksum-split (reverse ys) (reverse xs) in
      let hc : is_digit c ≡ true = Digits-middle xs ys c dc in
      let hd : is_digit d ≡ true = Digits-middle xs ys d dd in
      absurd (
        ne (
          weigh-injective double rest c d hc hd (rw (reverse-middle xs ys c, k c hc) at ec)
            (rw (reverse-middle xs ys d, k d hd) at ed)))
]
