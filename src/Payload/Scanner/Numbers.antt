-- ===== src/Payload/Scanner/Numbers.antt =====
-- `number` and `literal` of payload/jsonscan.go.
use cpa_plugin_privacyfilter.Base.{
  ℕ, Bool, false, ◌&&◌, ◌||◌, [], ◌∷◌, if◌then◌else◌, leb, ◌==◌, Bytes, bytes_eq, length, take,
}
use cpa_plugin_privacyfilter.Base.Text.{is_digit}
use cpa_plugin_privacyfilter.Payload.{invalid_json, Step, return, fail, ◌>>=◌}
use cpa_plugin_privacyfilter.Payload.Scanner.{Scanner, get, advance, check_at}

-- `s.pos < len(s.body)` and a test of `s.body[s.pos]`
abbrev pub next_is : (ℕ → Bool) → Scanner → Bool
next_is test s = elim s.rest [ [] ↦ false | c ∷ cs ↦ test c ]

abbrev pub fail_here {ℓ} : {A : Type ℓ} → Step Scanner A
fail_here s = fail (invalid_json s.position) s

abbrev pub when : Bool → Step Scanner (Unit {0}) → Step Scanner (Unit {0})
when test step = if test then step else return tt

unfoldable pub literal : Bytes → Step Scanner (Unit {0})
literal want = do
  s ← get
  if bytes_eq (take (length want) s.rest) want then advance (length want) else fail_here

module _ (done : ℕ → Bool) where
  -- A loop over digits, on the bytes that are left.
  unfoldable pub digit_loop : Bytes → Step Scanner (Unit {0})
  unfolding check_at
  digit_loop [] = return tt
  digit_loop (c ∷ cs) = do
    let further = (do _ ← advance 1; s ← get; _ ← check_at done s.position; digit_loop cs)
    if is_digit c then further else return tt

  unfoldable pub digits : Step Scanner (Unit {0})
  unfolding digit_loop
  digits = do s ← get; digit_loop s.rest

  -- Digits, of which there must be one.
  unfoldable pub some_digits : Step Scanner (Unit {0})
  unfolding digits
  some_digits = do s ← get; _ ← digits; t ← get; when (t.position == s.position) fail_here

  -- The sign, and the error when nothing follows it.
  abbrev pub minus : Step Scanner (Unit {0})
  minus = do
    s ← get
    when (next_is (λ c. c == 45) s) (do _ ← advance 1; t ← get; when (length t.rest == 0) fail_here)

  -- The integer part of a number that starts at `start`.
  unfoldable pub integer_part : ℕ → Step Scanner (Unit {0})
  unfolding digits
  integer_part start = do
    s ← get
    if next_is (λ c. c == 48) s
        then (do _ ← advance 1; t ← get; when (next_is is_digit t) fail_here)
        else (if next_is (λ c. leb 49 c && leb c 57) s then digits else fail (invalid_json start))

  unfoldable pub fraction : Step Scanner (Unit {0})
  unfolding some_digits
  fraction = do s ← get; when (next_is (λ c. c == 46) s) (do _ ← advance 1; some_digits)

  unfoldable pub exponent : Step Scanner (Unit {0})
  unfolding some_digits
  exponent = do
    s ← get
    when (next_is (λ c. c == 101 || c == 69) s) (do
      _ ← advance 1
      t ← get
      _ ← when (next_is (λ c. c == 43 || c == 45) t) (advance 1)
      some_digits)

  unfoldable pub number : Step Scanner (Unit {0})
  unfolding integer_part fraction exponent
  number = do s ← get; _ ← minus; _ ← integer_part s.position; _ ← fraction; exponent
