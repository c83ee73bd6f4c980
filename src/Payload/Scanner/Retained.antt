-- ===== src/Payload/Scanner/Retained.antt =====
-- Every step of the scanner keeps what it retains within the limit.
use cpa_plugin_privacyfilter.Base.{
  ℕ, zero, suc, ◌+◌, ◌-◌, Bool, false, not, ◌&&◌, ◌||◌, Option, none, some, [], ◌∷◌, ◌++◌,
  if◌then◌else◌, ltb, leb, ◌==◌, Bytes, bytes_eq, length, take, drop, Bool-cases, inl, inr,
}
use cpa_plugin_privacyfilter.Base.Text.{is_digit}
use cpa_plugin_privacyfilter.Base.Int.{pos, ltb_ℤ}
use cpa_plugin_privacyfilter.Payload.{
  PayloadError, Step, return, fail, invalid_json, string_too_large, Limits,
}
use cpa_plugin_privacyfilter.Payload.Scanner.{
  Scanner, get, modify, check_now, check_at, check_interval,
}
use cpa_plugin_privacyfilter.Payload.Scanner.Strings.{
  first_not_hex, escape_length, unit_length, is_valid_utf8, unquote, finish_string, string_loop,
  string_value, is_space, skip_loop, skip_whitespace,
}
use cpa_plugin_privacyfilter.Payload.Scanner.Numbers.{
  next_is, fail_here, when, literal, digit_loop, digits, some_digits, minus, integer_part, fraction,
  exponent, number,
}
use cpa_plugin_privacyfilter.Payload.Scanner.Values.{refuse_if, expect}
use cpa_plugin_privacyfilter.Payload.Scanner.Bounds.{Keeps, bind-Keeps, if-Keeps, advance-Keeps}

module _ {ℓ} {A : Type ℓ} {l : Limits} where
  pub return-Keeps : (a : A) → Keeps l (return {S = Scanner} a)
  return-Keeps a = record { keep = λ s w. w }

  fail-Keeps : (e : PayloadError) → Keeps l (fail {S = Scanner} {A = A} e)
  fail-Keeps e = record { keep = λ s w. w }

  pub fail_here-Keeps : Keeps l (fail_here {A = A})
  fail_here-Keeps = record { keep = λ s w. w }

module _ (done : ℕ → Bool) (l : Limits) where
  pub get-Keeps : Keeps l get
  get-Keeps = record { keep = λ s w. w }

  pub check_now-Keeps : Keeps l (check_now done)
  unfolding check_now
  check_now-Keeps = record {
    keep = λ s w. record {
      bounded = w.bounded;
      paths_fit = w.paths_fit;
      strings_fit = w.strings_fit;
      charged = w.charged;
    };
  }

  check_at-Keeps : (i : ℕ) → Keeps l (check_at done i)
  unfolding check_at
  check_at-Keeps i = record {
    keep = λ s w. elim (Bool-cases (ltb (i - s.last_check) check_interval)) [
      | inl y ↦ rw y w
      | inr n ↦ rw n (
          check_now-Keeps.keep (record s { last_check = i })
            (record {
              bounded = w.bounded;
              paths_fit = w.paths_fit;
              strings_fit = w.strings_fit;
              charged = w.charged;
            }))
    ];
  }

  pub when-Keeps : (b : Bool) {m : Step Scanner (Unit {0})} → Keeps l m → Keeps l (when b m)
  when-Keeps b k = if-Keeps b k (return-Keeps tt)

  hex_end-Keeps :
      (o : Option ℕ)
      → Keeps {A = ℕ} l (elim o [ none ↦ return {S = Scanner} 6 | some j ↦ fail (invalid_json j) ])
  hex_end-Keeps none = return-Keeps 6
  hex_end-Keeps (some j) = fail-Keeps _

  escape_length-Keeps : (i : ℕ) (rest : Bytes) → Keeps l (escape_length i rest)
  escape_length-Keeps i [] = fail-Keeps _
  escape_length-Keeps i (e ∷ rest) =
      if-Keeps
        (e == 34 || e == 92 || e == 47 || e == 98 || e == 102 || e == 110 || e == 114 || e == 116)
        (return-Keeps 2)
        (if-Keeps (e == 117)
          (if-Keeps (ltb (length rest) 4) (fail-Keeps (invalid_json i))
            (hex_end-Keeps (first_not_hex (suc i) (take 4 rest))))
          (fail-Keeps (invalid_json i)))

  unit_length-Keeps : (i c : ℕ) (rest : Bytes) → Keeps l (unit_length i c rest)
  unit_length-Keeps i c rest =
      if-Keeps (c == 92) (escape_length-Keeps (suc i) rest)
        (if-Keeps (ltb c 32) (fail-Keeps (invalid_json i)) (return-Keeps 1))

  move-Keeps :
      (p : ℕ) (rest : Bytes) → Keeps l (modify (λ s. record s { position = p; rest = rest }))
  move-Keeps p rest = record {
    keep = λ s w. record {
      bounded = w.bounded;
      paths_fit = w.paths_fit;
      strings_fit = w.strings_fit;
      charged = w.charged;
    };
  }

  finish_string-Keeps :
      (stop : ℕ) (e : Bool) (raw rest : Bytes) → Keeps l (finish_string done l stop e raw rest)
  unfolding finish_string
  finish_string-Keeps stop e raw rest =
      let text =
        if not e && is_valid_utf8 (length raw) raw then raw else unquote (length raw) raw in
      bind-Keeps (move-Keeps stop rest) (λ _.
        if-Keeps (ltb_ℤ l.max_string_bytes (pos (length text))) (fail-Keeps string_too_large)
          (bind-Keeps check_now-Keeps (λ _. return-Keeps text)))

  string_loop-Keeps :
      (fuel i : ℕ) (e : Bool) (raw rest : Bytes) → Keeps l (string_loop done l fuel i e raw rest)
  unfolding string_loop
  string_loop-Keeps zero i e raw [] = fail-Keeps _
  string_loop-Keeps (suc fuel) i e raw [] = fail-Keeps _
  string_loop-Keeps zero i e raw (c ∷ rest) = fail-Keeps _
  string_loop-Keeps (suc fuel) i e raw (c ∷ rest) = bind-Keeps (check_at-Keeps i) (λ _.
      if-Keeps (c == 34) (finish_string-Keeps (suc i) e raw rest) (
        bind-Keeps (unit_length-Keeps i c rest) (λ n.
          string_loop-Keeps fuel (i + n) (e || c == 92) (raw ++ take n (c ∷ rest))
            (drop n (c ∷ rest)))))

  pub string_value-Keeps : Keeps l (string_value done l)
  unfolding string_value
  string_value-Keeps =
      bind-Keeps get-Keeps
        (λ s. string_loop-Keeps (length s.rest) (suc s.position) false [] (drop 1 s.rest))

  skip_loop-Keeps : (cs : Bytes) → Keeps l (skip_loop done l cs)
  unfolding skip_loop
  skip_loop-Keeps [] = return-Keeps tt
  skip_loop-Keeps (c ∷ cs) =
      if-Keeps (is_space done l c)
        (bind-Keeps (advance-Keeps 1) (λ _.
          bind-Keeps get-Keeps
            (λ s. bind-Keeps (check_at-Keeps s.position) (λ _. skip_loop-Keeps cs))))
        (return-Keeps tt)

  pub skip_whitespace-Keeps : Keeps l (skip_whitespace done l)
  unfolding skip_whitespace
  skip_whitespace-Keeps = bind-Keeps get-Keeps (λ s. skip_loop-Keeps s.rest)

  pub literal-Keeps : (want : Bytes) → Keeps l (literal want)
  unfolding literal
  literal-Keeps want = bind-Keeps get-Keeps (λ s.
      if-Keeps (bytes_eq (take (length want) s.rest) want) (advance-Keeps (length want))
        fail_here-Keeps)

  digit_loop-Keeps : (cs : Bytes) → Keeps l (digit_loop done cs)
  unfolding digit_loop
  digit_loop-Keeps [] = return-Keeps tt
  digit_loop-Keeps (c ∷ cs) =
      if-Keeps (is_digit c)
        (bind-Keeps (advance-Keeps 1) (λ _.
          bind-Keeps get-Keeps
            (λ s. bind-Keeps (check_at-Keeps s.position) (λ _. digit_loop-Keeps cs))))
        (return-Keeps tt)

  digits-Keeps : Keeps l (digits done)
  unfolding digits
  digits-Keeps = bind-Keeps get-Keeps (λ s. digit_loop-Keeps s.rest)

  some_digits-Keeps : Keeps l (some_digits done)
  unfolding some_digits
  some_digits-Keeps = bind-Keeps get-Keeps (λ s.
      bind-Keeps digits-Keeps
        (λ _. bind-Keeps get-Keeps (λ t. when-Keeps (t.position == s.position) fail_here-Keeps)))

  minus-Keeps : Keeps l (minus done)
  minus-Keeps = bind-Keeps get-Keeps (λ s. when-Keeps (next_is (λ c. c == 45) s) (
      bind-Keeps (advance-Keeps 1)
        (λ _. bind-Keeps get-Keeps (λ t. when-Keeps (length t.rest == 0) fail_here-Keeps))))

  integer_part-Keeps : (start : ℕ) → Keeps l (integer_part done start)
  unfolding integer_part
  integer_part-Keeps start = bind-Keeps get-Keeps (λ s.
      if-Keeps (next_is (λ c. c == 48) s)
        (bind-Keeps (advance-Keeps 1)
          (λ _. bind-Keeps get-Keeps (λ t. when-Keeps (next_is is_digit t) fail_here-Keeps)))
        (if-Keeps (next_is (λ c. leb 49 c && leb c 57) s) digits-Keeps
          (fail-Keeps (invalid_json start))))

  fraction-Keeps : Keeps l (fraction done)
  unfolding fraction
  fraction-Keeps = bind-Keeps get-Keeps (λ s.
      when-Keeps (next_is (λ c. c == 46) s) (bind-Keeps (advance-Keeps 1) (λ _. some_digits-Keeps)))

  exponent-Keeps : Keeps l (exponent done)
  unfolding exponent
  exponent-Keeps = bind-Keeps get-Keeps (λ s. when-Keeps (next_is (λ c. c == 101 || c == 69) s) (
      bind-Keeps (advance-Keeps 1) (λ _. bind-Keeps get-Keeps (λ t.
        bind-Keeps (when-Keeps (next_is (λ c. c == 43 || c == 45) t) (advance-Keeps 1))
          (λ _. some_digits-Keeps)))))

  pub number-Keeps : Keeps l (number done)
  unfolding number
  number-Keeps = bind-Keeps get-Keeps (λ s. bind-Keeps minus-Keeps (λ _.
      bind-Keeps (integer_part-Keeps s.position)
        (λ _. bind-Keeps fraction-Keeps (λ _. exponent-Keeps))))

  pub refuse_if-Keeps : (b : Bool) (e : PayloadError) → Keeps l (refuse_if b e)
  refuse_if-Keeps b e = if-Keeps b (fail-Keeps e) (return-Keeps tt)

  pub expect-Keeps : (test : ℕ → Bool) → Keeps l (expect test)
  expect-Keeps test = record {
    keep = λ s w. elim (Bool-cases (next_is test s)) [ inl y ↦ rw y w | inr n ↦ rw n w ];
  }
