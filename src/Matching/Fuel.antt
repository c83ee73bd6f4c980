-- ===== src/Matching/Fuel.antt =====
-- The loop over matches ends by itself: more fuel than it is given changes nothing.
use cpa_plugin_privacyfilter.Base.{
  ℕ, zero, suc, ◌+◌, ◌≤◌, ◌<◌, Bool, true, Option, none, some, List, [], ◌∷◌, ◌≡◌, refl, ap, ltb,
  if◌then◌else◌, Bytes, length, drop, arith,
}
use cpa_plugin_privacyfilter.Base.Int.{ℤ, pos, negsuc}
use cpa_plugin_privacyfilter.Spans.{Candidate}
use cpa_plugin_privacyfilter.Matching.{
  Regex, Scan, finish, emit, ◌▷◌, absolute, index_at, rune_width, next_offset, check, resume,
  at_match, submatch_loop,
}

pub rune_width-pos : (text : Bytes) → 1 ≤ rune_width text
unfolding rune_width
rune_width-pos [] = omega arith
rune_width-pos (c ∷ rest) = ground arith

-- The loop moves on.
pub lt-next_offset :
    (text : Bytes) (offset : ℕ) (stop : ℤ) {o : ℕ}
    → next_offset text offset stop ≡ some o
    → offset < o
unfolding next_offset
lt-next_offset text offset (pos stop) h = ground (arith, rune_width-pos (drop offset text))
lt-next_offset text offset (negsuc i) h = ground (arith, rune_width-pos (drop offset text))

resume_fuel :
    (f g : ℕ → Scan) (n : Option ℕ) → ((o : ℕ) → n ≡ some o → f o ≡ g o) → resume f n ≡ resume g n
resume_fuel f g none h = refl
resume_fuel f g (some o) h = h o refl

at_match_fuel :
    (text : Bytes) (visit : List ℤ → Option Candidate) (f g : ℕ → Scan) (offset : ℕ)
    (m : Option (List ℤ))
    → ((o : ℕ) → offset < o → f o ≡ g o)
    → at_match text visit f offset m ≡ at_match text visit g offset m
unfolding at_match
at_match_fuel text visit f g offset none h = refl
at_match_fuel text visit f g offset (some is) h =
    let i = index_at (absolute offset is) 1 in
    ap (λ k. emit (visit (absolute offset is)) ▷ k)
      (resume_fuel f g (next_offset text offset i) (λ o e. h o (lt-next_offset text offset i e)))

module _ (done : ℕ → Bool) (re : Regex) (text : Bytes) (visit : List ℤ → Option Candidate) where
  -- Any two amounts of fuel that reach past the end of the text give the same run.
  pub submatch_loop_fuel :
      (f g offset : ℕ)
      → length text + 2 ≤ f + offset
      → length text + 2 ≤ g + offset
      → submatch_loop done re text visit f offset ≡ submatch_loop done re text visit g offset
  unfolding submatch_loop
  submatch_loop_fuel zero zero offset h k = refl
  submatch_loop_fuel zero (suc g) offset h k =
      let y : ltb (length text) offset ≡ true = ground arith in rw y
  submatch_loop_fuel (suc f) zero offset h k =
      let y : ltb (length text) offset ≡ true = ground arith in rw y
  submatch_loop_fuel (suc f) (suc g) offset h k =
      ap (λ k. if ltb (length text) offset then finish else (check done ▷ k))
        (at_match_fuel text visit (submatch_loop done re text visit f)
          (submatch_loop done re text visit g) offset (re (drop offset text))
          (λ o lt. submatch_loop_fuel f g o (omega arith) (omega arith)))
