-- ===== src/Engine/Rebuild.antt =====
-- The redacted text, position by position.
use cpa_plugin_privacyfilter.Base.{
  ℕ, zero, suc, ◌+◌, ◌-◌, ◌≤◌, ◌<◌, false, inl, inr, Bool-cases, List, [], ◌∷◌, ◌++◌, map, ◌≡◌,
  refl, ◌∙◌, ap, sym, ltb, ◌==◌, if◌then◌else◌, arith, tests, Bytes, length, take, drop,
  length-drop, slice, append_assoc, append-nil,
}
use cpa_plugin_privacyfilter.Spans.{Span}
use cpa_plugin_privacyfilter.Spans.Search.{IsDisjoint, IsDisjoint-le}
use cpa_plugin_privacyfilter.Spans.Union.{covered}
use cpa_plugin_privacyfilter.Engine.{Finding, rebuild}

abbrev pub Pairs : Type 0
Pairs = List (Finding × Bytes)

-- The replacement of the finding that starts at `p`.
unfoldable pub starting : ℕ → Pairs → Bytes
starting p [] = []
starting p ((f, r) ∷ rest) = if f.start == p then r ++ starting p rest else starting p rest

-- The text `bs`, whose first byte stands at position `p`: in front of each byte goes the
-- replacement of a finding that starts there, and a byte under a finding is left out.
unfoldable pub masked : ℕ → Bytes → Pairs → Bytes
masked p [] pairs = []
masked p (b ∷ bs) pairs =
    let rest = masked (suc p) bs pairs in
    starting p pairs ++ (if covered p (map (λ x. x.0) pairs) then rest else b ∷ rest)

-- `rebuild` on what is left of the text, with no accumulator.
rebuilt : ℕ → Bytes → Pairs → Bytes
rebuilt p bs [] = bs
rebuilt p bs ((f, r) ∷ rest) =
    take (f.start - p) bs ++ (r ++ rebuilt f.stop (drop (f.stop - p) bs) rest)

abbrev Placed : ℕ → ℕ → Pairs → Type 0
Placed lo hi pairs = IsDisjoint lo hi (map (λ x. x.0) pairs)

drop-nil {ℓ} : {A : Type ℓ} (n : ℕ) → drop {A = A} n [] ≡ []
drop-nil zero = refl
drop-nil (suc n) = refl

drop-drop {ℓ} : {A : Type ℓ} (m n k : ℕ) (xs : List A) → k ≡ n + m → drop m (drop n xs) ≡ drop k xs
drop-drop m zero k xs e = let e' : m ≡ k = omega arith in ap (λ i. drop i xs) e'
drop-drop m (suc n) k [] e = drop-nil m ∙ sym (drop-nil k)
drop-drop m (suc n) zero (x ∷ xs) e = absurd (omega arith)
drop-drop m (suc n) (suc k) (x ∷ xs) e = drop-drop m n k xs (omega arith)

rebuild-rebuilt :
    (text out : Bytes) (p hi : ℕ) (pairs : Pairs)
    → Placed p hi pairs
    → rebuild text out p pairs ≡ out ++ rebuilt p (drop p text) pairs
unfolding rebuild rebuilt
rebuild-rebuilt text out p hi [] d = refl
rebuild-rebuilt text out p hi ((f, r) ∷ rest) d =
    rebuild-rebuilt text (out ++ slice text p f.start ++ r) f.stop hi rest d.2
    ∙ rw (drop-drop (f.stop - p) p f.stop text (omega arith)) (rw (append_assoc, append_assoc))

starting-before :
    (p lo hi : ℕ) (pairs : Pairs) → Placed lo hi pairs → p < lo → starting p pairs ≡ []
unfolding starting
starting-before p lo hi [] d h = refl
starting-before p lo hi ((f, r) ∷ rest) d h = ground (arith, starting-before p f.stop hi rest d.2)

covered-before :
    (p lo hi : ℕ) (ss : List Span) → IsDisjoint lo hi ss → p < lo → covered p ss ≡ false
unfolding covered
covered-before p lo hi [] d h = refl
covered-before p lo hi (s ∷ ss) d h = ground (arith, covered-before p s.stop hi ss d.2)

pub masked-nil : (p : ℕ) (bs : Bytes) → masked p bs [] ≡ bs
unfolding masked starting covered
masked-nil p [] = refl
masked-nil p (b ∷ bs) = ap (◌∷◌ b) (masked-nil (suc p) bs)

module _ (f : Finding) (r : Bytes) (rest : Pairs) (hi : ℕ) (nonempty : f.start < f.stop) where
  masked_past : (q : ℕ) (bs : Bytes) → f.stop ≤ q → masked q bs ((f, r) ∷ rest) ≡ masked q bs rest
  unfolding masked starting covered
  masked_past q [] h = refl
  masked_past q (b ∷ bs) h = ground (arith, masked_past (suc q) bs (omega arith))

  masked_skip :
      (q : ℕ) (bs : Bytes)
      → f.start < q
      → q ≤ f.stop
      → Placed f.stop hi rest
      → masked q bs ((f, r) ∷ rest) ≡ masked f.stop (drop (f.stop - q) bs) rest
  unfolding masked starting covered
  masked_skip q [] a b d = rw drop-nil
  masked_skip q (x ∷ bs) a b d = elim (Bool-cases (ltb q f.stop)) [
    | inl y ↦
        let e : f.stop - q ≡ suc (f.stop - suc q) = omega tests in
        rw e (ground (arith, starting-before q f.stop hi rest d, masked_skip (suc q) bs))
    | inr n ↦
        let e : q ≡ f.stop = ground arith in
        let z : f.stop - q ≡ 0 = omega arith in
        rw z (masked_past q (x ∷ bs) (omega arith) ∙ ap (λ k. masked k (x ∷ bs) rest) e)
  ]

  rebuilt_seek :
      (p : ℕ) (bs : Bytes)
      → p ≤ f.start
      → Placed f.stop hi rest
      → hi ≡ p + length bs
      → ((bs' : Bytes)
          → hi ≡ f.stop + length bs'
          → rebuilt f.stop bs' rest ≡ masked f.stop bs' rest)
      → rebuilt p bs ((f, r) ∷ rest) ≡ masked p bs ((f, r) ∷ rest)
  unfolding rebuilt masked starting covered
  rebuilt_seek p [] a d b ih = absurd (omega (arith, IsDisjoint-le f.stop hi _ d))
  rebuilt_seek p (x ∷ bs) a d b ih = elim (Bool-cases (ltb p f.start)) [
    | inl y ↦
        let e : f.start - p ≡ suc (f.start - suc p) = omega tests in
        let g : f.stop - p ≡ suc (f.stop - suc p) = omega tests in
        let again = rebuilt_seek (suc p) bs (omega tests) d (omega arith) ih in
        rw (e, g)
          (ground (
            arith,
            again,
            starting-before p f.stop hi rest d,
            covered-before p f.stop hi (map (λ x. x.0) rest) d,
          ))
    | inr n ↦
        let e : f.start - p ≡ 0 = ground arith in
        let g : f.stop - p ≡ suc (f.stop - suc p) = ground arith in
        let fits : hi ≡ f.stop + length (drop (f.stop - suc p) bs) =
          omega (arith, length-drop (f.stop - suc p) bs, IsDisjoint-le f.stop hi _ d) in
        rw (e, g)
          (ground (
            arith,
            ih (drop (f.stop - suc p) bs) fits,
            starting-before p f.stop hi rest d,
            masked_skip (suc p) bs,
            append-nil r,
          ))
  ]

rebuilt-masked :
    (pairs : Pairs) (p hi : ℕ) (bs : Bytes)
    → Placed p hi pairs
    → hi ≡ p + length bs
    → rebuilt p bs pairs ≡ masked p bs pairs
rebuilt-masked [] p hi bs d e = unfold rebuilt in sym (masked-nil p bs)
rebuilt-masked ((f, r) ∷ rest) p hi bs d e =
    rebuilt_seek f r rest hi d.1 p bs d.0 d.2 e (λ bs' e'. rebuilt-masked rest f.stop hi bs' d.2 e')

-- For findings that ascend, do not overlap and lie in the text, the builder writes every byte
-- outside the findings once and in order, none of the bytes under a finding, and each replacement
-- where its finding starts.
pub rebuild-masked :
    (text : Bytes) (pairs : Pairs)
    → IsDisjoint 0 (length text) (map (λ x. x.0) pairs)
    → rebuild text [] 0 pairs ≡ masked 0 text pairs
rebuild-masked text pairs d =
    rebuild-rebuilt text [] 0 (length text) pairs d
    ∙ rebuilt-masked pairs 0 (length text) text d (omega arith)
