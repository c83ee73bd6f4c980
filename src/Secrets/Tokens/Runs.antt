-- ===== src/Secrets/Tokens/Runs.antt =====
-- The tokens that `forEachEntropyToken` visits are the maximal runs of at least 20 token bytes.
use cpa_plugin_privacyfilter.Base.{
  ℕ, suc, ◌+◌, ◌-◌, ◌%◌, ◌≤◌, ◌<◌, Bool, true, false, Option, none, some, List, [], ◌∷◌, ◌++◌, ◌≡◌,
  ◌↔◌, ◌⊎◌, refl, sym, ap, ◌∙◌, subst, ap₂, leb, ◌==◌, Bool-cases, inl, inr, Bytes, get_elem?, Any,
  arith, true≢false,
}
use cpa_plugin_privacyfilter.Base.Int.{pos, pos_part}
use cpa_plugin_privacyfilter.Base.Text.{byte_is}
use cpa_plugin_privacyfilter.Spans.{Candidate, secret}
use cpa_plugin_privacyfilter.Matching.{Scan, ◌▷◌, check}
use cpa_plugin_privacyfilter.Secrets.Tokens.{
  is_entropy_token_byte, close_token, token_start, check_often, token_loop, for_each_entropy_token,
}

-- A context that is never done, and a visit that notes the token.
abbrev pub never : ℕ → Bool
never t = false

abbrev pub noted : ℕ → ℕ → Candidate
noted a b = record { start = pos a; stop = pos b; kind = secret; rule_id = [] }

abbrev pub note : ℕ → ℕ → Scan
note a b t = (noted a b ∷ [], none, t)

-- A maximal run of at least 20 token bytes; past the end of the text there are none.
pub record IsToken (text : Bytes) (a b : ℕ) : Type 0 where
  pub long : a + 20 ≤ b
  pub inside : (p : ℕ) → a ≤ p → p < b → byte_is is_entropy_token_byte text p ≡ true
  pub left : (a ≡ 0) ⊎ (byte_is is_entropy_token_byte text (a - 1) ≡ false)
  pub right : byte_is is_entropy_token_byte text b ≡ false

abbrev Notes : ℕ → ℕ → List Candidate → Type 0
Notes a b = Any (λ k. k ≡ noted a b)

Notes-append :
    (a b : ℕ) (xs ys : List Candidate) → Notes a b (xs ++ ys) ↔ (Notes a b xs ⊎ Notes a b ys)
Notes-append a b [] ys = (λ h. inr h, λ h. elim h [ inl x ↦ absurd x | inr y ↦ y ])
Notes-append a b (x ∷ xs) ys =
    let ih = Notes-append a b xs ys in
    (
      λ h. elim h [
        | inl e ↦ inl (inl e)
        | inr r ↦ elim (ih.0 r) [ inl y ↦ inl (inr y) | inr z ↦ inr z ]
      ],
      λ h. elim h [
        | inl r ↦ elim r [ inl e ↦ inl e | inr y ↦ inr (ih.1 (inl y)) ]
        | inr z ↦ inr (ih.1 (inr z))
      ],
    )

-- The checks of the context add no candidate.
checked : (i t : ℕ) (k : Scan) → (t' : ℕ) × (((check_often never note i ▷ k) t).0 ≡ (k t').0)
unfolding check_often check
checked i t k = elim (Bool-cases (i % 4096 == 0)) [
  | inl y ↦ (suc t, rw y refl)
  | inr n ↦ (t, rw n refl)
]

-- What the loop knows at the byte `i`.
abbrev State : Bytes → Option ℕ → ℕ → Type 0
State text none i = (i ≡ 0) ⊎ (byte_is is_entropy_token_byte text (i - 1) ≡ false)
State text (some a) i =
    (a < i)
    × ((p : ℕ) → a ≤ p → p < i → byte_is is_entropy_token_byte text p ≡ true)
    × ((a ≡ 0) ⊎ (byte_is is_entropy_token_byte text (a - 1) ≡ false))

-- The bytes from `i` on.
abbrev Rest : Bytes → ℕ → Bytes → Type 0
Rest text i cs = (p : ℕ) → get_elem? text (i + p) ≡ get_elem? cs p

Rest-step : (text cs : Bytes) (i c : ℕ) → Rest text i (c ∷ cs) → Rest text (suc i) cs
Rest-step text cs i c r p = ap (get_elem? text) (omega arith) ∙ r (suc p)

byte_here :
    (text cs : Bytes) (i : ℕ)
    → Rest text i cs
    → byte_is is_entropy_token_byte text i ≡ byte_is is_entropy_token_byte cs 0
byte_here text cs i r =
    ap (λ o. elim o [ none ↦ false | some c ↦ is_entropy_token_byte c ])
      (ap (get_elem? text) (omega arith) ∙ r 0)

State-inside :
    (text : Bytes) (s : Option ℕ) (i : ℕ)
    → State text s i
    → byte_is is_entropy_token_byte text i ≡ true
    → State text (token_start s i) (suc i)
State-inside text none i h y = (
  omega arith,
  λ p g l. subst (λ q. byte_is is_entropy_token_byte text q ≡ true) (omega arith) y,
  h,
)
State-inside text (some a) i (lt, all, left) y = (
  omega arith,
  λ p g l. elim (Bool-cases (p == i)) [
    | inl e ↦ subst (λ q. byte_is is_entropy_token_byte text q ≡ true) (ground arith) y
    | inr n ↦ all p g (ground arith)
  ],
  left,
)

-- A run cannot start before the byte that ends another, or go on over it.
not_across :
    (text : Bytes) (a b p : ℕ)
    → ((q : ℕ) → a ≤ q → q < b → byte_is is_entropy_token_byte text q ≡ true)
    → a < p
    → p ≤ b
    → ¬ ((p ≡ 0) ⊎ (byte_is is_entropy_token_byte text (p - 1) ≡ false))
not_across text a b p all lt le (inl z) = omega arith
not_across text a b p all lt le (inr n) =
    true≢false (sym (all (p - 1) (omega arith) (omega arith)) ∙ n)

closed :
    (s : Option ℕ) (i t : ℕ) (k : Scan)
    → (t' : ℕ) × (((close_token note s i ▷ k) t).0 ≡ (close_token note s i t).0 ++ (k t').0)
closed none i t k = (t, refl)
closed (some a) i t k = elim (Bool-cases (leb 20 (i - a))) [
  | inl y ↦ (t, rw y refl)
  | inr n ↦ (t, rw n refl)
]

-- Two runs that end at the same byte are one.
same_start : (text : Bytes) (a a' i : ℕ) → IsToken text a i → State text (some a') i → a ≡ a'
same_start text a a' i k (lt, all, left) = elim (Bool-cases (leb a a')) [
  | inl y ↦ elim (Bool-cases (leb a' a)) [
    | inl z ↦ ground arith
    | inr n ↦ absurd (not_across text a i a' k.inside (ground arith) (omega arith) left)
  ]
  | inr n ↦ absurd (not_across text a' i a all (ground arith) (omega (arith, k.long)) k.left)
]

close_token-note :
    (text : Bytes) (s : Option ℕ) (i : ℕ)
    → State text s i
    → byte_is is_entropy_token_byte text i ≡ false
    → (a b t : ℕ) → Notes a b (close_token note s i t).0 ↔ (IsToken text a b × (b ≡ i))
close_token-note text none i h n a b t = (
  λ x. absurd x,
  λ (k, e).
      not_across text a i i (rw e at k).inside (omega (arith, (rw e at k).long)) (omega arith) h,
)
close_token-note text (some a') i (lt, all, left) n a b t = elim (Bool-cases (leb 20 (i - a'))) [
  | inl y ↦ rw y (
    λ m. elim m [
      | inl e ↦
          let ea : a' ≡ a = ap (λ k. pos_part k.start) e in
          let eb : i ≡ b = ap (λ k. pos_part k.stop) e in
          (
            subst (λ x. IsToken text x b) ea
                (subst (λ x. IsToken text a' x) eb
                  (record { long = ground arith; inside = all; left = left; right = n })),
            sym eb,
          )
      | inr x ↦ absurd x
    ],
    λ (k, e).
        let same : a ≡ a' = same_start text a a' i (subst (IsToken text a) e k) (lt, all, left) in
        inl (ap₂ noted (sym same) (sym e)),
  )
  | inr m ↦ rw m (
    λ x. absurd x,
    λ (k, e).
        let same : a ≡ a' = same_start text a a' i (subst (IsToken text a) e k) (lt, all, left) in
        ground (arith, k.long),
  )
]

-- A token does not end behind the text.
token_end : (text : Bytes) (i a b : ℕ) → Rest text i [] → IsToken text a b → b ≤ i
token_end text i a b r k = elim (Bool-cases (leb b i)) [
  | inl y ↦ ground arith
  | inr n ↦
      let here : b - 1 ≡ i + (b - 1 - i) = ground arith in
      absurd (
        true≢false (
          sym (k.inside (b - 1) (omega (arith, k.long)) (omega (arith, k.long)))
          ∙ ap (λ o. elim o [ none ↦ false | some c ↦ is_entropy_token_byte c ])
              (ap (get_elem? text) here ∙ r (b - 1 - i))))
]

-- A token that ends at a byte or later ends after it, if that is a token byte.
not_here :
    (text : Bytes) (i a b : ℕ)
    → byte_is is_entropy_token_byte text i ≡ true
    → IsToken text a b
    → i ≤ b
    → suc i ≤ b
not_here text i a b y k le = elim (Bool-cases (b == i)) [
  | inl e ↦
      let here : i ≡ b = ground arith in
      absurd (true≢false (sym y ∙ ap (byte_is is_entropy_token_byte text) here ∙ k.right))
  | inr n ↦ ground arith
]

module _ (text : Bytes) (a b : ℕ) where
  token_loop-note :
      (cs : Bytes) (s : Option ℕ) (i t : ℕ)
      → State text s i
      → Rest text i cs
      → Notes a b (token_loop never note s i cs t).0 ↔ (IsToken text a b × (i ≤ b))
  unfolding token_loop
  token_loop-note [] s i t h r =
      let (t', e) = checked i t (close_token note s i) in
      let ends = close_token-note text s i h (byte_here text [] i r) a b t' in
      rw e (
        λ m. let (k, same) = ends.0 m in (k, omega arith),
        λ (k, le). let last : b ≤ i = token_end text i a b r k in ends.1 (k, omega arith),
      )
  token_loop-note (c ∷ cs) s i t h r = elim (Bool-cases (is_entropy_token_byte c)) [
    | inl y ↦
        let here : byte_is is_entropy_token_byte text i ≡ true = byte_here text (c ∷ cs) i r ∙ y in
        let (t', e) = checked i t (token_loop never note (token_start s i) (suc i) cs) in
        let later =
          token_loop-note cs (token_start s i) (suc i) t' (State-inside text s i h here)
            (Rest-step text cs i c r) in
        rw (y, e)
          (
            λ m. let (k, lt) = later.0 m in (k, omega arith),
            λ (k, le). later.1 (k, not_here text i a b here k le),
          )
    | inr n ↦
        let here : byte_is is_entropy_token_byte text i ≡ false = byte_here text (c ∷ cs) i r ∙ n in
        let (t', e) = checked i t (close_token note s i ▷ token_loop never note none (suc i) cs) in
        let (t'', e') = closed s i t' (token_loop never note none (suc i) cs) in
        let ends = close_token-note text s i h here a b t' in
        let after_it : State text none (suc i) =
          inr (ap (byte_is is_entropy_token_byte text) (omega arith) ∙ here) in
        let later = token_loop-note cs none (suc i) t'' after_it (Rest-step text cs i c r) in
        let both =
          Notes-append a b (close_token note s i t').0
            (token_loop never note none (suc i) cs t'').0 in
        rw (n, e, e')
          (
            λ m. elim (both.0 m) [
              | inl x ↦ let (k, same) = ends.0 x in (k, omega arith)
              | inr x ↦ let (k, lt) = later.0 x in (k, omega arith)
            ],
            λ (k, le). elim (Bool-cases (b == i)) [
              | inl same ↦ both.1 (inl (ends.1 (k, ground arith)))
              | inr differ ↦ both.1 (inr (later.1 (k, ground arith)))
            ],
          )
  ]

  -- `forEachEntropyToken`, in a context that is never done, visits exactly the maximal runs of at
  -- least 20 token bytes.
  pub for_each_entropy_token-note :
      (t : ℕ)
      → Any (λ k. k ≡ noted a b) (for_each_entropy_token never note text t).0 ↔ IsToken text a b
  unfolding for_each_entropy_token
  for_each_entropy_token-note t =
      let all = token_loop-note text none 0 t (inl refl) (λ p. ap (get_elem? text) (omega arith)) in
      (λ m. (all.0 m).0, λ k. all.1 (k, omega arith))
