-- ===== src/Redactor/Placeholders/Distinct.antt =====
-- Different plaintexts of one kind have different placeholders throughout a request.
use cpa_plugin_privacyfilter.Base.{
  ℕ, suc, ◌≤◌, true, Option, none, some, List, [], ◌∷◌, ◌++◌, ◌≡◌, ◌≢◌, ◌⊎◌, refl, sym, ap, ◌∙◌,
  subst, ◌==◌, if◌then◌else◌, Bool-cases, inl, inr, Bytes, bytes_eq, bytes_eq_iff, none-ne-some,
  arith,
}
use cpa_plugin_privacyfilter.Spans.{Kind, email, phone, id_card, bank_card, ip, secret}
use cpa_plugin_privacyfilter.Engine.{Finding}
use cpa_plugin_privacyfilter.Redactor.Placeholders.{
  RequestRenderer, new_request_renderer, kind_text, kind_eq, find_seen, seen_key, produce,
  number_base, render_seen, render, render_each, numbered_placeholder,
}
use cpa_plugin_privacyfilter.Redactor.Placeholders.Stable.{
  bytes_eq_refl, render_each-keeps, render-finds,
}
use cpa_plugin_privacyfilter.Redactor.Placeholders.Numbers.{numbered_placeholder-injective}
use mathlib.Core.List.{append_cancel_left, tail-eq_of_cons-eq}
use mathlib.Core.Option.{some_inj}

-- The kind that a text begins with.
abbrev read_kind : Bytes → Kind
read_kind (c ∷ d ∷ cs) =
    if c == 101
    then email
    else if c == 112
    then phone
    else if c == 98
    then bank_card
    else if c == 115
    then secret
    else if d == 100
    then id_card
    else ip
read_kind _ = ip

read_kind_text : (kind : Kind) (rest : Bytes) → read_kind (kind_text kind ++ rest) ≡ kind
read_kind_text email rest = refl
read_kind_text phone rest = refl
read_kind_text id_card rest = refl
read_kind_text bank_card rest = refl
read_kind_text ip rest = refl
read_kind_text secret rest = refl

kind_of-eq : (a b : Kind) → kind_eq a b ≡ true → a ≡ b
kind_of-eq a b h =
    sym (read_kind_text a [])
    ∙ ap (λ t. read_kind (t ++ [])) ((bytes_eq_iff (kind_text a) (kind_text b)).0 h)
    ∙ read_kind_text b []

module _ (digest : Bytes → Bytes) (base : Finding → Bytes → Option Bytes) (label : Kind → Bytes)
    (no_collision : (a b : Bytes) → digest a ≡ digest b → a ≡ b)
    (by_kind : (f : Finding) (plain : Bytes) → base f plain ≡ some (label f.kind))
    (not_empty : (kind : Kind) → label kind ≢ []) where
  abbrev key_of : Kind → Bytes → Bytes
  key_of = seen_key digest base

  key_text : (k k' : Kind) (p p' : Bytes) → key_of k p ≡ key_of k' p' → k ≡ k'
  key_text k k' p p' e =
      sym (read_kind_text k (0 ∷ p))
      ∙ ap read_kind (no_collision _ _ e)
      ∙ read_kind_text k' (0 ∷ p')

  same_plain : (k : Kind) (p p' : Bytes) → key_of k p ≡ key_of k p' → p ≡ p'
  same_plain k p p' e =
      tail-eq_of_cons-eq (append_cancel_left (kind_text k) (0 ∷ p) (0 ∷ p') (no_collision _ _ e))

  -- What is seen is numbered by its kind, and no placeholder of a kind stands twice.
  record IsNumbered (r : RequestRenderer) : Type 0 where
    number :
        (kind : Kind) (plain x : Bytes)
        → find_seen (key_of kind plain) r.seen ≡ some x
        → (n : ℕ) × (1 ≤ n) × (n ≤ r.next kind) × (x ≡ numbered_placeholder (label kind) n)
    unique :
        (kind : Kind) (plain plain' x : Bytes)
        → find_seen (key_of kind plain) r.seen ≡ some x
        → find_seen (key_of kind plain') r.seen ≡ some x
        → key_of kind plain ≡ key_of kind plain'

  module _ (kind : Kind) (plain : Bytes) (r : RequestRenderer) (w : IsNumbered r) where
    abbrev r' : RequestRenderer
    r' = (produce digest base kind (key_of kind plain) (label kind) r).0

    -- What the new list finds: the new placeholder, or what the old list finds.
    found_after :
        (k : Kind) (p x : Bytes)
        → find_seen (key_of k p) r'.seen ≡ some x
        → ((key_of kind plain ≡ key_of k p)
            × (k ≡ kind)
            × (x ≡ numbered_placeholder (label kind) (suc (r.next kind))))
          ⊎ (find_seen (key_of k p) r.seen ≡ some x)
    unfolding produce find_seen
    found_after k p x h = elim (Bool-cases (bytes_eq (key_of kind plain) (key_of k p))) [
      | inl y ↦
          let same = (bytes_eq_iff (key_of kind plain) (key_of k p)).0 y in
          inl (same, sym (key_text kind k plain p same), sym (some_inj.0 (rw y at h)))
      | inr n ↦ inr (rw n at h)
    ]

    next_grows : (k : Kind) → r.next k ≤ r'.next k
    unfolding produce
    next_grows k = elim (Bool-cases (kind_eq k kind)) [
      | inl y ↦ let same : k ≡ kind = kind_of-eq k kind y in rw (y, ap r.next same) (omega arith)
      | inr n ↦ rw n (omega arith)
    ]

    next_here : r'.next kind ≡ suc (r.next kind)
    unfolding produce
    next_here = rw (bytes_eq_refl (kind_text kind)) refl

    produce_number :
        (k : Kind) (p x : Bytes)
        → find_seen (key_of k p) r'.seen ≡ some x
        → (n : ℕ) × (1 ≤ n) × (n ≤ r'.next k) × (x ≡ numbered_placeholder (label k) n)
    produce_number k p x h = elim (found_after k p x h) [
      | inl (same, k_same, e) ↦ (
        suc (r.next kind),
        omega arith,
        subst (λ q. suc (r.next kind) ≤ r'.next q) (sym k_same) (omega (arith, next_here)),
        e ∙ ap (λ q. numbered_placeholder (label q) (suc (r.next kind))) (sym k_same),
      )
      | inr old ↦
          let (n, low, high, e) = w.number k p x old in (n, low, omega (arith, next_grows k), e)
    ]

    -- The new placeholder of a kind is not an old one.
    not_old :
        (k : Kind) (p x : Bytes)
        → k ≡ kind
        → x ≡ numbered_placeholder (label kind) (suc (r.next kind))
        → ¬ (find_seen (key_of k p) r.seen ≡ some x)
    not_old k p x k_same e old =
        let (n, low, high, e') = w.number k p x old in
        let at_kind : x ≡ numbered_placeholder (label kind) n =
          subst (λ q. x ≡ numbered_placeholder (label q) n) k_same e' in
        let below : n ≤ r.next kind = subst (λ q. n ≤ r.next q) k_same high in
        let equal : n ≡ suc (r.next kind) =
          numbered_placeholder-injective (label kind) n (suc (r.next kind)) (not_empty kind) low
            (omega arith) (sym at_kind ∙ e) in
        omega arith

    produce_unique :
        (k : Kind) (p p' x : Bytes)
        → find_seen (key_of k p) r'.seen ≡ some x
        → find_seen (key_of k p') r'.seen ≡ some x
        → key_of k p ≡ key_of k p'
    produce_unique k p p' x h h' = elim (found_after k p x h) [
      | inl (same, k_same, e) ↦ elim (found_after k p' x h') [
        | inl (same', k_same', e') ↦ sym same ∙ same'
        | inr old ↦ absurd (not_old k p' x k_same e old)
      ]
      | inr old ↦ elim (found_after k p' x h') [
        | inl (same', k_same', e') ↦ absurd (not_old k p x k_same' e' old)
        | inr old' ↦ w.unique k p p' x old old'
      ]
    ]

    produce-IsNumbered : IsNumbered r'
    produce-IsNumbered = record { number = produce_number; unique = produce_unique }

  render_seen-IsNumbered :
      (f : Finding) (plain : Bytes) (r : RequestRenderer)
      → IsNumbered r
      → (o : Option Bytes) → IsNumbered (render_seen digest base f plain r o).0
  unfolding render_seen number_base
  render_seen-IsNumbered f plain r w (some x) = w
  render_seen-IsNumbered f plain r w none =
      rw (by_kind f plain) (produce-IsNumbered f.kind plain r w)

  render_each-IsNumbered :
      (calls : List (Finding × Bytes)) (r : RequestRenderer)
      → IsNumbered r
      → IsNumbered (render_each digest base calls r)
  unfolding render_each render
  render_each-IsNumbered [] r w = w
  render_each-IsNumbered ((f, plain) ∷ calls) r w =
      render_each-IsNumbered calls (render digest base f plain r).0
        (render_seen-IsNumbered f plain r w (find_seen (key_of f.kind plain) r.seen))

  new-IsNumbered : IsNumbered new_request_renderer
  unfolding find_seen
  new-IsNumbered = record {
    number = λ kind plain x h. absurd (none-ne-some h);
    unique = λ kind plain plain' x h h'. absurd (none-ne-some h);
  }

  -- In a request, whatever is rendered before and in between, two different plaintexts of one kind get
  -- two different placeholders. The digest is to have no collision, and the base renderer a
  -- placeholder for each kind that is not empty.
  pub render-distinct :
      (f g : Finding) (plain plain' : Bytes) (before between : List (Finding × Bytes)) (x y : Bytes)
      → g.kind ≡ f.kind
      → plain ≢ plain'
      → (let start = render_each digest base before new_request_renderer in
          (render digest base f plain start).1 ≡ some x)
      → (let start = render_each digest base before new_request_renderer in
          let later = render_each digest base between (render digest base f plain start).0 in
          (render digest base g plain' later).1 ≡ some y)
      → x ≢ y
  unfolding render render_each
  render-distinct f g plain plain' before between x y same differ h k e =
      let start = render_each digest base before new_request_renderer in
      let middle = (render digest base f plain start).0 in
      let later = render_each digest base between middle in
      let last = (render digest base g plain' later).0 in
      let w0 : IsNumbered start =
        render_each-IsNumbered before new_request_renderer new-IsNumbered in
      let w1 : IsNumbered middle = render_each-IsNumbered ((f, plain) ∷ []) start w0 in
      let w2 : IsNumbered last =
        render_each-IsNumbered ((g, plain') ∷ []) later
          (render_each-IsNumbered between middle w1) in
      let found_x : find_seen (key_of f.kind plain) last.seen ≡ some x =
        render_each-keeps digest base ((g, plain') ∷ []) (key_of f.kind plain) later x (
          render_each-keeps digest base between (key_of f.kind plain) middle x
            (render-finds digest base f plain start x h)) in
      let found_y : find_seen (key_of f.kind plain') last.seen ≡ some x =
        ap (λ q. find_seen (key_of q plain') last.seen) (sym same)
        ∙ (render-finds digest base g plain' later y k ∙ ap some (sym e)) in
      differ (same_plain f.kind plain plain' (w2.unique f.kind plain plain' x found_x found_y))
