-- ===== src/Redactor/Placeholders/Stable.antt =====
-- A request writes the same placeholder for the same plaintext throughout.
use cpa_plugin_privacyfilter.Base.{
  true, Option, none, some, List, [], ◌∷◌, ◌≡◌, refl, sym, ap, ◌∙◌, Bool-cases, inl, inr, Bytes,
  bytes_eq, bytes_eq_iff, none-ne-some,
}
use cpa_plugin_privacyfilter.Engine.{Finding}
use cpa_plugin_privacyfilter.Redactor.Placeholders.{
  RequestRenderer, find_seen, seen_key, produce, number_base, render_seen, render, render_each,
}

pub bytes_eq_refl : (a : Bytes) → bytes_eq a a ≡ true
bytes_eq_refl a = (bytes_eq_iff a a).1 refl

module _ (digest : Bytes → Bytes) (base : Finding → Bytes → Option Bytes) where
  number_base-keeps :
      (f : Finding) (plain key : Bytes) (r : RequestRenderer) (x : Bytes)
      → find_seen (seen_key digest base f.kind plain) r.seen ≡ none
      → find_seen key r.seen ≡ some x
      → (o : Option Bytes) → find_seen key (number_base digest base f plain r o).0.seen ≡ some x
  unfolding number_base produce find_seen
  number_base-keeps f plain key r x n h none = h
  number_base-keeps f plain key r x n h (some b) =
      elim (Bool-cases (bytes_eq (seen_key digest base f.kind plain) key)) [
        | inl same ↦
            absurd (
              none-ne-some (sym n ∙ ap (λ k. find_seen k r.seen) ((bytes_eq_iff _ key).0 same) ∙ h))
        | inr differ ↦ rw differ h
      ]

  render_seen-keeps :
      (f : Finding) (plain key : Bytes) (r : RequestRenderer) (x : Bytes)
      → find_seen key r.seen ≡ some x
      → (o : Option Bytes) → find_seen (seen_key digest base f.kind plain) r.seen ≡ o
      → find_seen key (render_seen digest base f plain r o).0.seen ≡ some x
  unfolding render_seen
  render_seen-keeps f plain key r x h (some y) e = h
  render_seen-keeps f plain key r x h none e = number_base-keeps f plain key r x e h (base f plain)

  -- What is seen stays so.
  render-keeps :
      (f : Finding) (plain key : Bytes) (r : RequestRenderer) (x : Bytes)
      → find_seen key r.seen ≡ some x
      → find_seen key (render digest base f plain r).0.seen ≡ some x
  unfolding render
  render-keeps f plain key r x h = render_seen-keeps f plain key r x h _ refl

  pub render_each-keeps :
      (calls : List (Finding × Bytes)) (key : Bytes) (r : RequestRenderer) (x : Bytes)
      → find_seen key r.seen ≡ some x
      → find_seen key (render_each digest base calls r).seen ≡ some x
  unfolding render_each
  render_each-keeps [] key r x h = h
  render_each-keeps ((f, plain) ∷ calls) key r x h =
      render_each-keeps calls key (render digest base f plain r).0 x
        (render-keeps f plain key r x h)

  number_base-finds :
      (f : Finding) (plain : Bytes) (r : RequestRenderer) (x : Bytes) (o : Option Bytes)
      → (number_base digest base f plain r o).1 ≡ some x
      → find_seen (seen_key digest base f.kind plain) (number_base digest base f plain r o).0.seen
        ≡ some x
  unfolding number_base produce find_seen
  number_base-finds f plain r x none h = absurd (none-ne-some h)
  number_base-finds f plain r x (some b) h =
      rw (bytes_eq_refl (seen_key digest base f.kind plain)) h

  render_seen-finds :
      (f : Finding) (plain : Bytes) (r : RequestRenderer) (x : Bytes) (o : Option Bytes)
      → find_seen (seen_key digest base f.kind plain) r.seen ≡ o
      → (render_seen digest base f plain r o).1 ≡ some x
      → find_seen (seen_key digest base f.kind plain) (render_seen digest base f plain r o).0.seen
        ≡ some x
  unfolding render_seen
  render_seen-finds f plain r x (some y) e h = e ∙ h
  render_seen-finds f plain r x none e h = number_base-finds f plain r x (base f plain) h

  -- A successful render leaves what it returned.
  pub render-finds :
      (f : Finding) (plain : Bytes) (r : RequestRenderer) (x : Bytes)
      → (render digest base f plain r).1 ≡ some x
      → find_seen (seen_key digest base f.kind plain) (render digest base f plain r).0.seen ≡ some x
  unfolding render
  render-finds f plain r x h = render_seen-finds f plain r x _ refl h

  -- Once a plaintext has been rendered for a finding, every later render of it for a finding of that
  -- kind returns the same placeholder and changes nothing, whatever was rendered in between and
  -- whatever the base renderer would answer.
  pub render-stable :
      (f g : Finding) (plain : Bytes) (calls : List (Finding × Bytes)) (r : RequestRenderer)
      (x : Bytes)
      → g.kind ≡ f.kind
      → (render digest base f plain r).1 ≡ some x
      → (let later = render_each digest base calls (render digest base f plain r).0 in
          render digest base g plain later ≡ (later, some x))
  unfolding render
  render-stable f g plain calls r x same h =
      let later = render_each digest base calls (render digest base f plain r).0 in
      let e =
        render_each-keeps calls (seen_key digest base f.kind plain) (render digest base f plain r).0
          x (render-finds f plain r x h) in
      ap (render_seen digest base g plain later)
        (ap (λ k. find_seen (seen_key digest base k plain) later.seen) same ∙ e)
      ∙ unfold render_seen in refl
