-- ===== src/Redactor/Placeholders.antt =====
-- `requestRenderer` and `numberedPlaceholder` of redactor.go, and `PlaceholderRenderer` of
-- internal/privacyengine/renderer.go. The digest, SHA-256, is a function. The lock is held
-- throughout a call; the log of substitutions is left out.
pub mod Stable
pub mod Numbers
pub mod Distinct
use cpa_plugin_privacyfilter.Base.{
  ℕ, zero, suc, ◌+◌, ◌-◌, ◌/◌, ◌%◌, Bool, true, false, ◌||◌, Option, none, some, List, [], ◌∷◌,
  ◌++◌, ltb, leb, ◌==◌, if◌then◌else◌, Bytes, bytes_eq, length, take,
}
use cpa_plugin_privacyfilter.Base.Text.{codes, ends_with, any_of}
use cpa_plugin_privacyfilter.Spans.{Kind, email, phone, id_card, bank_card, ip, secret}
use cpa_plugin_privacyfilter.Engine.{Finding, Renderer}

-- The text of a `Kind`.
abbrev pub kind_text : Kind → Bytes
kind_text email = codes "email"
kind_text phone = codes "phone"
kind_text id_card = codes "id_card"
kind_text bank_card = codes "bank_card"
kind_text ip = codes "ip"
kind_text secret = codes "secret"

abbrev pub default_placeholders : Kind → Bytes
default_placeholders email = codes "[EMAIL]"
default_placeholders phone = codes "[PHONE]"
default_placeholders id_card = codes "[ID]"
default_placeholders bank_card = codes "[CARD]"
default_placeholders ip = codes "[IP]"
default_placeholders secret = codes "[SECRET]"

abbrev pub kind_eq : Kind → Kind → Bool
kind_eq a b = bytes_eq (kind_text a) (kind_text b)

-- `NewPlaceholderRenderer`; of overrides for one kind the map has one.
unfoldable pub placeholder_of : List (Kind × Bytes) → Kind → Bytes
unfolding bytes_eq
placeholder_of [] kind = default_placeholders kind
placeholder_of ((k, placeholder) ∷ overrides) kind =
    let rest = placeholder_of overrides kind in if kind_eq k kind then placeholder else rest

-- `PlaceholderRenderer.Render`: every kind has its default, so only a canceled context fails it.
unfoldable pub placeholder_render : List (Kind × Bytes) → Bool → Finding → Bytes → Option Bytes
unfolding placeholder_of
placeholder_render overrides canceled f plain =
    if canceled then none else some (placeholder_of overrides f.kind)

-- `strconv.Itoa` for a number that is not negative: the digits, of which there are at most as many
-- as the fuel.
unfoldable pub itoa_loop : ℕ → ℕ → Bytes
itoa_loop zero n = []
itoa_loop (suc fuel) n =
    let front = itoa_loop fuel (n / 10) in
    if ltb n 10 then (48 + n) ∷ [] else front ++ (48 + n % 10) ∷ []

unfoldable pub itoa : ℕ → Bytes
unfolding itoa_loop
itoa n = itoa_loop (suc n) n

-- `numberedPlaceholder`
unfoldable pub numbered_placeholder : Bytes → ℕ → Bytes
unfolding itoa ends_with
numbered_placeholder base number =
    let suffix = codes "#" ++ itoa number in
    if length base == 0 || leb number 1
    then base
    else if ends_with base (codes "]")
    then take (length base - 1) base ++ (suffix ++ codes "]")
    else if ends_with base (codes ">")
    then take (length base - 1) base ++ (suffix ++ codes ">")
    else base ++ suffix

-- `requestRenderer`: the maps as lists of what was put into them, and the number of a kind.
pub record RequestRenderer : Type 0 where
  pub seen : List (Bytes × Bytes)
  pub produced : List Bytes
  pub next : Kind → ℕ

abbrev pub new_request_renderer : RequestRenderer
new_request_renderer = record { seen = []; produced = []; next = λ kind. 0 }

unfoldable pub find_seen : Bytes → List (Bytes × Bytes) → Option Bytes
unfolding bytes_eq
find_seen key [] = none
find_seen key ((k, replacement) ∷ seen) =
    let rest = find_seen key seen in if bytes_eq k key then some replacement else rest

module _ (digest : Bytes → Bytes) (base : Finding → Bytes → Option Bytes) where
  abbrev pub seen_key : Kind → Bytes → Bytes
  seen_key kind plain = digest (kind_text kind ++ 0 ∷ plain)

  -- A plaintext that was not seen, from the placeholder of the base renderer.
  unfoldable pub produce : Kind → Bytes → Bytes → RequestRenderer → RequestRenderer × Option Bytes
  unfolding numbered_placeholder bytes_eq
  produce kind key placeholder r =
      let number = suc (r.next kind) in
      let replacement = numbered_placeholder placeholder number in
      (
        record {
          seen = (key, replacement) ∷ r.seen;
          produced = digest replacement ∷ r.produced;
          next = λ k. if kind_eq k kind then number else r.next k;
        },
        some replacement,
      )

  -- After the call of the base renderer.
  unfoldable pub number_base :
      Finding → Bytes → RequestRenderer → Option Bytes → RequestRenderer × Option Bytes
  unfolding produce
  number_base f plain r none = (r, none)
  number_base f plain r (some placeholder) = produce f.kind (seen_key f.kind plain) placeholder r

  -- After the look-up.
  unfoldable pub render_seen :
      Finding → Bytes → RequestRenderer → Option Bytes → RequestRenderer × Option Bytes
  unfolding number_base
  render_seen f plain r (some replacement) = (r, some replacement)
  render_seen f plain r none = number_base f plain r (base f plain)

  -- `requestRenderer.Render`
  unfoldable pub render : Renderer RequestRenderer
  unfolding find_seen render_seen
  render f plain r = render_seen f plain r (find_seen (seen_key f.kind plain) r.seen)

  -- The renders of a request, one after the other.
  unfoldable pub render_each : List (Finding × Bytes) → RequestRenderer → RequestRenderer
  unfolding render
  render_each [] r = r
  render_each ((f, plain) ∷ calls) r = render_each calls (render f plain r).0

  -- `producedPlaceholder`
  unfoldable pub produced_placeholder : Bytes → RequestRenderer → Bool
  unfolding any_of bytes_eq
  produced_placeholder value r = any_of (bytes_eq (digest value)) r.produced
