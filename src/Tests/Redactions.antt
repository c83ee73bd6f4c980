-- ===== src/Tests/Redactions.antt =====
-- The placeholders of a request on concrete inputs.
use cpa_plugin_privacyfilter.Base.{Option, some, List, [], ◌∷◌, ◌≡◌, ◌≢◌, refl, sym, Bytes, arith}
use cpa_plugin_privacyfilter.Base.Text.{codes}
use cpa_plugin_privacyfilter.Spans.{Kind, email, phone, id_card, bank_card, ip, secret}
use cpa_plugin_privacyfilter.Engine.{Finding}
use cpa_plugin_privacyfilter.Redactor.Placeholders.{
  new_request_renderer, default_placeholders, placeholder_of, numbered_placeholder, render,
  render_each,
}
use cpa_plugin_privacyfilter.Redactor.Placeholders.Stable.{render-stable}
use cpa_plugin_privacyfilter.Redactor.Placeholders.Distinct.{render-distinct}
use mathlib.Core.List.{nil≢cons, head-eq_of_cons-eq}

abbrev finding_of : Kind → Finding
finding_of kind = record { start = 0; stop = 1; kind = kind; rule_id = [] }

abbrev defaults : Finding → Bytes → Option Bytes
defaults f plain = some (default_placeholders f.kind)

abbrev identity : Bytes → Bytes
identity text = text

abbrev calls_between : List (Finding × Bytes)
calls_between = (finding_of phone, codes "1") ∷ (finding_of email, codes "b") ∷ []

overridden : placeholder_of ((ip, codes "<host>") ∷ []) ip ≡ codes "<host>"
unfolding placeholder_of
overridden = refl

twelfth : numbered_placeholder (codes "[ID]") 12 ≡ codes "[ID#12]"
unfolding numbered_placeholder
twelfth = refl

first_email :
    (render identity defaults (finding_of email) (codes "a") new_request_renderer).1
    ≡ some (codes "[EMAIL]")
unfolding render
first_email = refl

render-stable_example :
    (let later =
        render_each identity defaults calls_between
          (render identity defaults (finding_of email) (codes "a") new_request_renderer).0 in
      render identity defaults (finding_of email) (codes "a") later
      ≡ (later, some (codes "[EMAIL]")))
render-stable_example =
    render-stable identity defaults (finding_of email) (finding_of email) (codes "a") calls_between
      new_request_renderer (codes "[EMAIL]") refl first_email

has_label : (kind : Kind) → default_placeholders kind ≢ []
has_label email e = nil≢cons (sym e)
has_label phone e = nil≢cons (sym e)
has_label id_card e = nil≢cons (sym e)
has_label bank_card e = nil≢cons (sym e)
has_label ip e = nil≢cons (sym e)
has_label secret e = nil≢cons (sym e)

third_email :
    (let start = render_each identity defaults [] new_request_renderer in
      let later =
        render_each identity defaults calls_between
          (render identity defaults (finding_of email) (codes "a") start).0 in
      (render identity defaults (finding_of email) (codes "c") later).1)
    ≡ some (codes "[EMAIL#3]")
unfolding render render_each
third_email = refl

first_of_request :
    (let start = render_each identity defaults [] new_request_renderer in
      (render identity defaults (finding_of email) (codes "a") start).1)
    ≡ some (codes "[EMAIL]")
unfolding render render_each
first_of_request = refl

texts_differ : codes "a" ≢ codes "c"
texts_differ e = absurd (ground (arith, head-eq_of_cons-eq e))

render-distinct_example : codes "[EMAIL]" ≢ codes "[EMAIL#3]"
render-distinct_example =
    render-distinct identity defaults default_placeholders (λ a b e. e) (λ f plain. refl) has_label
      (finding_of email) (finding_of email) (codes "a") (codes "c") [] calls_between
      (codes "[EMAIL]") (codes "[EMAIL#3]") refl texts_differ first_of_request third_email
