-- ===== src/Tests/Payloads.antt =====
-- The JSON payload on concrete inputs.
use cpa_plugin_privacyfilter.Base.{
  ℕ, Bool, true, false, none, some, List, [], ◌∷◌, ◌++◌, map, Bytes, bytes_eq, ◌≡◌, refl,
}
use cpa_plugin_privacyfilter.Base.Int.{pos}
use cpa_plugin_privacyfilter.Payload.{
  Result, ok, failed, depth_limit, invalid_json, hard_limits, Limits, normalized, object_key,
  object,
}
use cpa_plugin_privacyfilter.Payload.Normal.{AllBounded, normalized-Bounded}
use cpa_plugin_privacyfilter.Spans.Search.{IsDisjoint}
use cpa_plugin_privacyfilter.Engine.Rebuild.{masked}
use cpa_plugin_privacyfilter.Payload.Encode.{encode_string_context}
use cpa_plugin_privacyfilter.Payload.Encode.Grammar.{Reads}
use cpa_plugin_privacyfilter.Payload.Encode.Pieces.{Repairs}
use cpa_plugin_privacyfilter.Payload.Encode.RoundTrip.{
  encode_string_context-Reads, encode_string_context-eq-ok,
}
use cpa_plugin_privacyfilter.Payload.Splice.{StringEdit, splice}
use cpa_plugin_privacyfilter.Payload.Splice.Masked.{marked, splice-masked}
use cpa_plugin_privacyfilter.Payload.Replace.{Replacement, replace}
use cpa_plugin_privacyfilter.Payload.Replace.Requested.{Complete, Applied, replace-Complete}
use cpa_plugin_privacyfilter.Payload.Token.{StringToken, Document}
use cpa_plugin_privacyfilter.Payload.Scanner.Values.{scan, scan_within}
use cpa_plugin_privacyfilter.Payload.Scanner.Charged.{Retains, scan-Retains}

abbrev never : ℕ → Bool
never n = false

-- `{"a": "b"}`
abbrev body : Bytes
body = 123 ∷ 34 ∷ 97 ∷ 34 ∷ 58 ∷ 32 ∷ 34 ∷ 98 ∷ 34 ∷ 125 ∷ []

abbrev token_b : StringToken
token_b = record {
  value = 98 ∷ [];
  span = record { start = 6; stop = 9 };
  path = [];
  parent_kind = object;
  depth = 2;
  document = some 0;
  ordinal = 0;
  path_ref = some 0;
}

abbrev document : Document
document = record {
  number_of = 0;
  body = body;
  root_kind = object;
  root_span = record { start = 0; stop = 10 };
  limits = hard_limits;
  strings = token_b ∷ [];
  paths = record { parent = none; segment = object_key (97 ∷ []) } ∷ [];
  structural_bytes = 3074;
  node_count = 2;
}

scan_body : scan_within never 0 body hard_limits ≡ ok document
unfolding scan_within
scan_body = refl

-- `{"a":}` and `[[` fail where the scanner stands.
scan_missing :
    scan_within never 0 (123 ∷ 34 ∷ 97 ∷ 34 ∷ 58 ∷ 125 ∷ []) hard_limits ≡ failed (invalid_json 5)
unfolding scan_within
scan_missing = refl

scan_too_deep :
    scan_within never 0 (91 ∷ 91 ∷ 93 ∷ 93 ∷ []) (record hard_limits { max_depth = pos 1 })
    ≡ failed depth_limit
unfolding scan_within
scan_too_deep = refl

-- `[-1.5e3,"\u00e9"]`
abbrev numbers : Bytes
numbers = 91 ∷ 45 ∷ 49 ∷ 46 ∷ 53 ∷ 101 ∷ 51 ∷ 44 ∷ 34 ∷ 92 ∷ 117 ∷ 48 ∷ 48 ∷ 101 ∷ 57 ∷ 34 ∷ 93 ∷ []

abbrev values_of : Result Document → List Bytes
values_of (failed e) = []
values_of (ok d) = map (λ t. t.value) d.strings

scan_numbers : values_of (scan_within never 0 numbers hard_limits) ≡ (195 ∷ 169 ∷ []) ∷ []
unfolding scan_within
scan_numbers = refl

abbrev limits : Limits
limits = record hard_limits { max_depth = pos 0; max_nodes = pos 5 }

normal_limits : normalized limits ≡ ok (record hard_limits { max_nodes = pos 5 })
unfolding normalized
normal_limits = refl

normalized-Bounded_example : AllBounded limits (record hard_limits { max_nodes = pos 5 })
normalized-Bounded_example = normalized-Bounded limits normal_limits

-- A quote, a line feed, a byte that is no UTF-8, and U+2028.
abbrev odd_value : Bytes
odd_value = 34 ∷ 10 ∷ 255 ∷ 226 ∷ 128 ∷ 168 ∷ []

abbrev encoded_value : Bytes
encoded_value = 34 ∷ 92 ∷ 34 ∷ 92 ∷ 110 ∷ 239 ∷ 191 ∷ 189 ∷ 92 ∷ 117 ∷ 50 ∷ 48 ∷ 50 ∷ 56 ∷ 34 ∷ []

encode_value : encode_string_context never odd_value 0 ≡ (ok encoded_value, 1)
unfolding encode_string_context
encode_value = refl

encode_string_context-Reads_example :
    (s : Bytes) × (encoded_value ≡ 34 ∷ (s ++ (34 ∷ [])))
    × ((v : Bytes) × Repairs odd_value v × Reads s v)
encode_string_context-Reads_example = encode_string_context-Reads never odd_value 0 encode_value

encode_string_context-eq-ok_example :
    (out : Bytes) × (u : ℕ) × (encode_string_context never odd_value 0 ≡ (ok out, u))
    × ((s : Bytes) × (out ≡ 34 ∷ (s ++ (34 ∷ [])))
        × ((v : Bytes) × Repairs odd_value v × Reads s v))
encode_string_context-eq-ok_example = encode_string_context-eq-ok never (λ n. refl) odd_value 0

abbrev edit : StringEdit
edit = record { span = record { start = 6; stop = 9 }; encoded = 34 ∷ 88 ∷ 89 ∷ 34 ∷ [] }

-- `{"a": "XY"}`
abbrev changed_body : Bytes
changed_body = 123 ∷ 34 ∷ 97 ∷ 34 ∷ 58 ∷ 32 ∷ 34 ∷ 88 ∷ 89 ∷ 34 ∷ 125 ∷ []

splice_body : splice never body (edit ∷ []) 0 ≡ (ok changed_body, 4)
unfolding splice
splice_body = refl

splice-masked_example :
    IsDisjoint 0 10 (map (λ x. x.0) (map marked (edit ∷ [])))
    × (changed_body ≡ masked 0 body (map marked (edit ∷ [])))
splice-masked_example = splice-masked never body (edit ∷ []) 0 splice_body

abbrev replacement : Replacement
replacement = record {
  token = record token_b { path = object_key (97 ∷ []) ∷ [] };
  value = 88 ∷ 89 ∷ [];
}

replace_body : replace never document (replacement ∷ []) 0 ≡ (ok (changed_body, true), 10)
unfolding replace bytes_eq
replace_body = refl

replace-Complete_example :
    (es : List StringEdit) × Complete never document (replacement ∷ []) es
    × Applied never document es (changed_body, true)
replace-Complete_example = replace-Complete never document (replacement ∷ []) 0 replace_body

scan_fills_limits :
    scan never 0 body limits
    ≡ ok (record document { limits = record hard_limits { max_nodes = pos 5 } })
unfolding scan
scan_fills_limits = refl

scan-Retains_example :
    Retains (record document { limits = record hard_limits { max_nodes = pos 5 } })
scan-Retains_example = scan-Retains never 0 body limits scan_fills_limits
