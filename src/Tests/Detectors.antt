-- ===== src/Tests/Detectors.antt =====
-- The detectors on concrete inputs, with plain functions in the places of the expressions.
use cpa_plugin_privacyfilter.Base.{
  not, ◌&&◌, ℕ, ◌≤◌, ◌<◌, true, false, ◌||◌, none, some, List, [], ◌∷◌, ◌++◌, map, ◌≡◌, ◌≢◌, ◌↔◌,
  refl, ltb, leb, ◌%◌, Bytes, length, Any, arith, none-ne-some, sym, if◌then◌else◌,
}
use cpa_plugin_privacyfilter.Base.Int.{ℤ, pos}
use cpa_plugin_privacyfilter.Base.Text.{codes}
use cpa_plugin_privacyfilter.Budget.{
  take_node, remaining_findings, take_findings, Budget, new_budget_unchecked, default_limits,
}
use cpa_plugin_privacyfilter.Budget.Laws.{IsWithin}
use cpa_plugin_privacyfilter.Spans.{secret, accept, add}
use cpa_plugin_privacyfilter.Spans.Union.{covered, inside}
use cpa_plugin_privacyfilter.Spans.Collect.{any, add_all}
use cpa_plugin_privacyfilter.Engine.{Finding, found, detect, run_layers}
use cpa_plugin_privacyfilter.Engine.Detect.{candidates}
use cpa_plugin_privacyfilter.Matching.{match_visit, Regex, submatch_loop}
use cpa_plugin_privacyfilter.Matching.Bounds.{Finds, Emits}
use cpa_plugin_privacyfilter.Matching.Ends.{Ends}
use cpa_plugin_privacyfilter.Matching.Fuel.{submatch_loop_fuel}
use cpa_plugin_privacyfilter.Pii.{
  phone_visit, Patterns, luhn_valid, detect_pii, parse_ipv4, is_non_public_ipv4,
}
use cpa_plugin_privacyfilter.Pii.Luhn.{
  Digits, checksum, luhn_valid-checksum, luhn_valid-substitution,
}
use cpa_plugin_privacyfilter.Pii.Valid.{AllFind, Sound, detect_pii-Sound}
use cpa_plugin_privacyfilter.Secrets.Keys.{
  detect_credential_field, FieldContext, tool_scope_input, fold_byte,
  normalize_credential_field_key, is_credential_field_key, is_credential_ancestor_field_key,
}
use cpa_plugin_privacyfilter.Secrets.Keys.Normal.{
  is_credential_field_key-fold, is_credential_ancestor_field_key_lem,
}
use cpa_plugin_privacyfilter.Secrets.Noise.{Toolbox, is_uuid}
use cpa_plugin_privacyfilter.Secrets.Context.{
  has_secret_context, has_strong_secret_context, is_on_path_or_url_boundary,
}
use cpa_plugin_privacyfilter.Secrets.Context.Slices.{Returns, context-Returns}
use cpa_plugin_privacyfilter.Secrets.Tokens.{for_each_entropy_token}
use cpa_plugin_privacyfilter.Secrets.Tokens.Runs.{
  never, noted, note, IsToken, for_each_entropy_token-note,
}
use cpa_plugin_privacyfilter.Secrets.Rules.{SecretRule, detect_secrets}
use cpa_plugin_privacyfilter.Secrets.Rules.Valid.{InText, NoPanic, detect_secrets-InText}
use cpa_plugin_privacyfilter.Detectors.{request_of, detect-request_of}
use cpa_plugin_privacyfilter.Detectors
use cpa_plugin_privacyfilter.Payload.Context.{StringKeyContext}
use cpa_plugin_privacyfilter.Walker.{scope_tool_input}
use cpa_plugin_privacyfilter.Redactor.Fields.{engine_field_context, merge_string_key_contexts}
use cpa_plugin_privacyfilter.Redactor.Fields.Kept.{above, merge_string_key_contexts-applies, whole}
use mathlib.Core.List.{reverse}
use mathlib.Core.Option.{some_inj}

abbrev card : Bytes
card = codes "4012888888881881"

luhn_valid-checksum_example :
    (luhn_valid card ≡ true) ↔ ((card ≢ []) × Digits card × (checksum (reverse card) % 10 ≡ 0))
luhn_valid-checksum_example = luhn_valid-checksum card

card_passes : luhn_valid card ≡ true
unfolding luhn_valid
card_passes = refl

luhn_valid-substitution_example : luhn_valid (codes "401288888888188" ++ 50 ∷ []) ≡ false
luhn_valid-substitution_example =
    luhn_valid-substitution (codes "401288888888188") [] 49 50 card_passes (λ e. omega arith)

public_address : is_non_public_ipv4 (codes "8.8.8.8") ≡ false
unfolding is_non_public_ipv4
public_address = refl

private_address : is_non_public_ipv4 (codes "172.31.0.1") ≡ true
unfolding is_non_public_ipv4
private_address = refl

leading_zero : parse_ipv4 (codes "10.01.0.1") ≡ none
unfolding parse_ipv4
leading_zero = refl

uuid : is_uuid (codes "123e4567-e89b-12d3-a456-426614174000") ≡ true
unfolding is_uuid
uuid = refl

-- An expression that takes the whole text, and one that finds nothing.
abbrev all_of_it : Regex
all_of_it [] = none
all_of_it (c ∷ cs) = some (pos 0 ∷ pos (length (c ∷ cs)) ∷ [])

abbrev nothing : Regex
nothing text = none

bounds_of :
    (text : Bytes) (is : List ℤ)
    → all_of_it text ≡ some is
    → (a b : ℕ) × (rest : List ℤ) × (is ≡ pos a ∷ pos b ∷ rest) × (a < b) × (b ≤ length text)
bounds_of [] is e = absurd (none-ne-some e)
bounds_of (c ∷ cs) is e = (0, length (c ∷ cs), [], sym (some_inj.0 e), omega arith, omega arith)

all_of_it-Finds : Finds all_of_it
all_of_it-Finds = record { bounds = bounds_of }

nothing-Finds : Finds nothing
nothing-Finds = record { bounds = λ text is e. absurd (none-ne-some e) }

abbrev patterns_used : Patterns
patterns_used = record {
  email_address = nothing;
  phone_number = nothing;
  id_number = nothing;
  bank_number = all_of_it;
  ip_address = nothing;
}

patterns_used-AllFind : AllFind patterns_used
patterns_used-AllFind = record {
  email_finds = nothing-Finds;
  phone_finds = nothing-Finds;
  id_finds = nothing-Finds;
  bank_finds = all_of_it-Finds;
  ip_finds = nothing-Finds;
}

card_found : length (detect_pii never (λ t. t) patterns_used card 0).0 ≡ 1
unfolding detect_pii
card_found = refl

detect_pii-Sound_example : Emits (Sound card) (detect_pii never (λ t. t) patterns_used card)
detect_pii-Sound_example = detect_pii-Sound never (λ t. t) patterns_used card patterns_used-AllFind

same_fold : map fold_byte (codes "API-Key") ≡ map fold_byte (codes "api_key")
unfolding fold_byte
same_fold = refl

is_credential_field_key-fold_example :
    (is_credential_field_key (codes "API-Key") ≡ is_credential_field_key (codes "api_key"))
    × (is_credential_ancestor_field_key (codes "API-Key")
        ≡ is_credential_ancestor_field_key (codes "api_key"))
is_credential_field_key-fold_example =
    is_credential_field_key-fold (codes "API-Key") (codes "api_key") same_fold

is_credential_ancestor_field_key_lem_example :
    (is_credential_ancestor_field_key (codes "Token") ≡ true) ↔ (
      (is_credential_field_key (codes "Token") ≡ true)
      × (normalize_credential_field_key (codes "Token") ≢ codes "ak")
      × (normalize_credential_field_key (codes "Token") ≢ codes "sk"))
is_credential_ancestor_field_key_lem_example = is_credential_ancestor_field_key_lem (codes "Token")

-- A keyword that reaches into the token: the bounds of "key" and what follows it.
abbrev keyed : Bytes
keyed = codes "api keyABCDEFGHIJKLMNOPQRSTUVWXYZ"

abbrev tools : Toolbox ℕ
tools = record {
  to_lower = λ t. t;
  to_upper = λ t. t;
  trim_space = λ t. t;
  shannon_entropy = length;
  below = ltb;
  zero_point = 0;
  short_min = 3;
  entropy_min = 4;
  entropy_min_strict = 5;
  template_var = λ t. false;
  simple_var = λ t. false;
  credential_placeholder = λ t. false;
  host_port_prefix = λ t. false;
  auth_header_prefix = λ t. false;
  secret_context = λ t. if leb 8 (length t) then some (0, 8) else none;
  context_secret = nothing;
}

strong_overlap : has_strong_secret_context tools keyed (pos 4) (pos 33) ≡ some true
unfolding has_strong_secret_context
strong_overlap = refl

context-Returns_example :
    Returns (has_secret_context tools keyed (pos 4) (pos 33))
    × Returns (has_strong_secret_context tools keyed (pos 4) (pos 33))
    × Returns (is_on_path_or_url_boundary keyed (pos 4) (pos 33))
context-Returns_example = context-Returns tools keyed (pos 4) (pos 33)

for_each_entropy_token-note_example :
    Any (λ k. k ≡ noted 4 33) (for_each_entropy_token never note keyed 0).0 ↔ IsToken keyed 4 33
for_each_entropy_token-note_example = for_each_entropy_token-note keyed 4 33 0

abbrev rule_used : SecretRule ℕ
rule_used = record {
  id = codes "rule";
  re = all_of_it;
  keywords = codes "key" ∷ [];
  entropy = 4;
  secret_group = 0;
  automatic_capture = true;
  allowlists = [];
}

secret_found : length (detect_secrets tools never [] (rule_used ∷ []) keyed 0).0 ≡ 2
unfolding detect_secrets
secret_found = refl

detect_secrets-InText_example :
    Emits (InText keyed) (detect_secrets tools never [] (rule_used ∷ []) keyed)
    × Ends NoPanic (detect_secrets tools never [] (rule_used ∷ []) keyed)
detect_secrets-InText_example = detect_secrets-InText tools never [] (rule_used ∷ []) keyed

abbrev engine_used : Detectors.Detectors ℕ
engine_used = record {
  toolbox = tools;
  patterns = patterns_used;
  rules = rule_used ∷ [];
  global_allowlists = [];
}

abbrev no_field : FieldContext
no_field = record {
  immediate_key = [];
  ancestors = [];
  ancestor_count = 0;
  tool_scope = tool_scope_input;
  structured = false;
  encoded = false;
}

abbrev fresh_budget : Budget
fresh_budget = new_budget_unchecked default_limits

abbrev whole_text : List Finding
whole_text = record { start = 0; stop = 33; kind = secret; rule_id = codes "rule" } ∷ []

detected :
    (detect (request_of engine_used never false [] no_field) keyed fresh_budget).1
    ≡ found whole_text
unfolding detect request_of take_node run_layers add_all add remaining_findings take_findings
detected = refl

fresh_budget-IsWithin : IsWithin fresh_budget
fresh_budget-IsWithin = omega arith

detect-request_of_example :
    covered 7 whole_text
    ≡ any
        (λ k. inside 7 (accept k))
        (candidates (request_of engine_used never false [] no_field) keyed)
detect-request_of_example =
    detect-request_of engine_used never [] no_field keyed false fresh_budget patterns_used-AllFind
      refl fresh_budget-IsWithin detected 7

submatch_loop_fuel_example :
    submatch_loop never all_of_it card (match_visit (phone_visit card)) 18 0
    ≡ submatch_loop never all_of_it card (match_visit (phone_visit card)) 40 0
submatch_loop_fuel_example =
    submatch_loop_fuel never all_of_it card (match_visit (phone_visit card)) 18 40 0 (omega arith)
      (omega arith)

-- Four names are there, and the outer key is the first that names a credential.
abbrev inner_keys : StringKeyContext
inner_keys = record {
  immediate_key = codes "v";
  ancestors = codes "a" ∷ codes "b" ∷ codes "c" ∷ codes "d" ∷ [];
  ancestor_count = 4;
}

abbrev outer_keys : StringKeyContext
outer_keys = record {
  immediate_key = codes "password";
  ancestors = codes "token" ∷ [];
  ancestor_count = 1;
}

merge_string_key_contexts-applies_example :
    detect_credential_field
      (λ text. false)
      (engine_field_context (record {
        fields = merge_string_key_contexts inner_keys outer_keys;
        tool_scope = some scope_tool_input;
        structured = true;
        encoded = true;
      }))
      (codes "hunter2")
    ≡ (if not false
          && (is_credential_field_key (codes "v")
              || (above inner_keys
                  || is_credential_ancestor_field_key (codes "password")
                  || above outer_keys))
        then whole (codes "hunter2") ∷ []
        else [])
merge_string_key_contexts-applies_example =
    merge_string_key_contexts-applies inner_keys outer_keys (some scope_tool_input) true refl
      (λ text. false) (codes "hunter2")

password_kept :
    (merge_string_key_contexts inner_keys outer_keys).ancestors
    ≡ codes "a" ∷ codes "b" ∷ codes "c" ∷ codes "password" ∷ []
unfolding merge_string_key_contexts
password_kept = refl
