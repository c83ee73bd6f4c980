-- ===== src/Secrets/Keys.antt =====
-- The names of credential fields, and the detector that takes a whole value by the name of its
-- field (internal/privacyengine/secrets.go; `FieldContext` of types.go).
pub mod Normal
use cpa_plugin_privacyfilter.Base.{
  ℕ, ◌+◌, min, Bool, true, false, not, ◌&&◌, ◌||◌, Option, none, some, List, [], ◌∷◌, map, ltb,
  ◌==◌, if◌then◌else◌, Bytes, bytes_eq, length, take,
}
use cpa_plugin_privacyfilter.Base.Int.{pos}
use cpa_plugin_privacyfilter.Base.Text.{codes, is_digit, is_upper, is_lower, any_of}
use cpa_plugin_privacyfilter.Spans.{secret, Candidate}

-- A byte that `normalizeCredentialFieldKey` writes differently.
abbrev pub is_folded : ℕ → Bool
is_folded c = is_upper c || c == 45

-- The byte that is written for it.
unfoldable pub fold_byte : ℕ → ℕ
fold_byte c = if is_upper c then c + 32 else if c == 45 then 95 else c

-- The first loop: whether a byte changes, or `none` at a byte that no key has.
unfoldable pub scan_key : Bytes → Option Bool
scan_key [] = some false
scan_key (c ∷ cs) =
    let rest : Option Bool = scan_key cs in
    if is_folded c
    then elim rest [ none ↦ none | some changed ↦ some true ]
    else if is_lower c || is_digit c || c == 95
    then rest
    else none

-- The end of the loop, and the second loop.
abbrev pub rewrite_key : Bytes → Option Bool → Bytes
rewrite_key key none = []
rewrite_key key (some false) = key
rewrite_key key (some true) = map fold_byte key

-- `normalizeCredentialFieldKey`
unfoldable pub normalize_credential_field_key : Bytes → Bytes
unfolding fold_byte scan_key
normalize_credential_field_key key =
    if length key == 0 || ltb 64 (length key) then [] else rewrite_key key (scan_key key)

-- The names in the `switch` of `isCredentialFieldKey`.
abbrev pub credential_names : List Bytes
credential_names =
    codes "ak"
    ∷ codes "sk"
    ∷ codes "api_key"
    ∷ codes "apikey"
    ∷ codes "api_secret"
    ∷ codes "apisecret"
    ∷ codes "api_secret_key"
    ∷ codes "apisecretkey"
    ∷ codes "access_key"
    ∷ codes "accesskey"
    ∷ codes "access_key_id"
    ∷ codes "accesskeyid"
    ∷ codes "secret_key"
    ∷ codes "secretkey"
    ∷ codes "secret_access_key"
    ∷ codes "secretaccesskey"
    ∷ codes "aws_access_key_id"
    ∷ codes "awsaccesskeyid"
    ∷ codes "aws_secret_access_key"
    ∷ codes "awssecretaccesskey"
    ∷ codes "client_secret"
    ∷ codes "clientsecret"
    ∷ codes "private_key"
    ∷ codes "privatekey"
    ∷ codes "token"
    ∷ codes "access_token"
    ∷ codes "accesstoken"
    ∷ codes "api_token"
    ∷ codes "apitoken"
    ∷ codes "auth_token"
    ∷ codes "authtoken"
    ∷ codes "refresh_token"
    ∷ codes "refreshtoken"
    ∷ codes "session_token"
    ∷ codes "sessiontoken"
    ∷ codes "id_token"
    ∷ codes "idtoken"
    ∷ codes "client_token"
    ∷ codes "clienttoken"
    ∷ codes "secret_token"
    ∷ codes "secrettoken"
    ∷ codes "bearer_token"
    ∷ codes "bearertoken"
    ∷ codes "oauth_token"
    ∷ codes "oauthtoken"
    ∷ codes "password"
    ∷ codes "passwd"
    ∷ codes "pwd"
    ∷ codes "credential"
    ∷ codes "secret"
    ∷ codes "secrets"
    ∷ codes "authorization"
    ∷ []

-- `isCredentialFieldKey`, and `IsCredentialFieldKey`
unfoldable pub is_credential_field_key : Bytes → Bool
unfolding normalize_credential_field_key any_of bytes_eq
is_credential_field_key key =
    any_of (bytes_eq (normalize_credential_field_key key)) credential_names

-- `isCredentialAncestorFieldKey`, and `IsCredentialAncestorFieldKey`
unfoldable pub is_credential_ancestor_field_key : Bytes → Bool
unfolding is_credential_field_key
is_credential_ancestor_field_key key =
    let normalized = normalize_credential_field_key key in
    not (bytes_eq normalized (codes "ak"))
    && not (bytes_eq normalized (codes "sk"))
    && is_credential_field_key normalized

pub data ToolScope : Type 0 where
  no_scope tool_scope_input tool_scope_output : ToolScope

-- The list stands for the array, whose other elements are empty.
pub record FieldContext : Type 0 where
  pub immediate_key : Bytes
  pub ancestors : List Bytes
  pub ancestor_count : ℕ
  pub tool_scope : ToolScope
  pub structured : Bool
  pub encoded : Bool

abbrev pub max_field_context_ancestors : ℕ
max_field_context_ancestors = 4

abbrev pub in_tool : ToolScope → Bool
in_tool no_scope = false
in_tool tool_scope_input = true
in_tool tool_scope_output = true

-- `credentialFieldApplies`, and `CredentialFieldApplies`
unfoldable pub credential_field_applies : FieldContext → Bool
unfolding is_credential_field_key is_credential_ancestor_field_key
credential_field_applies f =
    if not f.structured || not (in_tool f.tool_scope)
    then false
    else if is_credential_field_key f.immediate_key
    then true
    else any_of is_credential_ancestor_field_key
        (take (min f.ancestor_count max_field_context_ancestors) f.ancestors)

-- `detectCredentialField` under the guard of `detect`; the argument is `isCredentialPlaceholder`.
unfoldable pub detect_credential_field : (Bytes → Bool) → FieldContext → Bytes → List Candidate
unfolding credential_field_applies
detect_credential_field is_credential_placeholder f text =
    if not (credential_field_applies f) || is_credential_placeholder text
    then []
    else record {
      start = pos 0;
      stop = pos (length text);
      kind = secret;
      rule_id = codes "builtin.credential-field";
    }
      ∷ []
