-- ===== src/Walker/Registry.antt =====
-- walker/registry.go: the formats, and `Walk` from the scan of a body to its result, with
-- `validateRootControls` and `finish` of walker/common.go. `parseTree`, which reads the tokens of
-- encoding/json's decoder, is a function from a scanned document to its tree and the bytes that are
-- charged for it so far.
pub mod Disposed
pub mod Reached
pub mod OpenAi
pub mod Claude
pub mod Charged
use cpa_plugin_privacyfilter.Base.{
  ℕ, Bool, true, false, Option, none, some, List, [], ◌∷◌, ◌⊎◌, inl, inr, map, if◌then◌else◌, ◌==◌,
  Bytes, bytes_eq, length,
}
use cpa_plugin_privacyfilter.Base.Int.{ℤ, pos_part, sub_ℕ}
use cpa_plugin_privacyfilter.Base.Text.{codes}
use cpa_plugin_privacyfilter.Payload.{PayloadError, Result, ok, failed, Limits}
use cpa_plugin_privacyfilter.Payload.Token.{Document}
use cpa_plugin_privacyfilter.Payload.Scanner.Values.{scan_object_body}
use cpa_plugin_privacyfilter.Walker.{Target, UnsupportedShape, WalkError, walk_payload, walk_format}
use cpa_plugin_privacyfilter.Walker.Tree.{Node}
use cpa_plugin_privacyfilter.Walker.Steps.{Done}
use cpa_plugin_privacyfilter.Walker.Fields.{sort_keys}
use cpa_plugin_privacyfilter.Walker.Common.{validate_root_controls}
use cpa_plugin_privacyfilter.Walker.OpenAi.{walk_open_ai}
use cpa_plugin_privacyfilter.Walker.Responses.{walk_responses}
use cpa_plugin_privacyfilter.Walker.Claude.{walk_claude}
use cpa_plugin_privacyfilter.Walker.Gemini.{walk_gemini}
use cpa_plugin_privacyfilter.Walker.Interactions.{walk_interactions}
use cpa_plugin_privacyfilter.Walker.Collect.{
  Collector, new_collector, Outcome, stopped, going, ◌>=>◌, read_context, run, ensure, sort_targets,
}

pub data Protocol : Type 0 where
  open_ai open_ai_response claude gemini interactions : Protocol

-- `registryEntry`, with its name; the walk is `walk_of`.
pub record Entry : Type 0 where
  pub name : Bytes
  pub protocol : Protocol
  pub alias : Bool

-- `NewRegistry`
abbrev pub registry : List Entry
registry =
    record { name = codes "openai"; protocol = open_ai; alias = false }
    ∷ record { name = codes "openai-response"; protocol = open_ai_response; alias = false }
    ∷ record { name = codes "claude"; protocol = claude; alias = false }
    ∷ record { name = codes "gemini"; protocol = gemini; alias = false }
    ∷ record { name = codes "interactions"; protocol = interactions; alias = false }
    ∷ record { name = codes "gemini-cli"; protocol = interactions; alias = true }
    ∷ []

unfoldable pub entry_of : Bytes → List Entry → Option Entry
unfolding bytes_eq
entry_of format [] = none
entry_of format (e ∷ es) = if bytes_eq e.name format then some e else entry_of format es

-- `Lookup` and `Resolve`
unfoldable pub resolve : Bytes → List Entry → WalkError ⊎ Protocol
unfolding entry_of
resolve format entries = elim (entry_of format entries) [
  | none ↦ inl (walk_format format)
  | some e ↦ inr e.protocol
]

-- `Formats`
unfoldable pub formats : List Entry → List Bytes
unfolding sort_keys
formats entries = sort_keys (map (λ e. e.name) entries)

-- `IsAlias`
unfoldable pub is_alias : Bytes → List Entry → Bool
unfolding entry_of
is_alias format entries = elim (entry_of format entries) [ none ↦ false | some e ↦ e.alias ]

-- The walk of an entry.
unfoldable pub walk_of : Protocol → Node → Done
unfolding walk_open_ai walk_responses walk_claude walk_gemini walk_interactions
walk_of open_ai root = walk_open_ai root
walk_of open_ai_response root = walk_responses root
walk_of claude root = walk_claude root
walk_of gemini root = walk_gemini root
walk_of interactions root = walk_interactions root

-- `Result`; the protocol and the format are those of the call.
pub record WalkResult : Type 0 where
  pub document : Document
  pub targets : List Target
  pub skipped : ℤ
  pub opaque : ℕ
  pub unsupported_count : ℕ
  pub unsupported : List UnsupportedShape
  pub json_nodes : ℕ
  pub structural_bytes : ℕ

-- `finish`
unfoldable pub finish : Document → Collector → WalkResult
unfolding sort_targets
finish d c = record {
  document = d;
  targets = sort_targets c.selection.found;
  skipped = sub_ℕ (length d.strings) (length c.selection.found);
  opaque = length c.selection.opaque;
  unsupported_count = length c.selection.issues;
  unsupported = c.selection.issues;
  json_nodes = d.node_count;
  structural_bytes = c.used;
}

module _ (canceled : ℕ → Bool) (d : Document) where
  -- `Walk`, from the collector on.
  unfoldable pub walk_root : Protocol → Node → Collector → Outcome
  unfolding run ensure read_context walk_of validate_root_controls
  walk_root protocol root c =
      run canceled d (validate_root_controls root) c
      >=> run canceled d (walk_of protocol root)
      >=> ensure canceled d root
      >=> read_context canceled d

abbrev pub result_of : Document → Outcome → WalkError ⊎ WalkResult
unfolding sort_targets
result_of d (stopped e) = inl e
result_of d (going c) = inr (finish d c)

module _ (canceled : ℕ → Bool) (done : ℕ → Bool)
    (parse_tree : Document → WalkError ⊎ (Node × ℕ)) where
  -- `Walk`, from the document on.
  unfoldable pub walk_document : Protocol → Document → WalkError ⊎ WalkResult
  unfolding walk_root finish
  walk_document protocol d = elim (parse_tree d) [
    | inl e ↦ inl e
    | inr (root, used) ↦ result_of d (
        walk_root canceled d protocol root
          (new_collector used (pos_part d.limits.max_structural_bytes)))
  ]

  -- `Walk`, of a body as document number `n`
  unfoldable pub walk : Bytes → ℕ → Bytes → Limits → WalkError ⊎ WalkResult
  unfolding resolve scan_object_body walk_document
  walk format n body limits = elim (resolve format registry) [
    | inl e ↦ inl e
    | inr protocol ↦ elim (scan_object_body done n body limits) [
      | failed e ↦ inl (walk_payload e)
      | ok d ↦ walk_document protocol d
    ]
  ]
