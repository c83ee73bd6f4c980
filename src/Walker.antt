-- ===== src/Walker.antt =====
-- walker/types.go: what a walk of a request selects, and how it fails. The children are the tree, the
-- steps of a walk, the collector that runs them, and the protocols.
pub mod Tree
pub mod Steps
pub mod Fields
pub mod Common
pub mod OpenAi
pub mod Claude
pub mod Gemini
pub mod Interactions
pub mod Responses
pub mod Collect
pub mod Reached
pub mod Deep
pub mod Registry
use cpa_plugin_privacyfilter.Base.{ℕ, Bool, Option, List, Bytes}
use cpa_plugin_privacyfilter.Payload.{PayloadError, Kind}
use cpa_plugin_privacyfilter.Payload.Token.{JsonPath, StringToken}
use cpa_plugin_privacyfilter.Payload.Context.{StringKeyContext}

pub data Scope : Type 0 where
  scope_system scope_user scope_assistant scope_tool_input scope_tool_output : Scope

pub data TargetKind : Type 0 where
  natural_text encoded_json json_value tool_output code_text execution_output : TargetKind

-- `Mutability`; `MutabilityInvalid` is made nowhere.
pub data Mutability : Type 0 where
  direct mutable_encoded_json json_or_plain : Mutability

-- `TargetContext`; no tool scope is the empty string.
pub record TargetContext : Type 0 where
  pub fields : StringKeyContext
  pub tool_scope : Option Scope
  pub structured : Bool
  pub encoded : Bool

pub record Target : Type 0 where
  pub token : StringToken
  pub path : JsonPath
  pub scope : Scope
  pub kind : TargetKind
  pub mutable : Mutability
  pub context : TargetContext

-- The text of an issue: as it is, or a prefix and a quoted value.
pub data Detail : Type 0 where
  plain : Bytes → Detail
  quoted : Bytes → Bytes → Detail

pub record UnsupportedShape : Type 0 where
  pub path : JsonPath
  pub detail : Detail

-- The errors of a walk. `ShapeError` has the path, what is expected, the actual kind and a detail;
-- `AmbiguityError` the path and the keys.
pub data WalkError : Type 0 where
  walk_payload : PayloadError → WalkError
  walk_canceled : WalkError
  walk_internal : WalkError
  walk_format : Bytes → WalkError
  walk_shape : JsonPath → Bytes → Kind → Bytes → WalkError
  walk_ambiguous : JsonPath → List Bytes → WalkError
