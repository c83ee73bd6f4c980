-- ===== src/Tests/Walkers.antt =====
-- The walks of requests on a chat completions request and a messages request.
use cpa_plugin_privacyfilter.Base.{
  ℕ, ◌<◌, true, false, none, some, [], ◌∷◌, map, ◌≡◌, refl, ◌⊎◌, inl, Bytes, length, All, Any,
  arith,
}
use cpa_plugin_privacyfilter.Base.Text.{codes}
use cpa_plugin_privacyfilter.Payload.{object, Span, hard_limits}
use cpa_plugin_privacyfilter.Payload.Token.{Document, StringToken}
use cpa_plugin_privacyfilter.Walker.{scope_user, scope_assistant, natural_text}
use cpa_plugin_privacyfilter.Walker.Tree.{
  TreeString, Node, string_node, object_node, array_node, no_members, member, Members, no_nodes,
  item, Nodes, starts_of,
}
use cpa_plugin_privacyfilter.Walker.Steps.{◌>>=◌}
use cpa_plugin_privacyfilter.Walker.Fields.{optional_of}
use cpa_plugin_privacyfilter.Walker.Collect.{
  Collector, new_collector, Outcome, stopped, going, has_start,
}
use cpa_plugin_privacyfilter.Walker.Collect.Apart.{exactly_one, target_start}
use cpa_plugin_privacyfilter.Walker.Reached.{IsTarget}
use cpa_plugin_privacyfilter.Walker.Registry.{open_ai, claude, walk_root}
use cpa_plugin_privacyfilter.Walker.Registry.Disposed.{walk_root-Disposes}
use cpa_plugin_privacyfilter.Walker.Registry.OpenAi.{walk_root-IsTarget}
use cpa_plugin_privacyfilter.Walker.Collect.Charged.{IsCharged}
use cpa_plugin_privacyfilter.Walker.Registry.Charged.{walk_root-IsCharged}
use cpa_plugin_privacyfilter.Walker.Registry.Claude.{walk_root-Says}

abbrev at : ℕ → ℕ → Span
at start stop = record { start = start; stop = stop }

abbrev read : Bytes → ℕ → ℕ → ℕ → TreeString
read value start stop ordinal = record { value = value; span = at start stop; ordinal = ordinal }

abbrev token : Bytes → ℕ → ℕ → ℕ → StringToken
token value start stop ordinal = record {
  value = value;
  span = at start stop;
  path = [];
  parent_kind = object;
  depth = 2;
  document = some 1;
  ordinal = ordinal;
  path_ref = none;
}

-- {"model":"m","messages":[{"role":"user","content":"hi"}]}
abbrev request : Document
request = record {
  number_of = 1;
  body = codes "{}";
  root_kind = object;
  root_span = at 0 57;
  limits = hard_limits;
  strings =
      token (codes "m") 9 12 0 ∷ token (codes "user") 33 39 1 ∷ token (codes "hi") 50 54 2 ∷ [];
  paths = [];
  structural_bytes = 0;
  node_count = 6;
}

abbrev content : TreeString
content = read (codes "hi") 50 54 2

abbrev message : Members
message =
    member (codes "role") (string_node [] (read (codes "user") 33 39 1))
      (member (codes "content") (string_node [] content) no_members)

abbrev messages : Nodes
messages = item (object_node [] message) no_nodes

abbrev members : Members
members =
    member (codes "model") (string_node [] (read (codes "m") 9 12 0))
      (member (codes "messages") (array_node [] messages) no_members)

abbrev root : Node
root = object_node [] members

abbrev walked : Outcome
unfolding walk_root ◌>>=◌
walked = walk_root (λ n. false) request open_ai root (new_collector 0 10000)

abbrev collected : Outcome → Collector
collected (going c) = c
collected (stopped e) = new_collector 0 0

-- The content is the target; the model and the role are opaque.
walked_targets : map target_start (collected walked).selection.found ≡ 50 ∷ []
unfolding walk_root ◌>>=◌
walked_targets = refl

walked-going : walked ≡ going (collected walked)
unfolding walk_root ◌>>=◌
walked-going = refl

walk_root-Disposes_example :
    All
      (λ s.
        exactly_one
          (has_start s (collected walked).selection.targets)
          (has_start s (collected walked).selection.opaque)
          (has_start s (collected walked).selection.rejected)
        ≡ true)
      (starts_of root)
    × ((s : ℕ)
        → has_start s (collected walked).selection.targets
          ≡ has_start s (map target_start (collected walked).selection.found))
    × (((collected walked).selection.rejected ≡ [])
        ⊎ (0 < length (collected walked).selection.issues))
unfolding walk_root ◌>>=◌
walk_root-Disposes_example =
    walk_root-Disposes (λ n. false) request open_ai root 0 10000 (collected walked) walked-going

walk_root-IsTarget_example :
    Any (IsTarget content scope_user natural_text) (collected walked).selection.found
unfolding walk_root ◌>>=◌
walk_root-IsTarget_example =
    walk_root-IsTarget [] [] members messages refl [] message (inl refl) [] []
      (read (codes "user") 33 39 1) content (string_node [] content) scope_user refl refl refl refl
      (λ n. false) request (new_collector 0 10000) (collected walked) walked-going

walk_root-IsCharged_example : IsCharged 0 10000 0 0 (collected walked)
unfolding walk_root ◌>>=◌
walk_root-IsCharged_example =
    walk_root-IsCharged (λ n. false) request 0 10000 open_ai root (collected walked) (omega arith)
      walked-going

-- {"messages":[{"role":"assistant","content":[{"type":"text","text":"hi"}]}]}
abbrev block : Members
block =
    member (codes "type") (string_node [] (read (codes "text") 51 57 1))
      (member (codes "text") (string_node [] (read (codes "hi") 65 69 2)) no_members)

abbrev block_content : Node
block_content = array_node [] (item (object_node [] block) no_nodes)

abbrev claude_message : Members
claude_message =
    member (codes "role") (string_node [] (read (codes "assistant") 21 32 0))
      (member (codes "content") block_content no_members)

abbrev claude_messages : Nodes
claude_messages = item (object_node [] claude_message) no_nodes

abbrev claude_members : Members
claude_members = member (codes "messages") (array_node [] claude_messages) no_members

abbrev claude_request : Document
claude_request = record request {
  strings =
      token (codes "assistant") 21 32 0
      ∷ token (codes "text") 51 57 1
      ∷ token (codes "hi") 65 69 2
      ∷ [];
}

abbrev claude_walked : Outcome
unfolding walk_root ◌>>=◌
claude_walked =
    walk_root (λ n. false) claude_request claude (object_node [] claude_members)
      (new_collector 0 10000)

claude_walked-going : claude_walked ≡ going (collected claude_walked)
unfolding walk_root optional_of ◌>>=◌
claude_walked-going = refl

walk_root-Says_example :
    Any
      (IsTarget (read (codes "hi") 65 69 2) scope_assistant natural_text)
      (collected claude_walked).selection.found
unfolding walk_root ◌>>=◌
walk_root-Says_example =
    walk_root-Says [] [] claude_members claude_messages refl [] claude_message (inl refl) [] []
      (read (codes "assistant") 21 32 0) (read (codes "hi") 65 69 2) block_content scope_assistant
      refl refl refl
      (inl (record {
        place = [];
        fields = block;
        type_path = [];
        block_type = read (codes "text") 51 57 1;
        is_node = refl;
        has_type = refl;
        is_text = refl;
        has_text = refl;
      }))
      (λ n. false) claude_request (new_collector 0 10000) (collected claude_walked)
      claude_walked-going
