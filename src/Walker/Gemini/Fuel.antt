-- ===== src/Walker/Gemini/Fuel.antt =====
-- The fuel of `walk_gemini_part` is enough: more than the part is deep changes nothing.
use cpa_plugin_privacyfilter.Base.{
  ℕ, zero, suc, ◌≤◌, ◌<◌, Bool, true, if◌then◌else◌, All-map, ◌≡◌, refl, arith,
}
use cpa_plugin_privacyfilter.Base.Text.{codes}
use cpa_plugin_privacyfilter.Walker.{Scope, scope_tool_output}
use cpa_plugin_privacyfilter.Walker.Tree.{
  Node, string_node, object_node, array_node, number_node, boolean_node, null_node, is_array,
  elements, depth_of,
}
use cpa_plugin_privacyfilter.Walker.Steps.{Done, each}
use cpa_plugin_privacyfilter.Walker.Fields.{shape}
use cpa_plugin_privacyfilter.Walker.Gemini.Parts.{
  walk_function_response, walk_known_parts, walk_part_with, walk_gemini_part,
}
use cpa_plugin_privacyfilter.Walker.Deep.{
  depth_pos, elements_shallow, bind_cong, bind_left, each_cong, field_deep, with_field_deep,
}

module _ (w w' : Node → Done) where
  parts_agree :
      (n : Node)
      → ((p : Node) → depth_of p < depth_of n → w p ≡ w' p)
      → (if is_array n
          then each (elements n) w
          else shape n (codes "array") (codes "functionResponse parts"))
        ≡ (if is_array n
            then each (elements n) w'
            else shape n (codes "array") (codes "functionResponse parts"))
  parts_agree (array_node path items) h = each_cong (elements (array_node path items)) w w' (
      All-map (λ v l. h v l) (elements (array_node path items))
        (elements_shallow (array_node path items)))
  parts_agree (string_node path token) h = refl
  parts_agree (object_node path ms) h = refl
  parts_agree (number_node path) h = refl
  parts_agree (boolean_node path b) h = refl
  parts_agree (null_node path) h = refl

  response_agrees :
      (n : Node)
      → ((p : Node) → depth_of p < depth_of n → w p ≡ w' p)
      → walk_function_response w n ≡ walk_function_response w' n
  unfolding walk_function_response
  response_agrees (object_node path ms) h = bind_cong _ _ _ λ u. bind_cong _ _ _ λ u.
      bind_cong _ _ _ λ u. bind_cong _ _ _ λ u.
        with_field_deep (object_node path ms) (codes "parts") _ _
          λ v l. parts_agree v (λ p m. h p (omega arith))
  response_agrees (string_node path token) h = refl
  response_agrees (array_node path items) h = refl
  response_agrees (number_node path) h = refl
  response_agrees (boolean_node path b) h = refl
  response_agrees (null_node path) h = refl

  known_agree :
      (part : Node) (scope : Scope) (recognized : Bool)
      → ((p : Node) → depth_of p < depth_of part → w p ≡ w' p)
      → walk_known_parts w part scope recognized ≡ walk_known_parts w' part scope recognized
  unfolding walk_known_parts
  known_agree part scope recognized h = bind_cong _ _ _ λ call. bind_cong _ _ _ λ u.
      field_deep part (codes "functionResponse") _ _ refl λ v l.
        bind_left (walk_function_response w v) (walk_function_response w' v) _
          (response_agrees v (λ p m. h p (omega arith)))

  part_agrees :
      (part : Node) (scope : Scope) (role_ok : Bool)
      → ((p : Node) → depth_of p < depth_of part → w p ≡ w' p)
      → walk_part_with w part scope role_ok ≡ walk_part_with w' part scope role_ok
  unfolding walk_part_with
  part_agrees (object_node path ms) scope role_ok h = bind_cong _ _ _ λ u. bind_cong _ _ _ λ u.
      bind_cong _ _ _ λ u. bind_cong _ _ _ λ u. bind_cong _ _ _ λ thought.
        bind_cong _ _ _ λ signature. bind_cong _ _ _ λ media.
          bind_cong _ _ _ λ text. bind_cong _ _ _ λ u. known_agree (object_node path ms) scope _ h
  part_agrees (string_node path token) scope role_ok h = refl
  part_agrees (array_node path items) scope role_ok h = refl
  part_agrees (number_node path) scope role_ok h = refl
  part_agrees (boolean_node path b) scope role_ok h = refl
  part_agrees (null_node path) scope role_ok h = refl

-- Any two amounts of fuel that are no less than the depth of a part give the same walk of it, whatever
-- parts are nested in its function responses.
pub walk_gemini_part_fuel :
    (j k : ℕ) (part : Node) (scope : Scope) (role_ok : Bool)
    → depth_of part ≤ j
    → depth_of part ≤ k
    → walk_gemini_part j part scope role_ok ≡ walk_gemini_part k part scope role_ok
unfolding walk_gemini_part
walk_gemini_part_fuel zero k part scope role_ok h l = absurd (omega (arith, depth_pos part))
walk_gemini_part_fuel (suc j) zero part scope role_ok h l = absurd (omega (arith, depth_pos part))
walk_gemini_part_fuel (suc j) (suc k) part scope role_ok h l =
    part_agrees (λ p. walk_gemini_part j p scope_tool_output true)
      (λ p. walk_gemini_part k p scope_tool_output true) part scope role_ok
      (λ p m. walk_gemini_part_fuel j k p scope_tool_output true (omega arith) (omega arith))
