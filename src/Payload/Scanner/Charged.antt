-- ===== src/Payload/Scanner/Charged.antt =====
-- What a document retains is within the limit that it was scanned with.
use cpa_plugin_privacyfilter.Base.{
  ℕ, zero, suc, ◌+◌, Bool, not, ◌||◌, Option, none, some, List, [], ◌∷◌, ◌≡◌, refl, ◌==◌, Bytes,
  length, arith, Bool-cases, inl, inr, subst, ◌*◌, ◌≤◌,
}
use cpa_plugin_privacyfilter.Base.Text.{is_digit}
use cpa_plugin_privacyfilter.Base.Int.{pos, ltb_ℤ, ◌≤ℤ◌, ◌<ℤ◌, pos_part}
use cpa_plugin_privacyfilter.Payload.{
  Result, Result-cases, ok, failed, Step, return, Limits, continue, object_key, array_index, Kind,
  Span, object, array, invalid,
}
use cpa_plugin_privacyfilter.Payload.Token.{StringToken}
use cpa_plugin_privacyfilter.Payload.Scanner.{Scanner, new_scanner, modify}
use cpa_plugin_privacyfilter.Payload.Scanner.Numbers.{next_is}
use cpa_plugin_privacyfilter.Payload.Scanner.Values.{
  on_first, child_value, members, elements, scan_object, scan_array, of_kind, scan_string, dispatch,
  enter_value, value, scan_json,
}
use cpa_plugin_privacyfilter.Payload.Scanner.Bounds.{
  Within, Keeps, bind-Keeps, if-Keeps, advance-Keeps, append_path-Keeps, append_string-Keeps,
}
use cpa_plugin_privacyfilter.Payload.{string, boolean, null, depth_limit, node_limit, normalized}
use cpa_plugin_privacyfilter.Payload.Normal.{normalized-Bounded}
use cpa_plugin_privacyfilter.Payload.Token.{Document}
use cpa_plugin_privacyfilter.Payload.Scanner.Values.{number_tokens, document_of, scan_within, scan}
use cpa_plugin_privacyfilter.Payload.Scanner.Retained.{
  return-Keeps, fail_here-Keeps, get-Keeps, check_now-Keeps, when-Keeps, string_value-Keeps,
  skip_whitespace-Keeps, literal-Keeps, number-Keeps, refuse_if-Keeps, expect-Keeps,
}

left_child :
    {l : Limits} (r : Result Kind × Scanner) (path : Option ℕ)
    → Within l r.1
    → Within l
        (continue {A = Kind} {B = Unit {0}} (λ _. return tt) (r.0, record (r.1) { path = path })).1
left_child (failed e, t) path w = record {
  bounded = w.bounded;
  paths_fit = w.paths_fit;
  strings_fit = w.strings_fit;
  charged = w.charged;
}
left_child (ok k, t) path w = record {
  bounded = w.bounded;
  paths_fit = w.paths_fit;
  strings_fit = w.strings_fit;
  charged = w.charged;
}

module _ (done : ℕ → Bool) (l : Limits) where
  child_value-Keeps :
      (child : ℕ) {scan : Step Scanner Kind}
      → Keeps l scan
      → Keeps l (child_value done l child scan)
  child_value-Keeps child {scan} k = record {
    keep = λ s w. left_child (scan (record s { path = some child })) s.path (
        k.keep (record s { path = some child })
          (record {
            bounded = w.bounded;
            paths_fit = w.paths_fit;
            strings_fit = w.strings_fit;
            charged = w.charged;
          }));
  }

  members-Keeps :
      (fuel : ℕ) {scan : Step Scanner Kind} → Keeps l scan → Keeps l (members done l fuel scan)
  unfolding members
  members-Keeps zero k = fail_here-Keeps
  members-Keeps (suc fuel) k = bind-Keeps (expect-Keeps done l (λ c. c == 34)) (λ _.
      bind-Keeps (string_value-Keeps done l) (λ key. bind-Keeps (skip_whitespace-Keeps done l) (λ _.
        bind-Keeps (expect-Keeps done l (λ c. c == 58)) (λ _. bind-Keeps (advance-Keeps 1) (λ _.
          bind-Keeps (skip_whitespace-Keeps done l) (λ _.
            bind-Keeps (append_path-Keeps (object_key key) (length key)) (λ child.
              bind-Keeps (child_value-Keeps child k) (λ _.
                bind-Keeps (skip_whitespace-Keeps done l) (λ _. bind-Keeps (get-Keeps done l) (λ u.
                  if-Keeps (next_is (λ c. c == 125) u) (advance-Keeps 1) (
                    if-Keeps (next_is (λ c. c == 44) u)
                      (bind-Keeps (advance-Keeps 1) (λ _.
                        bind-Keeps (skip_whitespace-Keeps done l) (λ _. members-Keeps fuel k)))
                      fail_here-Keeps)))))))))))

  elements-Keeps :
      (fuel index : ℕ) {scan : Step Scanner Kind}
      → Keeps l scan
      → Keeps l (elements done l fuel index scan)
  unfolding elements
  elements-Keeps zero index k = fail_here-Keeps
  elements-Keeps (suc fuel) index k =
      bind-Keeps (append_path-Keeps (array_index (pos index)) 0) (λ child.
        bind-Keeps (child_value-Keeps child k) (λ _. bind-Keeps (skip_whitespace-Keeps done l) (λ _.
          bind-Keeps (get-Keeps done l) (λ u.
            if-Keeps (next_is (λ c. c == 93) u) (advance-Keeps 1) (
              if-Keeps (next_is (λ c. c == 44) u)
                (bind-Keeps (advance-Keeps 1) (λ _.
                  bind-Keeps (skip_whitespace-Keeps done l)
                    (λ _. elements-Keeps fuel (suc index) k)))
                fail_here-Keeps)))))

  scan_object-Keeps : {scan : Step Scanner Kind} → Keeps l scan → Keeps l (scan_object done l scan)
  unfolding scan_object
  scan_object-Keeps k = bind-Keeps (advance-Keeps 1) (λ _.
      bind-Keeps (skip_whitespace-Keeps done l) (λ _. bind-Keeps (get-Keeps done l) (λ s.
        if-Keeps (next_is (λ c. c == 125) s) (advance-Keeps 1) (members-Keeps (length s.rest) k))))

  scan_array-Keeps : {scan : Step Scanner Kind} → Keeps l scan → Keeps l (scan_array done l scan)
  unfolding scan_array
  scan_array-Keeps k = bind-Keeps (advance-Keeps 1) (λ _.
      bind-Keeps (skip_whitespace-Keeps done l) (λ _. bind-Keeps (get-Keeps done l) (λ s.
        if-Keeps (next_is (λ c. c == 93) s) (advance-Keeps 1)
          (elements-Keeps (length s.rest) 0 k))))

  scan_string-Keeps : (depth : ℕ) (parent : Kind) → Keeps l (scan_string done l depth parent)
  unfolding scan_string
  scan_string-Keeps depth parent = bind-Keeps (get-Keeps done l) (λ s.
      bind-Keeps (string_value-Keeps done l) (λ text. bind-Keeps (get-Keeps done l) (λ t.
        append_string-Keeps (record {
          value = text;
          span = record { start = s.position; stop = t.position };
          path = [];
          parent_kind = parent;
          depth = depth;
          document = none;
          ordinal = 0;
          path_ref = t.path;
        }))))

  of_kind-Keeps :
      (k : Kind) {m : Step Scanner (Unit {0})} → Keeps l m → Keeps l (of_kind done l k m)
  of_kind-Keeps k h = bind-Keeps h (λ _. return-Keeps k)

  dispatch-Keeps :
      {child : Kind → Step Scanner Kind} (depth : ℕ) (parent : Kind) (c : ℕ)
      → ((k : Kind) → Keeps l (child k))
      → Keeps l (dispatch done l child depth parent c)
  unfolding dispatch
  dispatch-Keeps depth parent c h =
      if-Keeps (c == 123) (of_kind-Keeps object (scan_object-Keeps (h object))) (
        if-Keeps (c == 91) (of_kind-Keeps array (scan_array-Keeps (h array))) (
          if-Keeps (c == 34) (of_kind-Keeps string (scan_string-Keeps depth parent)) (
            if-Keeps (c == 116)
              (of_kind-Keeps boolean (literal-Keeps done l (116 ∷ 114 ∷ 117 ∷ 101 ∷ [])))
              (if-Keeps (c == 102)
                (of_kind-Keeps boolean (literal-Keeps done l (102 ∷ 97 ∷ 108 ∷ 115 ∷ 101 ∷ [])))
                (if-Keeps (c == 110)
                  (of_kind-Keeps null (literal-Keeps done l (110 ∷ 117 ∷ 108 ∷ 108 ∷ [])))
                  (if-Keeps (c == 45 || is_digit c)
                    (of_kind-Keeps Kind.number (number-Keeps done l)) fail_here-Keeps))))))

  count-Keeps : Keeps l (modify (λ s. record s { nodes = suc s.nodes }))
  count-Keeps = record {
    keep = λ s w. record {
      bounded = w.bounded;
      paths_fit = w.paths_fit;
      strings_fit = w.strings_fit;
      charged = w.charged;
    };
  }

  enter_value-Keeps : (depth : ℕ) → Keeps l (enter_value done l depth)
  unfolding enter_value
  enter_value-Keeps depth = bind-Keeps (check_now-Keeps done l) (λ _.
      bind-Keeps (refuse_if-Keeps done l (ltb_ℤ l.max_depth (pos depth)) depth_limit) (λ _.
        bind-Keeps count-Keeps (λ _.
          bind-Keeps (get-Keeps done l)
            (λ s. refuse_if-Keeps done l (ltb_ℤ l.max_nodes (pos s.nodes)) node_limit))))

  on_first-Keeps :
      {f : ℕ → Step Scanner Kind} (rest : Bytes)
      → ((c : ℕ) → Keeps l (f c))
      → Keeps l (on_first f rest)
  on_first-Keeps [] h = fail_here-Keeps
  on_first-Keeps (c ∷ rest) h = h c

  value-Keeps : (fuel depth : ℕ) (parent : Kind) → Keeps l (value done l fuel depth parent)
  unfolding value
  value-Keeps zero depth parent = record { keep = λ s w. w }
  value-Keeps (suc fuel) depth parent = bind-Keeps (enter_value-Keeps depth) (λ _.
      bind-Keeps (get-Keeps done l) (λ s.
        on_first-Keeps s.rest
          (λ c. dispatch-Keeps depth parent c (λ k. value-Keeps fuel (suc depth) k))))

  scan_json-Keeps : Keeps l (scan_json done l)
  unfolding scan_json
  scan_json-Keeps = bind-Keeps (skip_whitespace-Keeps done l) (λ _.
      bind-Keeps (get-Keeps done l) (λ s.
        bind-Keeps (when-Keeps done l (length s.rest == 0) fail_here-Keeps) (λ _.
          bind-Keeps (value-Keeps (pos_part l.max_depth + 1) 1 invalid) (λ kind.
            bind-Keeps (get-Keeps done l) (λ t. bind-Keeps (skip_whitespace-Keeps done l) (λ _.
              bind-Keeps (get-Keeps done l) (λ u.
                bind-Keeps (when-Keeps done l (not (length u.rest == 0)) fail_here-Keeps) (λ _.
                  bind-Keeps (check_now-Keeps done l) (λ _.
                    return-Keeps (kind, record { start = s.position; stop = t.position }))))))))))

length-number_tokens :
    (document i : ℕ) (ts : List StringToken) → length (number_tokens document i ts) ≡ length ts
unfolding number_tokens
length-number_tokens document i [] = refl
length-number_tokens document i (t ∷ ts) = omega (arith, length-number_tokens document (suc i) ts)

-- What a document retains: 64 bytes for a path node and 128 for a string are covered by the bytes
-- that were charged, which are within the limit.
abbrev pub Retains : Document → Type 0
Retains d =
    (length d.paths * 64 + length d.strings * 128 ≤ d.structural_bytes)
    × (pos d.structural_bytes ≤ℤ d.limits.max_structural_bytes)

document_of-Retains :
    (n : ℕ) (body : Bytes) (l : Limits) (r : Result (Kind × Span) × Scanner) {d : Document}
    → Within l r.1
    → document_of n body l r ≡ ok d
    → Retains d
document_of-Retains n body l (failed e, s) w h = cc
document_of-Retains n body l (ok (kind, span), s) {d} w h =
    let k : record {
      number_of = n;
      body = body;
      root_kind = kind;
      root_span = span;
      limits = l;
      strings = number_tokens n 0 s.strings;
      paths = s.paths;
      structural_bytes = s.structural_bytes;
      node_count = s.nodes;
    }
        ≡ d =
      cc in
    subst Retains k (
      omega (arith, w.charged, w.paths_fit, w.strings_fit, length-number_tokens n 0 s.strings),
      w.bounded,
    )

new_scanner-Within :
    (l : Limits) (body : Bytes)
    → pos 0 <ℤ l.max_structural_bytes
    → Within l (record (new_scanner body) { reads = 1 })
new_scanner-Within l body h = record {
  bounded = omega arith;
  paths_fit = omega arith;
  strings_fit = omega arith;
  charged = omega arith;
}

scan_within-Retains :
    (done : ℕ → Bool) (n : ℕ) (body : Bytes) (l : Limits) {d : Document}
    → pos 0 <ℤ l.max_structural_bytes
    → scan_within done n body l ≡ ok d
    → Retains d
unfolding scan_within
scan_within-Retains done n body l p h =
    elim (Bool-cases (ltb_ℤ l.max_body_bytes (pos (length body)))) [
      | inl y ↦ let bad = rw y at h in cc
      | inr z ↦ elim (Bool-cases (done 0)) [
        | inl y ↦ let bad = rw (z, y) at h in cc
        | inr v ↦
            document_of-Retains n body l _
              ((scan_json-Keeps done l).keep _ (new_scanner-Within l body p)) (rw (z, v) at h)
      ]
    ]

-- A scanned document, whatever the body, retains no more than its structural limit allows: 64 bytes
-- for each path node and 128 for each string are covered by the bytes that the scanner charged,
-- and these are within the limit.
pub scan-Retains :
    (done : ℕ → Bool) (n : ℕ) (body : Bytes) (l : Limits) {d : Document}
    → scan done n body l ≡ ok d
    → Retains d
unfolding scan
scan-Retains done n body l h = elim (Result-cases (normalized l)) [
  | inl (e, k) ↦ let bad = rw (k, scan) at h in cc
  | inr (limits, k) ↦
      let (_, _, _, structural, _, _, _) = normalized-Bounded l k in
      scan_within-Retains done n body limits structural.0 (rw (k, scan) at h)
]
