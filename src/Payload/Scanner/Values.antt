-- ===== src/Payload/Scanner/Values.antt =====
-- `value`, `object`, `array` and `scanJSON` of payload/jsonscan.go, and `Scan` of payload/payload.go.
use cpa_plugin_privacyfilter.Base.{
  ℕ, zero, suc, ◌+◌, Bool, not, ◌||◌, none, some, List, [], ◌∷◌, if◌then◌else◌, ◌==◌, Bytes, length,
}
use cpa_plugin_privacyfilter.Base.Text.{is_digit}
use cpa_plugin_privacyfilter.Base.Int.{pos, pos_part, ltb_ℤ}
use cpa_plugin_privacyfilter.Payload.{
  PayloadError, depth_limit, node_limit, canceled, body_too_large, root_not_object, Result, ok,
  failed, Step, return, fail, ◌>>=◌, Kind, invalid, object, array, string, boolean, null, Span,
  Limits, normalized, object_key, array_index, continue,
}
use cpa_plugin_privacyfilter.Payload.Token.{StringToken, Document, kind_code}
use cpa_plugin_privacyfilter.Payload.Scanner.{
  Scanner, new_scanner, get, modify, advance, check_now, append_path, append_string,
}
use cpa_plugin_privacyfilter.Payload.Scanner.Strings.{string_value, skip_whitespace}
use cpa_plugin_privacyfilter.Payload.Scanner.Numbers.{next_is, fail_here, when, literal, number}

abbrev pub refuse_if : Bool → PayloadError → Step Scanner (Unit {0})
refuse_if test e = if test then fail e else return tt

abbrev pub expect : (ℕ → Bool) → Step Scanner (Unit {0})
expect test s = if next_is test s then return tt s else fail_here s

-- `s.body[s.pos]`, or the error at the end of the body
abbrev pub on_first : (ℕ → Step Scanner Kind) → Bytes → Step Scanner Kind
on_first f [] = fail_here
on_first f (c ∷ rest) = f c

module _ (done : ℕ → Bool) (limits : Limits) where
  -- A value below a new path node: the path is set for it, and reset after it.
  abbrev pub child_value : ℕ → Step Scanner Kind → Step Scanner (Unit {0})
  child_value child scan s =
      let (r, t) = scan (record s { path = some child }) in
      continue (λ _. return tt) (r, record t { path = s.path })

  -- The loop of `object`, on fuel: a member is not empty, so the bytes that are left are enough.
  -- `scan` is `s.value(depth+1, KindObject)`.
  unfoldable pub members : ℕ → Step Scanner Kind → Step Scanner (Unit {0})
  unfolding string_value skip_whitespace append_path
  members zero scan = fail_here
  members (suc fuel) scan = do
    _ ← expect (λ c. c == 34)
    key ← string_value done limits
    _ ← skip_whitespace done limits
    _ ← expect (λ c. c == 58)
    _ ← advance 1
    _ ← skip_whitespace done limits
    child ← append_path limits (object_key key) (length key)
    _ ← child_value child scan
    _ ← skip_whitespace done limits
    u ← get
    let further = (do _ ← advance 1; _ ← skip_whitespace done limits; members fuel scan)
    if next_is (λ c. c == 125) u
        then advance 1
        else (if next_is (λ c. c == 44) u then further else fail_here)

  -- The loop of `array` from an index, on fuel. `scan` is `s.value(depth+1, KindArray)`.
  unfoldable pub elements : ℕ → ℕ → Step Scanner Kind → Step Scanner (Unit {0})
  unfolding skip_whitespace append_path
  elements zero index scan = fail_here
  elements (suc fuel) index scan = do
    child ← append_path limits (array_index (pos index)) 0
    _ ← child_value child scan
    _ ← skip_whitespace done limits
    u ← get
    let further = (do
      _ ← advance 1
      _ ← skip_whitespace done limits
      elements fuel (suc index) scan)
    if next_is (λ c. c == 93) u
        then advance 1
        else (if next_is (λ c. c == 44) u then further else fail_here)

  unfoldable pub scan_object : Step Scanner Kind → Step Scanner (Unit {0})
  unfolding members skip_whitespace
  scan_object scan = do
    _ ← advance 1
    _ ← skip_whitespace done limits
    s ← get
    if next_is (λ c. c == 125) s then advance 1 else members (length s.rest) scan

  unfoldable pub scan_array : Step Scanner Kind → Step Scanner (Unit {0})
  unfolding elements skip_whitespace
  scan_array scan = do
    _ ← advance 1
    _ ← skip_whitespace done limits
    s ← get
    if next_is (λ c. c == 93) s then advance 1 else elements (length s.rest) 0 scan

  abbrev pub of_kind : Kind → Step Scanner (Unit {0}) → Step Scanner Kind
  of_kind k step = step >>= λ _. return k

  -- The string case of `value`.
  unfoldable pub scan_string : ℕ → Kind → Step Scanner (Unit {0})
  unfolding string_value append_string
  scan_string depth parent = do
    s ← get
    text ← string_value done limits
    t ← get
    append_string limits (record {
      value = text;
      span = record { start = s.position; stop = t.position };
      path = [];
      parent_kind = parent;
      depth = depth;
      document = none;
      ordinal = 0;
      path_ref = t.path;
    })

  -- The switch of `value` on the first byte; `child` is `s.value(depth+1, ...)`.
  unfoldable pub dispatch : (Kind → Step Scanner Kind) → ℕ → Kind → ℕ → Step Scanner Kind
  unfolding scan_object scan_array scan_string literal number
  dispatch child depth parent c =
      if c == 123
      then of_kind object (scan_object (child object))
      else if c == 91
      then of_kind array (scan_array (child array))
      else if c == 34
      then of_kind string (scan_string depth parent)
      else if c == 116
      then of_kind boolean (literal (116 ∷ 114 ∷ 117 ∷ 101 ∷ []))
      else if c == 102
      then of_kind boolean (literal (102 ∷ 97 ∷ 108 ∷ 115 ∷ 101 ∷ []))
      else if c == 110
      then of_kind null (literal (110 ∷ 117 ∷ 108 ∷ 108 ∷ []))
      else if c == 45 || is_digit c
      then of_kind Kind.number (number done)
      else fail_here

  -- The guards of `value`.
  unfoldable pub enter_value : ℕ → Step Scanner (Unit {0})
  unfolding check_now
  enter_value depth = do
    _ ← check_now done
    _ ← refuse_if (ltb_ℤ limits.max_depth (pos depth)) depth_limit
    _ ← modify (λ s. record s { nodes = suc s.nodes })
    s ← get
    refuse_if (ltb_ℤ limits.max_nodes (pos s.nodes)) node_limit

  -- `value`, on fuel: its depth is bounded by `max_depth`, and one more level ends at the guard.
  unfoldable pub value : ℕ → ℕ → Kind → Step Scanner Kind
  unfolding enter_value dispatch
  value zero depth parent = fail depth_limit
  value (suc fuel) depth parent = do
    _ ← enter_value depth
    s ← get
    on_first (dispatch (λ k. value fuel (suc depth) k) depth parent) s.rest

  -- `scanJSON`: the kind and span of the root; the rest of the result is the scanner.
  unfoldable pub scan_json : Step Scanner (Kind × Span)
  unfolding value skip_whitespace
  scan_json = do
    _ ← skip_whitespace done limits
    s ← get
    _ ← when (length s.rest == 0) fail_here
    kind ← value (pos_part limits.max_depth + 1) 1 invalid
    t ← get
    _ ← skip_whitespace done limits
    u ← get
    _ ← when (not (length u.rest == 0)) fail_here
    _ ← check_now done
    return (kind, record { start = s.position; stop = t.position })

-- The tokens get their document and their ordinals.
unfoldable pub number_tokens : ℕ → ℕ → List StringToken → List StringToken
number_tokens document i [] = []
number_tokens document i (t ∷ ts) =
    record t { document = some document; ordinal = i } ∷ number_tokens document (suc i) ts

-- The end of `Scan`.
abbrev pub document_of : ℕ → Bytes → Limits → Result (Kind × Span) × Scanner → Result Document
document_of n body limits (failed e, s) = failed e
document_of n body limits (ok (kind, span), s) = ok (record {
  number_of = n;
  body = body;
  root_kind = kind;
  root_span = span;
  limits = limits;
  strings = number_tokens n 0 s.strings;
  paths = s.paths;
  structural_bytes = s.structural_bytes;
  node_count = s.nodes;
})

unfoldable pub scan_within : (ℕ → Bool) → ℕ → Bytes → Limits → Result Document
unfolding scan_json number_tokens
scan_within done n body l =
    if ltb_ℤ l.max_body_bytes (pos (length body))
    then failed body_too_large
    else if done 0
    then failed canceled
    else document_of n body l (scan_json done l (record (new_scanner body) { reads = 1 }))

-- `Scan`, of a body as document number `n`
unfoldable pub scan : (ℕ → Bool) → ℕ → Bytes → Limits → Result Document
unfolding scan_within normalized
scan done n body l = elim (normalized l) [
  | failed e ↦ failed e
  | ok limits ↦ scan_within done n body limits
]

-- `ScanObject`
unfoldable pub scan_object_body : (ℕ → Bool) → ℕ → Bytes → Limits → Result Document
unfolding scan
scan_object_body done n body l = elim (scan done n body l) [
  | failed e ↦ failed e
  | ok d ↦ if kind_code d.root_kind == kind_code object then ok d else failed root_not_object
]
