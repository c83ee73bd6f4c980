-- ===== src/Spans.antt =====
-- The span collector of internal/privacyengine/engine.go, which unions the findings of the
-- detector layers, with `Kind` of types.go.
pub mod Search
pub mod Union
pub mod Merge
pub mod Preferred
pub mod Collect
use cpa_plugin_privacyfilter.Base.{
  ℕ, zero, suc, ◌+◌, ◌-◌, ◌/◌, min, max, Bool, true, false, not, ◌&&◌, ◌||◌, Option, none, some,
  List, [], ◌∷◌, ◌++◌, ltb, leb, if◌then◌else◌, Bytes, bytes_eq, length, take, drop, get_elem?,
}
use cpa_plugin_privacyfilter.Base.Int.{ℤ, pos, pos_part, ltb_ℤ, leb_ℤ}
use cpa_plugin_privacyfilter.Budget.{LimitError, findings}

-- The six constants of `Kind`.
pub data Kind : Type 0 where
  email phone id_card bank_card ip secret : Kind

-- An accepted `span`, with `end` as `stop`.
pub record Span : Type 0 where
  pub start : ℕ
  pub stop : ℕ
  pub kind : Kind
  pub rule_id : Bytes

-- A `span` as a detector reports it.
pub record Candidate : Type 0 where
  pub start : ℤ
  pub stop : ℤ
  pub kind : Kind
  pub rule_id : Bytes

pub record Collector : Type 0 where
  pub text_len : ℕ
  pub max_findings : ℕ
  pub preferred : List Bytes
  pub spans : List Span

-- `newSpanCollector`
abbrev pub new_collector : ℕ → ℤ → List Bytes → Collector
new_collector text_len max_findings preferred = record {
  text_len = text_len;
  max_findings = pos_part max_findings;
  preferred = preferred;
  spans = [];
}

-- `isPreferred`: membership in the set of preferred rule ids
unfoldable pub is_preferred : List Bytes → Bytes → Bool
is_preferred [] rule = false
is_preferred (r ∷ rs) rule = bytes_eq r rule || is_preferred rs rule

-- The loop of `sort.Search`: bisection for the least index at which `f` holds.
unfoldable pub bisect : ℕ → ℕ → ℕ → (ℕ → Bool) → ℕ
bisect zero i j f = i
bisect (suc fuel) i j f =
    let h = (i + j) / 2 in
    let right = bisect fuel (h + 1) j f in
    let left = bisect fuel i h f in if ltb i j then (if f h then left else right) else i

-- `sort.Search(n, f)`
abbrev pub search_index : ℕ → (ℕ → Bool) → ℕ
search_index n f = bisect (n + 1) 0 n f

-- `c.spans[i].end > start`
abbrev pub ends_after : List Span → ℕ → ℕ → Bool
ends_after spans start i = elim (get_elem? spans i) [ none ↦ false | some s ↦ ltb start s.stop ]

-- The body of the loop of `add`. `first` is `j == i` and `pref` is `metadataPreferred`.
unfoldable pub merge_one : List Bytes → Bool → Span → Bool → Span → Span × Bool
merge_one preferred first merged pref existing =
    let adopt = (first && not pref) || (not pref && is_preferred preferred existing.rule_id) in
    (
      record {
        start = if ltb existing.start merged.start then existing.start else merged.start;
        stop = if ltb merged.stop existing.stop then existing.stop else merged.stop;
        kind = if adopt then existing.kind else merged.kind;
        rule_id = if adopt then existing.rule_id else merged.rule_id;
      },
      if adopt then is_preferred preferred existing.rule_id else pref,
    )

-- The loop over `c.spans[j:]`: the merged span, `metadataPreferred`, and the spans passed.
unfoldable pub absorb : List Bytes → Bool → Span → Bool → List Span → Span × Bool × ℕ
absorb preferred first merged pref [] = (merged, pref, 0)
absorb preferred first merged pref (s ∷ ss) =
    let (m, p) = merge_one preferred first merged pref s in
    let (m', p', n) = absorb preferred false m p ss in
    if ltb s.start merged.stop then (m', p', suc n) else (merged, pref, 0)

-- `add` past its guard, from the index `i` that `sort.Search` found
unfoldable pub add_at : Collector → Span → ℕ → Collector × Option LimitError
add_at c candidate i =
    let (merged, _, n) =
      absorb c.preferred true candidate (is_preferred c.preferred candidate.rule_id)
        (drop i c.spans) in
    if ltb c.max_findings (length c.spans + 1 - n)
    then (
      c,
      some (record {
        resource = findings;
        limit = pos c.max_findings;
        used = pos (length c.spans);
        requested = pos 1;
      }),
    )
    else (record c { spans = take i c.spans ++ (merged ∷ drop (i + n) c.spans) }, none)

unfoldable pub add_span : Collector → Span → Collector × Option LimitError
unfolding bisect
add_span c candidate =
    add_at c candidate (search_index (length c.spans) (ends_after c.spans candidate.start))

-- The guard: a candidate that is empty, reversed or out of the text is dropped.
unfoldable pub is_valid : ℕ → Candidate → Bool
is_valid text_len c =
    not (ltb_ℤ c.start (pos 0) || leb_ℤ c.stop c.start || ltb_ℤ (pos text_len) c.stop)

abbrev pub accept : Candidate → Span
accept c = record {
  start = pos_part c.start;
  stop = pos_part c.stop;
  kind = c.kind;
  rule_id = c.rule_id;
}

unfoldable pub add : Collector → Candidate → Collector × Option LimitError
unfolding add_span add_at absorb merge_one is_preferred is_valid
add c candidate = if is_valid c.text_len candidate then add_span c (accept candidate) else (c, none)
