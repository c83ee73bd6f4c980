-- ===== src/Payload/Scanner.antt =====
-- The state and the small steps of `jsonScanner` in payload/jsonscan.go: the context, the input, and
-- what is retained. `rest` is the body from `pos` on.
pub mod Strings
pub mod Numbers
pub mod Values
pub mod Bounds
pub mod Retained
pub mod Charged
use cpa_plugin_privacyfilter.Base.{
  ℕ, zero, suc, ◌+◌, ◌-◌, ◌*◌, max, Bool, true, false, ◌||◌, Option, none, some, List, [], ◌∷◌,
  ◌++◌, if◌then◌else◌, ltb, leb, ◌==◌, Bytes, length, drop,
}
use cpa_plugin_privacyfilter.Base.Int.{ℤ, pos, ltb_ℤ, ◌-ℤ◌}
use cpa_plugin_privacyfilter.Payload.{
  PayloadError, canceled, structural_limit, Result, ok, failed, Step, return, fail, ◌>>=◌, Limits,
  PathSegment, object_key, array_index, PathNode,
}
use cpa_plugin_privacyfilter.Payload.Token.{StringToken}

pub record Scanner : Type 0 where
  pub position : ℕ
  pub rest : Bytes
  pub nodes : ℕ
  pub last_check : ℕ
  pub path : Option ℕ
  pub paths : List PathNode
  pub path_capacity : ℕ
  pub strings : List StringToken
  pub string_capacity : ℕ
  pub structural_bytes : ℕ
  -- how often the context was read
  pub reads : ℕ

abbrev pub new_scanner : Bytes → Scanner
new_scanner body = record {
  position = 0;
  rest = body;
  nodes = 0;
  last_check = 0;
  path = none;
  paths = [];
  path_capacity = 0;
  strings = [];
  string_capacity = 0;
  structural_bytes = 0;
  reads = 0;
}

abbrev pub retained_path_node_bytes : ℕ
retained_path_node_bytes = 64

abbrev pub retained_string_token_bytes : ℕ
retained_string_token_bytes = 128

abbrev pub check_interval : ℕ
check_interval = 1024

abbrev pub get : Step Scanner Scanner
get s = (ok s, s)

abbrev pub modify : (Scanner → Scanner) → Step Scanner (Unit {0})
modify f s = (ok tt, f s)

-- `s.pos += n`
abbrev pub advance : ℕ → Step Scanner (Unit {0})
advance n = modify (λ s. record s { position = s.position + n; rest = drop n s.rest })

-- The loop of `nextRetainedCapacity`, on fuel: the capacity at least doubles, so the number that is
-- required is enough.
unfoldable pub double_until : ℕ → ℕ → ℕ → ℕ
double_until zero current required = current
double_until (suc fuel) current required =
    let rest = double_until fuel (current * 2) required in
    if ltb current required then rest else current

unfoldable pub next_retained_capacity : ℕ → ℕ → ℕ
unfolding double_until
next_retained_capacity current required =
    double_until required (if current == 0 then 16 else current) required

module _ (done : ℕ → Bool) where
  -- `checkNow`
  unfoldable pub check_now : Step Scanner (Unit {0})
  check_now s = (if done s.reads then failed canceled else ok tt, record s { reads = suc s.reads })

  -- `checkAt`; a position is never below the last one that was checked.
  unfoldable pub check_at : ℕ → Step Scanner (Unit {0})
  unfolding check_now
  check_at at s =
      if ltb (at - s.last_check) check_interval
      then (ok tt, s)
      else check_now (record s { last_check = at })

-- The retained sizes, which `retain` keeps within the limit.
module _ (limits : Limits) where
  unfoldable pub retain : ℕ → Step Scanner (Unit {0})
  unfolding ◌-ℤ◌
  retain bytes s =
      if ltb_ℤ (limits.max_structural_bytes -ℤ pos s.structural_bytes) (pos bytes)
      then (failed structural_limit, s)
      else (ok tt, record s { structural_bytes = s.structural_bytes + bytes })

  abbrev pub path_charge : Scanner → ℕ → ℕ
  path_charge s extra =
      if length s.paths == s.path_capacity
      then extra
        + (next_retained_capacity s.path_capacity (length s.paths + 1) - s.path_capacity)
          * retained_path_node_bytes
      else extra

  abbrev pub grow : ℕ → ℕ → ℕ
  grow used capacity =
      if used == capacity then next_retained_capacity capacity (used + 1) else capacity

  -- `appendPath`
  unfoldable pub append_path : PathSegment → ℕ → Step Scanner ℕ
  unfolding retain next_retained_capacity
  append_path segment retained_string_bytes = do
    s ← get
    _ ← retain (path_charge s retained_string_bytes)
    _ ← modify (λ t. record t {
      path_capacity = grow (length s.paths) s.path_capacity;
      paths = s.paths ++ (record { parent = s.path; segment = segment } ∷ []);
    })
    return (length s.paths)

  abbrev pub string_charge : Scanner → ℕ → ℕ
  string_charge s extra =
      if length s.strings == s.string_capacity
      then extra
        + (next_retained_capacity s.string_capacity (length s.strings + 1) - s.string_capacity)
          * retained_string_token_bytes
      else extra

  -- `appendString`
  unfoldable pub append_string : StringToken → Step Scanner (Unit {0})
  unfolding retain next_retained_capacity
  append_string token = do
    s ← get
    _ ← retain (string_charge s (length token.value))
    modify (λ t. record t {
      string_capacity = grow (length s.strings) s.string_capacity;
      strings = s.strings ++ (token ∷ []);
    })
