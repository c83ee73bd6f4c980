-- ===== src/Budget.antt =====
-- The cumulative request budget of internal/privacyengine/budget.go, with the error type of
-- types.go. Each method holds the mutex from its first to its last access of the fields, so a
-- method is one step of the state; a Go `int` is an integer (see Lib for its width).
pub mod Laws
pub mod Run
use cpa_plugin_privacyfilter.Base.{
  ℕ, ◌^◌, Bool, true, false, ◌||◌, Option, none, some, if◌then◌else◌,
}
use cpa_plugin_privacyfilter.Base.Int.{ℤ, pos, ltb_ℤ, leb_ℤ, eq_ℤ, ◌+ℤ◌, ◌-ℤ◌}

pub data Resource : Type 0 where
  bytes findings nodes : Resource

-- `LimitError`
pub record LimitError : Type 0 where
  pub resource : Resource
  pub limit : ℤ
  pub used : ℤ
  pub requested : ℤ

pub record Limits : Type 0 where
  pub max_bytes : ℤ
  pub max_findings : ℤ
  pub max_nodes : ℤ

abbrev pub default_max_bytes : ℤ
default_max_bytes = pos (2 ^ 20)

abbrev pub default_max_findings : ℤ
default_max_findings = pos 256

abbrev pub default_max_nodes : ℤ
default_max_nodes = pos 1024

abbrev pub default_limits : Limits
default_limits = record {
  max_bytes = default_max_bytes;
  max_findings = default_max_findings;
  max_nodes = default_max_nodes;
}

-- `if l == 0 { l = d }`
abbrev pub or_default : ℤ → ℤ → ℤ
or_default l d = if eq_ℤ l (pos 0) then d else l

-- `none` is the error "limits must not be negative".
unfoldable pub normalize_limits : Limits → Option Limits
normalize_limits l =
    if ltb_ℤ l.max_bytes (pos 0) || ltb_ℤ l.max_findings (pos 0) || ltb_ℤ l.max_nodes (pos 0)
    then none
    else some (record {
      max_bytes = or_default l.max_bytes default_max_bytes;
      max_findings = or_default l.max_findings default_max_findings;
      max_nodes = or_default l.max_nodes default_max_nodes;
    })

pub record Usage : Type 0 where
  pub bytes : ℤ
  pub findings : ℤ
  pub nodes : ℤ

abbrev pub no_usage : Usage
no_usage = record { bytes = pos 0; findings = pos 0; nodes = pos 0 }

pub record Budget : Type 0 where
  pub initialized : Bool
  pub limits : Limits
  pub usage : Usage

-- `&Budget{}`, the zero value
abbrev pub zero_budget : Budget
zero_budget = record {
  initialized = false;
  limits = record { max_bytes = pos 0; max_findings = pos 0; max_nodes = pos 0 };
  usage = no_usage;
}

abbrev pub new_budget_unchecked : Limits → Budget
new_budget_unchecked l = record { initialized = true; limits = l; usage = no_usage }

unfoldable pub new_budget : Limits → Option Budget
unfolding normalize_limits
new_budget l = elim (normalize_limits l) [ none ↦ none | some n ↦ some (new_budget_unchecked n) ]

unfoldable pub initialize_locked : Budget → Budget
initialize_locked b =
    if b.initialized then b else record b { limits = default_limits; initialized = true }

-- `Limits()` and `Usage()`; a nil budget reports zeros.
unfoldable pub read_limits : Option Budget → Option Budget × Limits
unfolding initialize_locked
read_limits none = (none, zero_budget.limits)
read_limits (some b) = (some (initialize_locked b), (initialize_locked b).limits)

unfoldable pub read_usage : Option Budget → Option Budget × Usage
unfolding initialize_locked
read_usage none = (none, no_usage)
read_usage (some b) = (some (initialize_locked b), (initialize_locked b).usage)

abbrev refuse : Resource → ℤ → ℤ → ℤ → Option LimitError
refuse r limit used requested =
    some (record { resource = r; limit = limit; used = used; requested = requested })

-- `takeNode` on an initialized budget
take_node_locked : Budget → ℤ → Budget × Option LimitError
take_node_locked b byte_count =
    if leb_ℤ b.limits.max_nodes b.usage.nodes
    then (b, refuse nodes b.limits.max_nodes b.usage.nodes (pos 1))
    else if ltb_ℤ byte_count (pos 0) || ltb_ℤ (b.limits.max_bytes -ℤ b.usage.bytes) byte_count
    then (b, refuse bytes b.limits.max_bytes b.usage.bytes byte_count)
    else (
      record b {
        usage = record (b.usage) {
          nodes = b.usage.nodes +ℤ pos 1;
          bytes = b.usage.bytes +ℤ byte_count;
        };
      },
      none,
    )

unfoldable pub take_node : Budget → ℤ → Budget × Option LimitError
unfolding initialize_locked take_node_locked ◌+ℤ◌ ◌-ℤ◌
take_node b byte_count = take_node_locked (initialize_locked b) byte_count

unfoldable pub remaining_findings : Budget → Budget × ℤ
unfolding initialize_locked ◌-ℤ◌
remaining_findings b = let c = initialize_locked b in (c, c.limits.max_findings -ℤ c.usage.findings)

take_findings_locked : Budget → ℤ → Budget × Option LimitError
take_findings_locked b count =
    if ltb_ℤ count (pos 0) || ltb_ℤ (b.limits.max_findings -ℤ b.usage.findings) count
    then (b, refuse findings b.limits.max_findings b.usage.findings count)
    else (record b { usage = record (b.usage) { findings = b.usage.findings +ℤ count } }, none)

unfoldable pub take_findings : Budget → ℤ → Budget × Option LimitError
unfolding initialize_locked take_findings_locked ◌+ℤ◌ ◌-ℤ◌
take_findings b count = take_findings_locked (initialize_locked b) count
