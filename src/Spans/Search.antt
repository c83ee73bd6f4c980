-- ===== src/Spans/Search.antt =====
-- The bisection of `sort.Search`, on the spans of a collector.
use cpa_plugin_privacyfilter.Base.{
  ℕ, zero, suc, ◌+◌, ◌-◌, ◌≤◌, ◌<◌, Bool, true, false, List, [], ◌∷◌, ◌≡◌, ltb, if◌then◌else◌,
  length, arith, ◌/◌,
}
use cpa_plugin_privacyfilter.Spans.{Span, bisect, ends_after, search_index}

-- On a test that is false below `k` and true from `k` on, bisection finds `k`.
pub bisect_lem :
    (fuel i j k : ℕ) (f : ℕ → Bool)
    → ((x : ℕ) → x < k → f x ≡ false)
    → ((x : ℕ) → k ≤ x → x < j → f x ≡ true)
    → i ≤ k
    → k ≤ j
    → j - i < fuel
    → bisect fuel i j f ≡ k
unfolding bisect
bisect_lem zero i j k f lo hi a b c = absurd (omega arith)
bisect_lem (suc fuel) i j k f lo hi a b c =
    let h = (i + j) / 2 in
    ground (
      arith,
      lo h,
      hi h,
      bisect_lem fuel (h + 1) j k f lo hi,
      bisect_lem fuel i h k f lo (λ x p q. hi x p (omega arith)),
    )

-- The spans are not empty, ascend, do not overlap, and lie between `lo` and `hi`.
abbrev pub IsDisjoint : ℕ → ℕ → List Span → Type 0
IsDisjoint lo hi [] = lo ≤ hi
IsDisjoint lo hi (s ∷ ss) = (lo ≤ s.start) × (s.start < s.stop) × IsDisjoint s.stop hi ss

pub IsDisjoint-weaken :
    (l lo hi : ℕ) (ss : List Span) → l ≤ lo → IsDisjoint lo hi ss → IsDisjoint l hi ss
IsDisjoint-weaken l lo hi [] h d = omega arith
IsDisjoint-weaken l lo hi (s ∷ ss) h d = (omega arith, d.1, d.2)

pub IsDisjoint-le : (lo hi : ℕ) (ss : List Span) → IsDisjoint lo hi ss → lo ≤ hi
IsDisjoint-le lo hi [] d = d
IsDisjoint-le lo hi (s ∷ ss) d = omega (arith, IsDisjoint-le s.stop hi ss d.2)

-- How many spans end at or before `a`, counted from the first.
unfoldable pub count_before : ℕ → List Span → ℕ
count_before a [] = 0
count_before a (s ∷ ss) = if ltb a s.stop then 0 else suc (count_before a ss)

pub count_before-le : (a : ℕ) (ss : List Span) → count_before a ss ≤ length ss
unfolding count_before
count_before-le a [] = omega arith
count_before-le a (s ∷ ss) = ground (arith, count_before-le a ss)

below_count : (a : ℕ) (ss : List Span) (x : ℕ) → x < count_before a ss → ends_after ss a x ≡ false
unfolding count_before
below_count a [] x h = absurd (omega arith)
below_count a (s ∷ ss) zero h = ground arith
below_count a (s ∷ ss) (suc x) h = ground (arith, below_count a ss x)

all_after :
    (a lo hi : ℕ) (ss : List Span) (x : ℕ)
    → IsDisjoint lo hi ss
    → a ≤ lo
    → x < length ss
    → ends_after ss a x ≡ true
all_after a lo hi [] x d h q = absurd (omega arith)
all_after a lo hi (s ∷ ss) zero d h q = ground arith
all_after a lo hi (s ∷ ss) (suc x) d h q =
    all_after a s.stop hi ss x d.2 (omega arith) (omega arith)

from_count :
    (a lo hi : ℕ) (ss : List Span) (x : ℕ)
    → IsDisjoint lo hi ss
    → count_before a ss ≤ x
    → x < length ss
    → ends_after ss a x ≡ true
unfolding count_before
from_count a lo hi [] x d h q = absurd (omega arith)
from_count a lo hi (s ∷ ss) zero d h q = ground arith
from_count a lo hi (s ∷ ss) (suc x) d h q =
    ground (arith, all_after a s.stop hi ss x d.2, from_count a s.stop hi ss x d.2)

-- `sort.Search` finds the first span that ends after the candidate starts.
pub search_index-count_before :
    (a lo hi : ℕ) (ss : List Span)
    → IsDisjoint lo hi ss
    → search_index (length ss) (ends_after ss a) ≡ count_before a ss
search_index-count_before a lo hi ss d =
    bisect_lem (length ss + 1) 0 (length ss) (count_before a ss) (ends_after ss a)
      (below_count a ss) (λ x p q. from_count a lo hi ss x d p q) (omega arith)
      (count_before-le a ss) (omega arith)
