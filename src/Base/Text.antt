-- ===== src/Base/Text.antt =====
-- What the source uses of Go's `strings` on byte strings, and the tests on ASCII bytes.
use Prim.Native.Char.{code}
use Prim.Native.String.{String}
use Prim.Native.Nat.{ℕ, suc}
use mathlib.Core.Bool.{Bool, true, false, ◌&&◌, ◌||◌}
use mathlib.Core.Logic.{inl, inr}
use mathlib.Core.Path.{◌≡◌, refl}
use mathlib.Core.List.{List, [], ◌∷◌, ◌++◌, reverse}
use mathlib.Core.Option.{Option, none, some}
use cpa_plugin_privacyfilter.Base.Tests.{Bool-cases, leb, ◌==◌, if◌then◌else◌}
use cpa_plugin_privacyfilter.Base.Lists.{Bytes, get_elem?}

-- The bytes of an ASCII text.
abbrev pub codes : String → Bytes
codes String.[] = []
codes (String.◌∷◌ c s) = code c ∷ codes s

abbrev push_byte : ℕ → List Bytes → List Bytes
push_byte c [] = (c ∷ []) ∷ []
push_byte c (w ∷ ws) = (c ∷ w) ∷ ws

abbrev split_spaces : Bytes → List Bytes
split_spaces [] = [] ∷ []
split_spaces (c ∷ cs) =
    let rest : List Bytes = split_spaces cs in if c == 32 then [] ∷ rest else push_byte c rest

-- The words of an ASCII text: a list of names with no space in them.
abbrev pub words : String → List Bytes
words text = split_spaces (codes text)

-- `c >= '0' && c <= '9'`
abbrev pub is_digit : ℕ → Bool
is_digit c = leb 48 c && leb c 57

abbrev pub is_upper : ℕ → Bool
is_upper c = leb 65 c && leb c 90

abbrev pub is_lower : ℕ → Bool
is_lower c = leb 97 c && leb c 122

-- `strings.HasPrefix`
unfoldable pub starts_with : Bytes → Bytes → Bool
starts_with text [] = true
starts_with [] (p ∷ ps) = false
starts_with (c ∷ cs) (p ∷ ps) = c == p && starts_with cs ps

-- `strings.HasSuffix`
unfoldable pub ends_with : Bytes → Bytes → Bool
unfolding starts_with
ends_with text suffix = starts_with (reverse text) (reverse suffix)

-- `strings.Contains`
unfoldable pub contains : Bytes → Bytes → Bool
unfolding starts_with
contains [] part = starts_with [] part
contains (c ∷ cs) part = starts_with (c ∷ cs) part || contains cs part

-- `strings.IndexByte(s, c) >= 0`
unfoldable pub has_byte : ℕ → Bytes → Bool
has_byte b [] = false
has_byte b (c ∷ cs) = c == b || has_byte b cs

-- `strings.ContainsAny`
unfoldable pub contains_any : Bytes → Bytes → Bool
unfolding has_byte
contains_any [] chars = false
contains_any (c ∷ cs) chars = has_byte c chars || contains_any cs chars

-- `strings.IndexByte`, with `none` for -1
unfoldable pub index_byte : ℕ → Bytes → Option ℕ
index_byte b [] = none
index_byte b (c ∷ cs) =
    let rest : Option ℕ = elim (index_byte b cs) [ none ↦ none | some i ↦ some (suc i) ] in
    if c == b then some 0 else rest

-- `strings.LastIndexByte`
unfoldable pub last_index_byte : ℕ → Bytes → Option ℕ
last_index_byte b [] = none
last_index_byte b (c ∷ cs) = elim (last_index_byte b cs) [
  | none ↦ if c == b then some 0 else none
  | some i ↦ some (suc i)
]

-- `strings.Count` of a single byte
unfoldable pub count_byte : ℕ → Bytes → ℕ
count_byte b [] = 0
count_byte b (c ∷ cs) = let n = count_byte b cs in if c == b then suc n else n

module _ {ℓ} {A : Type ℓ} where
  -- Whether an element satisfies a test: a loop with `return true`.
  unfoldable pub any_of : (A → Bool) → List A → Bool
  any_of test [] = false
  any_of test (x ∷ xs) = test x || any_of test xs

pub any_of-append {ℓ} :
    {A : Type ℓ} (test : A → Bool) (xs ys : List A)
    → any_of test (xs ++ ys) ≡ (any_of test xs || any_of test ys)
unfolding any_of
any_of-append test [] ys = refl
any_of-append test (x ∷ xs) ys = elim (Bool-cases (test x)) [
  | inl y ↦ rw y refl
  | inr n ↦ rw n (any_of-append test xs ys)
]

-- A test of the byte at an index in range.
abbrev pub byte_is : (ℕ → Bool) → Bytes → ℕ → Bool
byte_is test text i = elim (get_elem? text i) [ none ↦ false | some c ↦ test c ]
