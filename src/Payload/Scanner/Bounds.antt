-- ===== src/Payload/Scanner/Bounds.antt =====
-- What the scanner retains is charged before it is allocated, and stays within the limit.
use cpa_plugin_privacyfilter.Base.{
  ℕ, zero, suc, ◌+◌, ◌-◌, ◌*◌, ◌≤◌, Bool, true, false, [], ◌∷◌, ◌≡◌, inl, inr, if◌then◌else◌, ltb,
  ◌==◌, Bool-cases, arith, length, length-append,
}
use cpa_plugin_privacyfilter.Base.Int.{ℤ, pos, ◌≤ℤ◌, ltb_ℤ, ◌-ℤ◌}
use cpa_plugin_privacyfilter.Payload.{
  Result, ok, failed, Step, ◌>>=◌, continue, Limits, PathSegment,
}
use cpa_plugin_privacyfilter.Payload.Token.{StringToken}
use cpa_plugin_privacyfilter.Payload.Scanner.{
  Scanner, advance, double_until, next_retained_capacity, retain, path_charge, string_charge, grow,
  append_path, append_string,
}

-- The bytes that are charged cover the storage of both tables, and are within the limit.
pub record Within (l : Limits) (s : Scanner) : Type 0 where
  pub bounded : pos s.structural_bytes ≤ℤ l.max_structural_bytes
  pub paths_fit : length s.paths ≤ s.path_capacity
  pub strings_fit : length s.strings ≤ s.string_capacity
  pub charged : s.path_capacity * 64 + s.string_capacity * 128 ≤ s.structural_bytes

-- A step that keeps them so, whether it succeeds or fails.
pub record Keeps {ℓ} {A : Type ℓ} (l : Limits) (m : Step Scanner A) : Type 0 where
  pub keep : (s : Scanner) → Within l s → Within l (m s).1

module _ {ℓ κ} {A : Type ℓ} {B : Type κ} {l : Limits} where
  continue-Within :
      (f : A → Step Scanner B) (r : Result A × Scanner)
      → Within l r.1
      → ((a : A) → Keeps l (f a))
      → Within l (continue f r).1
  continue-Within f (failed e, s) w k = w
  continue-Within f (ok a, s) w k = (k a).keep s w

  pub bind-Keeps :
      {m : Step Scanner A} {f : A → Step Scanner B}
      → Keeps l m
      → ((a : A) → Keeps l (f a))
      → Keeps l (m >>= f)
  bind-Keeps {m} {f} h k = record { keep = λ s w. continue-Within f (m s) (h.keep s w) k }

module _ {ℓ} {A : Type ℓ} {l : Limits} where
  pub if-Keeps :
      (b : Bool) {m n : Step Scanner A} → Keeps l m → Keeps l n → Keeps l (if b then m else n)
  if-Keeps true h k = h
  if-Keeps false h k = k

pub advance-Keeps : {l : Limits} (n : ℕ) → Keeps l (advance n)
advance-Keeps n = record {
  keep = λ s w. record {
    bounded = w.bounded;
    paths_fit = w.paths_fit;
    strings_fit = w.strings_fit;
    charged = w.charged;
  };
}

double_until-le : (fuel current required : ℕ) → current ≤ double_until fuel current required
unfolding double_until
double_until-le zero c r = omega arith
double_until-le (suc fuel) c r = ground (arith, double_until-le fuel (c * 2) r)

-- The fuel is enough.
pub le-double_until :
    (fuel current required : ℕ)
    → 1 ≤ current
    → required ≤ current + fuel
    → required ≤ double_until fuel current required
unfolding double_until
le-double_until zero c r h k = omega arith
le-double_until (suc fuel) c r h k = elim (Bool-cases (ltb c r)) [
  | inl y ↦ rw y (le-double_until fuel (c * 2) r (omega arith) (omega arith))
  | inr n ↦ rw n (ground arith)
]

next_retained_capacity-le :
    (c r : ℕ) → (c ≤ next_retained_capacity c r) × (r ≤ next_retained_capacity c r)
unfolding next_retained_capacity
next_retained_capacity-le c r = elim (Bool-cases (c == 0)) [
  | inl y ↦
      rw y
        (ground (arith, double_until-le r 16 r), le-double_until r 16 r (omega arith) (omega arith))
  | inr n ↦ rw n (double_until-le r c r, le-double_until r c r (ground arith) (omega arith))
]

scaled : (c n extra unit : ℕ) → c ≤ n → n * unit ≤ c * unit + (extra + (n - c) * unit)
scaled c n extra unit h = grind arith

-- What the growth of a table of `unit` bytes for each element is charged.
grow_lem :
    (l : Limits) (used capacity extra unit : ℕ)
    → used ≤ capacity
    → (used + 1 ≤ grow l used capacity)
      × (grow l used capacity * unit
          ≤ capacity * unit
            + (if used == capacity
                then extra + (next_retained_capacity capacity (used + 1) - capacity) * unit
                else extra))
grow_lem l used capacity extra unit h = elim (Bool-cases (used == capacity)) [
  | inl y ↦
      let (c, r) = next_retained_capacity-le capacity (used + 1) in
      rw y (r, scaled capacity (next_retained_capacity capacity (used + 1)) extra unit c)
  | inr n ↦ rw n (ground arith, omega arith)
]

room : (max : ℤ) (used n : ℕ) → ltb_ℤ (max -ℤ pos used) (pos n) ≡ false → pos (used + n) ≤ℤ max
unfolding ◌-ℤ◌
room max used n h = ground arith

module _ {l : Limits} where
  pub append_path-Keeps : (segment : PathSegment) (n : ℕ) → Keeps l (append_path l segment n)
  unfolding append_path retain ◌-ℤ◌
  append_path-Keeps segment n = record {
    keep = λ s w.
        elim (Bool-cases
          (ltb_ℤ (l.max_structural_bytes -ℤ pos s.structural_bytes) (pos (path_charge l s n)))) [
            | inl y ↦ rw y w
            | inr z ↦
                let (fits, cost) = grow_lem l (length s.paths) s.path_capacity n 64 w.paths_fit in
                rw z (record {
                  bounded = room l.max_structural_bytes s.structural_bytes (path_charge l s n) z;
                  paths_fit = omega (
                    arith,
                    length-append s.paths (record { parent = s.path; segment = segment } ∷ []),
                  );
                  strings_fit = w.strings_fit;
                  charged = omega (arith, w.charged);
                })
          ];
  }

  pub append_string-Keeps : (token : StringToken) → Keeps l (append_string l token)
  unfolding append_string retain ◌-ℤ◌
  append_string-Keeps token = record {
    keep = λ s w.
        elim (Bool-cases (
          ltb_ℤ (l.max_structural_bytes -ℤ pos s.structural_bytes)
            (pos (string_charge l s (length token.value))))) [
              | inl y ↦ rw y w
              | inr z ↦
                  let (fits, cost) =
                    grow_lem l (length s.strings) s.string_capacity (length token.value) 128
                      w.strings_fit in
                  rw z (record {
                    bounded =
                        room l.max_structural_bytes s.structural_bytes
                          (string_charge l s (length token.value)) z;
                    paths_fit = w.paths_fit;
                    strings_fit = omega (arith, length-append s.strings (token ∷ []));
                    charged = omega (arith, w.charged);
                  })
            ];
  }
