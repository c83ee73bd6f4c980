-- ===== src/Cache/Loops.antt =====
-- The loops from the back of the list: expiry keeps the live entries, eviction the newest ones.
use cpa_plugin_privacyfilter.Base.{
  ℕ, zero, suc, ◌+◌, ◌≤◌, ◌<◌, true, false, inl, inr, Bool-cases, List, [], ◌∷◌, ◌++◌, length, take,
  length-append, ◌≡◌, refl, ◌∙◌, ap, sym, arith,
}
use cpa_plugin_privacyfilter.Base.Int.{ℤ, pos, pos_part, ltb_ℤ, ◌≤ℤ◌}
use mathlib.Core.List.{reverse, reverse-cons}
use cpa_plugin_privacyfilter.Cache.{Entry, Cache, expired, remove_locked, prune_loop, evict_loop}
use cpa_plugin_privacyfilter.Cache.State.{add_counter}
use cpa_plugin_privacyfilter.Cache.Order.{
  IsLinked, remove_locked-IsLinked, unlink_last, Sorted, Sorted-init, live, live_drop_last,
  live_last,
}

-- `c.lru` read from its back is `e`, then `es`.
lru_back :
    (c : Cache) (e : Entry) (es : List Entry)
    → c.lru ≡ reverse (e ∷ es)
    → c.lru ≡ reverse es ++ (e ∷ [])
lru_back c e es h = h ∙ reverse-cons e es

remove_back :
    (c : Cache) (e : Entry) (xs : List Entry)
    → IsLinked c
    → c.lru ≡ xs ++ (e ∷ [])
    → (remove_locked c e).lru ≡ xs
remove_back c e xs w h = rw h (unlink_last e xs (rw h at w.distinct))

-- What the two loops leave alone.
pub record Keeps (c d : Cache) : Type 0 where
  pub same_ttl : d.ttl ≡ c.ttl
  pub same_max : d.max_entries ≡ c.max_entries

pub prune_loop-live :
    (now : ℤ) (bs : List Entry) (c : Cache)
    → IsLinked c
    → Sorted c.lru
    → c.lru ≡ reverse bs
    → ((prune_loop now bs c).0.lru ≡ live c.ttl now c.lru)
      × IsLinked (prune_loop now bs c).0
      × Keeps c (prune_loop now bs c).0
      × ((prune_loop now bs c).1 + length (prune_loop now bs c).0.lru ≡ length c.lru)
unfolding prune_loop
prune_loop-live now [] c w s h =
    (rw h (unfold live in refl), w, record { same_ttl = refl; same_max = refl }, omega arith)
prune_loop-live now (e ∷ es) c w s h =
    let back = lru_back c e es h in
    let shorter = remove_back c e (reverse es) w back in
    elim (Bool-cases (expired c.ttl now e)) [
      | inl y ↦
          let s' : Sorted (reverse es) = Sorted-init (reverse es) e (rw back at s) in
          let (l, w', k, n) =
            prune_loop-live now es (remove_locked c e) (remove_locked-IsLinked c e w)
              (rw shorter s') shorter in
          rw y (
            l ∙ rw (shorter, back) (sym (live_drop_last c.ttl now (reverse es) e y)),
            w',
            record { same_ttl = k.same_ttl; same_max = k.same_max },
            omega
                (arith, n, ap length shorter, ap length back, length-append (reverse es) (e ∷ [])),
          )
      | inr n ↦ rw n (
        rw back (sym (live_last c.ttl now (reverse es) e (rw back at s) n)),
        w,
        record { same_ttl = refl; same_max = refl },
        omega arith,
      )
    ]

take_all {ℓ} : {A : Type ℓ} (n : ℕ) (xs : List A) → length xs ≤ n → take n xs ≡ xs
take_all zero [] h = refl
take_all zero (x ∷ xs) h = absurd (omega arith)
take_all (suc n) [] h = refl
take_all (suc n) (x ∷ xs) h = ap (◌∷◌ x) (take_all n xs (omega arith))

take_init {ℓ} :
    {A : Type ℓ} (n : ℕ) (xs ys : List A) → n ≤ length xs → take n (xs ++ ys) ≡ take n xs
take_init zero xs ys h = refl
take_init (suc n) [] ys h = absurd (omega arith)
take_init (suc n) (x ∷ xs) ys h = ap (◌∷◌ x) (take_init n xs ys (omega arith))

over : (m : ℤ) (n : ℕ) → pos 0 ≤ℤ m → ltb_ℤ m (pos n) ≡ true → pos_part m < n
over m n p h = ground arith

not_over : (m : ℤ) (n : ℕ) → ltb_ℤ m (pos n) ≡ false → n ≤ pos_part m
not_over m n h = ground arith

pub evict_loop-take :
    (bs : List Entry) (c : Cache)
    → IsLinked c
    → pos 0 ≤ℤ c.max_entries
    → c.lru ≡ reverse bs
    → ((evict_loop bs c).lru ≡ take (pos_part c.max_entries) c.lru)
      × IsLinked (evict_loop bs c)
      × Keeps c (evict_loop bs c)
unfolding evict_loop
evict_loop-take [] c w p h =
    (sym (take_all _ c.lru (rw h (omega arith))), w, record { same_ttl = refl; same_max = refl })
evict_loop-take (e ∷ es) c w p h =
    let back = lru_back c e es h in
    let shorter = remove_back c e (reverse es) w back in
    let r = remove_locked c e in
    let c' = record r {
      metrics = record (r.metrics) { evictions = add_counter r.metrics.evictions 1 };
    } in
    let w' = remove_locked-IsLinked c e w in
    elim (Bool-cases (ltb_ℤ c.max_entries (pos (length c.entries)))) [
      | inl y ↦
          let linked : IsLinked c' = record {
            agree = w'.agree;
            distinct_keys = w'.distinct_keys;
            distinct = w'.distinct;
            same_length = w'.same_length;
          } in
          let (l, w'', k) = evict_loop-take es c' linked p shorter in
          rw y (
            l
                ∙ rw (shorter, back)
                    (sym (
                      take_init _ (reverse es) (e ∷ []) (
                        omega (
                          arith,
                          over c.max_entries _ p y,
                          w.same_length,
                          ap length back,
                          length-append (reverse es) (e ∷ []),
                        )))),
            w'',
            record { same_ttl = k.same_ttl; same_max = k.same_max },
          )
      | inr n ↦ rw n (
        sym (take_all _ c.lru (omega (arith, not_over c.max_entries _ n, w.same_length))),
        w,
        record { same_ttl = refl; same_max = refl },
      )
    ]
