-- ===== src/Payload/Encode/RoundTrip.antt =====
-- What `encodeStringContext` writes is a JSON string, and which one.
use cpa_plugin_privacyfilter.Base.{
  ℕ, zero, suc, ◌+◌, ◌≤◌, Bool, false, [], ◌∷◌, ◌++◌, ◌≡◌, inl, inr, refl, sym, ap, ◌∙◌, leb,
  Bool-cases, arith, Bytes, length, drop, length-drop, append_assoc, append-nil,
}
use cpa_plugin_privacyfilter.Payload.{ok, bind-eq-ok, check_context}
use cpa_plugin_privacyfilter.Payload.Encode.{
  encode_head, poll, encode_loop, encode_string_context, context_check_interval,
}
use cpa_plugin_privacyfilter.Payload.Encode.Grammar.{Reads}
use cpa_plugin_privacyfilter.Payload.Encode.Pieces.{
  repair_head, Repairs, at_end, Repairs-next, encode_head-Corresponds,
}

-- The loop with no accumulator.
encoded : ℕ → Bytes → Bytes
encoded fuel [] = []
encoded zero (c ∷ rest) = []
encoded (suc fuel) (c ∷ rest) =
    let (piece, size) = encode_head c rest in piece ++ encoded fuel (drop size (c ∷ rest))

-- The fuel is enough: the text is encoded to its end.
encoded-Reads :
    (fuel : ℕ) (text : Bytes)
    → length text ≤ fuel
    → (v : Bytes) × Repairs text v × Reads (encoded fuel text) v
unfolding encoded
encoded-Reads zero [] h = ([], at_end, Reads.at_end)
encoded-Reads (suc fuel) [] h = ([], at_end, Reads.at_end)
encoded-Reads zero (c ∷ rest) h = absurd (omega arith)
encoded-Reads (suc fuel) (c ∷ rest) h =
    let k = encode_head-Corresponds c rest in
    let size = (encode_head c rest).1 in
    let shorter : length (drop size (c ∷ rest)) ≤ fuel =
      omega (arith, length-drop size (c ∷ rest), k.moves) in
    let (v, g, r) = encoded-Reads fuel (drop size (c ∷ rest)) shorter in
    ((repair_head c rest).0 ++ v, Repairs-next c rest k.same_size g, k.reads r)

module _ (done : ℕ → Bool) where
  encode_loop-encoded :
      (fuel i n : ℕ) (out text : Bytes) (t : ℕ) {result : Bytes} {u : ℕ}
      → encode_loop done fuel i n out text t ≡ (ok result, u)
      → result ≡ out ++ encoded fuel text
  unfolding encode_loop encoded
  encode_loop-encoded zero i n out [] t {result} e =
      let k : out ≡ result = cc in sym k ∙ sym (append-nil out)
  encode_loop-encoded (suc fuel) i n out [] t {result} e =
      let k : out ≡ result = cc in sym k ∙ sym (append-nil out)
  encode_loop-encoded zero i n out (c ∷ rest) t {result} e = cc
  encode_loop-encoded (suc fuel) i n out (c ∷ rest) t e =
      let (next, v, _, e') = bind-eq-ok (poll done i n) _ t e in
      let (piece, size) = encode_head c rest in
      encode_loop-encoded fuel (i + size) next (out ++ piece) (drop size (c ∷ rest)) v e'
      ∙ append_assoc out _ _

  -- The fuel is enough: the loop reaches the end of the text.
  encode_loop-eq-ok :
      ((n : ℕ) → done n ≡ false)
      → (fuel i next : ℕ) (out text : Bytes) (t : ℕ) → length text ≤ fuel
      → (o : Bytes) × (u : ℕ) × (encode_loop done fuel i next out text t ≡ (ok o, u))
  unfolding encode_loop poll check_context
  encode_loop-eq-ok alive zero i n out [] t h = (out, t, refl)
  encode_loop-eq-ok alive (suc fuel) i n out [] t h = (out, t, refl)
  encode_loop-eq-ok alive zero i n out (c ∷ rest) t h = absurd (omega arith)
  encode_loop-eq-ok alive (suc fuel) i n out (c ∷ rest) t h =
      let (piece, size) = encode_head c rest in
      let shorter : length (drop size (c ∷ rest)) ≤ fuel =
        omega (arith, length-drop size (c ∷ rest), (encode_head-Corresponds c rest).moves) in
      elim (Bool-cases (leb n i)) [
        | inl y ↦
            let (o, u, e) =
              encode_loop-eq-ok alive fuel (i + size) (i + context_check_interval) (out ++ piece)
                (drop size (c ∷ rest)) (suc t) shorter in
            (o, u, rw (y, alive t) e)
        | inr z ↦
            let (o, u, e) =
              encode_loop-eq-ok alive fuel (i + size) n (out ++ piece) (drop size (c ∷ rest)) t
                shorter in
            (o, u, rw z e)
      ]

  -- What the encoder writes for a string, if its context is not canceled, is a JSON string between
  -- quotes that reads as the string, with U+FFFD for each byte that is not part of valid UTF-8.
  pub encode_string_context-Reads :
      (value : Bytes) (t : ℕ) {out : Bytes} {u : ℕ}
      → encode_string_context done value t ≡ (ok out, u)
      → (s : Bytes) × (out ≡ 34 ∷ (s ++ (34 ∷ []))) × ((v : Bytes) × Repairs value v × Reads s v)
  unfolding encode_string_context
  encode_string_context-Reads value t {out} {u} e =
      let (o, v, e1, e2) =
        bind-eq-ok (encode_loop done (length value) 0 context_check_interval (34 ∷ []) value) _ t
          e in
      let (_, w, _, e3) = bind-eq-ok (check_context done) _ v e2 in
      let k : o ++ (34 ∷ []) ≡ out = cc in
      let l = encode_loop-encoded (length value) 0 context_check_interval (34 ∷ []) value t e1 in
      (
        encoded (length value) value,
        sym k ∙ ap (λ z. z ++ (34 ∷ [])) l,
        encoded-Reads (length value) value (omega arith),
      )

  encode_string_context_succeeds :
      ((n : ℕ) → done n ≡ false)
      → (value : Bytes) (t : ℕ)
      → (out : Bytes) × (u : ℕ) × (encode_string_context done value t ≡ (ok out, u))
  unfolding encode_string_context check_context
  encode_string_context_succeeds alive value t =
      let (o, u, e) =
        encode_loop-eq-ok alive (length value) 0 context_check_interval (34 ∷ []) value t
          (omega arith) in
      (o ++ (34 ∷ []), suc u, rw (e, alive u))

  -- While its context lives, the encoder reaches the end of every string and succeeds, with a JSON
  -- string between quotes that reads as the string, with U+FFFD for each byte that is not part of
  -- valid UTF-8.
  pub encode_string_context-eq-ok :
      ((n : ℕ) → done n ≡ false)
      → (value : Bytes) (t : ℕ)
      → (out : Bytes) × (u : ℕ) × (encode_string_context done value t ≡ (ok out, u))
        × ((s : Bytes) × (out ≡ 34 ∷ (s ++ (34 ∷ [])))
            × ((v : Bytes) × Repairs value v × Reads s v))
  encode_string_context-eq-ok alive value t =
      let (out, u, e) = encode_string_context_succeeds alive value t in
      (out, u, e, encode_string_context-Reads value t e)
