-- ===== src/Payload/Replace/Requested.antt =====
-- `Replace` makes the replacements that it was asked for, and no others.
use cpa_plugin_privacyfilter.Base.{
  All, Any, All-map, ℕ, ◌+◌, Bool, true, false, List, [], ◌∷◌, ◌++◌, map, ◌≡◌, ◌≢◌, ◌⊎◌, inl, inr,
  refl, subst, Bool-cases, Bytes, bytes_eq, bytes_eq_iff, length, arith,
}
use cpa_plugin_privacyfilter.Base.Int.{pos, ltb_ℤ, ◌-ℤ◌}
use cpa_plugin_privacyfilter.Spans.Search.{IsDisjoint}
use cpa_plugin_privacyfilter.Engine.Rebuild.{masked}
use cpa_plugin_privacyfilter.Payload.{ok, return-eq-ok, bind-eq-ok, check_context}
use cpa_plugin_privacyfilter.Payload.Encode.{encode_string_context}
use cpa_plugin_privacyfilter.Payload.Encode.Grammar.{Reads}
use cpa_plugin_privacyfilter.Payload.Encode.Pieces.{Repairs}
use cpa_plugin_privacyfilter.Payload.Encode.RoundTrip.{encode_string_context-Reads}
use cpa_plugin_privacyfilter.Payload.Splice.{StringEdit, splice}
use cpa_plugin_privacyfilter.Payload.Splice.Masked.{marked, splice-masked}
use cpa_plugin_privacyfilter.Payload.Token.{Document, canonical_token}
use cpa_plugin_privacyfilter.Payload.Replace.{
  Replacement, Candidate, is_before, insert_candidate, sort_candidates, candidate, candidates,
  check_overlaps, edit_of, edits, apply_edits, replace_some, replace_any, replace, lift_result,
}

module _ (P : Candidate → Type 0) where
  All-insert :
      (c : Candidate) (cs : List Candidate) → P c → All P cs → All P (insert_candidate c cs)
  unfolding insert_candidate
  All-insert c [] p h = (p, tt)
  All-insert c (d ∷ ds) p h = elim (Bool-cases (is_before d c)) [
    | inl y ↦ rw y (h.0, All-insert c ds p h.1)
    | inr n ↦ rw n (p, h)
  ]

  All-sort : (cs : List Candidate) → All P cs → All P (sort_candidates cs)
  unfolding sort_candidates
  All-sort [] h = tt
  All-sort (c ∷ cs) h = All-insert c (sort_candidates cs) h.0 (All-sort cs h.1)

  insert-All :
      (c : Candidate) (cs : List Candidate) → All P (insert_candidate c cs) → P c × All P cs
  unfolding insert_candidate
  insert-All c [] h = h
  insert-All c (d ∷ ds) h = elim (Bool-cases (is_before d c)) [
    | inl y ↦ let h' = rw y at h in let (p, k) = insert-All c ds h'.1 in (p, (h'.0, k))
    | inr n ↦ rw n at h
  ]

  sort-All : (cs : List Candidate) → All P (sort_candidates cs) → All P cs
  unfolding sort_candidates
  sort-All [] h = tt
  sort-All (c ∷ cs) h = let (p, k) = insert-All c (sort_candidates cs) h in (p, sort-All cs k)

-- A replacement as a candidate: its token is the document's own.
abbrev pub Asks : Document → Replacement → Candidate → Type 0
Asks d r c = (canonical_token d r.token ≡ ok c.token) × (c.value ≡ r.value)

-- The edit of a candidate: at the token, a JSON string that reads as the value that was asked for.
abbrev pub Makes : Candidate → StringEdit → Type 0
Makes c e =
    (e.span ≡ c.token.span)
    × (c.value ≢ c.token.value)
    × ((s : Bytes) × (e.encoded ≡ 34 ∷ (s ++ (34 ∷ [])))
        × ((v : Bytes) × Repairs c.value v × Reads s v))

module _ (done : ℕ → Bool) (d : Document) where
  candidate-Asks :
      (r : Replacement) (t : ℕ) {c : Candidate} {u : ℕ}
      → candidate done d r t ≡ (ok c, u)
      → Asks d r c
  unfolding candidate
  candidate-Asks r t {c} e =
      let (a, v, e1, e2) = bind-eq-ok (lift_result (canonical_token d r.token)) _ t e in
      let k : canonical_token d r.token ≡ ok a = cc in
      elim (Bool-cases (ltb_ℤ d.limits.max_string_bytes (pos (length r.value)))) [
        | inl y ↦ let bad = rw y at e2 in cc
        | inr n ↦
            let e3 = rw n at e2 in
            let same : record { token = a; value = r.value } ≡ c = cc in rw (← same) (k, refl)
      ]

  candidates-Asks :
      (rs : List Replacement) (t : ℕ) {cs : List Candidate} {u : ℕ}
      → candidates done d rs t ≡ (ok cs, u)
      → All (λ c. Any (λ r. Asks d r c) rs) cs
        × ((P : Candidate → Type 0) → All P cs → All (λ r. (c : Candidate) × Asks d r c × P c) rs)
  unfolding candidates
  candidates-Asks [] t {cs} e = let k : [] ≡ cs = cc in rw (← k) (tt, λ P h. tt)
  candidates-Asks (r ∷ rs) t {cs} e =
      let (_, v, _, e1) = bind-eq-ok (check_context done) _ t e in
      let (c, w, e2, e3) = bind-eq-ok (candidate done d r) _ v e1 in
      let (cs', x, e4, e5) = bind-eq-ok (candidates done d rs) _ w e3 in
      let k : c ∷ cs' ≡ cs = cc in
      let asks = candidate-Asks r v e2 in
      let (fore, back) = candidates-Asks rs w e4 in
      rw (← k) ((inl asks, All-map (λ z h. inr h) cs' fore), λ P h. ((c, asks, h.0), back P h.1))

  edit_of-Makes :
      (total : ℕ) (c : Candidate) (t : ℕ) {e : StringEdit} {u : ℕ}
      → c.value ≢ c.token.value
      → edit_of done d total c t ≡ (ok e, u)
      → Makes c e
  unfolding edit_of
  edit_of-Makes total c t {e} n h =
      let (o, v, h1, h2) = bind-eq-ok (encode_string_context done c.value) _ t h in
      elim (Bool-cases (ltb_ℤ (d.limits.max_replacement_bytes -ℤ pos total) (pos (length o)))) [
        | inl y ↦ let bad = rw y at h2 in cc
        | inr z ↦
            let h3 = rw z at h2 in
            let same : record { span = c.token.span; encoded = o } ≡ e = cc in
            rw (← same) (refl, n, encode_string_context-Reads done c.value t h1)
      ]

  abbrev Kept : List StringEdit → Candidate → Type 0
  Kept es c = (c.value ≡ c.token.value) ⊎ Any (Makes c) es

  Kept-further :
      (e : StringEdit) (es : List StringEdit) (c : Candidate) → Kept es c → Kept (e ∷ es) c
  Kept-further e es c (inl l) = inl l
  Kept-further e es c (inr r) = inr (inr r)

  edits_further :
      (Q : Candidate → Type 0) (c : Candidate) (cs : List Candidate) (e : StringEdit)
      (es : List StringEdit)
      → {all_edits : List StringEdit} → Q c
      → Makes c e
      → All (λ x. (y : Candidate) × Q y × Makes y x) es
      → All (λ y. (y.value ≡ y.token.value) ⊎ Any (Makes y) es) cs
      → e ∷ es ≡ all_edits
      → All (λ x. (y : Candidate) × Q y × Makes y x) all_edits
        × All (λ y. (y.value ≡ y.token.value) ⊎ Any (Makes y) all_edits) (c ∷ cs)
  edits_further Q c cs e es q makes made all k =
      subst (λ z. All (λ x. (y : Candidate) × Q y × Makes y x) z × All (Kept z) (c ∷ cs)) k
        (((c, q, makes), made), (inr (inl makes), All-map (Kept-further e es) cs all))

  edits-Makes :
      (total : ℕ) (cs : List Candidate) (t : ℕ) {es : List StringEdit} {u : ℕ}
      → edits done d total cs t ≡ (ok es, u)
      → (Q : Candidate → Type 0) → All Q cs
      → All (λ e. (c : Candidate) × Q c × Makes c e) es
        × All (λ c. (c.value ≡ c.token.value) ⊎ Any (Makes c) es) cs
  unfolding edits
  edits-Makes total [] t {es} h Q q = let k : [] ≡ es = cc in rw (← k) (tt, tt)
  edits-Makes total (c ∷ cs) t {es} h Q q =
      let (_, v, _, h1) = bind-eq-ok (check_context done) _ t h in
      elim (Bool-cases (bytes_eq c.value c.token.value)) [
        | inl y ↦
            let (made, all) = edits-Makes total cs v (rw y at h1) Q q.1 in
            (made, (inl ((bytes_eq_iff c.value c.token.value).0 y), all))
        | inr n ↦
            let (e, w, h2, h3) = bind-eq-ok (edit_of done d total c) _ v (rw n at h1) in
            let (es', x, h4, h5) = bind-eq-ok (edits done d (total + length e.encoded) cs) _ w h3 in
            let k = return-eq-ok (e ∷ es') x h5 in
            let differ : c.value ≢ c.token.value =
              ground (arith, bytes_eq_iff c.value c.token.value) in
            let makes = edit_of-Makes total c v differ h2 in
            let (made, all) = edits-Makes (total + length e.encoded) cs w h4 Q q.1 in
            edits_further Q c cs e es' q.0 makes made all k
      ]

  -- What a successful `Replace` returns for the edits that it made.
  abbrev pub Applied : List StringEdit → Bytes × Bool → Type 0
  Applied [] (out, changed) = (out ≡ d.body) × (changed ≡ false)
  Applied (e ∷ es) (out, changed) =
      IsDisjoint 0 (length d.body) (map (λ x. x.0) (map marked (e ∷ es)))
      × (out ≡ masked 0 d.body (map marked (e ∷ es)))
      × (changed ≡ true)

  apply_edits-Applied :
      (es : List StringEdit) (t : ℕ) {r : Bytes × Bool} {u : ℕ}
      → apply_edits done d.body es t ≡ (ok r, u)
      → Applied es r
  unfolding apply_edits
  apply_edits-Applied [] t {r} h = let k : (d.body, false) ≡ r = cc in rw (← k) (refl, refl)
  apply_edits-Applied (e ∷ es) t {r} h =
      let (o, v, h1, h2) = bind-eq-ok (splice done d.body (e ∷ es)) _ t h in
      let k : (o, true) ≡ r = cc in
      let (disjoint, out) = splice-masked done d.body (e ∷ es) t h1 in
      rw (← k) (disjoint, out, refl)

  -- The edits that a list of replacements asks for: each is made for one of them, and each of them
  -- is a token of the document that keeps its value or gets an edit.
  abbrev pub Complete : List Replacement → List StringEdit → Type 0
  Complete rs es =
      All (λ e. (c : Candidate) × Any (λ r. Asks d r c) rs × Makes c e) es
      × All (λ r. (c : Candidate) × Asks d r c × ((c.value ≡ c.token.value) ⊎ Any (Makes c) es)) rs

  replace_some-Complete :
      (rs : List Replacement) (t : ℕ) {r : Bytes × Bool} {u : ℕ}
      → replace_some done d rs t ≡ (ok r, u)
      → (es : List StringEdit) × Complete rs es × Applied es r
  unfolding replace_some
  replace_some-Complete rs t h =
      let (cs, v, h1, h2) = bind-eq-ok (candidates done d rs) _ t h in
      let (_, w, _, h3) = bind-eq-ok (check_context done) _ v h2 in
      let (_, x, _, h4) = bind-eq-ok (check_overlaps done d.body 0 (sort_candidates cs)) _ w h3 in
      let (es, y, h5, h6) = bind-eq-ok (edits done d 0 (sort_candidates cs)) _ x h4 in
      let (fore, back) = candidates-Asks rs t h1 in
      let Q : Candidate → Type 0 = λ c. Any (λ r. Asks d r c) rs in
      let (made, all) = edits-Makes 0 (sort_candidates cs) x h5 Q (All-sort Q cs fore) in
      let K : Candidate → Type 0 = λ c. (c.value ≡ c.token.value) ⊎ Any (Makes c) es in
      (es, (made, back K (sort-All K cs all)), apply_edits-Applied es y h6)

  replace_any-Complete :
      (rs : List Replacement) (t : ℕ) {r : Bytes × Bool} {u : ℕ}
      → replace_any done d rs t ≡ (ok r, u)
      → (es : List StringEdit) × Complete rs es × Applied es r
  replace_any-Complete [] t {r} h =
      let k : (d.body, false) ≡ r = cc in ([], (tt, tt), rw (← k) (refl, refl))
  replace_any-Complete (x ∷ rs) t h = replace_some-Complete (x ∷ rs) t h

  -- If `Replace` succeeds, it made edits that ascend and do not overlap. Each edit stands at the
  -- token of a replacement that changes the token's value, and is a JSON string that reads as the
  -- value asked for, with U+FFFD for each byte that is not part of valid UTF-8; each replacement has a
  -- token of the document, and has its edit or keeps the value. The output is the body with
  -- exactly the bytes under the edits replaced, and it is the body itself, and unchanged, if there
  -- is no edit.
  pub replace-Complete :
      (rs : List Replacement) (t : ℕ) {r : Bytes × Bool} {u : ℕ}
      → replace done d rs t ≡ (ok r, u)
      → (es : List StringEdit) × Complete rs es × Applied es r
  unfolding replace
  replace-Complete rs t h =
      let (_, v, _, h1) = bind-eq-ok (check_context done) _ t h in
      elim (Bool-cases (ltb_ℤ d.limits.max_replacements (pos (length rs)))) [
        | inl y ↦ let bad = rw y at h1 in cc
        | inr n ↦ replace_any-Complete rs v (rw n at h1)
      ]
