-- ===== src/Payload/Splice/Masked.antt =====
-- What `splice` writes.
use cpa_plugin_privacyfilter.Base.{
  ℕ, zero, suc, ◌≤◌, ◌<◌, min, Bool, List, [], ◌∷◌, ◌++◌, map, ◌≡◌, ◌∙◌, ap, sym, arith, Bytes,
  length, take, drop, slice, length-drop, take-append-drop, append_assoc, append-nil,
}
use cpa_plugin_privacyfilter.Spans.{secret}
use cpa_plugin_privacyfilter.Spans.Search.{IsDisjoint}
use cpa_plugin_privacyfilter.Engine.{Finding, rebuild}
use cpa_plugin_privacyfilter.Engine.Rebuild.{masked, rebuild-masked}
use cpa_plugin_privacyfilter.Payload.{ok, bind-eq-ok, check_context}
use cpa_plugin_privacyfilter.Payload.Splice.{
  StringEdit, append_chunks, append_with_context, chunk_bytes, check_edit, check_edits, write_edits,
  splice,
}

-- An edit as a replaced finding, of a kind that does not matter.
abbrev pub marked : StringEdit → Finding × Bytes
marked e =
    (record { start = e.span.start; stop = e.span.stop; kind = secret; rule_id = [] }, e.encoded)

module _ (done : ℕ → Bool) where
  -- The fuel of `append_chunks` is enough.
  append_chunks-eq-ok :
      (fuel : ℕ) (dst src : Bytes) (t : ℕ) {out : Bytes} {u : ℕ}
      → length src ≤ fuel
      → append_chunks done fuel dst src t ≡ (ok out, u)
      → out ≡ dst ++ src
  unfolding append_chunks
  append_chunks-eq-ok zero dst [] t {out} h e =
      let k : dst ≡ out = cc in sym k ∙ sym (append-nil dst)
  append_chunks-eq-ok (suc fuel) dst [] t {out} h e =
      let k : dst ≡ out = cc in sym k ∙ sym (append-nil dst)
  append_chunks-eq-ok zero dst (b ∷ src) t h e = absurd (omega arith)
  append_chunks-eq-ok (suc fuel) dst (b ∷ src) t h e =
      let n = min chunk_bytes (length (b ∷ src)) in
      let (x, v, _, e') = bind-eq-ok (check_context done) _ t e in
      let r =
        append_chunks-eq-ok fuel (dst ++ take n (b ∷ src)) (drop n (b ∷ src)) v
          (omega (arith, length-drop n (b ∷ src))) e' in
      r ∙ append_assoc dst _ _ ∙ ap (λ z. dst ++ z) (take-append-drop n (b ∷ src))

  write_edits-eq-ok :
      (body out : Bytes) (p : ℕ) (es : List StringEdit) (t : ℕ) {result : Bytes} {u : ℕ}
      → write_edits done body out p es t ≡ (ok result, u)
      → result ≡ rebuild body out p (map marked es)
  unfolding write_edits rebuild
  write_edits-eq-ok body out p [] t e = append_chunks-eq-ok _ out (drop p body) t (omega arith) e
  write_edits-eq-ok body out p (x ∷ es) t e =
      let (o, v, e1, e2) =
        bind-eq-ok (append_with_context done out (slice body p x.span.start)) _ t e in
      let (o', w, e3, e4) = bind-eq-ok (append_with_context done o x.encoded) _ v e2 in
      let r = write_edits-eq-ok body o' x.span.stop es w e4 in
      let q = append_chunks-eq-ok _ out (slice body p x.span.start) t (omega arith) e1 in
      let q' = append_chunks-eq-ok _ o x.encoded v (omega arith) e3 in
      let written : o' ≡ out ++ slice body p x.span.start ++ x.encoded =
        q' ∙ ap (λ z. z ++ x.encoded) q in
      r ∙ ap (λ z. rebuild body z x.span.stop (map marked es)) written

  check_edit-fits :
      (body : Bytes) (size p : ℕ) (x : StringEdit) (t : ℕ) {n u : ℕ}
      → check_edit done body size p x t ≡ (ok n, u)
      → (p ≤ x.span.start) × (x.span.start < x.span.stop) × (x.span.stop ≤ length body)
  unfolding check_edit
  check_edit-fits body size p x t e = ground arith

  check_edits-IsDisjoint :
      (body : Bytes) (size p : ℕ) (es : List StringEdit) (t : ℕ) {n u : ℕ}
      → p ≤ length body
      → check_edits done body size p es t ≡ (ok n, u)
      → IsDisjoint p (length body) (map (λ x. x.0) (map marked es))
  unfolding check_edits
  check_edits-IsDisjoint body size p [] t h e = h
  check_edits-IsDisjoint body size p (x ∷ es) t h e =
      let (c, v, _, e2) = bind-eq-ok (check_context done) _ t e in
      let (n', w, e3, e4) = bind-eq-ok (check_edit done body size p x) _ v e2 in
      let f = check_edit-fits body size p x v e3 in
      (f.0, f.1, check_edits-IsDisjoint body n' x.span.stop es w f.2 e4)

  -- If `splice` succeeds, its edits ascend, do not overlap and lie in the body, and the result is the
  -- body with exactly the bytes under the edits replaced: every other byte is kept, in order, and
  -- each encoded string stands where its edit starts.
  pub splice-masked :
      (body : Bytes) (es : List StringEdit) (t : ℕ) {out : Bytes} {u : ℕ}
      → splice done body es t ≡ (ok out, u)
      → IsDisjoint 0 (length body) (map (λ x. x.0) (map marked es))
        × (out ≡ masked 0 body (map marked es))
  unfolding splice
  splice-masked body es t e =
      let (n, v, e1, e2) = bind-eq-ok (check_edits done body (length body) 0 es) _ t e in
      let d = check_edits-IsDisjoint body (length body) 0 es t (omega arith) e1 in
      (d, write_edits-eq-ok body [] 0 es v e2 ∙ rebuild-masked body (map marked es) d)
