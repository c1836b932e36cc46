-- ===== src/MsgPack/Encoder/Documents.antt =====
-- The encoder of src/core/vl_msgpack_io.c writes whole documents in their format.
use mathlib.Core.List.{append_assoc, append-nil}
use veritable_lasagna.Base.{
  ℕ, zero, suc, ◌+◌, ◌*◌, ◌%◌, ◌^◌, ◌<◌, ◌≡◌, refl, sym, ap, ◌∙◌, Bool, true, false, List, [], ◌∷◌,
  ◌++◌, ◌==◌, arith, length,
}
use veritable_lasagna.MsgPack.Format.{
  string, Doc, value, array, map, Docs, no_more, element, Pairs, end, pair, elements, pairs,
  item_bytes, container_header, doc_bytes, docs_bytes, pairs_bytes, InRange,
}
use veritable_lasagna.MsgPack.Encoder.{
  Frame, Encoder, write, bump_top, increment, encode_push, pop_frame, encode_pop, resolved,
  map_begin, array_begin, end_map, map_end, end_array, array_end, frame_elements,
}
use veritable_lasagna.MsgPack.Encoder.Values.{encode_item}
use veritable_lasagna.MsgPack.Encoder.Trees.{encode_doc, encode_docs, encode_pairs}
use veritable_lasagna.MsgPack.Encoder.Integers.{write-write}
use veritable_lasagna.MsgPack.Encoder.Items.{encode_item_lem}
use veritable_lasagna.MsgPack.Encoder.Containers.{frame_at, resolved_lem}

-- The ranges of the C types in every value, and counts of 32 bits.
unfoldable mutual
  pub Sized : Doc → Type 0
  Sized (value item) = InRange item
  Sized (array ds) = (elements ds < 2 ^ 32) × SizedDocs ds
  Sized (map ps) = (2 * pairs ps < 2 ^ 32) × SizedPairs ps

  pub SizedDocs : Docs → Type 0
  SizedDocs no_more = Unit {0}
  SizedDocs (element d ds) = Sized d × SizedDocs ds

  pub SizedPairs : Pairs → Type 0
  SizedPairs end = Unit {0}
  SizedPairs (pair k d ps) = (length k < 2 ^ 32) × Sized d × SizedPairs ps

-- The increment that each of `n` elements makes.
abbrev pub increments : ℕ → Encoder → Encoder
increments zero enc = enc
increments (suc n) enc = increments n (increment enc)

increments-write :
    (n : ℕ) (enc : Encoder) (bs : List ℕ)
    → increments n (write enc bs) ≡ write (increments n enc) bs
increments-write zero enc bs = refl
increments-write (suc n) enc bs = increments-write n (increment enc) bs

increments_lem :
    (n : ℕ) (enc : Encoder) (f : Frame) (fs : List Frame)
    → f.total_elements + n < 2 ^ 32
    → increments n (record enc { state_stack = f ∷ fs })
      ≡ record enc { state_stack = record f { total_elements = f.total_elements + n } ∷ fs }
increments_lem zero enc f fs h =
    ap (λ z. record enc { state_stack = record f { total_elements = z } ∷ fs }) (omega arith)
increments_lem (suc n) enc f fs h =
    let next = (f.total_elements + 1) % 2 ^ 32 in
    let small : next ≡ f.total_elements + 1 = omega arith in
    increments_lem n enc (record f { total_elements = next }) fs (omega arith)
    ∙ ap (λ z. record enc { state_stack = record f { total_elements = z } ∷ fs }) (omega arith)

-- The frame and the claimed bytes of a container that begins, with `n` elements and `cs` behind it.
module _ (raw : ℕ → ℕ) (enc : Encoder) (cs : List ℕ) where
  abbrev pub filled : Bool → ℕ → Encoder
  filled is_array total = record enc {
    state_stack = frame_at enc.buffer is_array total ∷ bump_top enc.state_stack;
    buffer = (enc.buffer ++ (raw 0 ∷ raw 1 ∷ raw 2 ∷ raw 3 ∷ raw 4 ∷ [])) ++ cs;
  }

  array_begin-filled :
      (n : ℕ) → n < 2 ^ 32 → write (increments n (array_begin raw enc)) cs ≡ filled true n
  unfolding array_begin encode_push
  array_begin-filled n h =
      ap (λ z. write z cs)
        (increments_lem n (array_begin raw enc) (frame_at enc.buffer true 0)
          (bump_top enc.state_stack) (omega arith))
      ∙ ap (filled true) (omega arith)

  pub map_begin-filled :
      (n : ℕ) → n < 2 ^ 32 → write (increments n (map_begin raw enc)) cs ≡ filled false n
  unfolding map_begin encode_push
  map_begin-filled n h =
      ap (λ z. write z cs)
        (increments_lem n (map_begin raw enc) (frame_at enc.buffer false 0)
          (bump_top enc.state_stack) (omega arith))
      ∙ ap (filled false) (omega arith)

  resolved-filled :
      (is_array : Bool) (total n : ℕ)
      → frame_elements (frame_at enc.buffer is_array total) ≡ n
      → n < 2 ^ 32
      → resolved (frame_at enc.buffer is_array total) (filled is_array total).buffer
        ≡ enc.buffer ++ (container_header is_array n ++ cs)
  resolved-filled is_array total n size few =
      ap (resolved (frame_at enc.buffer is_array total))
        (append_assoc enc.buffer (raw 0 ∷ raw 1 ∷ raw 2 ∷ raw 3 ∷ raw 4 ∷ []) cs)
      ∙ resolved_lem enc.buffer (raw 0) (raw 1) (raw 2) (raw 3) (raw 4) cs is_array total n size few

  array_end_lem :
      (n : ℕ)
      → n < 2 ^ 32
      → array_end (filled true n) ≡ write (increment enc) (container_header true n ++ cs)
  unfolding array_end end_array encode_pop pop_frame
  array_end_lem n h =
      ap (λ z. write (record (increment enc) { buffer = [] }) z) (resolved-filled true n n refl h)

  map_end_lem :
      (n : ℕ)
      → 2 * n < 2 ^ 32
      → map_end (filled false (2 * n)) ≡ write (increment enc) (container_header false n ++ cs)
  unfolding map_end end_map encode_pop pop_frame
  map_end_lem n h =
      let even : (2 * n % 2 == 1) ≡ false = ground arith in
      rw even (
        ap (λ z. write (record (increment enc) { buffer = [] }) z)
          (resolved-filled false (2 * n) n (omega arith) (omega arith)))

two_more : (n : ℕ) → suc (suc (2 * n)) ≡ 2 * suc n
two_more n = omega arith

mutual
  unfolding encode_doc encode_item Sized doc_bytes

  doc_written :
      (raw : ℕ → ℕ) (enc : Encoder) (d : Doc)
      → Sized d
      → encode_doc raw enc d ≡ write (increment enc) (doc_bytes d)
  doc_written raw enc (value item) r = encode_item_lem enc item r
  doc_written raw enc (array ds) (few, r) =
      ap array_end (
        encode_docs_lem raw (array_begin raw enc) ds r
        ∙ array_begin-filled raw enc (docs_bytes ds) (elements ds) few)
      ∙ array_end_lem raw enc (docs_bytes ds) (elements ds) few
  doc_written raw enc (map ps) (few, r) =
      ap map_end (
        encode_pairs_lem raw (map_begin raw enc) ps r
        ∙ map_begin-filled raw enc (pairs_bytes ps) (2 * pairs ps) few)
      ∙ map_end_lem raw enc (pairs_bytes ps) (pairs ps) few

  pub encode_docs_lem :
      (raw : ℕ → ℕ) (enc : Encoder) (ds : Docs)
      → SizedDocs ds
      → encode_docs raw enc ds ≡ write (increments (elements ds) enc) (docs_bytes ds)
  encode_docs_lem raw enc no_more r =
      ap (λ z. record enc { buffer = z }) (sym (append-nil enc.buffer))
  encode_docs_lem raw enc (element d ds) (r, rs) =
      ap (λ z. encode_docs raw z ds) (doc_written raw enc d r)
      ∙ encode_docs_lem raw (write (increment enc) (doc_bytes d)) ds rs
      ∙ ap (λ z. write z (docs_bytes ds))
          (increments-write (elements ds) (increment enc) (doc_bytes d))
      ∙ write-write (increments (elements ds) (increment enc)) (doc_bytes d) (docs_bytes ds)

  encode_pairs_lem :
      (raw : ℕ → ℕ) (enc : Encoder) (ps : Pairs)
      → SizedPairs ps
      → encode_pairs raw enc ps ≡ write (increments (2 * pairs ps) enc) (pairs_bytes ps)
  encode_pairs_lem raw enc end r = ap (λ z. record enc { buffer = z }) (sym (append-nil enc.buffer))
  encode_pairs_lem raw enc (pair k d ps) (rk, r, rs) =
      let kb = item_bytes (string k) in
      let n = 2 * pairs ps in
      let enc2 = increment (increment enc) in
      ap (λ z. encode_pairs raw (encode_doc raw z d) ps) (encode_item_lem enc (string k) rk)
      ∙ ap (λ z. encode_pairs raw z ps) (doc_written raw (write (increment enc) kb) d r)
      ∙ encode_pairs_lem raw (write (write enc2 kb) (doc_bytes d)) ps rs
      ∙ ap (λ z. write z (pairs_bytes ps))
          (increments-write n (write enc2 kb) (doc_bytes d)
            ∙ ap (λ z. write z (doc_bytes d)) (increments-write n enc2 kb))
      ∙ write-write (write (increments n enc2) kb) (doc_bytes d) (pairs_bytes ps)
      ∙ write-write (increments n enc2) kb (doc_bytes d ++ pairs_bytes ps)
      ∙ ap (λ z. write (increments z enc) (pairs_bytes (pair k d ps))) (two_more (pairs ps))

-- Where the values are in the ranges of the C types and the counts have 32 bits, the calls that
-- encode a document append just its bytes in the format, whatever the claimed bytes held, and
-- count one element in the frame around it.
pub encode_doc_lem :
    (raw : ℕ → ℕ) (enc : Encoder) (d : Doc)
    → Sized d
    → encode_doc raw enc d ≡ write (increment enc) (doc_bytes d)
encode_doc_lem = doc_written
