-- ===== src/MsgPack/Encoder/Errors.antt =====
-- The errors of the end calls of the encoder of src/core/vl_msgpack_io.c.
use veritable_lasagna.Base.{ℕ, ◌%◌, ◌^◌, ◌<◌, ◌≡◌, refl, ◌∙◌, true, false, ◌==◌, arith, length}
use veritable_lasagna.MsgPack.{MsgType, IoError}
use veritable_lasagna.MsgPack.Format.{Docs, elements, docs_bytes}
use veritable_lasagna.MsgPack.Encoder.{Encoder, map_begin, map_end, end_map}
use veritable_lasagna.MsgPack.Encoder.Trees.{encode_docs}
use veritable_lasagna.MsgPack.Encoder.Documents.{
  SizedDocs, encode_docs_lem, filled, map_begin-filled,
}

map_end-odd :
    (raw : ℕ → ℕ) (enc : Encoder) (ds : Docs)
    → elements ds % 2 ≡ 1
    → map_end (filled raw enc (docs_bytes ds) false (elements ds))
      ≡ record (filled raw enc (docs_bytes ds) false (elements ds)) {
        error = IoError.unbalanced_map;
        error_depth = length (filled raw enc (docs_bytes ds) false (elements ds)).state_stack;
        error_type = MsgType.map;
      }
unfolding map_end end_map
map_end-odd raw enc ds odd = let e : (elements ds % 2 == 1) ≡ true = ground arith in rw e refl

-- Where an odd number of documents was encoded in a map that was begun, its end call sets the
-- error to an unbalanced map at the depth of the open frames, and leaves the frame and the bytes.
pub map_end-unbalanced :
    (raw : ℕ → ℕ) (enc : Encoder) (ds : Docs)
    → SizedDocs ds
    → elements ds < 2 ^ 32
    → elements ds % 2 ≡ 1
    → (let open_map = encode_docs raw (map_begin raw enc) ds in
        map_end open_map ≡ record open_map {
          error = IoError.unbalanced_map;
          error_depth = length open_map.state_stack;
          error_type = MsgType.map;
        })
map_end-unbalanced raw enc ds sized few odd =
    let open_map =
      encode_docs_lem raw (map_begin raw enc) ds sized
      ∙ map_begin-filled raw enc (docs_bytes ds) (elements ds) few in
    rw open_map (map_end-odd raw enc ds odd)
