-- ===== src/MsgPack/Decoder/Documents.antt =====
-- Calls of the decoder of src/core/vl_msgpack_io.c read a whole document back.
use veritable_lasagna.Base.{
  ℕ, ◌+◌, ◌*◌, ◌^◌, ◌≤◌, ◌<◌, ◌≡◌, refl, subst, true, false, some, List, [], ◌∷◌, ◌++◌, arith,
  length, length-append,
}
use veritable_lasagna.MsgPack.Format.{
  Item, Doc, value, Docs, no_more, element, Pairs, end, pair, elements, pairs, item_bytes,
  container_header, doc_bytes, docs_bytes, pairs_bytes,
}
use veritable_lasagna.MsgPack.Decoder.{Token, Decoder, array, map, next}
use veritable_lasagna.MsgPack.Decoder.Items.{Shows, Decodable, item-Reads}
use veritable_lasagna.MsgPack.Decoder.Source.{Holds, Holds-append, moved}
use veritable_lasagna.MsgPack.Decoder.Containers.{array-Reads, map-Reads}

-- Successful calls of `next`, one after another on one token, and the tokens that they store.
pub data Steps : Decoder → Token → List Token → Decoder → Type 0 where
  done : (dec : Decoder) (old : Token) → Steps dec old [] dec
  step :
      (dec dec' dec'' : Decoder) (old tok : Token) (toks : List Token)
      → next dec old ≡ (some tok, dec')
      → Steps dec' tok toks dec''
      → Steps dec old (tok ∷ toks) dec''

abbrev pub last_token : Token → List Token → Token
last_token old [] = old
last_token old (t ∷ ts) = last_token t ts

Steps-append :
    (dec dec' dec'' : Decoder) (old : Token) (xs ys : List Token)
    → Steps dec old xs dec'
    → Steps dec' (last_token old xs) ys dec''
    → Steps dec old (xs ++ ys) dec''
Steps-append dec dec' dec'' old xs ys (done d o) rest = rest
Steps-append dec dec' dec'' old xs ys (step d e f o tok toks call first) rest =
    step d e dec'' o tok (toks ++ ys) call (Steps-append e dec' dec'' tok toks ys first rest)

-- The tokens spell a document: each container is its header and then its elements, in order.
unfoldable mutual
  pub Spells : (ℕ → ℕ) → List Token → Doc → Type 0
  Spells mem toks (value item) = (tok : Token) × (toks ≡ tok ∷ []) × Shows mem tok item
  Spells mem toks (Doc.array ds) =
      (rest : List Token) × (toks ≡ array (elements ds) ∷ rest) × SpellsDocs mem rest ds
  Spells mem toks (Doc.map ps) =
      (rest : List Token) × (toks ≡ map (pairs ps) ∷ rest) × SpellsPairs mem rest ps

  pub SpellsDocs : (ℕ → ℕ) → List Token → Docs → Type 0
  SpellsDocs mem toks no_more = toks ≡ []
  SpellsDocs mem toks (element d ds) =
      (xs : List Token) × (ys : List Token) × (toks ≡ xs ++ ys)
      × Spells mem xs d
      × SpellsDocs mem ys ds

  pub SpellsPairs : (ℕ → ℕ) → List Token → Pairs → Type 0
  SpellsPairs mem toks end = toks ≡ []
  SpellsPairs mem toks (pair k d ps) =
      (key : Token) × (xs : List Token) × (ys : List Token) × (toks ≡ key ∷ (xs ++ ys))
      × Shows mem key (Item.string k)
      × Spells mem xs d
      × SpellsPairs mem ys ps

-- Every value can be read back, and the counts have 32 bits.
unfoldable mutual
  pub Readable : Doc → Type 0
  Readable (value item) = Decodable item
  Readable (Doc.array ds) = (elements ds < 2 ^ 32) × ReadableDocs ds
  Readable (Doc.map ps) = (2 * pairs ps < 2 ^ 32) × ReadablePairs ps

  pub ReadableDocs : Docs → Type 0
  ReadableDocs no_more = Unit {0}
  ReadableDocs (element d ds) = Readable d × ReadableDocs ds

  pub ReadablePairs : Pairs → Type 0
  ReadablePairs end = Unit {0}
  ReadablePairs (pair k d ps) = (length k < 2 ^ 32) × Readable d × ReadablePairs ps

-- One call, and then the others.
module _ (dec : Decoder) (small : dec.src_len < 2 ^ 63) where
  mutual
    unfolding Spells Readable doc_bytes

    pub doc_reads :
        (k : ℕ) (old : Token) (d : Doc)
        → Readable d
        → Holds dec.src_mem k (doc_bytes d)
        → k + length (doc_bytes d) ≤ dec.src_len
        → (toks : List Token) × Steps (moved dec k) old toks (moved dec (k + length (doc_bytes d)))
          × Spells dec.src_mem toks d
    doc_reads k old (value item) r h fits =
        let (tok, call, shows) = item-Reads (moved dec k) old small item r h fits in
        (tok ∷ [], step _ _ _ old tok [] call (done _ tok), (tok, refl, shows))
    doc_reads k old (Doc.array ds) (few, r) h fits =
        let head = container_header true (elements ds) in
        let (first, rest) = Holds-append dec.src_mem k head (docs_bytes ds) h in
        let len = length-append head (docs_bytes ds) in
        let call = array-Reads (moved dec k) old small (elements ds) few first (omega arith) in
        let (toks, steps, spells) =
          docs_reads (k + length head) (array (elements ds)) ds r rest (omega arith) in
        (
          array (elements ds) ∷ toks,
          step _ _ _ old (array (elements ds)) toks call (
              subst
                (λ z. Steps (moved dec (k + length head)) (array (elements ds)) toks (moved dec z))
                (omega arith) steps),
          (toks, refl, spells),
        )
    doc_reads k old (Doc.map ps) (few, r) h fits =
        let head = container_header false (pairs ps) in
        let (first, rest) = Holds-append dec.src_mem k head (pairs_bytes ps) h in
        let len = length-append head (pairs_bytes ps) in
        let call = map-Reads (moved dec k) old small (pairs ps) (omega arith) first (omega arith) in
        let (toks, steps, spells) =
          pairs_reads (k + length head) (map (pairs ps)) ps r rest (omega arith) in
        (
          map (pairs ps) ∷ toks,
          step _ _ _ old (map (pairs ps)) toks call (
              subst (λ z. Steps (moved dec (k + length head)) (map (pairs ps)) toks (moved dec z))
                (omega arith) steps),
          (toks, refl, spells),
        )

    docs_reads :
        (k : ℕ) (old : Token) (ds : Docs)
        → ReadableDocs ds
        → Holds dec.src_mem k (docs_bytes ds)
        → k + length (docs_bytes ds) ≤ dec.src_len
        → (toks : List Token) × Steps
            (moved dec k)
            old
            toks
            (moved dec (k + length (docs_bytes ds)))
          × SpellsDocs dec.src_mem toks ds
    docs_reads k old no_more r h fits = (
      [],
      subst (λ z. Steps (moved dec k) old [] (moved dec z)) (omega arith) (done (moved dec k) old),
      refl,
    )
    docs_reads k old (element d ds) (r, rs) h fits =
        let (first, rest) = Holds-append dec.src_mem k (doc_bytes d) (docs_bytes ds) h in
        let len = length-append (doc_bytes d) (docs_bytes ds) in
        let (xs, steps, spells) = doc_reads k old d r first (omega arith) in
        let (ys, steps', spells') =
          docs_reads (k + length (doc_bytes d)) (last_token old xs) ds rs rest (omega arith) in
        (
          xs ++ ys,
          Steps-append _ _ _ old xs ys steps (
              subst
                (λ z.
                  Steps (moved dec (k + length (doc_bytes d))) (last_token old xs) ys (moved dec z))
                (omega arith) steps'),
          (xs, ys, refl, spells, spells'),
        )

    pairs_reads :
        (k : ℕ) (old : Token) (ps : Pairs)
        → ReadablePairs ps
        → Holds dec.src_mem k (pairs_bytes ps)
        → k + length (pairs_bytes ps) ≤ dec.src_len
        → (toks : List Token) × Steps
            (moved dec k)
            old
            toks
            (moved dec (k + length (pairs_bytes ps)))
          × SpellsPairs dec.src_mem toks ps
    pairs_reads k old end r h fits = (
      [],
      subst (λ z. Steps (moved dec k) old [] (moved dec z)) (omega arith) (done (moved dec k) old),
      refl,
    )
    pairs_reads k old (pair key d ps) (rk, r, rs) h fits =
        let kb = item_bytes (Item.string key) in
        let (front, others) = Holds-append dec.src_mem k kb (doc_bytes d ++ pairs_bytes ps) h in
        let (first, rest) =
          Holds-append dec.src_mem (k + length kb) (doc_bytes d) (pairs_bytes ps) others in
        let len = length-append kb (doc_bytes d ++ pairs_bytes ps) in
        let len' = length-append (doc_bytes d) (pairs_bytes ps) in
        let (tok, call, shows) =
          item-Reads (moved dec k) old small (Item.string key) rk front (omega arith) in
        let (xs, steps, spells) = doc_reads (k + length kb) tok d r first (omega arith) in
        let (ys, steps', spells') =
          pairs_reads (k + length kb + length (doc_bytes d)) (last_token tok xs) ps rs rest
            (omega arith) in
        (
          tok ∷ (xs ++ ys),
          step _ _ _ old tok (xs ++ ys) call (
              Steps-append _ _ _ tok xs ys steps (
                subst
                  (λ z.
                    Steps (moved dec (k + length kb + length (doc_bytes d))) (last_token tok xs) ys
                      (moved dec z))
                  (omega arith) steps')),
          (tok, xs, ys, refl, shows, spells, spells'),
        )
