-- ===== src/MsgPack/Format.antt =====
-- The MessagePack format of single values, as src/core/vl_msgpack_io.c writes it.
use veritable_lasagna.Base.{
  ℕ, suc, ◌+◌, ◌-◌, ◌^◌, ◌<◌, ◌≡◌, Bool, true, false, List, [], ◌∷◌, ◌++◌, leb, if◌then◌else◌,
  arith, length,
}
use veritable_lasagna.MsgPack.Bytes.{padded, ℤ, pos, negsuc, word_bytes}

-- A value that is not a container. A float is its bits; `ext` has the byte of its type.
pub data Item : Type 0 where
  nil : Item
  boolean : Bool → Item
  integer : ℤ → Item
  uinteger : ℕ → Item
  float32 : ℕ → Item
  float64 : ℕ → Item
  string : List ℕ → Item
  binary : List ℕ → Item
  ext : ℕ → List ℕ → Item

-- The bytes of a value in the format.
abbrev pub string_header : ℕ → List ℕ
string_header n =
    if leb n 31
    then (160 + n) ∷ []
    else if leb n 255
    then 217 ∷ n ∷ []
    else if leb n 65535
    then 218 ∷ word_bytes 2 n
    else 219 ∷ word_bytes 4 n

abbrev pub binary_header : ℕ → List ℕ
binary_header n =
    if leb n 255
    then 196 ∷ n ∷ []
    else if leb n 65535
    then 197 ∷ word_bytes 2 n
    else 198 ∷ word_bytes 4 n

abbrev pub uint_bytes : ℕ → List ℕ
uint_bytes n =
    if leb n 255
    then 204 ∷ n ∷ []
    else if leb n 65535
    then 205 ∷ word_bytes 2 n
    else if leb n (2 ^ 32 - 1)
    then 206 ∷ word_bytes 4 n
    else 207 ∷ word_bytes 8 n

abbrev pub int_bytes : ℤ → List ℕ
int_bytes (pos n) =
    if leb n 127
    then n ∷ []
    else if leb n 32767
    then 209 ∷ word_bytes 2 n
    else if leb n (2 ^ 31 - 1)
    then 210 ∷ word_bytes 4 n
    else 211 ∷ word_bytes 8 n
int_bytes (negsuc n) =
    if leb n 30
    then (255 - n) ∷ []
    else if leb n 126
    then 208 ∷ (255 - n) ∷ []
    else if leb n 32766
    then 209 ∷ word_bytes 2 (65535 - n)
    else if leb n (2 ^ 31 - 2)
    then 210 ∷ word_bytes 4 (2 ^ 32 - 1 - n)
    else 211 ∷ word_bytes 8 (2 ^ 64 - 1 - n)

-- An extension of at most sixteen bytes is padded with zeros to a power of two.
abbrev pub ext_header : ℕ → ℕ → List ℕ
ext_header type n =
    if leb n 1
    then 212 ∷ type ∷ []
    else if leb n 2
    then 213 ∷ type ∷ []
    else if leb n 4
    then 214 ∷ type ∷ []
    else if leb n 8
    then 215 ∷ type ∷ []
    else if leb n 16
    then 216 ∷ type ∷ []
    else if leb n 255
    then 199 ∷ n ∷ type ∷ []
    else if leb n 65535
    then 200 ∷ (word_bytes 2 n ++ (type ∷ []))
    else 201 ∷ (word_bytes 4 n ++ (type ∷ []))

abbrev pub ext_payload : List ℕ → List ℕ
ext_payload v =
    let n = length v in
    if leb n 1
    then padded 1 v
    else if leb n 2
    then padded 2 v
    else if leb n 4
    then padded 4 v
    else if leb n 8
    then padded 8 v
    else if leb n 16
    then padded 16 v
    else v

abbrev pub item_bytes : Item → List ℕ
item_bytes nil = 192 ∷ []
item_bytes (boolean b) = (if b then 195 else 194) ∷ []
item_bytes (integer z) = int_bytes z
item_bytes (uinteger n) = uint_bytes n
item_bytes (float32 bits) = 202 ∷ word_bytes 4 bits
item_bytes (float64 bits) = 203 ∷ word_bytes 8 bits
item_bytes (string v) = string_header (length v) ++ v
item_bytes (binary v) = binary_header (length v) ++ v
item_bytes (ext type v) = ext_header type (length v) ++ ext_payload v

-- The ranges of the C types: 64-bit integers, and lengths of 32 bits.
abbrev pub InRange : Item → Type 0
InRange nil = Unit {0}
InRange (boolean b) = Unit {0}
InRange (integer (pos n)) = n < 2 ^ 63
InRange (integer (negsuc n)) = n < 2 ^ 63
InRange (uinteger n) = n < 2 ^ 64
InRange (float32 bits) = bits < 2 ^ 32
InRange (float64 bits) = bits < 2 ^ 64
InRange (string v) = length v < 2 ^ 32
InRange (binary v) = length v < 2 ^ 32
InRange (ext type v) = length v < 2 ^ 32

-- A length above sixteen is above the other sizes of a padded extension.
pub not_short :
    (n : ℕ)
    → leb n 16 ≡ false
    → (leb n 1 ≡ false) × (leb n 2 ≡ false) × (leb n 4 ≡ false) × (leb n 8 ≡ false)
not_short n h = (ground arith, ground arith, ground arith, ground arith)

-- A document: a value, or a container of documents.
mutual
  pub data Doc : Type 0 where
    value : Item → Doc
    array : Docs → Doc
    map : Pairs → Doc

  pub data Docs : Type 0 where
    no_more : Docs
    element : Doc → Docs → Docs

  pub data Pairs : Type 0 where
    end : Pairs
    pair : List ℕ → Doc → Pairs → Pairs

abbrev pub elements : Docs → ℕ
elements no_more = 0
elements (element d ds) = suc (elements ds)

abbrev pub pairs : Pairs → ℕ
pairs end = 0
pairs (pair k d ps) = suc (pairs ps)

-- The bytes before the elements of a container: `n` is the number of elements or of pairs.
abbrev pub container_header : Bool → ℕ → List ℕ
container_header is_array n =
    if leb n 15
    then (if is_array then 144 + n else 128 + n) ∷ []
    else if leb n 65535
    then (if is_array then 220 else 222) ∷ word_bytes 2 n
    else (if is_array then 221 else 223) ∷ word_bytes 4 n

-- The bytes of a document in the format.
unfoldable mutual
  pub doc_bytes : Doc → List ℕ
  doc_bytes (value item) = item_bytes item
  doc_bytes (array ds) = container_header true (elements ds) ++ docs_bytes ds
  doc_bytes (map ps) = container_header false (pairs ps) ++ pairs_bytes ps

  pub docs_bytes : Docs → List ℕ
  docs_bytes no_more = []
  docs_bytes (element d ds) = doc_bytes d ++ docs_bytes ds

  pub pairs_bytes : Pairs → List ℕ
  pairs_bytes end = []
  pairs_bytes (pair k d ps) = item_bytes (string k) ++ (doc_bytes d ++ pairs_bytes ps)
