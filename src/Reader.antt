-- ===== src/Reader.antt =====
-- src/btree/binary-reader.ts: BinaryReader, which reads a file through a buffer. The file is its bytes,
-- of which `read` gives what there is; the cursor does not go below the start of the buffer.
pub mod Buffer
pub mod Refines
pub mod Runs
mod Tests
use acebase.Prelude.{
  ℕ, ◌+◌, ◌-◌, ◌*◌, ◌/◌, Bool, true, false, ◌&&◌, List, [], ◌∷◌, ◌++◌, take, drop, length, ltb, leb,
  ◌==◌, get_elem?, if◌then◌else◌, Option, none, some,
}

-- `data`, `offset` and `index`
pub record Reader : Type 0 where
  pub offset : ℕ
  pub index : ℕ
  pub buffer : List ℕ

pub data Error : Type 0 where
  eof invalid_byte_length : Error

pub data Result {ℓ} (A : Type ℓ) : Type ℓ where
  ok : A → Result A
  err : Error → Result A

infixl 5 ◌>>=◌
abbrev pub ◌>>=◌ {ℓ κ} : {A : Type ℓ} {B : Type κ} → Result A → (A → Result B) → Result B
ok a >>= f = f a
err e >>= f = err e

-- `sourceIndex`
abbrev pub source_index : Reader → ℕ
source_index r = r.offset + r.index

-- `read`: a Buffer that is shorter where the file ends.
abbrev pub read : List ℕ → ℕ → ℕ → List ℕ
read file index n = take n (drop index file)

-- A byte of a buffer that has it.
abbrev pub byte_at : List ℕ → ℕ → ℕ
byte_at bytes i = elim (get_elem? bytes i) [ none ↦ 0 | some b ↦ b ]

module _ (file : List ℕ) (chunk_size : ℕ) where
  abbrev pub load : ℕ → Reader
  load index = record { offset = index; index = 0; buffer = read file index chunk_size }

  -- `init`
  abbrev pub init : Reader
  init = load 0

  -- `more`
  pub more : ℕ → Reader → Reader
  more chunks r = record {
    offset = r.offset + r.index;
    index = 0;
    buffer = drop r.index r.buffer ++ read file (r.offset + length r.buffer) (chunks * chunk_size);
  }

  -- `assert`, for a number of bytes that is not negative.
  pub assert_bytes : ℕ → Reader → Result Reader
  unfolding more
  assert_bytes n r =
      if ltb (length r.buffer) (r.index + n)
      then (let r' = more ((n + (chunk_size - 1)) / chunk_size) r in
          if ltb (length r'.buffer) (r'.index + n) then err eof else ok r')
      else ok r

  -- `get`
  pub get : ℕ → Reader → Result (List ℕ × Reader)
  unfolding assert_bytes
  get n r = assert_bytes n r >>= λ r'.
      let slice = take n (drop r'.index r'.buffer) in
      if length slice == n
      then ok (slice, record r' { index = r'.index + n })
      else err invalid_byte_length

  -- `getValue`, before the bytes are read as a key: a type, a length, and as many bytes.
  pub get_value : Reader → Result (List ℕ × Reader)
  unfolding get
  get_value r =
      get 2 r >>= λ (header, r'). get (byte_at header 1 + 2) (record r' { index = r'.index - 2 })

  -- `seek`, forwards
  pub seek : ℕ → Reader → Reader
  seek n r =
      if ltb (r.index + n) (length r.buffer)
      then record r { index = r.index + n }
      else load (r.offset + r.index + n)

  -- `go`
  pub go : ℕ → Reader → Reader
  go index r =
      if leb r.offset index && ltb index (r.offset + length r.buffer)
      then record r { index = index - r.offset }
      else load index

-- `clone`
abbrev pub clone : Reader → Reader
clone r = record { offset = 0; index = 0; buffer = [] }

-- `skip`
abbrev pub skip : ℕ → Reader → Reader
skip n r = record r { index = r.index + n }
