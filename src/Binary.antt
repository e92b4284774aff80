-- ===== src/Binary.antt =====
-- src/binary.ts: numbers in bytes, as the files of the database have them.
pub mod RoundTrip
mod Tests
use acebase.Prelude.{
  ℕ, zero, suc, ◌+◌, ◌-◌, ◌*◌, ◌/◌, ◌%◌, Bool, true, false, List, [], ◌∷◌, ◌++◌, ltb, leb, length,
  take, drop, if◌then◌else◌, Option, none, some,
}

-- Signed numbers over the native naturals; `negsuc n` is `-(n + 1)`.
pub data ℤ : Type 0 where
  pos negsuc : ℕ → ℤ

abbrev pub is_negative : ℤ → Bool
is_negative (pos n) = false
is_negative (negsuc n) = true

abbrev pub abs : ℤ → ℕ
abs (pos n) = n
abs (negsuc n) = suc n

-- `-nr`, where a negative zero is zero
abbrev pub negated : ℕ → ℤ
negated zero = pos 0
negated (suc n) = negsuc n

abbrev pub signed : Bool → ℕ → ℤ
signed true n = negated n
signed false n = pos n

-- `bytes[index] = …; bytes[index+1] = …` and so on
abbrev pub write_at : ℕ → List ℕ → List ℕ → List ℕ
write_at index values bytes = take index bytes ++ (values ++ drop (index + length values) bytes)

abbrev pub byte_length_bytes : ℕ → List ℕ
byte_length_bytes n = (n / 16777216) % 256 ∷ (n / 65536) % 256 ∷ (n / 256) % 256 ∷ n % 256 ∷ []

-- `writeByteLength`
unfoldable pub write_byte_length : ℕ → ℕ → List ℕ → List ℕ
write_byte_length index n bytes = write_at index (byte_length_bytes n) bytes

-- The 32-bit number that the shifts and ors make, with its sign bit.
abbrev pub int32 : ℕ → ℕ → ℕ → ℕ → ℤ
int32 a b c d =
    let n = (a % 256) * 16777216 + (b * 65536 + (c * 256 + d)) in
    if ltb n 2147483648 then pos n else negated (4294967296 - n)

-- The bytes from an index on; the source reads `undefined` beyond the end, which a shift takes as 0.
abbrev pub int32_of : List ℕ → ℤ
int32_of (a ∷ b ∷ c ∷ d ∷ rest) = int32 a b c d
int32_of (a ∷ b ∷ c ∷ []) = int32 a b c 0
int32_of (a ∷ b ∷ []) = int32 a b 0 0
int32_of (a ∷ []) = int32 a 0 0 0
int32_of [] = int32 0 0 0 0

-- `readByteLength`
unfoldable pub read_byte_length : ℕ → List ℕ → ℤ
read_byte_length index bytes = int32_of (drop index bytes)

abbrev pub sign_bit : Bool → ℕ
sign_bit true = 128
sign_bit false = 0

abbrev pub signed_number_bytes : Bool → ℕ → List ℕ
signed_number_bytes negative n =
    ((n / 16777216) % 128 + sign_bit negative) ∷ (n / 65536) % 256 ∷ (n / 256) % 256 ∷ n % 256 ∷ []

-- `writeSignedNumber`; `none` is a thrown error.
unfoldable pub write_signed_number : ℕ → ℤ → List ℕ → Option (List ℕ)
write_signed_number index offset bytes =
    if ltb 2147483647 (abs offset)
    then none
    else some (write_at index (signed_number_bytes (is_negative offset) (abs offset)) bytes)

abbrev pub signed_number_of : List ℕ → ℤ
signed_number_of (a ∷ b ∷ c ∷ d ∷ rest) =
    signed (leb 128 (a % 256)) ((a % 128) * 16777216 + (b * 65536 + (c * 256 + d)))
signed_number_of _ = pos 0

-- `readSignedNumber`, on at least four bytes from the index on.
unfoldable pub read_signed_number : ℕ → List ℕ → ℤ
read_signed_number index bytes = signed_number_of (drop index bytes)

-- The loop of `writeSignedOffset`: `count` bytes, the last one first.
abbrev pub offset_bytes : ℕ → ℕ → List ℕ → List ℕ
offset_bytes zero n rest = rest
offset_bytes (suc count) n rest =
    let b = n % 256 in offset_bytes count (if leb n b then 0 else (n - b) / 256) (b ∷ rest)

-- `bytes[index] |= 0x80`, on a byte below 0x80
abbrev pub with_sign : Bool → List ℕ → List ℕ
with_sign negative [] = []
with_sign negative (b ∷ rest) = (b + sign_bit negative) ∷ rest

-- `writeSignedOffset`
unfoldable pub write_signed_offset : Bool → ℕ → ℤ → List ℕ → Option (List ℕ)
unfolding write_signed_number
write_signed_offset large index offset bytes =
    if large
    then if ltb 140737488355327 (abs offset)
      then none
      else some
          (write_at index (with_sign (is_negative offset) (offset_bytes 6 (abs offset) [])) bytes)
    else write_signed_number index offset bytes

abbrev pub unsigned_byte : Bool → ℕ → ℕ
unsigned_byte negative b = if negative then b - 128 else b

abbrev pub signed_offset_of : List ℕ → ℤ
signed_offset_of (a ∷ b ∷ c ∷ d ∷ e ∷ f ∷ rest) =
    let negative = leb 128 a in
    signed negative (
      unsigned_byte negative a * 1099511627776
      + (b * 4294967296 + (c * 16777216 + (d * 65536 + (e * 256 + f)))))
signed_offset_of _ = pos 0

-- `readSignedOffset`, on at least four bytes, or six if `large`, from the index on.
unfoldable pub read_signed_offset : Bool → ℕ → List ℕ → ℤ
unfolding read_signed_number
read_signed_offset large index bytes =
    if large then signed_offset_of (drop index bytes) else read_signed_number index bytes
