-- ===== src/Binary/RoundTrip.antt =====
-- src/binary.ts: reading what was written.
use acebase.Prelude.{
  ℕ, zero, suc, ◌+◌, ◌-◌, ◌*◌, ◌/◌, ◌%◌, ◌≤◌, ◌<◌, ◌≡◌, refl, ap, ◌∙◌, arith, Bool, true, false,
  List, [], ◌∷◌, ◌++◌, ltb, leb, length, take, drop, if◌then◌else◌, some,
}
use acebase.Binary.{
  ℤ, pos, negsuc, is_negative, abs, signed, write_at, byte_length_bytes, write_byte_length, int32,
  int32_of, read_byte_length, signed_number_bytes, write_signed_number, signed_number_of,
  read_signed_number, offset_bytes, with_sign, write_signed_offset, signed_offset_of,
  read_signed_offset,
}

drop-write_at :
    (index : ℕ) (values bytes : List ℕ)
    → index ≤ length bytes
    → drop index (write_at index values bytes) ≡ values ++ drop (index + length values) bytes
drop-write_at zero values bytes h = refl
drop-write_at (suc index) values [] h = ground arith
drop-write_at (suc index) values (b ∷ bytes) h =
    ap (λ n. drop index (take index bytes ++ (values ++ drop n (b ∷ bytes))))
      {y = suc (index + length values)} (ground arith)
    ∙ drop-write_at index values bytes (ground arith)
    ∙ ap (λ n. values ++ drop n (b ∷ bytes)) {x = suc (index + length values)} (ground arith)

int32_lem :
    (n : ℕ)
    → n < 2147483648
    → int32 ((n / 16777216) % 256) ((n / 65536) % 256) ((n / 256) % 256) (n % 256) ≡ pos n
int32_lem n k =
    let total : (((n / 16777216) % 256) % 256) * 16777216
          + (((n / 65536) % 256) * 65536 + (((n / 256) % 256) * 256 + n % 256))
        ≡ n =
      ground arith in
    rw total (rw (small n k) refl)
  where
    small : (n : ℕ) → n < 2147483648 → ltb n 2147483648 ≡ true
    small n k = ground arith

-- A length below 2^31 is read back from where it was written.
pub read-write_byte_length :
    (index n : ℕ) (bytes : List ℕ)
    → index ≤ length bytes
    → n < 2147483648
    → read_byte_length index (write_byte_length index n bytes) ≡ pos n
unfolding read_byte_length write_byte_length
read-write_byte_length index n bytes h k =
    ap int32_of (drop-write_at index (byte_length_bytes n) bytes h) ∙ int32_lem n k

signed-abs : (z : ℤ) → signed (is_negative z) (abs z) ≡ z
signed-abs (pos n) = refl
signed-abs (negsuc n) = refl

number_total :
    (n s : ℕ)
    → n < 2147483648
    → (((n / 16777216) % 128 + s * 128) % 128) * 16777216
        + (((n / 65536) % 256) * 65536 + (((n / 256) % 256) * 256 + n % 256))
      ≡ n
number_total n s h = ground arith

negative_byte : (x : ℕ) → leb 128 ((x % 128 + 128) % 256) ≡ true
negative_byte x = ground arith

positive_byte : (x : ℕ) → leb 128 ((x % 128 + 0) % 256) ≡ false
positive_byte x = ground arith

signed_number_of-bytes :
    (negative : Bool) (n : ℕ) (rest : List ℕ)
    → n < 2147483648
    → signed_number_of (signed_number_bytes negative n ++ rest) ≡ signed negative n
signed_number_of-bytes true n rest h = rw (negative_byte (n / 16777216), number_total n 1 h) refl
signed_number_of-bytes false n rest h = rw (positive_byte (n / 16777216), number_total n 0 h) refl

-- A number of at most 31 bits and a sign is written, and read back from there.
pub read-write_signed_number :
    (index : ℕ) (z : ℤ) (bytes : List ℕ)
    → index ≤ length bytes
    → abs z ≤ 2147483647
    → (bytes' : List ℕ) × (write_signed_number index z bytes ≡ some bytes')
      × (read_signed_number index bytes' ≡ z)
unfolding write_signed_number read_signed_number
read-write_signed_number index z bytes h k = (
  write_at index (signed_number_bytes (is_negative z) (abs z)) bytes,
  rw fits refl,
  ap signed_number_of (drop-write_at index (signed_number_bytes (is_negative z) (abs z)) bytes h)
      ∙ signed_number_of-bytes (is_negative z) (abs z) [] (ground arith)
      ∙ signed-abs z,
)
  where
    fits : ltb 2147483647 (abs z) ≡ false
    fits = ground arith

next_byte : (n : ℕ) → (if leb n (n % 256) then 0 else (n - n % 256) / 256) ≡ n / 256
next_byte n = ground arith

offset_bytes-step :
    (count n : ℕ) (rest : List ℕ)
    → offset_bytes (suc count) n rest ≡ offset_bytes count (n / 256) (n % 256 ∷ rest)
offset_bytes-step count n rest = ap (λ m. offset_bytes count m (n % 256 ∷ rest)) (next_byte n)

abbrev six_bytes : ℕ → ℕ → ℕ → ℕ → ℕ → ℕ → List ℕ
six_bytes n a b c d e = e % 256 ∷ d % 256 ∷ c % 256 ∷ b % 256 ∷ a % 256 ∷ n % 256 ∷ []

offset_bytes-six :
    (n : ℕ)
    → offset_bytes 6 n []
      ≡ six_bytes n
          (n / 256)
          (n / 256 / 256)
          (n / 256 / 256 / 256)
          (n / 256 / 256 / 256 / 256)
          (n / 256 / 256 / 256 / 256 / 256)
offset_bytes-six n =
    offset_bytes-step 5 n []
    ∙ offset_bytes-step 4 _ _
    ∙ offset_bytes-step 3 _ _
    ∙ offset_bytes-step 2 _ _
    ∙ offset_bytes-step 1 _ _
    ∙ offset_bytes-step 0 _ _

offset_total :
    (n a b c d e : ℕ)
    → n < 140737488355328
    → a ≡ n / 256
    → b ≡ a / 256
    → c ≡ b / 256
    → d ≡ c / 256
    → e ≡ d / 256
    → ((e % 256) * 1099511627776
          + ((d % 256) * 4294967296
              + ((c % 256) * 16777216 + ((b % 256) * 65536 + ((a % 256) * 256 + n % 256))))
        ≡ n)
      × (e < 128)
offset_total n a b c d e h p q r s t = (ground arith, ground arith)

signed_offset_of-six :
    (negative : Bool) (n a b c d e : ℕ)
    → (e % 256) * 1099511627776
        + ((d % 256) * 4294967296
            + ((c % 256) * 16777216 + ((b % 256) * 65536 + ((a % 256) * 256 + n % 256))))
      ≡ n
    → e < 128
    → signed_offset_of (with_sign negative (six_bytes n a b c d e)) ≡ signed negative n
signed_offset_of-six true n a b c d e h k =
    let sign : leb 128 (e % 256 + 128) ≡ true = ground arith in
    let byte : e % 256 + 128 - 128 ≡ e % 256 = ground arith in rw (sign, byte, h) refl
signed_offset_of-six false n a b c d e h k =
    let sign : leb 128 (e % 256 + 0) ≡ false = ground arith in
    let byte : e % 256 + 0 ≡ e % 256 = ground arith in rw (sign, byte, h) refl

signed_offset_of-bytes :
    (negative : Bool) (n : ℕ)
    → n < 140737488355328
    → signed_offset_of (with_sign negative (offset_bytes 6 n [])) ≡ signed negative n
signed_offset_of-bytes negative n h =
    let (total, small) = offset_total n _ _ _ _ _ h refl refl refl refl refl in
    ap (λ bs. signed_offset_of (with_sign negative bs)) (offset_bytes-six n)
    ∙ signed_offset_of-six negative n (n / 256) (n / 256 / 256) (n / 256 / 256 / 256)
        (n / 256 / 256 / 256 / 256) (n / 256 / 256 / 256 / 256 / 256) total small

-- A large offset, of at most 47 bits and a sign, is written, and read back from there.
pub read-write_signed_offset :
    (index : ℕ) (z : ℤ) (bytes : List ℕ)
    → index ≤ length bytes
    → abs z ≤ 140737488355327
    → (bytes' : List ℕ) × (write_signed_offset true index z bytes ≡ some bytes')
      × (read_signed_offset true index bytes' ≡ z)
unfolding write_signed_offset read_signed_offset
read-write_signed_offset index z bytes h k = (
  write_at index values bytes,
  rw fits refl,
  ap signed_offset_of (drop-write_at index values bytes h)
      ∙ signed_offset_of-bytes (is_negative z) (abs z) (ground arith)
      ∙ signed-abs z,
)
  where
    values : List ℕ
    values = with_sign (is_negative z) (offset_bytes 6 (abs z) [])

    fits : ltb 140737488355327 (abs z) ≡ false
    fits = ground arith
