-- ===== src/Binary/Tests.antt =====
-- src/binary.ts: numbers in the middle of some bytes.
use acebase.Prelude.{ℕ, ◌≡◌, true, List, [], ◌∷◌, refl, arith, some}
use acebase.Binary.{pos, negsuc, write_signed_offset, read_signed_offset}
use acebase.Binary.RoundTrip.{read-write_signed_offset}

abbrev some_bytes : List ℕ
some_bytes = 1 ∷ 2 ∷ 3 ∷ 4 ∷ 5 ∷ 6 ∷ 7 ∷ 8 ∷ []

-- The example of the source.
large_offset :
    write_signed_offset true 0 (pos 2315765760) [] ≡ some (0 ∷ 0 ∷ 138 ∷ 7 ∷ 200 ∷ 0 ∷ [])
unfolding write_signed_offset
large_offset = refl

read-write_signed_offset_example :
    (bytes' : List ℕ) × (write_signed_offset true 1 (negsuc 70000) some_bytes ≡ some bytes')
    × (read_signed_offset true 1 bytes' ≡ negsuc 70000)
read-write_signed_offset_example =
    read-write_signed_offset 1 (negsuc 70000) some_bytes (ground arith) (ground arith)
