-- ===== src/FreeSpace/File.antt =====
-- src/storage/binary/index.ts: how `FST.write` puts the table into bytes, big-endian, and `FST.load` gets
-- it back.
use acebase.Prelude.{ℕ, zero, suc, ◌+◌, ◌-◌, ◌*◌, ◌/◌, ◌%◌, List, [], ◌∷◌, ◌++◌, length, drop, max}
use acebase.FreeSpace.{FreeRange, Table, trimmed}

-- `setUint16`, `setUint32`
abbrev pub uint16 : ℕ → List ℕ
uint16 n = (n / 256) % 256 ∷ n % 256 ∷ []

abbrev pub uint32 : ℕ → List ℕ
uint32 n = (n / 16777216) % 256 ∷ (n / 65536) % 256 ∷ (n / 256) % 256 ∷ n % 256 ∷ []

-- `getUint16(index)`, `getUint32(index)` on the bytes from `index` on. (The source throws a `RangeError`
-- beyond the bytes that were read, where this is 0; what `write` wrote is never read beyond its end.)
abbrev pub read_uint16 : List ℕ → ℕ
read_uint16 (a ∷ b ∷ rest) = a * 256 + b
read_uint16 _ = 0

abbrev pub read_uint32 : List ℕ → ℕ
read_uint32 (a ∷ b ∷ c ∷ d ∷ rest) = a * 16777216 + b * 65536 + c * 256 + d
read_uint32 _ = 0

abbrev pub get_uint16 : ℕ → List ℕ → ℕ
get_uint16 index bytes = read_uint16 (drop index bytes)

abbrev pub get_uint32 : ℕ → List ℕ → ℕ
get_uint32 index bytes = read_uint32 (drop index bytes)

abbrev pub range_bytes : FreeRange → List ℕ
range_bytes r = uint32 r.page ++ (uint16 r.start ++ uint16 r.end)

abbrev pub ranges_bytes : List FreeRange → List ℕ
ranges_bytes [] = []
ranges_bytes (r ∷ rs) = range_bytes r ++ ranges_bytes rs

abbrev pub zeros : ℕ → List ℕ
zeros zero = []
zeros (suc n) = 0 ∷ zeros n

-- The first `bytesToWrite` bytes of `bytes`: the table, and zeros up to the end of the table before it,
-- whose length in bytes was `bytes_used`.
unfoldable pub table_bytes : ℕ → Table → List ℕ
table_bytes bytes_used t =
    let index = 6 + 8 * length t.ranges in
    uint32 t.pages
    ++ (uint16 (length t.ranges) ++ (ranges_bytes t.ranges ++ zeros (max bytes_used index - index)))

-- `FST.write`: the bytes that go to the file, and the table as it is after.
unfoldable pub write : ℕ → Table → List ℕ × Table
unfolding table_bytes
write bytes_used t = let t' = trimmed t in (table_bytes bytes_used t', t')

abbrev pub load_ranges : ℕ → ℕ → List ℕ → List FreeRange
load_ranges zero index bytes = []
load_ranges (suc count) index bytes =
    record {
      page = get_uint32 index bytes;
      start = get_uint16 (index + 4) bytes;
      end = get_uint16 (index + 6) bytes;
    }
    ∷ load_ranges count (index + 8) bytes

-- `FST.load`
unfoldable pub load : List ℕ → Table
load bytes = record {
  ranges = load_ranges (get_uint16 4 bytes) 6 bytes;
  pages = get_uint32 0 bytes;
}
