-- ===== src/Allocation.antt =====
-- src/storage/binary/index.ts: `NodeAllocation`, the addresses of a node's records, as ranges.
pub mod Addresses
pub mod Normalize
pub mod FilePlace
mod Tests
use acebase.Prelude.{
  ℕ, zero, suc, ◌+◌, ◌*◌, Bool, true, false, ◌||◌, not, List, [], ◌∷◌, ◌++◌, ◌==◌, if◌then◌else◌,
  Option, none, some, map, length,
}
use acebase.FreeSpace.{AddressRange}

-- `StorageAddress`
pub record Address : Type 0 where
  pub page_nr : ℕ
  pub record_nr : ℕ

-- `count` addresses from `record_nr` on.
abbrev pub run_of : ℕ → ℕ → ℕ → List Address
run_of page_nr record_nr zero = []
run_of page_nr record_nr (suc count) =
    record { page_nr = page_nr; record_nr = record_nr } ∷ run_of page_nr (suc record_nr) count

-- `NodeAllocation.addresses`
abbrev pub addresses : List AddressRange → List Address
addresses [] = []
addresses (r ∷ rs) = run_of r.page_nr r.record_nr r.length ++ addresses rs

-- `NodeAllocation.totalAddresses`
abbrev pub total_addresses : List AddressRange → ℕ
total_addresses [] = 0
total_addresses (r ∷ rs) = r.length + total_addresses rs

-- The loop of `fromAdresses` behind the first address; `range` is the last one, which is not closed yet.
unfoldable pub collect_ranges : AddressRange → List Address → List AddressRange
collect_ranges range [] = range ∷ []
collect_ranges range (a ∷ rest) =
    if not (a.page_nr == range.page_nr) || not (a.record_nr == range.record_nr + range.length)
    then range
      ∷ collect_ranges (record { page_nr = a.page_nr; record_nr = a.record_nr; length = 1 }) rest
    else collect_ranges (record range { length = suc range.length }) rest

-- `NodeAllocation.fromAdresses`; `none` is a thrown error.
unfoldable pub from_addresses : List Address → Option (List AddressRange)
unfolding collect_ranges
from_addresses [] = none
from_addresses (a ∷ rest) =
    some (collect_ranges (record { page_nr = a.page_nr; record_nr = a.record_nr; length = 1 }) rest)

abbrev pub behind : AddressRange → Option (List AddressRange) → Option (List AddressRange)
behind o none = none
behind o (some rs) = some (o ∷ rs)

-- The search of `normalize` for a range next to `r`, which takes `r` in.
abbrev pub join : AddressRange → List AddressRange → Option (List AddressRange)
join r [] = none
join r (o ∷ os) =
    let later = behind o (join r os) in
    if not (o.page_nr == r.page_nr)
    then later
    else if o.record_nr == r.record_nr + r.length
    then some (record o { length = o.length + r.length; record_nr = r.record_nr } ∷ os)
    else if r.record_nr == o.record_nr + o.length
    then some (record o { length = o.length + r.length } ∷ os)
    else later

-- `NodeAllocation.normalize`, with fuel for as many rounds as there are ranges.
unfoldable pub normalize_rounds : ℕ → List AddressRange → List AddressRange
normalize_rounds zero rs = rs
normalize_rounds (suc fuel) [] = []
normalize_rounds (suc fuel) (r ∷ rs) = elim (join r rs) [
  | some rs' ↦ normalize_rounds fuel rs'
  | none ↦ r ∷ normalize_rounds fuel rs
]

unfoldable pub normalize : List AddressRange → List AddressRange
unfolding normalize_rounds
normalize rs = normalize_rounds (length rs) rs

-- `NodeChunkTableRange`
pub record ChunkTableRange : Type 0 where
  pub type : ℕ
  pub page_nr : ℕ
  pub record_nr : ℕ
  pub length : ℕ

abbrev pub as_chunk : ℕ → AddressRange → ChunkTableRange
as_chunk type r = record {
  type = type;
  page_nr = r.page_nr;
  record_nr = r.record_nr;
  length = r.length;
}

abbrev pub is_single : List AddressRange → Bool
is_single (r ∷ []) = r.length == 1
is_single _ = false

abbrev pub typed : List AddressRange → List ChunkTableRange
typed [] = []
typed (r ∷ rs) = as_chunk 1 r ∷ map (as_chunk 2) rs

-- `NodeAllocation.toChunkTable`: no chunk table for a single record (type 0); else the first range of
-- type 1 and the others of type 2.
abbrev pub to_chunk_table : List AddressRange → List ChunkTableRange
to_chunk_table rs = if is_single rs then map (as_chunk 0) rs else typed rs

-- The settings of a database file: `pageSize` in records, `recordSize` in bytes, and the index of the
-- root record in the file.
pub record FileSettings : Type 0 where
  pub page_size : ℕ
  pub record_size : ℕ
  pub root_index : ℕ

-- `pageByteSize`
abbrev pub page_byte_size : FileSettings → ℕ
page_byte_size c = c.page_size * c.record_size

-- `getRecordFileIndex`
abbrev pub record_file_index : FileSettings → ℕ → ℕ → ℕ
record_file_index c page_nr record_nr =
    c.root_index + page_nr * page_byte_size c + record_nr * c.record_size
