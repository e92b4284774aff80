-- ===== src/Allocation/Tests.antt =====
-- src/storage/binary/index.ts: the addresses of a node in two pages.
use acebase.Prelude.{◌+◌, ◌≤◌, inl, arith, ℕ, ◌≡◌, List, [], ◌∷◌, refl, some}
use acebase.FreeSpace.{AddressRange, width}
use acebase.FreeSpace.Sums.{granted, width-IsAdditive}
use acebase.Allocation.{
  record_file_index, FileSettings, Address, addresses, collect_ranges, from_addresses,
  normalize_rounds, normalize,
}
use acebase.Allocation.Addresses.{AreMaximal, addresses-from_addresses}
use acebase.Allocation.FilePlace.{record_file_index-apart}
use acebase.Allocation.Normalize.{normalize-granted}

abbrev at : ℕ → ℕ → Address
at page_nr record_nr = record { page_nr = page_nr; record_nr = record_nr }

abbrev range : ℕ → ℕ → ℕ → AddressRange
range page_nr record_nr length = record {
  page_nr = page_nr;
  record_nr = record_nr;
  length = length;
}

two_ranges : from_addresses (at 0 5 ∷ at 0 6 ∷ at 1 7 ∷ []) ≡ some (range 0 5 2 ∷ range 1 7 1 ∷ [])
unfolding from_addresses collect_ranges
two_ranges = refl

joins : normalize (range 0 5 2 ∷ range 1 0 1 ∷ range 0 3 2 ∷ []) ≡ range 1 0 1 ∷ range 0 3 4 ∷ []
unfolding normalize normalize_rounds
joins = refl

addresses-from_addresses_example :
    (rs : List AddressRange) × (from_addresses (at 0 5 ∷ at 0 6 ∷ at 1 7 ∷ []) ≡ some rs)
    × (addresses rs ≡ at 0 5 ∷ at 0 6 ∷ at 1 7 ∷ [])
    × AreMaximal rs
addresses-from_addresses_example = addresses-from_addresses (at 0 5) (at 0 6 ∷ at 1 7 ∷ [])

normalize-granted_example :
    granted width (normalize (range 0 5 2 ∷ range 0 3 2 ∷ []))
    ≡ granted width (range 0 5 2 ∷ range 0 3 2 ∷ [])
normalize-granted_example =
    normalize-granted width width-IsAdditive (range 0 5 2 ∷ range 0 3 2 ∷ [])

abbrev small_file : FileSettings
small_file = record { page_size = 8; record_size = 128; root_index = 131200 }

record_file_index-apart_example :
    record_file_index small_file 0 7 + small_file.record_size ≤ record_file_index small_file 1 0
record_file_index-apart_example =
    record_file_index-apart small_file 0 7 1 0 (ground arith) (inl (ground arith))
