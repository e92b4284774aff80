-- ===== src/FreeSpace/Tests.antt =====
-- src/storage/binary/index.ts: allocation on a small table, with pages of eight records.
use acebase.Prelude.{
  ℕ, length, ◌+◌, ◌≤◌, ◌≡◌, [], ◌∷◌, refl, arith, if◌then◌else◌, ltb, some, false,
}
use acebase.FreeSpace.{
  List, trim, allocate_records, release_ranges, FreeRange, AddressRange, Table, Grant, allocate,
  allocate_free, allocate_scraps, add_pages, collect, use_ranges, use_whole_pages, create_pages,
  release, normalize, width,
}
use acebase.FreeSpace.Sums.{holds, sum, granted, width-IsAdditive}
use acebase.FreeSpace.Conserve.{AreDisjoint, allocate-IsGranted, allocate_exclusive}
use acebase.FreeSpace.Scraps.{IsGranted, AreWithin}
use acebase.FreeSpace.File.{write, load, table_bytes}
use acebase.FreeSpace.Load.{IsTrimmed, load-write}
use acebase.FreeSpace.Released.{release-granted}

abbrev range : ℕ → ℕ → ℕ → FreeRange
range page start end = record { page = page; start = start; end = end }

abbrev span : ℕ → ℕ → ℕ → AddressRange
span page_nr record_nr length = record { page_nr = page_nr; record_nr = record_nr; length = length }

abbrev table : Table
table = record { ranges = range 0 2 4 ∷ range 0 5 8 ∷ range 1 6 8 ∷ []; pages = 2 }

-- Six records: the largest ranges are used, the last one in part.
uses_scraps :
    allocate 8 false 6 table
    ≡ some (record {
      allocation = span 0 5 3 ∷ span 0 2 2 ∷ span 1 6 1 ∷ [];
      table = record { ranges = range 1 7 8 ∷ []; pages = 2 };
      page_added = false;
    })
unfolding allocate allocate_records trim allocate_free allocate_scraps add_pages collect use_ranges
    use_whole_pages create_pages
uses_scraps = refl

joins_ranges :
    release false (span 0 4 1 ∷ []) table
    ≡ some (record table { ranges = range 0 2 8 ∷ range 1 6 8 ∷ [] })
unfolding release release_ranges trim normalize
joins_ranges = refl

table-AreWithin : AreWithin 8 table.ranges
table-AreWithin = ground arith

table-AreDisjoint : AreDisjoint table
table-AreDisjoint page record_nr = ground arith

allocate-IsGranted_example :
    (g : Grant) × (free : List FreeRange) × (allocate 8 false 6 table ≡ some g)
    × IsGranted width 8 6 table (record g { table = record g.table { ranges = free } })
    × IsTrimmed free g.table.ranges
allocate-IsGranted_example =
    allocate-IsGranted width width-IsAdditive 8 (ground arith) 6 table table-AreWithin

allocate_exclusive_example :
    (g : Grant) × (allocate 8 false 6 table ≡ some g)
    × ((page record_nr : ℕ)
        → granted (holds page record_nr) g.allocation + sum (holds page record_nr) g.table.ranges
          ≤ (if ltb page g.table.pages then 1 else 0))
allocate_exclusive_example =
    allocate_exclusive 8 6 table (ground arith) table-AreWithin table-AreDisjoint

release-granted_example :
    (t' : Table) × (free : List FreeRange) × (release false (span 0 4 1 ∷ []) table ≡ some t')
    × (sum width free ≡ sum width table.ranges + granted width (span 0 4 1 ∷ []))
    × IsTrimmed free t'.ranges
    × AreWithin 8 t'.ranges
    × (t'.pages ≡ table.pages)
release-granted_example =
    release-granted width width-IsAdditive 8 (span 0 4 1 ∷ []) table table-AreWithin (ground arith)

-- A page of 65536 records, which the settings allow, does not fit: its end is read back as 0.
whole_page_lost :
    load (write 0 (record { ranges = range 0 0 65536 ∷ []; pages = 1 })).0
    ≡ record { ranges = range 0 0 0 ∷ []; pages = 1 }
unfolding write load table_bytes trim
whole_page_lost = refl

load-write_example : (load (write 0 table).0 ≡ table) × ((write 0 table).1 ≡ table)
load-write_example = load-write 0 table (ground arith)
