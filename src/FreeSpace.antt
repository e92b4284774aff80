-- ===== src/FreeSpace.antt =====
-- src/storage/binary/index.ts: the free space table of the database file, `FST`, in the process that is
-- the master: which records of which pages are free, how records are allocated and released.
pub mod Sums
pub mod Collect
pub mod Take
pub mod Scraps
pub mod Conserve
pub mod Released
pub mod File
pub mod Load
mod Tests
use acebase.Prelude.{
  map, ℕ, zero, suc, ◌+◌, ◌-◌, ◌/◌, min, Bool, true, false, ◌&&◌, ◌||◌, not, List, [], ◌∷◌, ◌++◌,
  ltb, leb, ◌==◌, length, take, if◌then◌else◌, find, Option, none, some,
}

-- A free range, from `start` up to but not including `end`.
pub record FreeRange : Type 0 where
  pub page : ℕ
  pub start : ℕ
  pub end : ℕ

-- `StorageAddressRange`
pub record AddressRange : Type 0 where
  pub page_nr : ℕ
  pub record_nr : ℕ
  pub length : ℕ

-- `FST`: the ranges and the number of pages of the file.
pub record Table : Type 0 where
  pub ranges : List FreeRange
  pub pages : ℕ

-- What `allocate` returns, and leaves.
pub record Grant : Type 0 where
  pub allocation : List AddressRange
  pub table : Table
  pub page_added : Bool

-- `r.end - r.start`; no range ends before it starts.
abbrev pub width : FreeRange → ℕ
width r = r.end - r.start

-- Ranges are objects in the source, found by `indexOf`. No two free ranges of a table are equal, so
-- they are found by their fields here.
abbrev pub same_range : FreeRange → FreeRange → Bool
same_range a b = (a.page == b.page) && ((a.start == b.start) && (a.end == b.end))

abbrev pub erase : FreeRange → List FreeRange → List FreeRange
erase x [] = []
erase x (y ∷ ys) = if same_range y x then ys else y ∷ erase x ys

-- `r.start += n` on a range of the list
abbrev pub advance : FreeRange → ℕ → List FreeRange → List FreeRange
advance x n [] = []
advance x n (y ∷ ys) =
    if same_range y x then record y { start = y.start + n } ∷ ys else y ∷ advance x n ys

abbrev pub total_free : List FreeRange → ℕ
total_free [] = 0
total_free (r ∷ rs) = width r + total_free rs

abbrev pub whole_page : ℕ → ℕ → FreeRange
whole_page per_page page = record { page = page; start = 0; end = per_page }

-- `while (totalFree < requiredRecords)`: a round adds a page, and fuel for `requiredRecords` rounds is
-- enough where a page has a record.
unfoldable pub add_pages : ℕ → ℕ → ℕ → ℕ → Table → Table × Bool
add_pages zero per_page total required t = (t, false)
add_pages (suc fuel) per_page total required t =
    if ltb total required
    then (let t' : Table = record {
      ranges = t.ranges ++ whole_page per_page t.pages ∷ [];
      pages = suc t.pages;
    } in
        ((add_pages fuel per_page (total + per_page) required t').0, true))
    else (t, false)

-- The order of `sortedRanges`: large ranges first, then by page.
abbrev pub larger_first : FreeRange → FreeRange → Bool
larger_first a b =
    if ltb (width a) (width b)
    then false
    else if ltb (width b) (width a)
    then true
    else leb a.page b.page

-- The order of `FST.sort`.
abbrev pub address_first : FreeRange → FreeRange → Bool
address_first a b =
    if ltb a.page b.page then true else if ltb b.page a.page then false else leb a.start b.start

-- A stable sort, like `Array.sort`.
abbrev pub insert_range :
    (FreeRange → FreeRange → Bool) → FreeRange → List FreeRange → List FreeRange
insert_range le x [] = x ∷ []
insert_range le x (y ∷ ys) = if le x y then x ∷ y ∷ ys else y ∷ insert_range le x ys

abbrev pub sort_ranges : (FreeRange → FreeRange → Bool) → List FreeRange → List FreeRange
sort_ranges le [] = []
sort_ranges le (x ∷ xs) = insert_range le x (sort_ranges le xs)

-- `test`
pub record Test : Type 0 where
  pub ranges : List FreeRange
  pub total_records : ℕ
  pub whole_pages : ℕ
  pub additional_ranges : ℕ

abbrev pub no_test : Test
no_test = record { ranges = []; total_records = 0; whole_pages = 0; additional_ranges = 0 }

abbrev pub test_with : ℕ → FreeRange → Test → Test
test_with per_page r test =
    if width r == per_page
    then record {
      ranges = test.ranges ++ r ∷ [];
      total_records = test.total_records + width r;
      whole_pages = suc test.whole_pages;
      additional_ranges = test.additional_ranges;
    }
    else record {
      ranges = test.ranges ++ r ∷ [];
      total_records = test.total_records + width r;
      whole_pages = test.whole_pages;
      additional_ranges = suc test.additional_ranges;
    }

-- The loop that collects ranges, largest first.
unfoldable pub collect : ℕ → ℕ → ℕ → List FreeRange → Test → Test
collect per_page max_ranges required [] test = test
collect per_page max_ranges required (r ∷ rs) test =
    if ltb test.total_records required && leb test.additional_ranges max_ranges
    then collect per_page max_ranges required rs (test_with per_page r test)
    else test

-- Addresses taken so far, the ranges left, and how many records are still required.
pub record Progress : Type 0 where
  pub allocation : List AddressRange
  pub ranges : List FreeRange
  pub required : ℕ

-- The loop over the whole pages among the collected ranges.
unfoldable pub use_whole_pages : ℕ → List FreeRange → Progress → Progress
use_whole_pages per_page [] s = s
use_whole_pages per_page (r ∷ rs) s = use_whole_pages per_page rs (record {
  allocation = s.allocation ++ record { page_nr = r.page; record_nr = 0; length = per_page } ∷ [];
  ranges = erase r s.ranges;
  required = s.required - per_page;
})

-- A new page, of which the required records are used.
abbrev pub new_page : ℕ → ℕ → Progress → Progress
new_page per_page page s =
    let used = min s.required per_page in
    record {
      allocation = s.allocation ++ record { page_nr = page; record_nr = 0; length = used } ∷ [];
      ranges =
          if ltb used per_page
          then s.ranges ++ record { page = page; start = used; end = per_page } ∷ []
          else s.ranges;
      required = s.required - used;
    }

unfoldable pub create_pages : ℕ → ℕ → ℕ → Progress → Progress
create_pages zero per_page page s = s
create_pages (suc n) per_page page s = create_pages n per_page (suc page) (new_page per_page page s)

-- One round of `test.ranges.forEach`.
abbrev pub use_range : FreeRange → Progress → Progress
use_range r s =
    if ltb s.required (width r)
    then record {
      allocation =
          s.allocation
          ++ record { page_nr = r.page; record_nr = r.start; length = s.required } ∷ [];
      ranges = advance r s.required s.ranges;
      required = 0;
    }
    else record {
      allocation =
          s.allocation ++ record { page_nr = r.page; record_nr = r.start; length = width r } ∷ [];
      ranges = erase r s.ranges;
      required = s.required - width r;
    }

unfoldable pub use_ranges : List FreeRange → Progress → Progress
use_ranges [] s = s
use_ranges (r ∷ rs) s = use_ranges rs (use_range r s)

-- `Math.ceil(n / perPage)`
abbrev pub ceil_div : ℕ → ℕ → ℕ
ceil_div n zero = 0
ceil_div n (suc d) = (n + d) / suc d

-- "we'll have to deal with the scraps"
unfoldable pub allocate_scraps : ℕ → ℕ → ℕ → Table → Bool → Grant
unfolding collect use_whole_pages create_pages use_ranges
allocate_scraps per_page max_ranges required t page_added =
    let test = collect per_page max_ranges required (sort_ranges larger_first t.ranges) no_test in
    let start : Progress = record { allocation = []; ranges = t.ranges; required = required } in
    if ltb max_ranges test.additional_ranges
    then (let pages_to_create = ceil_div required per_page - test.whole_pages in
        let s =
          create_pages pages_to_create per_page t.pages
            (use_whole_pages per_page (take test.whole_pages test.ranges) start) in
        record {
          allocation = s.allocation;
          table = record { ranges = s.ranges; pages = t.pages + pages_to_create };
          page_added = page_added || ltb 0 pages_to_create;
        })
    else (let s = use_ranges test.ranges start in
        record {
          allocation = s.allocation;
          table = record t { ranges = s.ranges };
          page_added = page_added;
        })

-- `FST.getMaxScraps` of the master
abbrev pub max_scraps : Table → ℕ
max_scraps t = if ltb 7500 (length t.ranges) then 10 else 3

-- `FST.allocate` once there is enough free space
unfoldable pub allocate_free : ℕ → ℕ → Table → Bool → Grant
unfolding allocate_scraps
allocate_free per_page required t page_added =
    let scraps = allocate_scraps per_page (max_scraps t) required t page_added in
    if leb required per_page
    then (elim (find (λ r. width r == required) t.ranges) [
      | some r ↦ record {
        allocation = record { page_nr = r.page; record_nr = r.start; length = required } ∷ [];
        table = record t { ranges = erase r t.ranges };
        page_added = page_added;
      }
      | none ↦ elim (find (λ r. ltb required (width r)) t.ranges) [
        | some r ↦ record {
          allocation = record { page_nr = r.page; record_nr = r.start; length = required } ∷ [];
          table = record t { ranges = advance r required t.ranges };
          page_added = page_added;
        }
        | none ↦ scraps
      ]
    ])
    else scraps

-- The order in which ranges are dropped from a table that is too big. Ranges of one size keep their
-- order.
abbrev pub smaller_first : FreeRange → FreeRange → Bool
smaller_first a b = leb (width a) (width b)

abbrev pub erase_all : List FreeRange → List FreeRange → List FreeRange
erase_all [] rs = rs
erase_all (x ∷ xs) rs = erase_all xs (erase x rs)

-- "Remove smallest ranges"
unfoldable pub trim : List FreeRange → List FreeRange
trim rs =
    if ltb 8191 (length rs)
    then erase_all (take (length rs - 8191) (sort_ranges smaller_first rs)) rs
    else rs

-- The ranges that `FST.write` leaves in the table, before it puts them into bytes.
abbrev pub trimmed : Table → Table
trimmed t = record t { ranges = trim t.ranges }

-- `FST.allocate` of an unlocked file, before it writes the table
unfoldable pub allocate_records : ℕ → ℕ → Table → Grant
unfolding add_pages allocate_free
allocate_records per_page required t =
    let added = add_pages required per_page (total_free t.ranges) required t in
    allocate_free per_page required added.0 added.1

-- `FST.allocate`, with what its write leaves of the table; `none` is a thrown error.
unfoldable pub allocate : ℕ → Bool → ℕ → Table → Option Grant
unfolding allocate_records
allocate per_page is_locked required t =
    if is_locked
    then none
    else (let g = allocate_records per_page required t in
        some (record g { table = trimmed g.table }))

abbrev pub before : FreeRange → Option (List FreeRange) → Option (List FreeRange)
before o none = none
before o (some xs) = some (o ∷ xs)

-- The search for a range next to `r` among those behind it, which takes `r` in.
abbrev pub merge : FreeRange → List FreeRange → Option (List FreeRange)
merge r [] = none
merge r (o ∷ os) =
    let later = before o (merge r os) in
    if not (o.page == r.page)
    then later
    else if o.start == r.end
    then some (record o { start = r.start } ∷ os)
    else if r.start == o.end
    then some (record o { end = r.end } ∷ os)
    else later

-- "Now normalize the ranges": a round moves on by one range, which either stays or was taken in by a
-- later one; fuel for as many rounds as there are ranges is enough.
unfoldable pub normalize : ℕ → List FreeRange → List FreeRange
normalize zero rs = rs
normalize (suc fuel) [] = []
normalize (suc fuel) (r ∷ rs) = elim (merge r rs) [
  | some rs' ↦ normalize fuel rs'
  | none ↦ r ∷ normalize fuel rs
]

abbrev pub freed : AddressRange → FreeRange
freed a = record { page = a.page_nr; start = a.record_nr; end = a.record_nr + a.length }

-- The ranges after `FST.release`, before it writes the table
unfoldable pub release_ranges : List AddressRange → List FreeRange → List FreeRange
unfolding normalize
release_ranges addresses rs =
    let all = sort_ranges address_first (rs ++ map freed addresses) in
    sort_ranges address_first (normalize (length all) all)

-- `FST.release`, with what its write leaves of the table; `none` is a thrown error.
unfoldable pub release : Bool → List AddressRange → Table → Option Table
unfolding release_ranges
release is_locked addresses t =
    if is_locked
    then none
    else some (trimmed (record t { ranges = release_ranges addresses t.ranges }))
