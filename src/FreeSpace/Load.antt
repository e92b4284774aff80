-- ===== src/FreeSpace/Load.antt =====
-- src/storage/binary/index.ts: loading a free space table that was written.
use acebase.Prelude.{
  if_both, inl, inr, ℕ, zero, suc, ◌+◌, ◌-◌, ◌*◌, ◌≤◌, ◌<◌, ◌≡◌, refl, sym, ap, ◌∙◌, arith, false,
  List, [], ◌∷◌, ◌++◌, ltb, All, length, take, drop, take-append-drop, length-drop, max, Bool-cases,
}
use acebase.FreeSpace.{
  same_range, FreeRange, Table, erase, sort_ranges, smaller_first, erase_all, trim,
}
use acebase.FreeSpace.Sums.{sum, SameSums, SameSums-erase, sum-sort_ranges}
use acebase.FreeSpace.File.{
  uint16, uint32, read_uint16, read_uint32, get_uint16, get_uint32, ranges_bytes, zeros,
  table_bytes, write, load_ranges, load,
}

read_uint16_lem : (n : ℕ) (rest : List ℕ) → n < 65536 → read_uint16 (uint16 n ++ rest) ≡ n
read_uint16_lem n rest h = ground arith

read_uint32_lem : (n : ℕ) (rest : List ℕ) → n < 4294967296 → read_uint32 (uint32 n ++ rest) ≡ n
read_uint32_lem n rest h = ground arith

-- What fits into the eight bytes of a range.
abbrev pub FitsRange : FreeRange → Type 0
FitsRange r = (r.page < 4294967296) × (r.start < 65536) × (r.end < 65536)

drop-add : (i n : ℕ) (bytes : List ℕ) → drop (i + n) bytes ≡ drop n (drop i bytes)
drop-add zero n bytes = ap (λ k. drop k bytes) (ground arith)
drop-add (suc i) zero [] = ap (λ k. drop k []) {y = suc i} (ground arith)
drop-add (suc i) (suc n) [] = ap (λ k. drop k []) {y = suc (i + suc n)} (ground arith)
drop-add (suc i) n (b ∷ bytes) =
    ap (λ k. drop k (b ∷ bytes)) {y = suc (i + n)} (ground arith) ∙ drop-add i n bytes

load_ranges-bytes :
    (rs : List FreeRange) (index : ℕ) (bytes rest : List ℕ)
    → All FitsRange rs
    → drop index bytes ≡ ranges_bytes rs ++ rest
    → load_ranges (length rs) index bytes ≡ rs
load_ranges-bytes [] index bytes rest v h = refl
load_ranges-bytes (r ∷ rs) index bytes rest v h =
    let start : get_uint16 (index + 4) bytes ≡ r.start =
      ap read_uint16 (drop-add index 4 bytes ∙ ap (drop 4) h) ∙ read_uint16_lem r.start [] v.0.1 in
    let end : get_uint16 (index + 6) bytes ≡ r.end =
      ap read_uint16 (drop-add index 6 bytes ∙ ap (drop 6) h) ∙ read_uint16_lem r.end [] v.0.2 in
    let page : get_uint32 index bytes ≡ r.page =
      ap read_uint32 h ∙ read_uint32_lem r.page [] v.0.0 in
    let others : load_ranges (length rs) (index + 8) bytes ≡ rs =
      load_ranges-bytes rs (index + 8) bytes rest v.1 (drop-add index 8 bytes ∙ ap (drop 8) h) in
    rw (page, start, end, others) refl

-- What fits into the file: at most 8191 ranges, with 32 bits for a page and 16 bits for a record.
abbrev pub FitsFile : Table → Type 0
FitsFile t = (t.pages < 4294967296) × (length t.ranges ≤ 8191) × All FitsRange t.ranges

abbrev as_table : List FreeRange → ℕ → Table
as_table rs p = record { ranges = rs; pages = p }

-- A table that fits, written over a shorter or longer one, is loaded as it was.
pub load-write :
    (bytes_used : ℕ) (t : Table)
    → FitsFile t
    → (load (write bytes_used t).0 ≡ t) × ((write bytes_used t).1 ≡ t)
unfolding load write table_bytes trim
load-write bytes_used t v =
    let all : trim t.ranges ≡ t.ranges = rw (small, trim) refl in
    (
      ap (λ rs. load (table_bytes bytes_used (record t { ranges = rs }))) all
          ∙ table_equal _ _ _ _
              (ap (λ n. load_ranges n 6 (table_bytes bytes_used t))
                  (read_uint16_lem (length t.ranges) [] (ground arith))
                ∙ load_ranges-bytes t.ranges 6 (table_bytes bytes_used t) after v.2 refl)
              (read_uint32_lem t.pages [] v.0),
      ap (λ rs. record t { ranges = rs }) all,
    )
  where
    small : ltb 8191 (length t.ranges) ≡ false
    small = ground arith

    after : List ℕ
    after = zeros (max bytes_used (6 + 8 * length t.ranges) - (6 + 8 * length t.ranges))

    table_equal :
        (rs rs' : List FreeRange) (p p' : ℕ) → rs ≡ rs' → p ≡ p' → as_table rs p ≡ as_table rs' p'
    table_equal rs rs' p p' h k = rw (h, k) refl

erase_all-SameSums :
    (xs ys rs : List FreeRange) → SameSums (xs ++ ys) rs → SameSums ys (erase_all xs rs)
erase_all-SameSums [] ys rs h = h
erase_all-SameSums (x ∷ xs) ys rs h =
    erase_all-SameSums xs ys (erase x rs) (SameSums-erase x (xs ++ ys) rs h)

length-sum : (rs : List FreeRange) → sum (λ r. 1) rs ≡ length rs
length-sum [] = refl
length-sum (r ∷ rs) = ground (arith, length-sum rs)

pub trim-largest :
    (rs : List FreeRange)
    → (length (trim rs) ≤ 8191)
      × SameSums (drop (length rs - 8191) (sort_ranges smaller_first rs)) (trim rs)
unfolding trim
trim-largest rs = elim (Bool-cases (ltb 8191 (length rs))) [
  | inr e ↦
      let none_dropped : length rs - 8191 ≡ 0 = ground arith in
      rw (e, none_dropped) (ground arith, λ f. sum-sort_ranges f smaller_first rs)
  | inl e ↦
      let n : ℕ = length rs - 8191 in
      let kept : SameSums (drop n (sort_ranges smaller_first rs))
          (erase_all (take n (sort_ranges smaller_first rs)) rs) =
        erase_all-SameSums (take n (sort_ranges smaller_first rs))
          (drop n (sort_ranges smaller_first rs)) rs
          (λ f.
            ap (sum f) (take-append-drop n (sort_ranges smaller_first rs))
            ∙ sum-sort_ranges f smaller_first rs) in
      let sorted : length (sort_ranges smaller_first rs) ≡ length rs =
        sym (length-sum (sort_ranges smaller_first rs))
        ∙ sum-sort_ranges (λ r. 1) smaller_first rs
        ∙ length-sum rs in
      let left : length (erase_all (take n (sort_ranges smaller_first rs)) rs)
          ≡ length (drop n (sort_ranges smaller_first rs)) =
        sym (length-sum _) ∙ sym (kept (λ r. 1)) ∙ length-sum _ in
      rw e (ground (arith, length-drop n (sort_ranges smaller_first rs)), kept)
]

-- What a table keeps in the file: at most 8191 ranges, in some order those that are left when the
-- smallest are dropped, as many as are above 8191.
abbrev pub IsTrimmed : List FreeRange → List FreeRange → Type 0
IsTrimmed free kept =
    (length kept ≤ 8191)
    × SameSums (drop (length free - 8191) (sort_ranges smaller_first free)) kept

sum-drop : (f : FreeRange → ℕ) (n : ℕ) (rs : List FreeRange) → sum f (drop n rs) ≤ sum f rs
sum-drop f zero rs = omega arith
sum-drop f (suc n) [] = omega arith
sum-drop f (suc n) (r ∷ rs) = omega (arith, sum-drop f n rs)

pub sum-trimmed :
    (f : FreeRange → ℕ) (free kept : List FreeRange) → IsTrimmed free kept → sum f kept ≤ sum f free
sum-trimmed f free kept (n, same) = omega (
  arith,
  same f,
  sum-drop f (length free - 8191) (sort_ranges smaller_first free),
  sum-sort_ranges f smaller_first free,
)

module _ (P : FreeRange → Type 0) where
  All-erase : (x : FreeRange) (rs : List FreeRange) → All P rs → All P (erase x rs)
  All-erase x [] h = tt
  All-erase x (y ∷ ys) (p, h) = if_both (All P) (same_range y x) _ _ h (p, All-erase x ys h)

  All-erase_all : (xs rs : List FreeRange) → All P rs → All P (erase_all xs rs)
  All-erase_all [] rs h = h
  All-erase_all (x ∷ xs) rs h = All-erase_all xs (erase x rs) (All-erase x rs h)

  pub All-trim : (rs : List FreeRange) → All P rs → All P (trim rs)
  unfolding trim
  All-trim rs h =
      if_both (All P) (ltb 8191 (length rs)) _ _
        (All-erase_all (take (length rs - 8191) (sort_ranges smaller_first rs)) rs h) h
