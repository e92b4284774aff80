-- ===== src/Allocation/FilePlace.antt =====
-- src/storage/binary/index.ts: where records stand in the file.
use acebase.Prelude.{ℕ, suc, ◌+◌, ◌*◌, ◌≤◌, ◌<◌, ◌≡◌, ◌⊎◌, inl, inr, arith}
use native.Mathlib.Nat.{suc-mul, mul-le-mul_right}
use acebase.Allocation.{FileSettings, page_byte_size, record_file_index}

-- Addresses in their order: by page, then by record.
abbrev pub IsBefore : ℕ → ℕ → ℕ → ℕ → Type 0
IsBefore page record_nr page' record_nr' =
    (page < page') ⊎ ((page ≡ page') × (record_nr < record_nr'))

-- A record of a page ends in the file where a later record begins, or before that: no two records
-- overlap.
pub record_file_index-apart :
    (c : FileSettings) (page record_nr page' record_nr' : ℕ)
    → record_nr < c.page_size
    → IsBefore page record_nr page' record_nr'
    → record_file_index c page record_nr + c.record_size ≤ record_file_index c page' record_nr'
record_file_index-apart c page r page' r' h (inl k) =
    let pages : suc page * page_byte_size c ≤ page' * page_byte_size c =
      mul-le-mul_right (page_byte_size c) (ground arith) in
    let records : suc r * c.record_size ≤ c.page_size * c.record_size =
      mul-le-mul_right c.record_size (ground arith) in
    ground (arith, suc-mul page (page_byte_size c), suc-mul r c.record_size)
record_file_index-apart c page r page' r' h (inr (e, k)) =
    let records : suc r * c.record_size ≤ r' * c.record_size =
      mul-le-mul_right c.record_size (ground arith) in
    rw e (ground (arith, suc-mul r c.record_size))
