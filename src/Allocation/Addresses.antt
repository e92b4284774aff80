-- ===== src/Allocation/Addresses.antt =====
-- src/storage/binary/index.ts: the addresses that the ranges of a node stand for.
use acebase.Prelude.{
  ℕ, zero, suc, ◌+◌, ◌≡◌, ◌⊎◌, inl, inr, refl, ap, ◌∙◌, arith, true, not, ◌||◌, List, [], ◌∷◌, ◌++◌,
  ◌≢◌, Never, length-append, ◌==◌, Bool-cases, some, length,
}
use mathlib.Core.List.{append_assoc}
use acebase.FreeSpace.{AddressRange}
use acebase.Allocation.{Address, run_of, addresses, total_addresses, collect_ranges, from_addresses}

run_of-snoc :
    (page n count : ℕ)
    → run_of page n (suc count)
      ≡ run_of page n count ++ record { page_nr = page; record_nr = n + count } ∷ []
run_of-snoc page n zero = ap (λ k. run_of page k 1) (ground arith)
run_of-snoc page n (suc count) = ap (record { page_nr = page; record_nr = n } ∷◌) (
    run_of-snoc page (suc n) count
    ∙ ap (λ k. run_of page (suc n) count ++ record { page_nr = page; record_nr = k } ∷ [])
        (ground arith))

addresses-collect_ranges :
    (range : AddressRange) (rest : List Address)
    → addresses (collect_ranges range rest)
      ≡ run_of range.page_nr range.record_nr range.length ++ rest
unfolding collect_ranges
addresses-collect_ranges range [] = refl
addresses-collect_ranges range (a ∷ rest) =
    elim (Bool-cases
      (not (a.page_nr == range.page_nr) || not (a.record_nr == range.record_nr + range.length))) [
        | inl t ↦
            rw (t, collect_ranges)
              (ap (λ as'. run_of range.page_nr range.record_nr range.length ++ as')
                (addresses-collect_ranges
                  (record { page_nr = a.page_nr; record_nr = a.record_nr; length = 1 }) rest))
        | inr e ↦
            let same : record {
              page_nr = range.page_nr;
              record_nr = range.record_nr + range.length;
            }
                ≡ a =
              ground arith in
            rw (e, collect_ranges)
              (addresses-collect_ranges (record range { length = suc range.length }) rest
                ∙ ap (λ as'. as' ++ rest) (run_of-snoc range.page_nr range.record_nr range.length)
                ∙ append_assoc (run_of range.page_nr range.record_nr range.length) _ rest
                ∙ ap (λ b. run_of range.page_nr range.record_nr range.length ++ b ∷ rest) same)
      ]

-- Two ranges in a row that are not one.
abbrev pub AreApart : AddressRange → AddressRange → Type 0
AreApart r s = (s.page_nr ≢ r.page_nr) ⊎ (s.record_nr ≢ r.record_nr + r.length)

abbrev pub AreMaximal : List AddressRange → Type 0
AreMaximal [] = Unit
AreMaximal (r ∷ []) = Unit
AreMaximal (r ∷ s ∷ rest) = AreApart r s × AreMaximal (s ∷ rest)

-- The ranges of `collect_ranges` begin with the given range, which may have grown.
BeginsAt : AddressRange → List AddressRange → Type 0
BeginsAt r [] = Never
BeginsAt r (s ∷ rest) = (s.page_nr ≡ r.page_nr) × (s.record_nr ≡ r.record_nr)

collect_ranges-BeginsAt :
    (range : AddressRange) (rest : List Address) → BeginsAt range (collect_ranges range rest)
unfolding collect_ranges BeginsAt
collect_ranges-BeginsAt range [] = (refl, refl)
collect_ranges-BeginsAt range (a ∷ rest) =
    elim (Bool-cases
      (not (a.page_nr == range.page_nr) || not (a.record_nr == range.record_nr + range.length))) [
        | inl t ↦ rw (t, collect_ranges) (refl, refl)
        | inr e ↦
            rw (e, collect_ranges)
              (collect_ranges-BeginsAt (record range { length = suc range.length }) rest)
      ]

AreMaximal-behind :
    (r s : AddressRange) (rest : List AddressRange)
    → AreApart r s
    → BeginsAt s rest
    → AreMaximal rest
    → AreMaximal (r ∷ rest)
unfolding BeginsAt
AreMaximal-behind r s [] n b m = tt
AreMaximal-behind r s (x ∷ rest) n b m = (rw (b.0, b.1) n, m)

collect_ranges-AreMaximal :
    (range : AddressRange) (rest : List Address) → AreMaximal (collect_ranges range rest)
unfolding collect_ranges
collect_ranges-AreMaximal range [] = tt
collect_ranges-AreMaximal range (a ∷ rest) =
    elim (Bool-cases
      (not (a.page_nr == range.page_nr) || not (a.record_nr == range.record_nr + range.length))) [
        | inl t ↦
            let next : AddressRange = record {
              page_nr = a.page_nr;
              record_nr = a.record_nr;
              length = 1;
            } in
            rw (t, collect_ranges)
              (AreMaximal-behind range next (collect_ranges next rest) (apart a t)
                (collect_ranges-BeginsAt next rest) (collect_ranges-AreMaximal next rest))
        | inr e ↦
            rw (e, collect_ranges)
              (collect_ranges-AreMaximal (record range { length = suc range.length }) rest)
      ]
  where
    apart :
        (a : Address)
        → (not (a.page_nr == range.page_nr) || not (a.record_nr == range.record_nr + range.length))
          ≡ true
        → AreApart range (record { page_nr = a.page_nr; record_nr = a.record_nr; length = 1 })
    apart a t = ground arith

-- The ranges of a list of addresses (at least one) stand for these addresses in their order, and no two
-- ranges in a row could be one.
pub addresses-from_addresses :
    (a : Address) (rest : List Address)
    → (rs : List AddressRange) × (from_addresses (a ∷ rest) ≡ some rs)
      × (addresses rs ≡ a ∷ rest)
      × AreMaximal rs
unfolding from_addresses
addresses-from_addresses a rest =
    let first : AddressRange = record {
      page_nr = a.page_nr;
      record_nr = a.record_nr;
      length = 1;
    } in
    (
      collect_ranges first rest,
      refl,
      addresses-collect_ranges first rest,
      collect_ranges-AreMaximal first rest,
    )

length-run_of : (page n count : ℕ) → length (run_of page n count) ≡ count
length-run_of page n zero = refl
length-run_of page n (suc count) = ap suc (length-run_of page (suc n) count)

pub length-addresses : (rs : List AddressRange) → length (addresses rs) ≡ total_addresses rs
length-addresses [] = refl
length-addresses (r ∷ rs) =
    length-append (run_of r.page_nr r.record_nr r.length) (addresses rs)
    ∙ ground (arith, length-run_of r.page_nr r.record_nr r.length, length-addresses rs)
