-- ===== src/FreeSpace/Take.antt =====
-- src/storage/binary/index.ts: what the loops of `allocate` take from the ranges they leave.
use acebase.Prelude.{
  ℕ, zero, suc, ◌+◌, ◌-◌, ◌≤◌, ◌≡◌, inl, inr, refl, ap, ◌∙◌, arith, List, [], ◌∷◌, ◌++◌, All,
  Bool-cases, ltb, length, min,
}
use acebase.FreeSpace.{
  FreeRange, AddressRange, width, whole_page, Progress, erase, use_whole_pages, new_page,
  create_pages, use_range, use_ranges,
}
use acebase.FreeSpace.Sums.{
  IsAdditive, sum, as_free, sum-append, granted, granted-append, sum-erase, sum-advance, SameSums,
  SameSums-In, SameSums-erase, SameSums-advance, SameSums-swap,
}
use acebase.FreeSpace.Collect.{IsWithin, times}

-- The numbers of records of the addresses.
abbrev pub total_length : List AddressRange → ℕ
total_length [] = 0
total_length (a ∷ rest) = a.length + total_length rest

pub total_length-append :
    (as' bs : List AddressRange) → total_length (as' ++ bs) ≡ total_length as' + total_length bs
total_length-append [] bs = ground arith
total_length-append (a ∷ rest) bs = ground (arith, total_length-append rest bs)

-- Pages from `page` on.
abbrev pub new_pages : ℕ → ℕ → ℕ → List FreeRange
new_pages per_page page zero = []
new_pages per_page page (suc n) = whole_page per_page page ∷ new_pages per_page (suc page) n

module _ (f : FreeRange → ℕ) (a : IsAdditive f) where
  -- What is granted and what is left.
  abbrev pub held : Progress → ℕ
  held s = granted f s.allocation + sum f s.ranges

  use_range-held :
      (r : FreeRange) (others : List FreeRange) (s : Progress)
      → r.start ≤ r.end
      → SameSums (r ∷ others) s.ranges
      → held (use_range r s) ≡ held s
  use_range-held r others s v h = elim (Bool-cases (ltb s.required (width r))) [
    | inl t ↦
        let cut : f (record r { end = r.start + s.required })
              + f (record r { start = r.start + s.required })
            ≡ f r =
          a.parts r.page r.start (r.start + s.required) r.end (ground arith) (ground arith) in
        rw
          (
            t,
            granted-append f s.allocation
                (record { page_nr = r.page; record_nr = r.start; length = s.required } ∷ []),
          )
          (ground (arith, sum-advance f r s.required s.ranges (SameSums-In r others s.ranges h)))
    | inr e ↦
        let whole : f (as_free (record { page_nr = r.page; record_nr = r.start; length = width r }))
            ≡ f r =
          ap (λ n. f (record r { end = n })) (ground arith) in
        rw
          (
            e,
            granted-append f s.allocation
                (record { page_nr = r.page; record_nr = r.start; length = width r } ∷ []),
          )
          (ground (arith, sum-erase f r s.ranges (SameSums-In r others s.ranges h)))
  ]

  pub use_ranges-held :
      (per_page : ℕ) (rs others : List FreeRange) (s : Progress)
      → All (IsWithin per_page) rs
      → SameSums (rs ++ others) s.ranges
      → held (use_ranges rs s) ≡ held s
  unfolding use_ranges
  use_ranges-held per_page [] others s v h = refl
  use_ranges-held per_page (r ∷ rs) others s v h = elim (Bool-cases (ltb s.required (width r))) [
    | inl t ↦
        use_ranges-held per_page rs (record r { start = r.start + s.required } ∷ others)
          (use_range r s) v.1
          (rw t (
            SameSums-swap (record r { start = r.start + s.required }) rs others _
              (SameSums-advance r s.required (rs ++ others) s.ranges h)))
        ∙ use_range-held r (rs ++ others) s v.0.0 h
    | inr e ↦
        use_ranges-held per_page rs others (use_range r s) v.1
          (rw e (SameSums-erase r (rs ++ others) s.ranges h))
        ∙ use_range-held r (rs ++ others) s v.0.0 h
  ]

  pub use_whole_pages-held :
      (per_page : ℕ) (rs others : List FreeRange) (s : Progress)
      → All (IsWithin per_page) rs
      → All (λ r. width r ≡ per_page) rs
      → SameSums (rs ++ others) s.ranges
      → held (use_whole_pages per_page rs s) ≡ held s
  unfolding use_whole_pages
  use_whole_pages-held per_page [] others s v w h = refl
  use_whole_pages-held per_page (r ∷ rs) others s v w h =
      use_whole_pages-held per_page rs others _ v.1 w.1 (SameSums-erase r (rs ++ others) s.ranges h)
      ∙ rw
          (granted-append f s.allocation
            (record { page_nr = r.page; record_nr = 0; length = per_page } ∷ []))
          (ground (arith, whole, sum-erase f r s.ranges (SameSums-In r (rs ++ others) s.ranges h)))
    where
      whole : f (as_free (record { page_nr = r.page; record_nr = 0; length = per_page })) ≡ f r
      whole =
          ap (λ n. f (record { page = r.page; start = 0; end = n })) (ground arith)
          ∙ ap (λ n. f (record { page = r.page; start = n; end = r.end })) (ground arith)

  new_page-held :
      (per_page page : ℕ) (s : Progress)
      → held (new_page per_page page s) ≡ held s + f (whole_page per_page page)
  new_page-held per_page page s = elim (Bool-cases (ltb (min s.required per_page) per_page)) [
    | inl t ↦
        let cut : f (record { page = page; start = 0; end = 0 + min s.required per_page })
              + f (record { page = page; start = min s.required per_page; end = per_page })
            ≡ f (whole_page per_page page) =
          ap
            (λ n.
              f (record { page = page; start = 0; end = n })
              + f (record { page = page; start = min s.required per_page; end = per_page }))
            (ground arith)
          ∙ a.parts page 0 (min s.required per_page) per_page (ground arith) (ground arith) in
        rw
          (
            t,
            granted-append f s.allocation
                (record { page_nr = page; record_nr = 0; length = min s.required per_page } ∷ []),
            sum-append f s.ranges
                (record { page = page; start = min s.required per_page; end = per_page } ∷ []),
          )
          (ground arith)
    | inr e ↦
        let whole : f (record { page = page; start = 0; end = 0 + min s.required per_page })
            ≡ f (whole_page per_page page) =
          ap (λ n. f (record { page = page; start = 0; end = n })) (ground arith) in
        rw
          (
            e,
            granted-append f s.allocation
                (record { page_nr = page; record_nr = 0; length = min s.required per_page } ∷ []),
          )
          (ground arith)
  ]

  pub create_pages-held :
      (n per_page page : ℕ) (s : Progress)
      → held (create_pages n per_page page s) ≡ held s + sum f (new_pages per_page page n)
  unfolding create_pages
  create_pages-held zero per_page page s = ground arith
  create_pages-held (suc n) per_page page s =
      create_pages-held n per_page (suc page) (new_page per_page page s)
      ∙ ground (arith, new_page-held per_page page s)

-- How many records the loops grant.
abbrev pub length_due : Progress → ℕ
length_due s = total_length s.allocation + s.required

use_range-due :
    (r : FreeRange) (s : Progress)
    → (length_due (use_range r s) ≡ length_due s)
      × ((use_range r s).required ≡ s.required - width r)
use_range-due r s = elim (Bool-cases (ltb s.required (width r))) [
  | inl t ↦
      rw
        (
          t,
          total_length-append s.allocation
              (record { page_nr = r.page; record_nr = r.start; length = s.required } ∷ []),
        )
        (ground arith, ground arith)
  | inr e ↦
      rw
        (
          e,
          total_length-append s.allocation
              (record { page_nr = r.page; record_nr = r.start; length = width r } ∷ []),
        )
        (ground arith, ground arith)
]

pub use_ranges-due :
    (rs : List FreeRange) (s : Progress)
    → (length_due (use_ranges rs s) ≡ length_due s)
      × ((use_ranges rs s).required ≡ s.required - sum width rs)
unfolding use_ranges
use_ranges-due [] s = (refl, ground arith)
use_ranges-due (r ∷ rs) s =
    let (total, left) = use_ranges-due rs (use_range r s) in
    let (total', left') = use_range-due r s in (total ∙ total', ground arith)

pub use_whole_pages-due :
    (per_page : ℕ) (rs : List FreeRange) (s : Progress)
    → times per_page (length rs) ≤ s.required
    → (length_due (use_whole_pages per_page rs s) ≡ length_due s)
      × ((use_whole_pages per_page rs s).required ≡ s.required - times per_page (length rs))
unfolding use_whole_pages
use_whole_pages-due per_page [] s h = (refl, ground arith)
use_whole_pages-due per_page (r ∷ rs) s h =
    let next : Progress = record {
      allocation =
          s.allocation ++ record { page_nr = r.page; record_nr = 0; length = per_page } ∷ [];
      ranges = erase r s.ranges;
      required = s.required - per_page;
    } in
    let rest : (length_due (use_whole_pages per_page rs next) ≡ length_due next)
        × ((use_whole_pages per_page rs next).required
            ≡ next.required - times per_page (length rs)) =
      use_whole_pages-due per_page rs next (ground arith) in
    (
      rest.0
          ∙ rw
              (total_length-append s.allocation
                (record { page_nr = r.page; record_nr = 0; length = per_page } ∷ []))
              (ground arith),
      ground (arith, rest.1),
    )

pub create_pages-due :
    (n per_page page : ℕ) (s : Progress)
    → (length_due (create_pages n per_page page s) ≡ length_due s)
      × ((create_pages n per_page page s).required ≡ s.required - times per_page n)
unfolding create_pages
create_pages-due zero per_page page s = (refl, ground arith)
create_pages-due (suc n) per_page page s =
    let (total, left) = create_pages-due n per_page (suc page) (new_page per_page page s) in
    (
      total
          ∙ rw
              (total_length-append s.allocation
                (record { page_nr = page; record_nr = 0; length = min s.required per_page } ∷ []))
              (ground arith),
      ground arith,
    )
