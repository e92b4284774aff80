-- ===== src/FreeSpace/Conserve.antt =====
-- src/storage/binary/index.ts: the records that `FST.allocate` grants, and those it leaves.
use acebase.FreeSpace.Load.{trim-largest, sum-trimmed, IsTrimmed}
use acebase.Prelude.{
  ℕ, zero, suc, ◌+◌, ◌≤◌, ◌≡◌, inl, inr, refl, ap, ◌∙◌, arith, Bool, false, List, [], ◌∷◌, ◌++◌,
  All-In, Bool-cases, Option-cases, some, find, find-some, if◌then◌else◌, ◌==◌, ltb, leb, ◌&&◌,
}
use acebase.FreeSpace.{
  trim, allocate_records, FreeRange, Table, Grant, width, whole_page, total_free, max_scraps,
  add_pages, allocate_scraps, allocate_free, allocate,
}
use acebase.FreeSpace.Sums.{
  holds, holds-IsAdditive, IsAdditive, sum, sum-append, sum-width, granted, sum-erase, sum-advance,
}
use acebase.FreeSpace.Collect.{IsWithin}
use acebase.FreeSpace.Take.{new_pages}
use acebase.FreeSpace.Scraps.{IsGranted, AreWithin, scraps-IsGranted}

some-injective {ℓ} : {A : Type ℓ} (a b : A) → some a ≡ some b → a ≡ b
some-injective a b h = cc

module _ (f : FreeRange → ℕ) (a : IsAdditive f) (per_page : ℕ) (one_or_more : 1 ≤ per_page) where
  allocate_free-IsGranted :
      (required : ℕ) (t : Table) (page_added : Bool)
      → AreWithin per_page t.ranges
      → required ≤ total_free t.ranges
      → IsGranted f per_page required t (allocate_free per_page required t page_added)
  unfolding allocate_free
  allocate_free-IsGranted required t page_added v h = elim (Bool-cases (leb required per_page)) [
    | inr e ↦ rw e scraps
    | inl e ↦ elim (Option-cases (find (λ r. width r == required) t.ranges)) [
      | inr (r, q) ↦
          let (m, w) = find-some (λ r. width r == required) r t.ranges q in
          let whole : f (record r { end = r.start + required }) ≡ f r =
            ap (λ n. f (record r { end = n }))
              (ground (arith, All-In (IsWithin per_page) t.ranges r v m)) in
          rw (e, q)
            (record {
              added = 0;
              pages = ground arith;
              records = ground (arith, sum-erase f r t.ranges m);
              length = ground arith;
            })
      | inl q ↦ elim (Option-cases (find (λ r. ltb required (width r)) t.ranges)) [
        | inr (r, q') ↦
            let (m, w) = find-some (λ r. ltb required (width r)) r t.ranges q' in
            let cut : f (record r { end = r.start + required })
                  + f (record r { start = r.start + required })
                ≡ f r =
              a.parts r.page r.start (r.start + required) r.end (ground arith) (ground arith) in
            rw (e, q, q')
              (record {
                added = 0;
                pages = ground arith;
                records = ground (arith, sum-advance f r required t.ranges m);
                length = ground arith;
              })
        | inl q' ↦ rw (e, q, q') scraps
      ]
    ]
  ]
    where
      scraps :
          IsGranted f per_page required t
            (allocate_scraps per_page (max_scraps t) required t page_added)
      scraps = scraps-IsGranted f a per_page one_or_more (max_scraps t) required t page_added v h

  -- The pages that were added.
  add_pages-lem :
      (fuel total required : ℕ) (t : Table)
      → AreWithin per_page t.ranges
      → total ≡ total_free t.ranges
      → required ≤ total + fuel
      → (n : ℕ) × ((add_pages fuel per_page total required t).0.pages ≡ t.pages + n)
        × (sum f (add_pages fuel per_page total required t).0.ranges
            ≡ sum f t.ranges + sum f (new_pages per_page t.pages n))
        × AreWithin per_page (add_pages fuel per_page total required t).0.ranges
        × (required ≤ total_free (add_pages fuel per_page total required t).0.ranges)
  unfolding add_pages
  add_pages-lem zero total required t v e h = (0, ground arith, ground arith, v, ground arith)
  add_pages-lem (suc fuel) total required t v e h = elim (Bool-cases (ltb total required)) [
    | inr q ↦ rw q (0, ground arith, ground arith, v, ground arith)
    | inl q ↦
        let next : Table = record {
          ranges = t.ranges ++ whole_page per_page t.pages ∷ [];
          pages = suc t.pages;
        } in
        let (n, pages, records, within, enough) =
          add_pages-lem fuel (total + per_page) required next
            (All-snoc t.ranges (whole_page per_page t.pages) v (ground arith, ground arith))
            (ground (
              arith,
              sum-width t.ranges,
              sum-width next.ranges,
              sum-append width t.ranges (whole_page per_page t.pages ∷ []),
            ))
            (ground arith) in
        rw q (
          suc n,
          ground arith,
          ground (arith, sum-append f t.ranges (whole_page per_page t.pages ∷ [])),
          within,
          enough,
        )
  ]
    where
      All-snoc :
          (rs : List FreeRange) (r : FreeRange)
          → AreWithin per_page rs
          → IsWithin per_page r
          → AreWithin per_page (rs ++ r ∷ [])
      All-snoc [] r v w = (w, tt)
      All-snoc (x ∷ rs) r v w = (v.0, All-snoc rs r v.1 w)

  new_pages-append :
      (m n page : ℕ)
      → sum f (new_pages per_page page m) + sum f (new_pages per_page (page + m) n)
        ≡ sum f (new_pages per_page page (m + n))
  new_pages-append zero n page =
      let here : sum f (new_pages per_page (page + 0) n) ≡ sum f (new_pages per_page page (0 + n)) =
        ap (λ p. sum f (new_pages per_page p n)) (ground arith)
        ∙ ap (λ k. sum f (new_pages per_page page k)) (ground arith) in
      ground arith
  new_pages-append (suc m) n page =
      let there : sum f (new_pages per_page (page + suc m) n)
          ≡ sum f (new_pages per_page (suc page + m) n) =
        ap (λ p. sum f (new_pages per_page p n)) (ground arith) in
      let plus : suc m + n ≡ suc (m + n) = ground arith in
      let all : sum f (new_pages per_page page (suc m + n))
          ≡ sum f (new_pages per_page page (suc (m + n))) =
        ap (λ k. sum f (new_pages per_page page k)) plus in
      ground (arith, new_pages-append m n (suc page))

  allocate_records-IsGranted :
      (required : ℕ) (t : Table)
      → AreWithin per_page t.ranges
      → IsGranted f per_page required t (allocate_records per_page required t)
  unfolding allocate_records
  allocate_records-IsGranted required t v =
      let (n, pages, records, within, enough) =
        add_pages-lem required (total_free t.ranges) required t v refl (ground arith) in
      after n (add_pages required per_page (total_free t.ranges) required t) pages records within
        enough
    where
      after :
          (n : ℕ) (added : Table × Bool)
          → added.0.pages ≡ t.pages + n
          → sum f added.0.ranges ≡ sum f t.ranges + sum f (new_pages per_page t.pages n)
          → AreWithin per_page added.0.ranges
          → required ≤ total_free added.0.ranges
          → IsGranted f per_page required t (allocate_free per_page required added.0 added.1)
      after n (t', b) pages records within enough =
          let g = allocate_free-IsGranted required t' b within enough in
          let later : sum f (new_pages per_page t'.pages g.added)
              ≡ sum f (new_pages per_page (t.pages + n) g.added) =
            ap (λ p. sum f (new_pages per_page p g.added)) pages in
          record {
            added = n + g.added;
            pages = ground (arith, g.pages);
            records = ground (arith, g.records, new_pages-append n g.added t.pages);
            length = g.length;
          }

  -- On an unlocked file with at least one record per page, whose free ranges keep to their pages, allocate
  -- returns a grant of exactly as many records as were required. Pages are only added; and for each
  -- additive count of ranges what is granted and what is free before the table is written are what
  -- was free before and the added pages. What is free afterwards is that, but for the smallest ranges
  -- above 8191, which the write drops.
  pub allocate-IsGranted :
      (required : ℕ) (t : Table)
      → AreWithin per_page t.ranges
      → (g : Grant) × (free : List FreeRange) × (allocate per_page false required t ≡ some g)
        × IsGranted f per_page required t (record g { table = record g.table { ranges = free } })
        × IsTrimmed free g.table.ranges
  unfolding allocate
  allocate-IsGranted required t v =
      let free : List FreeRange = (allocate_records per_page required t).table.ranges in
      (_, free, refl, allocate_records-IsGranted required t v, trim-largest free)

-- Each record is free once at most, and lies in a page of the file.
abbrev pub AreDisjoint : Table → Type 0
AreDisjoint t =
    (page record_nr : ℕ) → sum (holds page record_nr) t.ranges ≤ (if ltb page t.pages then 1 else 0)

new_pages-holds :
    (per_page page record_nr from n : ℕ)
    → sum (holds page record_nr) (new_pages per_page from n)
      ≤ (if leb from page && ltb page (from + n) then 1 else 0)
new_pages-holds per_page page record_nr from zero = ground arith
new_pages-holds per_page page record_nr from (suc n) =
    ground (arith, new_pages-holds per_page page record_nr (suc from) n)

-- On an unlocked file, `allocate` grants no record twice, none that stays free, and none beyond the
-- end of the file; where each record was free once at most before.
pub allocate_exclusive :
    (per_page required : ℕ) (t : Table)
    → 1 ≤ per_page
    → AreWithin per_page t.ranges
    → AreDisjoint t
    → (g : Grant) × (allocate per_page false required t ≡ some g)
      × ((page record_nr : ℕ)
          → granted (holds page record_nr) g.allocation + sum (holds page record_nr) g.table.ranges
            ≤ (if ltb page g.table.pages then 1 else 0))
unfolding allocate
allocate_exclusive per_page required t o v d = (
  _,
  refl,
  once (allocate_records per_page required t)
      (λ f a. allocate_records-IsGranted f a per_page o required t v),
)
  where
    once :
        (g : Grant)
        → ((f : FreeRange → ℕ) → IsAdditive f → IsGranted f per_page required t g)
        → (page record_nr : ℕ)
        → granted (holds page record_nr) g.allocation
            + sum (holds page record_nr) (trim g.table.ranges)
          ≤ (if ltb page g.table.pages then 1 else 0)
    once g granted_of page record_nr =
        let w = granted_of (holds page record_nr) (holds-IsAdditive page record_nr) in
        ground (
          arith,
          w.records,
          w.pages,
          d page record_nr,
          sum-trimmed (holds page record_nr) g.table.ranges (trim g.table.ranges)
              (trim-largest g.table.ranges),
          new_pages-holds per_page page record_nr t.pages w.added,
        )
