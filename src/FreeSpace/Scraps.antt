-- ===== src/FreeSpace/Scraps.antt =====
-- src/storage/binary/index.ts: the part of `FST.allocate` that deals with the scraps, or adds pages.
use acebase.Prelude.{
  subst, ℕ, zero, suc, ◌+◌, ◌-◌, ◌*◌, ◌/◌, ◌≤◌, ◌<◌, ◌≡◌, ◌⊎◌, inl, inr, refl, sym, ap, ◌∙◌, arith,
  Bool, true, false, List, [], ◌∷◌, ◌++◌, All, Bool-cases, ltb, take, drop, length,
  take-append-drop, length-take,
}
use mathlib.Core.List.{append_assoc, append-nil}
use native.Mathlib.Nat.{lt-div-mul-add}
use acebase.FreeSpace.{
  FreeRange, Table, Grant, width, total_free, Progress, use_whole_pages, create_pages, use_ranges,
  ceil_div, Test, no_test, collect, larger_first, sort_ranges, allocate_scraps,
}
use acebase.FreeSpace.Sums.{IsAdditive, sum, sum-width, granted, sum-sort_ranges, SameSums}
use acebase.FreeSpace.Collect.{
  IsWithin, times, sort_ranges-All, sort_ranges-IsDescending, IsCollected, IsEnough,
  collect-IsEnough,
}
use acebase.FreeSpace.Take.{
  length_due, total_length, new_pages, held, use_ranges-held, use_whole_pages-held,
  create_pages-held, use_ranges-due, use_whole_pages-due, create_pages-due,
}

times_mul : (n k : ℕ) → times k n ≡ n * k
times_mul zero k = ground arith
times_mul (suc n) k = ground (arith, times_mul n k)

ceil_div-enough : (n k : ℕ) → 1 ≤ k → n ≤ times k (ceil_div n k)
ceil_div-enough n zero h = ground arith
ceil_div-enough n (suc d) h =
    let below : n + d < (n + d) / suc d * suc d + suc d =
      lt-div-mul-add {a = n + d} {b = suc d} (ground arith) in
    ground (arith, times_mul ((n + d) / suc d) (suc d))

times_sub : (k n m : ℕ) → times k n ≤ times k m + times k (n - m)
times_sub k n zero = ground arith
times_sub k zero (suc m) = ground arith
times_sub k (suc n) (suc m) = ground (arith, times_sub k n m)

-- What an allocation keeps: with the records of the pages that were added, the records free before
-- are those granted and those free after; and as many are granted as were required.
pub record IsGranted (f : FreeRange → ℕ) (per_page required : ℕ) (t : Table) (g : Grant)
    : Type 0 where
  pub added : ℕ
  pub pages : g.table.pages ≡ t.pages + added
  pub records :
      granted f g.allocation + sum f g.table.ranges
      ≡ sum f t.ranges + sum f (new_pages per_page t.pages added)
  pub length : total_length g.allocation ≡ required

-- The ranges of a table keep to their pages.
abbrev pub AreWithin : ℕ → List FreeRange → Type 0
AreWithin per_page rs = All (IsWithin per_page) rs

module _ {ℓ κ} {A : Type ℓ} where
  All-left : (P : A → Type κ) (xs ys : List A) → All P (xs ++ ys) → All P xs
  All-left P [] ys h = tt
  All-left P (x ∷ xs) ys h = (h.0, All-left P xs ys h.1)

  All-take : (P : A → Type κ) (n : ℕ) (xs : List A) → All P xs → All P (take n xs)
  All-take P zero xs h = tt
  All-take P (suc n) [] h = tt
  All-take P (suc n) (x ∷ xs) h = (h.0, All-take P n xs h.1)

module _ (f : FreeRange → ℕ) (a : IsAdditive f) (per_page : ℕ) (one_or_more : 1 ≤ per_page) where
  pub scraps-IsGranted :
      (max_ranges required : ℕ) (t : Table) (page_added : Bool)
      → AreWithin per_page t.ranges
      → required ≤ total_free t.ranges
      → IsGranted f per_page required t (allocate_scraps per_page max_ranges required t page_added)
  unfolding allocate_scraps
  scraps-IsGranted max_ranges required t page_added v h =
      elim (Bool-cases (ltb max_ranges test.additional_ranges)) [
        | inl e ↦ rw e (record {
          added = pages_to_create;
          pages = refl;
          records =
              create_pages-held f a pages_to_create per_page t.pages whole
              ∙ ap (λ n. n + sum f (new_pages per_page t.pages pages_to_create)) whole_held
              ∙ ground arith;
          length =
              all_pages (create_pages-due pages_to_create per_page t.pages whole) (whole_due e)
                (ceil_div-enough required per_page one_or_more)
                (times_sub per_page (ceil_div required per_page) test.whole_pages);
        })
        | inr e ↦ rw e (record {
          added = 0;
          pages = ground arith;
          records =
              use_ranges-held f a per_page test.ranges enough.more start within same ∙ ground arith;
          length = all_ranges (use_ranges-due test.ranges start) (all_free enough.enough e);
        })
      ]
    where
      sorted : List FreeRange
      sorted = sort_ranges larger_first t.ranges

      test : Test
      test = collect per_page max_ranges required sorted no_test

      enough : IsEnough per_page max_ranges required test sorted
      enough =
          collect-IsEnough per_page max_ranges required sorted
            (sort_ranges-All (IsWithin per_page) larger_first t.ranges v)
            (sort_ranges-IsDescending t.ranges)

      start : Progress
      start = record { allocation = []; ranges = t.ranges; required = required }

      collected : IsCollected per_page max_ranges required test enough.more
      collected = enough.collected

      within : AreWithin per_page test.ranges
      within = All-left (IsWithin per_page) test.ranges enough.more (
          subst (AreWithin per_page) (sym enough.split)
            (sort_ranges-All (IsWithin per_page) larger_first t.ranges v))

      pages_to_create : ℕ
      pages_to_create = ceil_div required per_page - test.whole_pages

      whole : Progress
      whole = use_whole_pages per_page (take test.whole_pages test.ranges) start

      same : SameSums (test.ranges ++ enough.more) t.ranges
      same g = ap (sum g) enough.split ∙ sum-sort_ranges g larger_first t.ranges

      whole_held : held f a whole ≡ held f a start
      whole_held =
          use_whole_pages-held f a per_page (take test.whole_pages test.ranges)
            (drop test.whole_pages test.ranges ++ enough.more) start
            (All-take (IsWithin per_page) test.whole_pages test.ranges within) collected.whole_first
            (λ g.
              ap (sum g) (
                sym (append_assoc (take test.whole_pages test.ranges) _ enough.more)
                ∙ ap (λ xs. xs ++ enough.more) (take-append-drop test.whole_pages test.ranges))
              ∙ same g)

      whole_due :
          ltb max_ranges test.additional_ranges ≡ true
          → (length_due whole ≡ required)
            × (whole.required ≡ required - times per_page test.whole_pages)
      whole_due e =
          let length_whole : length (take test.whole_pages test.ranges) ≡ test.whole_pages =
            length-take test.whole_pages test.ranges ∙ ground (arith, collected.whole_length) in
          let (total, left) =
            use_whole_pages-due per_page (take test.whole_pages test.ranges) start
              (rw length_whole (collected.not_more e)) in
          (total ∙ ground arith, left ∙ ap (λ n. required - times per_page n) length_whole)

      all_pages :
          (length_due (create_pages pages_to_create per_page t.pages whole) ≡ length_due whole)
            × ((create_pages pages_to_create per_page t.pages whole).required
                ≡ whole.required - times per_page pages_to_create)
          → (length_due whole ≡ required)
            × (whole.required ≡ required - times per_page test.whole_pages)
          → required ≤ times per_page (ceil_div required per_page)
          → times per_page (ceil_div required per_page)
            ≤ times per_page test.whole_pages + times per_page pages_to_create
          → total_length (create_pages pages_to_create per_page t.pages whole).allocation ≡ required
      all_pages (p, q) (p', q') b c = ground arith

      all_free :
          (enough.more ≡ [])
            ⊎ ((required ≤ test.total_records) ⊎ (ltb max_ranges test.additional_ranges ≡ true))
          → ltb max_ranges test.additional_ranges ≡ false
          → required ≤ sum width test.ranges
      all_free (inl n) e =
          let all : sum width test.ranges ≡ sum width t.ranges =
            ap (sum width) (sym (append-nil test.ranges) ∙ ap (test.ranges ++◌) (sym n))
            ∙ same width in
          ground (arith, sum-width t.ranges)
      all_free (inr (inl l)) e = ground (arith, collected.total)
      all_free (inr (inr m)) e = cc

      all_ranges :
          (length_due (use_ranges test.ranges start) ≡ length_due start)
            × ((use_ranges test.ranges start).required ≡ required - sum width test.ranges)
          → required ≤ sum width test.ranges
          → total_length (use_ranges test.ranges start).allocation ≡ required
      all_ranges (p, q) b = ground arith
