-- ===== src/FreeSpace/Collect.antt =====
-- src/storage/binary/index.ts: what the loop over the ranges, largest first, has collected.
use acebase.Prelude.{
  ℕ, zero, suc, ◌+◌, ◌≤◌, ◌<◌, ◌≡◌, ◌⊎◌, inl, inr, refl, ap, ◌∙◌, arith, Bool, true, List, [], ◌∷◌,
  ◌++◌, All, Bool-cases, ◌==◌, ltb, leb, ◌&&◌, take, length,
}
use mathlib.Core.List.{append_assoc}
use acebase.FreeSpace.{
  FreeRange, width, larger_first, insert_range, sort_ranges, Test, no_test, test_with, collect,
}
use acebase.FreeSpace.Sums.{sum, sum-append}

-- No range ends before it starts, or beyond its page.
abbrev pub IsWithin : ℕ → FreeRange → Type 0
IsWithin per_page r = (r.start ≤ r.end) × (r.end ≤ per_page)

-- The records of `n` pages.
abbrev pub times : ℕ → ℕ → ℕ
times per_page zero = 0
times per_page (suc n) = per_page + times per_page n

abbrev NoWider : ℕ → List FreeRange → Type 0
NoWider n rs = All (λ r. width r ≤ n) rs

abbrev pub IsDescending : List FreeRange → Type 0
IsDescending [] = Unit
IsDescending (r ∷ rs) = NoWider (width r) rs × IsDescending rs

insert_range-All {ℓ} :
    (P : FreeRange → Type ℓ) (le : FreeRange → FreeRange → Bool) (x : FreeRange)
    (xs : List FreeRange)
    → P x
    → All P xs
    → All P (insert_range le x xs)
insert_range-All P le x [] p h = (p, tt)
insert_range-All P le x (y ∷ ys) p h = elim (Bool-cases (le x y)) [
  | inl t ↦ rw t (p, h)
  | inr e ↦ rw e (h.0, insert_range-All P le x ys p h.1)
]

pub sort_ranges-All {ℓ} :
    (P : FreeRange → Type ℓ) (le : FreeRange → FreeRange → Bool) (xs : List FreeRange)
    → All P xs
    → All P (sort_ranges le xs)
sort_ranges-All P le [] h = tt
sort_ranges-All P le (x ∷ xs) h = insert_range-All P le x _ h.0 (sort_ranges-All P le xs h.1)

NoWider-trans : (m n : ℕ) (rs : List FreeRange) → m ≤ n → NoWider m rs → NoWider n rs
NoWider-trans m n [] h w = tt
NoWider-trans m n (r ∷ rs) h w = (ground arith, NoWider-trans m n rs h w.1)

insert_range-IsDescending :
    (x : FreeRange) (xs : List FreeRange)
    → IsDescending xs
    → IsDescending (insert_range larger_first x xs)
insert_range-IsDescending x [] d = (tt, tt)
insert_range-IsDescending x (y ∷ ys) (w, d) = elim (Bool-cases (larger_first x y)) [
  | inl t ↦
      let le : width y ≤ width x = ground arith in
      rw t ((le, NoWider-trans (width y) (width x) ys le w), (w, d))
  | inr e ↦ rw e (
    insert_range-All (λ r. width r ≤ width y) larger_first x ys (ground arith) w,
    insert_range-IsDescending x ys d,
  )
]

pub sort_ranges-IsDescending : (xs : List FreeRange) → IsDescending (sort_ranges larger_first xs)
sort_ranges-IsDescending [] = tt
sort_ranges-IsDescending (x ∷ xs) = insert_range-IsDescending x _ (sort_ranges-IsDescending xs)

module _ (per_page max_ranges required : ℕ) where
  -- The whole pages stand first among the collected ranges: either all ranges so far are whole pages,
  -- or the ranges to come are smaller.
  abbrev pub AreWhole : List FreeRange → Type 0
  AreWhole rs = All (λ r. width r ≡ per_page) rs

  pub record IsCollected (test : Test) (more : List FreeRange) : Type 0 where
    pub total : test.total_records ≡ sum width test.ranges
    pub whole_first : AreWhole (take test.whole_pages test.ranges)
    pub all_whole : (length test.ranges ≡ test.whole_pages) ⊎ All (λ r. width r < per_page) more
    pub whole_length : test.whole_pages ≤ length test.ranges
    pub whole_total : times per_page test.whole_pages ≤ test.total_records
    pub not_more :
        ltb max_ranges test.additional_ranges ≡ true → times per_page test.whole_pages ≤ required

  take-snoc :
      (n : ℕ) (rs : List FreeRange) (r : FreeRange)
      → n ≤ length rs
      → take n (rs ++ r ∷ []) ≡ take n rs
  take-snoc zero rs r h = refl
  take-snoc (suc n) [] r h = ground arith
  take-snoc (suc n) (x ∷ rs) r h = ap (x ∷◌) (take-snoc n rs r (ground arith))

  take_all-AreWhole :
      (n : ℕ) (rs : List FreeRange) (r : FreeRange)
      → length rs ≡ n
      → AreWhole (take n rs)
      → width r ≡ per_page
      → AreWhole (take (suc n) (rs ++ r ∷ []))
  take_all-AreWhole zero [] r h w e = (e, tt)
  take_all-AreWhole (suc n) [] r h w e = ground arith
  take_all-AreWhole zero (x ∷ rs) r h w e = ground arith
  take_all-AreWhole (suc n) (x ∷ rs) r h w e = (w.0, take_all-AreWhole n rs r (ground arith) w.1 e)

  length-snoc : (rs : List FreeRange) (r : FreeRange) → length (rs ++ r ∷ []) ≡ suc (length rs)
  length-snoc [] r = refl
  length-snoc (x ∷ rs) r = ap suc (length-snoc rs r)

  narrower :
      (n : ℕ) (rs : List FreeRange) → n < per_page → NoWider n rs → All (λ r. width r < per_page) rs
  narrower n [] h w = tt
  narrower n (r ∷ rs) h w = (ground arith, narrower n rs h w.1)

  test_with-IsCollected :
      (test : Test) (r : FreeRange) (more : List FreeRange)
      → IsWithin per_page r
      → NoWider (width r) more
      → test.total_records < required
      → leb test.additional_ranges max_ranges ≡ true
      → IsCollected test (r ∷ more)
      → IsCollected (test_with per_page r test) more
  test_with-IsCollected test r more v w l le c = elim (Bool-cases (width r == per_page)) [
    | inl t ↦
        let all : length test.ranges ≡ test.whole_pages = all_so_far (ground arith) c.all_whole in
        rw t (record {
          total = rw (sum-append width test.ranges (r ∷ [])) (ground (arith, c.total));
          whole_first =
              take_all-AreWhole test.whole_pages test.ranges r all c.whole_first (ground arith);
          all_whole = inl (length-snoc test.ranges r ∙ ap suc all);
          whole_length = rw (length-snoc test.ranges r) (ground arith);
          whole_total = ground (arith, c.whole_total);
          not_more = λ h. ground arith;
        })
    | inr e ↦ rw e (record {
      total = rw (sum-append width test.ranges (r ∷ [])) (ground (arith, c.total));
      whole_first = rw (take-snoc test.whole_pages test.ranges r c.whole_length) c.whole_first;
      all_whole = inr (narrower (width r) more (ground arith) w);
      whole_length = rw (length-snoc test.ranges r) (ground (arith, c.whole_length));
      whole_total = ground (arith, c.whole_total);
      not_more = λ h. ground (arith, c.whole_total);
    })
  ]
    where
      all_so_far :
          width r ≡ per_page
          → (length test.ranges ≡ test.whole_pages) ⊎ All (λ r. width r < per_page) (r ∷ more)
          → length test.ranges ≡ test.whole_pages
      all_so_far q (inl h) = h
      all_so_far q (inr h) = ground arith

  -- What `collect` returns: the first ranges; the rest is left only if there are enough records, or
  -- too many ranges.
  pub record IsEnough (test : Test) (rs : List FreeRange) : Type 0 where
    pub more : List FreeRange
    pub split : test.ranges ++ more ≡ rs
    pub collected : IsCollected test more
    pub enough :
        (more ≡ [])
        ⊎ ((required ≤ test.total_records) ⊎ (ltb max_ranges test.additional_ranges ≡ true))

  collect_from :
      (rs : List FreeRange) (test : Test)
      → All (IsWithin per_page) rs
      → IsDescending rs
      → IsCollected test rs
      → IsEnough (collect per_page max_ranges required rs test) (test.ranges ++ rs)
  unfolding collect
  collect_from [] test v d c = record { more = []; split = refl; collected = c; enough = inl refl }
  collect_from (r ∷ rs) test v d c =
      elim (Bool-cases (ltb test.total_records required && leb test.additional_ranges max_ranges)) [
        | inl t ↦ rw t (
            let e =
              collect_from rs (test_with per_page r test) v.1 d.1
                (test_with-IsCollected test r rs v.0 d.0 (ground arith) (ground arith) c) in
            record {
              more = e.more;
              split =
                  e.split
                  ∙ ap (λ xs. xs ++ rs) (with_range test r)
                  ∙ append_assoc test.ranges (r ∷ []) rs;
              collected = e.collected;
              enough = e.enough;
            })
        | inr e ↦
            rw e
              (record { more = r ∷ rs; split = refl; collected = c; enough = inr (ground arith) })
      ]
    where
      with_range :
          (test : Test) (r : FreeRange) → (test_with per_page r test).ranges ≡ test.ranges ++ r ∷ []
      with_range test r = elim (Bool-cases (width r == per_page)) [
        | inl t ↦ rw t refl
        | inr e ↦ rw e refl
      ]

  pub collect-IsEnough :
      (rs : List FreeRange)
      → All (IsWithin per_page) rs
      → IsDescending rs
      → IsEnough (collect per_page max_ranges required rs no_test) rs
  collect-IsEnough rs v d = collect_from rs no_test v d (record {
    total = refl;
    whole_first = tt;
    all_whole = inl refl;
    whole_length = ground arith;
    whole_total = ground arith;
    not_more = λ h. ground arith;
  })
