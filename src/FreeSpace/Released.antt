-- ===== src/FreeSpace/Released.antt =====
-- src/storage/binary/index.ts: the free records after `FST.release`.
use acebase.FreeSpace.Load.{All-trim, trim-largest, IsTrimmed}
use acebase.Prelude.{
  if_both, ℕ, zero, suc, ◌+◌, ◌≤◌, ◌≡◌, inl, inr, refl, sym, ap, ◌∙◌, arith, false, not, List, [],
  ◌∷◌, ◌++◌, map, subst, All, Bool-cases, Option-cases, Option, none, some, ◌==◌, length,
}
use acebase.FreeSpace.{
  release_ranges, FreeRange, AddressRange, Table, address_first, sort_ranges, before, merge,
  normalize, freed, release,
}
use acebase.FreeSpace.Sums.{IsAdditive, sum, as_free, sum-append, granted, sum-sort_ranges}
use acebase.FreeSpace.Collect.{IsWithin, sort_ranges-All}
use acebase.FreeSpace.Scraps.{AreWithin}

-- What a merge keeps.
abbrev IsMerged :
    (FreeRange → ℕ) → ℕ → FreeRange → List FreeRange → Option (List FreeRange) → Type 0
IsMerged f per_page r rs none = Unit
IsMerged f per_page r rs (some xs) =
    (sum f xs ≡ f r + sum f rs) × AreWithin per_page xs × (length xs ≡ length rs)

module _ (f : FreeRange → ℕ) (a : IsAdditive f) (per_page : ℕ) where
  before-IsMerged :
      (r o : FreeRange) (rs : List FreeRange) (m : Option (List FreeRange))
      → IsWithin per_page o
      → IsMerged f per_page r rs m
      → IsMerged f per_page r (o ∷ rs) (before o m)
  before-IsMerged r o rs none w h = tt
  before-IsMerged r o rs (some xs) w (total, within, len) = (ground arith, (w, within), ap suc len)

  merge-IsMerged :
      (r : FreeRange) (rs : List FreeRange)
      → IsWithin per_page r
      → AreWithin per_page rs
      → IsMerged f per_page r rs (merge r rs)
  merge-IsMerged r [] w v = tt
  merge-IsMerged r (o ∷ os) w v =
      let rest : IsMerged f per_page r (o ∷ os) (before o (merge r os)) =
        before-IsMerged r o os (merge r os) v.0 (merge-IsMerged r os w v.1) in
      elim (Bool-cases (o.page == r.page)) [
        | inr e ↦ rw e rest
        | inl e ↦ elim (Bool-cases (o.start == r.end)) [
          | inl s ↦
              let page : o.page ≡ r.page = ground arith in
              let start : o.start ≡ r.end = ground arith in
              let joined : f r + f (record o { page = r.page; start = r.end })
                  ≡ f (record o { page = r.page; start = r.start }) =
                a.parts r.page r.start r.end o.end w.0 (ground arith) in
              let same : f (record o { page = r.page; start = r.end }) ≡ f o =
                ap (λ n. f (record o { page = n; start = r.end })) (sym page)
                ∙ ap (λ n. f (record o { start = n })) (sym start) in
              let same' : f (record o { page = r.page; start = r.start })
                  ≡ f (record o { start = r.start }) =
                ap (λ n. f (record o { page = n; start = r.start })) (sym page) in
              rw (e, s) (ground arith, ((ground arith, v.0.1), v.1), refl)
          | inr s ↦ elim (Bool-cases (r.start == o.end)) [
            | inl s' ↦
                let page : o.page ≡ r.page = ground arith in
                let start : r.start ≡ o.end = ground arith in
                let joined : f o + f (record r { page = o.page; start = o.end })
                    ≡ f (record o { end = r.end }) =
                  a.parts o.page o.start o.end r.end v.0.0 (ground arith) in
                let same : f (record r { page = o.page; start = o.end }) ≡ f r =
                  ap (λ n. f (record r { page = n; start = o.end })) page
                  ∙ ap (λ n. f (record r { start = n })) (sym start) in
                rw (e, s, s') (ground arith, ((ground arith, w.1), v.1), refl)
            | inr s' ↦ rw (e, s, s') rest
          ]
        ]
      ]

  normalize-keeps :
      (fuel : ℕ) (rs : List FreeRange)
      → AreWithin per_page rs
      → (sum f (normalize fuel rs) ≡ sum f rs) × AreWithin per_page (normalize fuel rs)
  unfolding normalize
  normalize-keeps zero rs v = (refl, v)
  normalize-keeps (suc fuel) [] v = (refl, tt)
  normalize-keeps (suc fuel) (r ∷ rs) v = elim (Option-cases (merge r rs)) [
    | inl e ↦
        let (total, within) = normalize-keeps fuel rs v.1 in
        rw (e, normalize) (ap (f r +◌) total, (v.0, within))
    | inr (xs, e) ↦
        let (total, within, len) =
          subst (IsMerged f per_page r rs) e (merge-IsMerged r rs v.0 v.1) in
        let (total', within') = normalize-keeps fuel xs within in
        rw (e, normalize) (total' ∙ total, within')
  ]

  sum-freed : (addresses : List AddressRange) → sum f (map freed addresses) ≡ granted f addresses
  sum-freed [] = refl
  sum-freed (x ∷ rest) = ap (f (as_free x) +◌) (sum-freed rest)

  All-freed :
      (rs : List FreeRange) (addresses : List AddressRange)
      → AreWithin per_page rs
      → All (λ x. x.record_nr + x.length ≤ per_page) addresses
      → AreWithin per_page (rs ++ map freed addresses)
  All-freed [] [] v w = tt
  All-freed [] (x ∷ rest) v w = ((ground arith, w.0), All-freed [] rest v w.1)
  All-freed (r ∷ rs) addresses v w = (v.0, All-freed rs addresses v.1 w)

  release_ranges-keeps :
      (addresses : List AddressRange) (rs : List FreeRange)
      → AreWithin per_page rs
      → All (λ x. x.record_nr + x.length ≤ per_page) addresses
      → (sum f (release_ranges addresses rs) ≡ sum f rs + granted f addresses)
        × AreWithin per_page (release_ranges addresses rs)
  unfolding release_ranges
  release_ranges-keeps addresses rs v w = (
    sum-sort_ranges f address_first (normalize (length all) all)
        ∙ kept.0
        ∙ sum-sort_ranges f address_first (rs ++ map freed addresses)
        ∙ sum-append f rs (map freed addresses)
        ∙ ap (sum f rs +◌) (sum-freed addresses),
    sort_ranges-All (IsWithin per_page) address_first _ kept.1,
  )
    where
      all : List FreeRange
      all = sort_ranges address_first (rs ++ map freed addresses)

      kept :
          (sum f (normalize (length all) all) ≡ sum f all)
          × AreWithin per_page (normalize (length all) all)
      kept =
          normalize-keeps (length all) all
            (sort_ranges-All (IsWithin per_page) address_first _ (All-freed rs addresses v w))

  -- On an unlocked file, where all ranges keep to their pages, release returns a table of as many pages
  -- whose ranges keep to their pages. For each additive count of ranges what is free before the table
  -- is written is what was free before and what was released; what is free afterwards is that, but
  -- for the smallest ranges above 8191, which the write drops.
  pub release-granted :
      (addresses : List AddressRange) (t : Table)
      → AreWithin per_page t.ranges
      → All (λ x. x.record_nr + x.length ≤ per_page) addresses
      → (t' : Table) × (free : List FreeRange) × (release false addresses t ≡ some t')
        × (sum f free ≡ sum f t.ranges + granted f addresses)
        × IsTrimmed free t'.ranges
        × AreWithin per_page t'.ranges
        × (t'.pages ≡ t.pages)
  unfolding release
  release-granted addresses t v w =
      let free : List FreeRange = release_ranges addresses t.ranges in
      let (total, within) = release_ranges-keeps addresses t.ranges v w in
      (_, free, refl, total, trim-largest free, All-trim (IsWithin per_page) free within, refl)

abbrev HasLength : ℕ → Option (List FreeRange) → Type 0
HasLength n none = Unit
HasLength n (some xs) = length xs ≡ n

before-HasLength :
    (o : FreeRange) (n : ℕ) (m : Option (List FreeRange))
    → HasLength n m
    → HasLength (suc n) (before o m)
before-HasLength o n none h = tt
before-HasLength o n (some xs) h = ap suc h

merge-HasLength : (r : FreeRange) (rs : List FreeRange) → HasLength (length rs) (merge r rs)
merge-HasLength r [] = tt
merge-HasLength r (o ∷ os) =
    let later : HasLength (suc (length os)) (before o (merge r os)) =
      before-HasLength o (length os) (merge r os) (merge-HasLength r os) in
    if_both (HasLength (suc (length os))) (not (o.page == r.page)) _ _ later (
      if_both (HasLength (suc (length os))) (o.start == r.end) _ _ refl
        (if_both (HasLength (suc (length os))) (r.start == o.end) _ _ refl later))

-- Rounds beyond the number of ranges change nothing: the fuel of `release` is enough.
pub normalize_enough :
    (m n : ℕ) (rs : List FreeRange)
    → length rs ≤ m
    → length rs ≤ n
    → normalize m rs ≡ normalize n rs
unfolding normalize
normalize_enough zero zero rs h k = refl
normalize_enough zero (suc n) [] h k = refl
normalize_enough zero (suc n) (r ∷ rs) h k = ground arith
normalize_enough (suc m) zero [] h k = refl
normalize_enough (suc m) zero (r ∷ rs) h k = ground arith
normalize_enough (suc m) (suc n) [] h k = refl
normalize_enough (suc m) (suc n) (r ∷ rs) h k = elim (Option-cases (merge r rs)) [
  | inl e ↦ rw (e, normalize) (ap (r ∷◌) (normalize_enough m n rs (ground arith) (ground arith)))
  | inr (xs, e) ↦
      let len : length xs ≡ length rs = subst (HasLength (length rs)) e (merge-HasLength r rs) in
      rw (e, normalize) (normalize_enough m n xs (ground arith) (ground arith))
]
