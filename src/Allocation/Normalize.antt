-- ===== src/Allocation/Normalize.antt =====
-- src/storage/binary/index.ts: the ranges of a node before and after `normalize`.
use acebase.Prelude.{
  ℕ, zero, suc, ◌+◌, ◌≡◌, inl, inr, refl, ap, subst, ◌∙◌, arith, List, [], ◌∷◌, ◌==◌, Bool-cases,
  Option-cases, Option, none, some, length,
}
use acebase.FreeSpace.{AddressRange, FreeRange}
use acebase.FreeSpace.Sums.{IsAdditive, as_free, granted}
use acebase.Allocation.{behind, join, normalize_rounds, normalize}

-- What joining ranges keeps.
abbrev IsJoined :
    (FreeRange → ℕ) → AddressRange → List AddressRange → Option (List AddressRange) → Type 0
IsJoined f r rs none = Unit
IsJoined f r rs (some xs) = granted f xs ≡ f (as_free r) + granted f rs

module _ (f : FreeRange → ℕ) (a : IsAdditive f) where
  behind-IsJoined :
      (r o : AddressRange) (rs : List AddressRange) (m : Option (List AddressRange))
      → IsJoined f r rs m
      → IsJoined f r (o ∷ rs) (behind o m)
  behind-IsJoined r o rs none h = tt
  behind-IsJoined r o rs (some xs) h = ground arith

  -- Two ranges, one right before the other.
  meet :
      (page m n k : ℕ) (p q : ℕ)
      → p ≡ page
      → q ≡ m + n
      → f (record { page = page; start = m; end = m + n })
          + f (record { page = p; start = q; end = q + k })
        ≡ f (record { page = page; start = m; end = m + (n + k) })
  meet page m n k p q h h' =
      rw (h, h')
        (ap
            (λ e.
              f (record { page = page; start = m; end = m + n })
              + f (record { page = page; start = m + n; end = e }))
            (ground arith)
          ∙ a.parts page m (m + n) (m + (n + k)) (ground arith) (ground arith))

  join-IsJoined : (r : AddressRange) (rs : List AddressRange) → IsJoined f r rs (join r rs)
  join-IsJoined r [] = tt
  join-IsJoined r (o ∷ os) =
      let rest : IsJoined f r (o ∷ os) (behind o (join r os)) =
        behind-IsJoined r o os (join r os) (join-IsJoined r os) in
      elim (Bool-cases (o.page_nr == r.page_nr)) [
        | inr e ↦ rw e rest
        | inl e ↦ elim (Bool-cases (o.record_nr == r.record_nr + r.length)) [
          | inl s ↦
              let one : f (as_free r) + f (as_free o)
                  ≡ f (record {
                    page = r.page_nr;
                    start = r.record_nr;
                    end = r.record_nr + (r.length + o.length);
                  }) =
                meet r.page_nr r.record_nr r.length o.length o.page_nr o.record_nr (ground arith)
                  (ground arith) in
              let two : f (record {
                page = r.page_nr;
                start = r.record_nr;
                end = r.record_nr + (r.length + o.length);
              })
                  ≡ f (record {
                    page = o.page_nr;
                    start = r.record_nr;
                    end = r.record_nr + (o.length + r.length);
                  }) =
                ap (λ n. f (record { page = r.page_nr; start = r.record_nr; end = n }))
                  (ground arith)
                ∙ ap
                    (λ n. f (record {
                      page = n;
                      start = r.record_nr;
                      end = r.record_nr + (o.length + r.length);
                    }))
                    (ground arith) in
              rw (e, s) (ground arith)
          | inr s ↦ elim (Bool-cases (r.record_nr == o.record_nr + o.length)) [
            | inl s' ↦
                let one : f (as_free o) + f (as_free r)
                    ≡ f (record {
                      page = o.page_nr;
                      start = o.record_nr;
                      end = o.record_nr + (o.length + r.length);
                    }) =
                  meet o.page_nr o.record_nr o.length r.length r.page_nr r.record_nr (ground arith)
                    (ground arith) in
                rw (e, s, s') (ground arith)
            | inr s' ↦ rw (e, s, s') rest
          ]
        ]
      ]

  normalize_rounds-granted :
      (fuel : ℕ) (rs : List AddressRange) → granted f (normalize_rounds fuel rs) ≡ granted f rs
  unfolding normalize_rounds
  normalize_rounds-granted zero rs = refl
  normalize_rounds-granted (suc fuel) [] = refl
  normalize_rounds-granted (suc fuel) (r ∷ rs) = elim (Option-cases (join r rs)) [
    | inl e ↦ rw (e, normalize_rounds) (ap (f (as_free r) +◌) (normalize_rounds-granted fuel rs))
    | inr (xs, e) ↦
        rw (e, normalize_rounds)
          (normalize_rounds-granted fuel xs ∙ subst (IsJoined f r rs) e (join-IsJoined r rs))
  ]

  -- `normalize` keeps each additive count: the records stay the same, each as often as before.
  pub normalize-granted : (rs : List AddressRange) → granted f (normalize rs) ≡ granted f rs
  unfolding normalize
  normalize-granted rs = normalize_rounds-granted (length rs) rs
