-- ===== src/NodeCache/Find.antt =====
-- src/node-cache.ts: what `find` finds, and for how long.
use acebase.Prelude.{
  ℕ, ◌+◌, ◌≤◌, ◌<◌, ◌≡◌, inl, inr, refl, sym, ap, subst, ◌∙◌, arith, Bool, true, false, ◌&&◌, List,
  [], ◌∷◌, leb, Option, none, some, Bool-cases,
}
use acebase.Order.{Order}
use acebase.Assoc.{
  same, get, same-equal, get-set, get-set_other, get-delete_key, get-delete_key_other,
}
use acebase.NodeCache.{
  find_entry, NodeInfo, Entry, Cache, missing, found, cache_duration, last_change, keep_alive,
  is_announced, updated_entry, update, find_entry, find,
}

module _ {P : Type 0} {V : Type 0} {R : Type 0} ⦃o : Order P⦄ where
  -- What was known at the time `now`, and expires a minute later.
  IsFrom : ℕ → NodeInfo P V R → Entry P V R → Type 0
  IsFrom now info e =
      (e.node_info ≡ info) × (e.expires ≡ now + cache_duration) × (last_change e ≡ now)

  updated_entry-IsFrom :
      (now : ℕ) (info : NodeInfo P V R) (e : Option (Entry P V R))
      → IsFrom now info (updated_entry now info e)
  unfolding IsFrom
  updated_entry-IsFrom now info none = (refl, refl, refl)
  updated_entry-IsFrom now info (some e) = (refl, refl, refl)

  find_entry-fresh :
      (root : P) (now later : ℕ) (p : P) (info : NodeInfo P V R) (c : Cache P V R) (e : Entry P V R)
      → IsFrom now info e
      → same info.path root ≡ false
      → later < now + cache_duration
      → (find_entry root later p c (some e)).0 ≡ found info
  unfolding IsFrom
  find_entry-fresh root now later p info c e (i, x, l) h k =
      let time : leb e.expires later ≡ false = ground arith in
      let path : same e.node_info.path root ≡ false = ap (λ n. same n.path root) i ∙ h in
      rw (path, time) (ap found i)

  get-update :
      (root : P) (now : ℕ) (info : NodeInfo P V R) (c : Cache P V R)
      → same info.path root ≡ false
      → get info.path (update root now info c).0.entries
        ≡ some (updated_entry now info (get info.path c.entries))
  unfolding update
  get-update root now info c h =
      rw h (get-set info.path (updated_entry now info (get info.path c.entries)) c.entries)

  -- `find` gives what `update` was given, for as long as a minute after it.
  pub find-update :
      (root : P) (now later : ℕ) (info : NodeInfo P V R) (c : Cache P V R)
      → same info.path root ≡ false
      → later < now + cache_duration
      → (find root later info.path false (update root now info c).0).0 ≡ found info
  unfolding find
  find-update root now later info c h k =
      ap (λ e. (find_entry root later info.path (update root now info c).0 e).0)
        (get-update root now info c h)
      ∙ find_entry-fresh root now later info.path info (update root now info c).0
          (updated_entry now info (get info.path c.entries))
          (updated_entry-IsFrom now info (get info.path c.entries)) h k

  -- Some finds, one after the other: the time, the path, and whether promises are asked for.
  abbrev pub finds : P → List (ℕ × P × Bool) → Cache P V R → Cache P V R
  finds root [] c = c
  finds root ((now, p, check) ∷ rest) c = finds root rest (find root now p check c).1

  -- No entry, or one of that time.
  abbrev IsNoneOrFrom : ℕ → NodeInfo P V R → Option (Entry P V R) → Type 0
  IsNoneOrFrom now info none = Unit
  IsNoneOrFrom now info (some e) = IsFrom now info e

  find_entry-IsNoneOrFrom :
      (root : P) (now later : ℕ) (p : P) (info : NodeInfo P V R) (c : Cache P V R)
      (e : Option (Entry P V R))
      → e ≡ get p c.entries
      → IsNoneOrFrom now info (get info.path c.entries)
      → IsNoneOrFrom now info (get info.path (find_entry root later p c e).1.entries)
  unfolding IsFrom
  find_entry-IsNoneOrFrom root now later p info c none q f = f
  find_entry-IsNoneOrFrom root now later p info c (some e) q f =
      elim (Bool-cases (same e.node_info.path root)) [
        | inl t ↦ rw t f
        | inr n ↦ elim (Bool-cases (same p info.path)) [
          | inr d ↦ elim (Bool-cases (leb e.expires later)) [
            | inl x ↦ rw (n, x) (rw (get-delete_key_other info.path p c.entries d) f)
            | inr x ↦ rw (n, x) (rw (get-set_other info.path p (keep_alive e) c.entries d) f)
          ]
          | inl s ↦
              let path : p ≡ info.path = same-equal p info.path s in
              let kept : IsFrom now info e =
                subst (IsNoneOrFrom now info) (ap (λ r. get r c.entries) (sym path) ∙ sym q) f in
              elim (Bool-cases (leb e.expires later)) [
                | inl x ↦ rw (n, x, path) (rw (get-delete_key info.path c.entries) tt)
                | inr x ↦
                    rw (n, x, path)
                      (rw (get-set info.path (keep_alive e) c.entries)
                        (kept.0, ap (λ m. m + cache_duration) kept.2, kept.2))
              ]
        ]
      ]

  find-IsNoneOrFrom :
      (root : P) (now later : ℕ) (p : P) (check : Bool) (info : NodeInfo P V R) (c : Cache P V R)
      → IsNoneOrFrom now info (get info.path c.entries)
      → IsNoneOrFrom now info (get info.path (find root later p check c).1.entries)
  unfolding find
  find-IsNoneOrFrom root now later p check info c f =
      elim (Bool-cases (check && is_announced p c.announced)) [
        | inl t ↦ rw (t, find) f
        | inr n ↦
            rw (n, find) (find_entry-IsNoneOrFrom root now later p info c (get p c.entries) refl f)
      ]

  finds-IsNoneOrFrom :
      (root : P) (now : ℕ) (info : NodeInfo P V R) (all : List (ℕ × P × Bool)) (c : Cache P V R)
      → IsNoneOrFrom now info (get info.path c.entries)
      → IsNoneOrFrom now info (get info.path (finds root all c).entries)
  finds-IsNoneOrFrom root now info [] c f = f
  finds-IsNoneOrFrom root now info ((later, p, check) ∷ rest) c f =
      finds-IsNoneOrFrom root now info rest (find root later p check c).1
        (find-IsNoneOrFrom root now later p check info c f)

  find_entry-expired :
      (root : P) (now later : ℕ) (p : P) (info : NodeInfo P V R) (c : Cache P V R)
      (e : Option (Entry P V R))
      → IsNoneOrFrom now info e
      → same info.path root ≡ false
      → now + cache_duration ≤ later
      → (find_entry root later p c e).0 ≡ missing
  unfolding IsFrom
  find_entry-expired root now later p info c none f h k = refl
  find_entry-expired root now later p info c (some e) (i, x, l) h k =
      let time : leb e.expires later ≡ true = ground arith in
      let path : same e.node_info.path root ≡ false = ap (λ n. same n.path root) i ∙ h in
      rw (path, time) refl

  -- A minute after an update the path is not found any more, however often it was found meanwhile.
  pub find-expired :
      (root : P) (now later : ℕ) (info : NodeInfo P V R) (all : List (ℕ × P × Bool))
      (c : Cache P V R)
      → same info.path root ≡ false
      → now + cache_duration ≤ later
      → (find root later info.path false (finds root all (update root now info c).0)).0 ≡ missing
  unfolding find
  find-expired root now later info all c h k =
      find_entry-expired root now later info.path info (finds root all (update root now info c).0) _
        (finds-IsNoneOrFrom root now info all (update root now info c).0 (
          subst (IsNoneOrFrom now info) (sym (get-update root now info c h))
            (updated_entry-IsFrom now info (get info.path c.entries))))
        h k
