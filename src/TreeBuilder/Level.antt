-- ===== src/TreeBuilder/Level.antt =====
-- src/btree/tree-builder.ts: the loop over the nodes of a level, which gives each its parent.
use acebase.TreeBuilder.Move.{IsMoved, move_entries-IsMoved}
use acebase.TreeBuilder.Built.{parent_list, Sizes, HasChildren}
use acebase.BTree.{size, to_list}
use acebase.Prelude.{
  ltb→lt, Bool-cases, ℕ, suc, ◌+◌, ◌-◌, ◌*◌, ◌/◌, ◌≤◌, ◌<◌, ◌≡◌, arith, ltb, true, false, max, All,
  List, [], ◌∷◌, ◌++◌, length, Option, ◌⊎◌, inl, inr, ap, sym, ◌∙◌, refl,
}
use acebase.TreeBuilder.{returns, head_key, LeafEntry, finish, Tree, Parent, is_last, counts}
use mathlib.Core.List.{append_assoc}

div_place : (e q j : ℕ) → j ≤ e → (q * (e + 1) + j) / (e + 1) ≡ q
div_place e q j h = grind arith

pub is_last-more :
    (e n i q j : ℕ) → i ≡ q * (e + 1) + j → j < e → suc i < n → is_last (counts e n) i ≡ false
is_last-more e n i q j p l m =
    let a : i / (e + 1) ≡ q = rw p (div_place e q j (omega arith)) in
    let r : i + 1 ≡ q * (e + 1) + (j + 1) = omega (arith, p) in
    let b : (i + 1) / (e + 1) ≡ q = rw r (div_place e q (j + 1) (omega arith)) in
    rw (a, b) (ground arith)

pub is_last-full : (e n i q : ℕ) → i ≡ q * (e + 1) + e → is_last (counts e n) i ≡ true
is_last-full e n i q p =
    let a : i / (e + 1) ≡ q = rw p (div_place e q e (omega arith)) in
    let r : i + 1 ≡ suc q * (e + 1) + 0 = grind (arith, p) in
    let b : (i + 1) / (e + 1) ≡ suc q = rw r (div_place e (suc q) 0 (omega arith)) in
    rw (a, b) (ground arith)

pub is_last-end : (e n i : ℕ) → suc i ≡ n → is_last (counts e n) i ≡ true
is_last-end e n i p = ground arith

-- How many parents a level has whose last parent has `j` entries and comes after `q` full ones.
pub parents-count : (e n q j : ℕ) → n ≡ q * (e + 1) + suc j → j ≤ e → (counts e n).parents ≡ suc q
parents-count e n q j p h = grind arith

module _ {K : Type 0} {M : Type 0} where
  -- The entries below nodes, and below parents of which the last one comes first.
  abbrev pub lists : List (Tree K M) → List (LeafEntry K M)
  lists [] = []
  lists (t ∷ ts) = to_list t ++ lists ts

  abbrev pub parent_lists : List (Parent K M) → List (LeafEntry K M)
  parent_lists [] = []
  parent_lists (p ∷ ps) = parent_lists ps ++ parent_list p

  -- The key asked for before each node but the first is the first one of the node.
  abbrev pub KeysAfter : (ℕ → Option K) → ℕ → List (Tree K M) → Type 0
  KeysAfter key_after i [] = Unit
  KeysAfter key_after i (t ∷ []) = Unit
  KeysAfter key_after i (t ∷ u ∷ ts) =
      (key_after i ≡ head_key (to_list u)) × KeysAfter key_after (suc i) (u ∷ ts)

abbrev pub sizes : ℕ → ℕ → Sizes
sizes e per_leaf = record { least = max 1 (e / 2); most = e; per_leaf = per_leaf }

module _ {K : Type 0} {M : Type 0} (e per_leaf d n : ℕ) where
  abbrev pub IsFull : Parent K M → Type 0
  IsFull p = HasChildren (sizes e per_leaf) d p × (size p.entries ≡ e)

  -- The parents of a level of `n` nodes: with enough entries each, unless there is only one.
  abbrev pub IsParent : Parent K M → Type 0
  IsParent p =
      HasChildren (sizes e per_leaf) d p
      × (size p.entries ≤ e)
      × ((max 1 (e / 2) ≤ size p.entries) ⊎ (suc (size p.entries) ≡ n))

pub half_bounds : (e : ℕ) → 2 ≤ e → (1 ≤ max 1 (e / 2)) × (max 1 (e / 2) + max 1 (e / 2) ≤ e)
half_bounds e h = omega arith

module _ {K : Type 0} {M : Type 0} (e per_leaf d n : ℕ) (two : 2 ≤ e) where
  IsFull-IsParent :
      (ps : List (Parent K M)) → All (IsFull e per_leaf d n) ps → All (IsParent e per_leaf d n) ps
  IsFull-IsParent [] h = tt
  IsFull-IsParent (p ∷ ps) h =
      ((h.0.0, omega (arith, h.0.1), inl (omega (arith, h.0.1))), IsFull-IsParent ps h.1)

  -- What the last parent leaves of the parents.
  abbrev pub IsFinished : Parent K M → List (Parent K M) → List (Parent K M) → Type 0
  IsFinished p done ps =
      All (IsParent e per_leaf d n) ps
      × (parent_lists ps ≡ parent_lists (p ∷ done))
      × (length ps ≡ suc (length done))

  finish-moves :
      (p prev p' prev' : Parent K M) (done : List (Parent K M))
      → size p.entries ≤ e
      → size p.entries < max 1 (e / 2)
      → All (IsFull e per_leaf d n) (prev ∷ done)
      → IsMoved (sizes e per_leaf) d (max 1 (e / 2) - size p.entries) prev p prev' p'
      → IsFinished p (prev ∷ done) (p' ∷ prev' ∷ done)
  finish-moves p prev p' prev' done l few a (v, w, i, j, q) = (
    (
      (w, omega (arith, half_bounds e two), inl (omega arith)),
      (
        (v, omega (arith, a.0.1), inl (omega (arith, half_bounds e two, a.0.1))),
        IsFull-IsParent done a.1,
      ),
    ),
    append_assoc (parent_lists done) (parent_list prev') (parent_list p')
        ∙ ap (λ es. parent_lists done ++ es) q
        ∙ sym (append_assoc (parent_lists done) (parent_list prev) (parent_list p)),
    refl,
  )

  pub finish-IsFinished :
      (p : Parent K M) (done : List (Parent K M))
      → HasChildren (sizes e per_leaf) d p
      → size p.entries ≤ e
      → All (IsFull e per_leaf d n) done
      → n ≡ length done * (e + 1) + suc (size p.entries)
      → (ps : List (Parent K M)) × (finish (counts e n).parents (max 1 (e / 2)) p done ≡ returns ps)
        × IsFinished p done ps
  unfolding finish
  finish-IsFinished p [] h l a c =
      let one : (counts e n).parents ≡ 1 = parents-count e n 0 (size p.entries) c l in
      (p ∷ [], rw one refl, (((h, l, inr (omega arith)), tt), refl, refl))
  finish-IsFinished p (prev ∷ done) h l a c =
      let many : ltb 1 (counts e n).parents ≡ true =
        rw (parents-count e n (suc (length done)) (size p.entries) c l) (ground arith) in
      elim (Bool-cases (ltb (size p.entries) (max 1 (e / 2)))) [
        | inl few ↦
            let (prev', p', r, moved) =
              move_entries-IsMoved (sizes e per_leaf) d (half_bounds e two).0
                (max 1 (e / 2) - size p.entries) prev p a.0.0 h
                (omega (arith, a.0.1, half_bounds e two)) in
            (
              p' ∷ prev' ∷ done,
              rw (many, few) (rw r refl),
              finish-moves p prev p' prev' done l (ltb→lt (size p.entries) (max 1 (e / 2)) few) a
                  moved,
            )
        | inr enough ↦ (
          p ∷ prev ∷ done,
          rw (many, enough) refl,
          (((h, l, inl (ground arith)), IsFull-IsParent (prev ∷ done) a), refl, refl),
        )
      ]
