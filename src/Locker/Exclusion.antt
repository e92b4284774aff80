-- ===== src/Locker/Exclusion.antt =====
-- src/node-lock.ts: what `_allowLock` protects. A lock is held when its state is `locked`.
use acebase.Prelude.{
  ℕ, ◌≡◌, ◌≢◌, ◌⊎◌, inl, inr, Bool, true, false, Option, none, some, List, [], ◌∷◌, ◌++◌, refl,
  arith, In, In-append, find-none, find-some,
}
use acebase.Locker.{NodeLock, locked, conflicts, find_conflict, update, remove, mark_granted}
use acebase.Locker.Ids.{In-update, In-remove}

-- Two locks may be held at once: one transaction holds both, or both only read.
abbrev pub Compatible : NodeLock → NodeLock → Type 0
Compatible a b = (a.tid ≡ b.tid) ⊎ ((a.for_writing ≡ false) × (b.for_writing ≡ false))

-- Any two locks that are held are compatible.
abbrev pub IsExclusive : List NodeLock → Type 0
IsExclusive ls =
    (a b : NodeLock) → In a ls → In b ls → a.state ≡ locked → b.state ≡ locked → Compatible a b

pub Compatible-of_conflicts :
    (a b : NodeLock) → conflicts a.tid a.for_writing b ≡ false → b.state ≡ locked → Compatible a b
Compatible-of_conflicts a b h k = ground arith

Compatible-sym : (a b : NodeLock) → Compatible a b → Compatible b a
Compatible-sym a b h = ground arith

conflicts-Compatible : (a b : NodeLock) → Compatible a b → conflicts a.tid a.for_writing b ≡ false
conflicts-Compatible a b h = ground arith

-- A change of one lock that keeps who asks and for what.
abbrev pub KeepsRequest : (NodeLock → NodeLock) → Type 0
KeepsRequest f =
    (l : NodeLock) → ((f l).id ≡ l.id) × ((f l).tid ≡ l.tid) × ((f l).for_writing ≡ l.for_writing)

pub mark_granted_request :
    (now timeout : ℕ) (no_timeout : Bool) (l : NodeLock)
    → ((mark_granted now timeout no_timeout l).id ≡ l.id)
      × ((mark_granted now timeout no_timeout l).tid ≡ l.tid)
      × ((mark_granted now timeout no_timeout l).for_writing ≡ l.for_writing)
      × ((mark_granted now timeout no_timeout l).state ≡ locked)
mark_granted_request now timeout no_timeout l = ground arith

-- A lock that is allowed may become held.
pub IsExclusive-grant :
    (id : ℕ) (f : NodeLock → NodeLock) (ls : List NodeLock)
    → KeepsRequest f
    → ((a b : NodeLock) → In a ls → In b ls → a.id ≡ id → b.id ≡ id → a.tid ≡ b.tid)
    → ((a : NodeLock) → In a ls → a.id ≡ id → find_conflict a.tid a.for_writing ls ≡ none)
    → IsExclusive ls
    → IsExclusive (update id f ls)
IsExclusive-grant id f ls k same free v x y m n p q =
    let (a, am, ac) = In-update x id f ls m in
    let (b, bm, bc) = In-update y id f ls n in IsExclusive-grant_cases a b am bm ac bc
  where
    IsExclusive-grant_cases :
        (a b : NodeLock)
        → In a ls
        → In b ls
        → ((a.id ≡ id) × (x ≡ f a)) ⊎ ((a.id ≢ id) × (x ≡ a))
        → ((b.id ≡ id) × (y ≡ f b)) ⊎ ((b.id ≢ id) × (y ≡ b))
        → Compatible x y
    IsExclusive-grant_cases a b am bm (inl h) (inl g) =
        ground (arith, k a, k b, same a b am bm h.0 g.0)
    IsExclusive-grant_cases a b am bm (inl h) (inr g) =
        let free_b = find-none (conflicts a.tid a.for_writing) b ls (free a am h.0) bm in
        ground (arith, k a, Compatible-of_conflicts a b free_b)
    IsExclusive-grant_cases a b am bm (inr h) (inl g) =
        let free_a = find-none (conflicts b.tid b.for_writing) a ls (free b bm g.0) am in
        ground (arith, k b, Compatible-of_conflicts b a free_a)
    IsExclusive-grant_cases a b am bm (inr h) (inr g) = ground (arith, v a b am bm)

-- A change that makes no lock held.
pub IsExclusive-update :
    (id : ℕ) (f : NodeLock → NodeLock) (ls : List NodeLock)
    → KeepsRequest f
    → ((l : NodeLock) → (f l).state ≡ locked → l.state ≡ locked)
    → IsExclusive ls
    → IsExclusive (update id f ls)
IsExclusive-update id f ls k keeps v x y m n p q =
    let (a, am, ac) = In-update x id f ls m in
    let (b, bm, bc) = In-update y id f ls n in
    ground (arith, k a, k b, keeps a, keeps b, v a b am bm)

pub IsExclusive-remove : (id : ℕ) (ls : List NodeLock) → IsExclusive ls → IsExclusive (remove id ls)
IsExclusive-remove id ls v a b m n = v a b (In-remove a id ls m) (In-remove b id ls n)

-- A new lock waits.
pub IsExclusive-append :
    (l : NodeLock) (ls : List NodeLock)
    → l.state ≢ locked
    → IsExclusive ls
    → IsExclusive (ls ++ l ∷ [])
IsExclusive-append l ls h v a b m n p q = elim (In-append a ls (l ∷ []) m) [
  | inl am ↦ elim (In-append b ls (l ∷ []) n) [ inl bm ↦ v a b am bm p q | inr bm ↦ ground arith ]
  | inr am ↦ ground arith
]

-- What a held lock asks for is allowed while it is held.
pub allowed_of_held :
    (a : NodeLock) (ls : List NodeLock)
    → IsExclusive ls
    → In a ls
    → a.state ≡ locked
    → find_conflict a.tid a.for_writing ls ≡ none
allowed_of_held a ls v m h = allowed (find_conflict a.tid a.for_writing ls) refl
  where
    allowed : (o : Option NodeLock) → find_conflict a.tid a.for_writing ls ≡ o → o ≡ none
    allowed none e = refl
    allowed (some b) e =
        let (bm, c) = find-some (conflicts a.tid a.for_writing) b ls e in
        let b_locked : b.state ≡ locked = conflicts_locked b c in
        cc (conflicts-Compatible a b (v a b m bm h b_locked), c)
      where
        conflicts_locked :
            (b : NodeLock) → conflicts a.tid a.for_writing b ≡ true → b.state ≡ locked
        conflicts_locked b c = ground arith
