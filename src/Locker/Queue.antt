-- ===== src/Locker/Queue.antt =====
-- src/node-lock.ts: the order in which `_processLockQueue` serves the locks that wait.
use acebase.Prelude.{◌≤◌, ◌≡◌, ◌⊎◌, inl, inr, true, false, List, [], ◌∷◌, arith, Bool-cases, In}
use mathlib.Core.List.{Perm}
use mathlib.Core.List.Perm
use acebase.Locker.{NodeLock, queue_le, insert_queue, sort_queue}

-- What the comments of the source ask: priority goes first, and among equals the older request.
abbrev pub Before : NodeLock → NodeLock → Type 0
Before a b =
    ((a.priority ≡ true) × (b.priority ≡ false))
    ⊎ ((a.priority ≡ b.priority) × (a.requested ≤ b.requested))

queue_le-Before : (a b : NodeLock) → queue_le a b ≡ true → Before a b
unfolding queue_le
queue_le-Before a b h = ground arith

not-queue_le-Before : (a b : NodeLock) → queue_le a b ≡ false → Before b a
unfolding queue_le
not-queue_le-Before a b h = ground arith

Before-trans : (a b c : NodeLock) → Before a b → Before b c → Before a c
Before-trans a b c h k = ground arith

-- `IsServed ls`: each lock of the list goes before the ones behind it.
abbrev pub AllAfter : NodeLock → List NodeLock → Type 0
AllAfter a [] = Unit
AllAfter a (b ∷ bs) = Before a b × AllAfter a bs

abbrev pub IsServed : List NodeLock → Type 0
IsServed [] = Unit
IsServed (a ∷ bs) = AllAfter a bs × IsServed bs

AllAfter-trans : (a b : NodeLock) (bs : List NodeLock) → Before a b → AllAfter b bs → AllAfter a bs
AllAfter-trans a b [] h k = tt
AllAfter-trans a b (c ∷ bs) h k = (Before-trans a b c h k.0, AllAfter-trans a b bs h k.1)

AllAfter-insert :
    (a b : NodeLock) (bs : List NodeLock)
    → Before a b
    → AllAfter a bs
    → AllAfter a (insert_queue b bs)
unfolding insert_queue
AllAfter-insert a b [] h k = (h, tt)
AllAfter-insert a b (c ∷ bs) h k = elim (Bool-cases (queue_le b c)) [
  | inl e ↦ rw (e, insert_queue) (h, k)
  | inr e ↦ rw (e, insert_queue) (k.0, AllAfter-insert a b bs h k.1)
]

insert_queue-IsServed :
    (a : NodeLock) (bs : List NodeLock) → IsServed bs → IsServed (insert_queue a bs)
unfolding insert_queue
insert_queue-IsServed a [] v = (tt, tt)
insert_queue-IsServed a (b ∷ bs) v = elim (Bool-cases (queue_le a b)) [
  | inl e ↦
      let h = queue_le-Before a b e in rw (e, insert_queue) ((h, AllAfter-trans a b bs h v.0), v)
  | inr e ↦
      rw (e, insert_queue)
        (AllAfter-insert b a bs (not-queue_le-Before a b e) v.0, insert_queue-IsServed a bs v.1)
]

sort_queue-IsServed : (ls : List NodeLock) → IsServed (sort_queue ls)
unfolding sort_queue
sort_queue-IsServed [] = tt
sort_queue-IsServed (l ∷ ls) = insert_queue-IsServed l (sort_queue ls) (sort_queue-IsServed ls)

insert_queue-perm : (a : NodeLock) (bs : List NodeLock) → Perm (insert_queue a bs) (a ∷ bs)
unfolding insert_queue
insert_queue-perm a [] = Perm.refl (a ∷ [])
insert_queue-perm a (b ∷ bs) = elim (Bool-cases (queue_le a b)) [
  | inl e ↦ rw (e, insert_queue) (Perm.refl (a ∷ b ∷ bs))
  | inr e ↦
      rw (e, insert_queue) (Perm.trans (Perm.cons b (insert_queue-perm a bs)) (Perm.swap a b bs))
]

sort_queue-perm : (ls : List NodeLock) → Perm (sort_queue ls) ls
unfolding sort_queue
sort_queue-perm [] = Perm.refl []
sort_queue-perm (l ∷ ls) =
    Perm.trans (insert_queue-perm l (sort_queue ls)) (Perm.cons l (sort_queue-perm ls))

-- The queue is the same locks, none lost and none added, in the order in which they are served:
-- those with priority first, and the older request first among equals.
pub sort_queue_correct : (ls : List NodeLock) → IsServed (sort_queue ls) × Perm (sort_queue ls) ls
sort_queue_correct ls = (sort_queue-IsServed ls, sort_queue-perm ls)

In-insert_queue : (x a : NodeLock) (bs : List NodeLock) → In x (insert_queue a bs) → In x (a ∷ bs)
unfolding insert_queue
In-insert_queue x a [] m = m
In-insert_queue x a (b ∷ bs) m = ground (arith, In-insert_queue x a bs)

In-insert_queue_intro :
    (x a : NodeLock) (bs : List NodeLock) → In x (a ∷ bs) → In x (insert_queue a bs)
unfolding insert_queue
In-insert_queue_intro x a [] m = m
In-insert_queue_intro x a (b ∷ bs) m = ground (arith, In-insert_queue_intro x a bs)

pub In-sort_queue : (x : NodeLock) (ls : List NodeLock) → In x (sort_queue ls) → In x ls
unfolding sort_queue
In-sort_queue x [] m = m
In-sort_queue x (l ∷ ls) m = elim (In-insert_queue x l (sort_queue ls) m) [
  | inl e ↦ inl e
  | inr n ↦ inr (In-sort_queue x ls n)
]

pub In-sort_queue_intro : (x : NodeLock) (ls : List NodeLock) → In x ls → In x (sort_queue ls)
unfolding sort_queue
In-sort_queue_intro x [] m = m
In-sort_queue_intro x (l ∷ ls) (inl e) = In-insert_queue_intro x l (sort_queue ls) (inl e)
In-sort_queue_intro x (l ∷ ls) (inr m) =
    In-insert_queue_intro x l (sort_queue ls) (inr (In-sort_queue_intro x ls m))
