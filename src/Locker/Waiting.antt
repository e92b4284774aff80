-- ===== src/Locker/Waiting.antt =====
-- src/node-lock.ts: locks that wait, and the held locks that block them.
use acebase.Prelude.{
  ℕ, ◌≡◌, ◌≢◌, ◌⊎◌, inl, inr, true, some, List, ◌++◌, arith, In, In-append_left, find-some, ◌==◌,
  Bool-cases, ==_iff,
}
use acebase.Locker.{NodeLock, pending, locked, conflicts, find_conflict, update, remove}
use acebase.Locker.Ids.{In-update, In-update_hit, In-update_miss, In-remove, In-remove_ne}
use acebase.Locker.Exclusion.{KeepsRequest}

-- `b` is held, and keeps `a` from being granted.
abbrev pub Blocks : NodeLock → NodeLock → Type 0
Blocks b a =
    (b.state ≡ locked) × (b.tid ≢ a.tid) × ((a.for_writing ≡ true) ⊎ (b.for_writing ≡ true))

abbrev pub IsBlocked : NodeLock → List NodeLock → Type 0
IsBlocked a ls = (b : NodeLock) × In b ls × Blocks b a

-- Every lock that waits is blocked.
abbrev pub AreBlocked : List NodeLock → Type 0
AreBlocked ls = (a : NodeLock) → In a ls → a.state ≡ pending → IsBlocked a ls

pub Blocks-of_conflicts : (a b : NodeLock) → conflicts a.tid a.for_writing b ≡ true → Blocks b a
Blocks-of_conflicts a b h = ground arith

-- A change that keeps held locks held leaves a blocked lock blocked.
abbrev pub KeepsHeld : (NodeLock → NodeLock) → Type 0
KeepsHeld f = (l : NodeLock) → l.state ≡ locked → (f l).state ≡ locked

pub IsBlocked-update :
    (id : ℕ) (f : NodeLock → NodeLock) (a : NodeLock) (ls : List NodeLock)
    → KeepsRequest f
    → KeepsHeld f
    → IsBlocked a ls
    → IsBlocked a (update id f ls)
IsBlocked-update id f a ls k h (b, m, c) = elim (Bool-cases (b.id == id)) [
  | inl e ↦ (f b, In-update_hit b id f ls m ((==_iff b.id id).0 e), ground (arith, k b, h b))
  | inr e ↦ (b, In-update_miss b id f ls m (ground arith), c)
]

-- What blocks a request blocks the same request of a lock that differs elsewhere.
pub IsBlocked-same :
    (a a' : NodeLock) (ls : List NodeLock)
    → a'.tid ≡ a.tid
    → a'.for_writing ≡ a.for_writing
    → IsBlocked a ls
    → IsBlocked a' ls
IsBlocked-same a a' ls e w (b, m, c) = (b, m, ground arith)

pub AreBlocked-update :
    (id : ℕ) (f : NodeLock → NodeLock) (ls : List NodeLock)
    → KeepsRequest f
    → KeepsHeld f
    → ((l : NodeLock) → (f l).state ≡ pending → l.state ≡ pending)
    → AreBlocked ls
    → AreBlocked (update id f ls)
AreBlocked-update id f ls k h p v x m e =
    let (a, am, c) = In-update x id f ls m in
    elim c [
      | inl hit ↦
          IsBlocked-same a x (update id f ls) (ground (arith, k a)) (ground (arith, k a))
            (IsBlocked-update id f a ls k h (v a am (ground (arith, p a))))
      | inr miss ↦
          IsBlocked-same a x (update id f ls) (ground arith) (ground arith)
            (IsBlocked-update id f a ls k h (v a am (ground arith)))
    ]

pub IsBlocked-remove :
    (id : ℕ) (a : NodeLock) (ls : List NodeLock)
    → ((b : NodeLock) → In b ls → b.id ≡ id → b.state ≢ locked)
    → IsBlocked a ls
    → IsBlocked a (remove id ls)
IsBlocked-remove id a ls h (b, m, c) = (b, In-remove_ne b id ls m (λ e. h b m e c.0), c)

-- A lock that is not held may leave.
pub AreBlocked-remove :
    (id : ℕ) (ls : List NodeLock)
    → ((b : NodeLock) → In b ls → b.id ≡ id → b.state ≢ locked)
    → AreBlocked ls
    → AreBlocked (remove id ls)
AreBlocked-remove id ls h v a m p = IsBlocked-remove id a ls h (v a (In-remove a id ls m) p)

pub IsBlocked-append :
    (a : NodeLock) (ls ms : List NodeLock) → IsBlocked a ls → IsBlocked a (ls ++ ms)
IsBlocked-append a ls ms (b, m, c) = (b, In-append_left b ls ms m, c)

pub IsBlocked-of_conflict :
    (a b : NodeLock) (ls : List NodeLock)
    → find_conflict a.tid a.for_writing ls ≡ some b
    → IsBlocked a ls
IsBlocked-of_conflict a b ls e =
    let (m, c) = find-some (conflicts a.tid a.for_writing) b ls e in
    (b, m, Blocks-of_conflicts a b c)

-- While the queue is served: a lock that waits is blocked, or its turn is still to come.
abbrev pub AreBlockedBut : List NodeLock → List NodeLock → Type 0
AreBlockedBut ps ls =
    (a : NodeLock)
    → In a ls
    → a.state ≡ pending
    → IsBlocked a ls ⊎ ((p : NodeLock) × In p ps × (p.id ≡ a.id))
