-- ===== src/Locker/Ids.antt =====
-- src/node-lock.ts: the ids of the locks in `_locks`, and what `update` and `remove` leave in the list.
use acebase.Prelude.{
  ℕ, suc, ◌<◌, ◌≤◌, ◌≡◌, ◌≢◌, ◌⊎◌, inl, inr, List, [], ◌∷◌, ◌++◌, arith, ◌==◌, ==_iff, Bool-cases,
  In, In-map, In-map_intro, if◌then◌else◌, false,
}
use acebase.Locker.{NodeLock, update, remove}

-- The ids lie between the bounds and rise along the list.
abbrev pub Ascending : ℕ → ℕ → List NodeLock → Type 0
Ascending lo hi [] = lo ≤ hi
Ascending lo hi (l ∷ ls) = (lo < l.id) × Ascending l.id hi ls

pub Ascending-lo :
    (lo lo' hi : ℕ) (ls : List NodeLock) → lo' ≤ lo → Ascending lo hi ls → Ascending lo' hi ls
Ascending-lo lo lo' hi [] h v = omega arith
Ascending-lo lo lo' hi (l ∷ ls) h v = (omega arith, v.1)

pub Ascending-remove :
    (id lo hi : ℕ) (ls : List NodeLock) → Ascending lo hi ls → Ascending lo hi (remove id ls)
Ascending-remove id lo hi [] v = v
Ascending-remove id lo hi (l ∷ ls) v = elim (Bool-cases (l.id == id)) [
  | inl e ↦ rw e (Ascending-lo l.id lo hi ls (omega arith) v.1)
  | inr e ↦ rw e (v.0, Ascending-remove id l.id hi ls v.1)
]

pub Ascending-update :
    (id : ℕ) (f : NodeLock → NodeLock) (lo hi : ℕ) (ls : List NodeLock)
    → ((l : NodeLock) → (f l).id ≡ l.id)
    → Ascending lo hi ls
    → Ascending lo hi (update id f ls)
Ascending-update id f lo hi [] k v = v
Ascending-update id f lo hi (l ∷ ls) k v = elim (Bool-cases (l.id == id)) [
  | inl e ↦ rw e (rw (k l) (v.0, Ascending-update id f l.id hi ls k v.1))
  | inr e ↦ rw e (v.0, Ascending-update id f l.id hi ls k v.1)
]

pub Ascending-append :
    (l : NodeLock) (lo hi : ℕ) (ls : List NodeLock)
    → l.id ≡ suc hi
    → Ascending lo hi ls
    → Ascending lo (suc hi) (ls ++ l ∷ [])
Ascending-append l lo hi [] e v = omega arith
Ascending-append l lo hi (k ∷ ls) e v = (v.0, Ascending-append l k.id hi ls e v.1)

pub lt-In :
    (a : NodeLock) (lo hi : ℕ) (ls : List NodeLock) → Ascending lo hi ls → In a ls → lo < a.id
lt-In a lo hi [] v m = elim m [ ]
lt-In a lo hi (l ∷ ls) v (inl e) = rw e v.0
lt-In a lo hi (l ∷ ls) v (inr m) = omega (arith, lt-In a l.id hi ls v.1 m, v.0)

pub Ascending-le : (lo hi : ℕ) (ls : List NodeLock) → Ascending lo hi ls → lo ≤ hi
Ascending-le lo hi [] v = v
Ascending-le lo hi (l ∷ ls) v = omega (arith, Ascending-le l.id hi ls v.1, v.0)

pub le-In :
    (a : NodeLock) (lo hi : ℕ) (ls : List NodeLock) → Ascending lo hi ls → In a ls → a.id ≤ hi
le-In a lo hi [] v m = elim m [ ]
le-In a lo hi (l ∷ ls) v (inl e) = rw e (Ascending-le l.id hi ls v.1)
le-In a lo hi (l ∷ ls) v (inr m) = le-In a l.id hi ls v.1 m

-- An id names one lock.
pub id_unique :
    (a b : NodeLock) (lo hi : ℕ) (ls : List NodeLock)
    → Ascending lo hi ls
    → In a ls
    → In b ls
    → a.id ≡ b.id
    → a ≡ b
id_unique a b lo hi [] v m n e = elim m [ ]
id_unique a b lo hi (l ∷ ls) v (inl h) (inl k) e = cc
id_unique a b lo hi (l ∷ ls) v (inl h) (inr n) e = ground (arith, lt-In b l.id hi ls v.1 n)
id_unique a b lo hi (l ∷ ls) v (inr m) (inl k) e = ground (arith, lt-In a l.id hi ls v.1 m)
id_unique a b lo hi (l ∷ ls) v (inr m) (inr n) e = id_unique a b l.id hi ls v.1 m n e

-- A lock of the updated list is the updated one, or one that stayed.
pub In-update :
    (x : NodeLock) (id : ℕ) (f : NodeLock → NodeLock) (ls : List NodeLock)
    → In x (update id f ls)
    → (a : NodeLock) × In a ls × (((a.id ≡ id) × (x ≡ f a)) ⊎ ((a.id ≢ id) × (x ≡ a)))
In-update x id f ls m =
    let (a, l, e) = In-map (λ l. if l.id == id then f l else l) x ls m in
    elim (Bool-cases (a.id == id)) [
      | inl h ↦ (a, l, inl (ground (arith, ==_iff a.id id), rw h at e))
      | inr h ↦ (a, l, inr (ground arith, rw h at e))
    ]

pub In-update_hit :
    (a : NodeLock) (id : ℕ) (f : NodeLock → NodeLock) (ls : List NodeLock)
    → In a ls
    → a.id ≡ id
    → In (f a) (update id f ls)
In-update_hit a id f ls m e =
    let t = (==_iff a.id id).1 e in
    rw t at (In-map_intro (λ l. if l.id == id then f l else l) a ls m)

pub In-update_miss :
    (a : NodeLock) (id : ℕ) (f : NodeLock → NodeLock) (ls : List NodeLock)
    → In a ls
    → a.id ≢ id
    → In a (update id f ls)
In-update_miss a id f ls m n =
    let t : (a.id == id) ≡ false = ground arith in
    rw t at (In-map_intro (λ l. if l.id == id then f l else l) a ls m)

pub In-remove : (x : NodeLock) (id : ℕ) (ls : List NodeLock) → In x (remove id ls) → In x ls
In-remove x id [] m = m
In-remove x id (l ∷ ls) m = elim (Bool-cases (l.id == id)) [
  | inl e ↦ inr (rw e at m)
  | inr e ↦ In-remove_tail x l id ls (In-remove x id ls) (rw e at m)
]
  where
    In-remove_tail :
        (x l : NodeLock) (id : ℕ) (ls : List NodeLock)
        → (In x (remove id ls) → In x ls)
        → In x (l ∷ remove id ls)
        → In x (l ∷ ls)
    In-remove_tail x l id ls f (inl e) = inl e
    In-remove_tail x l id ls f (inr m) = inr (f m)

pub In-remove_ne :
    (x : NodeLock) (id : ℕ) (ls : List NodeLock) → In x ls → x.id ≢ id → In x (remove id ls)
In-remove_ne x id [] m n = m
In-remove_ne x id (l ∷ ls) (inl e) n = let t : (l.id == id) ≡ false = ground arith in rw t (inl e)
In-remove_ne x id (l ∷ ls) (inr m) n = elim (Bool-cases (l.id == id)) [
  | inl e ↦ rw e m
  | inr e ↦ rw e (inr (In-remove_ne x id ls m n))
]
