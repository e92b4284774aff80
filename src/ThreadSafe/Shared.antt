-- ===== src/ThreadSafe/Shared.antt =====
-- src/thread-safe.ts: shared requests.
use acebase.Prelude.{
  ℕ, suc, ◌-◌, ◌≡◌, inl, inr, refl, subst, ◌∙◌, arith, Bool, true, false, ◌&&◌, List, [], ◌∷◌, ◌++◌,
  All, ltb, if◌then◌else◌, Option, none, some, Bool-cases, length, length-append,
}
use acebase.ThreadSafe.{
  Request, Lock, grant_next, release, request, lock, Call, locks, releases, World, without, holds,
  released_entry, step, fresh, run, AreHeld,
}

abbrev pub IsShared : Call → Type 0
IsShared (locks r) = r.shared ≡ true
IsShared (releases id) = Unit

-- A free target has no holders, a shared one as many as it counts, and nobody waits.
abbrev pub IsCounted : Option Lock → List ℕ → Type 0
IsCounted none hs = hs ≡ []
IsCounted (some l) hs = (l.shared ≡ true) × (l.queue ≡ []) × (length hs ≡ suc l.shares)

length-without :
    (id : ℕ) (hs : List ℕ) → holds id hs ≡ true → suc (length (without id hs)) ≡ length hs
length-without id [] h = cc
length-without id (j ∷ js) h = ground (arith, length-without id js)

empty_list : (hs : List ℕ) → length hs ≡ 0 → hs ≡ []
empty_list [] h = refl
empty_list (x ∷ hs) h = ground arith

lock-IsCounted :
    (r : Request) (entry : Option Lock) (hs : List ℕ)
    → r.shared ≡ true
    → IsCounted entry hs
    → IsCounted (lock r entry).0 (hs ++ (lock r entry).1)
unfolding lock request
lock-IsCounted r none hs e h = (e, refl, rw h refl)
lock-IsCounted r (some l) hs e (s, q, n) =
    rw (s, e) (refl, q, length-append hs (r.id ∷ []) ∙ ground arith)

release-IsCounted :
    (id : ℕ) (entry : Option Lock) (hs : List ℕ)
    → holds id hs ≡ true
    → IsCounted entry hs
    → IsCounted (released_entry entry).0 (without id hs ++ (released_entry entry).1)
unfolding release
release-IsCounted id none hs k h =
    let absurd : holds id [] ≡ true = subst (λ xs. holds id xs ≡ true) h k in cc
release-IsCounted id (some l) hs k (s, q, n) = elim (Bool-cases (ltb 0 l.shares)) [
  | inl t ↦
      rw (s, t) (refl, q, length-append (without id hs) [] ∙ ground (arith, length-without id hs k))
  | inr f ↦
      let last : without id hs ≡ [] =
        empty_list (without id hs) (ground (arith, length-without id hs k)) in
      rw (s, f, q, last) refl
]

run-IsCounted :
    (cs : List Call) (w : World)
    → All IsShared cs
    → AreHeld cs w
    → IsCounted w.entry w.holders
    → IsCounted (run cs w).entry (run cs w).holders
unfolding run step
run-IsCounted [] w e h o = o
run-IsCounted (locks r ∷ cs) w e h o =
    run-IsCounted cs (step (locks r) w) e.1 h (lock-IsCounted r w.entry w.holders e.0 o)
run-IsCounted (releases id ∷ cs) w e h o =
    run-IsCounted cs (step (releases id) w) e.1 h.1 (release-IsCounted id w.entry w.holders h.0 o)

-- After any calls on a new target whose requests are all shared, and whose releases are each by one that
-- holds the target then, nobody waits, and the target is free exactly if nobody holds it: the number
-- of holders is the count of shares and one.
pub run_shared :
    (cs : List Call)
    → All IsShared cs
    → AreHeld cs fresh
    → IsCounted (run cs fresh).entry (run cs fresh).holders
run_shared cs e h = run-IsCounted cs fresh e h refl

-- Shared requests that come out of the queue are not counted: of two that are granted together, the
-- first release frees the target although the other one still holds it.
pub release_uncounted :
    (l : Lock) (a b : Request)
    → l.shares ≡ 0
    → a.shared ≡ true
    → b.shared ≡ true
    → l.queue ≡ a ∷ b ∷ []
    → (after : Lock) × (release l ≡ (some after, a.id ∷ b.id ∷ [])) × (release after ≡ (none, []))
unfolding release
release_uncounted l a b n s t q =
    (record l { shared = true; queue = [] }, granted (l.shared), rw n refl)
  where
    granted :
        (x : Bool)
        → (if x && ltb 0 l.shares
            then (some (record l { shares = l.shares - 1 }), [])
            else grant_next l l.queue)
          ≡ (some (record l { shared = true; queue = [] }), a.id ∷ b.id ∷ [])
    granted true = rw (n, q, s, t) refl
    granted false = rw (q, s, t) refl
