-- ===== src/ThreadSafe/Exclusive.antt =====
-- src/thread-safe.ts: exclusive requests.
use acebase.Prelude.{
  ℕ, ◌≡◌, refl, sym, ap, subst, ◌∙◌, arith, true, false, List, [], ◌∷◌, ◌++◌, All, Option, none,
  some,
}
use mathlib.Core.List.{append_assoc, append-nil}
use acebase.ThreadSafe.{
  Request, Lock, grant_next, release, request, lock, Call, locks, releases, World, without, holds,
  released_entry, step, fresh, run, AreHeld,
}

abbrev pub IsExclusive : Call → Type 0
IsExclusive (locks r) = r.shared ≡ false
IsExclusive (releases id) = Unit

-- The ids that wait.
abbrev pub waiting : List Request → List ℕ
waiting [] = []
waiting (r ∷ rs) = r.id ∷ waiting rs

abbrev AllExclusive : List Request → Type 0
AllExclusive rs = All (λ r. r.shared ≡ false) rs

-- All that is known of a target: free, or held by one caller; `asked` are the requests so far.
abbrev pub IsOwned : List ℕ → Option Lock → List ℕ → List ℕ → Type 0
IsOwned asked none holders granted = (holders ≡ []) × (granted ≡ asked)
IsOwned asked (some l) holders granted =
    ((id : ℕ) × (holders ≡ id ∷ []))
    × (l.shared ≡ false)
    × AllExclusive l.queue
    × (granted ++ waiting l.queue ≡ asked)

abbrev pub asked_by : Call → List ℕ
asked_by (locks r) = r.id ∷ []
asked_by (releases id) = []

AllExclusive-snoc :
    (rs : List Request) (r : Request)
    → AllExclusive rs
    → r.shared ≡ false
    → AllExclusive (rs ++ r ∷ [])
AllExclusive-snoc [] r h e = (e, tt)
AllExclusive-snoc (x ∷ rs) r h e = (h.0, AllExclusive-snoc rs r h.1 e)

waiting-append : (rs ss : List Request) → waiting (rs ++ ss) ≡ waiting rs ++ waiting ss
waiting-append [] ss = refl
waiting-append (r ∷ rs) ss = ap (r.id ∷◌) (waiting-append rs ss)

lock-IsOwned :
    (asked : List ℕ) (r : Request) (entry : Option Lock) (hs gs : List ℕ)
    → r.shared ≡ false
    → IsOwned asked entry hs gs
    → IsOwned
        (asked ++ r.id ∷ [])
        (lock r entry).0
        (hs ++ (lock r entry).1)
        (gs ++ (lock r entry).1)
unfolding lock request
lock-IsOwned asked r none hs gs e (h, g) = ((r.id, rw h refl), e, tt, append-nil _ ∙ rw g refl)
lock-IsOwned asked r (some l) hs gs e ((id, h), s, q, g) = rw s (
  (id, append-nil hs ∙ h),
  refl,
  AllExclusive-snoc l.queue r q e,
  ap (λ xs. xs ++ waiting (l.queue ++ r ∷ [])) (append-nil gs)
      ∙ ap (gs ++◌) (waiting-append l.queue (r ∷ []))
      ∙ sym (append_assoc gs (waiting l.queue) (r.id ∷ []))
      ∙ ap (λ xs. xs ++ r.id ∷ []) g,
)

without-one : (id j : ℕ) → holds id (j ∷ []) ≡ true → without id (j ∷ []) ≡ []
without-one id j h = ground arith

release-IsOwned :
    (asked : List ℕ) (id : ℕ) (entry : Option Lock) (hs gs : List ℕ)
    → holds id hs ≡ true
    → IsOwned asked entry hs gs
    → IsOwned asked
        (released_entry entry).0
        (without id hs ++ (released_entry entry).1)
        (gs ++ (released_entry entry).1)
unfolding release
release-IsOwned asked id none hs gs k (h, g) =
    let absurd : holds id [] ≡ true = subst (λ xs. holds id xs ≡ true) h k in cc
release-IsOwned asked id (some l) hs gs k ((j, h), s, q, g) =
    let one : holds id (j ∷ []) ≡ true = subst (λ xs. holds id xs ≡ true) h k in
    rw (s, h, without-one id j one) (next l.queue q g)
  where
    next :
        (queue : List Request)
        → AllExclusive queue
        → gs ++ waiting queue ≡ asked
        → IsOwned asked (grant_next l queue).0 (grant_next l queue).1 (gs ++ (grant_next l queue).1)
    next [] q g = (refl, g)
    next (r ∷ rs) q g =
        rw q.0 ((r.id, refl), refl, q.1, append_assoc gs (r.id ∷ []) (waiting rs) ∙ g)

-- The requests of some calls, in order.
abbrev pub all_asked : List Call → List ℕ
all_asked [] = []
all_asked (c ∷ cs) = asked_by c ++ all_asked cs

abbrev pub AreExclusive : List Call → Type 0
AreExclusive cs = All IsExclusive cs

run-IsOwned :
    (asked : List ℕ) (cs : List Call) (w : World)
    → AreExclusive cs
    → AreHeld cs w
    → IsOwned asked w.entry w.holders w.granted
    → IsOwned (asked ++ all_asked cs) (run cs w).entry (run cs w).holders (run cs w).granted
unfolding run step
run-IsOwned asked [] w e h o = rw (append-nil asked) o
run-IsOwned asked (locks r ∷ cs) w e h o = rw (← append_assoc asked (r.id ∷ []) (all_asked cs)) (
    run-IsOwned (asked ++ r.id ∷ []) cs (step (locks r) w) e.1 h
      (lock-IsOwned asked r w.entry w.holders w.granted e.0 o))
run-IsOwned asked (releases id ∷ cs) w e h o =
    run-IsOwned asked cs (step (releases id) w) e.1 h.1
      (release-IsOwned asked id w.entry w.holders w.granted h.0 o)

-- After any calls on a new target whose requests are all exclusive, and whose releases are each by one that
-- holds the target then: either nobody holds it, nobody waits and it is free, or exactly one
-- caller holds it; and the granted requests followed by the waiting ones are all requests in their
-- order.
pub run_exclusive :
    (cs : List Call)
    → AreExclusive cs
    → AreHeld cs fresh
    → IsOwned (all_asked cs) (run cs fresh).entry (run cs fresh).holders (run cs fresh).granted
run_exclusive cs e h = run-IsOwned [] cs fresh e h (refl, refl)
