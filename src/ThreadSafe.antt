-- ===== src/ThreadSafe.antt =====
-- src/thread-safe.ts: `ThreadSafeLock2` and `ThreadSafe2`, shared and exclusive locks. The state is that
-- of one target: targets do not share anything.
pub mod Exclusive
pub mod Shared
mod Tests
use acebase.Prelude.{
  ◌≡◌, ℕ, zero, suc, ◌-◌, Bool, true, false, ◌&&◌, List, [], ◌∷◌, ◌++◌, ltb, ◌==◌, if◌then◌else◌,
  Option, none, some,
}

-- An entry of the queue; `id` stands for the promise that `grant` resolves.
pub record Request : Type 0 where
  pub id : ℕ
  pub shared : Bool

-- `ThreadSafeLock2`
pub record Lock : Type 0 where
  pub shared : Bool
  pub shares : ℕ
  pub queue : List Request

-- The shared requests at the front of the queue, and what is behind them.
abbrev pub shared_front : List Request → List ℕ
shared_front [] = []
shared_front (r ∷ rs) = let rest = shared_front rs in if r.shared then r.id ∷ rest else []

abbrev pub after_shared : List Request → List Request
after_shared [] = []
after_shared (r ∷ rs) = let rest = after_shared rs in if r.shared then rest else r ∷ rs

-- `release`: the lock after, or `none` when it emits 'released', and the requests it grants.
abbrev pub grant_next : Lock → List Request → Option Lock × List ℕ
grant_next l [] = (none, [])
grant_next l (next ∷ queue) =
    if next.shared
    then (
      some (record l { shared = true; queue = after_shared queue }),
      next.id ∷ shared_front queue,
    )
    else (some (record l { shared = false; queue = queue }), next.id ∷ [])

unfoldable pub release : Lock → Option Lock × List ℕ
release l =
    if l.shared && ltb 0 l.shares
    then (some (record l { shares = l.shares - 1 }), [])
    else grant_next l l.queue

-- `request`: granted at once, or queued.
unfoldable pub request : Request → Lock → Lock × List ℕ
request r l =
    if l.shared && r.shared
    then (record l { shares = suc l.shares }, r.id ∷ [])
    else (record l { queue = l.queue ++ r ∷ [] }, [])

-- `ThreadSafe2.lock`; the entry of the target in `locks2` before and after.
unfoldable pub lock : Request → Option Lock → Option Lock × List ℕ
unfolding request
lock r none = (some (record { shared = r.shared; shares = 0; queue = [] }), r.id ∷ [])
lock r (some l) = (some (request r l).0, (request r l).1)

-- What the callers do: ask for a lock, or release it.
pub data Call : Type 0 where
  locks : Request → Call
  releases : ℕ → Call

-- The target, with the ids that hold it and, oldest first, all ids that were granted.
pub record World : Type 0 where
  pub entry : Option Lock
  pub holders : List ℕ
  pub granted : List ℕ

abbrev pub without : ℕ → List ℕ → List ℕ
without id [] = []
without id (j ∷ js) = let rest = without id js in if j == id then js else j ∷ rest

abbrev pub holds : ℕ → List ℕ → Bool
holds id [] = false
holds id (j ∷ js) = let rest = holds id js in if j == id then true else rest

abbrev pub released_entry : Option Lock → Option Lock × List ℕ
unfolding release
released_entry none = (none, [])
released_entry (some l) = release l

-- A call. `release` does not look who calls it; a call on the lock of a target that has been freed since
-- has no effect here.
unfoldable pub step : Call → World → World
unfolding lock
step (locks r) w =
    let (entry, ids) = lock r w.entry in
    record { entry = entry; holders = w.holders ++ ids; granted = w.granted ++ ids }
step (releases id) w =
    let (entry, ids) = released_entry w.entry in
    record { entry = entry; holders = without id w.holders ++ ids; granted = w.granted ++ ids }

abbrev pub fresh : World
fresh = record { entry = none; holders = []; granted = [] }

unfoldable pub run : List Call → World → World
unfolding step
run [] w = w
run (c ∷ cs) w = run cs (step c w)

-- Each release in these calls is by one that holds a lock of the target then.
abbrev pub AreHeld : List Call → World → Type 0
AreHeld [] w = Unit
AreHeld (locks r ∷ cs) w = AreHeld cs (step (locks r) w)
AreHeld (releases id ∷ cs) w = (holds id w.holders ≡ true) × AreHeld cs (step (releases id) w)
