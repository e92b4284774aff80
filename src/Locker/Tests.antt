-- ===== src/Locker/Tests.antt =====
-- src/node-lock.ts: runs of a locker, and the theorems at concrete inputs.
use acebase.Prelude.{
  ℕ, String, ◌≡◌, ◌⊎◌, inl, Bool, true, false, none, some, List, [], ◌∷◌, ◌↔◌, ◌≢◌, refl, arith, In,
}
use acebase.Locker.{
  NodeLock, NodeLocker, Options, Call, locks_path, unlocks, moves_to_parent, resolved, expired,
  locked, new_lock, new_locker, step, run, lock, move_to_parent, process_queue, granted_now, update,
  queue_le,
}
use acebase.Locker.Exclusion.{IsExclusive}
use acebase.Locker.Waiting.{AreBlocked}
use acebase.Locker.Serve.{IsValid, process_queue-IsValid}
use acebase.Locker.Invariant.{run-Exclusive, run-Blocked, move_to_parent_held}
use acebase.Locker.Quit.{HasQuit, process_queue_quits}
use acebase.Locker.Grants.{GoesWith, lock_granted_iff}

abbrev to_root : String → String
to_root path = ""

abbrev plain : Options
plain = record { with_priority = false; no_timeout = false }

-- A writer holds, a reader and a writer wait, the writer leaves.
abbrev calls : List (ℕ × Call)
calls =
    (1, locks_path "users/ewout" 7 true "set" plain)
    ∷ (2, locks_path "users" 8 false "get" plain)
    ∷ (3, locks_path "posts" 9 true "set" plain)
    ∷ (4, moves_to_parent 1)
    ∷ (5, unlocks 1)
    ∷ []

reader_wakes : (run to_root (new_locker 0 120) calls).effects ≡ resolved 2 ∷ []
unfolding run step new_locker lock process_queue queue_le
reader_wakes = refl

run-Exclusive_example : IsExclusive (run to_root (new_locker 0 120) calls).locks
run-Exclusive_example = run-Exclusive to_root 0 120 calls

run-Blocked_example : AreBlocked (run to_root (new_locker 0 120) calls).locks
run-Blocked_example = run-Blocked to_root 0 120 calls

-- A lock that waits, as `lock` makes it.
abbrev waiting : ℕ → Bool → ℕ → NodeLock
waiting id priority now = new_lock id now "users" 8 false "get" priority

abbrev queue : List NodeLock
queue = waiting 1 false 10 ∷ waiting 2 false 5 ∷ waiting 3 true 20 ∷ []

abbrev held : NodeLock
held = record (new_lock 1 1 "users/ewout" 7 true "set" false) { state = locked; granted = some 1 }

abbrev busy : NodeLocker
busy = record {
  locks = held ∷ waiting 2 false 5 ∷ [];
  last_id = 2;
  quit = false;
  timeout = 1000;
  effects = [];
}

busy-IsValid : IsValid busy
busy-IsValid = record {
  safe = record { ascending = omega arith; exclusive = λ a b m n p q. grind arith };
  blocked = λ a m h. (held, inl refl, grind arith);
}

process_queue-IsValid_example : IsValid (process_queue 9 busy)
process_queue-IsValid_example = process_queue-IsValid 9 busy busy-IsValid.safe

move_to_parent_held_example : move_to_parent to_root 9 held busy ≡ (
  record busy { locks = update 1 (λ k. record k { waiting_for = none; path = "" }) busy.locks },
  granted_now 1,
)
move_to_parent_held_example = move_to_parent_held to_root 9 held busy busy-IsValid (inl refl) refl

abbrev quitting_locker : NodeLocker
quitting_locker = record busy { quit = true }

process_queue_quits_example : HasQuit quitting_locker (process_queue 9 quitting_locker)
process_queue_quits_example = process_queue_quits quitting_locker (omega arith) refl 9

lock_granted_iff_example : ((lock 9 "users" 7 true "set" plain busy).1 ≡ granted_now 3) ↔ (
    ((b : NodeLock) → In b busy.locks → b.tid ≡ 7 → b.state ≢ expired)
    × ((false ≡ false) ⊎ (false ≡ true))
    × ((b : NodeLock) → In b busy.locks → b.state ≡ locked → GoesWith 7 true b))
lock_granted_iff_example = lock_granted_iff 9 "users" 7 true "set" plain busy
