-- ===== src/ThreadSafe/Tests.antt =====
-- src/thread-safe.ts: runs with three callers.
use acebase.Prelude.{ℕ, ◌≡◌, Bool, true, false, List, [], ◌∷◌, refl}
use acebase.ThreadSafe.{Request, release, request, lock, Call, locks, releases, step, fresh, run}
use acebase.ThreadSafe.Exclusive.{IsOwned, all_asked, run_exclusive}
use acebase.ThreadSafe.Shared.{IsCounted, run_shared}

abbrev asks : ℕ → Bool → Request
asks id shared = record { id = id; shared = shared }

abbrev writers : List Call
writers = locks (asks 1 false) ∷ locks (asks 2 false) ∷ releases 1 ∷ locks (asks 3 false) ∷ []

abbrev readers : List Call
readers = locks (asks 1 true) ∷ locks (asks 2 true) ∷ releases 1 ∷ []

-- Two readers wait for a writer; the first of them that leaves lets the next writer in.
reader_and_writer :
    (run
      (locks (asks 1 false)
        ∷ locks (asks 2 true)
        ∷ locks (asks 3 true)
        ∷ releases 1
        ∷ releases 2
        ∷ locks (asks 4 false)
        ∷ [])
      fresh).holders
    ≡ 3 ∷ 4 ∷ []
unfolding run step lock request release
reader_and_writer = refl

run_exclusive_example :
    IsOwned
      (all_asked writers)
      (run writers fresh).entry
      (run writers fresh).holders
      (run writers fresh).granted
unfolding step lock request release
run_exclusive_example = run_exclusive writers (refl, (refl, (tt, (refl, tt)))) (refl, tt)

run_shared_example : IsCounted (run readers fresh).entry (run readers fresh).holders
unfolding step lock request release
run_shared_example = run_shared readers (refl, (refl, (tt, tt))) (refl, tt)

-- A second release by one that no longer holds the target lets the next one in beside the holder.
released_twice :
    (run
      (locks (asks 1 false)
        ∷ locks (asks 2 false)
        ∷ locks (asks 3 false)
        ∷ releases 1
        ∷ releases 1
        ∷ [])
      fresh).holders
    ≡ 2 ∷ 3 ∷ []
unfolding run step lock request release
released_twice = refl
