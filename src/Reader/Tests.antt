-- ===== src/Reader/Tests.antt =====
-- src/btree/binary-reader.ts: a file of eight bytes, read in chunks of three, and the theorems on it.
use acebase.Reader.Runs.{run, run_from, run-run_from, gets, goes, seeks, values, clones}
use acebase.Reader.{get_value, seek, go, get, init, ok, err, eof, skip}
use acebase.Prelude.{arith, ℕ, ◌≡◌, List, [], ◌∷◌, refl}

abbrev file : List ℕ
file = 5 ∷ 6 ∷ 3 ∷ 2 ∷ 7 ∷ 8 ∷ 9 ∷ 4 ∷ []

calls :
    run file 3 (init file 3) (seeks 2 ∷ values ∷ goes 0 ∷ gets 5 ∷ clones ∷ gets 1 ∷ [])
    ≡ ok ((3 ∷ 2 ∷ 7 ∷ 8 ∷ []) ∷ (5 ∷ 6 ∷ 3 ∷ 2 ∷ 7 ∷ []) ∷ (5 ∷ []) ∷ [])
unfolding run get_value seek go
calls = refl

at_end : run file 3 (init file 3) (goes 6 ∷ gets 2 ∷ gets 1 ∷ []) ≡ err eof
unfolding run get go
at_end = refl

run-run_from_example :
    run file 3 (init file 3) (seeks 2 ∷ values ∷ goes 7 ∷ gets 2 ∷ [])
    ≡ run_from file 0 (seeks 2 ∷ values ∷ goes 7 ∷ gets 2 ∷ [])
run-run_from_example = run-run_from file 3 (omega arith) (seeks 2 ∷ values ∷ goes 7 ∷ gets 2 ∷ [])

-- A skip beyond the buffer: the cursor is at 5, where the file has 8, and the byte read is the one at 3.
skipped :
    get file 3 1 (skip 5 (init file 3))
    ≡ ok (2 ∷ [], record { offset = 5; index = 1; buffer = 2 ∷ 7 ∷ 8 ∷ [] })
unfolding get
skipped = refl
