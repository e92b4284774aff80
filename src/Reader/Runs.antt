-- ===== src/Reader/Runs.antt =====
-- src/btree/binary-reader.ts: sequences of calls.
use acebase.Reader.Refines.{get_value-AnswersAs, value_from, get-AnswersAs, AnswersAs, get_from}
use acebase.Reader.Buffer.{IsAligned, load-IsAligned}
use acebase.Reader.{
  get_value, err, source_index, clone, ◌>>=◌, get, ok, Reader, seek, init, go, load, Result,
}
use acebase.Prelude.{
  ℕ, ◌+◌, ◌≤◌, ◌≡◌, arith, ◌&&◌, List, [], ◌∷◌, length, ltb, leb, Bool-cases, inl, inr, refl, sym,
  ap, ◌∙◌, subst, if_true, if_false,
}

pub data Call : Type 0 where
  gets goes seeks : ℕ → Call
  values clones : Call

-- The answers to the calls of `get`, up to the first that throws.
unfoldable pub run : List ℕ → ℕ → Reader → List Call → Result (List (List ℕ))
run file chunk_size r [] = ok []
run file chunk_size r (gets n ∷ cs) =
    get file chunk_size n r >>= λ (s, r'). run file chunk_size r' cs >>= λ ss. ok (s ∷ ss)
run file chunk_size r (values ∷ cs) =
    get_value file chunk_size r >>= λ (s, r'). run file chunk_size r' cs >>= λ ss. ok (s ∷ ss)
run file chunk_size r (goes index ∷ cs) = run file chunk_size (go file chunk_size index r) cs
run file chunk_size r (seeks n ∷ cs) = run file chunk_size (seek file chunk_size n r) cs
run file chunk_size r (clones ∷ cs) = run file chunk_size (clone r) cs

-- The same calls on the file itself, with a place in it.
pub run_from : List ℕ → ℕ → List Call → Result (List (List ℕ))
run_from file place [] = ok []
run_from file place (gets n ∷ cs) =
    get_from file place n >>= λ s. run_from file (place + length s) cs >>= λ ss. ok (s ∷ ss)
run_from file place (values ∷ cs) =
    value_from file place >>= λ s. run_from file (place + length s) cs >>= λ ss. ok (s ∷ ss)
run_from file place (goes index ∷ cs) = run_from file index cs
run_from file place (seeks n ∷ cs) = run_from file (place + n) cs
run_from file place (clones ∷ cs) = run_from file 0 cs

module _ (file : List ℕ) (chunk_size : ℕ) where
  -- An aligned reader at a place of the file.
  abbrev Stands : ℕ → Reader → Type 0
  Stands place r = IsAligned file chunk_size r × (source_index r ≡ place)

  load-Stands : (place : ℕ) → Stands place (load file chunk_size place)
  load-Stands place = (load-IsAligned file chunk_size place, omega arith)

  go-Stands :
      (index : ℕ) (r : Reader)
      → IsAligned file chunk_size r
      → Stands index (go file chunk_size index r)
  unfolding go
  go-Stands index r a =
      elim (Bool-cases (leb r.offset index && ltb index (r.offset + length r.buffer))) [
        | inl t ↦
            subst (Stands index)
              (sym (if_true (leb r.offset index && ltb index (r.offset + length r.buffer)) _ _ t))
              (record { part = a.part; within = ground arith }, ground arith)
        | inr f ↦
            subst (Stands index)
              (sym (if_false (leb r.offset index && ltb index (r.offset + length r.buffer)) _ _ f))
              (load-Stands index)
      ]

  seek-Stands :
      (n : ℕ) (r : Reader)
      → IsAligned file chunk_size r
      → Stands (source_index r + n) (seek file chunk_size n r)
  unfolding seek
  seek-Stands n r a = elim (Bool-cases (ltb (r.index + n) (length r.buffer))) [
    | inl t ↦
        subst (Stands (source_index r + n))
          (sym (if_true (ltb (r.index + n) (length r.buffer)) _ _ t))
          (record { part = a.part; within = ground arith }, omega arith)
    | inr f ↦
        subst (Stands (source_index r + n))
          (sym (if_false (ltb (r.index + n) (length r.buffer)) _ _ f))
          (load-Stands (source_index r + n))
  ]

  module _ (c : 1 ≤ chunk_size) where
    after_get :
        (place : ℕ) (cs : List Call) (answer : Result (List ℕ)) (a : Result (List ℕ × Reader))
        → AnswersAs file chunk_size place answer a
        → ((r : Reader)
            → IsAligned file chunk_size r
            → run file chunk_size r cs ≡ run_from file (source_index r) cs)
        → (a >>= λ (s, r). run file chunk_size r cs >>= λ ss. ok (s ∷ ss))
          ≡ (answer >>= λ s. run_from file (place + length s) cs >>= λ ss. ok (s ∷ ss))
    after_get place cs answer (ok (s, r)) (e, (w, at)) ih = rw (← e) (rw (ih r w) (rw at refl))
    after_get place cs answer (err x) (e, w) ih = rw (← e) refl

    run-run_from' :
        (cs : List Call) (r : Reader)
        → IsAligned file chunk_size r
        → run file chunk_size r cs ≡ run_from file (source_index r) cs
    unfolding run run_from
    run-run_from' [] r a = refl
    run-run_from' (gets n ∷ cs) r a =
        after_get (source_index r) cs (get_from file (source_index r) n) (get file chunk_size n r)
          (get-AnswersAs file chunk_size c n r a) (run-run_from' cs)
    run-run_from' (values ∷ cs) r a =
        after_get (source_index r) cs (value_from file (source_index r))
          (get_value file chunk_size r) (get_value-AnswersAs file chunk_size c r a)
          (run-run_from' cs)
    run-run_from' (goes index ∷ cs) r a =
        let (w, at) = go-Stands index r a in
        run-run_from' cs (go file chunk_size index r) w ∙ ap (λ k. run_from file k cs) at
    run-run_from' (seeks n ∷ cs) r a =
        let (w, at) = seek-Stands n r a in
        run-run_from' cs (seek file chunk_size n r) w ∙ ap (λ k. run_from file k cs) at
    run-run_from' (clones ∷ cs) r a =
        run-run_from' cs (clone r) (record { part = refl; within = omega arith })

    -- With chunks of at least one byte, a reader that was initialised answers any calls of get, getValue, go,
    -- clone, and seek forwards as the file itself does: with the same bytes, or at the same call with
    -- the end of the file.
    pub run-run_from :
        (cs : List Call) → run file chunk_size (init file chunk_size) cs ≡ run_from file 0 cs
    run-run_from cs = run-run_from' cs (init file chunk_size) (load-IsAligned file chunk_size 0)
