-- ===== src/Reader/Refines.antt =====
-- src/btree/binary-reader.ts: reading through the buffer gives what reading the file gives.
use acebase.Reader.Buffer.{IsAligned, more-IsAligned, slice_lem, length-slice, few, chunks_enough}
use acebase.Reader.{
  get_value, byte_at, invalid_byte_length, eof, assert_bytes, ◌>>=◌, ok, get, err, source_index,
  read, more, Reader, Result,
}
use acebase.Prelude.{
  ==_iff, ℕ, ◌+◌, ◌-◌, ◌/◌, ◌≤◌, ◌<◌, ◌≡◌, arith, true, List, take, drop, length, ltb,
  if◌then◌else◌, ◌==◌, Bool-cases, inl, inr, refl, sym, ap, ◌∙◌, subst, if_true, if_false, ltb→lt,
  length-take,
}

-- Reading the file itself, from a place on.
abbrev pub get_from : List ℕ → ℕ → ℕ → Result (List ℕ)
get_from file place n =
    let slice = read file place n in if length slice == n then ok slice else err eof

-- `getValue` of the file itself.
abbrev pub value_from : List ℕ → ℕ → Result (List ℕ)
value_from file place =
    get_from file place 2 >>= λ header. get_from file place (byte_at header 1 + 2)

abbrev pub Holds {ℓ κ} : {A : Type ℓ} → (A → Type κ) → Result A → Type κ
Holds P (ok a) = P a
Holds P (err e) = Unit

module _ (file : List ℕ) (chunk_size : ℕ) where
  -- `get` once the bytes are in the buffer.
  abbrev from_buffer : ℕ → Reader → Result (List ℕ × Reader)
  from_buffer n r =
      let slice = take n (drop r.index r.buffer) in
      if length slice == n
      then ok (slice, record r { index = r.index + n })
      else err invalid_byte_length

  abbrev IsAt : ℕ → List ℕ × Reader → Type 0
  IsAt place (s, r) = IsAligned file chunk_size r × (source_index r ≡ place)

  abbrev pub Answers : ℕ → ℕ → Result (List ℕ × Reader) → Type 0
  Answers place n a = ((a >>= λ (s, r). ok s) ≡ get_from file place n) × Holds (IsAt (place + n)) a

  from_buffer-Answers :
      (n : ℕ) (r : Reader)
      → IsAligned file chunk_size r
      → r.index + n ≤ length r.buffer
      → Answers (source_index r) n (from_buffer n r)
  from_buffer-Answers n r a h =
      let full : (length (take n (drop r.index r.buffer)) == n) ≡ true =
        (==_iff _ n).1 (length-slice file chunk_size n r h) in
      let whole : (length (take n (drop (source_index r) file)) == n) ≡ true =
        subst (λ xs. (length xs == n) ≡ true) (slice_lem file chunk_size n r a h) full in
      subst (Answers (source_index r) n)
        (sym (if_true (length (take n (drop r.index r.buffer)) == n) _ _ full))
        (
          ap ok (slice_lem file chunk_size n r a h)
              ∙ sym (if_true (length (take n (drop (source_index r) file)) == n) _ _ whole),
          (record { part = a.part; within = h }, omega arith),
        )

  ends : (n place : ℕ) → length (drop place file) < n → get_from file place n ≡ err eof
  ends n place h =
      if_false (length (take n (drop place file)) == n) _ _
        (ground (arith, length-take n (drop place file)))

  -- In a reader whose buffer is a part of the file, get answers as reading the file at the cursor
  -- does: the bytes, or the end of the file; after, the buffer is a part of the file still and the
  -- cursor stands behind the bytes.
  pub get-Answers :
      1 ≤ chunk_size
      → (n : ℕ) (r : Reader) → IsAligned file chunk_size r
      → Answers (source_index r) n (get file chunk_size n r)
  unfolding get assert_bytes
  get-Answers c n r a = elim (Bool-cases (ltb (length r.buffer) (r.index + n))) [
    | inr fits ↦
        subst (λ q. Answers (source_index r) n (q >>= from_buffer n))
          (sym (if_false (ltb (length r.buffer) (r.index + n)) _ _ fits))
          (from_buffer-Answers n r a (ground arith))
    | inl short ↦
        let k : ℕ = (n + (chunk_size - 1)) / chunk_size in
        let r' = more file chunk_size k r in
        elim (Bool-cases (ltb (length r'.buffer) (r'.index + n))) [
          | inr fits ↦
              subst (λ q. Answers (source_index r) n (q >>= from_buffer n))
                (sym (
                  if_true (ltb (length r.buffer) (r.index + n)) _ _ short
                  ∙ if_false (ltb (length r'.buffer) (r'.index + n)) _ _ fits))
                (subst (λ place. Answers place n (from_buffer n r')) (omega arith)
                  (from_buffer-Answers n r' (more-IsAligned file chunk_size k r a) (ground arith)))
          | inl none_left ↦
              subst (λ q. Answers (source_index r) n (q >>= from_buffer n))
                (sym (
                  if_true (ltb (length r.buffer) (r.index + n)) _ _ short
                  ∙ if_true (ltb (length r'.buffer) (r'.index + n)) _ _ none_left))
                (
                  sym (
                      ends n (source_index r) (
                        few file chunk_size n k r a (chunks_enough n chunk_size c)
                          (ltb→lt _ _ none_left))),
                  tt,
                )
        ]
  ]

  abbrev IsAfter : ℕ → List ℕ × Reader → Type 0
  IsAfter place (s, r) = IsAligned file chunk_size r × (source_index r ≡ place + length s)

  abbrev pub AnswersAs : ℕ → Result (List ℕ) → Result (List ℕ × Reader) → Type 0
  AnswersAs place answer a = ((a >>= λ (s, r). ok s) ≡ answer) × Holds (IsAfter place) a

  got_length : (n place : ℕ) (s : List ℕ) → ok s ≡ get_from file place n → length s ≡ n
  got_length n place s e = elim (Bool-cases (length (take n (drop place file)) == n)) [
    | inl t ↦
        let same = e ∙ if_true (length (take n (drop place file)) == n) _ _ t in
        let s_is : s ≡ take n (drop place file) = cc in rw s_is ((==_iff _ n).0 t)
    | inr f ↦ let other = e ∙ if_false (length (take n (drop place file)) == n) _ _ f in cc
  ]

  Answers-AnswersAs :
      (n place : ℕ) (a : Result (List ℕ × Reader))
      → Answers place n a
      → AnswersAs place (get_from file place n) a
  Answers-AnswersAs n place (ok (s, r)) (e, (w, at)) =
      (e, (w, at ∙ ap (λ k. place + k) (sym (got_length n place s e))))
  Answers-AnswersAs n place (err x) (e, w) = (e, tt)

  pub get-AnswersAs :
      1 ≤ chunk_size
      → (n : ℕ) (r : Reader) → IsAligned file chunk_size r
      → AnswersAs (source_index r) (get_from file (source_index r) n) (get file chunk_size n r)
  get-AnswersAs c n r a =
      Answers-AnswersAs n (source_index r) (get file chunk_size n r) (get-Answers c n r a)

  buffer_cursor :
      (n : ℕ) (q : Result Reader) (s : List ℕ) (r' : Reader)
      → (q >>= from_buffer n) ≡ ok (s, r')
      → n ≤ r'.index
  buffer_cursor n (err x) s r' e = cc
  buffer_cursor n (ok r) s r' e = elim (Bool-cases (length (take n (drop r.index r.buffer)) == n)) [
    | inl t ↦
        let same = sym (if_true (length (take n (drop r.index r.buffer)) == n) _ _ t) ∙ e in
        let moved : record r { index = r.index + n } ≡ r' = cc in
        subst (λ (x : Reader). n ≤ x.index) moved (omega arith)
    | inr f ↦
        let other = sym (if_false (length (take n (drop r.index r.buffer)) == n) _ _ f) ∙ e in cc
  ]

  -- `getValue` once it has the header.
  after_header :
      1 ≤ chunk_size
      → (place : ℕ) (a : Result (List ℕ × Reader)) → Answers place 2 a
      → ((s : List ℕ) (r : Reader) → a ≡ ok (s, r) → 2 ≤ r.index)
      → AnswersAs place (value_from file place) (
          a >>= λ (header, r).
          get file chunk_size (byte_at header 1 + 2) (record r { index = r.index - 2 }))
  after_header c place (err x) (e, w) h = (rw (← e) refl, tt)
  after_header c place (ok (header, r)) (e, (w, at)) h =
      let two : 2 ≤ r.index = h header r refl in
      let back : Reader = record r { index = r.index - 2 } in
      let n : ℕ = byte_at header 1 + 2 in
      let same : source_index back ≡ place = omega arith in
      let (f, v) =
        subst (λ k. AnswersAs k (get_from file k n) (get file chunk_size n back)) same
          (get-AnswersAs c n back (record { part = w.part; within = omega (arith, w.within) })) in
      (rw (← e) f, v)

  -- The same of getValue, before the bytes are read as a key.
  pub get_value-AnswersAs :
      1 ≤ chunk_size
      → (r : Reader) → IsAligned file chunk_size r
      → AnswersAs (source_index r) (value_from file (source_index r)) (get_value file chunk_size r)
  unfolding get_value get
  get_value-AnswersAs c r a =
      after_header c (source_index r) (get file chunk_size 2 r) (get-Answers c 2 r a)
        (λ s r' e. buffer_cursor 2 (assert_bytes file chunk_size 2 r) s r' e)
