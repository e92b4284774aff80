-- ===== src/Reader/Buffer.antt =====
-- src/btree/binary-reader.ts: what the buffer holds of the file.
use acebase.Reader.{source_index, load, more, Reader}
use acebase.Prelude.{
  ℕ, ◌+◌, ◌-◌, ◌*◌, ◌/◌, ◌≤◌, ◌<◌, ◌≡◌, arith, List, ◌++◌, take, drop, length, sym, ap, ◌∙◌, subst,
  take-take_le, drop-take, take-add, take-length_take, drop-drop, length-take, length-drop,
}

pub chunks_enough : (n c : ℕ) → 1 ≤ c → n ≤ (n + (c - 1)) / c * c
chunks_enough n c h = grind arith

module _ (file : List ℕ) (chunk_size : ℕ) where
  -- The buffer holds a part of the file, and the cursor stands in it or at its end.
  pub record IsAligned (r : Reader) : Type 0 where
    pub part : r.buffer ≡ take (length r.buffer) (drop r.offset file)
    pub within : r.index ≤ length r.buffer

  pub load-IsAligned : (place : ℕ) → IsAligned (load file chunk_size place)
  load-IsAligned place = record {
    part = take-length_take chunk_size (drop place file);
    within = omega arith;
  }

  -- What is left of the buffer is a part of the file from the cursor on.
  rest-part :
      (r : Reader)
      → IsAligned r
      → drop r.index r.buffer ≡ take (length r.buffer - r.index) (drop (source_index r) file)
  rest-part r a =
      ap (drop r.index) a.part
      ∙ drop-take r.index (length r.buffer) (drop r.offset file)
      ∙ ap (take (length r.buffer - r.index)) (drop-drop r.index r.offset file)

  more_buffer :
      (chunks : ℕ) (r : Reader)
      → IsAligned r
      → (more file chunk_size chunks r).buffer
        ≡ take ((length r.buffer - r.index) + chunks * chunk_size) (drop (source_index r) file)
  unfolding more
  more_buffer chunks r a =
      let left : ℕ = length r.buffer - r.index in
      let place : (r.offset + length r.buffer) ≡ source_index r + left = omega (arith, a.within) in
      ap (λ xs. xs ++ take (chunks * chunk_size) (drop (r.offset + length r.buffer) file))
        (rest-part r a)
      ∙ ap (λ k. take left (drop (source_index r) file) ++ take (chunks * chunk_size) (drop k file))
          place
      ∙ ap (λ xs. take left (drop (source_index r) file) ++ take (chunks * chunk_size) xs)
          (sym (drop-drop left (source_index r) file))
      ∙ take-add left (chunks * chunk_size) (drop (source_index r) file)

  pub more-IsAligned :
      (chunks : ℕ) (r : Reader) → IsAligned r → IsAligned (more file chunk_size chunks r)
  unfolding more
  more-IsAligned chunks r a =
      let n : ℕ = (length r.buffer - r.index) + chunks * chunk_size in
      let e = more_buffer chunks r a in
      record {
        part =
            subst (λ xs. xs ≡ take (length xs) (drop (source_index r) file)) (sym e)
              (take-length_take n (drop (source_index r) file));
        within = omega arith;
      }

  pub slice_lem :
      (n : ℕ) (r : Reader)
      → IsAligned r
      → r.index + n ≤ length r.buffer
      → take n (drop r.index r.buffer) ≡ take n (drop (source_index r) file)
  slice_lem n r a h =
      ap (take n) (rest-part r a)
      ∙ take-take_le n (length r.buffer - r.index) (drop (source_index r) file) (omega arith)

  pub length-slice :
      (n : ℕ) (r : Reader)
      → r.index + n ≤ length r.buffer
      → length (take n (drop r.index r.buffer)) ≡ n
  length-slice n r h =
      omega (arith, length-take n (drop r.index r.buffer), length-drop r.index r.buffer)

  pub few :
      (n k : ℕ) (r : Reader)
      → IsAligned r
      → n ≤ k * chunk_size
      → length (more file chunk_size k r).buffer < 0 + n
      → length (drop (source_index r) file) < n
  few n k r a e h = omega (
    arith,
    ap length (more_buffer k r a),
    length-take ((length r.buffer - r.index) + k * chunk_size) (drop (source_index r) file),
  )
