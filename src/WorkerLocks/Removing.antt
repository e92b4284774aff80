-- ===== src/WorkerLocks/Removing.antt =====
-- src/ipc/ipc.ts: `removeLock` and `exit`.
use acebase.WorkerLocks.Apart.{AreApart, remove_first-keep}
use acebase.WorkerLocks.Pending.{IsListed, without_object}
use acebase.WorkerLocks.{exit, LockInfo, Worker, is_of, splice, remove_lock, end_exit, Done, done}
use acebase.Prelude.{
  if_both, if_false, subst, ℕ, ◌≡◌, Bool, true, false, not, ◌&&◌, List, [], ◌∷◌, ==_iff, has,
  has-In, if◌then◌else◌, Bool-cases, inl, inr, refl, sym, ap, ◌∙◌, if_true,
}

and_true : (b : Bool) → (b && true) ≡ b
and_true true = refl
and_true false = refl

and_false : (b : Bool) → (b && false) ≡ false
and_false true = refl
and_false false = refl

module _ {D : Type 0} where
  abbrev pub is_empty : List (LockInfo D) → Bool
  is_empty [] = true
  is_empty (l ∷ ls) = false

  -- `exit` waits as long as locks are listed, and has ended once there are none.
  abbrev pub Leaves : Worker D → Type 0
  Leaves w =
      (w.waits ≡ (w.exiting && not (is_empty w.locks)))
      × (w.exited ≡ (w.exiting && is_empty w.locks))

  pub splice-listed :
      (ref : ℕ) (ls : List (LockInfo D))
      → AreApart (λ (l : LockInfo D). l.ref) ls
      → IsListed ls ref
      → splice ref ls ≡ without_object ref ls
  splice-listed ref ls a (l, i, e) =
      if_true (has (is_of ref) ls) _ _ (has-In (is_of ref) l ls i ((==_iff l.ref ref).1 e))
      ∙ remove_first-keep (λ (x : LockInfo D). x.ref) ref ls a

  -- The rest of a worker, which `removeLock` leaves as it is, and its locks.
  pub remove_lock-rest :
      (ref : ℕ) (w : Worker D)
      → ((remove_lock ref w).worker.locks ≡ splice ref w.locks)
        × ((remove_lock ref w).worker.requests ≡ w.requests)
        × ((remove_lock ref w).worker.next ≡ w.next)
  unfolding remove_lock
  remove_lock-rest ref w = either (splice ref w.locks)
    where
      either :
          (ls : List (LockInfo D))
          → let d : Done D = elim ls [
            | [] ↦
                if w.waits
                then end_exit (record w { locks = [] })
                else done (record w { locks = [] }) []
            | l ∷ rest ↦ done (record w { locks = l ∷ rest }) []
          ] in
            (d.worker.locks ≡ ls) × (d.worker.requests ≡ w.requests) × (d.worker.next ≡ w.next)
      either [] = elim (Bool-cases w.waits) [
        | inl t ↦ rw t (refl, refl, refl)
        | inr f ↦ rw f (refl, refl, refl)
      ]
      either (l ∷ ls) = (refl, refl, refl)

  pub listed-full : (ref : ℕ) (ls : List (LockInfo D)) → IsListed ls ref → is_empty ls ≡ false
  listed-full ref [] (l, i, e) = elim i [ ]
  listed-full ref (x ∷ ls) l = refl

  -- While locks are listed, `exit` waits if it was called, and has not ended.
  pub Leaves-listed :
      (ref : ℕ) (w : Worker D)
      → IsListed w.locks ref
      → Leaves w
      → (w.waits ≡ w.exiting) × (w.exited ≡ false)
  Leaves-listed ref w l (a, b) =
      let full = listed-full ref w.locks l in
      (
        a ∙ ap (λ x. w.exiting && not x) full ∙ and_true w.exiting,
        b ∙ ap (λ x. w.exiting && x) full ∙ and_false w.exiting,
      )

  pub Leaves-full :
      (w : Worker D) → is_empty w.locks ≡ false → w.waits ≡ w.exiting → w.exited ≡ false → Leaves w
  Leaves-full w full a b = (
    a ∙ sym (ap (λ x. w.exiting && not x) full ∙ and_true w.exiting),
    b ∙ sym (ap (λ x. w.exiting && x) full ∙ and_false w.exiting),
  )

  pub remove_lock-Leaves :
      (ref : ℕ) (w : Worker D) → IsListed w.locks ref → Leaves w → Leaves (remove_lock ref w).worker
  unfolding remove_lock
  remove_lock-Leaves ref w l h =
      let (a, b) = Leaves-listed ref w l h in either (splice ref w.locks) a b
    where
      either :
          (ls : List (LockInfo D))
          → w.waits ≡ w.exiting
          → w.exited ≡ false
          → let d : Done D = elim ls [
            | [] ↦
                if w.waits
                then end_exit (record w { locks = [] })
                else done (record w { locks = [] }) []
            | l ∷ rest ↦ done (record w { locks = l ∷ rest }) []
          ] in
            Leaves d.worker
      either [] a b = elim (Bool-cases w.waits) [
        | inl t ↦ let e : w.exiting ≡ true = sym a ∙ t in rw t (rw e (refl, refl))
        | inr f ↦ let e : w.exiting ≡ false = sym a ∙ f in rw f (rw e (refl, b))
      ]
      either (x ∷ ls) a b = Leaves-full (record w { locks = x ∷ ls }) refl a b

  pub exit-Leaves : (w : Worker D) → Leaves w → Leaves (exit w).worker
  unfolding exit
  exit-Leaves w h =
      let asked = either w.locks refl in
      elim (Bool-cases w.exiting) [
        | inl t ↦ subst (λ (d : Done D). Leaves d.worker) (sym (if_true w.exiting _ _ t)) h
        | inr f ↦
            subst (λ (d : Done D). Leaves d.worker) (sym (if_false w.exiting _ _ f))
              (asked (h.1 ∙ ap (λ x. x && is_empty w.locks) f))
      ]
    where
      either :
          (ls : List (LockInfo D))
          → w.locks ≡ ls
          → w.exited ≡ false
          → let d : Done D = elim ls [
            | [] ↦ end_exit (record w { exiting = true })
            | l ∷ rest ↦ done (record w { exiting = true; waits = true }) []
          ] in
            Leaves d.worker
      either [] q e = (sym (ap (λ x. not (is_empty x)) q), sym (ap is_empty q))
      either (l ∷ ls) q e = (sym (ap (λ x. not (is_empty x)) q), e ∙ sym (ap is_empty q))

  pub exit-rest :
      (w : Worker D)
      → ((exit w).worker.locks ≡ w.locks)
        × ((exit w).worker.requests ≡ w.requests)
        × ((exit w).worker.next ≡ w.next)
  unfolding exit
  exit-rest w =
      if_both
        (λ (d : Done D).
          (d.worker.locks ≡ w.locks) × (d.worker.requests ≡ w.requests) × (d.worker.next ≡ w.next))
        w.exiting _ _ (refl, refl, refl) (either w.locks)
    where
      either :
          (ls : List (LockInfo D))
          → let d : Done D = elim ls [
            | [] ↦ end_exit (record w { exiting = true })
            | l ∷ rest ↦ done (record w { exiting = true; waits = true }) []
          ] in
            (d.worker.locks ≡ w.locks) × (d.worker.requests ≡ w.requests) × (d.worker.next ≡ w.next)
      either [] = (refl, refl, refl)
      either (l ∷ ls) = (refl, refl, refl)
