-- ===== src/Tx/Rollback.antt =====
-- src/btree/tx.ts: what `execute` leaves behind.
use acebase.Prelude.{
  ◌≡◌, ◌⊎◌, inl, inr, refl, ap, sym, ◌∙◌, subst, List, [], ◌∷◌, ◌++◌, Option, none, some,
}
use mathlib.Core.List.{append_assoc, append-nil}
use acebase.Tx.{
  Settled, resolved, rejected, Called, settled, thrown, Undone, all_called, stopped, Step, Ending,
  returned, threw, rollback_threw, roll_back, first_error, execute_from, execute,
}

-- What `execute` throws once it has rolled back.
abbrev pub throws : {R E : Type 0} → E → Undone E → Ending R E
throws error (all_called later) = threw error later
throws error (stopped f) = rollback_threw f

throws-answer :
    {R E : Type 0} (e : E) (u : Undone E)
    → (elim u [ all_called error ↦ threw e error | stopped f ↦ rollback_threw f ])
      ≡ throws {R = R} e u
throws-answer e (all_called error) = refl
throws-answer e (stopped f) = refl

module _ {S : Type 0} {R : Type 0} {E : Type 0} where
  -- The rollbacks of some steps, called in their order: up to the first that throws, with its error; else
  -- all, with the error of the first that is rejected.
  pub data Undoes : List (Step S R E) → S → Undone E → S → Type 0 where
    ends : (s : S) → Undoes [] s (all_called none) s
    stops :
        (t : Step S R E) (ts : List (Step S R E)) (s s' : S) (e : E)
        → t.rollback s ≡ (thrown e, s')
        → Undoes (t ∷ ts) s (stopped e) s'
    resolves :
        (t : Step S R E) (ts : List (Step S R E)) (s s' s'' : S) (r : R) (u : Undone E)
        → t.rollback s ≡ (settled (resolved r), s')
        → Undoes ts s' u s''
        → Undoes (t ∷ ts) s u s''
    rejects :
        (t : Step S R E) (ts : List (Step S R E)) (s s' s'' : S) (e : E) (later : Option E)
        → t.rollback s ≡ (settled (rejected e), s')
        → Undoes ts s' (all_called later) s''
        → Undoes (t ∷ ts) s (all_called (some e)) s''
    rejects_and_stops :
        (t : Step S R E) (ts : List (Step S R E)) (s s' s'' : S) (e f : E)
        → t.rollback s ≡ (settled (rejected e), s')
        → Undoes ts s' (stopped f) s''
        → Undoes (t ∷ ts) s (stopped f) s''

  pub roll_back-Undoes :
      (ts : List (Step S R E)) (s : S) → Undoes ts s (roll_back ts s).0 (roll_back ts s).1
  unfolding roll_back
  roll_back-Undoes [] s = ends s
  roll_back-Undoes (t ∷ ts) s =
      by_call (t.rollback s).0 (t.rollback s).1 refl (roll_back ts (t.rollback s).1).0
        (roll_back ts (t.rollback s).1).1 (roll_back-Undoes ts (t.rollback s).1)
    where
      by_call :
          (c : Called R E) (s' : S)
          → t.rollback s ≡ (c, s')
          → (u : Undone E) (s'' : S) → Undoes ts s' u s''
          → let m : Undone E × S = elim c [
            | settled m ↦ (first_error m u, s'')
            | thrown e ↦ (stopped e, s')
          ] in
            Undoes (t ∷ ts) s m.0 m.1
      by_call (thrown e) s' q u s'' h = stops t ts s s' e q
      by_call (settled (resolved r)) s' q u s'' h = resolves t ts s s' s'' r u q h
      by_call (settled (rejected e)) s' q (all_called later) s'' h =
          rejects t ts s s' s'' e later q h
      by_call (settled (rejected e)) s' q (stopped f) s'' h =
          rejects_and_stops t ts s s' s'' e f q h

  -- Actions that succeed one after the other, each with the result of the one before.
  abbrev pub Ran : List (Step S R E) → Option R → S → Option R → S → Type 0
  Ran [] r s r' s' = (r ≡ r') × (s ≡ s')
  Ran (t ∷ ts) r s r' s' =
      (x : R) × (s1 : S) × (t.action r s ≡ (resolved x, s1)) × Ran ts (some x) s1 r' s'

  -- All actions succeeded, and nothing was rolled back.
  pub record Completed (r : Option R) (queue : List (Step S R E)) (s : S)
      (out : Ending R E × S × List (Step S R E)) : Type 0 where
    pub result : Option R
    pub state : S
    pub ran : Ran queue r s result state
    pub answer : out ≡ (returned result, state, [])

  -- An action failed: the steps before it and it, and no others, were rolled back in their order, and the
  -- steps behind it were not run.
  pub record RolledBack (before : List (Step S R E)) (r : Option R) (queue : List (Step S R E))
      (s : S) (out : Ending R E × S × List (Step S R E)) : Type 0 where
    pub succeeded : List (Step S R E)
    pub step : Step S R E
    pub rest : List (Step S R E)
    pub result : Option R
    pub state : S
    pub error : E
    pub failed_state : S
    pub undone : Undone E
    pub last_state : S
    pub parts : queue ≡ succeeded ++ step ∷ rest
    pub ran : Ran succeeded r s result state
    pub failed : step.action result state ≡ (rejected error, failed_state)
    pub undoes : Undoes ((before ++ succeeded) ++ step ∷ []) failed_state undone last_state
    pub answer : out ≡ (throws error undone, last_state, rest)

  Settled-cases :
      (m : Settled R E × S)
      → ((x : R) × (s : S) × (m ≡ (resolved x, s))) ⊎ ((e : E) × (s : S) × (m ≡ (rejected e, s)))
  Settled-cases (resolved x, s) = inl (x, s, refl)
  Settled-cases (rejected e, s) = inr (e, s, refl)

  -- The outcome behind a step that succeeded is the outcome from that step on.
  later_outcome :
      (before : List (Step S R E)) (r : Option R) (t : Step S R E) (ts : List (Step S R E))
      (s s' : S) (x : R) (out : Ending R E × S × List (Step S R E))
      → t.action r s ≡ (resolved x, s')
      → Completed (some x) ts s' out ⊎ RolledBack (before ++ t ∷ []) (some x) ts s' out
      → Completed r (t ∷ ts) s out ⊎ RolledBack before r (t ∷ ts) s out
  later_outcome before r t ts s s' x out q (inl c) =
      inl
        (record { result = c.result; state = c.state; ran = (x, s', q, c.ran); answer = c.answer })
  later_outcome before r t ts s s' x out q (inr b) = inr (record {
    succeeded = t ∷ b.succeeded;
    step = b.step;
    rest = b.rest;
    result = b.result;
    state = b.state;
    error = b.error;
    failed_state = b.failed_state;
    undone = b.undone;
    last_state = b.last_state;
    parts = ap (t ∷◌) b.parts;
    ran = (x, s', q, b.ran);
    failed = b.failed;
    undoes =
        subst (λ steps. Undoes (steps ++ b.step ∷ []) b.failed_state b.undone b.last_state)
          (append_assoc before (t ∷ []) b.succeeded) b.undoes;
    answer = b.answer;
  })

  execute_from-outcome :
      (before : List (Step S R E)) (r : Option R) (queue : List (Step S R E)) (s : S)
      → Completed r queue s (execute_from before r queue s)
        ⊎ RolledBack before r queue s (execute_from before r queue s)
  unfolding execute_from
  execute_from-outcome before r [] s =
      inl (record { result = r; state = s; ran = (refl, refl); answer = refl })
  execute_from-outcome before r (t ∷ ts) s = elim (Settled-cases (t.action r s)) [
    | inr (e, s', q) ↦
        let undone = roll_back (before ++ t ∷ []) s' in
        inr (record {
          succeeded = [];
          step = t;
          rest = ts;
          result = r;
          state = s;
          error = e;
          failed_state = s';
          undone = undone.0;
          last_state = undone.1;
          parts = refl;
          ran = (refl, refl);
          failed = q;
          undoes = rw (append-nil before) (roll_back-Undoes (before ++ t ∷ []) s');
          answer = rw q (
              ap
                (λ (m : Settled R E × S).
                  let (u, s'') = roll_back (before ++ t ∷ []) m.1 in
                  (
                    elim u [ all_called error ↦ threw e error | stopped f ↦ rollback_threw f ],
                    s'',
                    ts,
                  ))
                q
              ∙ ap (λ (x : Ending R E). (x, undone.1, ts)) (throws-answer e undone.0));
        })
    | inl (x, s', q) ↦
        subst (λ out. Completed r (t ∷ ts) s out ⊎ RolledBack before r (t ∷ ts) s out)
          (sym (rw q (ap (λ m. execute_from (before ++ t ∷ []) (some x) ts m.1) q)))
          (later_outcome before r t ts s s' x (execute_from (before ++ t ∷ []) (some x) ts s') q
            (execute_from-outcome (before ++ t ∷ []) (some x) ts s'))
  ]

  -- execute in sequence either runs all actions, each with the result of the one before, and returns the
  -- last result; or the steps before some step succeed and its action fails. Then the rollbacks of
  -- exactly these steps and of the one that failed are called in their order, up to one that throws,
  -- whose error is thrown; or all of them, and the error of the action is thrown, with that of the
  -- first rollback that was rejected. The steps behind are not run and stay in the queue.
  pub execute-outcome :
      (queue : List (Step S R E)) (s : S)
      → Completed none queue s (execute queue s) ⊎ RolledBack [] none queue s (execute queue s)
  unfolding execute
  execute-outcome queue s = execute_from-outcome [] none queue s
