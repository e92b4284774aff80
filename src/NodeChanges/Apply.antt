-- ===== src/NodeChanges/Apply.antt =====
-- src/node-changes.ts: what the old and the new value hold at a key, by the changes.
use acebase.Prelude.{
  arith, ◌≡◌, Bool, List, [], ◌∷◌, keep, find, if◌then◌else◌, Option, none, some, Bool-cases, inl,
  inr, refl, ap, ◌∙◌, subst,
}
use acebase.Order.{Order}
use acebase.Assoc.{
  same, get, set, delete_key, same-equal, get-set, get-set_other, get-delete_key,
  get-delete_key_other,
}
use acebase.NodeChanges.{
  Change, update, delete, insert, is_update, is_delete, is_insert, Fields, delete_all, set_all,
}

-- `f` of what is there, or else a value.
abbrev pub override {ℓ κ} : {A : Type ℓ} {B : Type κ} → Option A → (A → B) → B → B
override none f b = b
override (some a) f b = f a

module _ {K : Type 0} {V : Type 0} ⦃o : Order K⦄ where
  -- The first change of a key.
  abbrev pub changed : K → List (Change K V) → Option (Change K V)
  changed k cs = find (λ c. same c.key k) cs

  -- No key has two changes.
  abbrev pub AreSingle : List (Change K V) → Type 0
  AreSingle [] = Unit
  AreSingle (c ∷ cs) = (changed c.key cs ≡ none) × AreSingle cs

  -- What a key holds before and after a change of it.
  abbrev pub before : Change K V → Option (Option V)
  before c = elim c.change_type [ update ↦ some c.old | delete ↦ some c.old | insert ↦ none ]

  abbrev pub after : Change K V → Option (Option V)
  after c = elim c.change_type [ update ↦ some c.new | delete ↦ none | insert ↦ some c.new ]

  get-delete_all :
      (k : K) (cs : List (Change K V)) (fs : Fields K V)
      → get k (delete_all cs fs) ≡ override (changed k cs) (λ c. none) (get k fs)
  get-delete_all k [] fs = refl
  get-delete_all k (c ∷ cs) fs = elim (Bool-cases (same c.key k)) [
    | inl t ↦
        let gone : get k (delete_key c.key fs) ≡ none =
          subst (λ q. get q (delete_key c.key fs) ≡ none) (same-equal c.key k t)
            (get-delete_key c.key fs) in
        rw t (get-delete_all k cs (delete_key c.key fs) ∙ either (changed k cs) gone)
    | inr f ↦ rw f (
        get-delete_all k cs (delete_key c.key fs)
        ∙ ap (override (changed k cs) (λ c. none)) (get-delete_key_other k c.key fs f))
  ]
    where
      either :
          (d : Option (Change K V)) {x : Option (Option V)}
          → x ≡ none
          → override d (λ c. none) x ≡ none
      either none e = e
      either (some d) e = refl

  get-set_all :
      (value : Change K V → Option V) (k : K) (cs : List (Change K V)) (fs : Fields K V)
      → AreSingle cs
      → get k (set_all value cs fs) ≡ override (changed k cs) (λ c. some (value c)) (get k fs)
  get-set_all value k [] fs s = refl
  get-set_all value k (c ∷ cs) fs (one, s) = elim (Bool-cases (same c.key k)) [
    | inl t ↦
        let e = same-equal c.key k t in
        let once : changed k cs ≡ none = subst (λ q. changed q cs ≡ none) e one in
        let there : get k (set c.key (value c) fs) ≡ some (value c) =
          subst (λ q. get q (set c.key (value c) fs) ≡ some (value c)) e
            (get-set c.key (value c) fs) in
        rw t (get-set_all value k cs (set c.key (value c) fs) s ∙ rw once there)
    | inr f ↦ rw f (
        get-set_all value k cs (set c.key (value c) fs) s
        ∙ ap (override (changed k cs) (λ c. some (value c))) (get-set_other k c.key (value c) fs f))
  ]

  changed-keep :
      (q : Change K V → Bool) (k : K) (cs : List (Change K V))
      → AreSingle cs
      → changed k (keep q cs) ≡ override (changed k cs) (λ c. if q c then some c else none) none
  changed-keep q k [] s = refl
  changed-keep q k (c ∷ cs) (one, s) = elim (Bool-cases (same c.key k)) [
    | inl t ↦
        let once : changed k cs ≡ none =
          subst (λ x. changed x cs ≡ none) (same-equal c.key k t) one in
        elim (Bool-cases (q c)) [
          | inl y ↦ rw (t, y) (rw t refl)
          | inr n ↦ rw (t, n) (changed-keep q k cs s ∙ rw once refl)
        ]
    | inr f ↦ elim (Bool-cases (q c)) [
      | inl y ↦ rw (f, y) (rw f (changed-keep q k cs s))
      | inr n ↦ rw (f, n) (changed-keep q k cs s)
    ]
  ]

  AreSingle-keep :
      (q : Change K V → Bool) (cs : List (Change K V)) → AreSingle cs → AreSingle (keep q cs)
  AreSingle-keep q [] s = tt
  AreSingle-keep q (c ∷ cs) (one, s) = elim (Bool-cases (q c)) [
    | inl y ↦ rw y (changed-keep q c.key cs s ∙ rw one refl, AreSingle-keep q cs s)
    | inr n ↦ rw n (AreSingle-keep q cs s)
  ]

  -- What `newValue` makes of the old fields, and `oldValue` of the new ones.
  abbrev pub redo : List (Change K V) → Fields K V → Fields K V
  redo cs fs =
      set_all (λ c. c.new) (keep (λ c. is_insert c.change_type) cs)
        (set_all (λ c. c.new) (keep (λ c. is_update c.change_type) cs)
          (delete_all (keep (λ c. is_delete c.change_type) cs) fs))

  abbrev pub undo : List (Change K V) → Fields K V → Fields K V
  undo cs fs = delete_all (keep (λ c. is_insert c.change_type) cs) (
      set_all (λ c. c.old) (keep (λ c. is_update c.change_type) cs)
        (set_all (λ c. c.old) (keep (λ c. is_delete c.change_type) cs) fs))

  -- `f` of the change, if it is of a kind, or else a value.
  abbrev kept :
      (Change K V → Bool)
      → (Change K V → Option (Option V))
      → Option (Change K V)
      → Option (Option V)
      → Option (Option V)
  kept q f none x = x
  kept q f (some c) x = if q c then f c else x

  set_kept :
      (value : Change K V → Option V) (q : Change K V → Bool) (k : K) (cs : List (Change K V))
      (fs : Fields K V)
      → AreSingle cs
      → get k (set_all value (keep q cs) fs)
        ≡ kept q (λ c. some (value c)) (changed k cs) (get k fs)
  set_kept value q k cs fs s =
      get-set_all value k (keep q cs) fs (AreSingle-keep q cs s)
      ∙ ap (λ d. override d (λ c. some (value c)) (get k fs)) (changed-keep q k cs s)
      ∙ either (changed k cs)
    where
      either :
          (d : Option (Change K V))
          → override
              (override d (λ c. if q c then some c else none) none)
              (λ c. some (value c))
              (get k fs)
            ≡ kept q (λ c. some (value c)) d (get k fs)
      either none = refl
      either (some c) = ground arith

  delete_kept :
      (q : Change K V → Bool) (k : K) (cs : List (Change K V)) (fs : Fields K V)
      → AreSingle cs
      → get k (delete_all (keep q cs) fs) ≡ kept q (λ c. none) (changed k cs) (get k fs)
  delete_kept q k cs fs s =
      get-delete_all k (keep q cs) fs
      ∙ ap (λ d. override d (λ c. none) (get k fs)) (changed-keep q k cs s)
      ∙ either (changed k cs)
    where
      either :
          (d : Option (Change K V))
          → override (override d (λ c. if q c then some c else none) none) (λ c. none) (get k fs)
            ≡ kept q (λ c. none) d (get k fs)
      either none = refl
      either (some c) = ground arith

  pub get-redo :
      (k : K) (cs : List (Change K V)) (fs : Fields K V)
      → AreSingle cs
      → get k (redo cs fs) ≡ override (changed k cs) after (get k fs)
  get-redo k cs fs s =
      set_kept (λ c. c.new) (λ c. is_insert c.change_type) k cs _ s
      ∙ ap (kept (λ c. is_insert c.change_type) (λ c. some c.new) (changed k cs)) (
          set_kept (λ c. c.new) (λ c. is_update c.change_type) k cs _ s
          ∙ ap (kept (λ c. is_update c.change_type) (λ c. some c.new) (changed k cs))
              (delete_kept (λ c. is_delete c.change_type) k cs fs s))
      ∙ by_type (changed k cs) (get k fs)
    where
      by_type :
          (d : Option (Change K V)) (x : Option (Option V))
          → kept
              (λ c. is_insert c.change_type)
              (λ c. some c.new)
              d
              (kept
                (λ c. is_update c.change_type)
                (λ c. some c.new)
                d
                (kept (λ c. is_delete c.change_type) (λ c. none) d x))
            ≡ override d after x
      by_type none x = refl
      by_type (some c) x = ground arith

  pub get-undo :
      (k : K) (cs : List (Change K V)) (fs : Fields K V)
      → AreSingle cs
      → get k (undo cs fs) ≡ override (changed k cs) before (get k fs)
  get-undo k cs fs s =
      delete_kept (λ c. is_insert c.change_type) k cs _ s
      ∙ ap (kept (λ c. is_insert c.change_type) (λ c. none) (changed k cs)) (
          set_kept (λ c. c.old) (λ c. is_update c.change_type) k cs _ s
          ∙ ap (kept (λ c. is_update c.change_type) (λ c. some c.old) (changed k cs))
              (set_kept (λ c. c.old) (λ c. is_delete c.change_type) k cs fs s))
      ∙ by_type (changed k cs) (get k fs)
    where
      by_type :
          (d : Option (Change K V)) (x : Option (Option V))
          → kept
              (λ c. is_insert c.change_type)
              (λ c. none)
              d
              (kept
                (λ c. is_update c.change_type)
                (λ c. some c.old)
                d
                (kept (λ c. is_delete c.change_type) (λ c. some c.old) d x))
            ≡ override d before x
      by_type none x = refl
      by_type (some c) x = ground arith
