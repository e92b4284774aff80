-- ===== src/WorkerLocks/Pending.antt =====
-- src/ipc/ipc.ts: the listed locks and the requests that are pending.
use acebase.WorkerLocks.Apart.{
  AreApart, AreApart-keep, AreApart-append, AreApart-map, apart_injective, below-apart, below_next,
}
use acebase.WorkerLocks.{LockInfo, Waiting, for_lock, ref_of, is_of}
use acebase.Prelude.{
  ℕ, suc, ◌<◌, ◌≡◌, ◌≢◌, ◌⊎◌, arith, true, not, List, [], ◌∷◌, ◌++◌, ◌==◌, keep, map, Bool-cases,
  inl, inr, refl, sym, ap, ◌∙◌, subst, All, All-In, All-intro, In, In-keep, In-keep_intro, All-keep,
  All-append, In-append_left, In-append_right, In-map, In-map_intro,
}

abbrev pub Requests : Type 0
Requests = List (ℕ × Waiting)

-- The request for an object's lock is pending.
abbrev pub IsAsked : Requests → ℕ → Type 0
IsAsked rs ref = (r : ℕ × Waiting) × In r rs × (r.1 ≡ for_lock ref)

abbrev pub without_request : ℕ → Requests → Requests
without_request id rs = keep (λ q. not (q.0 == id)) rs

In-without_request :
    (r : ℕ × Waiting) (rs : Requests) (q : ℕ × Waiting)
    → AreApart (λ (r : ℕ × Waiting). r.0) rs
    → In r rs
    → In q rs
    → r ≢ q
    → In q (without_request r.0 rs)
In-without_request r rs q a m n d =
    In-keep_intro (λ x. not (x.0 == r.0)) q rs n
      (elim (Bool-cases (q.0 == r.0)) [
        | inl t ↦
            absurd (d (apart_injective (λ (x : ℕ × Waiting). x.0) r q rs a m n (ground arith)))
        | inr f ↦ rw f refl
      ])

-- What is asked for, but by the request that ends, is asked for still.
IsAsked-without_request :
    (r : ℕ × Waiting) (rs : Requests) (ref : ℕ)
    → AreApart (λ (r : ℕ × Waiting). r.0) rs
    → In r rs
    → r.1 ≢ for_lock ref
    → IsAsked rs ref
    → IsAsked (without_request r.0 rs) ref
IsAsked-without_request r rs ref a m n (q, i, e) =
    (q, In-without_request r rs q a m i (λ s. n (ap (λ x. x.1) s ∙ e)), e)

pub ref_of-for_lock : (r : ℕ × Waiting) (ref : ℕ) → r.1 ≡ for_lock ref → ref_of r ≡ ref
ref_of-for_lock r ref e = ap (λ w. ref_of (r.0, w)) e

-- Other requests are about other objects.
other_object :
    (r q : ℕ × Waiting) (rs : Requests)
    → AreApart ref_of rs
    → In r rs
    → In q (without_request r.0 rs)
    → ref_of q ≢ ref_of r
other_object r q rs a m n e =
    let (i, k) = In-keep (λ x. not (x.0 == r.0)) q rs n in
    let same = apart_injective ref_of q r rs a i m e in
    let id : q.0 ≡ r.0 = ap (λ x. x.0) same in ground arith

IsAsked-append :
    {A : Type 0} {ref : ℕ} (rs : Requests) (r : ℕ × Waiting)
    → A ⊎ IsAsked rs ref
    → A ⊎ IsAsked (rs ++ r ∷ []) ref
IsAsked-append rs r (inl g) = inl g
IsAsked-append rs r (inr (q, i, e)) = inr (q, In-append_left q rs (r ∷ []) i, e)

module _ {D : Type 0} where
  -- An object that is listed.
  abbrev pub IsListed : List (LockInfo D) → ℕ → Type 0
  IsListed ls ref = (l : LockInfo D) × In l ls × (l.ref ≡ ref)

  -- Objects differ, and so do requests, which are about different objects; all are below the counter.
  -- Each request is about a listed object, and the lock of each object was granted or is asked for.
  pub record AreSettled (ls : List (LockInfo D)) (rs : Requests) (next : ℕ) : Type 0 where
    pub objects : AreApart (λ (l : LockInfo D). l.ref) ls
    pub ids : AreApart (λ (r : ℕ × Waiting). r.0) rs
    pub about : AreApart ref_of rs
    pub objects_below : All (λ l. l.ref < next) ls
    pub ids_below : All (λ r. r.0 < next) rs
    pub listed : All (λ r. IsListed ls (ref_of r)) rs
    pub settled : All (λ l. (l.granted ≡ true) ⊎ IsAsked rs l.ref) ls

  abbrev pub without_object : ℕ → List (LockInfo D) → List (LockInfo D)
  without_object ref ls = keep (λ l. not (is_of ref l)) ls

  -- A request ends and its object is taken away.
  pub removed-AreSettled :
      (ls : List (LockInfo D)) (rs : Requests) (next : ℕ) (r : ℕ × Waiting)
      → AreSettled ls rs next
      → In r rs
      → AreSettled (without_object (ref_of r) ls) (without_request r.0 rs) next
  removed-AreSettled ls rs next r s m = record {
    objects = AreApart-keep _ _ ls s.objects;
    ids = AreApart-keep _ _ rs s.ids;
    about = AreApart-keep _ _ rs s.about;
    objects_below = All-keep _ _ ls s.objects_below;
    ids_below = All-keep _ _ rs s.ids_below;
    listed = All-intro _ (without_request r.0 rs) (λ q n.
        let (l, i, e) = All-In _ rs q s.listed (In-keep _ q rs n).0 in
        let d = other_object r q rs s.about m n in
        (l, In-keep_intro (λ x. not (is_of (ref_of r) x)) l ls i (ground (arith, d, e)), e));
    settled = All-intro _ (without_object (ref_of r) ls) (λ l n.
        let (i, k) = In-keep (λ x. not (is_of (ref_of r) x)) l ls n in
        elim (All-In _ ls l s.settled i) [
          | inl g ↦ inl g
          | inr a ↦ inr (
              IsAsked-without_request r rs l.ref s.ids m
                (λ e. let same = ref_of-for_lock r l.ref e in ground arith) a)
        ]);
  }

  -- A request ends and its object is changed, or another object than that whose lock was asked for.
  pub changed-AreSettled :
      (f : LockInfo D → LockInfo D) (ls : List (LockInfo D)) (rs : Requests) (next : ℕ)
      (r : ℕ × Waiting)
      → ((l : LockInfo D) → (f l).ref ≡ l.ref)
      → ((l : LockInfo D) → l.granted ≡ true → (f l).granted ≡ true)
      → ((l : LockInfo D) → r.1 ≡ for_lock l.ref → (f l).granted ≡ true)
      → AreSettled ls rs next
      → In r rs
      → AreSettled (map f ls) (without_request r.0 rs) next
  changed-AreSettled f ls rs next r same keeps grants s m = record {
    objects = AreApart-map _ f ls same s.objects;
    ids = AreApart-keep _ _ rs s.ids;
    about = AreApart-keep _ _ rs s.about;
    objects_below = All-intro _ (map f ls) (λ l n.
        let (x, i, e) = In-map f l ls n in
        let b = All-In _ ls x s.objects_below i in
        let ref : l.ref ≡ x.ref = ap (λ y. y.ref) e ∙ same x in omega arith);
    ids_below = All-keep _ _ rs s.ids_below;
    listed = All-intro _ (without_request r.0 rs) (λ q n.
        let (l, i, e) = All-In _ rs q s.listed (In-keep _ q rs n).0 in
        (f l, In-map_intro f l ls i, same l ∙ e));
    settled = All-intro _ (map f ls) (λ l n.
        let (x, i, e) = In-map f l ls n in
        elim (All-In _ ls x s.settled i) [
          | inl g ↦ inl (ap (λ y. y.granted) e ∙ keeps x g)
          | inr (q, j, k) ↦ elim (Bool-cases (q.0 == r.0)) [
            | inl t ↦
                let known =
                  apart_injective (λ (x : ℕ × Waiting). x.0) q r rs s.ids j m (ground arith) in
                inl (ap (λ y. y.granted) e ∙ grants x (ap (λ y. y.1) (sym known) ∙ k))
            | inr o ↦ inr (
              q,
              In-keep_intro (λ y. not (y.0 == r.0)) q rs j (rw o refl),
              k ∙ ap for_lock (sym (ap (λ y. y.ref) e ∙ same x)),
            )
          ]
        ]);
  }

  -- A request is added, about an object that no other request is about.
  pub requested-AreSettled :
      (ls : List (LockInfo D)) (rs : Requests) (next : ℕ) (w : Waiting)
      → IsListed ls (ref_of (next, w))
      → All (λ q. ref_of q ≢ ref_of (next, w)) rs
      → AreSettled ls rs next
      → AreSettled ls (rs ++ (next, w) ∷ []) (suc next)
  requested-AreSettled ls rs next w l o s = record {
    objects = s.objects;
    ids = AreApart-append _ (next, w) rs (below-apart _ next rs s.ids_below) s.ids;
    about = AreApart-append ref_of (next, w) rs o s.about;
    objects_below = below_next _ next ls s.objects_below;
    ids_below = All-append _ rs _ (below_next _ next rs s.ids_below) (omega arith, tt);
    listed = All-append _ rs _ s.listed (l, tt);
    settled = All-intro _ ls (λ x i. IsAsked-append rs (next, w) (All-In _ ls x s.settled i));
  }

  -- An object and the request for its lock are added.
  pub added-AreSettled :
      (ls : List (LockInfo D)) (rs : Requests) (next : ℕ) (l : LockInfo D)
      → l.ref ≡ next
      → AreSettled ls rs next
      → AreSettled (ls ++ l ∷ []) (rs ++ (next, for_lock next) ∷ []) (suc next)
  added-AreSettled ls rs next l e s =
      let new : ℕ × Waiting = (next, for_lock next) in
      record {
        objects =
            AreApart-append _ l ls
              (subst (λ n. All (λ x. x.ref ≢ n) ls) (sym e) (below-apart _ next ls s.objects_below))
              s.objects;
        ids = AreApart-append _ new rs (below-apart _ next rs s.ids_below) s.ids;
        about =
            AreApart-append ref_of new rs (below-apart ref_of next rs (about_below rs s.listed))
              s.about;
        objects_below =
            All-append _ ls _ (below_next _ next ls s.objects_below) (omega (arith, e), tt);
        ids_below = All-append _ rs _ (below_next _ next rs s.ids_below) (omega arith, tt);
        listed =
            All-append _ rs _
              (All-intro _ rs (λ r i.
                let (x, j, k) = All-In _ rs r s.listed i in (x, In-append_left x ls (l ∷ []) j, k)))
              ((l, In-append_right l ls (l ∷ []) (inl refl), e), tt);
        settled =
            All-append _ ls _
              (All-intro _ ls (λ x i. IsAsked-append rs new (All-In _ ls x s.settled i)))
              (inr (new, In-append_right new rs (new ∷ []) (inl refl), ap for_lock (sym e)), tt);
      }
    where
      about_below :
          (qs : Requests) → All (λ r. IsListed ls (ref_of r)) qs → All (λ r. ref_of r < next) qs
      about_below [] h = tt
      about_below (q ∷ qs) ((x, i, k), h) =
          let b = All-In _ ls x s.objects_below i in (omega arith, about_below qs h)
