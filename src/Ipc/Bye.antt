-- ===== src/Ipc/Bye.antt =====
-- src/ipc/ipc.ts: a peer that leaves.
use acebase.Ipc.Dropped.{is_stored_for, remove_remotes-cons, dropped-IsSynced, dropped}
use acebase.Ipc.Synced.{eq_of_id, AreDistinct-keep, AreDistinct, IsSynced}
use acebase.Ipc.{
  Callback, Subscription, user, forward, remove_peer, done, Done, remove_remotes, Peer,
  RemoteSubscription,
}
use acebase.Prelude.{
  if_true, if_false, if_both, has_none, ==_refl, has-In, In-keep, keep_same, All-intro,
  keep_everything, In-keep_intro, ◌≡◌, ◌≢◌, arith, String, Bool, true, false, not, ◌&&◌, List, [],
  ◌∷◌, ◌==◌, keep, has, remove_first, All, In, inl, inr, refl, sym, ap, ◌∙◌, subst, Bool-cases,
}
use text.Mathlib.Text.{◌==◌ as str_eq}

-- The callback of a user.
abbrev pub is_user : Subscription → Bool
is_user s = elim s.callback [ user n ↦ true | forward r ↦ false ]

keep-fuse {ℓ} :
    {A : Type ℓ} (p q : A → Bool) (xs : List A) → keep p (keep q xs) ≡ keep (λ x. q x && p x) xs
keep-fuse p q [] = refl
keep-fuse p q (x ∷ xs) = ground (arith, keep-fuse p q xs)

still_listed :
    (r : RemoteSubscription) (ss rs : List RemoteSubscription)
    → All (λ s. s.id ≢ r.id) ss
    → All (λ s. In s rs) ss
    → All (λ s. In s (keep (λ t. not (t.id == r.id)) rs)) ss
still_listed r [] rs d m = tt
still_listed r (s ∷ ss) rs d m = (
  In-keep_intro (λ t. not (t.id == r.id)) s rs m.0 (ground (arith, d.0)),
  still_listed r ss rs d.1 m.1,
)

other_id :
    (id : String) (rs : List RemoteSubscription) (r s : RemoteSubscription)
    → AreDistinct rs
    → In s rs
    → str_eq s.for_peer id ≡ false
    → In r (keep (λ r. str_eq r.for_peer id) rs)
    → (s.id == r.id) ≡ false
other_id id rs r s d m e n = elim (Bool-cases (s.id == r.id)) [
  | inr f ↦ f
  | inl t ↦
      let (i, theirs) = In-keep (λ r. str_eq r.for_peer id) r rs n in
      let same : s ≡ r = eq_of_id r s rs d i m (ground arith) in
      cc (subst (λ x. str_eq x.for_peer id ≡ false) same e)
]

-- Which subscriptions are those of one peer can be told by their ids.
ids_of_peer :
    (id : String) (rs : List RemoteSubscription) (s : RemoteSubscription)
    → AreDistinct rs
    → In s rs
    → not (has (λ r. s.id == r.id) (keep (λ r. str_eq r.for_peer id) rs))
      ≡ not (str_eq s.for_peer id)
ids_of_peer id rs s d m = elim (Bool-cases (str_eq s.for_peer id)) [
  | inl e ↦ rw e (
      ap not (
        has-In (λ r. s.id == r.id) s (keep (λ r. str_eq r.for_peer id) rs)
          (In-keep_intro (λ r. str_eq r.for_peer id) s rs m e) (==_refl s.id)))
  | inr e ↦ rw e (
      ap not (
        has_none (λ r. s.id == r.id) (keep (λ r. str_eq r.for_peer id) rs)
          (All-intro _ (keep (λ r. str_eq r.for_peer id) rs) (λ r n. other_id id rs r s d m e n))))
]

pub IsSynced-peers :
    (p : Peer) (ids : List String) → IsSynced p → IsSynced (record p { peers = ids })
IsSynced-peers p ids v = record {
  forwarded = v.forwarded;
  below = v.below;
  distinct = v.distinct;
  single = v.single;
  apart = v.apart;
  known = v.known;
  own = v.own;
}

user_kept :
    (r : RemoteSubscription) (ss : List Subscription)
    → keep is_user (keep (λ s. not (is_stored_for r s)) ss) ≡ keep is_user ss
user_kept r [] = refl
user_kept r (s ∷ ss) = with_callback s.path s.event s.callback (user_kept r ss)
  where
    with_callback :
        (path event : String) (c : Callback)
        → keep is_user (keep (λ s. not (is_stored_for r s)) ss) ≡ keep is_user ss
        → let s : Subscription = record { path = path; event = event; callback = c } in
          keep is_user (keep (λ s. not (is_stored_for r s)) (s ∷ ss)) ≡ keep is_user (s ∷ ss)
    with_callback path event (user n) ih = ground arith
    with_callback path event (forward q) ih = ground arith

-- Only what is remote has changed: the remote subscriptions, and of the callbacks in the storage none of
-- a user.
abbrev pub KeepsUsers : Peer → Peer → Type 0
KeepsUsers p q =
    (q ≡ record p { remotes = q.remotes; stored = q.stored })
    × (keep is_user q.stored ≡ keep is_user p.stored)

module _ {V : Type 0} where
  -- The peer without the subscriptions `rs`, which it had, and nothing else happens.
  abbrev Removes : Peer → List RemoteSubscription → Done V → Type 0
  Removes p rs d =
      IsSynced d.peer
      × (d.peer.remotes ≡ keep (λ s. not (has (λ r. s.id == r.id) rs)) p.remotes)
      × (d ≡ done d.peer [])
      × KeepsUsers p d.peer

  remove_remotes-Removes :
      (rs : List RemoteSubscription) (p : Peer)
      → IsSynced p
      → AreDistinct rs
      → All (λ s. In s p.remotes) rs
      → Removes p rs (remove_remotes p rs)
  unfolding remove_remotes
  remove_remotes-Removes [] p v d m = (
    v,
    sym (keep_everything (λ s. true) p.remotes (All-intro _ p.remotes (λ a i. refl))),
    refl,
    (refl, refl),
  )
  remove_remotes-Removes (r ∷ rs) p v d m =
      let (w, e, f, (g, u)) =
        remove_remotes-Removes rs (dropped p r) (dropped-IsSynced p r v m.0) d.1
          (still_listed r rs p.remotes d.0 m.1) in
      subst (Removes p (r ∷ rs)) (sym (remove_remotes-cons p r rs v)) (
        w,
        e
            ∙ keep-fuse (λ s. not (has (λ q. s.id == q.id) rs)) (λ s. not (s.id == r.id)) p.remotes
            ∙ keep_same _ _ p.remotes (All-intro _ p.remotes (λ s i. ground arith)),
        f,
        (g, u ∙ user_kept r p.stored),
      )

  -- `removePeer` for a peer that is known.
  remove_known : Peer → String → Done V
  remove_known p id =
      remove_remotes (record p { peers = remove_first (λ q. str_eq q id) p.peers })
        (keep (λ r. str_eq r.for_peer id) p.remotes)

  remove_known-Removes :
      (p : Peer) (id : String)
      → IsSynced p
      → Removes
          (record p { peers = remove_first (λ q. str_eq q id) p.peers })
          (keep (λ r. str_eq r.for_peer id) p.remotes)
          (remove_known p id)
  unfolding remove_known
  remove_known-Removes p id v =
      remove_remotes-Removes (keep (λ r. str_eq r.for_peer id) p.remotes)
        (record p { peers = remove_first (λ q. str_eq q id) p.peers })
        (IsSynced-peers p (remove_first (λ q. str_eq q id) p.peers) v)
        (AreDistinct-keep (λ r. str_eq r.for_peer id) p.remotes v.distinct)
        (All-intro _ (keep (λ r. str_eq r.for_peer id) p.remotes)
          (λ s i. (In-keep (λ r. str_eq r.for_peer id) s p.remotes i).0))

  -- When a known peer leaves a synced peer that is not exiting, nothing is sent, called or thrown. The peer
  -- is no longer listed, exactly its subscriptions end, the callbacks of users in the storage stay,
  -- the peer stays synced, and all else is as it was: own subscriptions, other peers, and paths.
  pub remove_peer-remotes :
      (p : Peer) (id : String) (ignore_unknown : Bool)
      → IsSynced p
      → p.exiting ≡ false
      → has (λ q. str_eq q id) p.peers ≡ true
      → (p' : Peer) × (remove_peer {V = V} p id ignore_unknown ≡ done p' [])
        × (p'.remotes ≡ keep (λ r. not (str_eq r.for_peer id)) p.remotes)
        × IsSynced p'
        × KeepsUsers (record p { peers = remove_first (λ q. str_eq q id) p.peers }) p'
  unfolding remove_peer remove_known
  remove_peer-remotes p id u v x k =
      let (w, e, f, g) = remove_known-Removes p id v in
      (
        (remove_known p id).peer,
        if_false p.exiting _ _ x ∙ if_true (has (λ q. str_eq q id) p.peers) _ _ k ∙ f,
        e
            ∙ keep_same _ _ p.remotes
                (All-intro _ p.remotes (λ s i. ids_of_peer id p.remotes s v.distinct i)),
        w,
        g,
      )

module _ (V : Type 0) where
  pub remove_peer-IsSynced :
      (p : Peer) (id : String) (ignore_unknown : Bool)
      → IsSynced p
      → IsSynced (Done.peer (remove_peer {V = V} p id ignore_unknown))
  unfolding remove_peer remove_known
  remove_peer-IsSynced p id u v =
      if_both (λ (d : Done V). IsSynced d.peer) p.exiting (done p []) _ v
        (if_both (λ (d : Done V). IsSynced d.peer) (has (λ q. str_eq q id) p.peers) _ _
          (remove_known-Removes {V = V} p id v).0 v)
