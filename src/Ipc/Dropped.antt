-- ===== src/Ipc/Dropped.antt =====
-- src/ipc/ipc.ts and src/storage/index.ts: the end of a remote subscription.
use acebase.Ipc.Synced.{
  remove_first-keep, AreSingle-keep, eq_of_id, AreDistinct-keep, stored_for, is_forward, IsSynced,
}
use acebase.Ipc.{
  remove_remotes, is_supported, user, done, Callback, forward, matches, on_unsubscribe,
  Subscription, Peer, RemoteSubscription, subscriptions_remove,
}
use acebase.Prelude.{
  ◌<◌, All-keep, All-intro, keep_same, keep_everything, keep_none, keep-map, keep-keep, inr, inl,
  Bool-cases, ℕ, ◌≡◌, arith, String, Bool, true, false, not, some, List, [], ◌∷◌, ◌==◌, map, keep,
  has, All, In, refl, sym, ap, ◌∙◌, subst,
}
use text.Mathlib.Text.{◌==◌ as str_eq}
use text.Mathlib.TextEquality.{eq_iff}
use text.Mathlib.TextPositions.{eq_refl}

abbrev pub is_stored_for : RemoteSubscription → Subscription → Bool
is_stored_for r s = matches r.path (some r.event) (some (forward r)) s

-- The peer without a remote subscription.
abbrev pub dropped : Peer → RemoteSubscription → Peer
dropped p r = record p {
  remotes = keep (λ s. not (s.id == r.id)) p.remotes;
  stored = keep (λ s. not (is_stored_for r s)) p.stored;
}

module _ (p : Peer) (r : RemoteSubscription) (v : IsSynced p) (m : In r p.remotes) where
  same_drop :
      (s : RemoteSubscription)
      → In s p.remotes
      → not (is_stored_for r (stored_for s)) ≡ not (s.id == r.id)
  same_drop s n = elim (Bool-cases (s.id == r.id)) [
    | inl e ↦
        let same : s ≡ r = eq_of_id r s p.remotes v.distinct m n (ground arith) in
        rw same (rw (eq_refl r.path, eq_refl r.event) refl)
    | inr e ↦ rw e (ground arith)
  ]

  pub dropped-IsSynced : IsSynced (dropped p r)
  dropped-IsSynced = record {
    forwarded =
        keep-keep is_forward (λ s. not (is_stored_for r s)) p.stored
        ∙ ap (keep (λ s. not (is_stored_for r s))) v.forwarded
        ∙ keep-map (λ s. not (is_stored_for r s)) stored_for
            (keep (λ s. is_supported s.event) p.remotes)
        ∙ ap (map stored_for) (
            keep-keep (λ s. not (is_stored_for r (stored_for s))) (λ s. is_supported s.event)
              p.remotes
            ∙ ap (keep (λ s. is_supported s.event)) (
                keep_same (λ s. not (is_stored_for r (stored_for s))) (λ s. not (s.id == r.id))
                  p.remotes (All-intro _ p.remotes same_drop)));
    below = All-keep (λ s. s.id < p.next) (λ s. not (s.id == r.id)) p.remotes v.below;
    distinct = AreDistinct-keep (λ s. not (s.id == r.id)) p.remotes v.distinct;
    single = AreSingle-keep (λ s. not (s.id == r.id)) p.remotes v.single;
    apart =
        All-keep (λ s. str_eq s.path s.event ≡ false) (λ s. not (s.id == r.id)) p.remotes v.apart;
    known =
        All-keep (λ s. has (λ q. str_eq q s.path) p.paths ≡ true) (λ s. not (is_stored_for r s))
          p.stored v.known;
    own = v.own;
  }

-- No own subscription has the callback of another peer.
own-not-stored_for :
    (r : RemoteSubscription) (ss : List Subscription)
    → All (λ s. is_forward s ≡ false) ss
    → All (λ s. is_stored_for r s ≡ false) ss
own-not-stored_for r [] h = tt
own-not-stored_for r (s ∷ ss) h =
    (not_stored s.path s.event s.callback h.0, own-not-stored_for r ss h.1)
  where
    not_stored :
        (path event : String) (c : Callback)
        → is_forward (record { path = path; event = event; callback = c }) ≡ false
        → is_stored_for r (record { path = path; event = event; callback = c }) ≡ false
    not_stored path event (user n) h = ground arith
    not_stored path event (forward s) h = cc

others_kept :
    (q : Subscription → Bool) (ss : List Subscription)
    → All (λ s. q s ≡ false) ss
    → All (λ s. not (q s) ≡ true) ss
others_kept q [] h = tt
others_kept q (s ∷ ss) h = (ap not h.0, others_kept q ss h.1)

unknown-not-stored_for :
    (r : RemoteSubscription) (paths : List String) (ss : List Subscription)
    → has (λ q. str_eq q r.path) paths ≡ false
    → All (λ s. has (λ q. str_eq q s.path) paths ≡ true) ss
    → All (λ s. not (is_stored_for r s) ≡ true) ss
unknown-not-stored_for r paths [] h k = tt
unknown-not-stored_for r paths (s ∷ ss) h k = (
  elim (Bool-cases (str_eq s.path r.path)) [
    | inl e ↦
        let same : s.path ≡ r.path = (eq_iff s.path r.path).0 e in
        cc (sym (subst (λ x. has (λ q. str_eq q x) paths ≡ true) same k.0) ∙ h)
    | inr e ↦ rw e refl
  ],
  unknown-not-stored_for r paths ss h k.1,
)

has_no_id :
    (id : ℕ) (rs : List RemoteSubscription)
    → has (λ s. s.id == id) (keep (λ s. not (s.id == id)) rs) ≡ false
has_no_id id [] = refl
has_no_id id (r ∷ rs) = ground (arith, has_no_id id rs)

module _ {V : Type 0} where
  -- The storage lets go of the callback of a remote subscription that is no longer listed.
  pub subscriptions_remove-forward :
      (p : Peer) (r : RemoteSubscription)
      → has (λ s. s.id == r.id) p.remotes ≡ false
      → All (λ s. has (λ q. str_eq q s.path) p.paths ≡ true) p.stored
      → All (λ s. is_forward s ≡ false) p.ours
      → subscriptions_remove {V = V} p r.path (some r.event) (some (forward r))
        ≡ done (record p { stored = keep (λ s. not (is_stored_for r s)) p.stored }) []
  unfolding subscriptions_remove on_unsubscribe
  subscriptions_remove-forward p r g k o = elim (Bool-cases (has (λ q. str_eq q r.path) p.paths)) [
    | inl e ↦
        rw (e, g)
          (rw (keep_none (is_stored_for r) p.ours (own-not-stored_for r p.ours o)) (
            rw
              (keep_everything (λ s. not (is_stored_for r s)) p.ours
                (others_kept (is_stored_for r) p.ours (own-not-stored_for r p.ours o)))
              refl))
    | inr e ↦ rw e (
        rw
          (keep_everything (λ s. not (is_stored_for r s)) p.stored
            (unknown-not-stored_for r p.paths p.stored e k))
          refl)
  ]

  -- One round of the loop of `removePeer`.
  pub remove_remotes-cons :
      (p : Peer) (r : RemoteSubscription) (rs : List RemoteSubscription)
      → IsSynced p
      → remove_remotes {V = V} p (r ∷ rs) ≡ remove_remotes (dropped p r) rs
  unfolding remove_remotes
  remove_remotes-cons p r rs v =
      let p1 : Peer = record p { remotes = keep (λ s. not (s.id == r.id)) p.remotes } in
      rw (remove_first-keep r.id p.remotes v.distinct)
        (rw (subscriptions_remove-forward p1 r (has_no_id r.id p.remotes) v.known v.own) refl)
