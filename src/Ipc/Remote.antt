-- ===== src/Ipc/Remote.antt =====
-- src/ipc/ipc.ts: subscriptions that other peers begin and end.

use acebase.Ipc.Calls.{has-with_path, known_still, with_path}
use acebase.Ipc.Synced.{is_forward, stored_for, AreSingle, IsSynced, AreDistinct}
use acebase.Ipc.{
  done, is_supported, on_subscribe, forward, subscriptions_add, is_remote, is_callback_of,
  RemoteSubscription, Peer, add_remote_subscription,
}
use acebase.Prelude.{
  keep-append, All-append, if_true, if_false, ==_refl, ℕ, suc, ◌<◌, ◌≡◌, ◌≢◌, arith, String, true,
  false, some, List, [], ◌∷◌, ◌++◌, map, keep, has, All, refl, sym, ap, ◌∙◌,
}
use mathlib.Core.List.{append-nil, map-append}
use text.Mathlib.Text.{◌==◌ as str_eq}
use text.Mathlib.TextEquality.{eq_iff}

below_suc :
    (n : ℕ) (rs : List RemoteSubscription) → All (λ r. r.id < n) rs → All (λ r. r.id < suc n) rs
below_suc n [] h = tt
below_suc n (r ∷ rs) h = (omega (arith, h.0), below_suc n rs h.1)

AreDistinct-append :
    (r : RemoteSubscription) (rs : List RemoteSubscription)
    → All (λ s. s.id < r.id) rs
    → AreDistinct rs
    → AreDistinct (rs ++ r ∷ [])
AreDistinct-append r [] h d = (tt, tt)
AreDistinct-append r (s ∷ rs) h d = (
  All-append (λ t. t.id ≢ s.id) rs (r ∷ []) d.0 (λ e. omega (arith, h.0), tt),
  AreDistinct-append r rs h.1 d.1,
)

is_remote_sym :
    (r s : RemoteSubscription)
    → is_remote s.for_peer s.path s.event r ≡ is_remote r.for_peer r.path r.event s
is_remote_sym r s = ground (
  arith,
  eq_iff r.for_peer s.for_peer,
  eq_iff s.for_peer r.for_peer,
  eq_iff r.path s.path,
  eq_iff s.path r.path,
  eq_iff r.event s.event,
  eq_iff s.event r.event,
)

AreSingle-append :
    (r : RemoteSubscription) (rs : List RemoteSubscription)
    → has (is_remote r.for_peer r.path r.event) rs ≡ false
    → AreSingle rs
    → AreSingle (rs ++ r ∷ [])
AreSingle-append r [] h d = (refl, tt)
AreSingle-append r (s ∷ rs) h d =
    (one_more rs d.0 (is_remote_sym r s ∙ ground arith), AreSingle-append r rs (ground arith) d.1)
  where
    one_more :
        (ss : List RemoteSubscription)
        → has (is_remote s.for_peer s.path s.event) ss ≡ false
        → is_remote s.for_peer s.path s.event r ≡ false
        → has (is_remote s.for_peer s.path s.event) (ss ++ r ∷ []) ≡ false
    one_more [] h n = rw n refl
    one_more (t ∷ ss) h n = ground (arith, one_more ss)

-- The listener finds the new callback among those of the others.
has_own_callback :
    (r : RemoteSubscription) (rs : List RemoteSubscription)
    → has (is_callback_of (some (forward r))) (rs ++ r ∷ []) ≡ true
has_own_callback r [] = rw (==_refl r.id) refl
has_own_callback r (s ∷ rs) = ground (arith, has_own_callback r rs)

-- A subscription that another peer asks for, and that it does not have.
abbrev pub new_remote : Peer → String → String → String → RemoteSubscription
new_remote p peer path event = record { id = p.next; for_peer = peer; path = path; event = event }

abbrev pub with_remote : Peer → String → String → String → Peer
with_remote p peer path event = record p {
  remotes = p.remotes ++ new_remote p peer path event ∷ [];
  next = suc p.next;
  paths = with_path path p.paths;
  stored = p.stored ++ stored_for (new_remote p peer path event) ∷ [];
}

abbrev pub with_unsupported : Peer → String → String → String → Peer
with_unsupported p peer path event = record p {
  remotes = p.remotes ++ new_remote p peer path event ∷ [];
  next = suc p.next;
}

module _ {V : Type 0} where
  pub add_remote_supported :
      (p : Peer) (peer path event : String)
      → p.exiting ≡ false
      → has (is_remote peer path event) p.remotes ≡ false
      → is_supported event ≡ true
      → add_remote_subscription {V = V} p peer path event ≡ done (with_remote p peer path event) []
  unfolding add_remote_subscription subscriptions_add on_subscribe
  add_remote_supported p peer path event x h s =
      if_false p.exiting _ _ x
      ∙ if_false (has (is_remote peer path event) p.remotes) _ _ h
      ∙ if_true (is_supported event) _ _ s
      ∙ if_true
          (has (is_callback_of (some (forward (new_remote p peer path event))))
            (p.remotes ++ new_remote p peer path event ∷ []))
          _ _ (has_own_callback (new_remote p peer path event) p.remotes)

module _ (p : Peer) (v : IsSynced p) (peer path event : String)
    (h : has (is_remote peer path event) p.remotes ≡ false) (a : str_eq path event ≡ false) where
  pub with_remote-IsSynced : is_supported event ≡ true → IsSynced (with_remote p peer path event)
  with_remote-IsSynced s =
      let r : RemoteSubscription = new_remote p peer path event in
      record {
        forwarded =
            keep-append is_forward p.stored (stored_for r ∷ [])
            ∙ ap (λ ss. ss ++ stored_for r ∷ []) v.forwarded
            ∙ sym (map-append stored_for (keep (λ r. is_supported r.event) p.remotes) (r ∷ []))
            ∙ ap (map stored_for)
                (sym (keep-append (λ r. is_supported r.event) p.remotes (r ∷ []) ∙ rw s refl));
        below =
            All-append _ p.remotes (r ∷ []) (below_suc p.next p.remotes v.below) (omega arith, tt);
        distinct = AreDistinct-append r p.remotes v.below v.distinct;
        single = AreSingle-append r p.remotes h v.single;
        apart = All-append _ p.remotes (r ∷ []) v.apart (a, tt);
        known =
            All-append _ p.stored (stored_for r ∷ []) (known_still path p.paths p.stored v.known)
              (has-with_path path p.paths, tt);
        own = v.own;
      }

  pub with_unsupported-IsSynced :
      is_supported event ≡ false → IsSynced (with_unsupported p peer path event)
  with_unsupported-IsSynced s =
      let r : RemoteSubscription = new_remote p peer path event in
      record {
        forwarded =
            v.forwarded
            ∙ ap (map stored_for) (
                sym (
                  keep-append (λ r. is_supported r.event) p.remotes (r ∷ [])
                  ∙ rw s (append-nil (keep (λ r. is_supported r.event) p.remotes))));
        below =
            All-append _ p.remotes (r ∷ []) (below_suc p.next p.remotes v.below) (omega arith, tt);
        distinct = AreDistinct-append r p.remotes v.below v.distinct;
        single = AreSingle-append r p.remotes h v.single;
        apart = All-append _ p.remotes (r ∷ []) v.apart (a, tt);
        known = v.known;
        own = v.own;
      }
