-- ===== src/Ipc/Run.antt =====
-- src/ipc/ipc.ts: what holds of a peer after any calls and messages.
use acebase.Ipc.Remote.{with_unsupported-IsSynced, with_remote-IsSynced, add_remote_supported}
use acebase.Ipc.Bye.{remove_peer-IsSynced, IsSynced-peers}
use acebase.Ipc.Calls.{
  exits, enables, remove_user-IsSynced, unsubscribes, add_user-IsSynced, subscribes, receives,
  new_peer, IsAllowed, step, run, Call,
}
use acebase.Ipc.Synced.{IsSynced}
use acebase.Ipc.{
  some, event_message, unsubscribe, subscribe, bye, hello, Message, add_peer, handle_message,
  cancel_remote_subscription, Done, done, is_supported, subscriptions_add, is_remote,
  RemoteSubscription, Peer, add_remote_subscription,
}
use acebase.Prelude.{
  if_both, if_true, if_false, ◌≡◌, arith, String, true, false, none, List, [], ◌∷◌, has, find, All,
  inl, inr, refl, sym, ◌∙◌, subst, Bool-cases,
}
use text.Mathlib.Text.{◌==◌ as str_eq}
use text.Mathlib.TextEquality.{eq_iff}

-- No listed subscription is to a path with the name of its event.
find-apart :
    (peer event : String) (rs : List RemoteSubscription)
    → All (λ r. str_eq r.path r.event ≡ false) rs
    → find (is_remote peer event event) rs ≡ none
find-apart peer event [] h = refl
find-apart peer event (r ∷ rs) h = ground (
  arith,
  find-apart peer event rs h.1,
  h.0,
  eq_iff r.event event,
  eq_iff r.path event,
  eq_iff r.path r.event,
)

module _ {V : Type 0} where
  -- A request to end a subscription changes nothing and sends nothing: cancelRemoteSubscription looks
  -- for a subscription whose path is the event. So the peer that asked still gets the events.
  pub cancel-ignored :
      (p : Peer) (peer path event : String)
      → IsSynced p
      → cancel_remote_subscription {V = V} p peer path event ≡ done p []
  unfolding cancel_remote_subscription
  cancel-ignored p peer path event v =
      rw (find-apart peer event p.remotes v.apart, cancel_remote_subscription) refl

module _ (V : Type 0) (p : Peer) (v : IsSynced p) where
  abbrev StaysSynced : Done V → Type 0
  StaysSynced d = IsSynced d.peer

  add_remote-IsSynced :
      (peer path event : String)
      → str_eq path event ≡ false
      → StaysSynced (add_remote_subscription p peer path event)
  unfolding add_remote_subscription subscriptions_add
  add_remote-IsSynced peer path event a = elim (Bool-cases p.exiting) [
    | inl x ↦ subst StaysSynced (sym (if_true p.exiting _ _ x)) v
    | inr x ↦ elim (Bool-cases (has (is_remote peer path event) p.remotes)) [
      | inl h ↦
          subst StaysSynced
            (sym (
              if_false p.exiting _ _ x ∙ if_true (has (is_remote peer path event) p.remotes) _ _ h))
            v
      | inr h ↦ elim (Bool-cases (is_supported event)) [
        | inl s ↦
            subst StaysSynced (sym (add_remote_supported p peer path event x h s))
              (with_remote-IsSynced p v peer path event h a s)
        | inr s ↦
            subst StaysSynced
              (sym (
                if_false p.exiting _ _ x
                ∙ if_false (has (is_remote peer path event) p.remotes) _ _ h
                ∙ if_false (is_supported event) _ _ s))
              (with_unsupported-IsSynced p v peer path event h a s)
      ]
    ]
  ]

  handle_message-IsSynced :
      (m : Message V) → IsAllowed (receives m) → StaysSynced (handle_message p m)
  unfolding handle_message add_peer
  handle_message-IsSynced (hello from to) a =
      if_both StaysSynced p.exiting _ _ v (IsSynced-peers p _ v)
  handle_message-IsSynced (bye from) a = remove_peer-IsSynced V p from true v
  handle_message-IsSynced (subscribe from to path ev) a = add_remote-IsSynced from path ev a
  handle_message-IsSynced (unsubscribe from path ev) a =
      subst StaysSynced (sym (cancel-ignored p from path ev v)) v
  handle_message-IsSynced (event_message from to path ev d) a =
      if_both StaysSynced p.events_enabled _ _ v v

  pub step-IsSynced : (c : Call V) → IsAllowed c → StaysSynced (step p c)
  unfolding step
  step-IsSynced (subscribes path event n) a = add_user-IsSynced p v V path event n
  step-IsSynced (unsubscribes path event none) a = elim a [ ]
  step-IsSynced (unsubscribes path event (some n)) a = remove_user-IsSynced p v V path event n
  step-IsSynced (receives m) a = handle_message-IsSynced m a
  step-IsSynced exits a = record {
    forwarded = v.forwarded;
    below = v.below;
    distinct = v.distinct;
    single = v.single;
    apart = v.apart;
    known = v.known;
    own = v.own;
  }
  step-IsSynced (enables b) a = record {
    forwarded = v.forwarded;
    below = v.below;
    distinct = v.distinct;
    single = v.single;
    apart = v.apart;
    known = v.known;
    own = v.own;
  }

run-IsSynced' :
    {V : Type 0} (cs : List (Call V)) (p : Peer)
    → IsSynced p
    → All IsAllowed cs
    → IsSynced (run p cs)
unfolding run
run-IsSynced' [] p v a = v
run-IsSynced' {V} (c ∷ cs) p v a = run-IsSynced' cs (step p c).peer (step-IsSynced V p v c a.0) a.1

-- After any calls and messages on a new peer, where callbacks are removed one by one (subscriptions.remove
-- is called with a callback, not without one) and no peer subscribes to a path with the name of the
-- event, the callbacks that the storage has for other peers are those of the listed remote
-- subscriptions to events it knows, in their order; no peer has two subscriptions to one event of one
-- path; own subscriptions have callbacks of users.
pub run-IsSynced :
    {V : Type 0} (id : String) (cs : List (Call V))
    → All IsAllowed cs
    → IsSynced (run (new_peer id) cs)
run-IsSynced id cs a =
    run-IsSynced' cs (new_peer id)
      (record {
        forwarded = refl;
        below = tt;
        distinct = tt;
        single = tt;
        apart = tt;
        known = tt;
        own = tt;
      })
      a
