-- ===== src/Ipc/Silence.antt =====
-- src/storage/index.ts and src/ipc/ipc.ts: callbacks that are removed all at once.
use acebase.Ipc.{
  done, Done, is_remote, EventData, add_remote_subscription, trigger, on_unsubscribe, matches,
  is_on, is_callback_of, Peer, RemoteSubscription, Subscription, subscriptions_remove,
}
use acebase.Prelude.{
  if_false, inr, if_true, inl, ◌≡◌, arith, String, true, false, not, none, some, List, [], ◌∷◌,
  keep, has, refl, ◌∙◌, Bool-cases,
}
use text.Mathlib.Text.{◌==◌ as str_eq}

no_callback : (rs : List RemoteSubscription) → has (is_callback_of none) rs ≡ false
no_callback [] = refl
no_callback (r ∷ rs) = no_callback rs

nothing_left :
    (path ev : String) (ss : List Subscription)
    → keep (is_on path ev) (keep (λ s. not (matches path (some ev) none s)) ss) ≡ []
nothing_left path ev [] = refl
nothing_left path ev (s ∷ ss) = ground (arith, nothing_left path ev ss)

-- The peer after all callbacks for an event of a path were removed.
abbrev pub without_callbacks : Peer → String → String → Peer
without_callbacks p path ev = record p {
  stored = keep (λ s. not (matches path (some ev) none s)) p.stored;
  ours = keep (λ s. not (matches path (some ev) none s)) p.ours;
}

module _ {V : Type 0} where
  -- Where callbacks are removed for an event of a path that has had some, with no callback given, no
  -- one is called or sent the event any more, though the subscriptions of other peers are still
  -- listed; and a request of such a peer to hear of the event again changes nothing.
  pub remove-silences :
      (p : Peer) (peer path ev : String) (d : EventData V)
      → has (λ q. str_eq q path) p.paths ≡ true
      → has (is_remote peer path ev) p.remotes ≡ true
      → (Done.peer (subscriptions_remove {V = V} p path (some ev) none)
          ≡ without_callbacks p path ev)
        × (trigger (without_callbacks p path ev) ev path d ≡ [])
        × ((without_callbacks p path ev).remotes ≡ p.remotes)
        × (add_remote_subscription {V = V} (without_callbacks p path ev) peer path ev
            ≡ done (without_callbacks p path ev) [])
  unfolding subscriptions_remove on_unsubscribe trigger add_remote_subscription
  remove-silences p peer path ev d k h = (
    rw (k, no_callback p.remotes) refl,
    rw (nothing_left path ev p.stored) refl,
    refl,
    elim (Bool-cases p.exiting) [
      | inl x ↦ if_true p.exiting _ _ x
      | inr x ↦ if_false p.exiting _ _ x ∙ if_true (has (is_remote peer path ev) p.remotes) _ _ h
    ],
  )
