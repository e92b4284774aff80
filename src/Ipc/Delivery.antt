-- ===== src/Ipc/Delivery.antt =====
-- src/ipc/ipc.ts and src/storage/index.ts: which peers hear of an event.
use acebase.Ipc.Remote.{with_remote-IsSynced, with_remote, add_remote_supported, new_remote}
use acebase.Ipc.Calls.{subscribes_fresh, with_user, subscribes, receives, step}
use acebase.Ipc.Synced.{stored_for, IsSynced, is_forward}
use acebase.Ipc.{
  done, handle_message, is_remote, subscribe, add_remote_subscription, Message, Done, forward,
  Subscription, user, event_message, invoke, calls, sends, is_supported, is_on, Peer, Callback,
  EventData, RemoteSubscription, Output, trigger,
}
use acebase.Prelude.{
  In-append_right, if_true, if_false, has_some, In-keep, In-map_intro, In-keep_intro, keep-keep,
  All-intro, keep_same, keep-map, ℕ, ◌≡◌, arith, String, Bool, true, false, none, some, List, [],
  ◌∷◌, ◌++◌, map, keep, has, In, inl, inr, refl, sym, ap, ◌∙◌, subst, Bool-cases,
}
use mathlib.Core.List.{map-map}
use text.Mathlib.Text.{◌==◌ as str_eq}
use text.Mathlib.TextEquality.{eq_iff}
use text.Mathlib.TextPositions.{eq_refl}

abbrev pub is_send : {V : Type 0} → Output V → Bool
is_send (sends m) = true
is_send (calls n d) = false

abbrev pub is_about : String → String → RemoteSubscription → Bool
is_about path ev r = is_on path ev (stored_for r)

keep-supported :
    (path ev : String) (rs : List RemoteSubscription)
    → is_supported ev ≡ true
    → keep (is_about path ev) (keep (λ r. is_supported r.event) rs) ≡ keep (is_about path ev) rs
keep-supported path ev [] s = refl
keep-supported path ev (r ∷ rs) s = elim (Bool-cases (is_supported r.event)) [
  | inl e ↦ rw e (ground (arith, keep-supported path ev rs s))
  | inr e ↦ rw e (elim (Bool-cases (str_eq r.event ev)) [
    | inl t ↦
        let same : r.event ≡ ev = (eq_iff r.event ev).0 t in
        cc (subst (λ x. is_supported x ≡ false) same e)
    | inr f ↦ rw f (keep-supported path ev rs s)
  ])
]

module _ {V : Type 0} where
  send-forward :
      (id : String) (d : EventData V) (path ev : String) (c : Callback)
      → is_send (invoke id c d) ≡ is_forward (record { path = path; event = ev; callback = c })
  send-forward id d path ev (user n) = refl
  send-forward id d path ev (forward r) = refl

  -- On a synced peer, an event that the storage knows is sent for exactly the listed remote subscriptions
  -- to that event of that path, once for each, in their order, and no other message is sent.
  pub trigger-remotes :
      (p : Peer) (path ev : String) (d : EventData V)
      → IsSynced p
      → is_supported ev ≡ true
      → keep is_send (trigger p ev path d)
        ≡ map
            (λ r. sends (event_message p.id r.for_peer r.path r.event d))
            (keep (is_about path ev) p.remotes)
  unfolding trigger
  trigger-remotes p path ev d v s =
      let send : Subscription → Output V = λ t. invoke p.id t.callback d in
      keep-map is_send send (keep (is_on path ev) p.stored)
      ∙ ap (map send) (
          keep_same (λ t. is_send (send t)) is_forward (keep (is_on path ev) p.stored)
            (All-intro _ (keep (is_on path ev) p.stored)
              (λ t i. send-forward p.id d t.path t.event t.callback))
          ∙ keep-keep is_forward (is_on path ev) p.stored
          ∙ ap (keep (is_on path ev)) v.forwarded
          ∙ keep-map (is_on path ev) stored_for (keep (λ r. is_supported r.event) p.remotes)
          ∙ ap (map stored_for) (keep-supported path ev p.remotes s))
      ∙ map-map send stored_for (keep (is_about path ev) p.remotes)

  -- Who is listed for an event that the storage knows is sent it.
  served :
      (p : Peer) (r : RemoteSubscription) (d : EventData V)
      → IsSynced p
      → In r p.remotes
      → is_supported r.event ≡ true
      → In (sends (event_message p.id r.for_peer r.path r.event d)) (trigger p r.event r.path d)
  unfolding trigger
  served p r d v m s =
      let listed = In-keep_intro (λ q. is_supported q.event) r p.remotes m s in
      let mapped = In-map_intro stored_for r (keep (λ q. is_supported q.event) p.remotes) listed in
      let stored =
        (In-keep is_forward (stored_for r) p.stored
          (subst (In (stored_for r)) (sym v.forwarded) mapped)).0 in
      let on : is_on r.path r.event (stored_for r) ≡ true =
        rw (eq_refl r.event, eq_refl r.path) refl in
      In-map_intro (λ t. invoke p.id t.callback d) (stored_for r)
        (keep (is_on r.path r.event) p.stored)
        (In-keep_intro (is_on r.path r.event) (stored_for r) p.stored stored on)

  served_as :
      (p : Peer) (r : RemoteSubscription) (peer path ev : String) (d : EventData V)
      → IsSynced p
      → In r p.remotes
      → is_remote peer path ev r ≡ true
      → is_supported ev ≡ true
      → In (sends (event_message p.id peer path ev d)) (trigger p ev path d)
  served_as p r peer path ev d v m t s =
      let same : r ≡ record { id = r.id; for_peer = peer; path = path; event = ev } =
        ground (arith, eq_iff r.for_peer peer, eq_iff r.event ev, eq_iff r.path path) in
      served p (record { id = r.id; for_peer = peer; path = path; event = ev }) d v
        (subst (λ q. In q p.remotes) same m) s

  -- A peer that another one asks for an event sends it the event.
  asked_serves :
      (b : Peer) (peer path ev : String) (d : EventData V)
      → IsSynced b
      → b.exiting ≡ false
      → is_supported ev ≡ true
      → str_eq path ev ≡ false
      → In
          (sends (event_message b.id peer path ev d))
          (trigger (Done.peer (add_remote_subscription {V = V} b peer path ev)) ev path d)
  unfolding add_remote_subscription
  asked_serves b peer path ev d v x s apart =
      elim (Bool-cases (has (is_remote peer path ev) b.remotes)) [
        | inl h ↦
            let (r, m, t) = has_some (is_remote peer path ev) b.remotes h in
            subst
              (λ (q : Done V).
                In (sends (event_message b.id peer path ev d)) (trigger q.peer ev path d))
              (sym
                (if_false b.exiting _ _ x ∙ if_true (has (is_remote peer path ev) b.remotes) _ _ h))
              (served_as b r peer path ev d v m t s)
        | inr h ↦
            let r : RemoteSubscription = new_remote b peer path ev in
            subst
              (λ (q : Done V).
                In (sends (event_message b.id peer path ev d)) (trigger q.peer ev path d))
              (sym (add_remote_supported b peer path ev x h s))
              (served (with_remote b peer path ev) r d
                (with_remote-IsSynced b v peer path ev h apart s)
                (In-append_right r b.remotes (r ∷ []) (inl refl)) s)
      ]

module _ {V : Type 0} (a b : Peer) (path ev : String) (n : ℕ) (d : EventData V) where
  -- The message by which a peer asks for an event, and the one by which another peer sends it.
  abbrev pub subscribe_request : Message V
  subscribe_request = subscribe a.id none path ev

  abbrev pub event_sent : Message V
  event_sent = event_message b.id a.id path ev d

  abbrev pub asked : Done V
  asked = step a (subscribes path ev n)

  abbrev pub served_peer : Peer
  served_peer = (step {V = V} b (receives subscribe_request)).peer

  -- Where a peer that has no own subscription to an event of a path yet, and whose events are enabled,
  -- subscribes to it, the storage knows the event, and the path is not the name of the event: the
  -- peer sends a request; a synced peer that is not exiting and gets the request sends the event when
  -- it is triggered; and the first peer, when it gets this message, calls the callback with the data
  -- and the sender as origin.
  pub event_delivered :
      IsSynced b
      → b.exiting ≡ false
      → a.events_enabled ≡ true
      → is_supported ev ≡ true
      → str_eq path ev ≡ false
      → has (is_on path ev) a.ours ≡ false
      → In (sends subscribe_request) asked.outputs
        × In (sends event_sent) (trigger served_peer ev path d)
        × In
            (calls n (record d { origin = some b.id }))
            (step asked.peer (receives event_sent)).outputs
  unfolding step handle_message
  event_delivered vb x e s apart fresh =
      let mine : Subscription = record { path = path; event = ev; callback = user n } in
      let run : asked ≡ done (with_user a path ev n) (sends subscribe_request ∷ []) =
        subscribes_fresh a path ev n s fresh in
      let on : is_on path ev mine ≡ true = rw (eq_refl ev, eq_refl path) refl in
      (
        subst (λ (q : Done V). In (sends subscribe_request) q.outputs) (sym run) (inl refl),
        asked_serves b a.id path ev d vb x s apart,
        subst
            (λ (q : Done V).
              In (calls n (record d { origin = some b.id }))
                (step q.peer (receives event_sent)).outputs)
            (sym run)
            (subst (λ (q : Done V). In (calls n (record d { origin = some b.id })) q.outputs)
              (sym (if_true a.events_enabled _ _ e))
              (In-map_intro (λ t. invoke a.id t.callback (record d { origin = some b.id })) mine
                (keep (is_on path ev) (a.ours ++ mine ∷ []))
                (In-keep_intro (is_on path ev) mine (a.ours ++ mine ∷ [])
                  (In-append_right mine a.ours (mine ∷ []) (inl refl)) on))),
      )
