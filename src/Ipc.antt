-- ===== src/Ipc.antt =====
-- src/ipc/ipc.ts, AceBaseIPCPeer: the peers that share a database tell one another which events they
-- want to hear of; and src/storage/index.ts, Storage.subscriptions: who hears of an event. The
-- listeners that the peer's constructor adds to the storage are on_subscribe and on_unsubscribe. A
-- callback that a user gave is a number, the callback made for another peer is what it captures
-- with the number of its closure. Messages that are sent and callbacks that are called are outputs,
-- in order. Paths, events and peers are strings.
pub mod Synced
pub mod Dropped
pub mod Bye
pub mod Calls
pub mod Remote
pub mod Run
pub mod Delivery
pub mod Silence
mod Tests
use acebase.Prelude.{
  ℕ, suc, String, Bool, true, false, not, ◌&&◌, ◌||◌, Option, none, some, List, [], ◌∷◌, ◌++◌, map,
  if◌then◌else◌, keep, find, has, remove_first, ◌==◌,
}
use text.Mathlib.Text.{◌==◌ as str_eq}

-- An entry of `remoteSubscriptions`; `id` tells its callback from those of the others.
pub record RemoteSubscription : Type 0 where
  pub id : ℕ
  pub for_peer : String
  pub path : String
  pub event : String

pub data Callback : Type 0 where
  user : ℕ → Callback
  forward : RemoteSubscription → Callback

-- `===` on callbacks
abbrev pub same_callback : Callback → Callback → Bool
same_callback (user n) (user m) = n == m
same_callback (user n) (forward r) = false
same_callback (forward r) (user m) = false
same_callback (forward r) (forward s) = r.id == s.id

-- An entry of `ourSubscriptions`, or of `_eventSubscriptions[path]`, whose `type` is `event`.
pub record Subscription : Type 0 where
  pub path : String
  pub event : String
  pub callback : Callback

-- What a callback is called with. `origin` is `context.acebase_ipc.origin`.
pub record EventData (V : Type 0) : Type 0 where
  pub path : String
  pub val : V
  pub previous : V
  pub context : V
  pub origin : Option String

pub data Message (V : Type 0) : Type 0 where
  hello : String → Option String → Message V
  bye : String → Message V
  subscribe : String → Option String → String → String → Message V
  unsubscribe : String → String → String → Message V
  event_message : String → String → String → String → EventData V → Message V

pub data Output (V : Type 0) : Type 0 where
  sends : Message V → Output V
  calls : ℕ → EventData V → Output V

pub data Error : Type 0 where
  unknown_peer invalid_event : Error

-- `paths` are the keys of `_eventSubscriptions`, and `stored` its entries, in their order; `next` is
-- the number of the next closure.
pub record Peer : Type 0 where
  pub id : String
  pub exiting : Bool
  pub events_enabled : Bool
  pub ours : List Subscription
  pub remotes : List RemoteSubscription
  pub peers : List String
  pub paths : List String
  pub stored : List Subscription
  pub next : ℕ

-- What a method leaves: the peer, also where it throws, what it sent and called, and what it threw.
pub record Done (V : Type 0) : Type 0 where
  pub peer : Peer
  pub outputs : List (Output V)
  pub thrown : Option Error

abbrev pub done : {V : Type 0} → Peer → List (Output V) → Done V
done p outs = record { peer = p; outputs = outs; thrown = none }

-- `SUPPORTED_EVENTS`
abbrev pub supported_events : List String
supported_events =
    "value" ∷ "child_added" ∷ "child_changed" ∷ "child_removed" ∷ "mutated" ∷ "mutations"
    ∷ "notify_value" ∷ "notify_child_added" ∷ "notify_child_changed" ∷ "notify_child_removed"
    ∷ "notify_mutated" ∷ "notify_mutations" ∷ []

unfoldable pub is_supported : String → Bool
is_supported e = has (λ s. str_eq s e) supported_events

abbrev pub is_on : String → String → Subscription → Bool
is_on path event s = str_eq s.event event && str_eq s.path path

abbrev pub is_remote : String → String → String → RemoteSubscription → Bool
is_remote peer path event r = str_eq r.for_peer peer && (str_eq r.event event && str_eq r.path path)

-- `(type ? ps.type === type : true)`, for a type that is not the empty string, and the same for
-- callbacks.
abbrev pub matches_event : Option String → String → Bool
matches_event none e = true
matches_event (some t) e = str_eq e t

abbrev pub matches_callback : Option Callback → Callback → Bool
matches_callback none c = true
matches_callback (some d) c = same_callback c d

abbrev pub matches : String → Option String → Option Callback → Subscription → Bool
matches path event callback s =
    str_eq s.path path && (matches_event event s.event && matches_callback callback s.callback)

abbrev pub is_callback_of : Option Callback → RemoteSubscription → Bool
is_callback_of none r = false
is_callback_of (some c) r = same_callback (forward r) c

module _ {V : Type 0} where
  -- The listener for `subscribe`.
  pub on_subscribe : Peer → Subscription → Done V
  on_subscribe p s =
      if has (λ r. is_callback_of (some s.callback) r) p.remotes
      then done p []
      else done (record p { ours = p.ours ++ s ∷ [] })
          (if has (is_on s.path s.event) p.ours
            then []
            else sends (subscribe p.id none s.path s.event) ∷ [])

  -- The listener for `unsubscribe`.
  pub on_unsubscribe : Peer → String → Option String → Option Callback → Done V
  on_unsubscribe p path event callback =
      if has (is_callback_of callback) p.remotes
      then done (record p { remotes = remove_first (is_callback_of callback) p.remotes }) []
      else done (record p { ours = keep (λ s. not (matches path event callback s)) p.ours })
          (map (λ s. sends (unsubscribe p.id s.path s.event))
            (keep (matches path event callback) p.ours))

  -- `subscriptions.add`
  pub subscriptions_add : Peer → Subscription → Done V
  unfolding on_subscribe
  subscriptions_add p s =
      if is_supported s.event
      then on_subscribe
          (record p {
            paths = if has (λ q. str_eq q s.path) p.paths then p.paths else p.paths ++ s.path ∷ [];
            stored = p.stored ++ s ∷ [];
          })
          s
      else record { peer = p; outputs = []; thrown = some invalid_event }

  -- `subscriptions.remove`
  pub subscriptions_remove : Peer → String → Option String → Option Callback → Done V
  unfolding on_unsubscribe
  subscriptions_remove p path event callback =
      if has (λ q. str_eq q path) p.paths
      then on_unsubscribe
          (record p { stored = keep (λ s. not (matches path event callback s)) p.stored }) path
          event callback
      else done p []

  -- `addPeer`
  pub add_peer : Peer → String → Bool → Done V
  add_peer p id reply =
      if p.exiting
      then done p []
      else done
          (record p {
            peers = if has (λ q. str_eq q id) p.peers then p.peers else p.peers ++ id ∷ [];
          })
          (if reply
            then sends (hello p.id (some id))
              ∷ map (λ s. sends (subscribe p.id (some id) s.path s.event)) p.ours
            else [])

  -- The loop of `removePeer` over the subscriptions of the peer.
  pub remove_remotes : Peer → List RemoteSubscription → Done V
  unfolding subscriptions_remove
  remove_remotes p [] = done p []
  remove_remotes p (r ∷ rs) =
      let p1 = record p { remotes = remove_first (λ s. s.id == r.id) p.remotes } in
      let d = subscriptions_remove p1 r.path (some r.event) (some (forward r)) in
      let rest = remove_remotes d.peer rs in record rest { outputs = d.outputs ++ rest.outputs }

  -- `removePeer`
  pub remove_peer : Peer → String → Bool → Done V
  unfolding remove_remotes
  remove_peer p id ignore_unknown =
      if p.exiting
      then done p []
      else if has (λ q. str_eq q id) p.peers
      then remove_remotes (record p { peers = remove_first (λ q. str_eq q id) p.peers })
          (keep (λ r. str_eq r.for_peer id) p.remotes)
      else record {
        peer = p;
        outputs = [];
        thrown = if ignore_unknown then none else some unknown_peer;
      }

  -- `addRemoteSubscription`
  pub add_remote_subscription : Peer → String → String → String → Done V
  unfolding subscriptions_add
  add_remote_subscription p peer path event =
      if p.exiting
      then done p []
      else if has (is_remote peer path event) p.remotes
      then done p []
      else let r : RemoteSubscription = record {
        id = p.next;
        for_peer = peer;
        path = path;
        event = event;
      } in
        subscriptions_add (record p { remotes = p.remotes ++ r ∷ []; next = suc p.next })
          (record { path = path; event = event; callback = forward r })

  -- `cancelRemoteSubscription`, which compares the path of a subscription with the event.
  pub cancel_remote_subscription : Peer → String → String → String → Done V
  unfolding subscriptions_remove
  cancel_remote_subscription p peer path event =
      elim (find (is_remote peer event event) p.remotes) [
        | none ↦ done p []
        | some r ↦ subscriptions_remove p path (some event) (some (forward r))
      ]

  -- A call of a callback; that of another peer sends it the event.
  abbrev pub invoke : String → Callback → EventData V → Output V
  invoke id (user n) d = calls n d
  invoke id (forward r) d = sends (event_message id r.for_peer r.path r.event d)

  -- `subscriptions.trigger`
  pub trigger : Peer → String → String → EventData V → List (Output V)
  trigger p ev path d = map (λ s. invoke p.id s.callback d) (keep (is_on path ev) p.stored)

  -- `handleMessage` for the messages about peers, subscriptions and events.
  pub handle_message : Peer → Message V → Done V
  unfolding add_peer remove_peer add_remote_subscription cancel_remote_subscription
  handle_message p (hello from to) =
      add_peer p from (elim to [ none ↦ true | some id ↦ not (str_eq id p.id) ])
  handle_message p (bye from) = remove_peer p from true
  handle_message p (subscribe from to path ev) = add_remote_subscription p from path ev
  handle_message p (unsubscribe from path ev) = cancel_remote_subscription p from path ev
  handle_message p (event_message from to path ev d) =
      if p.events_enabled
      then done p (
          map (λ s. invoke p.id s.callback (record d { origin = some from }))
            (keep (is_on path ev) p.ours))
      else done p []
