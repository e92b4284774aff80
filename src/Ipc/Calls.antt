-- ===== src/Ipc/Calls.antt =====
-- src/ipc/ipc.ts: sequences of calls and messages.
use acebase.Ipc.Synced.{is_forward, stored_for, IsSynced}
use acebase.Ipc.{
  Callback, sends, is_on, is_supported, on_unsubscribe, on_subscribe, matches, done, Done, user,
  handle_message, subscriptions_remove, subscribe, is_callback_of, Subscription, Message, Peer,
  subscriptions_add, RemoteSubscription,
}
use acebase.Prelude.{
  Never, if_false, if_true, All-keep, All-append, keep-append, keep-keep, if◌then◌else◌, ℕ, ◌≡◌,
  arith, String, Bool, true, false, not, Option, none, some, List, [], ◌∷◌, ◌++◌, map, keep, has,
  All, inl, inr, refl, ap, ◌∙◌, Bool-cases,
}
use mathlib.Core.List.{append-nil}
use text.Mathlib.Text.{◌==◌ as str_eq}
use text.Mathlib.TextPositions.{eq_refl}

-- What can happen to a peer: a user adds a callback, removes one, or all where none is given, a message comes in, the peer begins
-- to exit, or its events are switched on or off.
pub data Call (V : Type 0) : Type 0 where
  subscribes : String → String → ℕ → Call V
  unsubscribes : String → Option String → Option ℕ → Call V
  receives : Message V → Call V
  exits : Call V
  enables : Bool → Call V

-- No other peer subscribes to a path with the name of the event, and a callback is given where callbacks
-- are removed.
abbrev pub IsAllowed : {V : Type 0} → Call V → Type 0
IsAllowed (receives (subscribe from to path event)) = str_eq path event ≡ false
IsAllowed (unsubscribes path event none) = Never
IsAllowed c = Unit

abbrev pub user_callback : Option ℕ → Option Callback
user_callback none = none
user_callback (some n) = some (user n)

abbrev pub new_peer : String → Peer
new_peer id = record {
  id = id;
  exiting = false;
  events_enabled = true;
  ours = [];
  remotes = [];
  peers = [];
  paths = [];
  stored = [];
  next = 0;
}

module _ {V : Type 0} where
  unfoldable pub step : Peer → Call V → Done V
  unfolding subscriptions_add subscriptions_remove handle_message
  step p (subscribes path event n) =
      subscriptions_add p (record { path = path; event = event; callback = user n })
  step p (unsubscribes path event n) = subscriptions_remove p path event (user_callback n)
  step p (receives m) = handle_message p m
  step p exits = done (record p { exiting = true }) []
  step p (enables b) = done (record p { events_enabled = b }) []

  unfoldable pub run : Peer → List (Call V) → Peer
  unfolding step
  run p [] = p
  run p (c ∷ cs) = run (step p c).peer cs

no_user_callback :
    (n : ℕ) (rs : List RemoteSubscription) → has (is_callback_of (some (user n))) rs ≡ false
no_user_callback n [] = refl
no_user_callback n (r ∷ rs) = no_user_callback n rs

has-append : (p : String → Bool) (xs ys : List String) → has p xs ≡ true → has p (xs ++ ys) ≡ true
has-append p [] ys h = cc
has-append p (x ∷ xs) ys h = ground (arith, has-append p xs ys)

has-append_one : (x : String) (xs : List String) → has (λ q. str_eq q x) (xs ++ x ∷ []) ≡ true
has-append_one x [] = rw (eq_refl x) refl
has-append_one x (y ∷ xs) = ground (arith, has-append_one x xs)

abbrev pub with_path : String → List String → List String
with_path x xs = if has (λ q. str_eq q x) xs then xs else xs ++ x ∷ []

pub has-with_path : (x : String) (xs : List String) → has (λ q. str_eq q x) (with_path x xs) ≡ true
has-with_path x xs = ground (arith, has-append_one x xs)

pub known_still :
    (x : String) (xs : List String) (ss : List Subscription)
    → All (λ s. has (λ q. str_eq q s.path) xs ≡ true) ss
    → All (λ s. has (λ q. str_eq q s.path) (with_path x xs) ≡ true) ss
known_still x xs [] k = tt
known_still x xs (s ∷ ss) k =
    (ground (arith, has-append (λ q. str_eq q s.path) xs (x ∷ []) k.0), known_still x xs ss k.1)

module _ (p : Peer) (v : IsSynced p) where
  pub add_user-IsSynced :
      (V : Type 0) (path event : String) (n : ℕ)
      → IsSynced (Done.peer (step {V = V} p (subscribes path event n)))
  unfolding step subscriptions_add on_subscribe
  add_user-IsSynced V path event n = elim (Bool-cases (is_supported event)) [
    | inr e ↦ rw e v
    | inl e ↦
        rw (e, no_user_callback n p.remotes)
          let s : Subscription = record { path = path; event = event; callback = user n } in
            record {
              forwarded =
                  keep-append is_forward p.stored (s ∷ [])
                  ∙ append-nil (keep is_forward p.stored)
                  ∙ v.forwarded;
              below = v.below;
              distinct = v.distinct;
              single = v.single;
              apart = v.apart;
              known =
                  All-append _ p.stored (s ∷ []) (known_still path p.paths p.stored v.known)
                    (has-with_path path p.paths, tt);
              own = All-append _ p.ours (s ∷ []) v.own (refl, tt);
            }
  ]

  not_user :
      (path : String) (event : Option String) (n : ℕ) (rs : List RemoteSubscription)
      → keep (λ s. not (matches path event (some (user n)) s)) (map stored_for rs)
        ≡ map stored_for rs
  not_user path event n [] = refl
  not_user path event n (r ∷ rs) = ground (arith, not_user path event n rs)

  pub remove_user-IsSynced :
      (V : Type 0) (path : String) (event : Option String) (n : ℕ)
      → IsSynced (Done.peer (step {V = V} p (unsubscribes path event (some n))))
  unfolding step subscriptions_remove on_unsubscribe
  remove_user-IsSynced V path event n = elim (Bool-cases (has (λ q. str_eq q path) p.paths)) [
    | inr e ↦ rw e v
    | inl e ↦
        rw (e, no_user_callback n p.remotes)
          record {
            forwarded =
                keep-keep is_forward (λ s. not (matches path event (some (user n)) s)) p.stored
                ∙ ap (keep (λ s. not (matches path event (some (user n)) s))) v.forwarded
                ∙ not_user path event n (keep (λ r. is_supported r.event) p.remotes);
            below = v.below;
            distinct = v.distinct;
            single = v.single;
            apart = v.apart;
            known = All-keep _ (λ s. not (matches path event (some (user n)) s)) p.stored v.known;
            own = All-keep _ (λ s. not (matches path event (some (user n)) s)) p.ours v.own;
          }
  ]

abbrev pub with_user : Peer → String → String → ℕ → Peer
with_user p path event n =
    let s : Subscription = record { path = path; event = event; callback = user n } in
    record p {
      paths = with_path path p.paths;
      stored = p.stored ++ s ∷ [];
      ours = p.ours ++ s ∷ [];
    }

-- The first subscription of a peer to an event of a path is asked of all others.
pub subscribes_fresh :
    {V : Type 0} (p : Peer) (path event : String) (n : ℕ)
    → is_supported event ≡ true
    → has (is_on path event) p.ours ≡ false
    → step p (subscribes path event n)
      ≡ done {V = V} (with_user p path event n) (sends (subscribe p.id none path event) ∷ [])
unfolding step subscriptions_add on_subscribe
subscribes_fresh p path event n s f =
    if_true (is_supported event) _ _ s
    ∙ if_false (has (is_callback_of (some (user n))) p.remotes) _ _ (no_user_callback n p.remotes)
    ∙ ap (done (with_user p path event n)) (if_false (has (is_on path event) p.ours) _ _ f)
