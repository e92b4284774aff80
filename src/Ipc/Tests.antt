-- ===== src/Ipc/Tests.antt =====
-- src/ipc/ipc.ts: peers named "a" and "b", and the theorems on them.
use acebase.Ipc.Bye.{KeepsUsers, remove_peer-remotes}
use acebase.Ipc.Run.{cancel-ignored, run-IsSynced}
use acebase.Ipc.Silence.{remove-silences, without_callbacks}
use acebase.Ipc.Delivery.{
  event_delivered, trigger-remotes, served_peer, is_about, event_sent, asked, is_send,
  subscribe_request,
}
use acebase.Ipc.Synced.{IsSynced}
use acebase.Ipc.{
  remove_first, calls, event_message, add_remote_subscription, trigger, subscriptions_remove,
  subscribe, hello, sends, remove_peer, done, Done, EventData, cancel_remote_subscription, Peer,
  is_supported,
}
use acebase.Ipc.Calls.{step, unsubscribes, subscribes, receives, new_peer, run, Call}
use acebase.Prelude.{ℕ, ◌≡◌, true, not, none, some, List, [], ◌∷◌, refl, keep, In, map}
use text.Mathlib.Text.{◌==◌ as str_eq}

abbrev no_data : EventData ℕ
no_data = record { path = "x"; val = 1; previous = 0; context = 0; origin = none }

abbrev asks : List (Call ℕ)
asks =
    receives (subscribe "a" none "x" "value")
    ∷ receives (subscribe "c" none "x" "value")
    ∷ subscribes "x" "value" 7
    ∷ unsubscribes "y" none (some 7)
    ∷ []

-- A peer that serves the peers "a" and "c", and has a callback of its own.
abbrev serving : Peer
serving = run (new_peer "b") (receives (hello "a" none) ∷ asks)

serving-IsSynced : IsSynced serving
serving-IsSynced =
    run-IsSynced "b" (receives (hello "a" none) ∷ asks) (tt, (refl, (refl, (tt, (tt, tt)))))

run-IsSynced_example : IsSynced (run (new_peer "b") asks)
run-IsSynced_example = run-IsSynced "b" asks (refl, (refl, (tt, (tt, tt))))

trigger-remotes_example :
    keep is_send (trigger serving "value" "x" no_data)
    ≡ map
        (λ r. sends (event_message serving.id r.for_peer r.path r.event no_data))
        (keep (is_about "x" "value") serving.remotes)
unfolding is_supported
trigger-remotes_example = trigger-remotes serving "x" "value" no_data serving-IsSynced refl

remove_peer-remotes_example :
    (p : Peer) × (remove_peer {V = ℕ} serving "a" true ≡ done p [])
    × (p.remotes ≡ keep (λ r. not (str_eq r.for_peer "a")) serving.remotes)
    × IsSynced p
    × KeepsUsers (record serving { peers = remove_first (λ q. str_eq q "a") serving.peers }) p
unfolding run is_supported
remove_peer-remotes_example = remove_peer-remotes serving "a" true serving-IsSynced refl refl

cancel-ignored_example :
    cancel_remote_subscription {V = ℕ} serving "a" "x" "value" ≡ done serving []
cancel-ignored_example = cancel-ignored serving "a" "x" "value" serving-IsSynced

event_delivered_example :
    In
      (sends (subscribe_request (new_peer "d") serving "x" "value" 3 no_data))
      (asked (new_peer "d") serving "x" "value" 3 no_data).outputs
    × In
        (sends (event_sent (new_peer "d") serving "x" "value" 3 no_data))
        (trigger (served_peer (new_peer "d") serving "x" "value" 3 no_data) "value" "x" no_data)
    × In
        (calls 3 (record no_data { origin = some "b" }))
        (step
          (Done.peer (asked (new_peer "d") serving "x" "value" 3 no_data))
          (receives (event_sent (new_peer "d") serving "x" "value" 3 no_data))).outputs
unfolding run is_supported
event_delivered_example =
    event_delivered (new_peer "d") serving "x" "value" 3 no_data serving-IsSynced refl refl refl
      refl refl

remove-silences_example :
    (Done.peer (subscriptions_remove {V = ℕ} serving "x" (some "value") none)
      ≡ without_callbacks serving "x" "value")
    × (trigger (without_callbacks serving "x" "value") "value" "x" no_data ≡ [])
    × ((without_callbacks serving "x" "value").remotes ≡ serving.remotes)
    × (add_remote_subscription {V = ℕ} (without_callbacks serving "x" "value") "a" "x" "value"
        ≡ done (without_callbacks serving "x" "value") [])
unfolding run is_supported
remove-silences_example = remove-silences serving "a" "x" "value" no_data refl refl
