-- ===== src/Ipc/Synced.antt =====
-- src/ipc/ipc.ts: what a peer keeps for the others, and what the storage has of it.
use acebase.Ipc.{user, is_supported, is_remote, forward, Peer, RemoteSubscription, Subscription}
use acebase.Prelude.{
  keep_everything, ◌==◌, All-In, inr, All-keep, inl, Bool-cases, ℕ, ◌<◌, ◌≡◌, ◌≢◌, arith, Bool,
  true, false, not, List, [], ◌∷◌, map, keep, has, remove_first, All, In, refl, sym, ap, ◌∙◌,
}
use text.Mathlib.Text.{◌==◌ as str_eq}

abbrev pub is_forward : Subscription → Bool
is_forward s = elim s.callback [ user n ↦ false | forward r ↦ true ]

-- What the storage has for another peer's subscription.
abbrev pub stored_for : RemoteSubscription → Subscription
stored_for r = record { path = r.path; event = r.event; callback = forward r }

abbrev pub AreDistinct : List RemoteSubscription → Type 0
AreDistinct [] = Unit
AreDistinct (r ∷ rs) = All (λ s. s.id ≢ r.id) rs × AreDistinct rs

-- No peer has two subscriptions to one event of one path.
abbrev pub AreSingle : List RemoteSubscription → Type 0
AreSingle [] = Unit
AreSingle (r ∷ rs) = (has (is_remote r.for_peer r.path r.event) rs ≡ false) × AreSingle rs

-- The callbacks that the storage has for other peers are those of the remote subscriptions, in their
-- order, but for events that the storage does not know. No path has the name of its event.
pub record IsSynced (p : Peer) : Type 0 where
  pub forwarded :
      keep is_forward p.stored ≡ map stored_for (keep (λ r. is_supported r.event) p.remotes)
  pub below : All (λ r. r.id < p.next) p.remotes
  pub distinct : AreDistinct p.remotes
  pub single : AreSingle p.remotes
  pub apart : All (λ r. str_eq r.path r.event ≡ false) p.remotes
  pub known : All (λ s. has (λ q. str_eq q s.path) p.paths ≡ true) p.stored
  pub own : All (λ s. is_forward s ≡ false) p.ours

pub remove_first-keep :
    (id : ℕ) (rs : List RemoteSubscription)
    → AreDistinct rs
    → remove_first (λ s. s.id == id) rs ≡ keep (λ s. not (s.id == id)) rs
remove_first-keep id [] d = refl
remove_first-keep id (r ∷ rs) d = elim (Bool-cases (r.id == id)) [
  | inl e ↦ rw e (sym (keep_everything (λ s. not (s.id == id)) rs (others rs (ground arith) d.0)))
  | inr e ↦ rw e (ap (◌∷◌ r) (remove_first-keep id rs d.1))
]
  where
    others :
        (ss : List RemoteSubscription)
        → r.id ≡ id
        → All (λ s. s.id ≢ r.id) ss
        → All (λ s. not (s.id == id) ≡ true) ss
    others [] e h = tt
    others (s ∷ ss) e h = (ground (arith, h.0), others ss e h.1)

pub AreDistinct-keep :
    (p : RemoteSubscription → Bool) (rs : List RemoteSubscription)
    → AreDistinct rs
    → AreDistinct (keep p rs)
AreDistinct-keep p [] d = tt
AreDistinct-keep p (r ∷ rs) d = elim (Bool-cases (p r)) [
  | inl e ↦ rw e (All-keep (λ s. s.id ≢ r.id) p rs d.0, AreDistinct-keep p rs d.1)
  | inr e ↦ rw e (AreDistinct-keep p rs d.1)
]

has-keep :
    (q p : RemoteSubscription → Bool) (rs : List RemoteSubscription)
    → has q rs ≡ false
    → has q (keep p rs) ≡ false
has-keep q p [] h = refl
has-keep q p (r ∷ rs) h = ground (arith, has-keep q p rs)

pub AreSingle-keep :
    (p : RemoteSubscription → Bool) (rs : List RemoteSubscription)
    → AreSingle rs
    → AreSingle (keep p rs)
AreSingle-keep p [] d = tt
AreSingle-keep p (r ∷ rs) d = elim (Bool-cases (p r)) [
  | inl e ↦ rw e (has-keep (is_remote r.for_peer r.path r.event) p rs d.0, AreSingle-keep p rs d.1)
  | inr e ↦ rw e (AreSingle-keep p rs d.1)
]

-- Where ids differ, a remote subscription is known by its id.
pub eq_of_id :
    (r s : RemoteSubscription) (rs : List RemoteSubscription)
    → AreDistinct rs
    → In r rs
    → In s rs
    → s.id ≡ r.id
    → s ≡ r
eq_of_id r s [] d m n e = elim m [ ]
eq_of_id r s (x ∷ rs) d (inl a) (inl b) e = b ∙ sym a
eq_of_id r s (x ∷ rs) d (inl a) (inr n) e =
    absurd (All-In (λ y. y.id ≢ x.id) rs s d.0 n (e ∙ ap (λ y. y.id) a))
eq_of_id r s (x ∷ rs) d (inr m) (inl b) e =
    absurd (All-In (λ y. y.id ≢ x.id) rs r d.0 m (sym e ∙ ap (λ y. y.id) b))
eq_of_id r s (x ∷ rs) d (inr m) (inr n) e = eq_of_id r s rs d.1 m n e
