-- ===== src/NodeChanges.antt =====
-- src/node-changes.ts: NodeChangeTracker. Keys are an ordered type, the strings of the source; an object
-- is its own fields, each key once, where a field may be null; a value is an object or null. No key is one
-- of the names that every object inherits, such as `constructor`, which `in` finds in every object.
pub mod Apply
pub mod Track
pub mod Difference
pub mod RoundTrip
mod Tests
use acebase.Prelude.{
  ℕ, ◌≡◌, Bool, true, false, not, ◌&&◌, ◌||◌, List, [], ◌∷◌, ◌++◌, keep, find, if◌then◌else◌,
  Option, none, some, length,
}
use acebase.Order.{Order}
use acebase.Assoc.{same, get, set, delete_key}

-- `CHANGE_TYPE`
pub data ChangeType : Type 0 where
  update delete insert : ChangeType

abbrev pub is_update : ChangeType → Bool
is_update update = true
is_update _ = false

abbrev pub is_delete : ChangeType → Bool
is_delete delete = true
is_delete _ = false

abbrev pub is_insert : ChangeType → Bool
is_insert insert = true
is_insert _ = false

-- `NodeChange`; null is `none`.
pub record Change (K : Type 0) (V : Type 0) : Type 0 where
  pub key : K
  pub change_type : ChangeType
  pub old : Option V
  pub new : Option V

abbrev pub Fields : Type 0 → Type 0 → Type 0
Fields K V = List (K × Option V)

pub data Value (K : Type 0) (V : Type 0) : Type 0 where
  null : Value K V
  object : Fields K V → Value K V

-- `NodeChangeTracker`; a value that is not set is `none`. The path is for an error's text only.
pub record Tracker (K : Type 0) (V : Type 0) : Type 0 where
  pub changes : List (Change K V)
  pub old_value : Option (Value K V)
  pub new_value : Option (Value K V)

-- Both values null; a value not set; a key or the keys of null.
pub data Error : Type 0 where
  wrong_logic not_set keys_of_null : Error

pub data Result {ℓ} (A : Type ℓ) : Type ℓ where
  ok : A → Result A
  err : Error → Result A

infixl 5 ◌>>=◌
abbrev pub ◌>>=◌ {ℓ κ} : {A : Type ℓ} {B : Type κ} → Result A → (A → Result B) → Result B
ok a >>= f = f a
err e >>= f = err e

module _ {K : Type 0} {V : Type 0} where
  abbrev pub new_tracker : Tracker K V
  new_tracker = record { changes = []; old_value = none; new_value = none }

  abbrev pub push : Change K V → Tracker K V → Tracker K V
  push c t = record t { changes = t.changes ++ c ∷ [] }

  -- `addDelete`, `addUpdate` and `addInsert`
  abbrev pub add_delete : K → Option V → Tracker K V → Tracker K V
  add_delete k old t = push (record { key = k; change_type = delete; old = old; new = none }) t

  abbrev pub add_update : K → Option V → Option V → Tracker K V → Tracker K V
  add_update k old new t = push (record { key = k; change_type = update; old = old; new = new }) t

  abbrev pub add_insert : K → Option V → Tracker K V → Tracker K V
  add_insert k new t = push (record { key = k; change_type = insert; old = none; new = new }) t

  -- `add`
  abbrev pub add : K → Option V → Option V → Tracker K V → Result (Tracker K V)
  add k none none t = err wrong_logic
  add k none (some b) t = ok (add_insert k (some b) t)
  add k (some a) none t = ok (add_delete k (some a) t)
  add k (some a) (some b) t = ok (add_update k (some a) (some b) t)

  -- `updates`, `deletes` and `inserts`
  abbrev pub updates : Tracker K V → List (Change K V)
  updates t = keep (λ c. is_update c.change_type) t.changes

  abbrev pub deletes : Tracker K V → List (Change K V)
  deletes t = keep (λ c. is_delete c.change_type) t.changes

  abbrev pub inserts : Tracker K V → List (Change K V)
  inserts t = keep (λ c. is_insert c.change_type) t.changes

module _ {K : Type 0} {V : Type 0} ⦃o : Order K⦄ where
  -- `get`
  abbrev pub get_change : K → Tracker K V → Option (Change K V)
  get_change k t = find (λ c. same c.key k) t.changes

  abbrev pub delete_all : List (Change K V) → Fields K V → Fields K V
  delete_all [] fs = fs
  delete_all (c ∷ cs) fs = delete_all cs (delete_key c.key fs)

  abbrev pub set_all : (Change K V → Option V) → List (Change K V) → Fields K V → Fields K V
  set_all value [] fs = fs
  set_all value (c ∷ cs) fs = set_all value cs (set c.key (value c) fs)

  -- The getter `newValue`: the value that was set, or else the old value with all changes.
  pub get_new_value : Tracker K V → Result (Value K V)
  get_new_value t = elim t.new_value [
    | some v ↦ ok v
    | none ↦ elim t.old_value [
      | none ↦ err not_set
      | some null ↦ err keys_of_null
      | some (object fs) ↦ ok (
          object (
            set_all (λ c. c.new) (inserts t)
              (set_all (λ c. c.new) (updates t) (delete_all (deletes t) fs))))
    ]
  ]

  -- The getter `oldValue`: the value that was set, or else the new value without the changes.
  pub get_old_value : Tracker K V → Result (Value K V)
  get_old_value t = elim t.old_value [
    | some v ↦ ok v
    | none ↦ elim t.new_value [
      | none ↦ err not_set
      | some null ↦ err keys_of_null
      | some (object fs) ↦ ok (
          object (
            delete_all (inserts t)
              (set_all (λ c. c.old) (updates t) (set_all (λ c. c.old) (deletes t) fs))))
    ]
  ]

  -- A key of the old value in `create`.
  abbrev pub add_old : Value K V → K → Option V → Tracker K V → Result (Tracker K V)
  add_old null k old t = err keys_of_null
  add_old (object fs) k old t = elim (get k fs) [
    | some new ↦ add k old new t
    | none ↦ add k old none t
  ]

  -- A key of the new value in `create`.
  abbrev pub add_new : Value K V → K → Option V → Tracker K V → Result (Tracker K V)
  add_new null k new t = err keys_of_null
  add_new (object fs) k new t = elim (get k fs) [
    | none ↦ add k none new t
    | some none ↦ add k none new t
    | some (some old) ↦ ok t
  ]

  pub add_olds : Value K V → Fields K V → Tracker K V → Result (Tracker K V)
  add_olds new [] t = ok t
  add_olds new ((k, v) ∷ fs) t = add_old new k v t >>= λ t'. add_olds new fs t'

  pub add_news : Value K V → Fields K V → Tracker K V → Result (Tracker K V)
  add_news old [] t = ok t
  add_news old ((k, v) ∷ fs) t = add_new old k v t >>= λ t'. add_news old fs t'

  -- The fields that `create` goes over: none of null.
  abbrev pub fields : Value K V → Fields K V
  fields null = []
  fields (object fs) = fs

  -- `create`
  pub create : Value K V → Value K V → Result (Tracker K V)
  unfolding add_olds add_news
  create old new =
      add_olds new (fields old) (record new_tracker { old_value = some old; new_value = some new })
      >>= λ t. add_news old (fields new) t
