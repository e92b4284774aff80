-- ===== src/NodeChanges/Tests.antt =====
-- src/node-changes.ts: objects of numbers, and the theorems on them.
use acebase.NodeChanges.RoundTrip.{Reads, create-difference, old_value-new_value}
use acebase.NodeChanges.Track.{difference}
use acebase.NodeChanges.{
  Change, Fields, Tracker, null, object, ok, err, keys_of_null, create, get_new_value,
  get_old_value, get_change, insert, update, delete, ◌>>=◌,
}
use acebase.Assoc.{get}
use acebase.Order.{nat_order}
use acebase.Prelude.{ℕ, ◌≡◌, List, [], ◌∷◌, some, none, refl}

abbrev before_save : Fields ℕ ℕ
before_save = (1, some 10) ∷ (2, some 20) ∷ []

abbrev after_save : Fields ℕ ℕ
after_save = (2, some 21) ∷ (3, some 30) ∷ []

abbrev saved : List (Change ℕ ℕ)
saved =
    record { key = 1; change_type = delete; old = some 10; new = none }
    ∷ record { key = 2; change_type = update; old = some 20; new = some 21 }
    ∷ record { key = 3; change_type = insert; old = none; new = some 30 }
    ∷ []

tracked :
    create (object before_save) (object after_save)
    ≡ ok (record {
      changes = saved;
      old_value = some (object before_save);
      new_value = some (object after_save);
    })
unfolding create nat_order
tracked = refl

-- The type allows no null here; with it, the test of a key comes before the test of null.
created_of_null : create (object before_save) null ≡ err keys_of_null
unfolding create
created_of_null = refl

abbrev null_field : Fields ℕ ℕ
null_field = (1, none) ∷ []

-- A field that was null is inserted twice.
inserted_twice :
    create (object null_field) (object ((1, some 5) ∷ []))
    ≡ ok (record {
      changes =
          record { key = 1; change_type = insert; old = none; new = some 5 }
          ∷ record { key = 1; change_type = insert; old = none; new = some 5 }
          ∷ [];
      old_value = some (object null_field);
      new_value = some (object ((1, some 5) ∷ []));
    })
unfolding create nat_order
inserted_twice = refl

create-difference_example :
    (t : Tracker ℕ ℕ) × (create (object before_save) (object after_save) ≡ ok t)
    × ((k : ℕ) → get_change k t ≡ difference k (get k before_save) (get k after_save))
    × Reads after_save (get_new_value (record t { new_value = none }))
    × Reads before_save (get_old_value (record t { old_value = none }))
unfolding nat_order
create-difference_example =
    create-difference before_save after_save (refl, (refl, tt)) (refl, (refl, tt))
      ((λ e. cc), ((λ e. cc), tt)) ((λ e. cc), ((λ e. cc), tt))

old_value-new_value_example : Reads before_save (
    get_new_value
      (record { changes = saved; old_value = some (object before_save); new_value = none })
    >>= λ v. get_old_value (record { changes = saved; old_value = none; new_value = some v }))
unfolding nat_order
old_value-new_value_example =
    old_value-new_value before_save saved ((refl, (refl, (refl, tt))), (refl, (refl, (refl, tt))))
