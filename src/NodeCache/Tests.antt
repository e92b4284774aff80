-- ===== src/NodeCache/Tests.antt =====
-- src/node-cache.ts: a cache of three paths; paths are numbers here, and 1 is the parent of 10 to 19.
use acebase.Prelude.{
  ℕ, ◌/◌, ◌≡◌, Bool, true, false, ◌||◌, [], ◌∷◌, refl, arith, none, some, if◌then◌else◌, ◌==◌,
}
use acebase.Order.{nat_order}
use acebase.Assoc.{same, get}
use acebase.NodeCache.{NodeInfo, Cache, found, update, find, invalidate, all_children, new_entry}
use acebase.NodeCache.Find.{find-update}
use acebase.NodeCache.Invalidate.{invalidate-all}

abbrev info : ℕ → NodeInfo ℕ ℕ ℕ
info path = record { path = path; type = some 1; exists = true; value = none; rest = 0 }

abbrev cache : Cache ℕ ℕ ℕ
cache = record {
  entries =
      (1, new_entry 0 (info 1)) ∷ (11, new_entry 5 (info 11)) ∷ (2, new_entry 9 (info 2)) ∷ [];
  announced = [];
  timer = true;
}

abbrev is_parent : ℕ → ℕ → Bool
is_parent p q = q / 10 == p

abbrev last_key : ℕ → ℕ → ℕ
last_key q p = q

abbrev no_rest : ℕ → ℕ
no_rest p = 0

find-update_example : (find 0 50000 11 false (update 0 10 (info 11) cache).0).0 ≡ found (info 11)
unfolding nat_order
find-update_example = find-update 0 10 50000 (info 11) cache refl (ground arith)

invalidate-all_example :
    get 11 (invalidate 0 is_parent last_key no_rest 20 1 all_children cache).entries
    ≡ (if same {K = ℕ} 1 11 || is_parent 1 11 then none else get 11 cache.entries)
invalidate-all_example = invalidate-all 0 is_parent last_key no_rest 20 1 11 cache
