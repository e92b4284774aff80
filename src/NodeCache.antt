-- ===== src/NodeCache.antt =====
-- src/node-cache.ts: the cache of node infos. Paths are an ordered type, the strings of the source;
-- `PathInfo` of acebase-core is a parameter: which path is an ancestor of which, and the key of a
-- descendant below an ancestor. The clock is an argument.
pub mod Find
pub mod Invalidate
mod Tests
use acebase.Assoc.{set, same, delete_key, get}
use acebase.Prelude.{
  ℕ, zero, suc, ◌+◌, Bool, true, false, not, ◌&&◌, List, [], ◌∷◌, ◌++◌, ltb, leb, if◌then◌else◌,
  Option, none, some, keep,
}
use acebase.Order.{Order, is_eq}

-- `NodeInfo`: the fields that the cache changes, and `rest` for index, key, address and child count.
pub record NodeInfo (P : Type 0) (V : Type 0) (R : Type 0) : Type 0 where
  pub path : P
  pub type : Option ℕ
  pub exists : Bool
  pub value : Option V
  pub rest : R

-- `NodeCacheEntry`
pub record Entry (P : Type 0) (V : Type 0) (R : Type 0) : Type 0 where
  pub node_info : NodeInfo P V R
  pub created : ℕ
  pub updated : Option ℕ
  pub expires : ℕ

-- `NodeCache`: the entries, the announced paths and whether the cleanup timer runs.
pub record Cache (P : Type 0) (V : Type 0) (R : Type 0) : Type 0 where
  pub entries : List (P × Entry P V R)
  pub announced : List P
  pub timer : Bool

-- What `invalidate` does to the child with a key.
pub data Action : Type 0 where
  deletes invalidates : Action

pub data Recursive (Key : Type 0) : Type 0 where
  only_node all_children : Recursive Key
  children : (Key → Option Action) → Recursive Key

-- What `find` returns; a promise for an announced path.
pub data Answer (P : Type 0) (V : Type 0) (R : Type 0) : Type 0 where
  promised missing : Answer P V R
  found : NodeInfo P V R → Answer P V R

-- `CACHE_DURATION`, in milliseconds
abbrev pub cache_duration : ℕ
cache_duration = 60000

module _ {P : Type 0} ⦃o : Order P⦄ where
  abbrev pub is_announced : P → List P → Bool
  is_announced p [] = false
  is_announced p (q ∷ qs) = let other = is_announced p qs in if same q p then true else other

module _ {P : Type 0} {V : Type 0} {R : Type 0} where
  abbrev pub last_change : Entry P V R → ℕ
  last_change e = elim e.updated [ none ↦ e.created | some t ↦ t ]

  -- `keepAlive`
  abbrev pub keep_alive : Entry P V R → Entry P V R
  keep_alive e = record e { expires = last_change e + cache_duration }

  abbrev pub new_entry : ℕ → NodeInfo P V R → Entry P V R
  new_entry now info =
      keep_alive (record { node_info = info; created = now; updated = none; expires = 0 })

  abbrev pub update_entry : ℕ → NodeInfo P V R → Entry P V R → Entry P V R
  update_entry now info e = keep_alive (record e { node_info = info; updated = some now })

module _ {P : Type 0} {V : Type 0} {R : Type 0} ⦃o : Order P⦄ where
  -- `announce`
  pub announce : P → Cache P V R → Cache P V R
  announce p c =
      if is_announced p c.announced then c else record c { announced = c.announced ++ p ∷ [] }

  abbrev pub updated_entry : ℕ → NodeInfo P V R → Option (Entry P V R) → Entry P V R
  updated_entry now info none = new_entry now info
  updated_entry now info (some e) = update_entry now info e

  -- `update`; the root, whose path is empty, is not cached. The announced path whose promise it
  -- resolves comes second.
  unfoldable pub update : P → ℕ → NodeInfo P V R → Cache P V R → Cache P V R × Option P
  update root now info c = if same info.path root then (c, none) else (
    record {
      entries = set info.path (updated_entry now info (get info.path c.entries)) c.entries;
      announced = keep (λ q. not (same q info.path)) c.announced;
      timer = true;
    },
    if is_announced info.path c.announced then some info.path else none,
  )

  -- `find` behind its look at the announcements, with the entry of the path; where it has expired, it
  -- is removed.
  abbrev pub find_entry :
      P → ℕ → P → Cache P V R → Option (Entry P V R) → Answer P V R × Cache P V R
  find_entry root now p c none = (missing, record c { timer = true })
  find_entry root now p c (some e) =
      if same e.node_info.path root
      then (found e.node_info, record c { timer = true })
      else if leb e.expires now
      then (missing, record c { entries = delete_key p c.entries; timer = true })
      else (found e.node_info, record c { entries = set p (keep_alive e) c.entries; timer = true })

  -- `find`
  unfoldable pub find : P → ℕ → P → Bool → Cache P V R → Answer P V R × Cache P V R
  find root now p check_announced c =
      if check_announced && is_announced p c.announced
      then (promised, c)
      else find_entry root now p c (get p c.entries)

  -- `cleanup`
  unfoldable pub cleanup : ℕ → Cache P V R → Cache P V R
  cleanup now c = record c { entries = keep (λ e. not (leb e.1.expires now)) c.entries }

  abbrev pub is_empty : List (P × Entry P V R) → Bool
  is_empty [] = true
  is_empty (e ∷ es) = false

  -- The cleanup timer: it runs on while there are entries.
  unfoldable pub cleanup_timer : ℕ → Cache P V R → Cache P V R
  unfolding cleanup
  cleanup_timer now c = record (cleanup now c) { timer = not (is_empty (cleanup now c).entries) }

  unfoldable pub clear : Cache P V R → Cache P V R
  clear c = record c { entries = [] }

module _ {P : Type 0} {V : Type 0} {R : Type 0} {Key : Type 0} ⦃o : Order P⦄ (root : P)
    (is_ancestor : P → P → Bool) (key_below : P → P → Key) (rest_of : P → R) where
  -- `new NodeInfo({ path, exists: false })`
  abbrev pub removed_info : P → NodeInfo P V R
  removed_info p = record { path = p; type = none; exists = false; value = none; rest = rest_of p }

  -- One round of the loop of `invalidate`. The path info of an entry is that of the path it is under.
  abbrev pub invalidate_child : ℕ → P → Recursive Key → P × Entry P V R → Cache P V R → Cache P V R
  unfolding update
  invalidate_child now p only_node e c = c
  invalidate_child now p all_children e c =
      if is_ancestor p e.0 then record c { entries = delete_key e.0 c.entries } else c
  invalidate_child now p (children actions) e c =
      if is_ancestor p e.0
      then (elim (actions (key_below e.0 p)) [
        | none ↦ c
        | some deletes ↦ (update root now (removed_info e.0) c).0
        | some invalidates ↦ record c { entries = delete_key e.0 c.entries }
      ])
      else c

  abbrev pub invalidate_children :
      ℕ → P → Recursive Key → List (P × Entry P V R) → Cache P V R → Cache P V R
  invalidate_children now p recursive [] c = c
  invalidate_children now p recursive (e ∷ es) c =
      invalidate_children now p recursive es (invalidate_child now p recursive e c)

  -- `invalidate`. The loop changes or removes only the entry it is at, so it goes over the entries that
  -- there are when it begins.
  unfoldable pub invalidate : ℕ → P → Recursive Key → Cache P V R → Cache P V R
  invalidate now p recursive c =
      invalidate_children now p recursive (delete_key p c.entries)
        (record c { entries = delete_key p c.entries })

  -- The marks of `delete` on a descendant.
  abbrev pub mark_deleted : ℕ → P → P × Entry P V R → P × Entry P V R
  mark_deleted now p (q, e) =
      if is_ancestor p q
      then (
        q,
        keep_alive (record e {
          node_info = record e.node_info { exists = false; value = none; type = none };
          updated = some now;
        }),
      )
      else (q, e)

  abbrev pub mark_all : ℕ → P → List (P × Entry P V R) → List (P × Entry P V R)
  mark_all now p [] = []
  mark_all now p (e ∷ es) = mark_deleted now p e ∷ mark_all now p es

  -- `delete`
  unfoldable pub delete : ℕ → P → Cache P V R → Cache P V R × Option P
  unfolding update
  delete now p c =
      let (c', resolved) = update root now (removed_info p) c in
      (record c' { entries = mark_all now p c'.entries }, resolved)
