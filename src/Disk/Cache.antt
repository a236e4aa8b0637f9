-- ===== src/Disk/Cache.antt =====
-- server-side/diskio/diskio.c: the list of cached nodes, most recent first, and its counter.
pub mod Laws
pub mod Recall
use yacdb.Common.{
  ℕ, ◌+◌, ◌-◌, Bool, true, false, Option, none, some, List, [], ◌∷◌, ltb, ◌==◌, if◌then◌else◌,
}
use yacdb.Common.Memory.{Result, ok, fault, ◌>>=◌}
use yacdb.Disk.{Node, cpy_node}

pub record CachedNode : Type 0 where
  pub addr : ℕ
  pub node : Node

-- `db.cache` and `db.cache_size`.
pub record NodeCache : Type 0 where
  pub cache : List CachedNode
  pub cache_size : ℕ

-- `while (last_node != NULL)`: the first node at the address is taken out. The flag tells whether
-- one was.
unfoldable pub unlink : ℕ → List CachedNode → List CachedNode × Bool
unlink addr [] = ([], false)
unlink addr (c ∷ cs) =
    let (rest, found) = unlink addr cs in if c.addr == addr then (cs, true) else (c ∷ rest, found)

-- Once the head was removed, `parent` is NULL, and to unlink the node behind it is a fault.
abbrev pub unlink_orphan : ℕ → List CachedNode → Result (List CachedNode × Bool)
unlink_orphan addr [] = ok ([], false)
unlink_orphan addr (c ∷ cs) = if c.addr == addr then fault else ok (unlink addr (c ∷ cs))

abbrev pub dropped : Bool → ℕ → ℕ
dropped true n = n - 1
dropped false n = n

-- The node at the address, if any, leaves the cache.
unfoldable pub remove_addr : ℕ → ℕ → List CachedNode → Result NodeCache
remove_addr addr size [] = ok (record { cache = []; cache_size = size })
remove_addr addr size (x ∷ xs) =
    if x.addr == addr
    then (do
      (rest, found) ← unlink_orphan addr xs
      ok (record { cache = rest; cache_size = dropped found (size - 1) }))
    else ok
        (record { cache = x ∷ (unlink addr xs).0; cache_size = dropped (unlink addr xs).1 size })

-- The last node leaves the list; the code follows `next` from the head without a test.
unfoldable pub drop_last : List CachedNode → Result (List CachedNode)
drop_last [] = fault
drop_last (x ∷ []) = fault
drop_last (x ∷ y ∷ []) = ok (x ∷ [])
drop_last (x ∷ y ∷ z ∷ rest) = do kept ← drop_last (y ∷ z ∷ rest); ok (x ∷ kept)

-- `if (db.cache_size > db.header->default_cache_size)`.
abbrev pub trim : ℕ → List CachedNode → ℕ → Result NodeCache
trim limit cache size =
    if ltb limit size
    then (do kept ← drop_last cache; ok (record { cache = kept; cache_size = size - 1 }))
    else ok (record { cache = cache; cache_size = size })

-- `limit` is `default_cache_size` of the header.
unfoldable pub add_to_cache : ℕ → Node → ℕ → NodeCache → Result NodeCache
add_to_cache limit node addr c = do
  removed ← remove_addr addr c.cache_size c.cache
  trim limit (record { addr = addr; node = cpy_node node } ∷ removed.cache) (removed.cache_size + 1)

-- The node at the address behind the head, and the list without it.
unfoldable pub find_behind : ℕ → List CachedNode → Option (CachedNode × List CachedNode)
find_behind addr [] = none
find_behind addr (c ∷ cs) = elim (find_behind addr cs) [
  | none ↦ if c.addr == addr then some (c, cs) else none
  | some (found, rest) ↦ if c.addr == addr then some (c, cs) else some (found, c ∷ rest)
]

-- A hit behind the head moves to the front.
unfoldable pub get_from_list : ℕ → ℕ → List CachedNode → Option Node × NodeCache
get_from_list addr size [] = (none, record { cache = []; cache_size = size })
get_from_list addr size (x ∷ xs) =
    if x.addr == addr
    then (some (cpy_node x.node), record { cache = x ∷ xs; cache_size = size })
    else elim (find_behind addr xs) [
      | none ↦ (none, record { cache = x ∷ xs; cache_size = size })
      | some (found, rest) ↦
          (some (cpy_node found.node), record { cache = found ∷ x ∷ rest; cache_size = size })
    ]

unfoldable pub get_from_cache : ℕ → NodeCache → Option Node × NodeCache
get_from_cache addr c = get_from_list addr c.cache_size c.cache
