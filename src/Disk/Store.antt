-- ===== src/Disk/Store.antt =====
-- What the trees use of server-side/diskio/include/diskio.h: read_node, write_node and create_addr, as
-- an interface, and as diskio.c implements it with the cache and the file.
pub mod Fits
pub mod Copies
pub mod OnDisk
pub mod Instance
use yacdb.Common.{
  ℕ, suc, ◌<◌, ◌^◌, ◌≡◌, ◌≢◌, Option, none, some, List, ◌∷◌, Bytes, ◌==◌, if◌then◌else◌,
}
use yacdb.Common.Memory.{Result, ok, failed, fault}
use yacdb.Common.State.{Routine, Outcome, done, error, crash}
use yacdb.Disk.{Node}
use yacdb.Disk.Pages.{Db, create_addr}
use yacdb.Disk.Pages.Chain.{NotIn}
use yacdb.Disk.Cache.{NodeCache, add_to_cache}
use yacdb.Disk.Image.{read_node}
use yacdb.Disk.Image.Write.{write_typed}

-- The nodes that pages hold.
abbrev pub Nodes : Type 0
Nodes = ℕ → Option Node

abbrev pub update : Nodes → ℕ → Node → Nodes
update nodes p n q = if p == q then some n else nodes q

abbrev pub IsIn : ℕ → List ℕ → Type 0
IsIn p given = NotIn p given → ⊥

-- The operations, and what a tree relies on: the state stands for the nodes of the pages that were
-- given out, a node that fits is read back until it is written again, and a new page is none of
-- those given out. `HasRoom s k` says that `k` more pages can be given out.
pub record NodeStore (S : Type 0) : Type 1 where
  pub read : ℕ → Routine S Node
  pub write : Node → ℕ → Routine S (Unit {0})
  pub create : Routine S ℕ
  pub Holds : S → List ℕ → Nodes → Type 0
  pub Fits : Node → Type 0
  pub HasRoom : S → ℕ → Type 0
  pub read_lem :
      (s : S) (given : List ℕ) (nodes : Nodes) (p : ℕ) (n : Node)
      → Holds s given nodes
      → nodes p ≡ some n
      → (after : S) × (read p s ≡ done n after)
        × Holds after given nodes
        × ((k : ℕ) → HasRoom s k → HasRoom after k)
  pub write_lem :
      (s : S) (given : List ℕ) (nodes : Nodes) (p : ℕ) (n : Node)
      → Holds s given nodes
      → IsIn p given
      → Fits n
      → (after : S) × (write n p s ≡ done tt after)
        × Holds after given (update nodes p n)
        × ((k : ℕ) → HasRoom s k → HasRoom after k)
  pub create_lem :
      (s : S) (given : List ℕ) (nodes : Nodes) (k : ℕ)
      → Holds s given nodes
      → HasRoom s (suc k)
      → (p : ℕ) × (after : S) × (create s ≡ done p after)
        × Holds after (p ∷ given) nodes
        × NotIn p given
        × HasRoom after k
        × (p < 2 ^ 64)
  pub given_lem :
      (s : S) (given : List ℕ) (nodes : Nodes) (p : ℕ) (n : Node)
      → Holds s given nodes
      → nodes p ≡ some n
      → IsIn p given

-- `db`: the file and the cache.
pub record Store : Type 0 where
  pub db : Db
  pub cache : NodeCache

abbrev read_result : Store → Result (Node × NodeCache) → Outcome Store Node
read_result s (ok (node, cache)) = done node (record s { cache = cache })
read_result s failed = error s
read_result s fault = crash

unfoldable pub read_store : ℕ → ℕ → Routine Store Node
read_store depth addr s = read_result s (read_node depth s.db s.cache addr)

abbrev write_result : Store → Result Db → Outcome Store (Unit {0})
write_result s (ok db) = done tt (record s { db = db })
write_result s failed = error s
write_result s fault = crash

-- The node is in the cache also when its page could not be written.
abbrev write_cached : ℕ → Bytes → Node → ℕ → Db → Result NodeCache → Outcome Store (Unit {0})
write_cached depth buffer n addr db (ok cache) =
    write_result (record { db = db; cache = cache }) (write_typed depth buffer db n addr n.type)
write_cached depth buffer n addr db failed = crash
write_cached depth buffer n addr db fault = crash

unfoldable pub write_node : ℕ → Bytes → Node → ℕ → Routine Store (Unit {0})
write_node depth buffer n addr s =
    write_cached depth buffer n addr s.db
      (add_to_cache s.db.header.default_cache_size n addr s.cache)

abbrev create_result : Store → Result (ℕ × Db) → Outcome Store ℕ
create_result s (ok (page, db)) = done page (record s { db = db })
create_result s failed = error s
create_result s fault = crash

unfoldable pub create_store : Routine Store ℕ
create_store s = create_result s (create_addr s.db)
