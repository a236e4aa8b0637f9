-- ===== src/Tests/MemoryStore.antt =====
-- A store of nodes in memory, for the instances of theorems about trees. No code of its own.
use yacdb.Common.{
  ℕ, ◌+◌, ◌<◌, ◌≤◌, ◌^◌, ◌≡◌, refl, ap, ◌∙◌, subst, Option, none, some, List, [], ◌∷◌, All, ◌==◌,
  ==_iff, Bool-cases, inl, inr, arith,
}
use yacdb.Common.State.{done, error, Routine}
use yacdb.Disk.{Node}
use yacdb.Disk.Store.{Nodes, update, NodeStore, IsIn}
use yacdb.Disk.Pages.Chain.{NotIn}

pub record MemoryStore : Type 0 where
  pub nodes : Nodes
  pub next : ℕ

abbrev pub Holds : MemoryStore → List ℕ → Nodes → Type 0
Holds s given nodes =
    (s.nodes ≡ nodes)
    × ((p : ℕ) (n : Node) → nodes p ≡ some n → IsIn p given)
    × All (λ p. p < s.next) given
    × (s.next ≤ 2 ^ 64)

abbrev read_outcome : Option Node → Routine MemoryStore Node
read_outcome none s = error s
read_outcome (some n) s = done n s

abbrev pub read_memory : ℕ → Routine MemoryStore Node
read_memory p s = read_outcome (s.nodes p) s

pub updated_given :
    (given : List ℕ) (nodes : Nodes) (p : ℕ) (n : Node)
    → ((q : ℕ) (m : Node) → nodes q ≡ some m → IsIn q given)
    → IsIn p given
    → (q : ℕ) (m : Node) → update nodes p n q ≡ some m
    → IsIn q given
updated_given given nodes p n h here q m e = elim (Bool-cases (p == q)) [
  | inl same ↦ subst (λ r. IsIn r given) ((==_iff p q).0 same) here
  | inr other ↦ h q m (rw other at e)
]

pub below_next : (next : ℕ) (given : List ℕ) → All (λ p. p < next) given → NotIn next given
below_next next [] h = tt
below_next next (p ∷ given) h = ((λ e. omega (arith, h.0, e)), below_next next given h.1)

pub all_next :
    (next : ℕ) (given : List ℕ) → All (λ p. p < next) given → All (λ p. p < next + 1) given
all_next next [] h = tt
all_next next (p ∷ given) h = (omega (arith, h.0), all_next next given h.1)

abbrev pub memory_store : NodeStore MemoryStore
memory_store = record {
  read = read_memory;
  write = λ n p s. done tt (record s { nodes = update s.nodes p n });
  create = λ s. done s.next (record s { next = s.next + 1 });
  Holds = Holds;
  Fits = λ n. Unit;
  HasRoom = λ s k. s.next + k ≤ 2 ^ 64;
  read_lem =
      λ s given nodes p n h e. (s, ap (λ o. read_outcome o s) (ap (λ f. f p) h.0 ∙ e), h, λ k r. r);
  write_lem = λ s given nodes p n h here fits. (
    record s { nodes = update s.nodes p n },
    refl,
    (ap (λ f. update f p n) h.0, updated_given given nodes p n h.1 here, h.2, h.3),
    λ k r. r,
  );
  create_lem = λ s given nodes k h room. (
    s.next,
    record s { next = s.next + 1 },
    refl,
    (
      h.0,
      (λ p n e out. h.1 p n e out.1),
      (omega arith, all_next s.next given h.2),
      omega (arith, room),
    ),
    below_next s.next given h.2,
    omega (arith, room),
    omega (arith, room),
  );
  given_lem = λ s given nodes p n h e. h.1 p n e;
}
