-- ===== src/Disk/Cache/Laws.antt =====
-- add_to_cache and get_from_cache (server-side/diskio/diskio.c) against a list of the nodes, most
-- recently used first, that holds an address once and is cut at the limit.
use yacdb.Common.{
  ℕ, zero, suc, ◌+◌, ◌-◌, ◌<◌, ◌≤◌, ◌≡◌, ◌≢◌, refl, ap, ◌∙◌, subst, ◌⊎◌, inl, inr, Bool, true,
  false, Option, none, some, List, [], ◌∷◌, ltb, ltb→lt, ltb-false, ◌==◌, ==_iff, if◌then◌else◌,
  Bool-cases, length, take, arith, take_of_length-le, length-take,
}
use yacdb.Common.Memory.{ok}
use yacdb.Disk.{Node, cpy_node}
use yacdb.Disk.Cache.{
  CachedNode, NodeCache, unlink, unlink_orphan, remove_addr, drop_last, trim, dropped, add_to_cache,
}

-- The first node cached for an address.
abbrev pub lookup : ℕ → List CachedNode → Option Node
lookup addr [] = none
lookup addr (c ∷ cs) = if c.addr == addr then some c.node else lookup addr cs

abbrev pub Absent : ℕ → List CachedNode → Type 0
Absent addr cs = lookup addr cs ≡ none

-- No address twice.
abbrev pub Distinct : List CachedNode → Type 0
Distinct [] = Unit
Distinct (c ∷ cs) = Absent c.addr cs × Distinct cs

-- The list without the node at the address.
abbrev pub without : ℕ → List CachedNode → List CachedNode
without addr [] = []
without addr (c ∷ cs) = if c.addr == addr then cs else c ∷ without addr cs

-- Each address once, the counter is the length, and the cache is within a limit of one or more.
pub record IsCache (limit : ℕ) (c : NodeCache) : Type 0 where
  pub distinct : Distinct c.cache
  pub counted : c.cache_size ≡ length c.cache
  pub within : length c.cache ≤ limit
  pub some_room : 0 < limit

unlink_found : (addr : ℕ) (cs : List CachedNode) → (unlink addr cs).1 ≡ true → 0 < length cs
unfolding unlink
unlink_found addr [] h = cc
unlink_found addr (c ∷ cs) h = omega arith

dropped-suc : (b : Bool) (n : ℕ) → (b ≡ true → 0 < n) → dropped b (suc n) ≡ suc (dropped b n)
dropped-suc true n h = let p = h refl in omega arith
dropped-suc false n h = refl

unlink-without :
    (addr : ℕ) (cs : List CachedNode)
    → ((unlink addr cs).0 ≡ without addr cs)
      × (dropped (unlink addr cs).1 (length cs) ≡ length (without addr cs))
unfolding unlink
unlink-without addr [] = (refl, refl)
unlink-without addr (c ∷ cs) =
    let (l, d) = unlink-without addr cs in
    elim (Bool-cases (c.addr == addr)) [
      | inl hit ↦ rw hit (refl, omega arith)
      | inr miss ↦ rw miss (
        ap (◌∷◌ c) l,
        dropped-suc (unlink addr cs).1 (length cs) (unlink_found addr cs) ∙ ap suc d,
      )
    ]

unlink-Absent : (addr : ℕ) (cs : List CachedNode) → Absent addr cs → unlink addr cs ≡ (cs, false)
unfolding unlink
unlink-Absent addr [] h = refl
unlink-Absent addr (c ∷ cs) h = elim (Bool-cases (c.addr == addr)) [
  | inl hit ↦ absurd (ground arith)
  | inr miss ↦
      let rest : Absent addr cs = ground arith in rw (miss, unlink-Absent addr cs rest) refl
]

unlink_orphan-Absent :
    (addr : ℕ) (cs : List CachedNode) → Absent addr cs → unlink_orphan addr cs ≡ ok (cs, false)
unlink_orphan-Absent addr [] h = refl
unlink_orphan-Absent addr (c ∷ cs) h = elim (Bool-cases (c.addr == addr)) [
  | inl hit ↦ absurd (ground arith)
  | inr miss ↦ rw (miss, unlink-Absent addr (c ∷ cs) h) refl
]

-- remove_addr without a fault, where no address stands twice.
remove_addr-Distinct :
    (addr : ℕ) (cs : List CachedNode)
    → Distinct cs
    → remove_addr addr (length cs) cs
      ≡ ok (record { cache = without addr cs; cache_size = length (without addr cs) })
unfolding remove_addr
remove_addr-Distinct addr [] h = refl
remove_addr-Distinct addr (c ∷ cs) h = elim (Bool-cases (c.addr == addr)) [
  | inl hit ↦
      let same : c.addr ≡ addr = (==_iff c.addr addr).0 hit in
      rw (hit, unlink_orphan-Absent addr cs (subst (λ a. Absent a cs) same h.0))
        (ap (λ n. ok (record { cache = cs; cache_size = n })) (omega arith))
  | inr miss ↦
      let (l, d) = unlink-without addr cs in
      let size : dropped (unlink addr cs).1 (suc (length cs)) ≡ suc (length (without addr cs)) =
        dropped-suc (unlink addr cs).1 (length cs) (unlink_found addr cs) ∙ ap suc d in
      rw (miss, l, size) refl
]

-- The last node leaves a list of two or more.
drop_last-take :
    (x y : CachedNode) (cs : List CachedNode)
    → drop_last (x ∷ y ∷ cs) ≡ ok (x ∷ take (length cs) (y ∷ cs))
unfolding drop_last
drop_last-take x y [] = refl
drop_last-take x y (z ∷ cs) = rw (drop_last-take y z cs) refl

drop_last-over :
    (limit : ℕ) (cs : List CachedNode)
    → 0 < limit
    → length cs ≡ limit + 1
    → drop_last cs ≡ ok (take limit cs)
drop_last-over limit [] room over = absurd (omega arith)
drop_last-over limit (x ∷ []) room over = absurd (omega arith)
drop_last-over limit (x ∷ y ∷ cs) room over =
    let e : limit ≡ suc (length cs) = omega arith in rw e (drop_last-take x y cs)

-- One node too many is cut off.
trim-take :
    (limit : ℕ) (cs : List CachedNode)
    → 0 < limit
    → length cs ≤ limit + 1
    → trim limit cs (length cs)
      ≡ ok (record { cache = take limit cs; cache_size = length (take limit cs) })
trim-take limit cs room fits = elim (Bool-cases (ltb limit (length cs))) [
  | inr small ↦ rw (small, take_of_length-le limit cs (ltb-false limit (length cs) small)) refl
  | inl big ↦
      let over : length cs ≡ limit + 1 = omega (arith, ltb→lt limit (length cs) big) in
      let size : length cs - 1 ≡ length (take limit cs) = omega (arith, length-take limit cs) in
      rw (big, drop_last-over limit cs room over, size) refl
]

length-without : (addr : ℕ) (cs : List CachedNode) → length (without addr cs) ≤ length cs
length-without addr [] = omega arith
length-without addr (c ∷ cs) = ground (arith, length-without addr cs)

-- What add_to_cache stores.
abbrev pub copied : ℕ → Node → CachedNode
copied addr node = record { addr = addr; node = cpy_node node }

-- The cache after add_to_cache: the copy in front, its address gone behind, the rest cut at the
-- limit.
pub add_to_cache-take :
    (limit : ℕ) (node : Node) (addr : ℕ) (c : NodeCache)
    → IsCache limit c
    → add_to_cache limit node addr c
      ≡ ok (record {
        cache = take limit (copied addr node ∷ without addr c.cache);
        cache_size = length (take limit (copied addr node ∷ without addr c.cache));
      })
unfolding add_to_cache
add_to_cache-take limit node addr c h =
    let e : remove_addr addr c.cache_size c.cache
        ≡ ok (record { cache = without addr c.cache; cache_size = length (without addr c.cache) }) =
      rw (h.counted) (remove_addr-Distinct addr c.cache h.distinct) in
    let n : length (without addr c.cache) + 1 ≡ suc (length (without addr c.cache)) = omega arith in
    rw (e, n)
      (trim-take limit (copied addr node ∷ without addr c.cache) h.some_room
        (omega (arith, length-without addr c.cache, h.within)))

pub lookup-without_self :
    (addr : ℕ) (cs : List CachedNode) → Distinct cs → Absent addr (without addr cs)
lookup-without_self addr [] h = refl
lookup-without_self addr (c ∷ cs) h = elim (Bool-cases (c.addr == addr)) [
  | inl hit ↦ rw hit (subst (λ a. Absent a cs) ((==_iff c.addr addr).0 hit) h.0)
  | inr miss ↦ rw (miss, miss) (lookup-without_self addr cs h.1)
]

pub lookup-without :
    (addr other : ℕ) (cs : List CachedNode)
    → other ≢ addr
    → lookup other (without addr cs) ≡ lookup other cs
lookup-without addr other [] ne = refl
lookup-without addr other (c ∷ cs) ne = grind (arith, lookup-without addr other cs ne)

pub without-Distinct : (addr : ℕ) (cs : List CachedNode) → Distinct cs → Distinct (without addr cs)
without-Distinct addr [] h = tt
without-Distinct addr (c ∷ cs) h = elim (Bool-cases (c.addr == addr)) [
  | inl hit ↦ rw hit h.1
  | inr miss ↦
      let ne : c.addr ≢ addr = ground arith in
      rw miss (lookup-without addr c.addr cs ne ∙ h.0, without-Distinct addr cs h.1)
]

-- A node that the cut list holds is the one that the list holds.
pub lookup-take :
    (n other : ℕ) (cs : List CachedNode)
    → (lookup other (take n cs) ≡ lookup other cs) ⊎ Absent other (take n cs)
lookup-take zero other cs = inr refl
lookup-take (suc n) other [] = inr refl
lookup-take (suc n) other (c ∷ cs) = elim (Bool-cases (c.addr == other)) [
  | inl hit ↦ rw hit (inl refl)
  | inr miss ↦ rw miss (lookup-take n other cs)
]

take-Absent : (n other : ℕ) (cs : List CachedNode) → Absent other cs → Absent other (take n cs)
take-Absent n other cs h = elim (lookup-take n other cs) [ inl e ↦ e ∙ h | inr e ↦ e ]

pub take-Distinct : (n : ℕ) (cs : List CachedNode) → Distinct cs → Distinct (take n cs)
take-Distinct zero cs h = tt
take-Distinct (suc n) [] h = tt
take-Distinct (suc n) (c ∷ cs) h = (take-Absent n c.addr cs h.0, take-Distinct n cs h.1)
