-- ===== src/Disk/Cache/Recall.antt =====
-- add_to_cache and get_from_cache (server-side/diskio/diskio.c): what a client reads back.
use yacdb.Common.{
  ℕ, zero, suc, ◌+◌, ◌-◌, ◌<◌, ◌≡◌, ◌≢◌, ◌⊎◌, refl, sym, ap, ◌∙◌, subst, inl, inr, Bool, true,
  false, none, some, List, [], ◌∷◌, ◌==◌, ==_iff, Bool-cases, length, take, replicate, arith,
  length-take, take-append,
}
use mathlib.Core.Option as Opt
use yacdb.Common.Memory.{ok, ok_injective}
use yacdb.Disk.{Node, cpy_node, nb_keys, order}
use yacdb.Disk.Cache.{
  CachedNode, NodeCache, add_to_cache, find_behind, get_from_list, get_from_cache,
}
use yacdb.Disk.Cache.Laws.{
  lookup, Absent, without, IsCache, copied, add_to_cache-take, take-Distinct, lookup-take,
  lookup-without_self, lookup-without, without-Distinct,
}

-- cpy_node copies what it copied.
cpy_node-cpy_node :
    (n : Node) → nb_keys n < length n.child_addrs → cpy_node (cpy_node n) ≡ cpy_node n
unfolding cpy_node
cpy_node-cpy_node n h =
    let e : length (take (nb_keys n + 1) n.child_addrs) ≡ nb_keys n + 1 =
      omega (arith, length-take (nb_keys n + 1) n.child_addrs) in
    rw
      (take-append (nb_keys n + 1) (take (nb_keys n + 1) n.child_addrs)
        (replicate (order + 2 - (nb_keys n + 1)) 0) e)
      refl

-- A cache without an address twice, no longer than its counter says nor than `default_cache_size`
-- (at least one), stays one when a node is added: the call is not undefined, the copy stands in
-- front, an older entry of its address is gone, and the list is cut at the limit.
pub add_to_cache-IsCache :
    (limit : ℕ) (node : Node) (addr : ℕ) (c : NodeCache)
    → IsCache limit c
    → (after : NodeCache) × (add_to_cache limit node addr c ≡ ok after)
      × (after.cache ≡ take limit (copied addr node ∷ without addr c.cache))
      × IsCache limit after
add_to_cache-IsCache limit node addr c h =
    let all = copied addr node ∷ without addr c.cache in
    (
      record { cache = take limit all; cache_size = length (take limit all) },
      add_to_cache-take limit node addr c h,
      refl,
      record {
        distinct =
            take-Distinct limit all (
              lookup-without_self addr c.cache h.distinct,
              without-Distinct addr c.cache h.distinct,
            );
        counted = refl;
        within = omega (arith, length-take limit all);
        some_room = h.some_room;
      },
    )

-- What find_behind finds.
record IsFound (addr : ℕ) (cs : List CachedNode) (found : CachedNode) : Type 0 where
  is_at : found.addr ≡ addr
  found_behind : find_behind addr cs ≡ some (found, without addr cs)
  found_first : lookup addr cs ≡ some found.node
  one_less : length cs ≡ suc (length (without addr cs))

find_behind-cases :
    (addr : ℕ) (cs : List CachedNode)
    → ((find_behind addr cs ≡ none) × (lookup addr cs ≡ none))
      ⊎ ((found : CachedNode) × IsFound addr cs found)
unfolding find_behind
find_behind-cases addr [] = inl (refl, refl)
find_behind-cases addr (c ∷ cs) = elim (find_behind-cases addr cs) [
  | inl (none_behind, absent) ↦ elim (Bool-cases (c.addr == addr)) [
    | inl hit ↦ inr (
      c,
      record {
        is_at = (==_iff c.addr addr).0 hit;
        found_behind = rw (none_behind, hit) refl;
        found_first = rw hit refl;
        one_less = rw hit refl;
      },
    )
    | inr miss ↦ inl (rw (none_behind, miss) refl, rw (miss, absent) refl)
  ]
  | inr (found, f) ↦ elim (Bool-cases (c.addr == addr)) [
    | inl hit ↦ inr (
      c,
      record {
        is_at = (==_iff c.addr addr).0 hit;
        found_behind = rw (f.found_behind, hit) refl;
        found_first = rw hit refl;
        one_less = rw hit refl;
      },
    )
    | inr miss ↦ inr (
      found,
      record {
        is_at = f.is_at;
        found_behind = rw (f.found_behind, miss) refl;
        found_first = rw (miss, f.found_first) refl;
        one_less = rw miss (ap suc f.one_less);
      },
    )
  ]
]

pub absurd_bool : {b : Bool} → b ≡ false → b ≡ true → ⊥
absurd_bool h k = absurd cc

-- The node that is moved to the front is what a lookup of any address sees before and after.
lookup-moved :
    (addr other : ℕ) (x : CachedNode) (cs : List CachedNode) (found : CachedNode)
    → IsFound addr cs found
    → (x.addr == addr) ≡ false
    → lookup other (found ∷ x ∷ without addr cs) ≡ lookup other (x ∷ cs)
lookup-moved addr other x cs found f miss = elim (Bool-cases (found.addr == other)) [
  | inl hit ↦
      let same : addr ≡ other = sym f.is_at ∙ (==_iff found.addr other).0 hit in
      let away : (x.addr == other) ≡ false = rw (← same) miss in
      rw (hit, away) (sym (subst (λ a. lookup a cs ≡ some found.node) same f.found_first))
  | inr far ↦
      let ne : other ≢ addr =
        λ e. absurd_bool far ((==_iff found.addr other).1 (f.is_at ∙ sym e)) in
      rw (far, lookup-without addr other cs ne) refl
]

-- The moved node leaves an invariant cache.
moved-IsCache :
    (limit addr : ℕ) (x : CachedNode) (cs : List CachedNode) (size : ℕ) (found : CachedNode)
    → IsFound addr cs found
    → (x.addr == addr) ≡ false
    → IsCache limit (record { cache = x ∷ cs; cache_size = size })
    → IsCache limit (record { cache = found ∷ x ∷ without addr cs; cache_size = size })
moved-IsCache limit addr x cs size found f miss k =
    let away : x.addr ≢ addr = λ e. absurd_bool miss ((==_iff x.addr addr).1 e) in
    let behind : Absent addr (x ∷ without addr cs) =
      rw miss (lookup-without_self addr cs k.distinct.1) in
    record {
      distinct = (
        subst (λ a. Absent a (x ∷ without addr cs)) (sym f.is_at) behind,
        (lookup-without addr x.addr cs away ∙ k.distinct.0, without-Distinct addr cs k.distinct.1),
      );
      counted = k.counted ∙ ap suc f.one_less;
      within = omega (arith, k.within, f.one_less);
      some_room = k.some_room;
    }

get_from_list-IsCache :
    (limit : ℕ) (addr : ℕ) (cs : List CachedNode) (size : ℕ)
    → IsCache limit (record { cache = cs; cache_size = size })
    → ((get_from_list addr size cs).0 ≡ Opt.map cpy_node (lookup addr cs))
      × IsCache limit (get_from_list addr size cs).1
      × ((other : ℕ) → lookup other (get_from_list addr size cs).1.cache ≡ lookup other cs)
unfolding get_from_list
get_from_list-IsCache limit addr [] size k = (refl, k, λ other. refl)
get_from_list-IsCache limit addr (x ∷ xs) size k = elim (Bool-cases (x.addr == addr)) [
  | inl hit ↦ rw hit (refl, k, λ other. refl)
  | inr miss ↦ elim (find_behind-cases addr xs) [
    | inl (none_behind, gone) ↦ rw (miss, none_behind, gone) (refl, k, λ other. refl)
    | inr (found, f) ↦
        rw (miss, f.found_behind, f.found_first)
          (
            refl,
            moved-IsCache limit addr x xs size found f miss k,
            λ other. lookup-moved addr other x xs found f miss,
          )
  ]
]

-- A read through a cache without an address twice, within its limit, returns the copy of the node
-- cached for the address or nothing, and leaves such a cache, which holds for every other address
-- and this one the same node as before.
pub get_from_cache-IsCache :
    (limit addr other : ℕ) (c : NodeCache)
    → IsCache limit c
    → ((get_from_cache addr c).0 ≡ Opt.map cpy_node (lookup addr c.cache))
      × IsCache limit (get_from_cache addr c).1
      × (lookup other (get_from_cache addr c).1.cache ≡ lookup other c.cache)
unfolding get_from_cache
get_from_cache-IsCache limit addr other c h =
    let (read, inv, kept) = get_from_list-IsCache limit addr c.cache c.cache_size h in
    (read, inv, kept other)

take_front :
    (limit : ℕ) (x : CachedNode) (cs : List CachedNode)
    → 0 < limit
    → lookup x.addr (take limit (x ∷ cs)) ≡ some x.node
take_front zero x cs h = absurd (omega arith)
take_front (suc n) x cs h = ground arith

-- A cached node is read back: after add_to_cache of a node whose array holds `nb_keys + 1`
-- addresses, get_from_cache returns its copy. The cache before has no address twice and is within
-- its limit.
pub get_from_cache-add_to_cache :
    (limit : ℕ) (node : Node) (addr : ℕ) (c after : NodeCache)
    → IsCache limit c
    → nb_keys node < length node.child_addrs
    → add_to_cache limit node addr c ≡ ok after
    → (get_from_cache addr after).0 ≡ some (cpy_node node)
get_from_cache-add_to_cache limit node addr c after h wide e =
    let (a, added, shape, inv) = add_to_cache-IsCache limit node addr c h in
    let same : a ≡ after = ok_injective (sym added ∙ e) in
    let held : lookup addr after.cache ≡ some (cpy_node node) =
      rw (← same, shape) (take_front limit (copied addr node) _ h.some_room) in
    (get_from_cache-IsCache limit addr addr after (subst (IsCache limit) same inv)).0
    ∙ ap (Opt.map cpy_node) held
    ∙ ap some (cpy_node-cpy_node node wide)

-- add_to_cache never changes what get_from_cache returns for another address, unless the node for
-- it was evicted and nothing is returned. The cache before has no address twice and is within its
-- limit.
pub get_from_cache-add_to_cache_other :
    (limit : ℕ) (node : Node) (addr other : ℕ) (c after : NodeCache)
    → IsCache limit c
    → other ≢ addr
    → add_to_cache limit node addr c ≡ ok after
    → ((get_from_cache other after).0 ≡ (get_from_cache other c).0)
      ⊎ ((get_from_cache other after).0 ≡ none)
get_from_cache-add_to_cache_other limit node addr other c after h ne e =
    let (a, added, shape, inv) = add_to_cache-IsCache limit node addr c h in
    let same : a ≡ after = ok_injective (sym added ∙ e) in
    let read : (get_from_cache other after).0 ≡ Opt.map cpy_node (lookup other after.cache) =
      (get_from_cache-IsCache limit other other after (subst (IsCache limit) same inv)).0 in
    let before : (get_from_cache other c).0 ≡ Opt.map cpy_node (lookup other c.cache) =
      (get_from_cache-IsCache limit other other c h).0 in
    let all = copied addr node ∷ without addr c.cache in
    let cut : after.cache ≡ take limit all = rw (← same) shape in
    let far : (addr == other) ≡ false = grind arith in
    let seen : lookup other all ≡ lookup other c.cache =
      rw far (lookup-without addr other c.cache ne) in
    elim (lookup-take limit other all) [
      | inl k ↦ inl (read ∙ ap (Opt.map cpy_node) (ap (lookup other) cut ∙ k ∙ seen) ∙ sym before)
      | inr gone ↦ inr (read ∙ ap (Opt.map cpy_node) (ap (lookup other) cut ∙ gone))
    ]
