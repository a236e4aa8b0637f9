-- ===== src/Disk/Store/Copies.antt =====
-- The cache (server-side/diskio/diskio.c) beside the nodes of the pages: every copy is the node of its
-- page.
use mathlib.Core.Option as Opt
use yacdb.Common.{
  ℕ, ◌≡◌, ◌≢◌, ◌⊎◌, inl, inr, refl, sym, ap, ◌∙◌, none, some, List, ◌∷◌, ◌==◌, ==_iff,
  if◌then◌else◌, Bool-cases, take, Option-cases,
}
use yacdb.Common.Memory.{ok}
use yacdb.Disk.{Node, cpy_node}
use yacdb.Disk.Cache.{CachedNode, NodeCache, add_to_cache, get_from_cache}
use yacdb.Disk.Cache.Laws.{lookup, IsCache, copied, without, lookup-take, lookup-without}
use yacdb.Disk.Cache.Recall.{add_to_cache-IsCache, get_from_cache-IsCache, absurd_bool}
use yacdb.Disk.Store.{Nodes, update}
use yacdb.Disk.Store.Fits.{FitsNode, cpy_node-FitsNode}

abbrev pub AreCopies : Nodes → List CachedNode → Type 0
AreCopies nodes cs = (q : ℕ) (n : Node) → lookup q cs ≡ some n → nodes q ≡ some n

abbrev pub AreFitting : Nodes → Type 0
AreFitting nodes = (q : ℕ) (n : Node) → nodes q ≡ some n → FitsNode n

pub some_injective {ℓ} : {A : Type ℓ} {a b : A} → some a ≡ some b → a ≡ b
some_injective h = cc

none-some : {n : Node} → none ≡ some n → ⊥
none-some h = cc

-- The lookups of a list that was changed at one address.
lookup-front :
    (p q : ℕ) (n : Node) (cs : List CachedNode)
    → lookup q (copied p n ∷ without p cs) ≡ (if p == q then some (cpy_node n) else lookup q cs)
lookup-front p q n cs = elim (Bool-cases (p == q)) [
  | inl same ↦ rw same refl
  | inr far ↦
      let ne : q ≢ p = λ e. absurd_bool far ((==_iff p q).1 (sym e)) in
      rw far (lookup-without p q cs ne)
]

-- add_to_cache of a node that fits.
pub add_to_cache-AreCopies :
    (limit : ℕ) (nodes : Nodes) (p : ℕ) (n : Node) (c : NodeCache)
    → IsCache limit c
    → AreCopies nodes c.cache
    → FitsNode n
    → (after : NodeCache) × (add_to_cache limit n p c ≡ ok after)
      × IsCache limit after
      × AreCopies (update nodes p n) after.cache
add_to_cache-AreCopies limit nodes p n c inv copies fits =
    let (after, added, shape, back) = add_to_cache-IsCache limit n p c inv in
    let all = copied p n ∷ without p c.cache in
    let kept : AreCopies (update nodes p n) all = λ q m e. elim (Bool-cases (p == q)) [
      | inl same ↦ rw same (
          ap some (sym (cpy_node-FitsNode n fits))
          ∙ (rw same at (sym (lookup-front p q n c.cache) ∙ e)))
      | inr far ↦ rw far (copies q m (rw far at (sym (lookup-front p q n c.cache) ∙ e)))
    ] in
    (
      after,
      added,
      back,
      λ q m e.
          let e' : lookup q (take limit all) ≡ some m = ap (lookup q) (sym shape) ∙ e in
          elim (lookup-take limit q all) [
            | inl whole ↦ kept q m (sym whole ∙ e')
            | inr gone ↦ absurd (none-some (sym gone ∙ e'))
          ],
    )

-- get_from_cache gives the node of the page or nothing, and the copies stay.
pub get_from_cache-AreCopies :
    (limit : ℕ) (nodes : Nodes) (p : ℕ) (n : Node) (c : NodeCache)
    → IsCache limit c
    → AreCopies nodes c.cache
    → AreFitting nodes
    → nodes p ≡ some n
    → (((get_from_cache p c).0 ≡ some n) ⊎ ((get_from_cache p c).0 ≡ none))
      × IsCache limit (get_from_cache p c).1
      × AreCopies nodes (get_from_cache p c).1.cache
get_from_cache-AreCopies limit nodes p n c inv copies fitting held =
    let (read, back, _) = get_from_cache-IsCache limit p p c inv in
    (
      elim (Option-cases (lookup p c.cache)) [
        | inl gone ↦ inr (read ∙ ap (Opt.map cpy_node) gone)
        | inr (m, found) ↦
            let same : m ≡ n = some_injective (sym (copies p m found) ∙ held) in
            inl (
              read
              ∙ ap (Opt.map cpy_node) found
              ∙ ap some (cpy_node-FitsNode m (fitting p m (copies p m found)) ∙ same))
      ],
      back,
      λ q m e. copies q m (sym ((get_from_cache-IsCache limit p q c inv).2) ∙ e),
    )
