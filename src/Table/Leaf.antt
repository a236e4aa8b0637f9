-- ===== src/Table/Leaf.antt =====
-- One leaf of a B+-tree replaced by another (server-side/schema/cursor.c): the nodes, the order and the
-- rows of the tree.
use Prim.Native.Nat.{max}
use yacdb.Common.{
  ℕ, suc, ◌≡◌, ◌≢◌, refl, sym, ap, ◌∙◌, some, List, [], ◌∷◌, ◌++◌, ltb, ◌==◌, ==_iff, if◌then◌else◌,
  Bool-cases, inl, inr, All, All-append,
}
use yacdb.Disk.{Node}
use yacdb.Disk.Pages.Chain.{NotIn}
use yacdb.Disk.Cache.Recall.{absurd_bool}
use yacdb.Disk.Store.{Nodes, update}
use yacdb.Table.Shape.{
  Shape, Shapes, leaf, branch, last, more, root_page, separators, child_pages, IsHeld, AreHeld,
  height, heights, leaf_of, leaf_of_picked,
}

abbrev mutual
  -- The pages of the tree.
  pub pages_of : Shape → List ℕ
  pages_of (leaf p n) = p ∷ []
  pages_of (branch p n ts) = p ∷ all_pages ts

  pub all_pages : Shapes → List ℕ
  all_pages (last t) = pages_of t
  all_pages (more t k ts) = pages_of t ++ all_pages ts

abbrev mutual
  -- No page serves twice.
  pub IsApart : Shape → Type 0
  IsApart (leaf p n) = Unit {0}
  IsApart (branch p n ts) = NotIn p (all_pages ts) × AreApart ts

  pub AreApart : Shapes → Type 0
  AreApart (last t) = IsApart t
  AreApart (more t k ts) =
      IsApart t
      × AreApart ts
      × All (λ p. NotIn p (all_pages ts)) (pages_of t)
      × All (λ p. NotIn p (pages_of t)) (all_pages ts)

abbrev mutual
  -- The tree with another node in place of the leaf that the key belongs to.
  pub with_leaf : ℕ → Node → Shape → Shape
  with_leaf key m (leaf p n) = leaf p m
  with_leaf key m (branch p n ts) = branch p n (with_leaf_picked key m ts)

  pub with_leaf_picked : ℕ → Node → Shapes → Shapes
  with_leaf_picked key m (last t) = last (with_leaf key m t)
  with_leaf_picked key m (more t k ts) =
      let here = more (with_leaf key m t) k ts in
      let behind = more t k (with_leaf_picked key m ts) in if ltb key k then here else behind

module _ (key : ℕ) (m : Node) where
  pub root_page-with_leaf : (t : Shape) → root_page (with_leaf key m t) ≡ root_page t
  root_page-with_leaf (leaf p n) = refl
  root_page-with_leaf (branch p n ts) = refl

  pub child_pages-with_leaf :
      (ts : Shapes) → child_pages (with_leaf_picked key m ts) ≡ child_pages ts
  child_pages-with_leaf (last t) = ap (λ p. p ∷ []) (root_page-with_leaf t)
  child_pages-with_leaf (more t k ts) = elim (Bool-cases (ltb key k)) [
    | inl left ↦ rw left (ap (λ p. p ∷ child_pages ts) (root_page-with_leaf t))
    | inr right ↦ rw right (ap (λ ps. root_page t ∷ ps) (child_pages-with_leaf ts))
  ]

  pub separators-with_leaf : (ts : Shapes) → separators (with_leaf_picked key m ts) ≡ separators ts
  separators-with_leaf (last t) = refl
  separators-with_leaf (more t k ts) = elim (Bool-cases (ltb key k)) [
    | inl left ↦ rw left refl
    | inr right ↦ rw right (ap (λ ks. k ∷ ks) (separators-with_leaf ts))
  ]

  mutual
    pub height-with_leaf : (t : Shape) → height (with_leaf key m t) ≡ height t
    height-with_leaf (leaf p n) = refl
    height-with_leaf (branch p n ts) = ap (λ h. suc h) (heights-with_leaf ts)

    heights-with_leaf : (ts : Shapes) → heights (with_leaf_picked key m ts) ≡ heights ts
    heights-with_leaf (last t) = height-with_leaf t
    heights-with_leaf (more t k ts) = elim (Bool-cases (ltb key k)) [
      | inl left ↦ rw left (ap (λ h. max h (heights ts)) (height-with_leaf t))
      | inr right ↦ rw right (ap (λ h. max (height t) h) (heights-with_leaf ts))
    ]

  mutual
    pub leaf_of-with_leaf : (t : Shape) → leaf_of key (with_leaf key m t) ≡ ((leaf_of key t).0, m)
    leaf_of-with_leaf (leaf p n) = refl
    leaf_of-with_leaf (branch p n ts) = leaf_of_picked-with_leaf ts

    leaf_of_picked-with_leaf :
        (ts : Shapes)
        → leaf_of_picked key (with_leaf_picked key m ts) ≡ ((leaf_of_picked key ts).0, m)
    leaf_of_picked-with_leaf (last t) = leaf_of-with_leaf t
    leaf_of_picked-with_leaf (more t k ts) = elim (Bool-cases (ltb key k)) [
      | inl left ↦ rw (left, left) (leaf_of-with_leaf t)
      | inr right ↦ rw (right, right) (leaf_of_picked-with_leaf ts)
    ]

module _ (key : ℕ) (m : Node) where
  mutual
    pages_of-with_leaf : (t : Shape) → pages_of (with_leaf key m t) ≡ pages_of t
    pages_of-with_leaf (leaf p n) = refl
    pages_of-with_leaf (branch p n ts) = ap (λ ps. p ∷ ps) (all_pages-with_leaf ts)

    all_pages-with_leaf : (ts : Shapes) → all_pages (with_leaf_picked key m ts) ≡ all_pages ts
    all_pages-with_leaf (last t) = pages_of-with_leaf t
    all_pages-with_leaf (more t k ts) = elim (Bool-cases (ltb key k)) [
      | inl left ↦ rw left (ap (λ ps. ps ++ all_pages ts) (pages_of-with_leaf t))
      | inr right ↦ rw right (ap (λ ps. pages_of t ++ ps) (all_pages-with_leaf ts))
    ]

  mutual
    pub with_leaf-IsApart : (t : Shape) → IsApart t → IsApart (with_leaf key m t)
    with_leaf-IsApart (leaf p n) h = tt
    with_leaf-IsApart (branch p n ts) h =
        (rw (all_pages-with_leaf ts) h.0, with_leaf-AreApart ts h.1)

    with_leaf-AreApart : (ts : Shapes) → AreApart ts → AreApart (with_leaf_picked key m ts)
    with_leaf-AreApart (last t) h = with_leaf-IsApart t h
    with_leaf-AreApart (more t k ts) (one, others, after, before) = elim (Bool-cases (ltb key k)) [
      | inl left ↦ rw (left, pages_of-with_leaf t) (with_leaf-IsApart t one, others, after, before)
      | inr right ↦
          rw (right, all_pages-with_leaf ts) (one, with_leaf-AreApart ts others, after, before)
    ]

mutual
  pub All-leaf_of {κ} :
      (P : ℕ → Type κ) (key : ℕ) (t : Shape) → All P (pages_of t) → P (leaf_of key t).0
  All-leaf_of P key (leaf p n) h = h.0
  All-leaf_of P key (branch p n ts) h = All-leaf_of_picked P key ts h.1

  pub All-leaf_of_picked {κ} :
      (P : ℕ → Type κ) (key : ℕ) (ts : Shapes) → All P (all_pages ts) → P (leaf_of_picked key ts).0
  All-leaf_of_picked P key (last t) h = All-leaf_of P key t h
  All-leaf_of_picked P key (more t k ts) h =
      let (here, behind) = All-append P (pages_of t) (all_pages ts) h in
      elim (Bool-cases (ltb key k)) [
        | inl left ↦ rw left (All-leaf_of P key t here)
        | inr right ↦ rw right (All-leaf_of_picked P key ts behind)
      ]

pub update_other : (nodes : Nodes) (p q : ℕ) (m : Node) → q ≢ p → update nodes p m q ≡ nodes q
update_other nodes p q m far = elim (Bool-cases (p == q)) [
  | inl same ↦ absurd (far (sym ((==_iff p q).0 same)))
  | inr other ↦ rw other refl
]

pub update_same : (nodes : Nodes) (p : ℕ) (m : Node) → update nodes p m p ≡ some m
update_same nodes p m = elim (Bool-cases (p == p)) [
  | inl same ↦ rw same refl
  | inr other ↦ absurd (absurd_bool other ((==_iff p p).1 refl))
]

-- A page that is not one of the tree's is written.
mutual
  pub update-IsHeld :
      (nodes : Nodes) (p : ℕ) (m : Node) (t : Shape)
      → NotIn p (pages_of t)
      → IsHeld nodes t
      → IsHeld (update nodes p m) t
  update-IsHeld nodes p m (leaf q n) out h = (update_other nodes p q m out.0 ∙ h.0, h.1)
  update-IsHeld nodes p m (branch q n ts) out (h, inner, same, at, below) =
      (update_other nodes p q m out.0 ∙ h, inner, same, at, update-AreHeld nodes p m ts out.1 below)

  pub update-AreHeld :
      (nodes : Nodes) (p : ℕ) (m : Node) (ts : Shapes)
      → NotIn p (all_pages ts)
      → AreHeld nodes ts
      → AreHeld (update nodes p m) ts
  update-AreHeld nodes p m (last t) out h = update-IsHeld nodes p m t out h
  update-AreHeld nodes p m (more t k ts) out h =
      let (here, behind) = All-append (λ q. q ≢ p) (pages_of t) (all_pages ts) out in
      (update-IsHeld nodes p m t here h.0, update-AreHeld nodes p m ts behind h.1)
