-- ===== src/Disk/Image/Fields.antt =====
-- Members of a structure in a page (server-side/diskio/diskio.c), read where they were written.
use mathlib.Core.List.{append_assoc}
use yacdb.Common.{
  ℕ, ◌+◌, ◌^◌, ◌<◌, ◌≡◌, refl, List, [], ◌∷◌, ◌++◌, length, Bytes, le_bytes, arith, length-append,
  length-le_bytes, from_le-le_bytes, subst, some,
}
use yacdb.Common.Memory.{Result, ok, load, load-append}
use yacdb.Disk.{PageType, table_leaf, table_interior, index_leaf, index_interior, page_type_code}
use yacdb.Disk.Image.{fields, load_le, btree_header, page_type_of, read_image, read_typed}

abbrev pub width : List (ℕ × ℕ) → ℕ
width [] = 0
width ((w, v) ∷ fs) = w + width fs

pub length-fields :
    (fs : List (ℕ × ℕ)) (rest : Bytes) → length (fields fs rest) ≡ width fs + length rest
length-fields [] rest = omega arith
length-fields ((w, v) ∷ fs) rest = omega (
  arith,
  length-append (le_bytes w v) (fields fs rest),
  length-le_bytes w v,
  length-fields fs rest,
)

-- A member of given width, behind others.
pub load_le-fields :
    (pre : Bytes) (before : List (ℕ × ℕ)) (w v : ℕ) (after : List (ℕ × ℕ)) (rest : Bytes) (offs : ℕ)
    → offs ≡ length pre + width before
    → v < 256 ^ w
    → load_le (pre ++ fields (before ++ (w, v) ∷ after) rest) offs w ≡ ok v
unfolding load_le
load_le-fields pre [] w v after rest offs e h =
    let at : offs ≡ length pre = omega arith in
    let read : load (pre ++ (le_bytes w v ++ fields after rest)) offs w ≡ ok (le_bytes w v) =
      rw at (
        subst
          (λ n.
            load (pre ++ (le_bytes w v ++ fields after rest)) (length pre) n ≡ ok (le_bytes w v))
          (length-le_bytes w v) (load-append pre (le_bytes w v) (fields after rest))) in
    rw (read, from_le-le_bytes w v h) refl
load_le-fields pre ((w', v') ∷ before) w v after rest offs e h =
    rw (← append_assoc pre (le_bytes w' v') (fields (before ++ (w, v) ∷ after) rest)) (
      load_le-fields (pre ++ le_bytes w' v') before w v after rest offs
        (omega (arith, length-append pre (le_bytes w' v'), length-le_bytes w' v')) h)

page_type_of-page_type_code : (t : PageType) → page_type_of (page_type_code t) ≡ some t
page_type_of-page_type_code table_leaf = refl
page_type_of-page_type_code table_interior = refl
page_type_of-page_type_code index_leaf = refl
page_type_of-page_type_code index_interior = refl

page_type_code-lt : (t : PageType) → page_type_code t < 256 ^ 4
page_type_code-lt table_leaf = omega arith
page_type_code-lt table_interior = omega arith
page_type_code-lt index_leaf = omega arith
page_type_code-lt index_interior = omega arith

-- read_node reads the header that write_ti_node and write_tl_node write.
pub read_image-btree_header :
    (get_tl_overflow : ℕ → Result Bytes) (page_size parent : ℕ) (t : PageType) (cells right : ℕ)
    (rest : Bytes)
    → parent < 2 ^ 64
    → cells < 2 ^ 16
    → right < 2 ^ 64
    → let page = fields (btree_header parent t cells right) rest in
      read_image get_tl_overflow page_size page
      ≡ read_typed get_tl_overflow page_size page parent cells right (some t)
unfolding read_image
read_image-btree_header get_tl_overflow page_size parent t cells right rest hp hc hr =
    let page = fields (btree_header parent t cells right) rest in
    let e0 : load_le page 0 8 ≡ ok parent =
      load_le-fields [] [] 8 parent ((4, page_type_code t) ∷ (2, cells) ∷ (2, 0) ∷ (8, right) ∷ [])
        rest 0 refl hp in
    let e1 : load_le page 8 4 ≡ ok (page_type_code t) =
      load_le-fields [] ((8, parent) ∷ []) 4 (page_type_code t)
        ((2, cells) ∷ (2, 0) ∷ (8, right) ∷ []) rest 8 refl (page_type_code-lt t) in
    let e2 : load_le page 12 2 ≡ ok cells =
      load_le-fields [] ((8, parent) ∷ (4, page_type_code t) ∷ []) 2 cells
        ((2, 0) ∷ (8, right) ∷ []) rest 12 refl hc in
    let e3 : load_le page 16 8 ≡ ok right =
      load_le-fields [] ((8, parent) ∷ (4, page_type_code t) ∷ (2, cells) ∷ (2, 0) ∷ []) 8 right []
        rest 16 refl hr in
    rw (e0, e1, e2, e3, page_type_of-page_type_code t) refl
