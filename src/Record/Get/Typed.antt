-- ===== src/Record/Get/Typed.antt =====
-- The records of a row, whatever its bytes are, and the getters on them (server-side/schema/record.c).
use yacdb.Common.{
  ℕ, ◌+◌, ◌<◌, ◌≡◌, ◌≢◌, refl, ap, ◌∙◌, true, false, Bool-cases, inl, inr, Bytes, length, take,
  drop, length-take, length-drop, leb, leb→le, le→leb, ◌==◌, ==_iff, subst, arith,
}
use yacdb.Common.Memory.{Result, ok, failed, fault, ◌>>=◌, load, load_byte, ok_injective}
use yacdb.Record.{Record, IsRecord, record_size, record_type_size, size_max}
use yacdb.Record.Compress.{offset_loop, read_payload, extract_record}
use yacdb.Record.Get.{read_number, record_get_char, record_get_short, record_get_long}

-- A chain that returns passed its first call.
bind_ok :
    {A B : Type 0} (m : Result A) (f : A → Result B) (b : B)
    → (do a ← m; f a) ≡ ok b
    → (a : A) × (m ≡ ok a) × (f a ≡ ok b)
bind_ok (ok a) f b e = (a, refl, e)
bind_ok failed f b e = cc
bind_ok fault f b e = cc

load-length :
    (buffer : Bytes) (offs n : ℕ) (bytes : Bytes) → load buffer offs n ≡ ok bytes → length bytes ≡ n
unfolding load
load-length buffer offs n bytes e = elim (Bool-cases (leb (offs + n) (length buffer))) [
  | inl inside ↦
      let same : take n (drop offs buffer) ≡ bytes = ok_injective (rw inside at e) in
      omega (
        arith,
        ap length same,
        leb→le _ _ inside,
        length-take n (drop offs buffer),
        length-drop offs buffer,
      )
  | inr outside ↦ let bad : fault ≡ ok bytes = rw outside at e in cc
]

-- No type of 128 or more, which is negative as a char, has a size.
type_positive : (type : ℕ) → (record_type_size type == size_max) ≡ false → type < 128
unfolding record_type_size
type_positive type h = ground arith

read_payload-IsRecord :
    (type offs : ℕ) (buffer : Bytes) (r : Record)
    → read_payload type (record_type_size type) offs buffer ≡ ok r
    → IsRecord r
unfolding read_payload record_size
read_payload-IsRecord type offs buffer r e = elim (Bool-cases (record_type_size type == size_max)) [
  | inl none ↦ let bad : failed ≡ ok r = rw none at e in cc
  | inr sized ↦
      let (bytes, loaded, made) =
        bind_ok (load buffer (offs + 1) (record_type_size type)) _ r (rw sized at e) in
      subst IsRecord (ok_injective made) (record {
        positive = type_positive type sized;
        sized = load-length buffer (offs + 1) (record_type_size type) bytes loaded;
      })
]

extracted-IsRecord :
    (buffer : Bytes) (n : ℕ) (r : Record) → extract_record buffer n ≡ ok r → IsRecord r
unfolding extract_record
extracted-IsRecord buffer n r e =
    let (offs, _, rest) = bind_ok (offset_loop n buffer 0) _ r e in
    let (type, _, payload) = bind_ok (load_byte buffer offs) _ r rest in
    read_payload-IsRecord type offs buffer r payload

read_number-sized : (w : ℕ) (r : Record) → length r.payload ≡ w → read_number w r ≢ fault
unfolding read_number load
read_number-sized w r h e =
    let fits : leb (0 + w) (length r.payload) ≡ true = le→leb _ _ (omega (arith, h)) in
    let bad : ok _ ≡ fault = rw fits at e in cc

size_of :
    (r : Record) (type size : ℕ)
    → IsRecord r
    → (r.type == type) ≡ true
    → record_type_size type ≡ size
    → length r.payload ≡ size
unfolding record_size
size_of r type size h e s = h.sized ∙ ap record_type_size ((==_iff r.type type).0 e) ∙ s

record_get_long-safe : (r : Record) → IsRecord r → record_get_long r ≢ fault
unfolding record_get_long record_type_size
record_get_long-safe r h e = elim (Bool-cases (r.type == 4)) [
  | inl same ↦ read_number-sized 8 r (size_of r 4 8 h same refl) (ground (arith, same, e))
  | inr other ↦ ground (arith, other, e)
]

record_get_short-safe : (r : Record) → IsRecord r → record_get_short r ≢ fault
unfolding record_get_short record_type_size
record_get_short-safe r h e = elim (Bool-cases (r.type == 2)) [
  | inl same ↦ read_number-sized 2 r (size_of r 2 2 h same refl) (ground (arith, same, e))
  | inr other ↦ ground (arith, other, e)
]

record_get_char-safe : (r : Record) → IsRecord r → record_get_char r ≢ fault
unfolding record_get_char record_type_size
record_get_char-safe r h e = elim (Bool-cases (r.type == 1)) [
  | inl same ↦ read_number-sized 1 r (size_of r 1 1 h same refl) (ground (arith, same, e))
  | inr other ↦ ground (arith, other, e)
]

-- Whatever the bytes of a row are, a record that extract_record returns has a type below 128 and a payload
-- of the size that its type says, and the getters of longs, shorts and chars read nothing outside it:
-- they return a value or their error, also on a record of another type.
pub extract_record-IsRecord :
    (buffer : Bytes) (n : ℕ) (r : Record)
    → extract_record buffer n ≡ ok r
    → IsRecord r
      × (record_get_long r ≢ fault)
      × (record_get_short r ≢ fault)
      × (record_get_char r ≢ fault)
extract_record-IsRecord buffer n r e =
    let h = extracted-IsRecord buffer n r e in
    (h, record_get_long-safe r h, record_get_short-safe r h, record_get_char-safe r h)
