-- ===== src/Parser.antt =====
-- server-side/parser/include/instruction.h and parser.h: what the parser makes. A C string is the
-- list of its bytes before the terminator, and a parsing function takes the text from `*data` on,
-- and gives its value, `none` for 0 or NULL, beside the text from the new `*data` on. An array of
-- strings is a list, and its `size` the length. Messages on stderr and the release of memory are
-- left out.
pub mod Lex
pub mod Lists
pub mod Instructions
pub mod Format
pub mod Reading
pub mod Counting
pub mod RoundTrip
pub mod Faults
pub mod Sound
pub mod UserInput
use yacdb.Common.{ℕ, Option, none, some, List, Bytes}

pub data InstrType : Type 0 where
  sel upd del add crt drop unknown_instr_type : InstrType

pub data DataType : Type 0 where
  integer string unknown_data_type : DataType

-- `where`, `from`, `in`, `set` and `with`.
pub data Keyword : Type 0 where
  kw_where kw_from kw_in kw_set kw_with : Keyword

pub record Condition : Type 0 where
  pub col : Bytes
  pub val : Bytes

-- The condition is `none` where `has_cond` is 0.
pub record SelInstr : Type 0 where
  pub table : Bytes
  pub columns : List Bytes
  pub cond : Option Condition

pub record CrtInstr : Type 0 where
  pub table : Bytes
  pub columns : List Bytes
  pub types : List Bytes

pub record AddInstr : Type 0 where
  pub table : Bytes
  pub columns : List Bytes
  pub values : List Bytes

-- An `instr *`, by its type.
pub data Instr : Type 0 where
  sel_instr : SelInstr → Instr
  crt_instr : CrtInstr → Instr
  add_instr : AddInstr → Instr
  unknown_instr : Instr

-- The outcome of a parsing function: a value, and the text that is left.
abbrev pub Parsed {ℓ} : Type ℓ → Type ℓ
Parsed A = Option A × Bytes

-- RETURN_IF_NULL: what follows runs only on a value.
abbrev pub and_then {ℓ κ} : {A : Type ℓ} {B : Type κ} → Parsed A → (A → Bytes → Parsed B) → Parsed B
and_then (none, data') f = (none, data')
and_then (some a, data') f = f a data'
