-- ===== src/Tests.antt =====
-- Runs of the parser (server-side/parser/parser.c) on inputs that can be followed in the source; the
-- modules below hold instances of the theorems at concrete inputs.
mod Rows
mod Parsing
mod Pages
mod Tables
mod Splits
mod Missing
mod Runs
mod Serving
mod Trees
mod MemoryStore
mod Selections
use yacdb.Common.{some, [], ◌∷◌, ◌≡◌, refl}
use yacdb.Common.Text.{codes}
use yacdb.Common.Memory.{ok, fault}
use yacdb.Parser.{unknown_instr, sel_instr, crt_instr, add_instr}
use yacdb.Parser.Lex.{
  is_alphanum, is_int, remove_spaces, scan, parse_ident, parse_value, parse_comma, parse_equalsign,
  strip_prefix, parse_datatype, instrtype_loop, parse_instrtype, parse_expected_keyword,
  parse_condition,
}
use yacdb.Parser.Lists.{
  count_step, count_loop, count_comma_list, ident_loop, parse_comma_list, parse_pair, pair_loop,
  parse_pair_list, parse_columndef_list, parse_addvalue_list,
}
use yacdb.Parser.Instructions.{
  parse_columns, parse_where, parse_selinstr, parse_crtinstr, parse_addinstr, parse_instr,
  instr_loop, parse_user_input,
}

-- What a run computes through.
program : Unit {0}
unfolding is_alphanum is_int remove_spaces scan parse_ident parse_value parse_comma parse_equalsign
    strip_prefix parse_datatype instrtype_loop parse_instrtype parse_expected_keyword
    parse_condition count_step count_loop count_comma_list ident_loop parse_comma_list parse_pair
    pair_loop parse_pair_list parse_columndef_list parse_addvalue_list parse_columns parse_where
    parse_selinstr parse_crtinstr parse_addinstr parse_instr instr_loop parse_user_input
program = tt

parse_examples :
    (parse_instr (codes "sel hobby, age from users where name=\"Joe\"")
      ≡ ok (
          sel_instr (record {
            table = codes "users";
            columns = codes "hobby" ∷ codes "age" ∷ [];
            cond = some (record { col = codes "name"; val = codes "Joe" });
          })))
    × (parse_user_input
          (codes "crt users with name=string, age=int; add name=\"Joe\", age=42 in users;")
        ≡ ok (
            crt_instr (record {
              table = codes "users";
              columns = codes "name" ∷ codes "age" ∷ [];
              types = codes "string" ∷ codes "int" ∷ [];
            })
            ∷ add_instr (record {
              table = codes "users";
              columns = codes "name" ∷ codes "age" ∷ [];
              values = codes "Joe" ∷ codes "42" ∷ [];
            })
            ∷ []))
    × (parse_instr (codes "sel first_name from users") ≡ fault)
    × (parse_instr (codes "del a from b") ≡ ok unknown_instr)
unfolding program
parse_examples = (refl, refl, refl, refl)
