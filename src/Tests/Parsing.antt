-- ===== src/Tests/Parsing.antt =====
-- Instructions with concrete names and values (server-side/parser/parser.c).
use yacdb.Common.{◌≡◌, refl, true, some, [], ◌∷◌, arith, All, length}
use yacdb.Common.Int.{pos}
use yacdb.Common.Text.{codes}
use yacdb.Common.Memory.{ok, fault}
use yacdb.Parser.{Condition, sel_instr, add_instr}
use yacdb.Parser.Lex.{is_alphanum}
use yacdb.Parser.Lists.{parse_comma_list, count_comma_list}
use yacdb.Parser.Instructions.{parse_instr, parse_user_input}
use yacdb.Parser.Format.{IsIdent, IsQuotable}
use yacdb.Parser.RoundTrip.Sel.{parse_instr-show_sel}
use yacdb.Parser.RoundTrip.CrtAdd.{parse_instr-show_add}
use yacdb.Parser.Faults.{is_forbidden, parse_instr_fault}
use yacdb.Parser.UserInput.{parse_each, parse_user_input-terminated}
use yacdb.Parser.Sound.{IsGood, parse_comma_list-IsGood}
use yacdb.Tests.{program}

name-IsIdent : IsIdent (codes "name")
unfolding is_alphanum
name-IsIdent = record {
  letters = (refl, (refl, (refl, (refl, tt))));
  some_letter = omega arith;
  short = omega arith;
}

age-IsIdent : IsIdent (codes "age")
unfolding is_alphanum
age-IsIdent = record {
  letters = (refl, (refl, (refl, tt)));
  some_letter = omega arith;
  short = omega arith;
}

users-IsIdent : IsIdent (codes "users")
unfolding is_alphanum
users-IsIdent = record {
  letters = (refl, (refl, (refl, (refl, (refl, tt)))));
  some_letter = omega arith;
  short = omega arith;
}

int-IsIdent : IsIdent (codes "int")
unfolding is_alphanum
int-IsIdent = record {
  letters = (refl, (refl, (refl, tt)));
  some_letter = omega arith;
  short = omega arith;
}

joe-IsQuotable : IsQuotable (codes "J, o")
joe-IsQuotable = (refl, (refl, (refl, (refl, tt))))

abbrev is_joe : Condition
is_joe = record { col = codes "name"; val = codes "J, o" }

parse_instr-show_sel_example :
    parse_instr (codes "sel name, age from users where name=\"J, o\"")
    ≡ ok (
        sel_instr (record {
          table = codes "users";
          columns = codes "name" ∷ codes "age" ∷ [];
          cond = some is_joe;
        }))
parse_instr-show_sel_example =
    parse_instr-show_sel (codes "name") (codes "age" ∷ []) (codes "users") (some is_joe)
      name-IsIdent (age-IsIdent, tt) users-IsIdent (name-IsIdent, joe-IsQuotable) (omega arith)

parse_instr-show_add_example :
    parse_instr (codes "add name=\"J, o\", age=\"J, o\" in users")
    ≡ ok (
        add_instr (record {
          table = codes "users";
          columns = codes "name" ∷ codes "age" ∷ [];
          values = codes "J, o" ∷ codes "J, o" ∷ [];
        }))
parse_instr-show_add_example =
    parse_instr-show_add (codes "users") (codes "name", codes "J, o")
      ((codes "age", codes "J, o") ∷ []) users-IsIdent (name-IsIdent, joe-IsQuotable)
      ((age-IsIdent, joe-IsQuotable), tt) (omega arith)

underscore_forbidden : is_forbidden b'_' ≡ true
unfolding is_alphanum
underscore_forbidden = refl

parse_instr_fault_example :
    (parse_instr (codes "sel name_ from users") ≡ fault)
    × (parse_instr (codes "add name_ from users") ≡ fault)
    × (parse_instr (codes "crt users with name_ from users") ≡ fault)
parse_instr_fault_example =
    parse_instr_fault (codes "users") (codes "name") b'_' (codes " from users") users-IsIdent
      name-IsIdent underscore_forbidden

parse_user_input-terminated_example :
    parse_user_input (codes "del;;x") ≡ parse_each (codes "del" ∷ [] ∷ [])
parse_user_input-terminated_example =
    parse_user_input-terminated (codes "del" ∷ [] ∷ []) (codes "x")
      ((refl, (refl, (refl, tt))), (tt, tt)) (refl, tt)

two_columns :
    parse_comma_list (codes "name, age from")
    ≡ ok (some (codes "name" ∷ codes "age" ∷ []), codes "from")
unfolding program
two_columns = refl

parse_comma_list-IsGood_example :
    IsGood
      (λ xs. All IsIdent xs × (count_comma_list (codes "name, age from") ≡ pos (length xs)))
      (codes "name, age from")
      (some (codes "name" ∷ codes "age" ∷ []), codes "from")
parse_comma_list-IsGood_example =
    parse_comma_list-IsGood (codes "name, age from")
      (some (codes "name" ∷ codes "age" ∷ []), codes "from") two_columns
