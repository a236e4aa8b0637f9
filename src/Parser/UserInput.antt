-- ===== src/Parser/UserInput.antt =====
-- parse_user_input (server-side/parser/parser.c) cuts the text at its semicolons.
use mathlib.Core.List.{append-nil}
use yacdb.Common.{
  suc, ◌≡◌, refl, sym, ap, ◌∙◌, true, false, not, List, [], ◌∷◌, ◌++◌, ◌==◌, length, All, Bytes,
}
use yacdb.Common.Memory.{Result, ok, ◌>>=◌}
use yacdb.Parser.{Instr}
use yacdb.Parser.Instructions.{parse_instr, semicolons, instr_loop, parse_user_input}
use yacdb.Parser.Reading.{scan-append}

-- Text with no semicolon.
abbrev pub IsToken : Bytes → Type 0
IsToken = All (λ c. (c == b';') ≡ false)

-- Tokens, each with its semicolon, and what follows the last one.
abbrev pub terminated : List Bytes → Bytes → Bytes
terminated [] post = post
terminated (t ∷ ts) post = t ++ (b';' ∷ terminated ts post)

-- Each token parsed in turn, up to a fault.
abbrev pub parse_each : List Bytes → Result (List Instr)
parse_each [] = ok []
parse_each (t ∷ ts) = do i ← parse_instr t; is ← parse_each ts; ok (i ∷ is)

semicolons-token : (t post : Bytes) → IsToken t → semicolons (t ++ post) ≡ semicolons post
semicolons-token [] post h = refl
semicolons-token (c ∷ t) post h = rw h.0 (semicolons-token t post h.1)

semicolons-terminated :
    (ts : List Bytes) (post : Bytes)
    → All IsToken ts
    → IsToken post
    → semicolons (terminated ts post) ≡ length ts
semicolons-terminated [] post h k =
    ap semicolons (sym (append-nil post)) ∙ semicolons-token post [] k
semicolons-terminated (t ∷ ts) post h k =
    semicolons-token t (b';' ∷ terminated ts post) h.0
    ∙ ap suc (semicolons-terminated ts post h.1 k)

token_bytes : (t : Bytes) → IsToken t → All (λ c. not (c == b';') ≡ true) t
token_bytes [] h = tt
token_bytes (c ∷ t) h = (rw h.0 refl, token_bytes t h.1)

instr_loop-terminated :
    (ts : List Bytes) (post : Bytes)
    → All IsToken ts
    → instr_loop (length ts) (terminated ts post) ≡ parse_each ts
unfolding instr_loop
instr_loop-terminated [] post h = refl
instr_loop-terminated (t ∷ ts) post h =
    rw (scan-append (λ c. not (c == b';')) t (b';' ∷ terminated ts post) (token_bytes t h.0) refl)
      (rw (instr_loop-terminated ts post h.1) refl)

-- The user's input is cut at every semicolon, each piece is parsed as one instruction, in order,
-- and what follows the last semicolon is dropped.
pub parse_user_input-terminated :
    (ts : List Bytes) (post : Bytes)
    → All IsToken ts
    → IsToken post
    → parse_user_input (terminated ts post) ≡ parse_each ts
unfolding parse_user_input
parse_user_input-terminated ts post h k =
    rw (semicolons-terminated ts post h k) (instr_loop-terminated ts post h)
