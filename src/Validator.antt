-- ===== src/Validator.antt =====
-- `class xinput_validator` of src/xinput_validator.hpp and src/xinput_validator.cpp, and its use by
-- `interpreter::is_complete_request_impl` of src/xinterpreter.cpp.
pub mod Brackets
pub mod Parents
pub mod Total
pub mod Indent
pub mod Reply
pub mod Resume
pub mod Mismatch
use xeus_cpp.Base.{
  ℕ, zero, suc, ◌+◌, ◌*◌, ◌%◌, ◌^◌, Bool, true, false, not, ◌&&◌, ◌||◌, List, [], ◌∷◌, ◌++◌, ◌==◌,
  if◌then◌else◌, Bytes, codes, length, replicate, equal, is_empty,
}
use xeus_cpp.Base.Run.{Run, done, ◌>>=◌}
use xeus_cpp.Token.{TokenKind, as_int, is_kind, Token, no_token, identifier}
use xeus_cpp.Parser.{size_mod}
use xeus_cpp.Lexer.{skip_whitespace, lex}
use xeus_cpp.Scan.{ValidationResult, incomplete, complete, mismatch, Scan, scan, is_mismatch}

unfoldable pub to_string : ValidationResult → Bytes
to_string incomplete = codes "incomplete"
to_string complete = codes "complete"
to_string mismatch = codes "mismatch"

pub record Validator : Type 0 where
  pub parent_stack : List ℕ
  pub indent : Bytes

abbrev pub new_validator : Validator
new_validator = record { parent_stack = []; indent = [] }

unfoldable pub get_expected_indent : Validator → Bytes
get_expected_indent v = v.indent

unfoldable pub is_template : Token → Bool
is_template t = is_kind t.kind TokenKind.ident && equal (identifier t) (codes "template")

-- The look at the first token, for an empty stack only.
unfoldable pub check_template : List ℕ → Bytes → Run (List ℕ)
check_template [] p = do
  (n, q) ← skip_whitespace p
  (t, r) ← lex q
  done (if is_template t then as_int TokenKind.less ∷ [] else [])
check_template (k ∷ ks) p = done (k ∷ ks)

-- The result behind the loop.
unfoldable pub final_result : Scan → ValidationResult
final_result s =
    if (is_kind s.last_not_space_tok.kind TokenKind.backslash
        || is_kind s.last_not_space_tok.kind TokenKind.comma)
      || (not (is_empty s.parent_stack) && not (is_mismatch s.res))
    then incomplete
    else s.res

-- The indent in a `std::size_t`, and the string of so many spaces unless it is zero.
unfoldable pub indent_size : ℕ → List ℕ → ℕ → ℕ
indent_size nb_init_spaces stack nb_char_indent =
    (nb_init_spaces + length stack * nb_char_indent) % size_mod

unfoldable pub new_indent : ℕ → Bytes → Bytes
new_indent n old = if n == 0 then old else replicate n b' '

abbrev pub start : Bytes → List ℕ → Scan
start p stack = record {
  cursor = p;
  tok = no_token;
  last_not_space_tok = no_token;
  parent_stack = stack;
  res = complete;
}

-- The lines behind the loop.
abbrev pub finish : Validator → ℕ → ℕ → Scan → Validator × ValidationResult
finish v nb_init_spaces nb_char_indent s = (
  record {
    parent_stack = s.parent_stack;
    indent = new_indent (indent_size nb_init_spaces s.parent_stack nb_char_indent) v.indent;
  },
  final_result s,
)

-- The buffer of the input is its bytes and a zero. The fuel is the buffer's length and one more.
unfoldable pub validate : Validator → Bytes → ℕ → Run (Validator × ValidationResult)
validate v input nb_char_indent = do
  let buffer = input ++ 0 ∷ []
  stack ← check_template v.parent_stack buffer
  (nb_init_spaces, p) ← skip_whitespace buffer
  s ← scan (suc (length buffer)) (start p stack)
  done (finish v nb_init_spaces nb_char_indent s)

-- `is_complete_request_impl`: the status and the indent of its reply. A new validator is used, with
-- the default of four spaces.
unfoldable pub is_complete_request : Bytes → Run (Bytes × Bytes)
is_complete_request code = do
  (v, res) ← validate new_validator code 4
  done (to_string res, get_expected_indent v)
