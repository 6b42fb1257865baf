-- ===== src/Scan.antt =====
-- The loop of `xinput_validator::validate` in src/xinput_validator.cpp, over the tokens of one input.
-- The deque `m_parent_stack` is a list with its back first.
pub mod Reads
pub mod Nested
pub mod Rounds
pub mod Comments
pub mod Refines
pub mod Brackets
pub mod Stack
pub mod Bounds
pub mod Fuel
pub mod Total
use xeus_cpp.Base.{
  ℕ, zero, suc, ◌+◌, ◌*◌, ◌%◌, ◌^◌, Bool, true, false, not, ◌&&◌, ◌||◌, List, [], ◌∷◌, ◌++◌, ◌==◌,
  leb, if◌then◌else◌, Bytes, codes, length, take, drop, replicate, equal, is_space,
}
use xeus_cpp.Base.Run.{Run, done, out_of_fuel, ◌>>=◌}
use xeus_cpp.Token.{
  TokenKind, as_int, kind_of_int, is_kind, Token, no_token, identifier, closes_brace,
}
use xeus_cpp.Lexer.{skip_whitespace, lex_any_string, read_to_end_of_line, lex}

pub data ValidationResult : Type 0 where
  incomplete complete mismatch : ValidationResult

unfoldable pub in_block_comment : List ℕ → Bool
in_block_comment [] = false
in_block_comment (k ∷ ks) = k == as_int TokenKind.l_comment

unfoldable pub in_template : List ℕ → Bool
in_template (k ∷ []) = k == as_int TokenKind.less
in_template _ = false

-- The kind at the back of the stack, or `unknown`.
unfoldable pub top_kind : List ℕ → TokenKind
top_kind [] = TokenKind.unknown
top_kind (k ∷ ks) = kind_of_int k

abbrev pub pop_back : List ℕ → List ℕ
pop_back [] = []
pop_back (k ∷ ks) = ks

-- The locals of `validate` in its loop, with the lexer's cursor and the stack.
pub record Scan : Type 0 where
  pub cursor : Bytes
  pub tok : Token
  pub last_not_space_tok : Token
  pub parent_stack : List ℕ
  pub res : ValidationResult

unfoldable pub pop_template : List ℕ → List ℕ
pop_template ks = if in_template ks then pop_back ks else ks

-- The case of a closing bracket. A closing brace also pops a template marker.
unfoldable pub close_bracket : Scan → Scan
close_bracket s =
    let popped = pop_back s.parent_stack in
    if not (closes_brace s.tok (top_kind s.parent_stack))
    then record s { res = mismatch }
    else record s {
      parent_stack = if is_kind s.tok.kind TokenKind.r_brace then pop_template popped else popped;
    }

-- What follows `endif` in the raw identifier: nothing, a slash or white space.
unfoldable pub ends_directive : Bytes → Bool
ends_directive [] = true
ends_directive (c ∷ cs) = c == b'/' || is_space c

unfoldable pub is_if : Bytes → Bool
is_if w = equal (take 2 w) (codes "if")

unfoldable pub is_endif : Bytes → Bool
is_endif w = equal (take 5 w) (codes "endif") && ends_directive (drop 5 w)

-- `#endif` closes the conditional at the back of the stack.
unfoldable pub close_conditional : Scan → Scan
close_conditional s = elim s.parent_stack [
  | [] ↦ record s { res = mismatch }
  | k ∷ ks ↦
      if k == as_int TokenKind.hash
      then record s { parent_stack = ks }
      else record s { res = mismatch }
]

-- The directive behind `#`, whose name is the current token.
unfoldable pub directive : Scan → Scan
directive s =
    if is_kind s.tok.kind TokenKind.eof
    then s
    else if is_if (identifier s.tok)
    then record s { parent_stack = as_int TokenKind.hash ∷ s.parent_stack }
    else if is_endif (identifier s.tok)
    then close_conditional s
    else s

unfoldable pub push_kind : Scan → Scan
push_kind s = record s { parent_stack = as_int s.tok.kind ∷ s.parent_stack }

-- The switch on `tok.kind()`.
unfoldable pub switch : TokenKind → Scan → Run Scan
switch TokenKind.comment s = do
  (t, p) ← read_to_end_of_line s.cursor
  done (record s { tok = t; cursor = p })
switch TokenKind.r_comment s = done (
    if in_block_comment s.parent_stack
    then record s { parent_stack = pop_back s.parent_stack }
    else record s { res = mismatch })
switch TokenKind.l_square s = done (push_kind s)
switch TokenKind.l_paren s = done (push_kind s)
switch TokenKind.l_brace s = done (push_kind s)
switch TokenKind.l_comment s = done (push_kind s)
switch TokenKind.r_square s = done (close_bracket s)
switch TokenKind.r_paren s = done (close_bracket s)
switch TokenKind.r_brace s = done (close_bracket s)
switch TokenKind.semicolon s = done (record s { parent_stack = pop_template s.parent_stack })
switch TokenKind.hash s = do
  (n, p) ← skip_whitespace s.cursor
  (t, q) ← lex_any_string p
  done (directive (record s { tok = t; cursor = q }))
switch _ s = done s

-- `continue` in a block comment, and the switch outside.
unfoldable pub handle : Scan → Run Scan
handle s =
    if in_block_comment s.parent_stack && not (is_kind s.tok.kind TokenKind.r_comment)
    then done s
    else switch s.tok.kind s

-- The last token that was not white space, before the next one is read.
unfoldable pub remember : Scan → Token
remember s = if is_kind s.tok.kind TokenKind.space then s.last_not_space_tok else s.tok

-- The state with the next token in it.
abbrev pub received : Scan → Token → Bytes → Scan
received s t p = record s { cursor = p; tok = t; last_not_space_tok = remember s }

-- The body of the loop.
unfoldable pub scan_step : Scan → Run Scan
scan_step s = do (t, p) ← lex s.cursor; handle (received s t p)

unfoldable pub is_mismatch : ValidationResult → Bool
is_mismatch mismatch = true
is_mismatch _ = false

unfoldable pub continues : Scan → Bool
continues s = not (is_kind s.tok.kind TokenKind.eof) && not (is_mismatch s.res)

-- The `do … while` loop.
unfoldable pub scan : ℕ → Scan → Run Scan
scan zero s = out_of_fuel
scan (suc f) s = do t ← scan_step s; let rest = scan f t; if continues t then rest else done t
