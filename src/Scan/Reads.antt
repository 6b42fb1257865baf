-- ===== src/Scan/Reads.antt =====
-- What one round of the loop reads, outside block comments, and the stack of the validator for a stack of brackets.
use xeus_cpp.Base.{ℕ, ◌≡◌, ◌≢◌, Bool, true, false, List, [], ◌∷◌, Option, none, some, Bytes}
use xeus_cpp.Base.Run.{done}
use xeus_cpp.Token.{TokenKind, as_int, Token, identifier}
use xeus_cpp.Lexer.{lex, skip_whitespace, lex_any_string, read_to_end_of_line}
use xeus_cpp.Scan.Brackets.{
  Bracket, square, paren, brace, conditional, Item, of_kind, if_line, endif_line, special, role,
  marked,
}
use xeus_cpp.Scan.{Scan, mismatch, is_if, is_endif}

-- A directive, by whether its name begins with `if`, and whether it is `endif`.
abbrev pub directive_item : Bool → Bool → Item
directive_item true e = if_line
directive_item false true = endif_line
directive_item false false = of_kind TokenKind.raw_ident

-- A round that begins at `p` reads something of the kind `k` and ends at `r`: a token, a line comment, or a hash and the name
-- of a directive.
pub data Reads (p : Bytes) (k : Item) (r : Bytes) : Type 0 where
  plain_token :
      {t : Token} → lex p ≡ done (t, r) → k ≡ of_kind t.kind → role k ≢ special → Reads p k r
  line_comment :
      {q : Bytes} {t u : Token}
      → lex p ≡ done (t, q)
      → t.kind ≡ TokenKind.comment
      → read_to_end_of_line q ≡ done (u, r)
      → u.kind ≡ TokenKind.unknown
      → k ≡ of_kind TokenKind.unknown
      → Reads p k r
  directive_line :
      {q q' : Bytes} {t u : Token} {n : ℕ}
      → lex p ≡ done (t, q)
      → t.kind ≡ TokenKind.hash
      → skip_whitespace q ≡ done (n, q')
      → lex_any_string q' ≡ done (u, r)
      → u.kind ≡ TokenKind.raw_ident
      → k ≡ directive_item (is_if (identifier u)) (is_endif (identifier u))
      → Reads p k r

-- What the validator pushes for a bracket, and its stack for a stack of brackets, with the mark of a template at its bottom
-- or without.
abbrev pub pushed : Bracket → TokenKind
pushed square = TokenKind.l_square
pushed paren = TokenKind.l_paren
pushed brace = TokenKind.l_brace
pushed conditional = TokenKind.hash

abbrev pub bottom : Bool → List ℕ
bottom true = as_int TokenKind.less ∷ []
bottom false = []

abbrev pub ints : Bool → List Bracket → List ℕ
ints m [] = bottom m
ints m (b ∷ st) = as_int (pushed b) ∷ ints m st

-- The validator behind an item that leaves a stack, or none.
abbrev pub nested : Bool → Item → Scan → Option (List Bracket) → Scan
nested m k s none = record s { res = mismatch }
nested m k s (some st) = record s { parent_stack = ints (marked m k st) st }
