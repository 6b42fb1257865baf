-- ===== src/Lexer.antt =====
-- The lexer: the character tests and `class xlexer` of src/xinput_validator.cpp.
-- The state of an `xlexer` is the pointer `p_curr_pos`, here the list of bytes from it to the end
-- of the buffer (`p_start` is never read after the construction). The buffer of a `std::string` is its bytes and a
-- terminating zero. A read outside the buffer is `out_of_bounds`.
pub mod Bounds
pub mod Progress
pub mod Tokens
pub mod Literals
use xeus_cpp.Base.{
  ℕ, ◌-◌, Bool, false, not, ◌&&◌, ◌||◌, [], ◌∷◌, ◌==◌, leb, if◌then◌else◌, Bytes, codes, length,
  contains,
}
use xeus_cpp.Base.Run.{Run, done, out_of_bounds, ◌>>=◌}
use xeus_cpp.Token.{TokenKind, Token, token}

-- `std::isalpha` and `std::isdigit` in the "C" locale, in which the library starts.
unfoldable pub is_alpha : ℕ → Bool
is_alpha c = (leb b'a' c && leb c b'z') || (leb b'A' c && leb c b'Z')

unfoldable pub is_digit : ℕ → Bool
is_digit c = leb b'0' c && leb c b'9'

abbrev punctuators : Bytes
punctuators = codes "[](){}\\,.!?<>&#@;"

unfoldable pub is_punctuator : ℕ → Bool
is_punctuator c = contains punctuators c

unfoldable pub is_quoted_string : ℕ → Bool
is_quoted_string c = c == b'"' || c == b'\''

unfoldable pub is_whitespace : ℕ → Bool
is_whitespace c = c == b' ' || c == b'\t'

-- Pointer difference, of a pointer and a later one.
abbrev span : Bytes → Bytes → ℕ
span start p = length start - length p

-- The loop test of `skip_whitespace`.
abbrev pub in_blanks : ℕ → Bool
in_blanks c = is_whitespace c && not (c == 0)

-- `c = *p; while (test(c)) c = *(++p);`
unfoldable pub skip_while : (ℕ → Bool) → Bytes → Run Bytes
skip_while test [] = out_of_bounds
skip_while test (c ∷ p) = let rest = skip_while test p in if test c then rest else done (c ∷ p)

-- The number of bytes passed, and the pointer.
unfoldable pub skip_whitespace : Bytes → Run (ℕ × Bytes)
skip_whitespace p = do q ← skip_while in_blanks p; done (span p q, q)

unfoldable pub lex_whitespace : Bytes → Run (Token × Bytes)
lex_whitespace p = do (n, q) ← skip_whitespace p; done (token TokenKind.space p (span p q), q)

unfoldable pub is_word : ℕ → Bool
is_word c = is_alpha c || is_digit c || c == b'_'

-- `char c = *p++; while (test(c)) c = *p++; --p;`
unfoldable pub lex_identifier : Bytes → Run (Token × Bytes)
lex_identifier p = do q ← skip_while is_word p; done (token TokenKind.ident p (span p q), q)

unfoldable pub lex_constant : Bytes → Run (Token × Bytes)
lex_constant p = do q ← skip_while is_digit p; done (token TokenKind.constant p (span p q), q)

-- The loop tests of `lex_any_string` and `read_to_end_of_line`.
abbrev pub in_raw_ident : ℕ → Bool
in_raw_ident d = not (d == b' ') && not (d == b'\t') && not (d == 0)

abbrev pub in_line : ℕ → Bool
in_line d = not (d == b'\r') && not (d == b'\n') && not (d == 0)

unfoldable pub lex_any_string : Bytes → Run (Token × Bytes)
lex_any_string [] = out_of_bounds
lex_any_string (c ∷ p) =
    let raw : Run (Token × Bytes) = do
      q ← skip_while in_raw_ident (c ∷ p)
      done (token TokenKind.raw_ident (c ∷ p) (span (c ∷ p) q), q)
    in if c == 0 then done (token TokenKind.eof (c ∷ p) 0, c ∷ p) else raw

unfoldable pub read_to_end_of_line : Bytes → Run (Token × Bytes)
read_to_end_of_line p = do q ← skip_while in_line p; done (token TokenKind.unknown p (span p q), q)

-- The loop of `lex_quoted_string` after the opening quote: a backslash passes two bytes.
unfoldable pub close_quote : ℕ → Bytes → Run Bytes
close_quote q [] = out_of_bounds
close_quote q (c ∷ []) =
    if c == b'\\' then out_of_bounds else if c == q then done [] else out_of_bounds
close_quote q (c ∷ d ∷ p) =
    let skipped = close_quote q p in
    let rest = close_quote q (d ∷ p) in
    if c == b'\\' then skipped else if c == q then done (d ∷ p) else rest

unfoldable pub lex_quoted_string : Bytes → Run (Token × Bytes)
lex_quoted_string [] = out_of_bounds
lex_quoted_string (c ∷ p) = do
  q ← close_quote c p
  done (
    token (if c == b'"' then TokenKind.stringlit else TokenKind.charlit) (c ∷ p) (span (c ∷ p) q),
    q,
  )

-- The switch of `lex_punctuator`.
unfoldable pub punctuator_kind : ℕ → TokenKind
punctuator_kind c =
    if c == b'['
    then TokenKind.l_square
    else if c == b']'
    then TokenKind.r_square
    else if c == b'('
    then TokenKind.l_paren
    else if c == b')'
    then TokenKind.r_paren
    else if c == b'{'
    then TokenKind.l_brace
    else if c == b'}'
    then TokenKind.r_brace
    else if c == b','
    then TokenKind.comma
    else if c == b'.'
    then TokenKind.dot
    else if c == b'!'
    then TokenKind.excl_mark
    else if c == b'?'
    then TokenKind.quest_mark
    else if c == b'/'
    then TokenKind.slash
    else if c == b'\\'
    then TokenKind.backslash
    else if c == b'<'
    then TokenKind.less
    else if c == b'>'
    then TokenKind.greater
    else if c == b'@'
    then TokenKind.at
    else if c == b'&'
    then TokenKind.ampersand
    else if c == b'#'
    then TokenKind.hash
    else if c == b'*'
    then TokenKind.asterik
    else if c == b';'
    then TokenKind.semicolon
    else TokenKind.unknown

unfoldable pub lex_punctuator : Bytes → Run (Token × Bytes)
lex_punctuator [] = out_of_bounds
lex_punctuator (c ∷ p) = done (token (punctuator_kind c) (c ∷ p) 1, p)

unfoldable pub lex_left_comment : Bytes → Run (Token × Bytes)
lex_left_comment (c ∷ d ∷ p) =
    done (token (if d == b'/' then TokenKind.comment else TokenKind.l_comment) (c ∷ d ∷ p) 2, p)
lex_left_comment _ = out_of_bounds

-- The token has the length 2, and the cursor moves by one byte only: the slash is read again.
unfoldable pub lex_right_comment : Bytes → Run (Token × Bytes)
lex_right_comment (c ∷ p) = done (token TokenKind.r_comment (c ∷ p) 2, p)
lex_right_comment [] = out_of_bounds

-- The branches of `lex` at a slash and at a star, which look one byte ahead.
unfoldable pub lex_slash : Bytes → Run (Token × Bytes)
lex_slash (c ∷ d ∷ p) =
    if d == b'/' || d == b'*' then lex_left_comment (c ∷ d ∷ p) else lex_punctuator (c ∷ d ∷ p)
lex_slash _ = out_of_bounds

unfoldable pub lex_star : Bytes → Run (Token × Bytes)
lex_star (c ∷ d ∷ p) =
    if d == b'/' then lex_right_comment (c ∷ d ∷ p) else lex_punctuator (c ∷ d ∷ p)
lex_star _ = out_of_bounds

-- The last lines of `lex`: the end of the input, or a byte that begins no token.
unfoldable pub lex_other : ℕ → Bytes → Token × Bytes
lex_other c p =
    if c == 0 then (token TokenKind.eof (c ∷ p) 1, p) else (token TokenKind.unknown (c ∷ p) 0, p)

unfoldable pub lex : Bytes → Run (Token × Bytes)
lex [] = out_of_bounds
lex (c ∷ p) =
    if is_quoted_string c
    then lex_quoted_string (c ∷ p)
    else if is_punctuator c
    then lex_punctuator (c ∷ p)
    else if c == b'/'
    then lex_slash (c ∷ p)
    else if c == b'*'
    then lex_star (c ∷ p)
    else if is_digit c
    then lex_constant (c ∷ p)
    else if is_alpha c || c == b'_'
    then lex_identifier (c ∷ p)
    else if is_whitespace c
    then lex_whitespace (c ∷ p)
    else done (lex_other c p)
