-- ===== src/Scan/Bounds.antt =====
-- On an input with no quotes the loop stays inside the buffer.
use xeus_cpp.Base.{
  ℕ, ◌<◌, ◌≡◌, ◌⊎◌, inl, inr, refl, Bool, true, false, not, [], ◌∷◌, arith, Bytes, length, if_split,
}
use xeus_cpp.Base.Run.{done, Returns, Returns-bind, Returns-mono}
use xeus_cpp.Token.{TokenKind, is_kind_iff}
use xeus_cpp.Lexer.Bounds.{
  Ends, Within, skip_whitespace-Ends, read_to_end_of_line-Ends, lex_any_string-Ends, lex-Ends,
}
use xeus_cpp.Lexer.{is_quoted_string, skip_whitespace, lex_any_string, read_to_end_of_line, lex}
use xeus_cpp.Scan.Fuel.{scan-Returns}
use xeus_cpp.Scan.{
  Scan, switch, directive, close_conditional, close_bracket, push_kind, handle, received, scan_step,
  scan, continues,
}

unfoldable pub no_quote : ℕ → Bool
no_quote c = not (is_quoted_string c)

abbrev Inside : Scan → Type 0
Inside s = Ends no_quote s.cursor

directive-cursor : (s : Scan) → (directive s).cursor ≡ s.cursor
unfolding directive close_conditional
directive-cursor s = ground arith

close_bracket-cursor : (s : Scan) → (close_bracket s).cursor ≡ s.cursor
unfolding close_bracket
close_bracket-cursor s = ground arith

directive-Inside : (s : Scan) → Inside s → Inside (directive s)
directive-Inside s h = rw directive-cursor h

close_bracket-Inside : (s : Scan) → Inside s → Inside (close_bracket s)
close_bracket-Inside s h = rw close_bracket-cursor h

switch-Inside : (k : TokenKind) (s : Scan) → Inside s → Returns Inside (switch k s)
unfolding switch push_kind
switch-Inside TokenKind.comment s h =
    Returns-bind _ _ (read_to_end_of_line s.cursor) _ (read_to_end_of_line-Ends no_quote s.cursor h)
      (λ x k. k)
switch-Inside TokenKind.hash s h =
    Returns-bind _ _ (skip_whitespace s.cursor) _ (skip_whitespace-Ends no_quote s.cursor h) λ x k.
      Returns-bind _ _ (lex_any_string x.1) _ (lex_any_string-Ends no_quote x.1 k)
        λ y l. directive-Inside (record s { tok = y.0; cursor = y.1 }) l
switch-Inside TokenKind.r_square s h = close_bracket-Inside s h
switch-Inside TokenKind.r_paren s h = close_bracket-Inside s h
switch-Inside TokenKind.r_brace s h = close_bracket-Inside s h
switch-Inside TokenKind.r_comment s h = if_split Inside _ (λ _. h) (λ _. h)
switch-Inside _ s h = h

handle-Inside : (s : Scan) → Inside s → Returns Inside (handle s)
unfolding handle
handle-Inside s h =
    if_split (Returns Inside) _ {x = done s} (λ _. h) (λ _. switch-Inside s.tok.kind s h)

-- At the end of the input the round is the last.
switch_eof : (k : TokenKind) (s : Scan) → k ≡ TokenKind.eof → switch k s ≡ done s
unfolding switch
switch_eof k s e = rw e

pub handle_eof : (s : Scan) → s.tok.kind ≡ TokenKind.eof → handle s ≡ done s
unfolding handle
handle_eof s e =
    if_split (λ m. m ≡ done s) _ {x = done s} (λ _. refl) (λ _. switch_eof s.tok.kind s e)

pub eof-stops : (s : Scan) → s.tok.kind ≡ TokenKind.eof → continues s ≡ false
unfolding continues
eof-stops s e = rw ((is_kind_iff s.tok.kind TokenKind.eof).1 e)

pub lex-Inside : (p : Bytes) → Ends no_quote p → Returns (Within no_quote) (lex p)
unfolding no_quote
lex-Inside [] h = absurd h
lex-Inside (c ∷ []) h = lex-Ends no_quote c [] (rw h (unfold is_quoted_string in refl)) h
lex-Inside (c ∷ d ∷ p) h = lex-Ends no_quote c (d ∷ p) (ground arith) h

scan_step-Inside :
    (s : Scan) → Inside s → Returns (λ t. continues t ≡ true → Inside t) (scan_step s)
unfolding scan_step
scan_step-Inside s h =
    Returns-bind _ _ (lex s.cursor) _ (lex-Inside s.cursor h) λ x k. after (received s x.0 x.1) k
  where
    after :
        (t : Scan)
        → (t.tok.kind ≡ TokenKind.eof) ⊎ Inside t
        → Returns (λ u. continues u ≡ true → Inside u) (handle t)
    after t (inl e) = rw (handle_eof t e) (λ c. cc (c, eof-stops t e))
    after t (inr i) = Returns-mono Inside _ (handle t) (handle-Inside t i) (λ u j _. j)

-- On what is left of a buffer without quotes the loop ends inside it.
pub scan-Inside :
    (f : ℕ) (s : Scan)
    → length s.cursor < f
    → Ends no_quote s.cursor
    → Returns (λ t. continues t ≡ false) (scan f s)
scan-Inside f s m h = scan-Returns Inside scan_step-Inside f s m h
