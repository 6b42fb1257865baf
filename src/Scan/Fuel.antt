-- ===== src/Scan/Fuel.antt =====
-- The loop ends: each round that goes on has read at least one byte.
use xeus_cpp.Base.{ℕ, zero, suc, ◌≤◌, ◌<◌, ◌≡◌, true, false, arith, length, if_split}
use xeus_cpp.Base.Run.{
  Run, done, Ensures, Ensures-bind, Ensures-mono, Ensures-both, Returns, Returns-bind,
  Returns-Ensures,
}
use xeus_cpp.Token.{TokenKind}
use xeus_cpp.Lexer.Progress.{
  skip_whitespace-Follows, read_to_end_of_line-Follows, lex_any_string-Follows, lex-shorter,
}
use xeus_cpp.Lexer.{skip_whitespace, lex_any_string, read_to_end_of_line, lex}
use xeus_cpp.Scan.{
  Scan, switch, directive, close_conditional, close_bracket, push_kind, handle, received, scan_step,
  scan, continues,
}

-- The rounds of the loop only move the cursor forward.
abbrev Forward : Scan → Run Scan → Type 0
Forward s = Ensures (λ t. length t.cursor ≤ length s.cursor)

directive-Forward : (s : Scan) → length (directive s).cursor ≤ length s.cursor
unfolding directive close_conditional
directive-Forward s = ground arith

close_bracket-Forward : (s : Scan) → length (close_bracket s).cursor ≤ length s.cursor
unfolding close_bracket
close_bracket-Forward s = ground arith

switch-Forward : (k : TokenKind) (s : Scan) → Forward s (switch k s)
unfolding switch push_kind
switch-Forward TokenKind.comment s =
    Ensures-bind _ _ (read_to_end_of_line s.cursor) _ (read_to_end_of_line-Follows s.cursor)
      (λ x h. h)
switch-Forward TokenKind.hash s =
    Ensures-bind _ _ (skip_whitespace s.cursor) _ (skip_whitespace-Follows s.cursor) λ x h.
      Ensures-bind _ _ (lex_any_string x.1) _ (lex_any_string-Follows x.1)
        λ y k. omega (arith, directive-Forward (record s { tok = y.0; cursor = y.1 }))
switch-Forward TokenKind.r_square s = close_bracket-Forward s
switch-Forward TokenKind.r_paren s = close_bracket-Forward s
switch-Forward TokenKind.r_brace s = close_bracket-Forward s
switch-Forward _ s = ground arith

handle-Forward : (s : Scan) → Forward s (handle s)
unfolding handle
handle-Forward s =
    if_split (Forward s) _ {x = done s} (λ _. omega arith) (λ _. switch-Forward s.tok.kind s)

-- One round reads at least one byte.
pub scan_step-shorter : (s : Scan) → Ensures (λ t. length t.cursor < length s.cursor) (scan_step s)
unfolding scan_step
scan_step-shorter s = Ensures-bind _ _ (lex s.cursor) _ (lex-shorter s.cursor) λ x h.
    Ensures-mono _ _ (handle (received s x.0 x.1)) (handle-Forward (received s x.0 x.1))
      (λ t k. omega arith)

-- The rule for the loop: what each round keeps holds at its end, where its test fails. Fuel of more
-- than the bytes that are left never runs out.
pub scan-Ensures :
    (P : Scan → Type 0)
    → ((s : Scan) → P s → Ensures P (scan_step s))
    → (f : ℕ) (s : Scan) → length s.cursor < f
    → P s
    → Ensures (λ t. P t × (continues t ≡ false)) (scan f s)
unfolding scan
scan-Ensures P keep zero s m h = absurd (omega arith)
scan-Ensures P keep (suc f) s m h =
    Ensures-bind _ _ (scan_step s) _
      (Ensures-both _ _ (scan_step s) (keep s h) (scan_step-shorter s))
      λ t k.
        if_split (Ensures (λ u. P u × (continues u ≡ false))) (continues t) {x = scan f t}
          {y = done t} (λ _. scan-Ensures P keep f t (omega arith) k.0) (λ e. (k.0, e))

-- The same where each round has a value.
pub scan-Returns :
    (P : Scan → Type 0)
    → ((s : Scan) → P s → Returns (λ t. continues t ≡ true → P t) (scan_step s))
    → (f : ℕ) (s : Scan) → length s.cursor < f
    → P s
    → Returns (λ t. continues t ≡ false) (scan f s)
unfolding scan
scan-Returns P keep zero s m h = absurd (omega arith)
scan-Returns P keep (suc f) s m h =
    Returns-bind _ _ (scan_step s) _
      (Returns-Ensures _ _ (scan_step s) (keep s h) (scan_step-shorter s))
      λ t k.
        if_split (Returns (λ u. continues u ≡ false)) (continues t) {x = scan f t} {y = done t}
          (λ e. scan-Returns P keep f t (omega arith) (k.0 e)) (λ e. e)
