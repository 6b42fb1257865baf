-- ===== src/Scan/Comments/Open.antt =====
-- Comments that are not closed: the rounds of the loop up to the end of the input.
use xeus_cpp.Base.{
  ℕ, zero, suc, ◌<◌, ◌≡◌, ◌≢◌, refl, ap, ◌∙◌, Bool, true, false, List, arith, Bytes, length,
}
use xeus_cpp.Base.Run.{done, Returns}
use xeus_cpp.Token.{TokenKind, Token}
use xeus_cpp.Lexer.{lex}
use xeus_cpp.Lexer.Progress.{lex-lt}
use xeus_cpp.Scan.Bounds.{handle_eof, eof-stops}
use xeus_cpp.Scan.Reads.{ints}
use xeus_cpp.Scan.Nested.{scan_step-lex}
use xeus_cpp.Scan.Brackets.{Bracket}
use xeus_cpp.Scan.{Scan, complete, in_block_comment, received, scan}
use xeus_cpp.Scan.Comments.{
  scan-suc, commented, top-l_comment, handle-skip, handle-l_comment, round-on,
}

-- The input ends before the closing mark of the comment that goes on at `p`.
pub data RunsOut : Bytes → Type 0 where
  input_ends : {p r : Bytes} {t : Token} → lex p ≡ done (t, r) → t.kind ≡ TokenKind.eof → RunsOut p
  goes_on :
      {p q : Bytes} {t : Token}
      → lex p ≡ done (t, q)
      → t.kind ≢ TokenKind.r_comment
      → t.kind ≢ TokenKind.eof
      → RunsOut q
      → RunsOut p

-- The loop ends in a comment.
abbrev pub InComment : Scan → Type 0
InComment t = (t.res ≡ complete) × (in_block_comment t.parent_stack ≡ true)

scan-RunsOut :
    {p : Bytes} (f : ℕ) (s : Scan) (m : Bool) (st : List Bracket)
    → RunsOut p
    → s.cursor ≡ p
    → length p < f
    → s.parent_stack ≡ commented m st
    → s.res ≡ complete
    → Returns InComment (scan f s)
scan-RunsOut zero s m st x c l p h = absurd (omega arith)
scan-RunsOut (suc f) s m st (input_ends {t = t} e k) c l p h =
    let ends = scan_step-lex s (ap lex c ∙ e) ∙ handle_eof (received s t _) k in
    rw (scan-suc f s _ ends, eof-stops (received s t _) k) (h, top-l_comment s m st p)
scan-RunsOut (suc f) s m st (goes_on {q = q} {t = t} e n d x) c l p h =
    let step =
      round-on f s (received s t q)
        (scan_step-lex s (ap lex c ∙ e) ∙ handle-skip (received s t q) m st p n) d h in
    rw step (scan-RunsOut f (received s t q) m st x refl (omega (arith, lex-lt _ e)) p h)

-- A comment that is not closed, with its opening mark.
pub scan-open_comment :
    {p q : Bytes} {t : Token} (f : ℕ) (s : Scan) (m : Bool) (st : List Bracket)
    → lex p ≡ done (t, q)
    → t.kind ≡ TokenKind.l_comment
    → RunsOut q
    → in_block_comment s.parent_stack ≡ false
    → s.cursor ≡ p
    → length p < f
    → s.parent_stack ≡ ints m st
    → s.res ≡ complete
    → Returns InComment (scan f s)
scan-open_comment zero s m st e k x b c l p h = absurd (omega arith)
scan-open_comment {q = q} {t = t} (suc f) s m st e k x b c l p h =
    let u = record (received s t q) { parent_stack = commented m st } in
    let step =
      round-on f s u (scan_step-lex s (ap lex c ∙ e) ∙ handle-l_comment (received s t q) m st b p k)
        (λ y. cc) h in
    rw step (scan-RunsOut f u m st x refl (omega (arith, lex-lt _ e)) refl h)
