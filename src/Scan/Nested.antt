-- ===== src/Scan/Nested.antt =====
-- What the cases of the switch do to the stack of brackets.
use xeus_cpp.Base.{
  ◌≡◌, ◌≢◌, refl, sym, ap, ◌∙◌, Bool, true, false, List, [], ◌∷◌, some, arith, Bytes,
}
use xeus_cpp.Base.Run.{done}
use xeus_cpp.Token.{TokenKind, as_int, kind_of_int, is_kind, closes_brace, Token}
use xeus_cpp.Lexer.{lex}
use xeus_cpp.Scan.Brackets.{
  Bracket, square, paren, brace, conditional, Item, of_kind, opener, closer, opens, closes, special,
  nest, role_of_kind, ends_template, marked, marked-plain,
}
use xeus_cpp.Scan.{
  Scan, in_block_comment, in_template, top_kind, pop_template, close_bracket, push_kind, switch,
  handle, received, scan_step,
}
use xeus_cpp.Scan.Reads.{ints, nested}

pub ints-in_block_comment : (m : Bool) (st : List Bracket) → in_block_comment (ints m st) ≡ false
unfolding in_block_comment as_int
ints-in_block_comment true [] = refl
ints-in_block_comment false [] = refl
ints-in_block_comment m (square ∷ st) = refl
ints-in_block_comment m (paren ∷ st) = refl
ints-in_block_comment m (brace ∷ st) = refl
ints-in_block_comment m (conditional ∷ st) = refl

ints-pop_template :
    (m : Bool) (k : Item) (st : List Bracket)
    → ends_template k ≡ true
    → pop_template (ints m st) ≡ ints (marked m k st) st
unfolding pop_template in_template as_int
ints-pop_template true k [] e = rw e
ints-pop_template false k [] e = refl
ints-pop_template false k (square ∷ []) e = refl
ints-pop_template false k (paren ∷ []) e = refl
ints-pop_template false k (brace ∷ []) e = refl
ints-pop_template false k (conditional ∷ []) e = refl
ints-pop_template true k (b ∷ []) e = refl
ints-pop_template m k (b ∷ d ∷ st) e = refl

pub close_bracket-nested :
    (m : Bool) (b : Bracket) (s : Scan) (st : List Bracket)
    → closer b ≡ of_kind s.tok.kind
    → s.parent_stack ≡ ints m st
    → close_bracket s ≡ nested m (closer b) s (nest (closes b) st)
unfolding close_bracket closes_brace top_kind kind_of_int as_int is_kind
close_bracket-nested m conditional s st e p = cc
close_bracket-nested true square s [] e p = ground arith
close_bracket-nested true paren s [] e p = ground arith
close_bracket-nested true brace s [] e p = ground arith
close_bracket-nested false square s [] e p = ground arith
close_bracket-nested false paren s [] e p = ground arith
close_bracket-nested false brace s [] e p = ground arith
close_bracket-nested m square s (o ∷ st) e p =
    ground (arith, marked-plain m (closer square) st refl)
close_bracket-nested m paren s (o ∷ st) e p = ground (arith, marked-plain m (closer paren) st refl)
close_bracket-nested m brace s (o ∷ st) e p =
    ground (arith, ints-pop_template m (closer brace) st refl)

pub push_kind-nested :
    (m : Bool) (b : Bracket) (s : Scan) (st : List Bracket)
    → opener b ≡ of_kind s.tok.kind
    → s.parent_stack ≡ ints m st
    → push_kind s ≡ nested m (opener b) s (nest (opens b) st)
unfolding push_kind
push_kind-nested m conditional s st e p = cc
push_kind-nested m square s st e p = ground arith
push_kind-nested m paren s st e p = ground arith
push_kind-nested m brace s st e p = ground arith

pub plain-nested :
    (m : Bool) (k : Item) (s : Scan) (st : List Bracket)
    → ends_template k ≡ false
    → s.parent_stack ≡ ints m st
    → s ≡ nested m k s (some st)
plain-nested m k s st e p =
    ap (λ ks. record s { parent_stack = ks })
      (p ∙ ap (λ n. ints n st) (sym (marked-plain m k st e)))

pub switch-nested :
    (m : Bool) (k : TokenKind) (s : Scan) (st : List Bracket)
    → s.tok.kind ≡ k
    → s.parent_stack ≡ ints m st
    → role_of_kind k ≢ special
    → switch k s ≡ done (nested m (of_kind k) s (nest (role_of_kind k) st))
unfolding switch
switch-nested m TokenKind.l_square s st e p n =
    ap done (push_kind-nested m square s st (ap of_kind (sym e)) p)
switch-nested m TokenKind.l_paren s st e p n =
    ap done (push_kind-nested m paren s st (ap of_kind (sym e)) p)
switch-nested m TokenKind.l_brace s st e p n =
    ap done (push_kind-nested m brace s st (ap of_kind (sym e)) p)
switch-nested m TokenKind.r_square s st e p n =
    ap done (close_bracket-nested m square s st (ap of_kind (sym e)) p)
switch-nested m TokenKind.r_paren s st e p n =
    ap done (close_bracket-nested m paren s st (ap of_kind (sym e)) p)
switch-nested m TokenKind.r_brace s st e p n =
    ap done (close_bracket-nested m brace s st (ap of_kind (sym e)) p)
switch-nested m TokenKind.comment s st e p n = absurd (n refl)
switch-nested m TokenKind.l_comment s st e p n = absurd (n refl)
switch-nested m TokenKind.r_comment s st e p n =
    rw (ap in_block_comment p ∙ ints-in_block_comment m st) refl
switch-nested m TokenKind.hash s st e p n = absurd (n refl)
switch-nested m TokenKind.eof s st e p n = absurd (n refl)
switch-nested m TokenKind.semicolon s st e p n =
    ap (λ ks. done (record s { parent_stack = ks }))
      (ap pop_template p ∙ ints-pop_template m (of_kind TokenKind.semicolon) st refl)
switch-nested m k s st e p n = ap done (plain-nested m (of_kind k) s st refl p)

pub handle-nested :
    (m : Bool) (s : Scan) (st : List Bracket)
    → s.parent_stack ≡ ints m st
    → role_of_kind s.tok.kind ≢ special
    → handle s ≡ done (nested m (of_kind s.tok.kind) s (nest (role_of_kind s.tok.kind) st))
unfolding handle
handle-nested m s st p n =
    rw (ap in_block_comment p ∙ ints-in_block_comment m st)
      (switch-nested m s.tok.kind s st refl p n)

pub scan_step-lex :
    (s : Scan) {t : Token} {r : Bytes}
    → lex s.cursor ≡ done (t, r)
    → scan_step s ≡ handle (received s t r)
unfolding scan_step
scan_step-lex s e = rw e
