-- ===== src/Scan/Rounds.antt =====
-- What a round does to the brackets.
use xeus_cpp.Base.{ℕ, ◌≡◌, ◌≢◌, refl, sym, ap, ◌∙◌, Bool, true, false, List, [], ◌∷◌, Bytes}
use xeus_cpp.Base.Run.{Run, done}
use xeus_cpp.Token.{TokenKind, as_int, is_kind, is_kind_iff, Token, identifier}
use xeus_cpp.Lexer.{lex, skip_whitespace, lex_any_string, read_to_end_of_line}
use xeus_cpp.Scan.Brackets.{
  Bracket, square, paren, brace, conditional, Item, of_kind, item_kind, closes, special, role, nest,
  role_of_kind, endif_line, marked-plain,
}
use xeus_cpp.Scan.{
  Scan, in_block_comment, switch, handle, remember, received, scan_step, is_if, is_endif, directive,
  close_conditional,
}
use xeus_cpp.Scan.Reads.{
  directive_item, Reads, plain_token, line_comment, directive_line, ints, nested,
}
use xeus_cpp.Scan.Nested.{ints-in_block_comment, plain-nested, handle-nested, scan_step-lex}

scan_step-nested :
    (m : Bool) (s : Scan) (st : List Bracket) {t : Token} {r : Bytes}
    → lex s.cursor ≡ done (t, r)
    → s.parent_stack ≡ ints m st
    → role_of_kind t.kind ≢ special
    → scan_step s
      ≡ done (nested m (of_kind t.kind) (received s t r) (nest (role_of_kind t.kind) st))
scan_step-nested m s st {t} {r} e p n = scan_step-lex s e ∙ handle-nested m (received s t r) st p n

-- The state behind a round that reads something of the kind `k` and ends at `r`.
pub record Round (m : Bool) (s : Scan) (st : List Bracket) (k : Item) (r : Bytes) : Type 0 where
  pub state : Scan
  pub steps : scan_step s ≡ done (nested m k state (nest (role k) st))
  pub cursor : state.cursor ≡ r
  pub kind : state.tok.kind ≡ item_kind k
  pub last : state.last_not_space_tok ≡ remember s
  pub res : state.res ≡ s.res
  pub ordinary : role k ≢ special

comment-steps :
    (m : Bool) (s : Scan) (st : List Bracket) (u : Token) (r : Bytes)
    → s.tok.kind ≡ TokenKind.comment
    → s.parent_stack ≡ ints m st
    → read_to_end_of_line s.cursor ≡ done (u, r)
    → handle s ≡ done (record s { tok = u; cursor = r })
unfolding handle switch
comment-steps m s st u r e p l =
    rw (ap in_block_comment p ∙ ints-in_block_comment m st, e) (rw l refl)

no_eof : is_kind TokenKind.raw_ident TokenKind.eof ≡ false
unfolding is_kind as_int
no_eof = refl

-- The back of the stack is the mark of a conditional exactly if the last open bracket is one.
close_conditional-nested :
    (m : Bool) (s : Scan) (st : List Bracket)
    → s.parent_stack ≡ ints m st
    → close_conditional s ≡ nested m endif_line s (nest (closes conditional) st)
unfolding close_conditional as_int
close_conditional-nested true s [] p = rw p
close_conditional-nested false s [] p = rw p
close_conditional-nested m s (square ∷ st) p = rw p
close_conditional-nested m s (paren ∷ st) p = rw p
close_conditional-nested m s (brace ∷ st) p = rw p
close_conditional-nested m s (conditional ∷ st) p =
    rw p (ap (λ n. record s { parent_stack = ints n st }) (sym (marked-plain m endif_line st refl)))

directive-nested :
    (m : Bool) (s : Scan) (st : List Bracket)
    → s.tok.kind ≡ TokenKind.raw_ident
    → s.parent_stack ≡ ints m st
    → let k : Item = directive_item (is_if (identifier s.tok)) (is_endif (identifier s.tok)) in
      directive s ≡ nested m k s (nest (role k) st)
unfolding directive
directive-nested m s st e p =
    by_name (is_if (identifier s.tok)) (is_endif (identifier s.tok)) refl refl
  where
    by_name :
        (i j : Bool)
        → is_if (identifier s.tok) ≡ i
        → is_endif (identifier s.tok) ≡ j
        → directive s ≡ nested m (directive_item i j) s (nest (role (directive_item i j)) st)
    by_name true j f g =
        rw (ap (λ k. is_kind k TokenKind.eof) e ∙ no_eof, f)
          (ap (λ ks. record s { parent_stack = as_int TokenKind.hash ∷ ks }) p)
    by_name false true f g =
        rw (ap (λ k. is_kind k TokenKind.eof) e ∙ no_eof, f, g) (close_conditional-nested m s st p)
    by_name false false f g =
        rw (ap (λ k. is_kind k TokenKind.eof) e ∙ no_eof, f, g)
          (plain-nested m (of_kind TokenKind.raw_ident) s st refl p)

directive-steps :
    (m : Bool) (s : Scan) (st : List Bracket) (u : Token) (n : ℕ) (q r : Bytes)
    → s.tok.kind ≡ TokenKind.hash
    → s.parent_stack ≡ ints m st
    → skip_whitespace s.cursor ≡ done (n, q)
    → lex_any_string q ≡ done (u, r)
    → u.kind ≡ TokenKind.raw_ident
    → let k : Item = directive_item (is_if (identifier u)) (is_endif (identifier u)) in
      handle s ≡ done (nested m k (record s { tok = u; cursor = r }) (nest (role k) st))
unfolding handle switch
directive-steps m s st u n q r e p w l k =
    rw (ap in_block_comment p ∙ ints-in_block_comment m st, e)
      (rw w (rw l (ap done (directive-nested m (record s { tok = u; cursor = r }) st k p))))

-- A hash with nothing behind it.
pub hash_end-steps :
    (m : Bool) (s : Scan) (st : List Bracket) (u : Token) (n : ℕ) (q r : Bytes)
    → s.tok.kind ≡ TokenKind.hash
    → s.parent_stack ≡ ints m st
    → skip_whitespace s.cursor ≡ done (n, q)
    → lex_any_string q ≡ done (u, r)
    → u.kind ≡ TokenKind.eof
    → handle s ≡ done (record s { tok = u; cursor = r })
unfolding handle switch directive
hash_end-steps m s st u n q r e p w l k =
    rw (ap in_block_comment p ∙ ints-in_block_comment m st, e)
      (rw w (rw l (rw ((is_kind_iff u.kind TokenKind.eof).1 k) refl)))

directive_item-kind : (i j : Bool) → TokenKind.raw_ident ≡ item_kind (directive_item i j)
directive_item-kind true j = refl
directive_item-kind false true = refl
directive_item-kind false false = refl

directive_item-ordinary : (i j : Bool) → role (directive_item i j) ≢ special
directive_item-ordinary true j e = cc
directive_item-ordinary false true e = cc
directive_item-ordinary false false e = cc

-- The state behind a round, by the item that is read.
abbrev as_item : Bool → Scan → List Bracket → Item → Run Scan
as_item m s st k = done (nested m k s (nest (role k) st))

pub Reads-Round :
    (m : Bool) (s : Scan) (st : List Bracket) {p r : Bytes} {k : Item}
    → Reads p k r
    → s.cursor ≡ p
    → s.parent_stack ≡ ints m st
    → Round m s st k r
Reads-Round m s st {r = r} (plain_token {t} e q n) c p = record {
  state = received s t r;
  steps =
      scan_step-nested m s st (ap lex c ∙ e) p (λ x. n (ap role q ∙ x))
      ∙ ap (as_item m (received s t r) st) (sym q);
  cursor = refl;
  kind = ap item_kind (sym q);
  last = refl;
  res = refl;
  ordinary = n;
}
Reads-Round m s st {r = r} (line_comment {q} {t} {u} e h l d f) c p =
    let after = record s { tok = u; cursor = r; last_not_space_tok = remember s } in
    record {
      state = after;
      steps =
          scan_step-lex s (ap lex c ∙ e)
          ∙ comment-steps m (received s t q) st u r h p l
          ∙ ap done (plain-nested m (of_kind TokenKind.unknown) after st refl p)
          ∙ ap (as_item m after st) (sym f);
      cursor = refl;
      kind = d ∙ ap item_kind (sym f);
      last = refl;
      res = refl;
      ordinary = λ x. cc;
    }
Reads-Round m s st {r = r} (directive_line {q} {q'} {t} {u} {n} e h w l d f) c p =
    let after = record s { tok = u; cursor = r; last_not_space_tok = remember s } in
    record {
      state = after;
      steps =
          scan_step-lex s (ap lex c ∙ e)
          ∙ directive-steps m (received s t q) st u n q' r h p w l d
          ∙ ap (as_item m after st) (sym f);
      cursor = refl;
      kind = d ∙ directive_item-kind _ _ ∙ ap item_kind (sym f);
      last = refl;
      res = refl;
      ordinary = λ x. directive_item-ordinary _ _ (ap role (sym f) ∙ x);
    }
