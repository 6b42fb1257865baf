-- ===== src/Scan/Comments.antt =====
-- Block comments: the rounds of the loop from behind an opening mark to behind the star of the closing one.
pub mod Open
use xeus_cpp.Base.{
  ℕ, zero, suc, ◌<◌, ◌≡◌, ◌≢◌, refl, ap, ◌∙◌, Bool, true, false, List, ◌∷◌, arith, Bytes, length,
  Bool-cases, inl, inr, if◌then◌else◌,
}
use xeus_cpp.Base.Run.{done, Returns}
use xeus_cpp.Token.{TokenKind, as_int, is_kind, is_kind_iff, Token}
use xeus_cpp.Lexer.{lex}
use xeus_cpp.Lexer.Progress.{lex-lt}
use xeus_cpp.Scan.Bounds.{handle_eof, eof-stops}
use xeus_cpp.Scan.Reads.{ints}
use xeus_cpp.Scan.Nested.{scan_step-lex}
use xeus_cpp.Scan.Brackets.{Bracket}
use xeus_cpp.Scan.{
  Scan, complete, is_mismatch, in_block_comment, pop_back, push_kind, switch, handle, received,
  scan_step, continues, scan,
}

pub scan-suc :
    (f : ℕ) (s t : Scan)
    → scan_step s ≡ done t
    → scan (suc f) s ≡ (if continues t then scan f t else done t)
unfolding scan
scan-suc f s t e = rw e

pub continues_live : (u : Scan) → u.tok.kind ≢ TokenKind.eof → u.res ≡ complete → continues u ≡ true
unfolding continues is_mismatch
continues_live u n h = elim (Bool-cases (is_kind u.tok.kind TokenKind.eof)) [
  | inl y ↦ absurd (n ((is_kind_iff u.tok.kind TokenKind.eof).0 y))
  | inr x ↦ ground arith
]

-- The bytes from `p` to `r` are the inside of a block comment and the star of its closing mark.
pub data Inside : Bytes → Bytes → Type 0 where
  ends : {p r : Bytes} {t : Token} → lex p ≡ done (t, r) → t.kind ≡ TokenKind.r_comment → Inside p r
  skips :
      {p q r : Bytes} {t : Token}
      → lex p ≡ done (t, q)
      → t.kind ≢ TokenKind.r_comment
      → t.kind ≢ TokenKind.eof
      → Inside q r
      → Inside p r

abbrev pub commented : Bool → List Bracket → List ℕ
commented m st = as_int TokenKind.l_comment ∷ ints m st

pub top-l_comment :
    (s : Scan) (m : Bool) (st : List Bracket)
    → s.parent_stack ≡ commented m st
    → in_block_comment s.parent_stack ≡ true
unfolding in_block_comment as_int
top-l_comment s m st p = rw p

pub handle-skip :
    (s : Scan) (m : Bool) (st : List Bracket)
    → s.parent_stack ≡ commented m st
    → s.tok.kind ≢ TokenKind.r_comment
    → handle s ≡ done s
unfolding handle
handle-skip s m st p n = elim (Bool-cases (is_kind s.tok.kind TokenKind.r_comment)) [
  | inl y ↦ absurd (n ((is_kind_iff s.tok.kind TokenKind.r_comment).0 y))
  | inr x ↦ rw (top-l_comment s m st p, x)
]

is_kind-r_comment : is_kind TokenKind.r_comment TokenKind.r_comment ≡ true
unfolding is_kind as_int
is_kind-r_comment = refl

switch-r_comment :
    (s : Scan) (m : Bool) (st : List Bracket)
    → s.parent_stack ≡ commented m st
    → switch TokenKind.r_comment s ≡ done (record s { parent_stack = ints m st })
unfolding switch
switch-r_comment s m st p =
    rw (top-l_comment s m st p) (ap (λ ks. done (record s { parent_stack = pop_back ks })) p)

switched :
    (s : Scan)
    → in_block_comment s.parent_stack ≡ true
    → is_kind s.tok.kind TokenKind.r_comment ≡ true
    → handle s ≡ switch s.tok.kind s
unfolding handle
switched s b k = rw (b, k)

unswitched : (s : Scan) → in_block_comment s.parent_stack ≡ false → handle s ≡ switch s.tok.kind s
unfolding handle
unswitched s b = rw b

handle-end :
    (s : Scan) (m : Bool) (st : List Bracket)
    → s.parent_stack ≡ commented m st
    → s.tok.kind ≡ TokenKind.r_comment
    → handle s ≡ done (record s { parent_stack = ints m st })
handle-end s m st p e =
    switched s (top-l_comment s m st p)
      (ap (λ k. is_kind k TokenKind.r_comment) e ∙ is_kind-r_comment)
    ∙ ap (λ k. switch k s) e
    ∙ switch-r_comment s m st p

push_kind-l_comment :
    (s : Scan) (m : Bool) (st : List Bracket)
    → s.parent_stack ≡ ints m st
    → s.tok.kind ≡ TokenKind.l_comment
    → push_kind s ≡ record s { parent_stack = commented m st }
unfolding push_kind
push_kind-l_comment s m st p e =
    ap (λ k. record s { parent_stack = as_int k ∷ s.parent_stack }) e
    ∙ ap (λ ks. record s { parent_stack = as_int TokenKind.l_comment ∷ ks }) p

switch-l_comment : (s : Scan) → switch TokenKind.l_comment s ≡ done (push_kind s)
unfolding switch
switch-l_comment s = refl

pub handle-l_comment :
    (s : Scan) (m : Bool) (st : List Bracket)
    → in_block_comment s.parent_stack ≡ false
    → s.parent_stack ≡ ints m st
    → s.tok.kind ≡ TokenKind.l_comment
    → handle s ≡ done (record s { parent_stack = commented m st })
handle-l_comment s m st n p e =
    unswitched s n
    ∙ ap (λ k. switch k s) e
    ∙ switch-l_comment s
    ∙ ap done (push_kind-l_comment s m st p e)

-- The loop behind a comment: at `r`, with the stack that it had before, and with enough fuel.
pub record Passed (f : ℕ) (s : Scan) (m : Bool) (st : List Bracket) (r : Bytes) : Type 0 where
  pub fuel : ℕ
  pub state : Scan
  pub same : scan f s ≡ scan fuel state
  pub cursor : state.cursor ≡ r
  pub enough : length r < fuel
  pub stack : state.parent_stack ≡ ints m st
  pub res : state.res ≡ complete
  pub kind : state.tok.kind ≡ TokenKind.r_comment

pub round-on :
    (f : ℕ) (s u : Scan)
    → scan_step s ≡ done u
    → u.tok.kind ≢ TokenKind.eof
    → u.res ≡ complete
    → scan (suc f) s ≡ scan f u
round-on f s u e n h =
    scan-suc f s u e ∙ ap (λ b. if b then scan f u else done u) (continues_live u n h)

pub scan-Inside :
    {p r : Bytes} (f : ℕ) (s : Scan) (m : Bool) (st : List Bracket)
    → Inside p r
    → s.cursor ≡ p
    → length p < f
    → s.parent_stack ≡ commented m st
    → s.res ≡ complete
    → Passed f s m st r
scan-Inside zero s m st x c l p h = absurd (omega arith)
scan-Inside {r = r} (suc f) s m st (ends {t} e k) c l p h = record {
  fuel = f;
  state = record (received s t r) { parent_stack = ints m st };
  same =
      round-on f s (record (received s t r) { parent_stack = ints m st })
        (scan_step-lex s (ap lex c ∙ e) ∙ handle-end (received s t r) m st p k) (λ x. cc) h;
  cursor = refl;
  enough = omega (arith, lex-lt _ e);
  stack = refl;
  res = h;
  kind = k;
}
scan-Inside {r = r} (suc f) s m st (skips {q} {t} e n d x) c l p h =
    let rest = scan-Inside f (received s t q) m st x refl (omega (arith, lex-lt _ e)) p h in
    record {
      fuel = rest.fuel;
      state = rest.state;
      same =
          round-on f s (received s t q)
            (scan_step-lex s (ap lex c ∙ e) ∙ handle-skip (received s t q) m st p n) d h
          ∙ rest.same;
      cursor = rest.cursor;
      enough = rest.enough;
      stack = rest.stack;
      res = rest.res;
      kind = rest.kind;
    }

-- A whole comment, with its opening mark.
pub scan-comment :
    {p q r : Bytes} {t : Token} (f : ℕ) (s : Scan) (m : Bool) (st : List Bracket)
    → lex p ≡ done (t, q)
    → t.kind ≡ TokenKind.l_comment
    → Inside q r
    → in_block_comment s.parent_stack ≡ false
    → s.cursor ≡ p
    → length p < f
    → s.parent_stack ≡ ints m st
    → s.res ≡ complete
    → Passed f s m st r
scan-comment zero s m st e k x b c l p h = absurd (omega arith)
scan-comment {q = q} {r = r} {t = t} (suc f) s m st e k x b c l p h =
    let u = record (received s t q) { parent_stack = commented m st } in
    let rest : Passed f u m st r = scan-Inside f u m st x refl (omega (arith, lex-lt _ e)) refl h in
    record {
      fuel = rest.fuel;
      state = rest.state;
      same =
          round-on f s u
            (scan_step-lex s (ap lex c ∙ e) ∙ handle-l_comment (received s t q) m st b p k)
            (λ y. cc) h
          ∙ rest.same;
      cursor = rest.cursor;
      enough = rest.enough;
      stack = rest.stack;
      res = rest.res;
      kind = rest.kind;
    }
