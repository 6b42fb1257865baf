-- ===== src/Scan/Total/Parts.antt =====
-- The parts of a buffer without quotes: its tokens, and what the other reads leave of it.
use xeus_cpp.Base.{
  ℕ, zero, suc, ◌<◌, ◌≤◌, ◌≡◌, ◌≢◌, ◌==◌, ◌⊎◌, inl, inr, refl, ap, sym, false, [], ◌∷◌, arith,
  Bytes, length, if_split, Bool-cases,
}
use xeus_cpp.Base.Run.{
  done, Ensures, Ensures-bind, Returns-some, Ensures-done, >>=-eq-done, done-injective,
}
use xeus_cpp.Token.{TokenKind, Token, is_kind, is_kind_iff}
use xeus_cpp.Lexer.Progress.{
  Follows, skip_while-Follows, lex-lt, skip_whitespace-Follows, read_to_end_of_line-Follows,
  lex_any_string-Follows,
}
use xeus_cpp.Lexer.Bounds.{
  Ends, skip_whitespace-Ends, read_to_end_of_line-Ends, lex_any_string-Ends,
}
use xeus_cpp.Lexer.{
  skip_while, in_line, in_raw_ident, lex, skip_whitespace, lex_any_string, read_to_end_of_line,
}
use xeus_cpp.Scan.Bounds.{no_quote, lex-Inside}
use xeus_cpp.Scan.Comments.{Inside, ends, skips}
use xeus_cpp.Scan.Comments.Open.{RunsOut, input_ends, goes_on}

-- A token of a buffer without quotes: the last one, or the rest of the buffer has no quotes either and is shorter.
pub record Lexed (p : Bytes) : Type 0 where
  pub tok : Token
  pub rest : Bytes
  pub lexed : lex p ≡ done (tok, rest)
  pub inside : (tok.kind ≡ TokenKind.eof) ⊎ Ends no_quote rest
  pub shorter : length rest < length p

pub lex-Lexed : (p : Bytes) → Ends no_quote p → Lexed p
lex-Lexed p h =
    let (x, e, i) = Returns-some _ (lex p) (lex-Inside p h) in
    record { tok = x.0; rest = x.1; lexed = e; inside = i; shorter = lex-lt p e }

pub read_to_end_of_line-kind :
    (p : Bytes) {u : Token} {r : Bytes}
    → read_to_end_of_line p ≡ done (u, r)
    → u.kind ≡ TokenKind.unknown
unfolding read_to_end_of_line
read_to_end_of_line-kind p e =
    let (q, w, h) = >>=-eq-done (skip_while in_line p) _ e in
    sym (ap (λ (x : Token × Bytes). x.0.kind) (done-injective h))

abbrev pub IsName : Token → Type 0
IsName u = (u.kind ≡ TokenKind.eof) ⊎ (u.kind ≡ TokenKind.raw_ident)

pub lex_any_string-kind : (p : Bytes) → Ensures (λ x. IsName x.0) (lex_any_string p)
unfolding lex_any_string
lex_any_string-kind [] = tt
lex_any_string-kind (c ∷ p) =
    if_split (Ensures (λ x. IsName x.0)) (c == 0) (λ _. inl refl)
      (λ _.
        Ensures-bind (Follows (c ∷ p)) (λ x. IsName x.0) (skip_while in_raw_ident (c ∷ p)) _
          (skip_while-Follows in_raw_ident (c ∷ p)) (λ q h. inr refl))

-- What is left behind a part of a buffer.
pub record Left (p r : Bytes) : Type 0 where
  pub inside : Ends no_quote r
  pub follows : length r ≤ length p

pub skip_whitespace-Left :
    (p : Bytes)
    → Ends no_quote p
    → (n : ℕ) × (r : Bytes) × (skip_whitespace p ≡ done (n, r)) × Left p r
skip_whitespace-Left p h =
    let (x, e, i) = Returns-some _ (skip_whitespace p) (skip_whitespace-Ends no_quote p h) in
    (
      x.0,
      x.1,
      e,
      record {
        inside = i;
        follows = Ensures-done (λ x. length x.1 ≤ length p) (skip_whitespace-Follows p) e;
      },
    )

pub read_to_end_of_line-Left :
    (p : Bytes)
    → Ends no_quote p
    → (u : Token) × (r : Bytes) × (read_to_end_of_line p ≡ done (u, r)) × Left p r
read_to_end_of_line-Left p h =
    let (x, e, i) =
      Returns-some _ (read_to_end_of_line p) (read_to_end_of_line-Ends no_quote p h) in
    (
      x.0,
      x.1,
      e,
      record {
        inside = i;
        follows = Ensures-done (λ x. length x.1 ≤ length p) (read_to_end_of_line-Follows p) e;
      },
    )

pub lex_any_string-Left :
    (p : Bytes)
    → Ends no_quote p
    → (u : Token) × (r : Bytes) × (lex_any_string p ≡ done (u, r)) × Left p r
lex_any_string-Left p h =
    let (x, e, i) = Returns-some _ (lex_any_string p) (lex_any_string-Ends no_quote p h) in
    (
      x.0,
      x.1,
      e,
      record {
        inside = i;
        follows = Ensures-done (λ x. length x.1 ≤ length p) (lex_any_string-Follows p) e;
      },
    )

-- A comment ends in the buffer, or the buffer ends in it.
abbrev pub Commented : Bytes → Type 0
Commented q = ((r : Bytes) × Inside q r × Ends no_quote r × (length r < length q)) ⊎ RunsOut q

on_with :
    {p : Bytes} (x : Lexed p)
    → x.tok.kind ≢ TokenKind.r_comment
    → x.tok.kind ≢ TokenKind.eof
    → Commented x.rest
    → Commented p
on_with x n d (inl (r, i, e, l)) = inl (r, skips x.lexed n d i, e, omega (arith, l, x.shorter))
on_with x n d (inr o) = inr (goes_on x.lexed n d o)

not_kind : (k j : TokenKind) → is_kind k j ≡ false → k ≢ j
not_kind k j n e = cc (n, (is_kind_iff k j).1 e)

pub comment-total : (f : ℕ) (q : Bytes) → length q < f → Ends no_quote q → Commented q
comment-total zero q l h = absurd (omega (arith, l))
comment-total (suc f) q l h =
    let x = lex-Lexed q h in
    by_kind x x.inside (λ i. comment-total f x.rest (omega (arith, l, x.shorter)) i)
  where
    by_kind :
        (x : Lexed q)
        → (x.tok.kind ≡ TokenKind.eof) ⊎ Ends no_quote x.rest
        → (Ends no_quote x.rest → Commented x.rest)
        → Commented q
    by_kind x (inl e) go = inr (input_ends x.lexed e)
    by_kind x (inr i) go = elim (Bool-cases (is_kind x.tok.kind TokenKind.r_comment)) [
      | inl y ↦
          inl
            (x.rest, ends x.lexed ((is_kind_iff x.tok.kind TokenKind.r_comment).0 y), i, x.shorter)
      | inr n ↦ elim (Bool-cases (is_kind x.tok.kind TokenKind.eof)) [
        | inl e ↦ inr (input_ends x.lexed ((is_kind_iff x.tok.kind TokenKind.eof).0 e))
        | inr d ↦
            on_with x (not_kind x.tok.kind TokenKind.r_comment n)
              (not_kind x.tok.kind TokenKind.eof d) (go i)
      ]
    ]
