-- ===== src/Scan/Total.antt =====
-- Every buffer without quotes is read up to its end.
pub mod Parts
use xeus_cpp.Base.{
  ℕ, zero, suc, ◌<◌, ◌≤◌, ◌≡◌, ◌≢◌, ◌==◌, ◌⊎◌, inl, inr, refl, ap, sym, false, List, [], ◌∷◌, arith,
  Bytes, length, if_split, Bool-cases,
}
use xeus_cpp.Base.Run.{
  done, Ensures, Ensures-bind, Returns-some, Ensures-done, >>=-eq-done, done-injective,
}
use xeus_cpp.Token.{TokenKind, Token, is_kind, is_kind_iff}
use xeus_cpp.Lexer.Progress.{
  Follows, skip_while-Follows, lex-lt, skip_whitespace-Follows, read_to_end_of_line-Follows,
  lex_any_string-Follows,
}
use xeus_cpp.Lexer.Bounds.{
  Ends, skip_whitespace-Ends, read_to_end_of_line-Ends, lex_any_string-Ends,
}
use xeus_cpp.Lexer.{
  skip_while, in_line, in_raw_ident, lex, skip_whitespace, lex_any_string, read_to_end_of_line,
}
use xeus_cpp.Scan.Bounds.{no_quote, lex-Inside}
use xeus_cpp.Scan.Brackets.{Item, open_comment, block_comment, role_of_kind, special}
use xeus_cpp.Scan.Comments.{Inside, ends, skips}
use xeus_cpp.Scan.Comments.Open.{RunsOut, input_ends, goes_on}
use xeus_cpp.Scan.Reads.{Reads, plain_token, line_comment, directive_line}
use xeus_cpp.Scan.Refines.{Tokens, stop, stop_hash, stop_comment, more, comment}
use xeus_cpp.Scan.Total.Parts.{
  Lexed, lex-Lexed, read_to_end_of_line-kind, IsName, lex_any_string-kind, Left,
  skip_whitespace-Left, read_to_end_of_line-Left, lex_any_string-Left, Commented, comment-total,
}

-- The items of a buffer.
abbrev Itemized : Bytes → Type 0
Itemized p = (ks : List Item) × Tokens p ks

-- Shorter buffers without quotes are read.
abbrev Shorter : Bytes → Type 0
Shorter p = (r : Bytes) → length r < length p → Ends no_quote r → Itemized r

then : {p r : Bytes} {k : Item} → Reads p k r → Itemized r → Itemized p
then {k = k} x (ks, l) = (k ∷ ks, more x l)

on_line :
    {p : Bytes} (x : Lexed p)
    → x.tok.kind ≡ TokenKind.comment
    → Ends no_quote x.rest
    → Shorter p
    → Itemized p
on_line x k i go =
    let (u, r, e, left) = read_to_end_of_line-Left x.rest i in
    then (line_comment x.lexed k e (read_to_end_of_line-kind x.rest e) refl)
      (go r (omega (arith, left.follows, x.shorter)) left.inside)

on_comment :
    {p : Bytes} (x : Lexed p)
    → x.tok.kind ≡ TokenKind.l_comment
    → Commented x.rest
    → Shorter p
    → Itemized p
on_comment x k (inl (r, inside, e, l)) go =
    let (ks, tokens) = go r (omega (arith, l, x.shorter)) e in
    (block_comment ∷ ks, comment x.lexed k inside tokens)
on_comment x k (inr o) go = (open_comment ∷ [], stop_comment x.lexed k o)

on_hash :
    {p : Bytes} (x : Lexed p)
    → x.tok.kind ≡ TokenKind.hash
    → Ends no_quote x.rest
    → Shorter p
    → Itemized p
on_hash {p} x k i go =
    let (n, q, blank, left) = skip_whitespace-Left x.rest i in
    let (u, r, name, left') = lex_any_string-Left q left.inside in
    by_name n q u r blank name (Ensures-done (λ y. IsName y.0) (lex_any_string-kind q) name)
      left'.inside (omega (arith, left.follows, left'.follows, x.shorter))
  where
    by_name :
        (n : ℕ) (q : Bytes) (u : Token) (r : Bytes)
        → skip_whitespace x.rest ≡ done (n, q)
        → lex_any_string q ≡ done (u, r)
        → IsName u
        → Ends no_quote r
        → length r < length p
        → Itemized p
    by_name n q u r blank name (inl e) i l = ([], stop_hash x.lexed k blank name e)
    by_name n q u r blank name (inr e) i l =
        then (directive_line x.lexed k blank name e refl) (go r l i)

-- A token that is none of these.
on_token :
    {p : Bytes} (x : Lexed p)
    → role_of_kind x.tok.kind ≢ special
    → Ends no_quote x.rest
    → Shorter p
    → Itemized p
on_token x n i go = then (plain_token x.lexed refl n) (go x.rest x.shorter i)

by_token :
    {p : Bytes} (k : TokenKind) (x : Lexed p)
    → x.tok.kind ≡ k
    → Ends no_quote x.rest
    → Shorter p
    → Itemized p
by_token TokenKind.comment x e i go = on_line x e i go
by_token TokenKind.l_comment x e i go =
    on_comment x e (comment-total (suc (length x.rest)) x.rest (omega arith) i) go
by_token TokenKind.hash x e i go = on_hash x e i go
by_token TokenKind.eof x e i go = ([], stop x.lexed e)
by_token k x e i go = on_token x (λ s. cc (ap role_of_kind e, s)) i go

Tokens-total : (f : ℕ) (p : Bytes) → length p < f → Ends no_quote p → Itemized p
Tokens-total zero p l h = absurd (omega (arith, l))
Tokens-total (suc f) p l h =
    let x = lex-Lexed p h in by_end x x.inside (λ r m i. Tokens-total f r (omega (arith, l, m)) i)
  where
    by_end :
        (x : Lexed p) → (x.tok.kind ≡ TokenKind.eof) ⊎ Ends no_quote x.rest → Shorter p → Itemized p
    by_end x (inl e) go = ([], stop x.lexed e)
    by_end x (inr i) go = by_token x.tok.kind x refl i go

-- A buffer without quotes is read up to its end.
pub quoteless-Tokens : (p : Bytes) → Ends no_quote p → (ks : List Item) × Tokens p ks
quoteless-Tokens p h = Tokens-total (suc (length p)) p (omega arith) h
