-- ===== src/Lexer/Progress.antt =====
-- The lexer only moves forward, and each token makes progress.
use xeus_cpp.Base.{
  ℕ, ◌≤◌, ◌<◌, ◌≡◌, ap, Bool, [], ◌∷◌, ◌==◌, arith, Bytes, length, length-append, if_split,
}
use xeus_cpp.Base.Run.{done, Ensures, Ensures-bind, Ensures-done, Ensures-mono}
use xeus_cpp.Token.{Token}
use xeus_cpp.Lexer.Tokens.{Takes, lex-Lexes}
use xeus_cpp.Lexer.{
  skip_while, in_raw_ident, skip_whitespace, lex_any_string, read_to_end_of_line, lex,
}

-- The cursor `q` is not before `p`.
abbrev pub Follows : Bytes → Bytes → Type 0
Follows p q = length q ≤ length p

pub skip_while-Follows : (test : ℕ → Bool) (p : Bytes) → Ensures (Follows p) (skip_while test p)
unfolding skip_while
skip_while-Follows test [] = tt
skip_while-Follows test (c ∷ p) =
    if_split (Ensures (Follows (c ∷ p))) (test c)
      (λ _. Ensures-mono _ _ (skip_while test p) (skip_while-Follows test p) (λ q h. omega arith))
      (λ _. omega arith)

pub skip_whitespace-Follows : (p : Bytes) → Ensures (λ x. Follows p x.1) (skip_whitespace p)
unfolding skip_whitespace
skip_whitespace-Follows p = Ensures-bind (Follows p) _ _ _ (skip_while-Follows _ p) (λ q h. h)

pub read_to_end_of_line-Follows : (p : Bytes) → Ensures (λ x. Follows p x.1) (read_to_end_of_line p)
unfolding read_to_end_of_line
read_to_end_of_line-Follows p = Ensures-bind (Follows p) _ _ _ (skip_while-Follows _ p) (λ q h. h)

pub lex_any_string-Follows : (p : Bytes) → Ensures (λ x. Follows p x.1) (lex_any_string p)
unfolding lex_any_string
lex_any_string-Follows [] = tt
lex_any_string-Follows (c ∷ p) =
    if_split (Ensures (λ x. Follows (c ∷ p) x.1)) (c == 0) (λ _. omega arith)
      (λ _.
        Ensures-bind (Follows (c ∷ p)) (λ x. Follows (c ∷ p) x.1) (skip_while in_raw_ident (c ∷ p))
          _ (skip_while-Follows in_raw_ident (c ∷ p)) (λ q h. h))

Takes-shorter : (p : Bytes) (t : Token) (r : Bytes) → Takes p t r → length r < length p
Takes-shorter p t r k = ground (arith, ap length k.splits, length-append k.text r)

pub lex-shorter : (p : Bytes) → Ensures (λ x. length x.1 < length p) (lex p)
lex-shorter p = Ensures-mono _ _ (lex p) (lex-Lexes p) (λ x k. Takes-shorter p x.0 x.1 k)

pub lex-lt : (p : Bytes) {t : Token} {r : Bytes} → lex p ≡ done (t, r) → length r < length p
lex-lt p e = Ensures-done (λ x. length x.1 < length p) (lex-shorter p) e
