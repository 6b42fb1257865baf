-- ===== src/Lexer/Bounds.antt =====
-- Reads stay inside the buffer: only an unclosed literal runs over the terminating zero.
use xeus_cpp.Base.{
  ℕ, ◌≡◌, ◌≢◌, ◌↔◌, refl, ap, Bool, true, false, ◌||◌, [], ◌∷◌, ◌++◌, ◌⊎◌, inl, inr, ◌==◌, arith,
  Bytes, if_split, Bool-cases,
}
use xeus_cpp.Base.Run.{
  Run, done, out_of_bounds, out_of_fuel, ◌>>=◌, Returns, Returns-bind, Returns-ne-out_of_bounds,
  bind_done-out_of_bounds,
}
use xeus_cpp.Token.{TokenKind, Token}
use xeus_cpp.Lexer.Literals.{Body, close_quote-Closed, close_quote-Body, close_quote-ne-out_of_fuel}
use xeus_cpp.Lexer.{
  skip_while, in_raw_ident, in_line, in_blanks, skip_whitespace, lex_any_string,
  read_to_end_of_line, is_quoted_string, is_punctuator, is_digit, is_alpha, is_word, is_whitespace,
  lex_constant, lex_identifier, lex_whitespace, lex_punctuator, lex_left_comment, lex_right_comment,
  lex_slash, lex_star, lex_other, close_quote, lex_quoted_string, lex,
}

-- Bytes that pass the test, and a zero behind them.
abbrev pub Ends : (ℕ → Bool) → Bytes → Type 0
Ends ok [] = ⊥
Ends ok (c ∷ []) = c ≡ 0
Ends ok (c ∷ d ∷ p) = (ok c ≡ true) × Ends ok (d ∷ p)

-- The buffer of a string.
pub Ends-buffer :
    (ok : ℕ → Bool) (input : Bytes) → ((c : ℕ) → ok c ≡ true) → Ends ok (input ++ 0 ∷ [])
Ends-buffer ok [] h = refl
Ends-buffer ok (c ∷ []) h = (h c, refl)
Ends-buffer ok (c ∷ d ∷ p) h = (h c, Ends-buffer ok (d ∷ p) h)

-- A token and a cursor that is in the buffer still, or is behind the terminating zero.
abbrev pub Within : (ℕ → Bool) → Token × Bytes → Type 0
Within ok x = (x.0.kind ≡ TokenKind.eof) ⊎ Ends ok x.1

punctuator-nonzero : (c : ℕ) → is_punctuator c ≡ true → c ≢ 0
unfolding is_punctuator
punctuator-nonzero c h e = cc (e, h)

module _ (ok : ℕ → Bool) where
  skip_while-Ends :
      (test : ℕ → Bool) (p : Bytes)
      → test 0 ≡ false
      → Ends ok p
      → Returns (Ends ok) (skip_while test p)
  unfolding skip_while
  skip_while-Ends test [] z e = e
  skip_while-Ends test (c ∷ []) z e = if_split (Returns (Ends ok)) (test c) (λ h. cc) (λ h. e)
  skip_while-Ends test (c ∷ d ∷ p) z e =
      if_split (Returns (Ends ok)) (test c) (λ h. skip_while-Ends test (d ∷ p) z e.1) (λ h. e)

  pub skip_whitespace-Ends :
      (p : Bytes) → Ends ok p → Returns (λ x. Ends ok x.1) (skip_whitespace p)
  unfolding skip_whitespace
  skip_whitespace-Ends p e =
      Returns-bind (Ends ok) _ (skip_while in_blanks p) _
        (skip_while-Ends in_blanks p (ground arith) e) (λ q h. h)

  pub read_to_end_of_line-Ends :
      (p : Bytes) → Ends ok p → Returns (λ x. Ends ok x.1) (read_to_end_of_line p)
  unfolding read_to_end_of_line
  read_to_end_of_line-Ends p e =
      Returns-bind (Ends ok) _ (skip_while in_line p) _ (skip_while-Ends in_line p refl e)
        (λ q h. h)

  pub lex_any_string-Ends : (p : Bytes) → Ends ok p → Returns (λ x. Ends ok x.1) (lex_any_string p)
  unfolding lex_any_string
  lex_any_string-Ends [] e = e
  lex_any_string-Ends (c ∷ p) e =
      if_split (Returns (λ x. Ends ok x.1)) (c == 0) (λ _. e)
        (λ _.
          Returns-bind (Ends ok) (λ x. Ends ok x.1) (skip_while in_raw_ident (c ∷ p)) _
            (skip_while-Ends in_raw_ident (c ∷ p) refl e) (λ q h. h))

  lex_scan-Ends :
      (test : ℕ → Bool) (p : Bytes) (t : Bytes → Token)
      → test 0 ≡ false
      → Ends ok p
      → Returns (Within ok) (skip_while test p >>= λ q. done (t q, q))
  lex_scan-Ends test p t z e =
      Returns-bind (Ends ok) (Within ok) (skip_while test p) _ (skip_while-Ends test p z e)
        (λ q h. inr h)

  lex_constant-Ends : (p : Bytes) → Ends ok p → Returns (Within ok) (lex_constant p)
  unfolding lex_constant
  lex_constant-Ends p e = lex_scan-Ends is_digit p _ (unfold is_digit in refl) e

  lex_identifier-Ends : (p : Bytes) → Ends ok p → Returns (Within ok) (lex_identifier p)
  unfolding lex_identifier
  lex_identifier-Ends p e = lex_scan-Ends is_word p _ (unfold is_word is_alpha is_digit in refl) e

  lex_whitespace-Ends : (p : Bytes) → Ends ok p → Returns (Within ok) (lex_whitespace p)
  unfolding lex_whitespace
  lex_whitespace-Ends p e =
      Returns-bind _ (Within ok) (skip_whitespace p) _ (skip_whitespace-Ends p e) (λ x h. inr h)

  -- Behind a byte that is not zero the buffer goes on.
  Ends-tail : (c : ℕ) (p : Bytes) → c ≢ 0 → Ends ok (c ∷ p) → Ends ok p
  Ends-tail c [] n e = absurd (n e)
  Ends-tail c (d ∷ p) n e = e.1

  lex_punctuator-Ends :
      (c : ℕ) (p : Bytes) → c ≢ 0 → Ends ok (c ∷ p) → Returns (Within ok) (lex_punctuator (c ∷ p))
  unfolding lex_punctuator
  lex_punctuator-Ends c p n e = inr (Ends-tail c p n e)

  lex_slash-Ends :
      (c : ℕ) (p : Bytes) → c ≢ 0 → Ends ok (c ∷ p) → Returns (Within ok) (lex_slash (c ∷ p))
  unfolding lex_slash lex_left_comment
  lex_slash-Ends c [] n e = absurd (n e)
  lex_slash-Ends c (d ∷ p) n e =
      if_split (Returns (Within ok)) (d == b'/' || d == b'*')
        (λ h. inr (Ends-tail d p (ground arith) e.1)) (λ _. lex_punctuator-Ends c (d ∷ p) n e)

  lex_star-Ends :
      (c : ℕ) (p : Bytes) → c ≢ 0 → Ends ok (c ∷ p) → Returns (Within ok) (lex_star (c ∷ p))
  unfolding lex_star lex_right_comment
  lex_star-Ends c [] n e = absurd (n e)
  lex_star-Ends c (d ∷ p) n e =
      if_split (Returns (Within ok)) (d == b'/') (λ _. inr e.1)
        (λ _. lex_punctuator-Ends c (d ∷ p) n e)

  lex_other-Ends : (c : ℕ) (p : Bytes) → Ends ok (c ∷ p) → Within ok (lex_other c p)
  unfolding lex_other
  lex_other-Ends c p e = elim (Bool-cases (c == 0)) [
    | inl z ↦ rw z (inl refl)
    | inr n ↦ rw n (inr (Ends-tail c p (ground arith) e))
  ]

  -- At a byte that is no quote `lex` returns a token.
  pub lex-Ends :
      (c : ℕ) (p : Bytes)
      → is_quoted_string c ≡ false
      → Ends ok (c ∷ p)
      → Returns (Within ok) (lex (c ∷ p))
  unfolding lex lex_punctuator
  lex-Ends c p n e = rw n (
      if_split (Returns (Within ok)) (is_punctuator c)
        (λ h. lex_punctuator-Ends c p (punctuator-nonzero c h) e)
        λ _.
          if_split (Returns (Within ok)) (c == b'/') (λ h. lex_slash-Ends c p (ground arith) e)
            λ _.
              if_split (Returns (Within ok)) (c == b'*') (λ h. lex_star-Ends c p (ground arith) e)
                λ _.
                  if_split (Returns (Within ok)) (is_digit c) (λ _. lex_constant-Ends (c ∷ p) e)
                    λ _.
                      if_split (Returns (Within ok)) (is_alpha c || c == b'_')
                        (λ _. lex_identifier-Ends (c ∷ p) e)
                        λ _.
                          if_split (Returns (Within ok)) (is_whitespace c)
                            (λ _. lex_whitespace-Ends (c ∷ p) e) λ _. lex_other-Ends c p e)

-- No body of a literal closes at its quote.
abbrev pub Unclosed : ℕ → Bytes → Type 0
Unclosed q p = (b r : Bytes) → Body q b → p ≢ b ++ (q ∷ r)

close_quote-Unclosed :
    (q : ℕ) (p : Bytes) → q ≢ b'\\' → close_quote q p ≡ out_of_bounds → Unclosed q p
close_quote-Unclosed q p n h b r k e =
    let closed = close_quote-Body r n k in cc (closed, h, ap (close_quote q) e)

Unclosed-close_quote : (q : ℕ) (p : Bytes) → Unclosed q p → close_quote q p ≡ out_of_bounds
Unclosed-close_quote q p u = go (close_quote q p) refl
  where
    go : (m : Run Bytes) → close_quote q p ≡ m → m ≡ out_of_bounds
    go (done r) e = let k = close_quote-Closed q p e in absurd (u k.body r k.is_body k.splits)
    go out_of_bounds e = refl
    go out_of_fuel e = absurd (close_quote-ne-out_of_fuel q p e)

lex_quoted_string-out_of_bounds :
    (c : ℕ) (p : Bytes)
    → is_quoted_string c ≡ true
    → (lex (c ∷ p) ≡ out_of_bounds) ↔ (close_quote c p ≡ out_of_bounds)
unfolding lex lex_quoted_string
lex_quoted_string-out_of_bounds c p h = rw h (bind_done-out_of_bounds (close_quote c p) _)

quote-ne-backslash : (c : ℕ) → is_quoted_string c ≡ true → c ≢ b'\\'
unfolding is_quoted_string
quote-ne-backslash c h = ground arith

-- In a buffer that ends in a zero, `lex` reads outside it exactly at a quote whose literal is
-- not closed in what is left of the buffer.
pub lex-out_of_bounds :
    (c : ℕ) (p : Bytes)
    → Ends (λ _. true) (c ∷ p)
    → (lex (c ∷ p) ≡ out_of_bounds) ↔ ((is_quoted_string c ≡ true) × Unclosed c p)
lex-out_of_bounds c p e = elim (Bool-cases (is_quoted_string c)) [
  | inl q ↦
      let (there, back) = lex_quoted_string-out_of_bounds c p q in
      (
        λ h. (q, close_quote-Unclosed c p (quote-ne-backslash c q) (there h)),
        λ u. back (Unclosed-close_quote c p u.1),
      )
  | inr n ↦ (
    λ h. absurd (Returns-ne-out_of_bounds _ _ (lex-Ends (λ _. true) c p n e) h),
    λ u. cc (n, u.0),
  )
]
