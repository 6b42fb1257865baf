-- ===== src/Lexer/Tokens.antt =====
-- Tokens tile the buffer: what each token covers, and where the cursor stands behind it.
use xeus_cpp.Base.{
  ℕ, ◌-◌, ◌≡◌, ◌≢◌, refl, ap, sym, ◌∙◌, Bool, true, false, [], ◌∷◌, ◌++◌, ◌⊎◌, inl, inr, ◌==◌,
  arith, Bytes, length, length-append, append_assoc, Bool-cases, ◌||◌, if_split,
}
use xeus_cpp.Base.Run.{
  Run, done, out_of_bounds, out_of_fuel, ◌>>=◌, >>=-assoc, Ensures, done-injective,
}
use xeus_cpp.Token.{TokenKind, Token, token}
use xeus_cpp.Lexer.Literals.{close_quote-Closed, close_quote-ne-out_of_fuel}
use xeus_cpp.Lexer.{
  skip_while, in_blanks, skip_whitespace, lex_whitespace, is_word, is_digit, is_alpha,
  is_whitespace, lex_identifier, lex_constant, lex_quoted_string, close_quote, lex_punctuator,
  lex_left_comment, lex_right_comment, lex, lex_slash, lex_star, lex_other, is_quoted_string,
  is_punctuator,
}

abbrev pub All : (ℕ → Bool) → Bytes → Type 0
All test [] = Unit
All test (c ∷ p) = (test c ≡ true) × All test p

-- `p` is bytes that pass the test, then `r`, which begins with one that does not.
pub record Passes (test : ℕ → Bool) (p r : Bytes) : Type 0 where
  pub passed : Bytes
  pub next : ℕ
  pub rest : Bytes
  pub splits : p ≡ passed ++ r
  pub all_pass : All test passed
  pub stops : r ≡ next ∷ rest
  pub next_fails : test next ≡ false

Passes-cons :
    (test : ℕ → Bool) (c : ℕ) {p r : Bytes}
    → test c ≡ true
    → Passes test p r
    → Passes test (c ∷ p) r
Passes-cons test c h k = record {
  passed = c ∷ k.passed;
  next = k.next;
  rest = k.rest;
  splits = ap (◌∷◌ c) k.splits;
  all_pass = (h, k.all_pass);
  stops = k.stops;
  next_fails = k.next_fails;
}

Passes-here :
    (test : ℕ → Bool) (c : ℕ) (p : Bytes) {r : Bytes}
    → test c ≡ false
    → c ∷ p ≡ r
    → Passes test (c ∷ p) r
Passes-here test c p h e = record {
  passed = [];
  next = c;
  rest = p;
  splits = e;
  all_pass = tt;
  stops = sym e;
  next_fails = h;
}

cons-ne-nil : (c : ℕ) (p : Bytes) → ◌≢◌ {A = Bytes} (c ∷ p) []
cons-ne-nil c p h = cc

pub skip_while-Passes :
    (test : ℕ → Bool) (p : Bytes) {r : Bytes} → skip_while test p ≡ done r → Passes test p r
unfolding skip_while
skip_while-Passes test [] h = cc
skip_while-Passes test (c ∷ p) h = elim (Bool-cases (test c)) [
  | inl e ↦ Passes-cons test c e (skip_while-Passes test p (rw e at h))
  | inr n ↦ Passes-here test c p n (done-injective (rw n at h))
]

-- The token covers `text`, which is not empty, and the cursor is behind it. There are two exceptions: the token of
-- a byte that begins no token has the length 0, and behind a star that closes a block comment the cursor stands on
-- the slash that the token's length includes.
pub record Takes (p : Bytes) (t : Token) (r : Bytes) : Type 0 where
  pub text : Bytes
  pub splits : p ≡ text ++ r
  pub moves : text ≢ []
  pub starts : t.buffer ≡ p
  pub covers :
      (t.length ≡ length text)
      ⊎ (((t.kind ≡ TokenKind.unknown) × (t.length ≡ 0))
          ⊎ ((t.kind ≡ TokenKind.r_comment)
              × (t.length ≡ 2)
              × (text ≡ b'*' ∷ [])
              × ((rest : Bytes) × (r ≡ b'/' ∷ rest))))

span-length : (text p r : Bytes) → p ≡ text ++ r → length p - length r ≡ length text
span-length text p r e = omega (arith, ap length e, length-append {0} text r)

-- A token that ends where the pointer difference says.
Takes-span :
    (k : TokenKind) (text p r : Bytes)
    → p ≡ text ++ r
    → text ≢ []
    → Takes p (token k p (length p - length r)) r
Takes-span k text p r e n = record {
  text = text;
  splits = e;
  moves = n;
  starts = refl;
  covers = inl (span-length text p r e);
}

Passes-moves :
    (test : ℕ → Bool) (c : ℕ) (p : Bytes) {r : Bytes}
    → test c ≡ true
    → (k : Passes test (c ∷ p) r) → k.passed ≢ []
Passes-moves test c p h k e = ground arith

-- The shape that `lex_identifier`, `lex_constant` and `lex_whitespace` share.
skip_while-Takes :
    (test : ℕ → Bool) (k : TokenKind) (c : ℕ) (p : Bytes) {r : Bytes}
    → test c ≡ true
    → skip_while test (c ∷ p) ≡ done r
    → Takes (c ∷ p) (token k (c ∷ p) (length (c ∷ p) - length r)) r
skip_while-Takes test k c p h e =
    let q = skip_while-Passes test (c ∷ p) e in
    Takes-span k q.passed (c ∷ p) _ q.splits (Passes-moves test c p h q)

-- A token of a fixed number of bytes.
Takes-fixed :
    (k : TokenKind) (text r : Bytes)
    → text ≢ []
    → Takes (text ++ r) (token k (text ++ r) (length text)) r
Takes-fixed k text r n = record {
  text = text;
  splits = refl;
  moves = n;
  starts = refl;
  covers = inl refl;
}

-- What a lexing function may return at `p`.
abbrev pub Lexes : Bytes → Run (Token × Bytes) → Type 0
Lexes p = Ensures (λ x. Takes p x.0 x.1)

skip_while-ne-out_of_fuel : (test : ℕ → Bool) (p : Bytes) → skip_while test p ≢ out_of_fuel
unfolding skip_while
skip_while-ne-out_of_fuel test [] h = cc
skip_while-ne-out_of_fuel test (c ∷ p) h = ground (arith, skip_while-ne-out_of_fuel test p)

-- A scan for the end of the token, and the token up to that place.
Lexes-bind :
    (k : TokenKind) (p : Bytes) (m : Run Bytes)
    → m ≢ out_of_fuel
    → ((r : Bytes) → m ≡ done r → Takes p (token k p (length p - length r)) r)
    → Lexes p (m >>= λ q. done (token k p (length p - length q), q))
Lexes-bind k p (done r) n h = h r refl
Lexes-bind k p out_of_bounds n h = tt
Lexes-bind k p out_of_fuel n h = n refl

lex_scan-Lexes :
    (test : ℕ → Bool) (k : TokenKind) (c : ℕ) (p : Bytes)
    → test c ≡ true
    → Lexes
        (c ∷ p)
        (skip_while test (c ∷ p) >>= λ q. done (token k (c ∷ p) (length (c ∷ p) - length q), q))
lex_scan-Lexes test k c p h =
    Lexes-bind k (c ∷ p) (skip_while test (c ∷ p)) (skip_while-ne-out_of_fuel test (c ∷ p))
      (λ r e. skip_while-Takes test k c p h e)

lex_identifier-Lexes :
    (c : ℕ) (p : Bytes) → is_word c ≡ true → Lexes (c ∷ p) (lex_identifier (c ∷ p))
unfolding lex_identifier
lex_identifier-Lexes c p h = lex_scan-Lexes is_word TokenKind.ident c p h

lex_constant-Lexes : (c : ℕ) (p : Bytes) → is_digit c ≡ true → Lexes (c ∷ p) (lex_constant (c ∷ p))
unfolding lex_constant
lex_constant-Lexes c p h = lex_scan-Lexes is_digit TokenKind.constant c p h

blank-nonzero : (c : ℕ) → is_whitespace c ≡ true → in_blanks c ≡ true
unfolding is_whitespace
blank-nonzero c h = ground arith

lex_whitespace-Lexes :
    (c : ℕ) (p : Bytes) → is_whitespace c ≡ true → Lexes (c ∷ p) (lex_whitespace (c ∷ p))
unfolding lex_whitespace skip_whitespace
lex_whitespace-Lexes c p h =
    rw >>=-assoc (lex_scan-Lexes in_blanks TokenKind.space c p (blank-nonzero c h))

lex_quoted_string-Lexes : (c : ℕ) (p : Bytes) → Lexes (c ∷ p) (lex_quoted_string (c ∷ p))
unfolding lex_quoted_string
lex_quoted_string-Lexes c p =
    Lexes-bind _ (c ∷ p) (close_quote c p) (close_quote-ne-out_of_fuel c p) λ r e.
      let k = close_quote-Closed c p e in
      Takes-span _ (c ∷ (k.body ++ c ∷ [])) (c ∷ p) r
        (ap (◌∷◌ c) (k.splits ∙ sym (append_assoc k.body (c ∷ []) r))) (cons-ne-nil c _)

lex_slash-Lexes : (c : ℕ) (p : Bytes) → Lexes (c ∷ p) (lex_slash (c ∷ p))
unfolding lex_slash lex_left_comment lex_punctuator
lex_slash-Lexes c [] = tt
lex_slash-Lexes c (d ∷ p) =
    if_split (Lexes (c ∷ d ∷ p)) (d == b'/' || d == b'*')
      (λ _. Takes-fixed _ (c ∷ d ∷ []) p (cons-ne-nil c _))
      (λ _. Takes-fixed _ (c ∷ []) (d ∷ p) (cons-ne-nil c _))

lex_star-Lexes : (c : ℕ) (p : Bytes) → c ≡ b'*' → Lexes (c ∷ p) (lex_star (c ∷ p))
unfolding lex_star lex_right_comment lex_punctuator
lex_star-Lexes c [] s = tt
lex_star-Lexes c (d ∷ p) s =
    if_split (Lexes (c ∷ d ∷ p)) (d == b'/')
      (λ e. record {
        text = c ∷ [];
        splits = refl;
        moves = cons-ne-nil c _;
        starts = refl;
        covers = inr (inr (refl, refl, ap (λ x. x ∷ []) s, (p, ground arith)));
      })
      (λ _. Takes-fixed _ (c ∷ []) (d ∷ p) (cons-ne-nil c _))

lex_other-Takes : (c : ℕ) (p : Bytes) → Takes (c ∷ p) (lex_other c p).0 (lex_other c p).1
unfolding lex_other
lex_other-Takes c p = elim (Bool-cases (c == 0)) [
  | inl e ↦ rw e (Takes-fixed _ (c ∷ []) p (cons-ne-nil c _))
  | inr n ↦ rw n (record {
    text = c ∷ [];
    splits = refl;
    moves = cons-ne-nil c _;
    starts = refl;
    covers = inr (inl (refl, refl));
  })
]

word_start : (c : ℕ) → (is_alpha c || c == b'_') ≡ true → is_word c ≡ true
unfolding is_word
word_start c h = ground arith

-- Where `lex` does not read outside the buffer, it returns a token that starts at the cursor, and a cursor at least one
-- byte further on. The token covers exactly the bytes that were passed, with two exceptions: the token of a byte that
-- begins no token has the length 0, and behind the star that closes a block comment the cursor stands on the slash
-- that the token's length includes. Fuel does not run out.
pub lex-Lexes : (p : Bytes) → Lexes p (lex p)
unfolding lex lex_punctuator
lex-Lexes [] = tt
lex-Lexes (c ∷ p) =
    if_split (Lexes (c ∷ p)) (is_quoted_string c) (λ _. lex_quoted_string-Lexes c p)
      λ _.
        if_split (Lexes (c ∷ p)) (is_punctuator c) (λ _. Takes-fixed _ (c ∷ []) p (cons-ne-nil c _))
          λ _.
            if_split (Lexes (c ∷ p)) (c == b'/') (λ _. lex_slash-Lexes c p)
              λ _.
                if_split (Lexes (c ∷ p)) (c == b'*') (λ h. lex_star-Lexes c p (ground arith))
                  λ _. if_split (Lexes (c ∷ p)) (is_digit c) (lex_constant-Lexes c p) λ _.
                    if_split (Lexes (c ∷ p)) (is_alpha c || c == b'_')
                      (λ h. lex_identifier-Lexes c p (word_start c h))
                      λ _.
                        if_split (Lexes (c ∷ p)) (is_whitespace c) (lex_whitespace-Lexes c p)
                          λ _. lex_other-Takes c p
