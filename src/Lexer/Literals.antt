-- ===== src/Lexer/Literals.antt =====
-- String and character literals: what `lex_quoted_string` takes, and when it leaves the buffer.
use xeus_cpp.Base.{ℕ, ◌≡◌, ◌≢◌, ap, [], ◌∷◌, ◌++◌, inl, inr, ◌==◌, arith, Bytes, Bool-cases}
use xeus_cpp.Base.Run.{done, out_of_fuel}
use xeus_cpp.Lexer.{close_quote}

-- The inside of a literal that ends at the quote `q`: plain bytes, and pairs of a backslash and any
-- byte.
pub data Body (q : ℕ) : Bytes → Type 0 where
  end : Body q []
  plain : {c : ℕ} {b : Bytes} → c ≢ q → c ≢ b'\\' → Body q b → Body q (c ∷ b)
  escape : {c d : ℕ} {b : Bytes} → c ≡ b'\\' → Body q b → Body q (c ∷ d ∷ b)

-- Behind the opening quote, the inside of a literal is passed, in which a backslash takes the next byte with it, and the
-- cursor stands behind the closing quote.
pub close_quote-Body :
    {q : ℕ} {b : Bytes} (p : Bytes) → q ≢ b'\\' → Body q b → close_quote q (b ++ (q ∷ p)) ≡ done p
unfolding close_quote
close_quote-Body [] h end = ground arith
close_quote-Body (d ∷ p) h end = ground arith
close_quote-Body {q} p h (plain {c} {b = []} n m t) = ground (arith, close_quote-Body p h t)
close_quote-Body {q} p h (plain {c} {b = d ∷ b} n m t) = ground (arith, close_quote-Body p h t)
close_quote-Body {q} p h (escape {c} {d} {b} e t) = ground (arith, close_quote-Body p h t)

-- What `close_quote` did: it passed the inside of a literal and its quote.
pub record Closed (q : ℕ) (p r : Bytes) : Type 0 where
  pub body : Bytes
  pub is_body : Body q body
  pub splits : p ≡ body ++ (q ∷ r)

Closed-plain : (q c : ℕ) {p r : Bytes} → c ≢ q → c ≢ b'\\' → Closed q p r → Closed q (c ∷ p) r
Closed-plain q c n m k = record {
  body = c ∷ k.body;
  is_body = plain n m k.is_body;
  splits = ap (◌∷◌ c) k.splits;
}

Closed-escape : (q c d : ℕ) {p r : Bytes} → c ≡ b'\\' → Closed q p r → Closed q (c ∷ d ∷ p) r
Closed-escape q c d e k = record {
  body = c ∷ d ∷ k.body;
  is_body = escape e k.is_body;
  splits = ap (λ l. c ∷ d ∷ l) k.splits;
}

Closed-here : (q c : ℕ) (r : Bytes) → c ≡ q → Closed q (c ∷ r) r
Closed-here q c r e = record { body = []; is_body = end; splits = ap (λ x. x ∷ r) e }

pub close_quote-Closed : (q : ℕ) (p : Bytes) {r : Bytes} → close_quote q p ≡ done r → Closed q p r
unfolding close_quote
close_quote-Closed q [] h = cc
close_quote-Closed q (c ∷ []) {r} h = elim (Bool-cases (c == b'\\')) [
  | inl e ↦ absurd (ground arith)
  | inr n ↦ elim (Bool-cases (c == q)) [
    | inl e ↦ ground (arith, Closed-here q c r)
    | inr m ↦ absurd (ground arith)
  ]
]
close_quote-Closed q (c ∷ d ∷ p) {r} h = elim (Bool-cases (c == b'\\')) [
  | inl e ↦ Closed-escape q c d (ground arith) (close_quote-Closed q p (rw e at h))
  | inr n ↦ elim (Bool-cases (c == q)) [
    | inl e ↦ ground (arith, Closed-here q c (d ∷ p))
    | inr m ↦
        Closed-plain q c (ground arith) (ground arith)
          (close_quote-Closed q (d ∷ p) (rw m at (rw n at h)))
  ]
]

-- No fuel is involved.
pub close_quote-ne-out_of_fuel : (q : ℕ) (p : Bytes) → close_quote q p ≢ out_of_fuel
unfolding close_quote
close_quote-ne-out_of_fuel q [] = ground arith
close_quote-ne-out_of_fuel q (c ∷ []) = ground arith
close_quote-ne-out_of_fuel q (c ∷ d ∷ p) =
    ground (arith, close_quote-ne-out_of_fuel q p, close_quote-ne-out_of_fuel q (d ∷ p))
