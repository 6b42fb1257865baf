-- ===== src/Parser/Strip.antt =====
-- What a text is without the spaces at its ends.
use xeus_cpp.Base.{
  ℕ, zero, suc, ◌≡◌, ◌≢◌, refl, sym, ap, ◌∙◌, ◌⊎◌, inl, inr, [], ◌∷◌, ◌++◌, arith, Bytes, length,
  replicate, length-append, Bool-cases, ◌==◌,
}

abbrev pub spaces : ℕ → Bytes
spaces n = replicate n b' '

-- Nothing, or a text that begins and ends with other bytes than spaces.
pub data IsTrimmed : Bytes → Type 0 where
  nothing : IsTrimmed []
  text :
      {t : Bytes} (x y : ℕ) (after before : Bytes)
      → x ≢ b' '
      → y ≢ b' '
      → t ≡ x ∷ after
      → t ≡ before ++ (y ∷ [])
      → IsTrimmed t

pub record Stripped (str t : Bytes) : Type 0 where
  pub left : ℕ
  pub right : ℕ
  pub splits : str ≡ spaces left ++ (t ++ spaces right)
  pub is_trimmed : IsTrimmed t

-- Leading spaces and the rest.
record Led (p : Bytes) : Type 0 where
  count : ℕ
  rest : Bytes
  splits : p ≡ spaces count ++ rest
  begins : (rest ≡ []) ⊎ ((x : ℕ) × (after : Bytes) × (x ≢ b' ') × (rest ≡ x ∷ after))

led : (p : Bytes) → Led p
led [] = record { count = 0; rest = []; splits = refl; begins = inl refl }
led (c ∷ p) = elim (Bool-cases (c == b' ')) [
  | inl e ↦
      let l = led p in
      record {
        count = suc l.count;
        rest = l.rest;
        splits = ground (arith, l.splits);
        begins = l.begins;
      }
  | inr n ↦ record {
    count = 0;
    rest = c ∷ p;
    splits = refl;
    begins = inr (c, p, ground arith, refl);
  }
]

-- Trailing spaces and what stands before them.
record Trailed (p : Bytes) : Type 0 where
  rest : Bytes
  count : ℕ
  splits : p ≡ rest ++ spaces count
  ends : (rest ≡ []) ⊎ ((y : ℕ) × (before : Bytes) × (y ≢ b' ') × (rest ≡ before ++ (y ∷ [])))

Trailed-cons : (c : ℕ) (p : Bytes) (l : Trailed p) → Trailed (c ∷ p)
Trailed-cons c p l = elim l.ends [
  | inl e ↦ elim (Bool-cases (c == b' ')) [
    | inl s ↦ record {
      rest = [];
      count = suc l.count;
      splits = ground (arith, l.splits);
      ends = inl refl;
    }
    | inr n ↦ record {
      rest = c ∷ [];
      count = l.count;
      splits = ground (arith, l.splits);
      ends = inr (c, [], ground arith, refl);
    }
  ]
  | inr (y, before, h, e) ↦ record {
    rest = c ∷ l.rest;
    count = l.count;
    splits = ap (◌∷◌ c) l.splits;
    ends = inr (y, c ∷ before, h, ap (◌∷◌ c) e);
  }
]

trailed : (p : Bytes) → Trailed p
trailed [] = record { rest = []; count = 0; splits = refl; ends = inl refl }
trailed (c ∷ p) = Trailed-cons c p (trailed p)

first-of_append :
    (x y : ℕ) (after before q r : Bytes)
    → x ∷ after ≡ q ++ r
    → q ≡ before ++ (y ∷ [])
    → (after' : Bytes) × (q ≡ x ∷ after')
first-of_append x y after before [] r e h =
    absurd (ground (arith, ap length h, length-append before (y ∷ [])))
first-of_append x y after before (z ∷ q) r e h = (q, ground arith)

not-spaces : (x n : ℕ) (after : Bytes) → x ≢ b' ' → x ∷ after ≢ spaces n
not-spaces x zero after h e = cc
not-spaces x (suc n) after h e = h (ground arith)

-- Every text can be stripped.
pub strip : (str : Bytes) → (t : Bytes) × Stripped str t
strip str = go (led str)
  where
    stripped :
        (a b x y : ℕ) (after before rest q : Bytes)
        → str ≡ spaces a ++ rest
        → rest ≡ q ++ spaces b
        → x ≢ b' '
        → y ≢ b' '
        → rest ≡ x ∷ after
        → q ≡ before ++ (y ∷ [])
        → (t : Bytes) × Stripped str t
    stripped a b x y after before rest q e f hx hy r l =
        let (after', g) = first-of_append x y after before q (spaces b) (sym r ∙ f) l in
        (
          q,
          record {
            left = a;
            right = b;
            splits = e ∙ ap (◌++◌ (spaces a)) f;
            is_trimmed = text x y after' before hx hy g l;
          },
        )

    go : Led str → (t : Bytes) × Stripped str t
    go l = elim l.begins [
      | inl e ↦ (
        [],
        record {
          left = l.count;
          right = 0;
          splits = l.splits ∙ ap (◌++◌ (spaces l.count)) e;
          is_trimmed = nothing;
        },
      )
      | inr (x, after, hx, r) ↦
          let k = trailed l.rest in
          elim k.ends [
            | inl e ↦
                absurd (
                  not-spaces x k.count after hx
                    (sym r ∙ k.splits ∙ ap (λ q. q ++ spaces k.count) e))
            | inr (y, before, hy, f) ↦
                stripped l.count k.count x y after before l.rest k.rest l.splits k.splits hx hy r f
          ]
    ]
