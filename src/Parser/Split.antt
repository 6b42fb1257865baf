-- ===== src/Parser/Split.antt =====
-- The last piece of a line.
use xeus_cpp.Base.{
  ℕ, ◌≡◌, sym, ap, ◌∙◌, Bool, true, false, inl, inr, List, [], ◌∷◌, ◌++◌, Option, none, some, Bytes,
  append_assoc, append-nil, Bool-cases, is_empty,
}
use xeus_cpp.Parser.{pieces}

-- `back()`
abbrev pub last_piece : List Bytes → Option Bytes
last_piece [] = none
last_piece (x ∷ []) = some x
last_piece (x ∷ y ∷ l) = last_piece (y ∷ l)

last_piece-cons :
    (x w : Bytes) (l : List Bytes) → last_piece l ≡ some w → last_piece (x ∷ l) ≡ some w
last_piece-cons x w [] h = cc
last_piece-cons x w (y ∷ l) h = h

abbrev pub Avoids : (ℕ → Bool) → Bytes → Type 0
Avoids matches [] = Unit
Avoids matches (c ∷ w) = (matches c ≡ false) × Avoids matches w

-- The end of a prefix behind which a piece begins.
pub data Boundary (matches : ℕ → Bool) : Bytes → Type 0 where
  line_start : Boundary matches []
  behind :
      {pre : Bytes} (p : Bytes) (c : ℕ)
      → matches c ≡ true
      → pre ≡ p ++ c ∷ []
      → Boundary matches pre

module _ (matches : ℕ → Bool) where
  pieces-Avoids :
      (piece w : Bytes)
      → Avoids matches w
      → is_empty (piece ++ w) ≡ false
      → pieces matches piece w ≡ (piece ++ w) ∷ []
  unfolding pieces
  pieces-Avoids piece [] h n =
      let n' : is_empty piece ≡ false = rw append-nil at n in rw (append-nil, n')
  pieces-Avoids piece (c ∷ w) h n =
      rw h.0 (pieces-Avoids (piece ++ c ∷ []) w h.1 (rw append_assoc n) ∙ rw append_assoc)

  last_piece-open :
      (piece p w : Bytes) (c : ℕ)
      → matches c ≡ true
      → Avoids matches w
      → is_empty w ≡ false
      → last_piece (pieces matches piece (p ++ (c ∷ w))) ≡ some w
  unfolding pieces
  last_piece-open piece [] w c m h n =
      rw m (last_piece-cons piece w (pieces matches [] w) (ap last_piece (pieces-Avoids [] w h n)))
  last_piece-open piece (x ∷ p) w c m h n = elim (Bool-cases (matches x)) [
    | inl y ↦ rw y (
        last_piece-cons piece w (pieces matches [] (p ++ (c ∷ w))) (last_piece-open [] p w c m h n))
    | inr z ↦ rw z (last_piece-open (piece ++ x ∷ []) p w c m h n)
  ]

  -- A piece at the end of the range.
  pub last_piece-Boundary :
      {pre : Bytes} (w : Bytes)
      → Boundary matches pre
      → Avoids matches w
      → is_empty w ≡ false
      → last_piece (pieces matches [] (pre ++ w)) ≡ some w
  last_piece-Boundary w line_start h n = ap last_piece (pieces-Avoids [] w h n)
  last_piece-Boundary w (behind p c m e) h n =
      ap (λ q. last_piece (pieces matches [] (q ++ w))) e
      ∙ rw append_assoc (last_piece-open [] p w c m h n)

  -- A piece before a delimiter at the end of the range.
  pieces-closed :
      (piece w : Bytes) (d : ℕ)
      → Avoids matches w
      → matches d ≡ true
      → pieces matches piece (w ++ (d ∷ [])) ≡ (piece ++ w) ∷ []
  unfolding pieces
  pieces-closed piece [] d h m = rw m (ap (λ q. q ∷ []) (sym (append-nil piece)))
  pieces-closed piece (c ∷ w) d h m =
      rw h.0 (pieces-closed (piece ++ c ∷ []) w d h.1 m ∙ rw append_assoc)

  last_piece-closed :
      (piece p w : Bytes) (c d : ℕ)
      → matches c ≡ true
      → Avoids matches w
      → matches d ≡ true
      → last_piece (pieces matches piece (p ++ (c ∷ (w ++ (d ∷ []))))) ≡ some w
  unfolding pieces
  last_piece-closed piece [] w c d m h n = rw m (
      last_piece-cons piece w (pieces matches [] (w ++ (d ∷ [])))
        (ap last_piece (pieces-closed [] w d h n)))
  last_piece-closed piece (x ∷ p) w c d m h n = elim (Bool-cases (matches x)) [
    | inl y ↦ rw y (
        last_piece-cons piece w (pieces matches [] (p ++ (c ∷ (w ++ (d ∷ [])))))
          (last_piece-closed [] p w c d m h n))
    | inr z ↦ rw z (last_piece-closed (piece ++ x ∷ []) p w c d m h n)
  ]

  pub last_piece-Boundary_closed :
      {pre : Bytes} (w : Bytes) (d : ℕ)
      → Boundary matches pre
      → Avoids matches w
      → matches d ≡ true
      → last_piece (pieces matches [] (pre ++ (w ++ (d ∷ [])))) ≡ some w
  last_piece-Boundary_closed w d line_start h n = ap last_piece (pieces-closed [] w d h n)
  last_piece-Boundary_closed w d (behind p c m e) h n =
      ap (λ q. last_piece (pieces matches [] (q ++ (w ++ (d ∷ []))))) e
      ∙ rw append_assoc (last_piece-closed [] p w c d m h n)
