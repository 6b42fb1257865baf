-- ===== src/Inspect/Names.antt =====
-- The names that the look-up declares: `std::to_string` of a counter.
use xeus_cpp.Base.{
  ℕ, zero, suc, ◌+◌, ◌-◌, ◌*◌, ◌/◌, ◌%◌, ◌<◌, ◌≡◌, refl, ap, sym, ◌∙◌, [], ◌∷◌, ◌++◌, Bytes, ltb,
  if◌then◌else◌, arith, Bool-cases, inl, inr,
}

-- The decimal digits of a number, with fuel above the number of digits.
unfoldable pub decimal_from : ℕ → ℕ → Bytes
decimal_from zero n = []
decimal_from (suc f) n =
    let more = decimal_from f (n / 10) ++ (b'0' + n % 10) ∷ [] in
    if ltb n 10 then (b'0' + n) ∷ [] else more

unfoldable pub decimal : ℕ → Bytes
decimal n = decimal_from (suc n) n

-- The number that digits stand for.
abbrev value : ℕ → Bytes → ℕ
value n [] = n
value n (c ∷ p) = value (n * 10 + (c - b'0')) p

value-append : (n : ℕ) (p q : Bytes) → value n (p ++ q) ≡ value (value n p) q
value-append n [] q = refl
value-append n (c ∷ p) q = value-append (n * 10 + (c - b'0')) p q

value-decimal_from : (f n : ℕ) → n < f → value 0 (decimal_from f n) ≡ n
unfolding decimal_from
value-decimal_from zero n h = absurd (omega arith)
value-decimal_from (suc f) n h = elim (Bool-cases (ltb n 10)) [
  | inl e ↦ rw e (omega arith)
  | inr e ↦ rw e (
      value-append 0 (decimal_from f (n / 10)) ((b'0' + n % 10) ∷ [])
      ∙ omega (arith, value-decimal_from f (n / 10) (ground arith)))
]

-- Different counts have different digits.
pub decimal_injective : (a b : ℕ) → decimal a ≡ decimal b → a ≡ b
unfolding decimal
decimal_injective a b h =
    sym (value-decimal_from (suc a) a (omega arith))
    ∙ ap (value 0) h
    ∙ value-decimal_from (suc b) b (omega arith)
