-- ===== src/Parser/Trim.antt =====
-- `trim` takes off the spaces at both ends, and nothing else.
use xeus_cpp.Base.{
  ℕ, zero, suc, ◌+◌, ◌-◌, ◌%◌, ◌<◌, ◌≤◌, ◌≡◌, ◌≢◌, refl, sym, ap, ◌∙◌, false, [], ◌∷◌, ◌++◌, none,
  some, arith, Bytes, length, take, drop, length-append, length-replicate, append_assoc,
  take-length_append, drop-length_append, is_empty,
}
use xeus_cpp.Parser.Strip.{spaces, IsTrimmed, nothing, text, Stripped, strip}
use xeus_cpp.Parser.{find_first_not_of, find_last_not_of, get_or_else, substr, trim, size_mod, npos}

find_first-spaces :
    (n : ℕ) (x : ℕ) (p : Bytes) → x ≢ b' ' → find_first_not_of b' ' (spaces n ++ (x ∷ p)) ≡ some n
unfolding find_first_not_of
find_first-spaces zero x p h = ground arith
find_first-spaces (suc n) x p h = rw (find_first-spaces n x p h)

find_first-all : (n : ℕ) → find_first_not_of b' ' (spaces n) ≡ none
unfolding find_first_not_of
find_first-all zero = refl
find_first-all (suc n) = rw (find_first-all n)

find_last-all : (n : ℕ) → find_last_not_of b' ' (spaces n) ≡ none
unfolding find_last_not_of
find_last-all zero = refl
find_last-all (suc n) = rw (find_last-all n)

find_last-spaces :
    (p : Bytes) (y n : ℕ) → y ≢ b' ' → find_last_not_of b' ' (p ++ (y ∷ spaces n)) ≡ some (length p)
unfolding find_last_not_of
find_last-spaces [] y n h = ground (arith, find_last-all n)
find_last-spaces (c ∷ p) y n h = ground (arith, find_last-spaces p y n h)

spaces-append : (a b : ℕ) → spaces a ++ spaces b ≡ spaces (a + b)
spaces-append zero b = ap spaces (omega arith)
spaces-append (suc a) b =
    ap (◌∷◌ b' ') (spaces-append a b) ∙ ap spaces {x = suc (a + b)} {y = suc a + b} (omega arith)

drop-length : (p : Bytes) → drop (length p) p ≡ []
drop-length [] = refl
drop-length (c ∷ p) = drop-length p

take-nil : (n : ℕ) → take {A = ℕ} n [] ≡ []
take-nil zero = refl
take-nil (suc n) = refl

is_empty-spaces : (a x : ℕ) (p : Bytes) → is_empty (spaces a ++ (x ∷ p)) ≡ false
is_empty-spaces zero x p = refl
is_empty-spaces (suc a) x p = refl

-- `trim` by the places that it finds.
trim_at :
    (str : Bytes) (first last k : ℕ)
    → is_empty str ≡ false
    → get_or_else (find_first_not_of b' ' str) (length str) ≡ first
    → get_or_else (find_last_not_of b' ' str) npos ≡ last
    → first ≤ length str
    → (last + size_mod - first + 1) % size_mod ≡ k
    → trim str ≡ some (take k (drop first str))
unfolding trim substr
trim_at str first last k n f l h e = rw (n, f, l, e) (ground arith)

trim-spaces : (n : ℕ) → trim (spaces n) ≡ some []
trim-spaces zero = unfold trim in refl
trim-spaces (suc n) =
    trim_at (spaces (suc n)) (length (spaces (suc n))) npos _ refl
      (ap (λ o. get_or_else o (length (spaces (suc n)))) (find_first-all (suc n)))
      (ap (λ o. get_or_else o npos) (find_last-all (suc n))) (omega arith) refl
    ∙ ap some (ap (take _) (drop-length (spaces (suc n))) ∙ take-nil _)

trim-text :
    (a b x y : ℕ) (t after before : Bytes)
    → x ≢ b' '
    → y ≢ b' '
    → t ≡ x ∷ after
    → t ≡ before ++ (y ∷ [])
    → length (spaces a ++ (t ++ spaces b)) < size_mod
    → trim (spaces a ++ (t ++ spaces b)) ≡ some t
trim-text a b x y t after before hx hy e f m =
    trim_at str a (a + length before) (length t)
      (ap (λ q. is_empty (spaces a ++ (q ++ spaces b))) e ∙ is_empty-spaces a x (after ++ spaces b))
      (ap (λ q. get_or_else (find_first_not_of b' ' (spaces a ++ (q ++ spaces b))) (length str)) e
        ∙ ap (λ o. get_or_else o (length str)) (find_first-spaces a x (after ++ spaces b) hx))
      (ap (λ o. get_or_else o npos) last) (omega (arith, lengths))
      (omega (arith, lengths, count, ap length f, length-append before (y ∷ [])))
    ∙ ap some (ap (take (length t)) dropped ∙ take-length_append t (spaces b))
  where
    str : Bytes
    str = spaces a ++ (t ++ spaces b)

    lengths : length str ≡ a + (length t + length (spaces b))
    lengths = omega (
      arith,
      length-append (spaces a) (t ++ spaces b),
      length-append t (spaces b),
      length-replicate {A = ℕ} a b' ',
    )

    count : length t ≡ length before + 1
    count = omega (arith, ap length f, length-append before (y ∷ []))

    last : find_last_not_of b' ' str ≡ some (a + length before)
    last =
        ap (λ q. find_last_not_of b' ' (spaces a ++ (q ++ spaces b))) f
        ∙ ap (find_last_not_of b' ') (simp append_assoc)
        ∙ find_last-spaces (spaces a ++ before) y b hy
        ∙ ap some (omega (arith, length-append (spaces a) before, length-replicate {A = ℕ} a b' '))

    dropped : drop a str ≡ t ++ spaces b
    dropped =
        ap (λ k. drop k str) (sym (length-replicate a b' '))
        ∙ drop-length_append (spaces a) (t ++ spaces b)

-- `trim` returns the text without the spaces at its ends (it does not throw), for every string shorter than the
-- number of values of `std::size_t`.
pub trim_lem :
    (str : Bytes) → length str < size_mod → (t : Bytes) × (trim str ≡ some t) × Stripped str t
trim_lem str m = let (t, s) = strip str in (t, trimmed s.left s.right s.splits s.is_trimmed, s)
  where
    trimmed :
        {t : Bytes} (a b : ℕ) → str ≡ spaces a ++ (t ++ spaces b) → IsTrimmed t → trim str ≡ some t
    trimmed a b e nothing = ap trim (e ∙ spaces-append a b) ∙ trim-spaces (a + b)
    trimmed a b e (text x y after before hx hy f g) =
        ap trim e ∙ trim-text a b x y _ after before hx hy f g (rw e at m)
