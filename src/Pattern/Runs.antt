-- ===== src/Pattern/Runs.antt =====
-- Texts that are cut at the end of a run.
use xeus_cpp.Base.{ℕ, ◌≡◌, refl, ap, Bool, true, false, [], ◌∷◌, ◌++◌, Bytes}
use xeus_cpp.Pattern.{run, after_run}

-- Every byte passes the test.
abbrev pub All : (ℕ → Bool) → Bytes → Type 0
All test [] = Unit
All test (c ∷ p) = (test c ≡ true) × All test p

-- The text ends, or goes on with a byte that fails the test.
abbrev pub Stops : (ℕ → Bool) → Bytes → Type 0
Stops test [] = Unit
Stops test (c ∷ p) = test c ≡ false

pub run-append : (test : ℕ → Bool) (w p : Bytes) → All test w → Stops test p → run test (w ++ p) ≡ w
unfolding run
run-append test [] [] h s = refl
run-append test [] (c ∷ p) h s = rw s
run-append test (x ∷ w) p h s = rw h.0 (ap (◌∷◌ x) (run-append test w p h.1 s))

pub after_run-append :
    (test : ℕ → Bool) (w p : Bytes) → All test w → Stops test p → after_run test (w ++ p) ≡ p
unfolding after_run
after_run-append test [] [] h s = refl
after_run-append test [] (c ∷ p) h s = rw s
after_run-append test (x ∷ w) p h s = rw h.0 (after_run-append test w p h.1 s)

pub run-All : (test : ℕ → Bool) (w : Bytes) → All test w → run test w ≡ w
unfolding run
run-All test [] h = refl
run-All test (x ∷ w) h = rw h.0 (ap (◌∷◌ x) (run-All test w h.1))

pub after_run-All : (test : ℕ → Bool) (w : Bytes) → All test w → after_run test w ≡ []
unfolding after_run
after_run-All test [] h = refl
after_run-All test (x ∷ w) h = rw h.0 (after_run-All test w h.1)
