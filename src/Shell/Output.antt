-- ===== src/Shell/Output.antt =====
-- What is printed of a command's output.
use xeus_cpp.Base.{
  ℕ, zero, suc, ◌≤◌, ◌<◌, Bytes, Bool, not, ◌≡◌, refl, ap, ◌∙◌, [], ◌∷◌, ◌++◌, Option, some, ◌==◌,
  arith, length, length-append, c_string, Bool-cases, inl, inr,
}
use xeus_cpp.Buffer.{xsputn, sync}
use xeus_cpp.World.{World, returned, print, flush_out, ◌>>◌, pure}
use xeus_cpp.World.Disk.{Files}
use xeus_cpp.Pattern.Runs.{All}
use xeus_cpp.Magics.{status_ok}
use xeus_cpp.Shell.{fgets, room, copy, command_of, on_pipe, print_copy, apply}

abbrev pub is_nonzero : ℕ → Bool
is_nonzero c = not (c == 0)

fgets-append : (n : ℕ) (p : Bytes) → (fgets n p).0 ++ (fgets n p).1 ≡ p
unfolding fgets
fgets-append zero p = refl
fgets-append (suc n) [] = refl
fgets-append (suc n) (c ∷ p) = elim (Bool-cases (c == b'\n')) [
  | inl e ↦ rw e refl
  | inr e ↦ rw e (ap (◌∷◌ c) (fgets-append n p))
]

fgets-le : (n : ℕ) (p : Bytes) → length (fgets n p).1 ≤ length p
fgets-le n p =
    omega (arith, ap length (fgets-append n p), length-append {0} (fgets n p).0 (fgets n p).1)

-- A line that is not empty is read.
fgets-lt : (n c : ℕ) (p : Bytes) → length (fgets (suc n) (c ∷ p)).1 < length (c ∷ p)
unfolding fgets
fgets-lt n c p = elim (Bool-cases (c == b'\n')) [
  | inl e ↦ rw e (omega arith)
  | inr e ↦ rw e (omega (arith, fgets-le n p))
]

All-left : (test : ℕ → Bool) (p q : Bytes) → All test (p ++ q) → All test p
All-left test [] q h = tt
All-left test (c ∷ p) q h = (h.0, All-left test p q h.1)

All-right : (test : ℕ → Bool) (p q : Bytes) → All test (p ++ q) → All test q
All-right test [] q h = h
All-right test (c ∷ p) q h = All-right test p q h.1

c_string-nonzero : (p : Bytes) → All is_nonzero p → c_string p ≡ p
c_string-nonzero [] h = refl
c_string-nonzero (c ∷ p) h = ground (arith, h.0, c_string-nonzero p h.1)

-- With more fuel than bytes the loop ends, and copies everything if there is no zero in it.
copy-nonzero :
    (f : ℕ) (pipe : Bytes) → length pipe < f → All is_nonzero pipe → copy f pipe ≡ some pipe
unfolding copy
copy-nonzero zero pipe m h = absurd (omega arith)
copy-nonzero (suc f) [] m h = refl
copy-nonzero (suc f) (c ∷ pipe) m h =
    let line = (fgets room (c ∷ pipe)).0 in
    let rest = (fgets room (c ∷ pipe)).1 in
    let whole : All is_nonzero (line ++ rest) = rw (fgets-append room (c ∷ pipe)) h in
    rw
      (copy-nonzero f rest (omega (arith, fgets-lt 510 c pipe))
        (All-right is_nonzero line rest whole))
      (ap some (
        ap (λ l. l ++ rest) (c_string-nonzero line (All-left is_nonzero line rest whole))
        ∙ fgets-append room (c ∷ pipe)))

-- A command whose output has no zero in it: exactly its output is printed and flushed, and the status is "ok".
pub apply-nonzero :
    (popen : Bytes → Files → Option Bytes × Files) (code pipe : Bytes) (files : Files) (w : World)
    → popen (command_of code) w.files ≡ (some pipe, files)
    → All is_nonzero pipe
    → apply popen code w
      ≡ (returned status_ok, record w { files = files; out = sync (xsputn pipe w.out) })
unfolding apply flush_out print
apply-nonzero popen code pipe files w e h =
    ap (λ r. on_pipe r.0 (record w { files = r.1 })) e
    ∙ ap (λ o. (print_copy o >> (flush_out >> pure status_ok)) (record w { files = files }))
        (copy-nonzero (suc (length pipe)) pipe (omega arith) h)
