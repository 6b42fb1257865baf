-- ===== src/Input/Lines.antt =====
-- Lines that are read from `std::cin`.
use mathlib.Core.Path.{subst}
use xeus_cpp.Base.{
  ℕ, zero, suc, ◌+◌, ◌<◌, ◌≡◌, refl, ap, sym, ◌∙◌, true, false, [], ◌∷◌, ◌++◌, List, Option, none,
  some, arith, Bytes, length, replicate, contains, append-nil, append_assoc, ◌==◌, if◌then◌else◌,
}
use xeus_cpp.Base.Run.{Run, done, out_of_bounds}
use xeus_cpp.Buffer.{new_input_buffer}
use xeus_cpp.World.{Outcome, returned, threw, undefined}
use xeus_cpp.Input.{
  Input, Cin, failed, sbumpc, read_line, getline, getlines, fill_by, new_cin, input_redirection,
}
use xeus_cpp.Input.Supply.{Takes, waiting, supplied, sbumpc-Takes, ended, pending}

-- A text within a line.
abbrev pub IsOneLine : Bytes → Type 0
IsOneLine p = contains p b'\n' ≡ false

-- What is left behind a line: nothing waits.
pub record Consumed (k : ℕ) (j : Input) : Type 0 where
  pub asked : j.asked ≡ k
  pub allow_stdin : j.allow_stdin ≡ true
  pub nothing : pending j ≡ []

abbrev Line : Bytes → ℕ → Run (Option Bytes × Cin) → Type 0
Line line asked r =
    (j : Input) × (r ≡ done (some line, record { input = j; good = true })) × Consumed asked j

-- `read_line` behind a character.
abbrev on_character : ℕ → (ℕ → Bytes) → Bytes → Outcome ℕ × Input → Run (Option Bytes × Cin)
on_character f answers line r = elim r.0 [
  | returned c ↦
      let rest = read_line f answers (line ++ c ∷ []) r.1 in
      if c == b'\n' then done (some line, record { input = r.1; good = true }) else rest
  | threw e ↦ done (none, failed r.1)
  | undefined ↦ out_of_bounds
]

append-cons : (line : Bytes) (c : ℕ) (p : Bytes) → (line ++ c ∷ []) ++ p ≡ line ++ c ∷ p
append-cons line c p = append_assoc line (c ∷ []) p

module _ (answers : ℕ → Bytes) (f : ℕ) where
  -- The loop reads the rest of a line that waits.
  abbrev Reads : Type 0
  Reads =
      (p line : Bytes) (j : Input)
      → j.allow_stdin ≡ true
      → pending j ≡ ended p
      → IsOneLine p
      → length p < f
      → Line (line ++ p) j.asked (read_line f answers line j)

  Line-character :
      Reads
      → (p line : Bytes) (c : ℕ) (j : Input) → j.allow_stdin ≡ true
      → ended p ≡ c ∷ pending j
      → IsOneLine p
      → length p < suc f
      → Line (line ++ p) j.asked (on_character f answers line (returned c, j))
  Line-character h [] line c j b w o l =
      let e : 10 ≡ c = cc in
      rw⁻¹ e (
        j,
        ap (λ t. done (some t, record { input = j; good = true })) (sym (append-nil line)),
        record { asked = refl; allow_stdin = b; nothing = cc },
      )
  Line-character h (d ∷ p) line c j b w o l =
      let e : d ≡ c = cc in
      let n : (d == 10) ≡ false = ground arith in
      let (k, r, s) = h p (line ++ d ∷ []) j b (cc) (ground arith) (omega (arith, l)) in
      rw⁻¹ e (
        rw n (
          k,
          r ∙ ap (λ t. done (some t, record { input = k; good = true })) (append-cons line d p),
          s,
        ))

  -- The first character of what waits, and of a new answer.
  Line-waiting :
      Reads
      → (p line : Bytes) (i : Input) (r : Outcome ℕ × Input) → Takes answers i r
      → pending i ≡ ended p
      → IsOneLine p
      → length p < suc f
      → Line (line ++ p) i.asked (on_character f answers line r)
  Line-waiting h p line i (_, _) (waiting c j n a b) w o l =
      subst (λ k. Line (line ++ p) k (on_character f answers line (returned c, j))) a
        (Line-character h p line c j b (sym w ∙ n) o l)
  Line-waiting h [] line i (_, _) (supplied c j n e a b) w o l = cc
  Line-waiting h (d ∷ p) line i (_, _) (supplied c j n e a b) w o l = cc

  Line-fresh :
      Reads
      → (p line : Bytes) (i : Input) (r : Outcome ℕ × Input) → Takes answers i r
      → pending i ≡ []
      → answers i.asked ≡ p
      → IsOneLine p
      → length p < suc f
      → Line (line ++ p) (suc i.asked) (on_character f answers line r)
  Line-fresh h p line i (_, _) (waiting c j n a b) w q o l = cc
  Line-fresh h p line i (_, _) (supplied c j n e a b) w q o l =
      subst (λ k. Line (line ++ p) k (on_character f answers line (returned c, j))) a
        (Line-character h p line c j b (sym (ap ended q) ∙ e) o l)

Reads-all : (answers : ℕ → Bytes) (f : ℕ) → Reads answers f
unfolding read_line
Reads-all answers zero p line j b w o l = absurd (omega (arith, l))
Reads-all answers (suc f) p line j b w o l =
    Line-waiting answers f (Reads-all answers f) p line j (sbumpc answers j)
      (sbumpc-Takes answers j b) w o l

-- A new answer is one line.
getline-fresh :
    (answers : ℕ → Bytes) (f : ℕ) (i : Input)
    → i.allow_stdin ≡ true
    → pending i ≡ []
    → IsOneLine (answers i.asked)
    → length (answers i.asked) < f
    → Line (answers i.asked) (suc i.asked) (read_line f answers [] i)
unfolding read_line
getline-fresh answers zero i b w o l = absurd (omega (arith, l))
getline-fresh answers (suc f) i b w o l =
    Line-fresh answers f (Reads-all answers f) (answers i.asked) [] i (sbumpc answers i)
      (sbumpc-Takes answers i b) w refl o l

-- The `n` answers behind the first `k`.
unfoldable pub lines_from : (ℕ → Bytes) → ℕ → ℕ → List (Option Bytes)
lines_from answers k zero = []
lines_from answers k (suc n) = some (answers k) ∷ lines_from answers (suc k) n

-- A stream without an error in whose buffer nothing waits.
pub record Ready (k : ℕ) (s : Cin) : Type 0 where
  pub good : s.good ≡ true
  pub consumed : Consumed k s.input

getline-Ready :
    (answers : ℕ → Bytes) (f k : ℕ) (s : Cin)
    → Ready k s
    → IsOneLine (answers k)
    → length (answers k) < f
    → (t : Cin) × (getline f answers s ≡ done (some (answers k), t)) × Ready (suc k) t
unfolding getline
getline-Ready answers f k s r o l =
    let a = ap answers r.consumed.asked in
    let (j, e, c) =
      getline-fresh answers f s.input r.consumed.allow_stdin r.consumed.nothing
        (subst IsOneLine (sym a) o) (omega (arith, l, ap length a)) in
    (
      record { input = j; good = true },
      rw r.good (e ∙ ap (λ p. done (some p, record { input = j; good = true })) a),
      record { good = refl; consumed = subst (λ n. Consumed (suc n) j) r.consumed.asked c },
    )

-- While input is allowed, and the answers to the next `n` input requests have no end of a line: `n` calls of
-- `std::getline` on a stream without an error, in whose buffer nothing waits, return these answers in their order. They
-- send exactly `n` input requests, and leave the stream without an error and nothing in the buffer. The fuel is more than
-- the length of each answer.
pub getlines-answers :
    (answers : ℕ → Bytes) (n f k : ℕ) (s : Cin)
    → Ready k s
    → ((l : ℕ) → l < n → IsOneLine (answers (k + l)) × (length (answers (k + l)) < f))
    → (t : Cin) × (getlines n f answers s ≡ done (lines_from answers k n, t)) × Ready (k + n) t
unfolding getlines lines_from
getlines-answers answers zero f k s r h = (s, refl, subst (λ j. Ready j s) (omega arith) r)
getlines-answers answers (suc n) f k s r h =
    let at : answers (k + 0) ≡ answers k = ap answers (omega arith) in
    let (o, l) = h 0 (omega arith) in
    let (t, e, q) =
      getline-Ready answers f k s r (subst IsOneLine at o) (omega (arith, l, ap length at)) in
    let shift : (l : ℕ) → k + suc l ≡ suc k + l = λ l. omega arith in
    let (u, d, z) = getlines-answers answers n f (suc k) t q λ l b.
      subst (λ j. IsOneLine (answers j) × (length (answers j) < f)) (shift l)
        (h (suc l) (omega (arith, b))) in
    (u, rw (e, d) refl, subst (λ j. Ready j u) (sym (shift n)) z)

getlines-failed :
    (answers : ℕ → Bytes) (n f : ℕ) (i : Input)
    → getlines n f answers (failed i) ≡ done (replicate n none, failed i)
unfolding getlines getline
getlines-failed answers zero f i = refl
getlines-failed answers (suc n) f i = rw (getlines-failed answers n f i) refl

-- While input is not allowed, every call of `std::getline` fails, from the first one on: no exception leaves it, no input
-- request is sent, and the buffer stays empty.
pub getlines-refused :
    (answers : ℕ → Bytes) (n f k : ℕ)
    → let s : Cin = new_cin false k in
      getlines (suc n) (suc f) answers s ≡ done (replicate (suc n) none, failed s.input)
unfolding getlines getline read_line sbumpc fill_by input_redirection new_input_buffer
getlines-refused answers n f k = rw (getlines-failed answers n (suc f) (new_cin false k).input) refl
