-- ===== src/Magics/Syntax.antt =====
-- The lines that call a magic, and how the regular expressions cut them.
use xeus_cpp.Base.{ℕ, ◌≡◌, refl, true, false, [], ◌∷◌, ◌++◌, none, some, arith, Bytes, is_space}
use xeus_cpp.Pattern.{is_word, is_any, run, behind, word_of}
use xeus_cpp.Pattern.Runs.{All, Stops, run-append, after_run-append, run-All, after_run-All}
use xeus_cpp.Magics.{cell_name, line_name, is_body, split_cell, split_line}

pub space-no_word : (s : ℕ) → is_space s ≡ true → is_word s ≡ false
unfolding is_word
space-no_word s h = ground arith

newline-no_any : (p : Bytes) → Stops is_any (b'\n' ∷ p)
unfolding is_any
newline-no_any p = refl

word_of-append :
    (c : ℕ) (w p : Bytes)
    → All is_word (c ∷ w)
    → Stops is_word p
    → word_of ((c ∷ w) ++ p) ≡ some (c ∷ w)
unfolding word_of
word_of-append c w p h s = rw (run-append is_word (c ∷ w) p h s)

pub cell_name-append :
    (c : ℕ) (w p : Bytes)
    → All is_word (c ∷ w)
    → Stops is_word p
    → cell_name (b'%' ∷ b'%' ∷ ((c ∷ w) ++ p)) ≡ some (c ∷ w)
unfolding cell_name behind
cell_name-append c w p h s = word_of-append c w p h s

-- A code that calls a cell magic calls no line magic.
pub line_name-percent : (p : Bytes) → line_name (b'%' ∷ b'%' ∷ p) ≡ none
unfolding line_name behind word_of run is_word
line_name-percent p = refl

pub cell_name-line_name :
    (code : Bytes) {name : Bytes} → cell_name code ≡ some name → line_name code ≡ none
unfolding cell_name behind
cell_name-line_name [] h = cc
cell_name-line_name (c ∷ []) h = absurd (ground arith)
cell_name-line_name (c ∷ d ∷ p) h = ground (arith, line_name-percent p)

-- Behind the name stands white space: the arguments go on to the end of that line, and the next lines are the body.
-- The white space may be the end of the first line.
pub split_cell-append :
    (name args body : Bytes) (s : ℕ)
    → All is_word name
    → is_space s ≡ true
    → All is_any args
    → split_cell (name ++ (s ∷ (args ++ (b'\n' ∷ body)))) ≡ (name ++ s ∷ args, run is_body body)
unfolding split_cell
split_cell-append name args body s h k l = rw (
  run-append is_word name (s ∷ (args ++ (b'\n' ∷ body))) h (space-no_word s k),
  after_run-append is_word name (s ∷ (args ++ (b'\n' ∷ body))) h (space-no_word s k),
  k,
  run-append is_any args (b'\n' ∷ body) l (newline-no_any body),
  after_run-append is_any args (b'\n' ∷ body) l (newline-no_any body),
)

-- A body of one line behind a name with no arguments.
pub split_cell-line :
    (name body : Bytes)
    → All is_word name
    → All is_any body
    → split_cell (name ++ (b'\n' ∷ body)) ≡ (name, run is_body body)
unfolding split_cell
split_cell-line name body h l = rw (
  run-append is_word name (b'\n' ∷ body) h (space-no_word b'\n' refl),
  after_run-append is_word name (b'\n' ∷ body) h (space-no_word b'\n' refl),
  after_run-All is_any body l,
)

pub split_line-append :
    (name args : Bytes) (s : ℕ)
    → All is_word name
    → is_space s ≡ true
    → All is_any args
    → split_line (name ++ (s ∷ args)) ≡ name ++ s ∷ args
unfolding split_line
split_line-append name args s h k l = rw (
  run-append is_word name (s ∷ args) h (space-no_word s k),
  after_run-append is_word name (s ∷ args) h (space-no_word s k),
  k,
  run-All is_any args l,
)
