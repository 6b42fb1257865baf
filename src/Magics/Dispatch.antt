-- ===== src/Magics/Dispatch.antt =====
-- What the cell magics are called with, and how a call ends.
use xeus_cpp.Base.{
  ℕ, ◌≡◌, refl, ap, sym, ◌∙◌, append_assoc, append-nil, true, [], ◌∷◌, ◌++◌, some, Bytes, is_space,
  if◌then◌else◌, codes,
}
use xeus_cpp.Base.Map.{lookup}
use xeus_cpp.World.{
  World, Outcome, returned, threw, undefined, runtime_error, logic_error, exception, other, ◌>>◌,
  Thrown, insertions, bind_outcome, pure, flush_out, report, report_line,
}
use xeus_cpp.Buffer.{OutputBuffer, xsputn, sync}
use xeus_cpp.Buffer.Order.{Flushed, Flushed-sync, Flushed-sync_twice, everything, xsputn-everything}
use xeus_cpp.Pattern.{is_word, is_any}
use xeus_cpp.Pattern.Runs.{All, run-All}
use xeus_cpp.Magics.Syntax.{cell_name-append, line_name-percent, split_cell-append, space-no_word}
use xeus_cpp.Magics.{
  KernelRes, status_ok, CellMagic, MagicsManager, cell, contains, is_body, recover_cell, apply_cell,
  split_cell, unknown_magic, run_line, apply, on_cell_name, call_known_cell,
}

-- The status that is given once the magic has been called.
abbrev pub answered : Outcome (Unit {0}) × World → Outcome KernelRes × World
answered r = bind_outcome r (λ _. flush_out >> pure status_ok)

pub run_line-percent :
    (m : MagicsManager) (p : Bytes) → run_line m (b'%' ∷ b'%' ∷ p) status_ok ≡ pure status_ok
unfolding run_line
run_line-percent m p = rw (line_name-percent p)

-- What is reported of an exception.
abbrev pub complaint : Thrown → Bytes
complaint (runtime_error what) = what ++ codes "\n"
complaint (logic_error what) = what ++ codes "\n"
complaint (exception what) = what ++ codes "\n"
complaint other = codes "Exception occurred. Recovering...\n"

-- The status is "ok"; the files are those of `w`, and nothing is added to its output buffer and waits there.
abbrev Succeeds : World → Outcome KernelRes × World → Type 0
Succeeds w r = (r.0 ≡ returned status_ok) × (r.1.files ≡ w.files) × Flushed w.out [] r.1.out

-- How `apply` ends, if the magic ends in this way and leaves `w`.
abbrev pub Handled : Outcome (Unit {0}) → World → Outcome KernelRes × World → Type 0
Handled (returned u) w r = Succeeds w r × (r.1.err ≡ w.err)
Handled (threw e) w r = Succeeds w r × Flushed w.err (complaint e) r.1.err
Handled undefined w r = r ≡ (undefined, w)

Flushed-nothing : (b : OutputBuffer) → Flushed b [] (sync b)
Flushed-nothing b = Flushed-sync b b [] (sym (append-nil (everything b)))

Flushed-insertion : (text : Bytes) (b : OutputBuffer) → Flushed b text (sync (xsputn text b))
Flushed-insertion text b = Flushed-sync b (xsputn text b) text (xsputn-everything text b)

Flushed-insertions :
    (a t : Bytes) (b : OutputBuffer) → Flushed b (a ++ t) (sync (xsputn t (sync (xsputn a b))))
Flushed-insertions a t b =
    let (first, f) = Flushed-insertion a b in
    let (second, g) = Flushed-insertion t (sync (xsputn a b)) in
    (second ∙ ap (λ p. p ++ t) first ∙ append_assoc (everything b) a t, g)

Flushed-nothing_twice : (b : OutputBuffer) → Flushed b [] (sync (sync b))
Flushed-nothing_twice b = Flushed-sync_twice b b [] (sym (append-nil (everything b)))

answered-Handled : (r : Outcome (Unit {0}) × World) → Handled r.0 r.1 (answered (recover_cell r))
unfolding flush_out report report_line insertions
answered-Handled (returned u, w) = ((refl, refl, Flushed-nothing w.out), refl)
answered-Handled (threw (runtime_error what), w) =
    ((refl, refl, Flushed-nothing_twice w.out), Flushed-insertions what (codes "\n") w.err)
answered-Handled (threw (logic_error what), w) =
    ((refl, refl, Flushed-nothing_twice w.out), Flushed-insertions what (codes "\n") w.err)
answered-Handled (threw (exception what), w) =
    ((refl, refl, Flushed-nothing_twice w.out), Flushed-insertions what (codes "\n") w.err)
answered-Handled (threw other, w) = (
  (refl, refl, Flushed-nothing_twice w.out),
  Flushed-insertion (codes "Exception occurred. Recovering...\n") w.err,
)
answered-Handled (undefined, w) = refl

module _ (m : MagicsManager) (magic : CellMagic) (c s : ℕ) (w args : Bytes) (d : ℕ) (body : Bytes)
    (name_word : All is_word (c ∷ w)) (space : is_space s ≡ true) (args_any : All is_any args)
    (body_text : All is_body (d ∷ body)) (known : lookup (c ∷ w) m.m_magic_cell ≡ some magic) where
  applied :
      (world : World)
      → apply_cell m (c ∷ w) ((c ∷ w) ++ s ∷ args) (d ∷ body) world
        ≡ recover_cell (magic ((c ∷ w) ++ s ∷ args) (d ∷ body) world)
  unfolding apply_cell
  applied world = rw known

  registered : contains m (c ∷ w) cell ≡ true
  unfolding contains
  registered = rw known

  cut :
      split_cell ((c ∷ w) ++ (s ∷ (args ++ (b'\n' ∷ (d ∷ body))))) ≡ ((c ∷ w) ++ s ∷ args, d ∷ body)
  cut =
      split_cell-append (c ∷ w) args (d ∷ body) s name_word space args_any
      ∙ ap (λ b. ((c ∷ w) ++ s ∷ args, b)) (run-All is_body (d ∷ body) body_text)

  called :
      (world : World)
      → call_known_cell m
          (b'%' ∷ b'%' ∷ ((c ∷ w) ++ (s ∷ (args ++ (b'\n' ∷ (d ∷ body))))))
          (c ∷ w)
          world
        ≡ answered (recover_cell (magic ((c ∷ w) ++ s ∷ args) (d ∷ body) world))
  called world = rw cut (
      rw (run_line-percent m ((c ∷ w) ++ (s ∷ (args ++ (b'\n' ∷ (d ∷ body))))))
        (ap answered (applied world)))

  pub apply-called :
      (world : World) (res : KernelRes)
      → apply m (b'%' ∷ b'%' ∷ ((c ∷ w) ++ (s ∷ (args ++ (b'\n' ∷ (d ∷ body)))))) res world
        ≡ answered (recover_cell (magic ((c ∷ w) ++ s ∷ args) (d ∷ body) world))
  unfolding apply
  apply-called world res =
      let rest : Bytes = s ∷ (args ++ (b'\n' ∷ (d ∷ body))) in
      let code : Bytes = b'%' ∷ b'%' ∷ ((c ∷ w) ++ rest) in
      ap (λ o. on_cell_name m code res o world)
        (cell_name-append c w rest name_word (space-no_word s space))
      ∙ ap
          (λ b.
            (if b
                then call_known_cell m code (c ∷ w)
                else unknown_magic (some []) (codes "Unknown magic cell function %%") (c ∷ w))
              world)
          registered
      ∙ called world

  -- A registered cell magic is called with its name and its arguments as the line, and with the lines behind it as the
  -- cell, of which the first white space behind the name may be the end of a line. Whether it returns or throws: the
  -- status is "ok", the files are as it leaves them, nothing waits in the output buffer and nothing is added to it; the
  -- buffer of the errors is as the magic leaves it if it returns, and is given the text of the exception and the end of
  -- a line, or a fixed line if it is none of the standard library's, if it throws. The body is not empty and has no
  -- carriage return.
  pub apply-cell :
      (world : World) (res : KernelRes)
      → let r : Outcome (Unit {0}) × World = magic ((c ∷ w) ++ s ∷ args) (d ∷ body) world in
        Handled r.0 r.1
          (apply m (b'%' ∷ b'%' ∷ ((c ∷ w) ++ (s ∷ (args ++ (b'\n' ∷ (d ∷ body)))))) res world)
  apply-cell world res = rw (apply-called world res) (answered-Handled _)
