-- ===== src/Magics/Bare.antt =====
-- A cell magic that is called without arguments, and with a body of one line.
use xeus_cpp.Base.{
  ℕ, ◌≡◌, refl, ap, ◌∙◌, true, [], ◌∷◌, ◌++◌, some, arith, Bytes, if◌then◌else◌, codes,
}
use xeus_cpp.Base.Map.{lookup}
use xeus_cpp.World.{World}
use xeus_cpp.Pattern.{is_word, is_any}
use xeus_cpp.Pattern.Runs.{All, run-All}
use xeus_cpp.Magics.Syntax.{cell_name-append, split_cell-line, space-no_word}
use xeus_cpp.Magics.{
  KernelRes, CellMagic, MagicsManager, cell, contains, is_body, recover_cell, apply_cell,
  split_cell, apply, on_cell_name, call_known_cell, unknown_magic,
}
use xeus_cpp.Magics.Dispatch.{answered, run_line-percent}

body-All : (p : Bytes) → All is_any p → All is_body p
unfolding is_any
body-All [] h = tt
body-All (c ∷ p) h = (ground (arith, h.0), body-All p h.1)

module _ (m : MagicsManager) (magic : CellMagic) (c : ℕ) (w : Bytes) (d : ℕ) (body : Bytes)
    (name_word : All is_word (c ∷ w)) (body_line : All is_any (d ∷ body))
    (known : lookup (c ∷ w) m.m_magic_cell ≡ some magic) where
  applied :
      (world : World)
      → apply_cell m (c ∷ w) (c ∷ w) (d ∷ body) world
        ≡ recover_cell (magic (c ∷ w) (d ∷ body) world)
  unfolding apply_cell
  applied world = rw known

  registered : contains m (c ∷ w) cell ≡ true
  unfolding contains
  registered = rw known

  cut : split_cell ((c ∷ w) ++ (b'\n' ∷ (d ∷ body))) ≡ (c ∷ w, d ∷ body)
  cut =
      split_cell-line (c ∷ w) (d ∷ body) name_word body_line
      ∙ ap (λ b. (c ∷ w, b)) (run-All is_body (d ∷ body) (body-All (d ∷ body) body_line))

  called :
      (world : World)
      → call_known_cell m (b'%' ∷ b'%' ∷ ((c ∷ w) ++ (b'\n' ∷ (d ∷ body)))) (c ∷ w) world
        ≡ answered (recover_cell (magic (c ∷ w) (d ∷ body) world))
  called world =
      rw cut
        (rw (run_line-percent m ((c ∷ w) ++ (b'\n' ∷ (d ∷ body)))) (ap answered (applied world)))

  -- A registered cell magic that is called without arguments, with a body of one line: the line that it is given is its
  -- name alone, and the cell is the body.
  pub apply-bare_cell :
      (world : World) (res : KernelRes)
      → apply m (b'%' ∷ b'%' ∷ ((c ∷ w) ++ (b'\n' ∷ (d ∷ body)))) res world
        ≡ answered (recover_cell (magic (c ∷ w) (d ∷ body) world))
  unfolding apply
  apply-bare_cell world res =
      let rest : Bytes = b'\n' ∷ (d ∷ body) in
      let code : Bytes = b'%' ∷ b'%' ∷ ((c ∷ w) ++ rest) in
      ap (λ o. on_cell_name m code res o world)
        (cell_name-append c w rest name_word (space-no_word b'\n' refl))
      ∙ ap
          (λ b.
            (if b
                then call_known_cell m code (c ∷ w)
                else unknown_magic (some []) (codes "Unknown magic cell function %%") (c ∷ w))
              world)
          registered
      ∙ called world
