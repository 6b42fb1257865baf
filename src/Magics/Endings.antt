-- ===== src/Magics/Endings.antt =====
-- How `apply` ends, whatever the magics do.
use xeus_cpp.Base.{
  ◌≡◌, refl, ◌⊎◌, Bool, true, false, [], Option, none, some, Bytes, is_empty, if◌then◌else◌,
  Bool-cases, inl, inr, codes, List, ◌||◌,
}
use xeus_cpp.Base.Map.{lookup}
use xeus_cpp.World.{
  World, Outcome, returned, threw, undefined, runtime_error, logic_error, exception, other, ◌>>◌,
  bind_outcome, pure, flush_out, report, report_line, M,
}
use xeus_cpp.Magics.Syntax.{cell_name-line_name}
use xeus_cpp.Magics.{
  LineMagic, call_cell, call_line, drop1, drop2, split_line, KernelRes, null, status_ok,
  status_error, CellMagic, MagicsManager, cell, line, contains, recover_cell, recover_line,
  usage_error, apply_cell, apply_line, cell_name, line_name, split_cell, unknown_magic, run_line,
  apply, on_cell_name, on_line_name, call_known_cell, call_known_line, is_magic, is_some,
}

-- Whether the code names a magic that is registered, in the way in which it calls it.
abbrev known_line : MagicsManager → Option Bytes → Bool
known_line m none = false
known_line m (some name) = contains m name line

abbrev known_cell : MagicsManager → Option Bytes → Option Bytes → Bool
known_cell m none o = known_line m o
known_cell m (some name) o = contains m name cell

unfoldable pub is_known : MagicsManager → Bytes → Bool
is_known m code = known_cell m (cell_name code) (line_name code)

-- The magic that the code names is registered, and a call of it meets undefined behaviour.
abbrev pub Meets : MagicsManager → Bytes → World → Type 0
Meets m code w =
    ((name args content : Bytes) × (magic : CellMagic) × (cell_name code ≡ some name)
      × (lookup name m.m_magic_cell ≡ some magic)
      × ((magic args content w).0 ≡ undefined))
    ⊎ ((name args : Bytes) × (magic : LineMagic) × (line_name code ≡ some name)
        × (lookup name m.m_magic_line ≡ some magic)
        × ((magic args w).0 ≡ undefined))

-- How `apply` may end for a code that calls a known magic, or an unknown one. `U` is what there is if it does not return.
abbrev pub Answers : Type 0 → Bool → Outcome KernelRes → Type 0
Answers U known (returned status_ok) = known ≡ true
Answers U known (returned (status_error ename evalue traceback)) = known ≡ false
Answers U known (returned _) = ⊥
Answers U known (threw e) = ⊥
Answers U known undefined = (known ≡ true) × U

-- A handler has been passed.
abbrev Caught : Type 0 → Outcome (Unit {0}) → Type 0
Caught U (returned a) = Unit
Caught U (threw e) = ⊥
Caught U undefined = U

unknown_magic-Answers :
    (U : Type 0) (traceback : Option (List Bytes)) (complaint name : Bytes) (w : World)
    → Answers U false (unknown_magic traceback complaint name w).0
unfolding flush_out report
unknown_magic-Answers U traceback complaint name w = refl

module _ (U : Type 0) where
  recover_cell-Caught :
      (r : Outcome (Unit {0}) × World) → (r.0 ≡ undefined → U) → Caught U (recover_cell r).0
  unfolding report report_line
  recover_cell-Caught (returned a, w) h = tt
  recover_cell-Caught (threw (runtime_error what), w) h = tt
  recover_cell-Caught (threw (logic_error what), w) h = tt
  recover_cell-Caught (threw (exception what), w) h = tt
  recover_cell-Caught (threw other, w) h = tt
  recover_cell-Caught (undefined, w) h = h refl

  recover_line-Caught :
      (r : Outcome (Unit {0}) × World) → (r.0 ≡ undefined → U) → Caught U (recover_line r).0
  unfolding report report_line
  recover_line-Caught (returned a, w) h = tt
  recover_line-Caught (threw (runtime_error what), w) h = tt
  recover_line-Caught (threw (logic_error what), w) h = tt
  recover_line-Caught (threw (exception what), w) h = tt
  recover_line-Caught (threw other, w) h = tt
  recover_line-Caught (undefined, w) h = h refl

  usage_error-Caught :
      (m : MagicsManager) (name : Bytes) (w : World) → Caught U (usage_error m name w).0
  unfolding usage_error report report_line
  usage_error-Caught m name w = elim (Bool-cases (contains m name line)) [
    | inl e ↦ rw e tt
    | inr e ↦ rw e tt
  ]

  -- What is called is a magic of the map, not a null pointer.
  call_cell-undefined :
      (o : Option CellMagic) (args content : Bytes) (w : World)
      → is_some o ≡ true
      → ((magic : CellMagic) → o ≡ some magic → (magic args content w).0 ≡ undefined → U)
      → (call_cell o args content w).0 ≡ undefined
      → U
  call_cell-undefined none args content w k h e = cc
  call_cell-undefined (some magic) args content w k h e = h magic refl e

  call_line-undefined :
      (o : Option LineMagic) (args : Bytes) (w : World)
      → is_some o ≡ true
      → ((magic : LineMagic) → o ≡ some magic → (magic args w).0 ≡ undefined → U)
      → (call_line o args w).0 ≡ undefined
      → U
  call_line-undefined none args w k h e = cc
  call_line-undefined (some magic) args w k h e = h magic refl e

  apply_cell-Caught :
      (m : MagicsManager) (name args content : Bytes) (w : World)
      → contains m name cell ≡ true
      → ((magic : CellMagic)
          → lookup name m.m_magic_cell ≡ some magic
          → (magic args content w).0 ≡ undefined
          → U)
      → Caught U (apply_cell m name args content w).0
  unfolding apply_cell contains
  apply_cell-Caught m name args content w k h = elim (Bool-cases (is_empty content)) [
    | inl e ↦ rw e (usage_error-Caught m name w)
    | inr e ↦ rw e (
        recover_cell-Caught (call_cell (lookup name m.m_magic_cell) args content w)
          (call_cell-undefined (lookup name m.m_magic_cell) args content w k h))
  ]

  apply_line-Caught :
      (m : MagicsManager) (name args : Bytes) (w : World)
      → contains m name line ≡ true
      → ((magic : LineMagic)
          → lookup name m.m_magic_line ≡ some magic
          → (magic args w).0 ≡ undefined
          → U)
      → Caught U (apply_line m name args w).0
  unfolding apply_line contains
  apply_line-Caught m name args w k h =
      recover_line-Caught (call_line (lookup name m.m_magic_line) args w)
        (call_line-undefined (lookup name m.m_magic_line) args w k h)

  -- Behind a call of a known magic stands the status "ok".
  Answers-ok :
      (r : Outcome (Unit {0}) × World) (k : M KernelRes)
      → Caught U r.0
      → ((w : World) → Answers U true (k w).0)
      → Answers U true (bind_outcome r (λ _. k)).0
  Answers-ok (returned a, w) k h f = f w
  Answers-ok (threw e, w) k h f = absurd h
  Answers-ok (undefined, w) k h f = (refl, h)

  ok_status : (w : World) → Answers U true ((flush_out >> pure status_ok) w).0
  unfolding flush_out
  ok_status w = refl

  Answers-if :
      (known : Bool) (k l : M KernelRes) (w : World)
      → (known ≡ true → Answers U true (k w).0)
      → Answers U false (l w).0
      → Answers U known ((if known then k else l) w).0
  Answers-if true k l w h i = h refl
  Answers-if false k l w h i = i

call_known_line-Answers :
    (m : MagicsManager) (code name : Bytes) (w : World)
    → line_name code ≡ some name
    → contains m name line ≡ true
    → Answers (Meets m code w) true (call_known_line m code name w).0
call_known_line-Answers m code name w e k =
    let args = split_line (drop1 code) in
    Answers-ok (Meets m code w) (apply_line m name args w) _
      (apply_line-Caught (Meets m code w) m name args w k
        λ magic f u. inr (name, args, magic, e, f, u))
      (ok_status (Meets m code w))

call_known_cell-Answers :
    (U : Type 0) (m : MagicsManager) (code name : Bytes) (w : World)
    → (Meets m code w → U)
    → cell_name code ≡ some name
    → line_name code ≡ none
    → contains m name cell ≡ true
    → Answers U true (call_known_cell m code name w).0
unfolding run_line
call_known_cell-Answers U m code name w give e n k =
    let (args, content) = split_cell (drop2 code) in
    rw n (
      Answers-ok U (apply_cell m name args content w) _
        (apply_cell-Caught U m name args content w k
          λ magic f u. give (inl (name, args, content, magic, e, f, u)))
        (ok_status U))

on_line_name-Answers :
    (m : MagicsManager) (code : Bytes) (o : Option Bytes) (w : World)
    → line_name code ≡ o
    → is_some o ≡ true
    → Answers (Meets m code w) (known_line m o) (on_line_name m code null o w).0
on_line_name-Answers m code none w e h = cc
on_line_name-Answers m code (some name) w e h =
    Answers-if (Meets m code w) (contains m name line) (call_known_line m code name) _ w
      (call_known_line-Answers m code name w e)
      (unknown_magic-Answers (Meets m code w) none (codes "Unknown magic line function %") name w)

on_cell_name-Answers :
    (m : MagicsManager) (code : Bytes) (o : Option Bytes) (w : World)
    → cell_name code ≡ o
    → (is_some o || is_some (line_name code)) ≡ true
    → Answers (Meets m code w) (known_cell m o (line_name code)) (on_cell_name m code null o w).0
unfolding run_line
on_cell_name-Answers m code none w e h = on_line_name-Answers m code (line_name code) w refl h
on_cell_name-Answers m code (some name) w e h =
    Answers-if (Meets m code w) (contains m name cell) (call_known_cell m code name) _ w
      (call_known_cell-Answers (Meets m code w) m code name w (λ u. u) e
        (cell_name-line_name code e))
      (unknown_magic-Answers (Meets m code w) (some []) (codes "Unknown magic cell function %%")
        name w)

-- Of a code that calls a magic, `apply` gives the status "ok" if the magic is registered, and an error if it is not,
-- whatever the magics do: no exception leaves it. It only fails to return where a call of the registered magic that the
-- code names itself meets undefined behaviour.
pub apply-Answers :
    (m : MagicsManager) (code : Bytes) (w : World)
    → is_magic code ≡ true
    → Answers (Meets m code w) (is_known m code) (apply m code null w).0
unfolding apply is_known is_magic
apply-Answers m code w h = on_cell_name-Answers m code (cell_name code) w refl h
