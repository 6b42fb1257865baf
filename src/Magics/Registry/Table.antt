-- ===== src/Magics/Registry/Table.antt =====
-- The registered magics as an abstract table: a function from names to the ways in which a magic can be called, on which
-- a registration and its end act at one name.
use xeus_cpp.Base.{
  ℕ, ◌≡◌, refl, ap, Bool, true, false, [], ◌∷◌, List, Option, none, some, Bytes, equal, arith,
  if◌then◌else◌,
}
use xeus_cpp.Base.Map.{Map, lookup, lookup-insert, lookup-erase}
use xeus_cpp.World.{World}
use xeus_cpp.Magics.{
  Magic, cell, line, MagicsManager, new_magics_manager, is_some, insert_if, contains,
  register_magic, unregister_magic, call_cell, call_line, recover_cell, recover_line, apply_cell,
  apply_line,
}

abbrev pub Table : Type 0
Table = Bytes → Magic

abbrev pub no_magic : Magic
no_magic = record { as_line = none; as_cell = none }

-- The new magic in the ways in which it can be called, and the old one in the others.
abbrev pub or_else {ℓ} : {V : Type ℓ} → Option V → Option V → Option V
or_else none old = old
or_else (some v) old = some v

abbrev pub over : Magic → Magic → Magic
over magic old = record {
  as_line = or_else magic.as_line old.as_line;
  as_cell = or_else magic.as_cell old.as_cell;
}

pub data Registration : Type 0 where
  registers : Bytes → Magic → Registration
  unregisters : Bytes → Registration

-- On the table.
abbrev pub enter : Registration → Table → Table
enter (registers name magic) t other = if equal name other then over magic (t other) else t other
enter (unregisters name) t other = if equal name other then no_magic else t other

unfoldable pub enter_all : List Registration → Table → Table
enter_all [] t = t
enter_all (r ∷ rs) t = enter_all rs (enter r t)

-- On the manager.
unfoldable pub perform : Registration → MagicsManager → MagicsManager
perform (registers name magic) m = register_magic name magic m
perform (unregisters name) m = unregister_magic name m

unfoldable pub perform_all : List Registration → MagicsManager → MagicsManager
perform_all [] m = m
perform_all (r ∷ rs) m = perform_all rs (perform r m)

-- The manager holds exactly what the table says.
pub record Represents (m : MagicsManager) (t : Table) : Type 0 where
  pub line_magics : (name : Bytes) → lookup name m.m_magic_line ≡ (t name).as_line
  pub cell_magics : (name : Bytes) → lookup name m.m_magic_cell ≡ (t name).as_cell

lookup-insert_if {ℓ} :
    {V : Type ℓ} (name other : Bytes) (o : Option V) (m : Map V)
    → lookup other (insert_if name o m)
      ≡ (if equal name other then or_else o (lookup other m) else lookup other m)
lookup-insert_if name other none m = ground arith
lookup-insert_if name other (some v) m = lookup-insert name other v m

line_of-if :
    (b : Bool) (x y : Magic) → (if b then x else y).as_line ≡ (if b then x.as_line else y.as_line)
line_of-if true x y = refl
line_of-if false x y = refl

cell_of-if :
    (b : Bool) (x y : Magic) → (if b then x else y).as_cell ≡ (if b then x.as_cell else y.as_cell)
cell_of-if true x y = refl
cell_of-if false x y = refl

perform-Represents :
    (r : Registration) (m : MagicsManager) (t : Table)
    → Represents m t
    → Represents (perform r m) (enter r t)
unfolding perform register_magic unregister_magic
perform-Represents (registers name magic) m t h = record {
  line_magics = λ other.
      rw
        (
          line_of-if (equal name other) (over magic (t other)) (t other),
          lookup-insert_if name other magic.as_line m.m_magic_line,
          h.line_magics other,
        )
        refl;
  cell_magics = λ other.
      rw
        (
          cell_of-if (equal name other) (over magic (t other)) (t other),
          lookup-insert_if name other magic.as_cell m.m_magic_cell,
          h.cell_magics other,
        )
        refl;
}
perform-Represents (unregisters name) m t h = record {
  line_magics = λ other.
      rw
        (
          line_of-if (equal name other) no_magic (t other),
          lookup-erase name other m.m_magic_line,
          h.line_magics other,
        )
        refl;
  cell_magics = λ other.
      rw
        (
          cell_of-if (equal name other) no_magic (t other),
          lookup-erase name other m.m_magic_cell,
          h.cell_magics other,
        )
        refl;
}

perform_all-Represents :
    (rs : List Registration) (m : MagicsManager) (t : Table)
    → Represents m t
    → Represents (perform_all rs m) (enter_all rs t)
unfolding perform_all enter_all
perform_all-Represents [] m t h = h
perform_all-Represents (r ∷ rs) m t h =
    perform_all-Represents rs (perform r m) (enter r t) (perform-Represents r m t h)

-- What a client sees of a manager: which names are known, and what a call does.
pub record Behaves (m : MagicsManager) (t : Table) : Type 0 where
  pub known_line : (name : Bytes) → contains m name line ≡ is_some (t name).as_line
  pub known_cell : (name : Bytes) → contains m name cell ≡ is_some (t name).as_cell
  pub calls_line :
      (name args : Bytes) (w : World)
      → apply_line m name args w ≡ recover_line (call_line (t name).as_line args w)
  pub calls_cell :
      (name args body : Bytes) (c : ℕ) (w : World)
      → apply_cell m name args (c ∷ body) w
        ≡ recover_cell (call_cell (t name).as_cell args (c ∷ body) w)

Represents-Behaves : (m : MagicsManager) (t : Table) → Represents m t → Behaves m t
unfolding contains apply_line apply_cell
Represents-Behaves m t h = record {
  known_line = λ name. ap is_some (h.line_magics name);
  known_cell = λ name. ap is_some (h.cell_magics name);
  calls_line = λ name args w. ap (λ o. recover_line (call_line o args w)) (h.line_magics name);
  calls_cell = λ name args body c w.
      ap (λ o. recover_cell (call_cell o args (c ∷ body) w)) (h.cell_magics name);
}

-- Whatever magics are registered with a new manager and taken off it, in whatever order: the manager knows exactly the
-- names that the table has, as line magics and as cell magics, and a call by a name runs exactly the magic that the table has
-- for it, a cell with a body that is not empty. In the table a registration replaces what its name had before, but keeps
-- a way of calling that the new magic does not have; the end of a registration takes both ways off its name.
pub registrations-Behaves :
    (rs : List Registration)
    → Behaves (perform_all rs new_magics_manager) (enter_all rs (λ name. no_magic))
unfolding lookup
registrations-Behaves rs = Represents-Behaves _ _ (
    perform_all-Represents rs new_magics_manager (λ name. no_magic)
      (record { line_magics = λ name. refl; cell_magics = λ name. refl }))
