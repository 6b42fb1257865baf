-- ===== src/Magics/Registry.antt =====
-- What the manager holds after a registration and after its end.
pub mod Table
use xeus_cpp.Base.{◌≡◌, Bool, not, ◌&&◌, ◌||◌, Option, none, some, arith, Bytes, equal}
use xeus_cpp.Base.Map.{Map, lookup, erase, lookup-insert, lookup-erase}
use xeus_cpp.Magics.{
  Magic, MagicType, cell, line, MagicsManager, is_some, insert_if, contains, register_magic,
  unregister_magic,
}

-- Whether an object can be called in this way.
abbrev pub is_a : Magic → MagicType → Bool
is_a magic cell = is_some magic.as_cell
is_a magic line = is_some magic.as_line

lookup-insert_if {ℓ} :
    {V : Type ℓ} (name other : Bytes) (o : Option V) (m : Map V)
    → is_some (lookup other (insert_if name o m))
      ≡ ((equal name other && is_some o) || is_some (lookup other m))
lookup-insert_if name other none m = ground arith
lookup-insert_if name other (some v) m = ground (arith, lookup-insert name other v m)

is_some-erase {ℓ} :
    {V : Type ℓ} (name other : Bytes) (m : Map V)
    → is_some (lookup other (erase name m)) ≡ (not (equal name other) && is_some (lookup other m))
is_some-erase name other m = ground (arith, lookup-erase name other m)

-- A magic that is registered is found under its name, by the ways in which it can be called, and all other magics are
-- found as before.
pub contains-register_magic :
    (name other : Bytes) (magic : Magic) (m : MagicsManager) (t : MagicType)
    → contains (register_magic name magic m) other t
      ≡ ((equal name other && is_a magic t) || contains m other t)
unfolding contains register_magic
contains-register_magic name other magic m cell =
    lookup-insert_if name other magic.as_cell m.m_magic_cell
contains-register_magic name other magic m line =
    lookup-insert_if name other magic.as_line m.m_magic_line

-- The end of a registration takes the name off both maps, and no other name.
pub contains-unregister_magic :
    (name other : Bytes) (m : MagicsManager) (t : MagicType)
    → contains (unregister_magic name m) other t ≡ (not (equal name other) && contains m other t)
unfolding contains unregister_magic
contains-unregister_magic name other m cell = is_some-erase name other m.m_magic_cell
contains-unregister_magic name other m line = is_some-erase name other m.m_magic_line
