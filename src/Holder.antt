-- ===== src/Holder.antt =====
-- The preambles: `xpreamble` of include/xeus-cpp/xpreamble.hpp, `xholder_preamble` of src/xholder.cpp and
-- `xpreamble_manager` of include/xeus-cpp/xmanager.hpp. An object that a `std::unique_ptr` owns is a value of
-- `Preamble`, with a constructor for each class that the kernel registers.
pub mod Disjoint
use xeus_cpp.Base.{Bytes, Bool, false, Option, none, some, [], ◌∷◌, codes, if◌then◌else◌}
use xeus_cpp.Base.Map.{Map, lookup, insert, erase}
use xeus_cpp.Magics.{KernelRes, MagicsManager, is_magic}
use xeus_cpp.Inspect.{is_inspect}
use xeus_cpp.Shell.{is_shell}

pub data Preamble : Type 0 where
  introspection : Preamble
  magics : MagicsManager → Preamble
  shell : Preamble

-- `xpreamble::is_match`, by the pattern of the class.
unfoldable pub matches : Preamble → Bytes → Bool
matches introspection code = is_inspect code
matches (magics m) code = is_magic code
matches shell code = is_shell code

-- `xholder_preamble`: `p_holder`, where `none` is the null pointer. A copy holds a clone of the object.
abbrev pub Holder : Type 0
Holder = Option Preamble

unfoldable pub clone : Preamble → Preamble
clone introspection = introspection
clone (magics m) = magics m
clone shell = shell

unfoldable pub copy : Holder → Holder
copy none = none
copy (some p) = some (clone p)

-- The move constructor and the two move assignments: the new holder, and what is left in the old one.
unfoldable pub move : Holder → Holder × Holder
move h = (h, none)

unfoldable pub swap : Holder → Holder → Holder × Holder
swap a b = (b, a)

-- `operator=` with a copy, and with a moved holder: the holder and the right-hand side behind it. What the temporary
-- held is destroyed.
unfoldable pub assign_copy : Holder → Holder → Holder × Holder
assign_copy h rhs = ((swap h (copy rhs)).0, rhs)

unfoldable pub assign_move : Holder → Holder → Holder × Holder
assign_move h rhs = let (tmp, left) = move rhs in ((swap h tmp).0, left)

unfoldable pub is_match : Holder → Bytes → Bool
is_match none code = false
is_match (some p) code = matches p code

abbrev pub Manager : Type 0
Manager = Map Holder

unfoldable pub register_preamble : Bytes → Preamble → Manager → Manager
register_preamble name p m = insert name (assign_move none (some p)).0 m

unfoldable pub unregister_preamble : Bytes → Manager → Manager
unregister_preamble name m = erase name m

-- `operator[]`, which puts an empty holder under a name that there is none for.
abbrev at_lookup : Bytes → Manager → Option Holder → Holder × Manager
at_lookup name m none = (none, insert name none m)
at_lookup name m (some h) = (h, m)

unfoldable pub at : Bytes → Manager → Holder × Manager
at name m = at_lookup name m (lookup name m)

-- The loop over the preambles: the first that matches, in the order of the names.
unfoldable pub first_match : Bytes → Manager → Option Preamble
first_match code [] = none
first_match code ((name, none) ∷ m) = first_match code m
first_match code ((name, some p) ∷ m) =
    let rest = first_match code m in if is_match (some p) code then some p else rest
