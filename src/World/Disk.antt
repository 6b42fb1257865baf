-- ===== src/World/Disk.antt =====
-- Files by path, with `std::ofstream` and `std::ifstream` as far as the magics use them.
use xeus_cpp.Base.{[], ◌∷◌, ◌==◌, if◌then◌else◌, Bytes}
use xeus_cpp.Base.Map.{Map}
unfoldable pub use xeus_cpp.Base.Map.{lookup, insert}
pub use xeus_cpp.Base.Map.{lookup-insert, lookup-insert_self, lookup-insert_ne}

abbrev pub Files : Type 0
Files = Map Bytes

-- What `std::getline` takes of the contents.
abbrev pub first_line : Bytes → Bytes
first_line [] = []
first_line (c ∷ p) = let rest = c ∷ first_line p in if c == b'\n' then [] else rest
