-- ===== src/Kernel/Init.antt =====
-- `interpreter::interpreter`, `init_preamble` and `init_magic` of src/xinterpreter.cpp: what a new kernel holds. The
-- magics that are registered are parameters here, and so is the text of a `std::bad_cast`.
use xeus_cpp.Base.{Bytes, [], none, some, codes}
use xeus_cpp.Base.Map.{insert}
use xeus_cpp.Buffer.{new_output_buffer}
use xeus_cpp.World.{Outcome, returned, threw, undefined, exception}
use xeus_cpp.World.Disk.{Files}
use xeus_cpp.Magics.{Magic, CellMagic, new_magics_manager, register_magic}
use xeus_cpp.Holder.{introspection, magics, shell, Holder, Manager, register_preamble, at}
use xeus_cpp.Kernel.{Kernel, StreamBuf, redirect_output}

unfoldable pub init_preamble : Manager → Manager
init_preamble m = register_preamble (codes "shell") shell (
    register_preamble (codes "magics") (magics new_magics_manager)
      (register_preamble (codes "introspection") introspection m))

-- `get_cast<xmagics_manager>().register_magic(name, magic)` on the holder under "magics": the reference to the object of
-- a null pointer is undefined, and an object of another class makes the cast throw.
abbrev register_on : Bytes → Bytes → Magic → Holder × Manager → Outcome (Unit {0}) × Manager
register_on bad_cast name magic (none, m) = (undefined, m)
register_on bad_cast name magic (some (magics manager), m) =
    (returned tt, insert (codes "magics") (some (magics (register_magic name magic manager))) m)
register_on bad_cast name magic (some _, m) = (threw (exception bad_cast), m)

unfoldable pub register_in_magics : Bytes → Bytes → Magic → Manager → Outcome (Unit {0}) × Manager
register_in_magics bad_cast name magic m = register_on bad_cast name magic (at (codes "magics") m)

-- `writefile` and `xassist` are derived from `xmagic_cell` only.
abbrev pub only_cell : CellMagic → Magic
only_cell magic = record { as_line = none; as_cell = some magic }

abbrev and_then :
    Outcome (Unit {0}) × Manager
    → (Manager → Outcome (Unit {0}) × Manager)
    → Outcome (Unit {0}) × Manager
and_then (returned _, m) f = f m
and_then (threw e, m) f = (threw e, m)
and_then (undefined, m) f = (undefined, m)

unfoldable pub init_magic : Bytes → CellMagic → CellMagic → Manager → Outcome (Unit {0}) × Manager
init_magic bad_cast writefile xassist m =
    and_then (register_in_magics bad_cast (codes "file") (only_cell writefile) m)
      (register_in_magics bad_cast (codes "xassist") (only_cell xassist))

-- The kernel before `redirect_output`: the standard streams have the buffers that they have in the process.
abbrev blank : Files → StreamBuf → StreamBuf → StreamBuf → Kernel
blank files cin cout cerr = record {
  world = record { files = files; out = new_output_buffer; err = new_output_buffer };
  cin = cin;
  cout = cout;
  cerr = cerr;
  preambles = [];
  var_count = 0;
  published_errors = [];
  replies = [];
}

-- The constructor, behind the creation of the C++ interpreter.
unfoldable pub interpreter :
    Bytes
    → CellMagic
    → CellMagic
    → Files
    → StreamBuf
    → StreamBuf
    → StreamBuf
    → Outcome (Unit {0}) × Kernel
interpreter bad_cast writefile xassist files cin cout cerr =
    let k = redirect_output (blank files cin cout cerr) in
    let (o, m) = init_magic bad_cast writefile xassist (init_preamble k.preambles) in
    (o, record k { preambles = m })
