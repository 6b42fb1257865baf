-- ===== src/Shell.antt =====
-- The shell preamble: `xsystem` of src/xsystem.hpp. `popen` is a parameter: a command gives the text that its pipe
-- yields, or a null pointer.
pub mod Output
use xeus_cpp.Base.{
  ℕ, zero, suc, Bytes, Bool, true, [], ◌∷◌, ◌++◌, Option, none, some, codes, ◌==◌, if◌then◌else◌,
  length, c_string,
}
use xeus_cpp.World.Disk.{Files}
use xeus_cpp.World.{M, ◌>>◌, ◌>>=◌, pure, print, report, flush_out, World, Outcome, fault}
use xeus_cpp.Pattern.{behind, run, is_any}
use xeus_cpp.Magics.{KernelRes, status_ok, status_error, is_some}

-- The pattern `^\!`.
unfoldable pub is_shell : Bytes → Bool
is_shell code = is_some (behind b'!' code)

-- `(.*)` behind the exclamation mark; the submatch is empty where there is no match.
abbrev submatch : Option Bytes → Bytes
submatch none = []
submatch (some p) = run is_any p

unfoldable pub command_of : Bytes → Bytes
command_of code = submatch (behind b'!' code) ++ codes " 2>&1"

-- `fgets` into a buffer with room for `n` characters: up to a newline, and what is left of the pipe.
unfoldable pub fgets : ℕ → Bytes → Bytes × Bytes
fgets zero p = ([], p)
fgets (suc n) [] = ([], [])
fgets (suc n) (c ∷ p) =
    let rest = fgets n p in if c == b'\n' then (c ∷ [], p) else (c ∷ rest.0, rest.1)

-- `char buff[512]`, of which the last is for the terminating zero.
abbrev pub room : ℕ
room = 511

-- `while (fgets(...)) std::cout << buff;`: a null pointer at the end of the pipe, and else the buffer up to its first
-- zero. `none` when the fuel runs out.
unfoldable pub copy : ℕ → Bytes → Option Bytes
copy zero pipe = none
copy (suc f) [] = some []
copy (suc f) (c ∷ pipe) = elim (copy f (fgets room (c ∷ pipe)).1) [
  | none ↦ none
  | some rest ↦ some (c_string (fgets room (c ∷ pipe)).0 ++ rest)
]

abbrev print_copy : Option Bytes → M (Unit {0})
print_copy none = fault
print_copy (some text) = print text

abbrev on_pipe : Option Bytes → M KernelRes
on_pipe none =
    report (codes "Unable to execute the shell command\n" ∷ [])
    >> (flush_out >> pure (status_error (codes "ename") (codes "evalue") (some [])))
on_pipe (some pipe) = print_copy (copy (suc (length pipe)) pipe) >> (flush_out >> pure status_ok)

-- The command may change files.
unfoldable pub apply : (Bytes → Files → Option Bytes × Files) → Bytes → M KernelRes
apply popen code w =
    let (pipe, files) = popen (command_of code) w.files in on_pipe pipe (record w { files = files })
