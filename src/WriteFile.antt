-- ===== src/WriteFile.antt =====
-- The cell magic `file`: `writefile` of src/xmagics/os.cpp, and `argparser::parse` of src/xoptions.cpp. The library
-- argparse, with the options that `get_options` declares to it, is a parameter.
pub mod Contents
use xeus_cpp.Base.{
  Bytes, Bool, [], ◌∷◌, ◌++◌, List, Option, none, some, codes, words, if◌then◌else◌,
}
use xeus_cpp.World.{
  Access, World, M, Outcome, Thrown, runtime_error, ◌>>=◌, ◌>>◌, pure, fault, print, report_line,
  returned,
}
use xeus_cpp.World.Disk.{lookup, insert}
use xeus_cpp.Assist.History.{append_file}

-- What `parse_args` leaves for a list of arguments, of which the first is the program's name: what the action of
-- `--help` has printed, the `std::runtime_error` that it threw, what `get<std::string>("filename")` gives or
-- throws, and whether `-a` is set.
pub record Parsed : Type 0 where
  pub printed : Bytes
  pub complaint : Option Bytes
  pub filename : Outcome Bytes
  pub append : Bool

abbrev complain : Option Bytes → M (Unit {0})
complain none = pure tt
complain (some what) = report_line (what ∷ [])

-- `argparser::parse`: the address of the first word is taken, and an error is printed; the parser keeps what it has.
abbrev parse_words : (List Bytes → Parsed) → List Bytes → M Parsed
parse_words argparse [] = fault
parse_words argparse (word ∷ more) =
    print (argparse (word ∷ more)).printed
    >> (complain (argparse (word ∷ more)).complaint >> pure (argparse (word ∷ more)))

unfoldable pub parse : (List Bytes → Parsed) → Bytes → M Parsed
parse argparse args = parse_words argparse (words args)

-- `file << text << "\n"` to a file that was opened, with what it held before.
abbrev write : Access → Bytes → Bytes → M (Unit {0})
write access path text w =
    if access.writable path
    then (returned tt, record w { files = insert path text w.files })
    else (returned tt, w)

abbrev write_on : Access → Bytes → Bytes → M (Unit {0})
write_on access path text w =
    if access.writable path
    then (returned tt, record w { files = append_file access path text w.files })
    else (returned tt, w)

unfoldable pub is_file_exist : Access → Bytes → World → Bool
is_file_exist access path w = elim (lookup path w.files) [
  | none ↦ Bool.false
  | some text ↦ access.readable path
]

-- The modes in which the file is opened, and what is printed of them.
unfoldable pub write_cell : Access → Bytes → Bool → Bytes → M (Unit {0})
write_cell access path append cell w =
    if is_file_exist access path w
    then (if append
          then print (codes "Appending to " ++ path ++ codes "\n")
            >> write_on access path (cell ++ codes "\n")
          else print (codes "Overwriting " ++ path ++ codes "\n")
            >> write access path (cell ++ codes "\n"))
        w
    else (print (codes "Writing " ++ path ++ codes "\n") >> write access path (cell ++ codes "\n"))
        w

abbrev pub outcome : {A : Type 0} → Outcome A → M A
outcome o w = (o, w)

unfoldable pub writefile : Access → (List Bytes → Parsed) → Bytes → Bytes → M (Unit {0})
writefile access argparse args cell = parse argparse args >>= λ parsed.
    outcome parsed.filename >>= λ path. write_cell access path parsed.append cell
