-- ===== src/WriteFile/Contents.antt =====
-- What the file holds after the magic.
use mathlib.Core.Path.{subst}
use xeus_cpp.Base.{
  [], Bytes, Bool, true, false, ◌≡◌, refl, ap, ◌∙◌, ◌∷◌, ◌++◌, List, Option, none, some, codes,
  words, equal, arith,
}
use xeus_cpp.World.{bind_outcome, ◌>>=◌, pure, Access, World, Outcome, returned, print, report_line}
use xeus_cpp.World.Disk.{Files, lookup, lookup-insert, lookup-insert_self}
use xeus_cpp.Assist.History.{append_file}
use xeus_cpp.WriteFile.{
  Parsed, complain, parse, parse_words, is_file_exist, write_cell, write, write_on, writefile,
  outcome,
}

-- The cell and a newline, behind what the file held if this is asked for.
abbrev pub expected : Bool → Option Bytes → Bytes → Bytes
expected true (some old) cell = old ++ (cell ++ codes "\n")
expected _ _ cell = cell ++ codes "\n"

-- The magic returned; the file holds a text, and all other files are as they were.
abbrev pub Leaves : Bytes → Bytes → Files → Outcome (Unit {0}) × World → Type 0
Leaves path text files r =
    (r.0 ≡ returned tt)
    × (lookup path r.1.files ≡ some text)
    × ((j : Bytes) → equal path j ≡ false → lookup j r.1.files ≡ lookup j files)

Leaves-write :
    (access : Access) (path text : Bytes) (w : World)
    → access.writable path ≡ true
    → Leaves path text w.files (write access path text w)
Leaves-write access path text w h = rw h (
  refl,
  lookup-insert_self path text w.files,
  λ j n. ground (arith, lookup-insert path j text w.files),
)

Leaves-write_on :
    (access : Access) (path text old : Bytes) (w : World)
    → access.writable path ≡ true
    → lookup path w.files ≡ some old
    → Leaves path (old ++ text) w.files (write_on access path text w)
unfolding append_file
Leaves-write_on access path text old w h e =
    rw (h, e, append_file)
      (
        refl,
        lookup-insert_self path (old ++ text) w.files,
        λ j n. ground (arith, lookup-insert path j (old ++ text) w.files),
      )

-- The file that exists is one that the magic can read.
exists_iff :
    (access : Access) (path : Bytes) (w : World) (o : Option Bytes)
    → access.readable path ≡ true
    → lookup path w.files ≡ o
    → is_file_exist access path w ≡ elim o [ none ↦ false | some text ↦ true ]
unfolding is_file_exist
exists_iff access path w none r e = rw (e, is_file_exist)
exists_iff access path w (some text) r e = rw (e, is_file_exist) r

write_cell-Leaves :
    (access : Access) (path : Bytes) (append : Bool) (cell : Bytes) (w : World) (o : Option Bytes)
    → access.writable path ≡ true
    → access.readable path ≡ true
    → lookup path w.files ≡ o
    → Leaves path (expected append o cell) w.files (write_cell access path append cell w)
unfolding write_cell print
write_cell-Leaves access path true cell w none h r e =
    rw (exists_iff access path w none r e) (Leaves-write access path (cell ++ codes "\n") _ h)
write_cell-Leaves access path false cell w none h r e =
    rw (exists_iff access path w none r e) (Leaves-write access path (cell ++ codes "\n") _ h)
write_cell-Leaves access path true cell w (some old) h r e =
    rw (exists_iff access path w (some old) r e)
      (Leaves-write_on access path (cell ++ codes "\n") old _ h e)
write_cell-Leaves access path false cell w (some old) h r e =
    rw (exists_iff access path w (some old) r e) (Leaves-write access path (cell ++ codes "\n") _ h)

complain-files :
    (o : Option Bytes) (w : World)
    → (v : World) × (complain o w ≡ (returned tt, v)) × (v.files ≡ w.files)
unfolding report_line
complain-files none w = (w, refl, refl)
complain-files (some what) w = ((report_line (what ∷ []) w).1, refl, refl)

parse-files :
    (argparse : List Bytes → Parsed) (args word : Bytes) (more : List Bytes) (w : World)
    → words args ≡ word ∷ more
    → (v : World) × (parse argparse args w ≡ (returned (argparse (word ∷ more)), v))
      × (v.files ≡ w.files)
unfolding parse print
parse-files argparse args word more w e =
    let p = argparse (word ∷ more) in
    let (v, f, g) = complain-files p.complaint (print p.printed w).1 in
    (v, ap (λ l. parse_words argparse l w) e ∙ ap (λ r. bind_outcome r (λ _. pure p)) f, g)

writefile-by :
    (access : Access) (argparse : List Bytes → Parsed) (args cell : Bytes) (p : Parsed)
    (path : Bytes) (w v : World)
    → parse argparse args w ≡ (returned p, v)
    → p.filename ≡ returned path
    → writefile access argparse args cell w ≡ write_cell access path p.append cell v
unfolding writefile
writefile-by access argparse args cell p path w v e f =
    ap (λ r. bind_outcome r (λ q. outcome q.filename >>= λ k. write_cell access k q.append cell)) e
    ∙ ap (λ o. bind_outcome (o, v) (λ k. write_cell access k p.append cell)) f

-- Where the parser of the options gives a file name, and the file can be written and read: the magic returns, the file
-- holds the cell and a newline, behind its old contents if `-a` is set, and no other file changes.
pub writefile-Leaves :
    (access : Access) (argparse : List Bytes → Parsed) (args cell word path : Bytes)
    (more : List Bytes) (w : World)
    → words args ≡ word ∷ more
    → (argparse (word ∷ more)).filename ≡ returned path
    → access.writable path ≡ true
    → access.readable path ≡ true
    → Leaves path
        (expected (argparse (word ∷ more)).append (lookup path w.files) cell)
        w.files
        (writefile access argparse args cell w)
writefile-Leaves access argparse args cell word path more w e f h r =
    let p = argparse (word ∷ more) in
    let (v, parsed, same) = parse-files argparse args word more w e in
    rw (writefile-by access argparse args cell p path w v parsed f) (
      subst
        (λ files.
          Leaves path (expected p.append (lookup path files) cell) files
            (write_cell access path p.append cell v))
        same (write_cell-Leaves access path p.append cell v (lookup path v.files) h r refl))
