-- ===== src/Kernel/Start.antt =====
-- A new kernel: what it registers, and a request to write a file.
use xeus_cpp.Base.{
  arith, ℕ, Bytes, true, false, ◌≡◌, refl, ap, ◌∙◌, [], ◌∷◌, ◌++◌, List, some, codes, words, equal,
  is_space,
}
use xeus_cpp.Base.Map.{lookup, insert}
use xeus_cpp.Buffer.{sync}
use xeus_cpp.World.{Access, World, Outcome, returned, threw, undefined, flush_out}
use xeus_cpp.World.Disk.{Files}
use xeus_cpp.Pattern.{is_any, is_word, run, behind, word_of}
use xeus_cpp.Pattern.Runs.{All}
use xeus_cpp.Magics.{
  KernelRes, null, status_ok, MagicsManager, CellMagic, cell, line, contains, is_body,
  register_magic, recover_cell, new_magics_manager, is_magic, cell_name, line_name,
}
use xeus_cpp.Magics.Dispatch.{answered, apply-called}
use xeus_cpp.WriteFile.{Parsed, writefile}
use xeus_cpp.WriteFile.Contents.{expected, writefile-Leaves}
use xeus_cpp.Holder.{
  introspection, magics, shell, Manager, register_preamble, at, assign_move, move, swap,
  first_match, matches,
}
use xeus_cpp.Holder.Disjoint.{here, there, OnePerClass, first_match-Holds}
use xeus_cpp.Kernel.{
  heard, Kernel, StreamBuf, cout_buffer, cerr_buffer, redirect_output, Env, Config, execute_request,
  send, apply, redirect_input, restore_input,
}
use xeus_cpp.Kernel.Init.{init_preamble, init_magic, register_in_magics, only_cell, interpreter}

-- The magics of a new kernel.
abbrev pub initial_magics : CellMagic → CellMagic → MagicsManager
initial_magics file xassist =
    register_magic (codes "xassist") (only_cell xassist)
      (register_magic (codes "file") (only_cell file) new_magics_manager)

-- Its preambles, in the order of their names.
abbrev pub initial : CellMagic → CellMagic → Manager
initial file xassist =
    (codes "introspection", some introspection)
    ∷ (codes "magics", some (magics (initial_magics file xassist)))
    ∷ (codes "shell", some shell)
    ∷ []

-- A new kernel has the three preambles and the two cell magics, its constructor does not throw, and its output streams
-- have the kernel's buffers.
pub interpreter-initial :
    (bad_cast : Bytes) (file xassist : CellMagic) (files : Files) (cin cout cerr : StreamBuf)
    → let (o, k) = interpreter bad_cast file xassist files cin cout cerr in
      (o ≡ returned tt)
      × (k.preambles ≡ initial file xassist)
      × (k.cout ≡ cout_buffer)
      × (k.cerr ≡ cerr_buffer)
unfolding interpreter init_magic init_preamble register_in_magics register_preamble assign_move move
    swap at redirect_output insert lookup
interpreter-initial bad_cast file xassist files cin cout cerr = (refl, refl, refl, refl)

pub initial-OnePerClass : (file xassist : CellMagic) → OnePerClass (initial file xassist)
initial-OnePerClass file xassist =
    ((λ e. omega arith, (λ e. omega arith, tt)), ((λ e. omega arith, tt), (tt, tt)))

-- A request for which the loop takes the magics, whose `apply` returns a reply.
execute_request-magics :
    (env : Env) (config : Config) (code : Bytes) (k : Kernel) (m : MagicsManager) (res : KernelRes)
    (w : World)
    → first_match code k.preambles ≡ some (magics m)
    → xeus_cpp.Magics.apply m code null k.world ≡ (returned res, w)
    → execute_request env config code k
      ≡ (returned tt, record k { world = heard k w; replies = k.replies ++ res ∷ [] })
unfolding execute_request apply send redirect_input restore_input
execute_request-magics env config code k m res w e f = rw (e, f) refl

file_known :
    (file xassist : CellMagic)
    → lookup (codes "file") (initial_magics file xassist).m_magic_cell ≡ some file
unfolding register_magic insert lookup
file_known file xassist = refl

-- `%%file`, a white space, the arguments and the body.
abbrev pub file_code : ℕ → Bytes → ℕ → Bytes → Bytes
file_code s args d body = b'%' ∷ b'%' ∷ (codes "file" ++ (s ∷ (args ++ (b'\n' ∷ (d ∷ body)))))

file_code-is_magic :
    (s : ℕ) (args : Bytes) (d : ℕ) (body : Bytes) → is_magic (file_code s args d body) ≡ true
unfolding is_magic cell_name line_name behind word_of run is_word
file_code-is_magic s args d body = refl

file_name-All : All is_word (codes "file")
unfolding is_word
file_name-All = (refl, (refl, (refl, (refl, tt))))

answered-returned :
    (r : Outcome (Unit {0}) × World)
    → r.0 ≡ returned tt
    → (w : World) × (answered (recover_cell r) ≡ (returned status_ok, w)) × (w.files ≡ r.1.files)
unfolding flush_out
answered-returned (returned tt, w) e = (record w { out = sync w.out }, refl, refl)
answered-returned (threw t, w) e = cc
answered-returned (undefined, w) e = cc

-- What `execute_request` leaves, if the reply is the status "ok" and the file holds the text.
abbrev pub Wrote : Kernel → Bytes → Bytes → Outcome (Unit {0}) × Kernel → Type 0
Wrote k path text r =
    (r.0 ≡ returned tt)
    × (r.1.replies ≡ k.replies ++ status_ok ∷ [])
    × (lookup path r.1.world.files ≡ some text)
    × ((j : Bytes) → equal path j ≡ false → lookup j r.1.world.files ≡ lookup j k.world.files)

-- A kernel with the preambles of a new one, asked to execute `%%file`, a white space and arguments, and then a body: the reply is the status
-- "ok", and the file that the parser of the options names holds the body and a newline, behind its old
-- contents if `-a` is set; no other file changes. The arguments have no end of a line, the body is not empty and has
-- no carriage return, and the file can be read and written.
pub execute_request-Wrote :
    (access : Access) (argparse : List Bytes → Parsed) (xassist : CellMagic) (env : Env)
    (config : Config) (k : Kernel) (s : ℕ) (args : Bytes) (d : ℕ) (body word path : Bytes)
    (more : List Bytes)
    → k.preambles ≡ initial (writefile access argparse) xassist
    → is_space s ≡ true
    → All is_any args
    → All is_body (d ∷ body)
    → words (codes "file" ++ s ∷ args) ≡ word ∷ more
    → (argparse (word ∷ more)).filename ≡ returned path
    → access.writable path ≡ true
    → access.readable path ≡ true
    → Wrote k path
        (expected (argparse (word ∷ more)).append (lookup path k.world.files) (d ∷ body))
        (execute_request env config (file_code s args d body) k)
unfolding matches
execute_request-Wrote access argparse xassist env config k s args d body word path more initially
      space any text split named writable readable =
    let file = writefile access argparse in
    let m = initial_magics file xassist in
    let code = file_code s args d body in
    let left =
      writefile-Leaves access argparse (codes "file" ++ s ∷ args) (d ∷ body) word path more k.world
        split named writable readable in
    let (w, replied, kept) = answered-returned _ left.0 in
    let found : first_match code k.preambles ≡ some (magics m) =
      ap (first_match code) initially
      ∙ first_match-Holds (magics m) code (there here) (initial-OnePerClass file xassist)
          (file_code-is_magic s args d body) in
    let applied =
      apply-called m file b'f' s (codes "ile") args d body file_name-All space any text
        (file_known file xassist) k.world null in
    rw (execute_request-magics env config code k m status_ok w found (applied ∙ replied))
      (refl, refl, ap (lookup path) kept ∙ left.1, λ j n. ap (lookup j) kept ∙ left.2 j n)
