-- ===== src/Kernel/Routes.antt =====
-- A new kernel's requests that go to the shell, and to the magic `xassist`.
use xeus_cpp.Base.{
  ℕ, Bytes, true, ◌≡◌, refl, ap, ◌∙◌, [], ◌∷◌, ◌++◌, none, some, codes, words, words_from,
  get_elem?,
}
use xeus_cpp.Base.Map.{lookup, insert}
use xeus_cpp.Buffer.{OutputBuffer, sync, xsputn}
use xeus_cpp.World.{Access, World, Outcome, returned, threw, undefined}
use xeus_cpp.World.Disk.{Files}
use xeus_cpp.Pattern.{is_any, is_word, run, behind, word_of}
use xeus_cpp.Pattern.Runs.{All, run-All}
use xeus_cpp.Magics.{
  KernelRes, null, status_ok, MagicsManager, CellMagic, register_magic, recover_cell, is_magic,
  cell_name, line_name,
}
use xeus_cpp.Magics.Dispatch.{answered}
use xeus_cpp.Magics.Bare.{apply-bare_cell}
use xeus_cpp.Shell
use xeus_cpp.Shell.Output.{is_nonzero, apply-nonzero}
use xeus_cpp.Assist.Chat.{Reply, Request, JsonLib}
use xeus_cpp.Assist.Command.{xassist}
use xeus_cpp.Assist.Command.Safe.{xassist-undefined}
use xeus_cpp.Holder.{magics, shell, first_match, matches}
use xeus_cpp.Holder.Disjoint.{here, there, first_match-Holds}
use xeus_cpp.Kernel.{
  Kernel, StreamBuf, cout_buffer, cerr_buffer, null_buffer, input_buffer, another, heard, heard_err,
  Env, Config, execute_request, send, apply, redirect_input, restore_input,
}
use xeus_cpp.Kernel.Start.{initial, initial_magics, initial-OnePerClass}

is_shell-mark : (command : Bytes) → Shell.is_shell (b'!' ∷ command) ≡ true
unfolding Shell.is_shell behind
is_shell-mark command = refl

command_of-mark :
    (command : Bytes)
    → All is_any command
    → Shell.command_of (b'!' ∷ command) ≡ command ++ codes " 2>&1"
unfolding Shell.command_of behind
command_of-mark command h = ap (λ p. p ++ codes " 2>&1") (run-All is_any command h)

found_shell :
    (file assist : CellMagic) (command : Bytes)
    → first_match (b'!' ∷ command) (initial file assist) ≡ some shell
unfolding matches
found_shell file assist command =
    first_match-Holds shell (b'!' ∷ command) (there (there here)) (initial-OnePerClass file assist)
      (is_shell-mark command)

execute_request-shell_reply :
    (env : Env) (config : Config) (code : Bytes) (k : Kernel) (res : KernelRes) (w : World)
    → first_match code k.preambles ≡ some shell
    → Shell.apply env.popen code k.world ≡ (returned res, w)
    → execute_request env config code k
      ≡ (returned tt, record k { world = heard k w; replies = k.replies ++ res ∷ [] })
unfolding execute_request apply send redirect_input restore_input
execute_request-shell_reply env config code k res w e f = rw (e, f) refl

heard_err-same : (b : StreamBuf) (old : OutputBuffer) → heard_err b old old ≡ old
heard_err-same cout_buffer old = refl
heard_err-same cerr_buffer old = refl
heard_err-same null_buffer old = refl
heard_err-same (input_buffer allowed) old = refl
heard_err-same (another n) old = refl

heard-printed :
    (k : Kernel) (files : Files) (new : OutputBuffer)
    → k.cout ≡ cout_buffer
    → heard k (record k.world { files = files; out = new })
      ≡ record k.world { files = files; out = new }
heard-printed k files new bound = rw (bound, heard_err-same k.cerr k.world.err)

-- A kernel with the preambles of a new one and its own buffer behind `std::cout`, asked to execute `!` and a command of one line: the command runs with its errors redirected to its
-- output, exactly this output, in which there is no zero, is printed and flushed, and the reply is the status "ok".
pub execute_request-shell :
    (env : Env) (config : Config) (k : Kernel) (file assist : CellMagic) (command pipe : Bytes)
    (files : Files)
    → k.preambles ≡ initial file assist
    → k.cout ≡ cout_buffer
    → All is_any command
    → env.popen (command ++ codes " 2>&1") k.world.files ≡ (some pipe, files)
    → All is_nonzero pipe
    → execute_request env config (b'!' ∷ command) k ≡ (
      returned tt,
      record k {
        world = record k.world { files = files; out = sync (xsputn pipe k.world.out) };
        replies = k.replies ++ status_ok ∷ [];
      },
    )
execute_request-shell env config k file assist command pipe files initially bound line ran nonzero =
    execute_request-shell_reply env config (b'!' ∷ command) k status_ok _
      (ap (first_match (b'!' ∷ command)) initially ∙ found_shell file assist command)
      (apply-nonzero env.popen (b'!' ∷ command) pipe files k.world
        (ap (λ c. env.popen c k.world.files) (command_of-mark command line) ∙ ran) nonzero)
    ∙ ap
        (λ (v : World).
          (returned tt, record k { world = v; replies = k.replies ++ status_ok ∷ [] }))
        (heard-printed k files (sync (xsputn pipe k.world.out)) bound)

abbrev pub no_model_code : ℕ → Bytes → Bytes
no_model_code d line = b'%' ∷ b'%' ∷ (codes "xassist" ++ (b'\n' ∷ (d ∷ line)))

no_model-is_magic : (d : ℕ) (line : Bytes) → is_magic (no_model_code d line) ≡ true
unfolding is_magic cell_name line_name behind word_of run is_word
no_model-is_magic d line = refl

xassist_name-All : All is_word (codes "xassist")
unfolding is_word
xassist_name-All = (refl, (refl, (refl, (refl, (refl, (refl, (refl, tt)))))))

xassist_known :
    (file assist : CellMagic)
    → lookup (codes "xassist") (initial_magics file assist).m_magic_cell ≡ some assist
unfolding register_magic insert lookup
xassist_known file assist = refl

xassist_words : get_elem? (words (codes "xassist")) 1 ≡ none
unfolding words_from
xassist_words = refl

answered-undefined :
    (r : Outcome (Unit {0}) × World) → r.0 ≡ undefined → (answered (recover_cell r)).0 ≡ undefined
answered-undefined (returned u, w) e = cc
answered-undefined (threw t, w) e = cc
answered-undefined (undefined, w) e = refl

execute_request-magics_undefined :
    (env : Env) (config : Config) (code : Bytes) (k : Kernel) (m : MagicsManager)
    → first_match code k.preambles ≡ some (magics m)
    → (xeus_cpp.Magics.apply m code null k.world).0 ≡ undefined
    → (execute_request env config code k).0 ≡ undefined
unfolding execute_request apply redirect_input restore_input
execute_request-magics_undefined env config code k m e f = rw (e, f) refl

-- A kernel with the preambles of a new one, asked to execute `%%xassist` without a model, with a body of one line: its behaviour is undefined.
pub execute_request-no_model :
    (access : Access) (curl : Request → Reply) (lib : JsonLib) (file : CellMagic) (env : Env)
    (config : Config) (k : Kernel) (d : ℕ) (line : Bytes)
    → k.preambles ≡ initial file (xassist access curl lib)
    → All is_any (d ∷ line)
    → (execute_request env config (no_model_code d line) k).0 ≡ undefined
unfolding matches
execute_request-no_model access curl lib file env config k d line initially any =
    let assist = xassist access curl lib in
    let m = initial_magics file assist in
    let code = no_model_code d line in
    execute_request-magics_undefined env config code k m
      (ap (first_match code) initially
        ∙ first_match-Holds (magics m) code (there here) (initial-OnePerClass file assist)
            (no_model-is_magic d line))
      (ap (λ (r : Outcome KernelRes × World). r.0)
          (apply-bare_cell m assist b'x' (codes "assist") d line xassist_name-All any
            (xassist_known file assist) k.world null)
        ∙ answered-undefined _ (
            (xassist-undefined access curl lib (codes "xassist") (d ∷ line) k.world).1
              xassist_words))
