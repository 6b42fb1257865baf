-- ===== src/Launch/Promise.antt =====
-- How `main` can end, and what it leaves.
use xeus_cpp.Base.{
  ℕ, ◌≡◌, Bool, [], ◌∷◌, ◌++◌, List, Option, none, some, codes, Bytes, is_empty, if◌then◌else◌,
}
use xeus_cpp.World.{Outcome, returned, threw, undefined}
use xeus_cpp.Magics.{is_some}
use xeus_cpp.Kernel.{Kernel, cout_buffer, cerr_buffer}
use xeus_cpp.Kernel.Start.{initial}
use xeus_cpp.Launch.{
  Xeus, Host, Process, creates, makes_context, makes_kernel, starts, sigsegv, sigkill, sigint,
  default_handler, handler, stop_handler, Configuration, connection_text, Step, registers,
}

abbrev pub loads : Outcome Configuration → Outcome (Option Configuration)
loads (returned config) = returned (some config)
loads (threw e) = threw e
loads undefined = undefined

-- The configuration that the kernel is made with, where it can be loaded.
abbrev pub configuration : Xeus → Bytes → Outcome (Option Configuration)
configuration xeus file_name =
    if is_empty file_name then returned none else loads (xeus.load_configuration file_name)

-- The launcher of Jupyter is the parent, so that nothing is logged.
abbrev pub is_silent : Host → Bool
is_silent host = is_some (host.getenv (codes "JPY_PARENT_PID"))

-- What is logged otherwise, up to the interpreter and from there on.
abbrev pub registering : Bytes
registering = codes "registering handler for SIGSEGV\n"

abbrev pub starting : Xeus → Bytes → Bytes
starting xeus file_name =
    if is_empty file_name
    then connection_text xeus.new_configuration
    else codes "Instantiating kernel\n"
      ++ (codes "Starting xcpp kernel...\n\n"
          ++ (codes "If you want to connect to this kernel from an other client, you can use the "
              ++ (file_name ++ codes " file.\n")))

abbrev pub Logs : Host → Bytes → Bytes → Type 0
Logs host log text = log ≡ (if is_silent host then [] else text)

-- The handlers are set before anything is made.
abbrev pub prepared_steps : List Step
prepared_steps =
    registers sigsegv handler ∷ registers sigkill stop_handler ∷ registers sigint stop_handler ∷ []

-- How `main` ends, what has happened in which order, and what is logged: the kernel is made with the configuration and the server is the last
-- thing that is started, or the configuration could not be loaded.
abbrev pub Ended :
    Xeus → Host → Bytes → List Bytes → Outcome (Option Configuration) → Outcome ℕ × Process → Type 0
Ended xeus host file_name args (returned config) r =
    (r.0 ≡ returned 0)
    × (r.1.steps
        ≡ prepared_steps ++ (creates args ∷ makes_context ∷ makes_kernel config ∷ starts ∷ []))
    × Logs host r.1.log (registering ++ starting xeus file_name)
Ended xeus host file_name args (threw e) r =
    (r.0 ≡ threw e)
    × (r.1.steps ≡ prepared_steps ++ (creates args ∷ makes_context ∷ []))
    × Logs host r.1.log registering
Ended xeus host file_name args undefined r =
    (r.0 ≡ undefined)
    × (r.1.steps ≡ prepared_steps ++ (creates args ∷ makes_context ∷ []))
    × Logs host r.1.log registering

-- The handlers, and the interpreter that the kernel has or would have had.
pub record Launched (host : Host) (file_name : Bytes) (p : Process) : Type 0 where
  pub sigsegv : p.handlers sigsegv ≡ handler
  pub sigint : p.handlers sigint ≡ stop_handler
  pub sigkill : p.handlers sigkill ≡ default_handler
  pub kernel :
      (k : Kernel) × (p.kernel ≡ some k)
      × (k.preambles ≡ initial host.writefile host.xassist)
      × (k.cout ≡ cout_buffer)
      × (k.cerr ≡ cerr_buffer)
      × (k.replies ≡ [])
      × (k.world.out.published ≡ (if is_empty file_name then codes "Getting config\n" ∷ [] else []))
