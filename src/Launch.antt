-- ===== src/Launch.antt =====
-- `main` of src/main.cpp with the signal handlers of src/xutils.cpp, as they are compiled with GCC or Clang for a POSIX
-- system, and the builder of src/main_emscripten_kernel.cpp. What xeus and the environment do is a parameter.
pub mod Promise
pub mod Order
pub mod Serving
pub mod Fields
pub mod Copy
pub mod Builder
use xeus_cpp.Base.{
  ℕ, Bool, true, false, [], ◌∷◌, ◌++◌, List, Option, none, some, codes, Bytes, is_empty,
  if◌then◌else◌,
}
use xeus_cpp.Buffer.{xsputn, sync}
use xeus_cpp.World.{World, Outcome, returned, threw, undefined}
use xeus_cpp.Magics.{CellMagic, is_some}
use xeus_cpp.Engine.{Detected, create_interpreter}
use xeus_cpp.Kernel.{Kernel, StreamBuf, on_out}
use xeus_cpp.Kernel.Init.{interpreter}

-- `xeus::xconfiguration`, as far as `main` prints it.
pub record Configuration : Type 0 where
  pub m_transport : Bytes
  pub m_ip : Bytes
  pub m_control_port : Bytes
  pub m_shell_port : Bytes
  pub m_stdin_port : Bytes
  pub m_iopub_port : Bytes
  pub m_hb_port : Bytes
  pub m_signature_scheme : Bytes
  pub m_key : Bytes

-- `should_print_version`, `extract_filename` with the arguments that it leaves, `load_configuration`, which throws for a file
-- that it cannot read, and the configuration of a kernel that is made without one.
pub record Xeus : Type 0 where
  pub should_print_version : List Bytes → Bool
  pub extract_filename : List Bytes → Bytes × List Bytes
  pub load_configuration : Bytes → Outcome Configuration
  pub new_configuration : Configuration

-- What the process finds: `std::getenv`, `XEUS_CPP_VERSION`, and what the constructor of the interpreter uses.
pub record Host : Type 0 where
  pub getenv : Bytes → Option Bytes
  pub version : Bytes
  pub detected : Detected
  pub bad_cast : Bytes
  pub writefile : CellMagic
  pub xassist : CellMagic
  pub cin : StreamBuf
  pub cout : StreamBuf
  pub cerr : StreamBuf

pub data Signal : Type 0 where
  sigsegv sigkill sigint : Signal

pub data Handler : Type 0 where
  default_handler handler stop_handler : Handler

-- The status with which a handler makes the process exit; the default is none of the program's.
unfoldable pub exit_status : Handler → Option ℕ
exit_status default_handler = none
exit_status handler = some 1
exit_status stop_handler = some 0

-- The calls of `signal`, the objects that are made, and the start of the server.
pub data Step : Type 0 where
  registers : Signal → Handler → Step
  creates : List Bytes → Step
  makes_context : Step
  makes_kernel : Option Configuration → Step
  starts : Step

-- `log` is what `std::clog` passes on; `terminal` has the files, and the buffers of the process that are behind
-- `std::cout` and `std::cerr` before they are redirected.
pub record Process : Type 0 where
  pub log : Bytes
  pub clog_good : Bool
  pub handlers : Signal → Handler
  pub terminal : World
  pub kernel : Option Kernel
  pub steps : List Step

abbrev pub new_process : World → Process
new_process terminal = record {
  log = [];
  clog_good = true;
  handlers = λ s. default_handler;
  terminal = terminal;
  kernel = none;
  steps = [];
}

abbrev pub step : Step → Process → Process
step s p = record p { steps = p.steps ++ s ∷ [] }

-- `std::clog << text`, and `std::cout << text << std::endl` once the interpreter has redirected it.
unfoldable pub write_log : Bytes → Process → Process
write_log text p = record p { log = if p.clog_good then p.log ++ text else p.log }

abbrev on_kernel : (Kernel → Kernel) → Option Kernel → Option Kernel
on_kernel f none = none
on_kernel f (some k) = some (f k)

unfoldable pub print_line : Bytes → Process → Process
print_line text p = record p {
  kernel = on_kernel (on_out λ b. sync (xsputn (text ++ codes "\n") b)) p.kernel;
}

-- `signal`: the handler of `SIGKILL` cannot be set.
abbrev set_handler : (Signal → Handler) → Signal → Handler → Signal → Handler
set_handler old sigsegv h sigsegv = h
set_handler old sigint h sigint = h
set_handler old s h t = old t

unfoldable pub signal : Signal → Handler → Process → Process
signal s h p = step (registers s h) (record p { handlers = set_handler p.handlers s h })

unfoldable pub silence_log : Host → Process → Process
silence_log host p =
    if is_some (host.getenv (codes "JPY_PARENT_PID")) then record p { clog_good = false } else p

unfoldable pub register_handlers : Process → Process
register_handlers p = signal sigint stop_handler (
    signal sigkill stop_handler
      (signal sigsegv handler (write_log (codes "registering handler for SIGSEGV\n") p)))

-- The range of the arguments, `argv ? argv + 1 : argv` to `argv + argc`: whether `argv` is no null pointer, and the
-- arguments that it points to. A range that ends before it begins is undefined.
unfoldable pub extra_args : Bool → List Bytes → Outcome (List Bytes)
extra_args false argv = returned argv
extra_args true [] = undefined
extra_args true (name ∷ args) = returned args

-- The constructor of `interpreter`, with the C++ interpreter.
abbrev constructed : Outcome (Unit {0}) × Kernel → Process → Outcome (Unit {0}) × Process
constructed (o, k) p = (o, record p { kernel = some k })

unfoldable pub create : Host → Outcome (List Bytes) → Process → Outcome (Unit {0}) × Process
create host (returned args) p =
    let (o, w) = create_interpreter host.detected args p.terminal in
    constructed
      (interpreter host.bad_cast host.writefile host.xassist w.files host.cin host.cout host.cerr)
      (step (creates args) (record p { terminal = w }))
create host (threw e) p = (threw e, p)
create host undefined p = (undefined, p)

-- With the file of a connection: the configuration is loaded first. Nothing catches what that throws.
unfoldable pub start_as : Bytes → Configuration → Process → Process
start_as file_name config p =
    let q = write_log (codes "Instantiating kernel\n") p in
    let r = step (makes_kernel (some config)) q in
    step starts (
      write_log
        (codes
            "Starting xcpp kernel...\n\nIf you want to connect to this kernel from an other client, you can use the "
          ++ (file_name ++ codes " file.\n"))
        r)

abbrev pub loaded : Bytes → Outcome Configuration → Process → Outcome ℕ × Process
loaded file_name (returned config) p = (returned 0, start_as file_name config p)
loaded file_name (threw e) p = (threw e, p)
loaded file_name undefined p = (undefined, p)

unfoldable pub start_with : Xeus → Bytes → Process → Outcome ℕ × Process
start_with xeus file_name p = loaded file_name (xeus.load_configuration file_name) p

-- The text for the user, who may copy a connection file out of it.
unfoldable pub connection_text : Configuration → Bytes
connection_text config =
    codes
      "Starting xcpp kernel...\n\nIf you want to connect to this kernel from an other client, just copy and paste the following content inside of a `kernel.json` file. And then run for example:\n\n# jupyter console --existing kernel.json\n\nkernel.json\n```\n{\n    \"transport\": \""
    ++ (config.m_transport
        ++ (codes "\",\n    \"ip\": \""
            ++ (config.m_ip
                ++ (codes "\",\n    \"control_port\": "
                    ++ (config.m_control_port
                        ++ (codes ",\n    \"shell_port\": "
                            ++ (config.m_shell_port
                                ++ (codes ",\n    \"stdin_port\": "
                                    ++ (config.m_stdin_port
                                        ++ (codes ",\n    \"iopub_port\": "
                                            ++ (config.m_iopub_port
                                                ++ (codes ",\n    \"hb_port\": "
                                                    ++ (config.m_hb_port
                                                        ++ (codes ",\n    \"signature_scheme\": \""
                                                            ++ (config.m_signature_scheme
                                                            ++ (codes "\",\n    \"key\": \""
                                                            ++ (config.m_key
                                                            ++ (codes
                                                            "\"\n}\n```\n"))))))))))))))))))

-- Without a file.
unfoldable pub start_new : Xeus → Process → Process
start_new xeus p =
    let q = print_line (codes "Getting config") (step (makes_kernel none) p) in
    step starts (write_log (connection_text xeus.new_configuration) q)

unfoldable pub start : Xeus → Bytes → Process → Outcome ℕ × Process
start xeus file_name p =
    if is_empty file_name then (returned 0, start_new xeus p) else start_with xeus file_name p

-- Nothing catches what the constructor throws.
abbrev started : Xeus → Bytes → Outcome (Unit {0}) × Process → Outcome ℕ × Process
started xeus file_name (returned _, p) = start xeus file_name (step makes_context p)
started xeus file_name (threw e, p) = (threw e, p)
started xeus file_name (undefined, p) = (undefined, p)

unfoldable pub launch : Xeus → Host → List Bytes → Process → Outcome ℕ × Process
launch xeus host argv p =
    let (file_name, args) = xeus.extract_filename argv in
    started xeus file_name (create host (extra_args true args) p)

unfoldable pub main : Xeus → Host → List Bytes → Process → Outcome ℕ × Process
main xeus host argv p =
    if xeus.should_print_version argv
    then (returned 0, write_log (codes "xcpp " ++ host.version ++ codes "\n") p)
    else launch xeus host argv (register_handlers (silence_log host p))
