-- ===== src/Kernel.antt =====
-- `interpreter` of include/xeus-cpp/xinterpreter.hpp and src/xinterpreter.cpp: the state of the kernel and the request to
-- execute a code, with the guards of src/xinput.cpp. The C++ interpreter is a parameter.
pub mod Guards
pub mod Answer
pub mod Replies
pub mod Streams
pub mod Session
pub mod Routes
pub mod Init
pub mod Start
use xeus_cpp.Base.{
  c_string, ℕ, Bool, true, false, [], ◌∷◌, ◌++◌, List, Option, none, some, codes, Bytes, length,
  ltb, if◌then◌else◌,
}
use xeus_cpp.Buffer.{OutputBuffer, Call, calls, xsputn, sync}
use xeus_cpp.World.{
  World, M, Outcome, returned, threw, undefined, Thrown, runtime_error, logic_error, exception,
  other,
}
use xeus_cpp.World.Disk.{Files}
use xeus_cpp.Magics
use xeus_cpp.Magics.{KernelRes, null, successful_reply, error_reply}
use xeus_cpp.Shell
use xeus_cpp.Inspect.{XmlLib, Interop, Entry, inspect, question_of, reply_to}
use xeus_cpp.Holder.{Preamble, introspection, magics, shell, Manager, first_match}

-- What a standard stream writes to or reads from: the kernel's buffers, the buffers that the guards make, or another.
pub data StreamBuf : Type 0 where
  cout_buffer cerr_buffer null_buffer : StreamBuf
  input_buffer : Bool → StreamBuf
  another : ℕ → StreamBuf

-- The arguments of `publish_execution_error`.
pub record ExecutionError : Type 0 where
  pub ename : Bytes
  pub evalue : Bytes
  pub traceback : List Bytes

pub record Kernel : Type 0 where
  pub world : World
  pub cin : StreamBuf
  pub cout : StreamBuf
  pub cerr : StreamBuf
  pub preambles : Manager
  pub var_count : ℕ
  pub published_errors : List ExecutionError
  pub replies : List KernelRes

-- What `Cpp::Process` does with a code and the files: the calls that the code makes on the buffers that are behind
-- `std::cout` and `std::cerr` when it begins, the buffers of its own that it has put there when it ends, if any, the text
-- that is captured from the standard streams of the process, and what it returns or throws.
pub record Processed : Type 0 where
  pub files : Files
  pub cout_calls : List Call
  pub cerr_calls : List Call
  pub new_cout : Option ℕ
  pub new_cerr : Option ℕ
  pub captured_out : Bytes
  pub captured_err : Bytes
  pub result : Outcome Bool

pub record Env : Type 1 where
  pub xml : XmlLib
  pub cpp : Interop
  pub tagfile_dir : Bytes
  pub tagconfs : List Entry
  pub popen : Bytes → Files → Option Bytes × Files
  pub process : Bytes → Files → Processed

pub record Config : Type 0 where
  pub silent : Bool
  pub allow_stdin : Bool

-- A write through a stream: it reaches the kernel's buffers only.
unfoldable pub write_to : StreamBuf → (OutputBuffer → OutputBuffer) → World → World
write_to cout_buffer f w = record w { out = f w.out }
write_to cerr_buffer f w = record w { err = f w.err }
write_to _ f w = w

unfoldable pub on_out : (OutputBuffer → OutputBuffer) → Kernel → Kernel
on_out f k = record k { world = write_to k.cout f k.world }

unfoldable pub on_err : (OutputBuffer → OutputBuffer) → Kernel → Kernel
on_err f k = record k { world = write_to k.cerr f k.world }

-- What is printed reaches a buffer of the kernel only while this is behind the stream.
abbrev pub heard_out : StreamBuf → OutputBuffer → OutputBuffer → OutputBuffer
heard_out cout_buffer old new = new
heard_out _ old new = old

abbrev pub heard_err : StreamBuf → OutputBuffer → OutputBuffer → OutputBuffer
heard_err cerr_buffer old new = new
heard_err _ old new = old

abbrev pub heard : Kernel → World → World
heard k w = record w {
  out = heard_out k.cout k.world.out w.out;
  err = heard_err k.cerr k.world.err w.err;
}

-- A computation on the files and the standard streams.
abbrev pub lift : {A : Type 0} → M A → Kernel → Outcome A × Kernel
lift m k = let (o, w) = m k.world in (o, record k { world = heard k w })

-- `redirect_output` and `restore_output`, which puts back the buffers that were there before.
unfoldable pub redirect_output : Kernel → Kernel
redirect_output k = record k { cout = cout_buffer; cerr = cerr_buffer }

unfoldable pub restore_output : StreamBuf → StreamBuf → Kernel → Kernel
restore_output old_cout old_cerr k = record k { cout = old_cout; cerr = old_cerr }

-- `SilentStreamRedirectRAII` and `input_redirection`: what their constructors and their destructors do.
unfoldable pub silence : Bool → Kernel → Kernel
silence silent k = if silent then record k { cout = null_buffer; cerr = null_buffer } else k

unfoldable pub unsilence : Bool → StreamBuf → StreamBuf → Kernel → Kernel
unsilence silent old_cout old_cerr k =
    if silent then record k { cout = old_cout; cerr = old_cerr } else k

unfoldable pub redirect_input : Bool → Kernel → Kernel
redirect_input allow_stdin k = record k { cin = input_buffer allow_stdin }

unfoldable pub restore_input : StreamBuf → Kernel → Kernel
restore_input old_cin k = record k { cin = old_cin }

-- The locals `errorlevel`, `ename` and `evalue`.
pub record Verdict : Type 0 where
  pub errorlevel : Bool
  pub ename : Bytes
  pub evalue : Bytes

abbrev failure : Bytes → Bytes → Verdict
failure ename evalue = record { errorlevel = true; ename = ename; evalue = evalue }

-- The handlers around `Cpp::Process`, and the test of its result.
unfoldable pub judge : Bytes → Outcome Bool → Verdict
judge err (returned true) = failure (codes "Error: ") (codes "Compilation error! " ++ err)
judge err (returned false) = record { errorlevel = false; ename = []; evalue = [] }
judge err (threw (runtime_error what)) = failure (codes "Standard Exception: ") what
judge err (threw (logic_error what)) = failure (codes "Standard Exception: ") what
judge err (threw (exception what)) = failure (codes "Standard Exception: ") what
judge err (threw other) = failure (codes "Error: ") []
judge err undefined = failure [] []

-- What is behind a stream once a code has called `rdbuf` with a buffer of its own, or has not.
abbrev pub rebound : Option ℕ → StreamBuf → StreamBuf
rebound none b = b
rebound (some n) b = another n

unfoldable pub rebind : Processed → Kernel → Kernel
rebind p k = record k { cout = rebound p.new_cout k.cout; cerr = rebound p.new_cerr k.cerr }

-- `Cpp::Process` between the constructor and the destructor of `StreamRedirectRAII`, which prints what was captured.
unfoldable pub processed : Processed → Kernel → Kernel
processed p k = on_out (xsputn p.captured_out) (
    rebind p (
      on_err (calls p.cerr_calls)
        (on_out (calls p.cout_calls) (record k { world = record k.world { files = p.files } }))))

-- The error text of a compilation, which is flushed at once behind the text for `std::cout`, and the flushes.
abbrev complained : Processed → Outcome Bool → Kernel → Kernel
complained p (returned true) k = on_err (λ b. sync (xsputn p.captured_err b)) (on_out sync k)
complained p _ k = k

unfoldable pub flushed : Processed → Kernel → Kernel
flushed p k = on_err sync (on_out sync (complained p p.result (processed p k)))

abbrev pub shown_ename : Verdict → Bytes
shown_ename v = if ltb (length v.evalue) 4 then codes " " else v.ename

abbrev pub shown : Verdict → ExecutionError
shown v = record {
  ename = shown_ename v;
  evalue = v.evalue;
  traceback = (shown_ename v ++ v.evalue) ∷ [];
}

unfoldable pub publish : Bool → Verdict → Kernel → Kernel
publish silent v k =
    if silent then k else record k { published_errors = k.published_errors ++ shown v ∷ [] }

unfoldable pub send : KernelRes → Kernel → Kernel
send res k = record k { replies = k.replies ++ res ∷ [] }

-- The reply that is composed from the verdict.
unfoldable pub conclude : Bool → Verdict → Kernel → Kernel
conclude silent v k =
    if v.errorlevel
    then send (error_reply (shown v).ename (shown v).evalue (shown v).traceback)
        (publish silent v k)
    else send (successful_reply none) k

-- The process does not go on where the code's behaviour is undefined.
abbrev verdict_of : Bool → Processed → Outcome Bool → Kernel → Outcome (Unit {0}) × Kernel
verdict_of silent p undefined k = (undefined, k)
verdict_of silent p r k = (returned tt, conclude silent (judge p.captured_err r) k)

-- The evaluation of a code, which `Cpp::Process` gets as a C string, inside the guard that silences it.
unfoldable pub evaluate : Env → Bool → Bytes → Kernel → Outcome (Unit {0}) × Kernel
evaluate env silent code k =
    let p = env.process (c_string code) k.world.files in
    let (o, k') = verdict_of silent p p.result (flushed p (silence silent k)) in
    (o, unsilence silent k.cout k.cerr k')

-- `apply` of a preamble. No guard silences it.
unfoldable pub apply : Env → Preamble → Bytes → Kernel → Outcome KernelRes × Kernel
apply env introspection code k =
    let (found, n) =
      inspect env.xml env.cpp env.tagfile_dir env.tagconfs k.var_count (question_of code) in
    lift (reply_to code found) (record k { var_count = n })
apply env (magics m) code k = lift (Magics.apply m code null) k
apply env shell code k = lift (Shell.apply env.popen code) k

abbrev sent : Outcome KernelRes × Kernel → Outcome (Unit {0}) × Kernel
sent (returned res, k) = (returned tt, send res k)
sent (threw e, k) = (threw e, k)
sent (undefined, k) = (undefined, k)

abbrev pub serve : Env → Bool → Bytes → Option Preamble → Kernel → Outcome (Unit {0}) × Kernel
serve env silent code (some p) k = sent (apply env p code k)
serve env silent code none k = evaluate env silent code k

unfoldable pub execute_request : Env → Config → Bytes → Kernel → Outcome (Unit {0}) × Kernel
execute_request env config code k =
    let (o, k') =
      serve env config.silent code (first_match code k.preambles)
        (redirect_input config.allow_stdin k) in
    (o, restore_input k.cin k')
