-- ===== src/Tests/Startup.antt =====
-- The theorems on the start of the kernel, its input and its magics, at concrete inputs.
use xeus_cpp.Base.{
  ℕ, zero, suc, ◌≡◌, ◌<◌, refl, codes, Bytes, List, [], ◌∷◌, ◌+◌, none, some, arith, true, false,
  length,
}
use xeus_cpp.Base.Run.{done}
use xeus_cpp.Buffer.{new_input_buffer, underflow}
use xeus_cpp.World.{report, returned}
use xeus_cpp.Magics.{CellMagic, Magic, new_magics_manager}
use xeus_cpp.Magics.Registry.Table.{
  Registration, registers, unregisters, Behaves, perform_all, enter_all, no_magic,
  registrations-Behaves,
}
use xeus_cpp.Kernel.{another}
use xeus_cpp.Input.{Cin, new_cin, input_redirection, getlines, failed, sgetn, sbumpc, fill_by}
use xeus_cpp.Input.Supply.{Supplied, sgetn-Supplied}
use xeus_cpp.Input.Lines.{IsOneLine, Ready, lines_from, getlines-answers, getlines-refused}
use xeus_cpp.Launch.{Xeus, Host, Configuration, new_process, main, connection_text}
use xeus_cpp.Launch.Fields.{fields, quoted, is_value, is_name, named-value}
use xeus_cpp.Launch.Copy.{fields-connection_text}
use xeus_cpp.Tests.Dispatch.{empty_world}
use xeus_cpp.Tests.Requests.{env_of, refuses, loud, bad_code, bad_code-no_match, file, quiet}
use xeus_cpp.Launch.{
  launch, start, start_new, create, register_handlers, silence_log, signal, write_log, print_line,
  extra_args,
}
use xeus_cpp.Launch.Serving.{Serves, main-Serves}
use xeus_cpp.Engine.{create_interpreter, any_of}
use xeus_cpp.Kernel.{
  Kernel, cout_buffer, cerr_buffer, redirect_output, on_out, write_to, execute_request,
}
use xeus_cpp.Kernel.Init.{interpreter, init_magic, init_preamble, register_in_magics}
use xeus_cpp.Kernel.Start.{initial}
use xeus_cpp.Kernel.Session.{Reaches, answered}
use xeus_cpp.Kernel.Answer.{execute_request-Answered}
use xeus_cpp.Holder.{register_preamble, assign_move, move, swap, at}
use xeus_cpp.Base.Map.{insert, lookup}
use xeus_cpp.Buffer.{sync, xsputn, new_output_buffer}

abbrev numbered : ℕ → Bytes
numbered zero = codes "ada"
numbered (suc k) = codes "42"

sgetn_run : (sgetn 5 numbered (input_redirection true 0)).0 ≡ codes "ada\n4"
unfolding sgetn sbumpc fill_by underflow new_input_buffer input_redirection
sgetn_run = refl

sgetn-Supplied_example :
    let (cs, j) = sgetn 5 numbered (input_redirection true 0) in
    Supplied numbered (input_redirection true 0) 5 cs j
unfolding input_redirection
sgetn-Supplied_example = sgetn-Supplied numbered 5 (input_redirection true 0) refl

numbered_short : (m : ℕ) → IsOneLine (numbered m) × (length (numbered m) < 9)
numbered_short zero = (refl, omega arith)
numbered_short (suc m) = (refl, omega arith)

getlines-answers_example :
    (t : Cin) × (getlines 2 9 numbered (new_cin true 0)
      ≡ done (some (codes "ada") ∷ some (codes "42") ∷ [], t))
    × Ready 2 t
unfolding input_redirection new_input_buffer lines_from
getlines-answers_example =
    getlines-answers numbered 2 9 0 (new_cin true 0)
      (record {
        good = refl;
        consumed = record { asked = refl; allow_stdin = refl; nothing = refl };
      })
      (λ l h. numbered_short (0 + l))

getlines-refused_example :
    getlines 2 9 numbered (new_cin false 3)
    ≡ done (none ∷ none ∷ [], failed (new_cin false 3).input)
getlines-refused_example = getlines-refused numbered 1 8 3

abbrev greet : CellMagic
greet args content w = (returned tt, w)

abbrev cell_only : Magic
cell_only = record { as_line = none; as_cell = some greet }

abbrev some_registrations : List Registration
some_registrations =
    registers (codes "a") cell_only ∷ registers (codes "b") cell_only ∷ unregisters (codes "a") ∷ []

registrations-Behaves_example :
    Behaves
      (perform_all some_registrations new_magics_manager)
      (enter_all some_registrations (λ name. no_magic))
registrations-Behaves_example = registrations-Behaves some_registrations

abbrev local : Configuration
local = record {
  m_transport = codes "tcp";
  m_ip = codes "127.0.0.1";
  m_control_port = codes "5001";
  m_shell_port = codes "5002";
  m_stdin_port = codes "5003";
  m_iopub_port = codes "5004";
  m_hb_port = codes "5005";
  m_signature_scheme = codes "hmac-sha256";
  m_key = codes "ab-cd";
}

abbrev xeus : Xeus
xeus = record {
  should_print_version = λ argv. false;
  extract_filename = λ argv. ([], argv);
  load_configuration = λ file_name. returned local;
  new_configuration = local;
}

abbrev host : Host
host = record {
  getenv = λ name. none;
  version = codes "0.10.0";
  detected = record { resource_dir = []; include_paths = []; creates = λ args. true };
  bad_cast = codes "std::bad_cast";
  writefile = file;
  xassist = quiet;
  cin = another 0;
  cout = another 1;
  cerr = another 2;
}

abbrev argv : List Bytes
argv = codes "xcpp" ∷ codes "-std=c++20" ∷ []

fields-connection_text_example :
    fields (connection_text local)
    ≡ (codes "transport", quoted (codes "tcp"))
      ∷ (codes "ip", quoted (codes "127.0.0.1"))
      ∷ (codes "control_port", codes "5001")
      ∷ (codes "shell_port", codes "5002")
      ∷ (codes "stdin_port", codes "5003")
      ∷ (codes "iopub_port", codes "5004")
      ∷ (codes "hb_port", codes "5005")
      ∷ (codes "signature_scheme", quoted (codes "hmac-sha256"))
      ∷ (codes "key", quoted (codes "ab-cd"))
      ∷ []
unfolding is_value is_name
fields-connection_text_example = fields-connection_text local (record {
  transport = named-value (codes "tcp") refl;
  ip = named-value (codes "127.0.0.1") refl;
  control_port = named-value (codes "5001") refl;
  shell_port = named-value (codes "5002") refl;
  stdin_port = named-value (codes "5003") refl;
  iopub_port = named-value (codes "5004") refl;
  hb_port = named-value (codes "5005") refl;
  signature_scheme = named-value (codes "hmac-sha256") refl;
  key = named-value (codes "ab-cd") refl;
})

-- The kernel that is started, and behind a code that is refused.
abbrev started_kernel : Kernel
started_kernel = record {
  world = record empty_world { out = sync (xsputn (codes "Getting config\n") new_output_buffer) };
  cin = another 0;
  cout = cout_buffer;
  cerr = cerr_buffer;
  preambles = initial file quiet;
  var_count = 0;
  published_errors = [];
  replies = [];
}

kernel_made : (main xeus host argv (new_process empty_world)).1.kernel ≡ some started_kernel
unfolding main launch start start_new create register_handlers silence_log signal write_log
    print_line extra_args create_interpreter interpreter init_magic init_preamble register_in_magics
    register_preamble assign_move move swap at redirect_output insert lookup on_out write_to any_of
    report
kernel_made = refl

abbrev after_refusal : Kernel
after_refusal = (execute_request (env_of refuses) loud bad_code started_kernel).1

one_refused : Reaches started_kernel 1 after_refusal
one_refused =
    answered (env_of refuses) loud bad_code Reaches.start
      (execute_request-Answered (env_of refuses) loud bad_code started_kernel bad_code-no_match
        (λ e. cc)).0

main-Serves_example : Serves host 1 after_refusal one_refused
main-Serves_example =
    main-Serves xeus host argv empty_world [] (codes "xcpp") (codes "-std=c++20" ∷ []) 1
      started_kernel after_refusal refl refl kernel_made one_refused
