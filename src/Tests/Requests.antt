-- ===== src/Tests/Requests.antt =====
-- The theorems on the kernel's requests, at concrete inputs.
use xeus_cpp.Base.{◌≡◌, refl, codes, Bytes, List, [], ◌∷◌, none, true, false, words_from, ◌&&◌}
use xeus_cpp.Buffer.{new_output_buffer, Call, xsputn_call}
use xeus_cpp.Buffer.Order.{texts, Flushed}
use xeus_cpp.World.{World, Outcome, returned, runtime_error, threw}
use xeus_cpp.World.Disk.{Files, lookup}
use xeus_cpp.Pattern.{is_any, behind}
use xeus_cpp.Magics.{CellMagic, is_magic, cell_name, line_name}
use xeus_cpp.WriteFile.{writefile}
use xeus_cpp.Inspect.{Interop, is_inspect}
use xeus_cpp.Shell.{is_shell}
use xeus_cpp.Holder.{matches, is_match, first_match}
use xeus_cpp.Kernel.{
  Kernel, cout_buffer, cerr_buffer, another, Processed, Env, Config, execute_request,
}
use xeus_cpp.Kernel.Guards.{execute_request-streams}
use xeus_cpp.Kernel.Answer.{Answered, execute_request-Answered}
use xeus_cpp.Kernel.Replies.{RepliedBy, execute_request-RepliedBy}
use xeus_cpp.Kernel.Streams.{execute_request-silent, execute_request-Flushed}
use xeus_cpp.Kernel.Start.{initial, Wrote, file_code, execute_request-Wrote}
use xeus_cpp.Kernel.Session.{Reaches, start, answered, Served, Reaches-Served}
use xeus_cpp.Kernel.Routes.{execute_request-shell}
use xeus_cpp.Assist.Command.{xassist}
use xeus_cpp.Magics.{status_ok}
use xeus_cpp.Buffer.{sync, xsputn}
use xeus_cpp.Base.{some, none}
use xeus_cpp.Tests.Magics.{no_connection, string_lib}
use xeus_cpp.Info.{Language, c_plus_plus_lang}
use xeus_cpp.Engine.{
  Detected, any_of, is_openmp, is_resource_dir, begins_with, clang_args, create_interpreter,
}
use xeus_cpp.Engine.Options.{NonePass, count, expected_count, create_interpreter-options}
use xeus_cpp.Tests.Dispatch.{open_access, empty_world, second_word, one_class}

abbrev cxx_language : Language
cxx_language = c_plus_plus_lang

abbrev pub quiet : CellMagic
quiet args content w = (returned tt, w)

abbrev pub file : CellMagic
file = writefile open_access second_word

-- An interpreter that refuses every code, and one that prints and throws.
abbrev pub refuses : Bytes → Files → Processed
refuses code files = record {
  files = files;
  cout_calls = [];
  cerr_calls = [];
  new_cout = none;
  new_cerr = none;
  captured_out = [];
  captured_err = codes "error: expected ';'";
  result = returned true;
}

abbrev throws : Bytes → Files → Processed
throws code files = record {
  files = (codes "log", code) ∷ files;
  cout_calls = xsputn_call (codes "a") ∷ [];
  cerr_calls = xsputn_call (codes "b") ∷ [];
  new_cout = none;
  new_cerr = none;
  captured_out = codes "c";
  captured_err = codes "d";
  result = threw (runtime_error (codes "out of cheese"));
}

-- One that puts a buffer of its own behind each output stream.
abbrev rebinds : Bytes → Files → Processed
rebinds code files = record {
  files = files;
  cout_calls = [];
  cerr_calls = [];
  new_cout = some 7;
  new_cerr = some 8;
  captured_out = codes "c";
  captured_err = [];
  result = returned false;
}

abbrev pub no_interop : Interop
no_interop = record { get_type = λ e. none; declare = λ c. true; type_of = λ n. [] }

abbrev pub env_of : (Bytes → Files → Processed) → Env
env_of process = record {
  xml = one_class;
  cpp = no_interop;
  tagfile_dir = codes "tags";
  tagconfs = [];
  popen = λ command files. (none, files);
  process = process;
}

abbrev pub loud : Config
loud = record { silent = false; allow_stdin = true }

abbrev silent : Config
silent = record { silent = true; allow_stdin = false }

abbrev fresh : Kernel
fresh = record {
  world = empty_world;
  cin = another 0;
  cout = cout_buffer;
  cerr = cerr_buffer;
  preambles = initial file quiet;
  var_count = 0;
  published_errors = [];
  replies = [];
}

abbrev pub bad_code : Bytes
bad_code = codes "int"

pub bad_code-no_match : first_match bad_code (initial file quiet) ≡ none
unfolding first_match is_match matches is_inspect is_magic is_shell cell_name line_name behind
bad_code-no_match = refl

execute_request-streams_example :
    let after : Kernel = (execute_request (env_of rebinds) silent bad_code fresh).1 in
    (after.cin ≡ another 0) × (after.cout ≡ cout_buffer) × (after.cerr ≡ cerr_buffer)
unfolding first_match is_match matches is_inspect behind is_magic cell_name line_name is_shell
execute_request-streams_example = execute_request-streams (env_of rebinds) silent bad_code fresh

execute_request-RepliedBy_example :
    let r : Outcome (Unit {0}) × Kernel = execute_request (env_of throws) loud bad_code fresh in
    RepliedBy [] r.0 r.1.replies
execute_request-RepliedBy_example = execute_request-RepliedBy (env_of throws) loud bad_code fresh

execute_request-Answered_example :
    let r : Outcome (Unit {0}) × Kernel = execute_request (env_of refuses) loud bad_code fresh in
    (r.0 ≡ returned tt) × Answered false (codes "error: expected ';'") (returned true) fresh r.1
execute_request-Answered_example =
    execute_request-Answered (env_of refuses) loud bad_code fresh bad_code-no_match (λ e. cc)

execute_request-silent_example :
    (execute_request (env_of throws) silent bad_code fresh).1.world
    ≡ record empty_world { files = (codes "log", bad_code) ∷ [] }
execute_request-silent_example =
    execute_request-silent (env_of throws) silent bad_code fresh bad_code-no_match refl

execute_request-Flushed_example :
    let w : World = (execute_request (env_of throws) loud bad_code fresh).1.world in
    Flushed new_output_buffer (codes "ac") w.out × Flushed new_output_buffer (codes "b") w.err
unfolding texts xeus_cpp.Buffer.Order.text
execute_request-Flushed_example =
    execute_request-Flushed (env_of throws) loud bad_code fresh bad_code-no_match refl refl refl
      refl refl

execute_request-Wrote_example :
    Wrote fresh (codes "a.txt") (codes "hi\n") (
      execute_request (env_of refuses) loud (file_code b' ' (codes "a.txt") b'h' (codes "i")) fresh)
unfolding words_from lookup is_any
execute_request-Wrote_example =
    execute_request-Wrote open_access second_word quiet (env_of refuses) loud fresh b' '
      (codes "a.txt") b'h' (codes "i") (codes "file") (codes "a.txt") (codes "a.txt" ∷ []) refl refl
      (refl, (refl, (refl, (refl, (refl, tt))))) (refl, (refl, tt)) refl refl refl refl

abbrev detected : Detected
detected = record {
  resource_dir = codes "/usr/lib/clang/20";
  include_paths = codes "/usr/include" ∷ [];
  creates = λ args. true;
}

create_interpreter-options_example :
    let extra : List Bytes = codes "-fopenmp" ∷ [] in
    let args : List Bytes = clang_args detected extra in
    ((create_interpreter detected extra empty_world).0
      ≡ returned (record { interpreter = true; loaded_libomp = true && any_of is_openmp extra }))
    × (count is_resource_dir args ≡ expected_count detected extra)
unfolding begins_with NonePass
create_interpreter-options_example =
    create_interpreter-options detected (codes "-fopenmp" ∷ []) empty_world refl (refl, tt) refl
      (refl, tt)

-- Behind one code that is refused.
abbrev after_one : Kernel
after_one = (execute_request (env_of refuses) loud bad_code fresh).1

one_answered : Reaches fresh 1 after_one
one_answered =
    answered (env_of refuses) loud bad_code start
      (execute_request-Answered (env_of refuses) loud bad_code fresh bad_code-no_match (λ e. cc)).0

Reaches-Served_example : Served fresh 1 after_one one_answered
Reaches-Served_example = Reaches-Served fresh one_answered

-- A shell that prints the command.
abbrev echoing : Env
echoing = record (env_of refuses) { popen = λ command files. (some command, files) }

execute_request-shell_example : execute_request echoing loud (codes "!ls") fresh ≡ (
  returned tt,
  record fresh {
    world = record empty_world { out = sync (xsputn (codes "ls 2>&1") new_output_buffer) };
    replies = status_ok ∷ [];
  },
)
unfolding is_any
execute_request-shell_example =
    execute_request-shell echoing loud fresh file quiet (codes "ls") (codes "ls 2>&1") [] refl refl
      (refl, (refl, tt)) refl (refl, (refl, (refl, (refl, (refl, (refl, (refl, tt)))))))

abbrev with_assist : Kernel
with_assist = record fresh {
  preambles = initial file (xassist open_access no_connection string_lib);
}
