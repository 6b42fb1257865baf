-- ===== src/Launch/Order.antt =====
-- What `main` makes and starts, and in which order.
use xeus_cpp.Base.{
  ℕ, ◌≡◌, refl, false, [], ◌∷◌, ◌++◌, List, some, codes, Bytes, is_empty, Bool-cases, inl, inr,
  if◌then◌else◌, not,
}
use xeus_cpp.Buffer.{new_output_buffer, xsputn, sync}
use xeus_cpp.World.{World, Outcome, returned, threw, undefined}
use xeus_cpp.Engine.{create_interpreter}
use xeus_cpp.Kernel.{Kernel, on_out, write_to, cout_buffer, cerr_buffer}
use xeus_cpp.Base.Map.{insert, lookup}
use xeus_cpp.World.Disk.{Files}
use xeus_cpp.Holder.{register_preamble, assign_move, move, swap, at}
use xeus_cpp.Kernel.{redirect_output}
use xeus_cpp.Kernel.Init.{interpreter, init_magic, init_preamble, register_in_magics}
use xeus_cpp.Kernel.Start.{initial}
use xeus_cpp.Launch.{
  Xeus, Host, Process, creates, makes_context, sigsegv, sigkill, sigint, default_handler, handler,
  stop_handler, new_process, write_log, print_line, signal, silence_log, register_handlers,
  extra_args, create, start_with, start_new, start, launch, main, Configuration, connection_text,
  step, start_as, loaded,
}
use xeus_cpp.Launch.Promise.{
  loads, configuration, is_silent, registering, Logs, prepared_steps, Ended, Launched,
}

-- A kernel as the constructor leaves it.
record New (host : Host) (k : Kernel) : Type 0 where
  preambles : k.preambles ≡ initial host.writefile host.xassist
  cout : k.cout ≡ cout_buffer
  cerr : k.cerr ≡ cerr_buffer
  replies : k.replies ≡ []
  out : k.world.out ≡ new_output_buffer

interpreter-New :
    (host : Host) (files : Files)
    → (k : Kernel) × (interpreter host.bad_cast host.writefile host.xassist files host.cin host.cout
          host.cerr
        ≡ (returned tt, k))
      × New host k
unfolding interpreter init_magic init_preamble register_in_magics register_preamble assign_move move
    swap at redirect_output insert lookup
interpreter-New host files =
    (_, refl, record { preambles = refl; cout = refl; cerr = refl; replies = refl; out = refl })

create-New :
    (host : Host) (args : List Bytes) (p : Process)
    → (k : Kernel) × (w : World) × (create host (returned args) p ≡ (
      returned tt,
      record p { terminal = w; kernel = some k; steps = p.steps ++ creates args ∷ [] },
    ))
      × New host k
unfolding create create_interpreter
create-New host args p =
    let w = (create_interpreter host.detected args p.terminal).1 in
    let (k, e, n) = interpreter-New host w.files in (k, w, rw e refl, n)

-- What was registered and logged before the interpreter is created.
record Prepared (host : Host) (p : Process) : Type 0 where
  steps : p.steps ≡ prepared_steps
  sigsegv : p.handlers sigsegv ≡ handler
  sigint : p.handlers sigint ≡ stop_handler
  sigkill : p.handlers sigkill ≡ default_handler
  clog_good : p.clog_good ≡ not (is_silent host)
  log : Logs host p.log registering

register_handlers-Prepared :
    (host : Host) (terminal : World)
    → Prepared host (register_handlers (silence_log host (new_process terminal)))
unfolding register_handlers silence_log signal write_log
register_handlers-Prepared host terminal = elim (Bool-cases (is_silent host)) [
  | inl s ↦ rw s (record {
    steps = refl;
    sigsegv = refl;
    sigint = refl;
    sigkill = refl;
    clog_good = rw s refl;
    log = rw s refl;
  })
  | inr n ↦ rw n (record {
    steps = refl;
    sigsegv = refl;
    sigint = refl;
    sigkill = refl;
    clog_good = rw n refl;
    log = rw n refl;
  })
]

-- A text behind the first one.
log_more :
    (host : Host) (text : Bytes) (p : Process)
    → Prepared host p
    → Logs host (if p.clog_good then p.log ++ text else p.log) (registering ++ text)
log_more host text p h = elim (Bool-cases (is_silent host)) [
  | inl s ↦ rw (h.clog_good, h.log, s) refl
  | inr s ↦ rw (h.clog_good, h.log, s) refl
]

log_as :
    (host : Host) (file_name : Bytes) (config : Configuration) (p : Process)
    → Prepared host p
    → Logs host (start_as file_name config p).log (
        registering
        ++ (codes "Instantiating kernel\n"
            ++ (codes "Starting xcpp kernel...\n\n"
                ++ (codes
                      "If you want to connect to this kernel from an other client, you can use the "
                    ++ (file_name ++ codes " file.\n")))))
unfolding start_as write_log
log_as host file_name config p h = elim (Bool-cases (is_silent host)) [
  | inl s ↦ rw (h.clog_good, h.log, s) refl
  | inr s ↦ rw (h.clog_good, h.log, s) refl
]

-- The process behind the creation of the interpreter and the context.
abbrev made : List Bytes → Process → Kernel → World → Process
made args p k w =
    step makes_context
      (record p { terminal = w; kernel = some k; steps = p.steps ++ creates args ∷ [] })

module _ (xeus : Xeus) (host : Host) (file_name : Bytes) (args : List Bytes) (p : Process)
    (k : Kernel) (w : World) (h : Prepared host p) (n : New host k) where
  with_file-Ended :
      is_empty file_name ≡ false
      → (o : Outcome Configuration)
      → Ended xeus host file_name args (loads o) (loaded file_name o (made args p k w))
  unfolding start_as write_log
  with_file-Ended e (returned config) =
      (refl, rw h.steps refl, rw e (log_as host file_name config p h))
  with_file-Ended e (threw t) = (refl, rw h.steps refl, h.log)
  with_file-Ended e undefined = (refl, rw h.steps refl, h.log)

  start-Ended :
      Ended xeus host file_name args
        (configuration xeus file_name)
        (start xeus file_name (made args p k w))
  unfolding start start_new start_with write_log print_line on_out
  start-Ended = elim (Bool-cases (is_empty file_name)) [
    | inl e ↦
        rw e
          (refl, rw h.steps refl, rw e (log_more host (connection_text xeus.new_configuration) p h))
    | inr e ↦ rw e (with_file-Ended e (xeus.load_configuration file_name))
  ]

  with_file-Launched :
      is_empty file_name ≡ false
      → (o : Outcome Configuration)
      → Launched host file_name (loaded file_name o (made args p k w)).1
  unfolding start_as write_log new_output_buffer
  with_file-Launched e (returned config) = record {
    sigsegv = h.sigsegv;
    sigint = h.sigint;
    sigkill = h.sigkill;
    kernel = (k, refl, n.preambles, n.cout, n.cerr, n.replies, rw (e, n.out) refl);
  }
  with_file-Launched e (threw t) = record {
    sigsegv = h.sigsegv;
    sigint = h.sigint;
    sigkill = h.sigkill;
    kernel = (k, refl, n.preambles, n.cout, n.cerr, n.replies, rw (e, n.out) refl);
  }
  with_file-Launched e undefined = record {
    sigsegv = h.sigsegv;
    sigint = h.sigint;
    sigkill = h.sigkill;
    kernel = (k, refl, n.preambles, n.cout, n.cerr, n.replies, rw (e, n.out) refl);
  }

  start-Launched : Launched host file_name (start xeus file_name (made args p k w)).1
  unfolding start start_new start_with write_log print_line on_out write_to sync xsputn
      new_output_buffer
  start-Launched = elim (Bool-cases (is_empty file_name)) [
    | inl e ↦ rw e (record {
      sigsegv = h.sigsegv;
      sigint = h.sigint;
      sigkill = h.sigkill;
      kernel = (_, refl, n.preambles, n.cout, n.cerr, n.replies, rw (e, n.cout, n.out) refl);
    })
    | inr e ↦ rw e (with_file-Launched e (xeus.load_configuration file_name))
  ]

pub main-Launched :
    (xeus : Xeus) (host : Host) (argv : List Bytes) (terminal : World) (file_name name : Bytes)
    (args : List Bytes)
    → xeus.should_print_version argv ≡ false
    → xeus.extract_filename argv ≡ (file_name, name ∷ args)
    → let r : Outcome ℕ × Process = main xeus host argv (new_process terminal) in
      Ended xeus host file_name args (configuration xeus file_name) r × Launched host file_name r.1
unfolding main launch extra_args
main-Launched xeus host argv terminal file_name name args v e =
    let p = register_handlers (silence_log host (new_process terminal)) in
    let (k, w, c, n) = create-New host args p in
    let h = register_handlers-Prepared host terminal in
    rw (v, e, c)
      (
        start-Ended xeus host file_name args p k w h n,
        start-Launched xeus host file_name args p k w h n,
      )
