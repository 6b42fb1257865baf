-- ===== src/Kernel/Answer.antt =====
-- The replies to a request, and the errors that are published with them.
use xeus_cpp.Base.{
  c_string, ◌≡◌, ◌≢◌, refl, sym, ◌∙◌, Bool, true, false, [], ◌∷◌, ◌++◌, List, none, Bytes, if_split,
  append-nil, codes, if◌then◌else◌,
}
use xeus_cpp.World.{
  Outcome, returned, threw, undefined, runtime_error, logic_error, exception, other,
}
use xeus_cpp.Magics.{KernelRes, successful_reply, error_reply}
use xeus_cpp.Holder.{first_match}
use xeus_cpp.Kernel.{
  Kernel, StreamBuf, Env, Config, Processed, ExecutionError, on_out, on_err, silence, unsilence,
  rebind, redirect_input, restore_input, judge, processed, flushed, publish, send, conclude,
  evaluate, execute_request, complained, verdict_of, Verdict, shown,
}

-- The replies and the errors that were published are those that they were.
pub record SameRecord (k k' : Kernel) : Type 0 where
  pub replies : k'.replies ≡ k.replies
  pub errors : k'.published_errors ≡ k.published_errors

SameRecord-silence : (silent : Bool) (k : Kernel) → SameRecord k (silence silent k)
unfolding silence
SameRecord-silence true k = record { replies = refl; errors = refl }
SameRecord-silence false k = record { replies = refl; errors = refl }

SameRecord-complained :
    (p : Processed) (r : Outcome Bool) (k k' : Kernel)
    → SameRecord k k'
    → SameRecord k (complained p r k')
unfolding on_err on_out
SameRecord-complained p (returned true) k k' h = record { replies = h.replies; errors = h.errors }
SameRecord-complained p (returned false) k k' h = h
SameRecord-complained p (threw e) k k' h = h
SameRecord-complained p undefined k k' h = h

pub SameRecord-flushed :
    (p : Processed) (silent : Bool) (k : Kernel) → SameRecord k (flushed p (silence silent k))
unfolding flushed processed rebind on_out on_err
SameRecord-flushed p silent k =
    let s = SameRecord-silence silent k in
    let h =
      SameRecord-complained p p.result k (processed p (silence silent k))
        (record { replies = s.replies; errors = s.errors }) in
    record { replies = h.replies; errors = h.errors }

-- The error that a reply reports.
unfoldable pub errors_of : KernelRes → List ExecutionError
errors_of (error_reply ename evalue traceback) =
    record { ename = ename; evalue = evalue; traceback = traceback } ∷ []
errors_of _ = []

-- What an error says: the messages of a compilation that failed, or the text of an exception.
abbrev pub told : Bytes → Outcome Bool → Bytes
told err (returned true) = codes "Compilation error! " ++ err
told err (threw (runtime_error what)) = what
told err (threw (logic_error what)) = what
told err (threw (exception what)) = what
told err _ = []

-- The reply to a code that `Cpp::Process` compiles and runs without an exception, and to any other.
abbrev pub Reports : Bytes → Outcome Bool → KernelRes → Type 0
Reports err (returned false) res = res ≡ successful_reply none
Reports err r res =
    (e : ExecutionError) × (res ≡ error_reply e.ename e.evalue e.traceback)
    × (e.evalue ≡ told err r)
    × (e.traceback ≡ (e.ename ++ e.evalue) ∷ [])

-- One reply is sent for the result `r` and the messages `err`, and what it reports is published unless the request is silent.
abbrev pub Answered : Bool → Bytes → Outcome Bool → Kernel → Kernel → Type 0
Answered silent err r k k' =
    (res : KernelRes) × (k'.replies ≡ k.replies ++ res ∷ [])
    × Reports err r res
    × (k'.published_errors ≡ k.published_errors ++ (if silent then [] else errors_of res))

abbrev reply_of : Verdict → KernelRes
reply_of v = error_reply (shown v).ename (shown v).evalue (shown v).traceback

Answered-failure :
    (silent : Bool) (err : Bytes) (v : Verdict) (r : Outcome Bool) (k k' : Kernel)
    → v.errorlevel ≡ true
    → SameRecord k k'
    → Reports err r (reply_of v)
    → Answered silent err r k (conclude silent v k')
unfolding conclude publish send errors_of
Answered-failure true err v r k k' e h shows =
    (reply_of v, rw (e, h.replies), shows, rw (e, h.errors) (sym (append-nil _)))
Answered-failure false err v r k k' e h shows =
    (reply_of v, rw (e, h.replies), shows, rw (e, h.errors))

Answered-success :
    (silent : Bool) (err : Bytes) (v : Verdict) (k k' : Kernel)
    → v.errorlevel ≡ false
    → SameRecord k k'
    → Answered silent err (returned false) k (conclude silent v k')
unfolding conclude publish send errors_of
Answered-success silent err v k k' e h = (
  successful_reply none,
  rw (e, h.replies),
  refl,
  rw e (
      h.errors
      ∙ if_split (λ l. k.published_errors ≡ k.published_errors ++ l) silent
          (λ _. sym (append-nil _)) (λ _. sym (append-nil _))),
)

pub Answered-conclude :
    (silent : Bool) (err : Bytes) (r : Outcome Bool) (k k' : Kernel)
    → r ≢ undefined
    → SameRecord k k'
    → Answered silent err r k (conclude silent (judge err r) k')
unfolding judge
Answered-conclude silent err (returned false) k k' n h = Answered-success silent err _ k k' refl h
Answered-conclude silent err (returned true) k k' n h =
    let v = judge err (returned true) in
    Answered-failure silent err v (returned true) k k' refl h (shown v, refl, refl, refl)
Answered-conclude silent err (threw (runtime_error what)) k k' n h =
    let v = judge err (threw (runtime_error what)) in
    Answered-failure silent err v (threw (runtime_error what)) k k' refl h
      (shown v, refl, refl, refl)
Answered-conclude silent err (threw (logic_error what)) k k' n h =
    let v = judge err (threw (logic_error what)) in
    Answered-failure silent err v (threw (logic_error what)) k k' refl h (shown v, refl, refl, refl)
Answered-conclude silent err (threw (exception what)) k k' n h =
    let v = judge err (threw (exception what)) in
    Answered-failure silent err v (threw (exception what)) k k' refl h (shown v, refl, refl, refl)
Answered-conclude silent err (threw other) k k' n h =
    let v = judge err (threw other) in
    Answered-failure silent err v (threw other) k k' refl h (shown v, refl, refl, refl)
Answered-conclude silent err undefined k k' n h = absurd (n refl)

-- `Cpp::Process` on a code.
abbrev pub process_of : Env → Bytes → Kernel → Processed
process_of env code k = env.process (c_string code) k.world.files

Answered-verdict :
    (silent : Bool) (p : Processed) (r : Outcome Bool) (k k' : Kernel)
    → r ≢ undefined
    → SameRecord k k'
    → ((verdict_of silent p r k').0 ≡ returned tt)
      × Answered silent p.captured_err r k (verdict_of silent p r k').1
Answered-verdict silent p undefined k k' n h = absurd (n refl)
Answered-verdict silent p (returned b) k k' n h =
    (refl, Answered-conclude silent p.captured_err (returned b) k k' n h)
Answered-verdict silent p (threw e) k k' n h =
    (refl, Answered-conclude silent p.captured_err (threw e) k k' n h)

Answered-unsilence :
    (silent : Bool) (err : Bytes) (r : Outcome Bool) (k k' : Kernel) (cout cerr : StreamBuf)
    → Answered silent err r k k'
    → Answered silent err r k (unsilence silent cout cerr k')
unfolding unsilence
Answered-unsilence true err r k k' cout cerr h = h
Answered-unsilence false err r k k' cout cerr h = h

Answered-evaluate :
    (env : Env) (silent : Bool) (code : Bytes) (k : Kernel)
    → (process_of env code k).result ≢ undefined
    → let r : Outcome (Unit {0}) × Kernel = evaluate env silent code k in
      (r.0 ≡ returned tt)
      × Answered silent (process_of env code k).captured_err (process_of env code k).result k r.1
unfolding evaluate
Answered-evaluate env silent code k n =
    let p = process_of env code k in
    let h =
      Answered-verdict silent p p.result k (flushed p (silence silent k)) n
        (SameRecord-flushed p silent k) in
    (h.0, Answered-unsilence silent p.captured_err p.result k _ k.cout k.cerr h.1)

-- A code that no preamble matches, and that `Cpp::Process` comes back from: the request returns and sends one reply. It
-- is a successful one exactly if `Cpp::Process` returned false; otherwise it is an error whose value is
-- "Compilation error! " and the captured messages, or the text of the exception (none if it is no `std::exception`), and
-- whose traceback is the one string of the error's name and value. Unless the request is silent, the error of the
-- reply is published, and nothing else is.
pub execute_request-Answered :
    (env : Env) (config : Config) (code : Bytes) (k : Kernel)
    → first_match code k.preambles ≡ none
    → (process_of env code k).result ≢ undefined
    → let r : Outcome (Unit {0}) × Kernel = execute_request env config code k in
      (r.0 ≡ returned tt)
      × Answered config.silent
          (process_of env code k).captured_err
          (process_of env code k).result
          k
          r.1
unfolding execute_request redirect_input restore_input
execute_request-Answered env config code k e n =
    rw e (Answered-evaluate env config.silent code (redirect_input config.allow_stdin k) n)
