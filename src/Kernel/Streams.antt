-- ===== src/Kernel/Streams.antt =====
-- What an evaluation writes to the kernel's output buffers.
use xeus_cpp.Base.{
  ◌≡◌, refl, ap, sym, ◌∙◌, Bool, true, false, [], ◌++◌, none, Bytes, if_split, append-nil,
  append_assoc, List, ℕ, Option, some,
}
use xeus_cpp.Buffer.{OutputBuffer, Call, calls, xsputn, sync}
use xeus_cpp.Buffer.Order.{
  Flushed, Flushed-sync, Flushed-sync_twice, everything, texts, xsputn-everything, calls-everything,
}
use xeus_cpp.World.{World, Outcome, returned, threw, undefined}
use xeus_cpp.Holder.{first_match}
use xeus_cpp.Kernel.{
  Kernel, StreamBuf, cout_buffer, cerr_buffer, Env, Config, Processed, on_out, on_err, silence,
  unsilence, redirect_input, restore_input, processed, flushed, publish, send, conclude, evaluate,
  execute_request, rebind, rebound, null_buffer, complained, verdict_of, Verdict, write_to,
}
use xeus_cpp.Kernel.Answer.{process_of}

world-conclude : (silent : Bool) (v : Verdict) (k : Kernel) → (conclude silent v k).world ≡ k.world
unfolding conclude publish send
world-conclude true v k =
    if_split (λ (l : Kernel). l.world ≡ k.world) v.errorlevel (λ _. refl) (λ _. refl)
world-conclude false v k =
    if_split (λ (l : Kernel). l.world ≡ k.world) v.errorlevel (λ _. refl) (λ _. refl)

world-verdict :
    (silent : Bool) (p : Processed) (r : Outcome Bool) (k : Kernel)
    → (verdict_of silent p r k).1.world ≡ k.world
world-verdict silent p undefined k = refl
world-verdict silent p (returned b) k = world-conclude silent _ k
world-verdict silent p (threw e) k = world-conclude silent _ k

world-unsilence :
    (silent : Bool) (cout cerr : StreamBuf) (k : Kernel)
    → (unsilence silent cout cerr k).world ≡ k.world
unfolding unsilence
world-unsilence true cout cerr k = refl
world-unsilence false cout cerr k = refl

world-evaluate :
    (env : Env) (silent : Bool) (code : Bytes) (k : Kernel)
    → (evaluate env silent code k).1.world
      ≡ (flushed (process_of env code k) (silence silent k)).world
unfolding evaluate
world-evaluate env silent code k =
    let p = process_of env code k in
    world-unsilence silent k.cout k.cerr _
    ∙ world-verdict silent p p.result (flushed p (silence silent k))

world-execute_request :
    (env : Env) (config : Config) (code : Bytes) (k : Kernel)
    → first_match code k.preambles ≡ none
    → (execute_request env config code k).1.world
      ≡ (flushed
          (process_of env code k)
          (silence config.silent (redirect_input config.allow_stdin k))).world
unfolding execute_request restore_input redirect_input
world-execute_request env config code k e =
    rw e (world-evaluate env config.silent code (redirect_input config.allow_stdin k))

-- A text for the buffer of the guard, or for one that the code put there, reaches none of the kernel's.
write_to-rebound :
    (o : Option ℕ) (f : OutputBuffer → OutputBuffer) (w : World)
    → write_to (rebound o null_buffer) f w ≡ w
unfolding write_to
write_to-rebound none f w = refl
write_to-rebound (some n) f w = refl

quiet :
    (p : Processed) (r : Outcome Bool) (k : Kernel)
    → let s : Kernel = silence true k in
      (on_err sync (on_out sync (complained p r (processed p s)))).world
      ≡ record k.world { files = p.files }
unfolding silence processed rebind on_out on_err write_to
quiet p r k = by_streams r p.new_cout p.new_cerr
  where
    by_streams :
        (r : Outcome Bool) (o e : Option ℕ)
        → let s : Kernel = silence true k in
          let q : Processed = record p { new_cout = o; new_cerr = e } in
          (on_err sync (on_out sync (complained q r (processed q s)))).world
          ≡ record k.world { files = p.files }
    by_streams (returned true) none none = refl
    by_streams (returned true) none (some m) = refl
    by_streams (returned true) (some n) none = refl
    by_streams (returned true) (some n) (some m) = refl
    by_streams _ none none = refl
    by_streams _ none (some m) = refl
    by_streams _ (some n) none = refl
    by_streams _ (some n) (some m) = refl

-- A silent request for a code that no preamble matches writes nothing to the kernel's buffers, neither what the
-- code prints nor the messages of its compilation: of the files and the buffers it changes the files only, and these
-- as `Cpp::Process` does.
pub execute_request-silent :
    (env : Env) (config : Config) (code : Bytes) (k : Kernel)
    → first_match code k.preambles ≡ none
    → config.silent ≡ true
    → (execute_request env config code k).1.world
      ≡ record k.world { files = (process_of env code k).files }
unfolding flushed redirect_input
execute_request-silent env config code k e s =
    world-execute_request env config code k e
    ∙ rw s (
        quiet (process_of env code k) (process_of env code k).result
          (redirect_input config.allow_stdin k))

-- The compiler's messages are shown if the code was refused.
abbrev pub shown_err : Outcome Bool → Bytes → Bytes
shown_err (returned true) err = err
shown_err _ err = []

abbrev Printed : Processed → Outcome Bool → World → World → Type 0
Printed p r w w' =
    Flushed w.out (texts p.cout_calls ++ p.captured_out) w'.out
    × Flushed w.err (texts p.cerr_calls ++ shown_err r p.captured_err) w'.err

everything-out :
    (cs : List Call) (s : Bytes) (b : OutputBuffer)
    → everything (xsputn s (calls cs b)) ≡ everything b ++ (texts cs ++ s)
everything-out cs s b =
    xsputn-everything s (calls cs b)
    ∙ ap (λ t. t ++ s) (calls-everything cs b)
    ∙ append_assoc (everything b) (texts cs) s

everything-err :
    (cs : List Call) (b : OutputBuffer) → everything (calls cs b) ≡ everything b ++ (texts cs ++ [])
everything-err cs b =
    calls-everything cs b ∙ ap (λ t. everything b ++ t) (sym (append-nil (texts cs)))

Printed-complained :
    (p : Processed) (r : Outcome Bool) (k : Kernel)
    → k.cout ≡ cout_buffer
    → k.cerr ≡ cerr_buffer
    → p.new_cout ≡ none
    → p.new_cerr ≡ none
    → Printed p r k.world (on_err sync (on_out sync (complained p r (processed p k)))).world
unfolding processed rebind on_out on_err write_to
Printed-complained p (returned true) k o e co ce =
    rw (co, ce, o, e)
      (
        Flushed-sync_twice k.world.out _ _ (everything-out p.cout_calls p.captured_out k.world.out),
        Flushed-sync_twice k.world.err _ _ (everything-out p.cerr_calls p.captured_err k.world.err),
      )
Printed-complained p r k o e co ce =
    rw (co, ce, o, e)
      (
        Flushed-sync k.world.out _ _ (everything-out p.cout_calls p.captured_out k.world.out),
        Flushed-sync k.world.err _ _ (everything-err p.cerr_calls k.world.err),
      )

-- A request that is not silent, for a code that no preamble matches and that leaves no other buffers behind the streams, while these are redirected to the kernel's
-- buffers: behind what the buffers were given before, the one of the output is given what the code wrote to
-- `std::cout` and then the captured output, the one of the errors what the code wrote to `std::cerr` and then the
-- captured errors only if the compilation failed. Nothing is left waiting in either buffer.
pub execute_request-Flushed :
    (env : Env) (config : Config) (code : Bytes) (k : Kernel)
    → first_match code k.preambles ≡ none
    → config.silent ≡ false
    → k.cout ≡ cout_buffer
    → k.cerr ≡ cerr_buffer
    → (process_of env code k).new_cout ≡ none
    → (process_of env code k).new_cerr ≡ none
    → let p : Processed = process_of env code k in
      let w : World = (execute_request env config code k).1.world in
      Flushed k.world.out (texts p.cout_calls ++ p.captured_out) w.out
      × Flushed k.world.err (texts p.cerr_calls ++ shown_err p.result p.captured_err) w.err
unfolding flushed redirect_input silence
execute_request-Flushed env config code k n s o e co ce =
    rw (world-execute_request env config code k n, s)
      (Printed-complained (process_of env code k) (process_of env code k).result
        (redirect_input config.allow_stdin k) o e co ce)
