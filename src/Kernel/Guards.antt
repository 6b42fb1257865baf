-- ===== src/Kernel/Guards.antt =====
-- What is behind the standard streams after a request.
use xeus_cpp.Base.{ℕ, ◌≡◌, refl, Bool, true, false, Option, none, some, Bytes, if_split, ◌∙◌}
use xeus_cpp.World.{Outcome, returned, threw, undefined}
use xeus_cpp.Magics.{KernelRes, error_reply}
use xeus_cpp.Holder.{Preamble, introspection, magics, shell, first_match}
use xeus_cpp.Kernel.{
  Kernel, Env, Config, Processed, on_out, on_err, silence, unsilence, redirect_input, restore_input,
  judge, processed, flushed, publish, send, conclude, evaluate, apply, serve, execute_request,
  complained, verdict_of, sent, Verdict, shown, StreamBuf, another, rebind, rebound,
}
use xeus_cpp.Kernel.Answer.{process_of}

-- The standard output and error streams have the buffers that they have in `k`.
pub record SameOutput (k k' : Kernel) : Type 0 where
  pub cout : k'.cout ≡ k.cout
  pub cerr : k'.cerr ≡ k.cerr

SameOutput-send : (res : KernelRes) (k k' : Kernel) → SameOutput k k' → SameOutput k (send res k')
unfolding send
SameOutput-send res k k' h = record { cout = h.cout; cerr = h.cerr }

SameOutput-sent :
    (k : Kernel) (r : Outcome KernelRes × Kernel) → SameOutput k r.1 → SameOutput k (sent r).1
SameOutput-sent k (returned res, k') h = SameOutput-send res k k' h
SameOutput-sent k (threw e, k') h = h
SameOutput-sent k (undefined, k') h = h

SameOutput-apply :
    (env : Env) (p : Preamble) (code : Bytes) (k : Kernel) → SameOutput k (apply env p code k).1
unfolding apply
SameOutput-apply env introspection code k = record { cout = refl; cerr = refl }
SameOutput-apply env (magics m) code k = record { cout = refl; cerr = refl }
SameOutput-apply env shell code k = record { cout = refl; cerr = refl }

SameOutput-complained :
    (p : Processed) (r : Outcome Bool) (k : Kernel) → SameOutput k (complained p r k)
unfolding on_err on_out
SameOutput-complained p (returned true) k = record { cout = refl; cerr = refl }
SameOutput-complained p _ k = record { cout = refl; cerr = refl }

-- The streams have the buffers that the code has put behind them, or those of before.
abbrev Rebound : Processed → Kernel → Kernel → Type 0
Rebound p k k' = SameOutput (rebind p k) k'

Rebound-flushed : (p : Processed) (k : Kernel) → Rebound p k (flushed p k)
unfolding flushed processed rebind on_out on_err
Rebound-flushed p k =
    let h = SameOutput-complained p p.result (processed p k) in
    record { cout = h.cout; cerr = h.cerr }

SameOutput-conclude :
    (silent : Bool) (v : Verdict) (k : Kernel) → SameOutput k (conclude silent v k)
unfolding conclude publish send
SameOutput-conclude silent v k =
    if_split (SameOutput k) v.errorlevel
      (λ _.
        if_split
          (λ k'.
            SameOutput k
              (send (error_reply (shown v).ename (shown v).evalue (shown v).traceback) k'))
          silent (λ _. record { cout = refl; cerr = refl })
          (λ _. record { cout = refl; cerr = refl }))
      (λ _. record { cout = refl; cerr = refl })

SameOutput-verdict :
    (silent : Bool) (p : Processed) (r : Outcome Bool) (k : Kernel)
    → SameOutput k (verdict_of silent p r k).1
SameOutput-verdict silent p undefined k = record { cout = refl; cerr = refl }
SameOutput-verdict silent p r k = SameOutput-conclude silent (judge p.captured_err r) k

SameOutput-trans : (a b c : Kernel) → SameOutput a b → SameOutput b c → SameOutput a c
SameOutput-trans a b c h k = record { cout = k.cout ∙ h.cout; cerr = k.cerr ∙ h.cerr }

-- What a request leaves behind a stream: a buffer of the code's own, if the code was evaluated, and not silently, and has
-- put one there; else the buffer of before.
abbrev pub behind : Option Preamble → Bool → Option ℕ → StreamBuf → StreamBuf
behind (some p) silent new before = before
behind none true new before = before
behind none false none before = before
behind none false (some n) before = another n

-- The two output streams.
record Behind (o : Option Preamble) (silent : Bool) (p : Processed) (k k' : Kernel) : Type 0 where
  cout : k'.cout ≡ behind o silent p.new_cout k.cout
  cerr : k'.cerr ≡ behind o silent p.new_cerr k.cerr

behind-rebound :
    (new : Option ℕ) (before : StreamBuf) → rebound new before ≡ behind none false new before
behind-rebound none before = refl
behind-rebound (some n) before = refl

-- The guard puts back what was there, if the request is silent.
Behind-unsilence :
    (silent : Bool) (p : Processed) (k k' : Kernel)
    → Rebound p (silence silent k) k'
    → Behind none silent p k (unsilence silent k.cout k.cerr k')
unfolding silence unsilence rebind
Behind-unsilence true p k k' h = record { cout = refl; cerr = refl }
Behind-unsilence false p k k' h = record {
  cout = h.cout ∙ behind-rebound p.new_cout k.cout;
  cerr = h.cerr ∙ behind-rebound p.new_cerr k.cerr;
}

Behind-evaluate :
    (env : Env) (silent : Bool) (code : Bytes) (k : Kernel)
    → Behind none silent (process_of env code k) k (evaluate env silent code k).1
unfolding evaluate
Behind-evaluate env silent code k =
    let p = process_of env code k in
    let s = silence silent k in
    Behind-unsilence silent p k _ (
      SameOutput-trans (rebind p s) (flushed p s) _ (Rebound-flushed p s)
        (SameOutput-verdict silent p p.result (flushed p s)))

Behind-serve :
    (env : Env) (silent : Bool) (code : Bytes) (o : Option Preamble) (k : Kernel)
    → Behind o silent (process_of env code k) k (serve env silent code o k).1
Behind-serve env silent code none k = Behind-evaluate env silent code k
Behind-serve env silent code (some p) k =
    let h = SameOutput-sent k (apply env p code k) (SameOutput-apply env p code k) in
    record { cout = h.cout; cerr = h.cerr }

-- However a request ends, also with an exception: `std::cin` has the buffer that it had before. So have `std::cout` and
-- `std::cerr`, whatever the code does to them, if the request is silent or a preamble took the code; otherwise
-- they have the buffers that the code itself left behind them, and those of before where it left none.
pub execute_request-streams :
    (env : Env) (config : Config) (code : Bytes) (k : Kernel)
    → let after : Kernel = (execute_request env config code k).1 in
      let p : Processed = process_of env code k in
      let o : Option Preamble = first_match code k.preambles in
      (after.cin ≡ k.cin)
      × (after.cout ≡ behind o config.silent p.new_cout k.cout)
      × (after.cerr ≡ behind o config.silent p.new_cerr k.cerr)
unfolding execute_request redirect_input restore_input
execute_request-streams env config code k =
    let h =
      Behind-serve env config.silent code (first_match code k.preambles)
        (redirect_input config.allow_stdin k) in
    (refl, h.cout, h.cerr)
