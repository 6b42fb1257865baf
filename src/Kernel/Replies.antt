-- ===== src/Kernel/Replies.antt =====
-- How many replies a request sends.
use xeus_cpp.Base.{◌≡◌, refl, ap, Bool, true, false, [], ◌∷◌, ◌++◌, List, Option, none, some, Bytes}
use xeus_cpp.World.{Outcome, returned, threw, undefined}
use xeus_cpp.Magics.{KernelRes}
use xeus_cpp.Holder.{Preamble, introspection, magics, shell, first_match}
use xeus_cpp.Kernel.{
  Kernel, StreamBuf, Env, Config, Processed, silence, unsilence, redirect_input, restore_input,
  flushed, send, evaluate, apply, serve, execute_request, verdict_of, sent,
}
use xeus_cpp.Kernel.Answer.{SameRecord, SameRecord-flushed, Answered-conclude, process_of}

-- What a request sends: one reply if it returns, and none if it does not.
abbrev pub RepliedBy : List KernelRes → Outcome (Unit {0}) → List KernelRes → Type 0
RepliedBy before (returned _) after = (res : KernelRes) × (after ≡ before ++ res ∷ [])
RepliedBy before _ after = after ≡ before

RepliedBy-sent :
    (before : List KernelRes) (r : Outcome KernelRes × Kernel)
    → r.1.replies ≡ before
    → RepliedBy before (sent r).0 (sent r).1.replies
unfolding send
RepliedBy-sent before (returned res, k) h = (res, ap (λ l. l ++ res ∷ []) h)
RepliedBy-sent before (threw e, k) h = h
RepliedBy-sent before (undefined, k) h = h

replies-apply :
    (env : Env) (p : Preamble) (code : Bytes) (k : Kernel)
    → (apply env p code k).1.replies ≡ k.replies
unfolding apply
replies-apply env introspection code k = refl
replies-apply env (magics m) code k = refl
replies-apply env shell code k = refl

RepliedBy-undefined :
    (silent : Bool) (p : Processed) (r : Outcome Bool) (k k' : Kernel)
    → SameRecord k k'
    → RepliedBy k.replies (verdict_of silent p r k').0 (verdict_of silent p r k').1.replies
RepliedBy-undefined silent p undefined k k' h = h.replies
RepliedBy-undefined silent p (returned b) k k' h =
    let a = Answered-conclude silent p.captured_err (returned b) k k' (λ e. cc) h in (a.0, a.1)
RepliedBy-undefined silent p (threw e) k k' h =
    let a = Answered-conclude silent p.captured_err (threw e) k k' (λ e. cc) h in (a.0, a.1)

RepliedBy-unsilence :
    (silent : Bool) (o : Outcome (Unit {0})) (before : List KernelRes) (cout cerr : StreamBuf)
    (k : Kernel)
    → RepliedBy before o k.replies
    → RepliedBy before o (unsilence silent cout cerr k).replies
unfolding unsilence
RepliedBy-unsilence true o before cout cerr k h = h
RepliedBy-unsilence false o before cout cerr k h = h

RepliedBy-serve :
    (env : Env) (silent : Bool) (code : Bytes) (found : Option Preamble) (k : Kernel)
    → RepliedBy k.replies
        (serve env silent code found k).0
        (serve env silent code found k).1.replies
unfolding evaluate
RepliedBy-serve env silent code (some p) k =
    RepliedBy-sent k.replies (apply env p code k) (replies-apply env p code k)
RepliedBy-serve env silent code none k =
    let p = process_of env code k in
    RepliedBy-unsilence silent _ k.replies k.cout k.cerr _ (
      RepliedBy-undefined silent p p.result k (flushed p (silence silent k))
        (SameRecord-flushed p silent k))

-- For any code and any preambles, a request that returns sends exactly one reply, and one that throws or does not come
-- back sends none; the replies that were sent before stay.
pub execute_request-RepliedBy :
    (env : Env) (config : Config) (code : Bytes) (k : Kernel)
    → let r : Outcome (Unit {0}) × Kernel = execute_request env config code k in
      RepliedBy k.replies r.0 r.1.replies
unfolding execute_request redirect_input restore_input
execute_request-RepliedBy env config code k =
    RepliedBy-serve env config.silent code (first_match code k.preambles)
      (redirect_input config.allow_stdin k)
