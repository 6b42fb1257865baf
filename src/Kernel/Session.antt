-- ===== src/Kernel/Session.antt =====
-- Sequences of requests to one kernel.
use xeus_cpp.Base.{
  c_string, ℕ, ◌+◌, ◌≡◌, refl, ap, sym, ◌∙◌, ◌⊎◌, inl, inr, Bool, true, false, [], ◌∷◌, ◌++◌, List,
  Option, none, some, Bytes, if_split, arith, length, length-append, append_assoc, append-nil,
}
use xeus_cpp.World.{Outcome, returned, threw, undefined, Thrown}
use xeus_cpp.Magics.{KernelRes}
use xeus_cpp.Holder.{Preamble, introspection, magics, shell, first_match}
use xeus_cpp.Kernel.{
  Kernel, StreamBuf, Env, Config, Processed, Verdict, on_out, on_err, silence, unsilence,
  redirect_input, restore_input, processed, flushed, publish, send, conclude, evaluate, apply,
  rebind, another, serve, execute_request, complained, verdict_of, sent, judge,
}
use xeus_cpp.Kernel.Guards.{behind, execute_request-streams}
use xeus_cpp.Kernel.Answer.{process_of}
use xeus_cpp.Kernel.Replies.{RepliedBy, execute_request-RepliedBy}

preambles-sent : (r : Outcome KernelRes × Kernel) → (sent r).1.preambles ≡ r.1.preambles
unfolding send
preambles-sent (returned res, k) = refl
preambles-sent (threw e, k) = refl
preambles-sent (undefined, k) = refl

preambles-apply :
    (env : Env) (p : Preamble) (code : Bytes) (k : Kernel)
    → (apply env p code k).1.preambles ≡ k.preambles
unfolding apply
preambles-apply env introspection code k = refl
preambles-apply env (magics m) code k = refl
preambles-apply env shell code k = refl

preambles-flushed : (p : Processed) (k : Kernel) → (flushed p k).preambles ≡ k.preambles
unfolding flushed processed rebind on_out on_err
preambles-flushed p k = by_result p.result
  where
    by_result : (r : Outcome Bool) → (complained p r (processed p k)).preambles ≡ k.preambles
    by_result (returned true) = refl
    by_result (returned false) = refl
    by_result (threw e) = refl
    by_result undefined = refl

preambles-conclude :
    (silent : Bool) (v : Verdict) (k : Kernel) → (conclude silent v k).preambles ≡ k.preambles
unfolding conclude publish send
preambles-conclude true v k =
    if_split (λ (l : Kernel). l.preambles ≡ k.preambles) v.errorlevel (λ _. refl) (λ _. refl)
preambles-conclude false v k =
    if_split (λ (l : Kernel). l.preambles ≡ k.preambles) v.errorlevel (λ _. refl) (λ _. refl)

preambles-verdict_of :
    (silent : Bool) (p : Processed) (r : Outcome Bool) (k : Kernel)
    → (verdict_of silent p r k).1.preambles ≡ k.preambles
preambles-verdict_of silent p undefined k = refl
preambles-verdict_of silent p r k = preambles-conclude silent (judge p.captured_err r) k

preambles-unsilence :
    (silent : Bool) (cout cerr : StreamBuf) (k : Kernel)
    → (unsilence silent cout cerr k).preambles ≡ k.preambles
unfolding unsilence
preambles-unsilence true cout cerr k = refl
preambles-unsilence false cout cerr k = refl

preambles-silence : (silent : Bool) (k : Kernel) → (silence silent k).preambles ≡ k.preambles
unfolding silence
preambles-silence true k = refl
preambles-silence false k = refl

preambles-serve :
    (env : Env) (silent : Bool) (code : Bytes) (o : Option Preamble) (k : Kernel)
    → (serve env silent code o k).1.preambles ≡ k.preambles
unfolding evaluate
preambles-serve env silent code (some p) k =
    preambles-sent (apply env p code k) ∙ preambles-apply env p code k
preambles-serve env silent code none k =
    let p = env.process (c_string code) k.world.files in
    preambles-unsilence silent k.cout k.cerr _
    ∙ preambles-verdict_of silent p p.result (flushed p (silence silent k))
    ∙ preambles-flushed p (silence silent k)
    ∙ preambles-silence silent k

preambles-execute_request :
    (env : Env) (config : Config) (code : Bytes) (k : Kernel)
    → (execute_request env config code k).1.preambles ≡ k.preambles
unfolding execute_request redirect_input restore_input
preambles-execute_request env config code k =
    preambles-serve env config.silent code (first_match code k.preambles)
      (redirect_input config.allow_stdin k)

-- What a kernel may become by requests to execute codes, of which `n` return. The C++ interpreter and the system may have
-- changed from one request to the next. A request that throws leaves the kernel to go on; one whose behaviour is
-- undefined is the last.
pub data Reaches (k : Kernel) : ℕ → Kernel → Type 1 where
  start : Reaches k 0 k
  answered :
      {n : ℕ} {m : Kernel} (env : Env) (config : Config) (code : Bytes)
      → Reaches k n m
      → (execute_request env config code m).0 ≡ returned tt
      → Reaches k (n + 1) (execute_request env config code m).1
  failed :
      {n : ℕ} {m : Kernel} (env : Env) (config : Config) (code : Bytes) (e : Thrown)
      → Reaches k n m
      → (execute_request env config code m).0 ≡ threw e
      → Reaches k n (execute_request env config code m).1

-- One code was evaluated, and not silently, and has left this buffer of its own behind a stream.
abbrev pub Puts : Option Preamble → Bool → Option ℕ → StreamBuf → Type 0
Puts o silent new b = (o ≡ none) × (silent ≡ false) × (i : ℕ) × (new ≡ some i) × (b ≡ another i)

-- Some code among the requests has. The first argument tells which stream is meant.
abbrev pub PutBy :
    {k : Kernel}
    → (Processed → Option ℕ)
    → {n : ℕ} {k' : Kernel} → Reaches k n k'
    → StreamBuf
    → Type 0
PutBy new start b = ⊥
PutBy new (answered {m = m} env config code r e) b =
    Puts (first_match code m.preambles) config.silent (new (process_of env code m)) b
    ⊎ PutBy new r b
PutBy new (failed {m = m} env config code t r e) b =
    Puts (first_match code m.preambles) config.silent (new (process_of env code m)) b
    ⊎ PutBy new r b

-- A stream has its buffer of before, or one that a code among the requests has put there.
abbrev pub Kept : (StreamBuf → Type 0) → StreamBuf → StreamBuf → Type 0
Kept P b b' = (b' ≡ b) ⊎ P b'

Kept-same :
    (P Q : StreamBuf → Type 0) (a b c : StreamBuf) → Kept P a b → c ≡ b → Kept (λ d. Q d ⊎ P d) a c
Kept-same P Q a b c (inl x) e = inl (e ∙ x)
Kept-same P Q a b c (inr y) e = inr (inr (rw e y))

Kept-behind :
    (P : StreamBuf → Type 0) (o : Option Preamble) (silent : Bool) (new : Option ℕ)
    (a b c : StreamBuf)
    → Kept P a b
    → c ≡ behind o silent new b
    → Kept (λ d. Puts o silent new d ⊎ P d) a c
Kept-behind P (some p) silent new a b c h e = Kept-same P (Puts (some p) silent new) a b c h e
Kept-behind P none true new a b c h e = Kept-same P (Puts none true new) a b c h e
Kept-behind P none false none a b c h e = Kept-same P (Puts none false none) a b c h e
Kept-behind P none false (some i) a b c h e = inr (inl (refl, refl, i, refl, e))

-- Behind the replies of before there are `n` more.
abbrev pub Extends : List KernelRes → ℕ → List KernelRes → Type 0
Extends before n after = (more : List KernelRes) × (after ≡ before ++ more) × (length more ≡ n)

-- What all requests keep, and how many replies they have added.
pub record Served (k : Kernel) (n : ℕ) (k' : Kernel) (r : Reaches k n k') : Type 0 where
  pub preambles : k'.preambles ≡ k.preambles
  pub cin : k'.cin ≡ k.cin
  pub cout : Kept (PutBy (λ p. p.new_cout) r) k.cout k'.cout
  pub cerr : Kept (PutBy (λ p. p.new_cerr) r) k.cerr k'.cerr
  pub replies : Extends k.replies n k'.replies

Extends-answered :
    (first before after : List KernelRes) (n : ℕ) (o : Outcome (Unit {0}))
    → Extends first n before
    → RepliedBy before o after
    → o ≡ returned tt
    → Extends first (n + 1) after
Extends-answered first before after n (returned u) (more, e, l) (res, h) r = (
  more ++ res ∷ [],
  h ∙ ap (λ b. b ++ res ∷ []) e ∙ append_assoc first more (res ∷ []),
  omega (arith, l, length-append {0} more (res ∷ [])),
)
Extends-answered first before after n (threw t) x h r = cc
Extends-answered first before after n undefined x h r = cc

RepliedBy-failed :
    (before after : List KernelRes) (o : Outcome (Unit {0})) (t : Thrown)
    → RepliedBy before o after
    → o ≡ threw t
    → after ≡ before
RepliedBy-failed before after (returned u) t h e = cc
RepliedBy-failed before after (threw d) t h e = h
RepliedBy-failed before after undefined t h e = cc

-- Whatever sequence of codes a kernel is asked to execute: it keeps its preambles and the buffer of `std::cin`; behind
-- `std::cout` it has the buffer of before, or one that a code of the sequence, which no preamble took and which was not
-- executed silently, has left there, and so it is with `std::cerr`; and behind the replies of before it has sent one for
-- each request that returned.
pub Reaches-Served : (k : Kernel) {n : ℕ} {k' : Kernel} (r : Reaches k n k') → Served k n k' r
Reaches-Served k start = record {
  preambles = refl;
  cin = refl;
  cout = inl refl;
  cerr = inl refl;
  replies = ([], sym (append-nil k.replies), refl);
}
Reaches-Served k (answered {m = m} env config code r e) =
    let h = Reaches-Served k r in
    let s = execute_request-streams env config code m in
    record {
      preambles = preambles-execute_request env config code m ∙ h.preambles;
      cin = s.0 ∙ h.cin;
      cout =
          Kept-behind (PutBy (λ p. p.new_cout) r) (first_match code m.preambles) config.silent _
            k.cout m.cout _ h.cout s.1;
      cerr =
          Kept-behind (PutBy (λ p. p.new_cerr) r) (first_match code m.preambles) config.silent _
            k.cerr m.cerr _ h.cerr s.2;
      replies =
          Extends-answered k.replies m.replies _ _ _ h.replies
            (execute_request-RepliedBy env config code m) e;
    }
Reaches-Served k (failed {m = m} env config code t r e) =
    let h = Reaches-Served k r in
    let s = execute_request-streams env config code m in
    record {
      preambles = preambles-execute_request env config code m ∙ h.preambles;
      cin = s.0 ∙ h.cin;
      cout =
          Kept-behind (PutBy (λ p. p.new_cout) r) (first_match code m.preambles) config.silent _
            k.cout m.cout _ h.cout s.1;
      cerr =
          Kept-behind (PutBy (λ p. p.new_cerr) r) (first_match code m.preambles) config.silent _
            k.cerr m.cerr _ h.cerr s.2;
      replies =
          rw (RepliedBy-failed m.replies _ _ t (execute_request-RepliedBy env config code m) e)
            h.replies;
    }
