-- ===== src/Buffer/Order.antt =====
-- What is published of what was written.
use xeus_cpp.Base.{
  Bytes, true, false, [], ◌∷◌, ◌++◌, List, ◌≡◌, refl, ap, sym, ◌∙◌, append_assoc, append-nil, none,
  some, is_empty, arith, Bool-cases, inl, inr,
}
use xeus_cpp.Buffer.{
  OutputBuffer, Call, overflow_call, xsputn_call, sync_call, new_output_buffer, overflow, xsputn,
  sync, call, calls,
}

-- The text of a call, and of a sequence of calls.
unfoldable pub text : Call → Bytes
text (overflow_call none) = []
text (overflow_call (some c)) = c ∷ []
text (xsputn_call s) = s
text sync_call = []

unfoldable pub texts : List Call → Bytes
texts [] = []
texts (c ∷ cs) = text c ++ texts cs

unfoldable pub concat : List Bytes → Bytes
concat [] = []
concat (p ∷ ps) = p ++ concat ps

-- Everything that the buffer was given, in its order.
abbrev pub everything : OutputBuffer → Bytes
everything b = concat b.published ++ b.m_output

-- None of the strings is empty.
unfoldable pub NoneEmpty : List Bytes → Type 0
NoneEmpty [] = Unit
NoneEmpty (p ∷ ps) = (is_empty p ≡ false) × NoneEmpty ps

pub concat-append : (ps : List Bytes) (p : Bytes) → concat (ps ++ p ∷ []) ≡ concat ps ++ p
unfolding concat
concat-append [] p = (append-nil _)
concat-append (q ∷ ps) p = ap (◌++◌ q) (concat-append ps p) ∙ sym (append_assoc q (concat ps) p)

NoneEmpty-append :
    (ps : List Bytes) (p : Bytes) → NoneEmpty ps → is_empty p ≡ false → NoneEmpty (ps ++ p ∷ [])
unfolding NoneEmpty
NoneEmpty-append [] p h e = (e, tt)
NoneEmpty-append (q ∷ ps) p h e = (h.0, NoneEmpty-append ps p h.1 e)

is_empty-nil : (p : Bytes) → is_empty p ≡ true → p ≡ []
is_empty-nil [] e = refl
is_empty-nil (c ∷ p) e = ground (arith, e)

pub sync-everything : (b : OutputBuffer) → everything (sync b) ≡ everything b
unfolding sync
sync-everything b = elim (Bool-cases (is_empty b.m_output)) [
  | inl e ↦ rw e
  | inr e ↦ rw e ((append-nil _) ∙ concat-append b.published b.m_output)
]

call-everything : (c : Call) (b : OutputBuffer) → everything (call c b) ≡ everything b ++ text c
unfolding call text overflow xsputn
call-everything (overflow_call none) b = sym (append-nil (everything b))
call-everything (overflow_call (some c)) b =
    sym (append_assoc (concat b.published) b.m_output (c ∷ []))
call-everything (xsputn_call s) b = sym (append_assoc (concat b.published) b.m_output s)
call-everything sync_call b = sync-everything b ∙ sym (append-nil (everything b))

pub xsputn-everything : (s : Bytes) (b : OutputBuffer) → everything (xsputn s b) ≡ everything b ++ s
unfolding xsputn
xsputn-everything s b = sym (append_assoc (concat b.published) b.m_output s)

pub calls-everything :
    (cs : List Call) (b : OutputBuffer) → everything (calls cs b) ≡ everything b ++ texts cs
unfolding calls texts
calls-everything [] b = sym (append-nil (everything b))
calls-everything (c ∷ cs) b =
    calls-everything cs (call c b)
    ∙ ap (λ t. t ++ texts cs) (call-everything c b)
    ∙ append_assoc (everything b) (text c) (texts cs)

call-NoneEmpty :
    (c : Call) (b : OutputBuffer) → NoneEmpty b.published → NoneEmpty (call c b).published
unfolding call overflow xsputn sync
call-NoneEmpty (overflow_call none) b h = h
call-NoneEmpty (overflow_call (some c)) b h = h
call-NoneEmpty (xsputn_call s) b h = h
call-NoneEmpty sync_call b h = elim (Bool-cases (is_empty b.m_output)) [
  | inl e ↦ rw e h
  | inr e ↦ rw e (NoneEmpty-append b.published b.m_output h e)
]

calls-NoneEmpty :
    (cs : List Call) (b : OutputBuffer) → NoneEmpty b.published → NoneEmpty (calls cs b).published
unfolding calls
calls-NoneEmpty [] b h = h
calls-NoneEmpty (c ∷ cs) b h = calls-NoneEmpty cs (call c b) (call-NoneEmpty c b h)

pub sync-m_output : (b : OutputBuffer) → (sync b).m_output ≡ []
unfolding sync
sync-m_output b = elim (Bool-cases (is_empty b.m_output)) [
  | inl e ↦ rw e (is_empty-nil b.m_output e)
  | inr e ↦ rw e
]

-- After any calls of the buffer and a flush, what was published is exactly the text that was written, in its
-- order and with nothing lost, repeated or left waiting, and no string that was published is empty.
pub sync-calls :
    (cs : List Call)
    → let b : OutputBuffer = sync (calls cs new_output_buffer) in
      (concat b.published ≡ texts cs) × (b.m_output ≡ []) × NoneEmpty b.published
unfolding new_output_buffer NoneEmpty call concat
sync-calls cs =
    let b : OutputBuffer = calls cs new_output_buffer in
    (
      sym (append-nil (concat (sync b).published))
          ∙ ap (λ t. concat (sync b).published ++ t) (sym (sync-m_output b))
          ∙ sync-everything b
          ∙ calls-everything cs new_output_buffer,
      sync-m_output b,
      call-NoneEmpty sync_call b (calls-NoneEmpty cs new_output_buffer tt),
    )

-- The text was added to all that a buffer was given, and nothing waits in it.
abbrev pub Flushed : OutputBuffer → Bytes → OutputBuffer → Type 0
Flushed b text b' = (everything b' ≡ everything b ++ text) × (b'.m_output ≡ [])

pub Flushed-sync :
    (b b' : OutputBuffer) (text : Bytes)
    → everything b' ≡ everything b ++ text
    → Flushed b text (sync b')
Flushed-sync b b' text h = (sync-everything b' ∙ h, sync-m_output b')

pub Flushed-sync_twice :
    (b b' : OutputBuffer) (text : Bytes)
    → everything b' ≡ everything b ++ text
    → Flushed b text (sync (sync b'))
Flushed-sync_twice b b' text h = Flushed-sync b (sync b') text (sync-everything b' ∙ h)
