-- ===== src/Buffer.antt =====
-- The stream buffers of include/xeus-cpp/xbuffer.hpp. A callback is seen by what it is called with, or by what it
-- leaves in the string that it is given.
pub mod Order
use xeus_cpp.Base.{ℕ, Bytes, Bool, [], ◌∷◌, ◌++◌, List, Option, none, some, is_empty, if◌then◌else◌}

-- The characters that wait in `m_output`, and the strings that `m_callback` was called with, the first one first.
pub record OutputBuffer : Type 0 where
  pub m_output : Bytes
  pub published : List Bytes

unfoldable pub new_output_buffer : OutputBuffer
new_output_buffer = record { m_output = []; published = [] }

-- The argument is `none` for `traits_type::eof()`.
unfoldable pub overflow : Option ℕ → OutputBuffer → Option ℕ × OutputBuffer
overflow none b = (none, b)
overflow (some c) b = (some c, record b { m_output = b.m_output ++ c ∷ [] })

unfoldable pub xsputn : Bytes → OutputBuffer → OutputBuffer
xsputn s b = record b { m_output = b.m_output ++ s }

unfoldable pub sync : OutputBuffer → OutputBuffer
sync b =
    if is_empty b.m_output
    then b
    else record { m_output = []; published = b.published ++ b.m_output ∷ [] }

-- The calls that a stream makes. Each holds the lock from its start to its end, so that the calls of several
-- threads are one sequence.
pub data Call : Type 0 where
  overflow_call : Option ℕ → Call
  xsputn_call : Bytes → Call
  sync_call : Call

unfoldable pub call : Call → OutputBuffer → OutputBuffer
call (overflow_call c) b = (overflow c b).1
call (xsputn_call s) b = xsputn s b
call sync_call b = sync b

unfoldable pub calls : List Call → OutputBuffer → OutputBuffer
calls [] b = b
calls (c ∷ cs) b = calls cs (call c b)

-- `m_value`, and where the get area stands in it.
pub record InputBuffer : Type 0 where
  pub m_value : Bytes
  pub position : ℕ

unfoldable pub new_input_buffer : InputBuffer
new_input_buffer = record { m_value = []; position = 0 }

-- The callback, `input`, replaces the string; the character is the first of the get area.
abbrev pub head_or : Bytes → ℕ
head_or [] = 0
head_or (c ∷ p) = c

unfoldable pub underflow : (Bytes → Bytes) → InputBuffer → ℕ × InputBuffer
underflow input b =
    let value = input b.m_value ++ 10 ∷ [] in
    (head_or value, record { m_value = value; position = 0 })

-- `xnull`.
unfoldable pub overflow_null : Option ℕ → Option ℕ
overflow_null c = c
