-- ===== src/Completion.antt =====
-- `interpreter::complete_request_impl` of src/xinterpreter.cpp. The completion engine,
-- `Cpp::CodeComplete`, is a parameter: it gives the matches for a code, a line and a column.
pub mod Range
use xeus_cpp.Base.{
  ℕ, ◌+◌, Bool, List, [], ◌∷◌, Option, none, some, ◌==◌, if◌then◌else◌, Bytes, codes, length,
  c_string,
}
use xeus_cpp.Base.Int.{ℤ, sub_ℕ}
use xeus_cpp.Parser.Split.{last_piece}
use xeus_cpp.Parser.{split_line}

-- The arguments of `xeus::create_complete_reply`.
pub record CompleteReply : Type 0 where
  pub matches : List Bytes
  pub cursor_start : ℤ
  pub cursor_end : ℕ

unfoldable pub delims : Bytes
delims = codes " \t\n`!@#$^&*()=+[{]}\\|;:'\",<>?."

-- `cursor_pos - to_complete.length()`, handed over as an `int`. `none` where the source's range
-- leaves the code, or `back()` is called on an empty vector.
unfoldable pub complete_request : (Bytes → ℕ → ℕ → List Bytes) → Bytes → ℕ → Option CompleteReply
complete_request code_complete code cursor_pos = elim (split_line code delims cursor_pos) [
  | none ↦ none
  | some text ↦ elim (last_piece text) [
    | none ↦ none
    | some last ↦ some (record {
      matches = code_complete (c_string code) 1 (cursor_pos + 1);
      cursor_start = sub_ℕ cursor_pos (length (c_string last));
      cursor_end = cursor_pos;
    })
  ]
]
