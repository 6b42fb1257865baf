-- ===== src/Question.antt =====
-- `interpreter::inspect_request_impl` of src/xinterpreter.cpp: the documentation of what stands in front of the cursor.
pub mod Suffix
use xeus_cpp.Base.{
  ℕ, Bool, true, false, ◌&&◌, ◌||◌, ◌==◌, [], ◌∷◌, List, Option, none, some, Bytes, take, is_empty,
  if◌then◌else◌,
}
use xeus_cpp.Pattern.{is_word, is_any, after_run}
use xeus_cpp.World.{M, pure, raise, other, flush_out, ◌>>◌}
use xeus_cpp.Inspect.{XmlLib, Interop, Entry, inspect, build_inspect_data}

-- `(\.?)*$`
unfoldable pub all_dots : Bytes → Bool
all_dots [] = true
all_dots (c ∷ p) = c == b'.' && all_dots p

-- `.*`, the closing byte, and the dots.
unfoldable pub closes : ℕ → Bytes → Bool
closes b [] = false
closes b (c ∷ p) = (c == b && all_dots p) || (is_any c && closes b p)

abbrev pub second_colon : Bytes → Bool
second_colon [] = false
second_colon (c ∷ p) = c == b':' && all_dots p

-- `(?:\:{2}|\<.*\>|\(.*\)|\[.*\])?` and the dots.
unfoldable pub is_group : Bytes → Bool
is_group [] = true
is_group (c ∷ p) =
    all_dots (c ∷ p)
    || (c == b':' && second_colon p)
    || (c == b'<' && closes b'>' p)
    || (c == b'(' && closes b')' p)
    || (c == b'[' && closes b']' p)

-- The expression matches the whole text. The word goes as far as it can: none of what may follow begins with a byte of a
-- word.
unfoldable pub is_tail : Bytes → Bool
is_tail p = is_group (after_run is_word p)

-- The search takes the first place from which the text matches up to its end.
unfoldable pub question_in : Bytes → Bytes
question_in [] = []
question_in (c ∷ p) = let rest = question_in p in if is_tail (c ∷ p) then c ∷ p else rest

-- The arguments of `xeus::create_inspect_reply`: nothing was found, or a page, as plain text and as HTML.
pub data InspectReply : Type 0 where
  not_found : InspectReply
  found : Bytes × Bytes → InspectReply

-- The flush at the end of `inspect`, and the reply to what it gives; `none` where it throws.
abbrev pub answer_of : Option Bytes → M InspectReply
answer_of none = raise other
answer_of (some result) =
    flush_out >> pure (if is_empty result then not_found else found (build_inspect_data result))

-- What is done, and the counter of `find_type_slow` behind it.
unfoldable pub inspect_request :
    XmlLib → Interop → Bytes → List Entry → ℕ → Bytes → ℕ → M InspectReply × ℕ
inspect_request xml cpp tagfile_dir tagconfs var_count code cursor_pos =
    let (result, n) =
      inspect xml cpp tagfile_dir tagconfs var_count (question_in (take cursor_pos code)) in
    (answer_of result, n)
