-- ===== src/Pattern.antt =====
-- The regular expressions of the preambles and of the magics, in the ECMAScript grammar of `std::regex` and in the
-- "C" locale, as functions on bytes. `^` is the start of the text only.
pub mod Runs
use xeus_cpp.Base.{
  ℕ, Bool, true, false, not, ◌&&◌, ◌||◌, [], ◌∷◌, ◌++◌, ◌==◌, leb, if◌then◌else◌, Bytes, Option,
  none, some, is_empty, is_space,
}

-- `\w`
unfoldable pub is_word : ℕ → Bool
is_word c =
    (leb b'a' c && leb c b'z')
    || (leb b'A' c && leb c b'Z')
    || (leb b'0' c && leb c b'9')
    || c == b'_'

-- `.`
unfoldable pub is_any : ℕ → Bool
is_any c = not (c == b'\n') && not (c == b'\r')

-- The longest prefix of bytes that pass the test, and what is behind it.
unfoldable pub run : (ℕ → Bool) → Bytes → Bytes
run test [] = []
run test (c ∷ p) = let rest = c ∷ run test p in if test c then rest else []

unfoldable pub after_run : (ℕ → Bool) → Bytes → Bytes
after_run test [] = []
after_run test (c ∷ p) = let rest = after_run test p in if test c then rest else c ∷ p

-- The rest behind a byte that the text begins with.
unfoldable pub behind : ℕ → Bytes → Option Bytes
behind b [] = none
behind b (c ∷ p) = if c == b then some p else none

-- `\w+`, as a submatch.
unfoldable pub word_of : Bytes → Option Bytes
word_of p = let w = run is_word p in if is_empty w then none else some w
