-- ===== src/Parser.antt =====
-- `trim` and `split_line` of src/xparser.cpp.
pub mod Strip
pub mod Trim
pub mod Split
use xeus_cpp.Base.{
  ℕ, suc, ◌+◌, ◌-◌, ◌%◌, ◌^◌, Bool, true, false, not, ◌&&◌, ◌||◌, List, [], ◌∷◌, ◌++◌, Option, none,
  some, ◌==◌, leb, ltb, if◌then◌else◌, Bytes, length, take, drop, is_empty, contains,
}

-- `std::size_t` of a 64-bit target, and `std::string::npos`.
abbrev pub size_mod : ℕ
size_mod = 2 ^ 64

abbrev pub npos : ℕ
npos = 2 ^ 64 - 1

-- `find_first_not_of` and `find_last_not_of` of one character; `none` where they return `npos`.
unfoldable pub find_first_not_of : ℕ → Bytes → Option ℕ
find_first_not_of c [] = none
find_first_not_of c (x ∷ xs) =
    if not (x == c)
    then some 0
    else elim (find_first_not_of c xs) [ none ↦ none | some i ↦ some (suc i) ]

unfoldable pub find_last_not_of : ℕ → Bytes → Option ℕ
find_last_not_of c [] = none
find_last_not_of c (x ∷ xs) = elim (find_last_not_of c xs) [
  | none ↦ if not (x == c) then some 0 else none
  | some i ↦ some (suc i)
]

abbrev pub get_or_else : Option ℕ → ℕ → ℕ
get_or_else none d = d
get_or_else (some i) d = i

-- `substr`; `none` where it throws `std::out_of_range`.
unfoldable pub substr : Bytes → ℕ → ℕ → Option Bytes
substr s pos n = if leb pos (length s) then some (take n (drop pos s)) else none

-- `last - first + 1` wraps around.
unfoldable pub trim : Bytes → Option Bytes
trim str =
    let first = get_or_else (find_first_not_of b' ' str) (length str) in
    let last = get_or_else (find_last_not_of b' ' str) npos in
    if is_empty str then some str else substr str first ((last + size_mod - first + 1) % size_mod)

-- The pieces between the bytes that match, as `std::sregex_token_iterator` gives them for the
-- submatch -1: an empty piece behind the last match is left out.
unfoldable pub pieces : (ℕ → Bool) → Bytes → Bytes → List Bytes
pieces matches piece [] = if is_empty piece then [] else piece ∷ []
pieces matches piece (c ∷ p) =
    let here = piece ∷ pieces matches [] p in
    let on = pieces matches (piece ++ c ∷ []) p in if matches c then here else on

-- A backslash and such a byte stand for the byte in a character class of a regular expression. (Before a
-- letter or a digit the backslash would make another escape.)
unfoldable pub escapes_itself : ℕ → Bool
escapes_itself c = not (
    (leb b'0' c && leb c b'9')
    || (leb b'A' c && leb c b'Z')
    || (leb b'a' c && leb c b'z')
    || c == b'_'
    || leb 128 c)

abbrev pub all_escape : Bytes → Bool
all_escape [] = true
all_escape (c ∷ cs) = escapes_itself c && all_escape cs

-- The range is the first `cursor_pos + 1` bytes. With the cursor at the end it takes the string's
-- terminating zero in. `none` for a range that ends behind the zero, and for delimiters that do not escape
-- to themselves.
unfoldable pub split_line : Bytes → Bytes → ℕ → Option (List Bytes)
split_line input delims cursor_pos =
    if all_escape delims && leb cursor_pos (length input)
    then some (pieces (contains delims) [] (take (suc cursor_pos) (input ++ 0 ∷ [])))
    else none
