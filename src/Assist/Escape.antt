-- ===== src/Assist/Escape.antt =====
-- `escape_special_cases` of src/xmagics/xassist.cpp. A `char` is signed: a byte from 128 on is negative, and
-- `c & 0xFFFF` of it is 0xFF00 and the byte.
pub mod Decode
use xeus_cpp.Base.{
  ℕ, ◌+◌, ◌-◌, ◌/◌, ◌%◌, ◌||◌, [], ◌∷◌, ◌++◌, ◌==◌, ltb, leb, if◌then◌else◌, Bytes, codes,
}

abbrev pub hex_digit : ℕ → ℕ
hex_digit d = if ltb d 10 then b'0' + d else b'a' + (d - 10)

-- `std::hex << std::setw(4) << std::setfill('0')`, of a number below 65536.
unfoldable pub hex4 : ℕ → Bytes
hex4 n =
    hex_digit (n / 4096)
    ∷ hex_digit (n / 256 % 16)
    ∷ hex_digit (n / 16 % 16)
    ∷ hex_digit (n % 16)
    ∷ []

-- `c & 0xFFFF`
abbrev pub low_half : ℕ → ℕ
low_half c = if ltb c 128 then c else 0xff00 + c

-- What the switch appends for one character.
unfoldable pub escape_char : ℕ → Bytes
escape_char c =
    if c == b'\\'
    then codes "\\\\"
    else if c == b'"'
    then codes "\\\""
    else if c == b'\n'
    then codes "\\n"
    else if c == b'\t'
    then codes "\\t"
    else if c == b'\r'
    then codes "\\r"
    else if c == 8
    then codes "\\b"
    else if c == 12
    then codes "\\f"
    else if leb 128 c || ltb c 0x20 || ltb 0x7e c
    then codes "\\u" ++ hex4 (low_half c)
    else c ∷ []

unfoldable pub escape_special_cases : Bytes → Bytes
escape_special_cases [] = []
escape_special_cases (c ∷ input) = escape_char c ++ escape_special_cases input
