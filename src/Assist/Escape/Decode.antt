-- ===== src/Assist/Escape/Decode.antt =====
-- What a JSON reader makes of an escaped text.
use mathlib.Core.List.{map}
use xeus_cpp.Base.{
  ℕ, zero, suc, ◌+◌, ◌-◌, ◌*◌, ◌/◌, ◌%◌, ◌<◌, ◌≤◌, ◌≡◌, ◌≢◌, refl, sym, ap, ◌∙◌, ◌&&◌, ◌||◌, List,
  [], ◌∷◌, ◌++◌, Option, none, some, ◌==◌, ltb, leb, if◌then◌else◌, arith, Bytes, codes, if_split,
}
use xeus_cpp.Assist.Escape.{hex_digit, hex4, low_half, escape_char, escape_special_cases}

hex_value : ℕ → Option ℕ
hex_value d =
    if leb b'0' d && leb d b'9'
    then some (d - b'0')
    else if leb b'a' d && leb d b'f'
    then some (d - b'a' + 10)
    else if leb b'A' d && leb d b'F'
    then some (d - b'A' + 10)
    else none

-- The two-character escapes of JSON.
short_escape : ℕ → Option ℕ
short_escape c =
    if c == b'"'
    then some b'"'
    else if c == b'\\'
    then some b'\\'
    else if c == b'/'
    then some b'/'
    else if c == b'b'
    then some 8
    else if c == b'f'
    then some 12
    else if c == b'n'
    then some b'\n'
    else if c == b'r'
    then some b'\r'
    else if c == b't'
    then some b'\t'
    else none

abbrev cons_to : Option ℕ → Option (List ℕ) → Option (List ℕ)
cons_to none r = none
cons_to (some c) none = none
cons_to (some c) (some r) = some (c ∷ r)

-- Where a reader stands: in the text, behind a backslash, or before `k + 1` more hexadecimal digits.
pub data Mode : Type 0 where
  in_text behind_backslash : Mode
  in_hex : ℕ → ℕ → Mode

-- The inside of a JSON string literal, read into code units; `none` where it is none.
decode_in : Mode → Bytes → Option (List ℕ)
decode_in in_text [] = some []
decode_in behind_backslash [] = none
decode_in (in_hex k n) [] = none
decode_in in_text (c ∷ p) =
    let escape = decode_in behind_backslash p in
    let rest = cons_to (some c) (decode_in in_text p) in
    if c == b'\\' then escape else if c == b'"' || ltb c 0x20 then none else rest
decode_in behind_backslash (c ∷ p) =
    let unicode = decode_in (in_hex 3 0) p in
    let short = cons_to (short_escape c) (decode_in in_text p) in
    if c == b'u' then unicode else short
decode_in (in_hex zero n) (c ∷ p) = elim (hex_value c) [
  | none ↦ none
  | some x ↦ cons_to (some (n * 16 + x)) (decode_in in_text p)
]
decode_in (in_hex (suc k) n) (c ∷ p) = elim (hex_value c) [
  | none ↦ none
  | some x ↦ decode_in (in_hex k (n * 16 + x)) p
]

unfoldable pub decode : Bytes → Option (List ℕ)
unfolding decode_in hex_value short_escape
decode = decode_in in_text

hex_value-hex_digit : (d : ℕ) → d < 16 → hex_value (hex_digit d) ≡ some d
unfolding hex_value
hex_value-hex_digit d h = ground arith

decode-digit :
    (k n c x : ℕ) (p : Bytes)
    → hex_value c ≡ some x
    → decode_in (in_hex (suc k) n) (c ∷ p) ≡ decode_in (in_hex k (n * 16 + x)) p
unfolding decode_in
decode-digit k n c x p h = ground (arith, h)

decode-last_digit :
    (n c x : ℕ) (p : Bytes)
    → hex_value c ≡ some x
    → decode_in (in_hex 0 n) (c ∷ p) ≡ cons_to (some (n * 16 + x)) (decode_in in_text p)
unfolding decode_in
decode-last_digit n c x p h = ground (arith, h)

decode-hex4 :
    (n : ℕ) (p : Bytes)
    → n < 65536
    → decode_in (in_hex 3 0) (hex4 n ++ p) ≡ cons_to (some n) (decode_in in_text p)
unfolding hex4
decode-hex4 n p h =
    decode-digit 2 0 _ _ _ (hex_value-hex_digit (n / 4096) (omega arith))
    ∙ decode-digit 1 _ _ _ _ (hex_value-hex_digit (n / 256 % 16) (omega arith))
    ∙ decode-digit 0 _ _ _ _ (hex_value-hex_digit (n / 16 % 16) (omega arith))
    ∙ decode-last_digit _ _ _ _ (hex_value-hex_digit (n % 16) (omega arith))
    ∙ ap (λ m. cons_to (some m) (decode_in in_text p)) (omega arith)

decode_unicode :
    (n : ℕ) (p : Bytes)
    → n < 65536
    → decode_in in_text ((codes "\\u" ++ hex4 n) ++ p) ≡ cons_to (some n) (decode_in in_text p)
unfolding decode_in
decode_unicode n p h = decode-hex4 n p h

decode_plain :
    (c : ℕ) (p : Bytes)
    → c ≢ b'\\'
    → c ≢ b'"'
    → 0x20 ≤ c
    → decode_in in_text (c ∷ p) ≡ cons_to (some c) (decode_in in_text p)
unfolding decode_in
decode_plain c p h k l = ground arith

-- One escaped character is read back as one code unit.
abbrev ReadsBack : ℕ → Bytes → Bytes → Type 0
ReadsBack c p m = decode_in in_text (m ++ p) ≡ cons_to (some (low_half c)) (decode_in in_text p)

decode-escape_char : (c : ℕ) (p : Bytes) → c < 256 → ReadsBack c p (escape_char c)
unfolding escape_char decode_in short_escape
decode-escape_char c p h =
    if_split (ReadsBack c p) (c == b'\\') (λ e. short b'\\' b'\\' (ground arith) refl refl)
      λ n1.
        if_split (ReadsBack c p) (c == b'"') (λ e. short b'"' b'"' (ground arith) refl refl)
          λ n2.
            if_split (ReadsBack c p) (c == b'\n') (λ e. short b'n' b'\n' (ground arith) refl refl)
              λ n3.
                if_split (ReadsBack c p) (c == b'\t')
                  (λ e. short b't' b'\t' (ground arith) refl refl)
                  λ n4.
                    if_split (ReadsBack c p) (c == b'\r')
                      (λ e. short b'r' b'\r' (ground arith) refl refl)
                      λ n5.
                        if_split (ReadsBack c p) (c == 8)
                          (λ e. short b'b' 8 (ground arith) refl refl)
                          λ n6.
                            if_split (ReadsBack c p) (c == 12)
                              (λ e. short b'f' 12 (ground arith) refl refl)
                              λ n7.
                                if_split (ReadsBack c p) (leb 128 c || ltb c 0x20 || ltb 0x7e c)
                                  (λ _. decode_unicode (low_half c) p (ground arith))
                                  (λ m.
                                    decode_plain c p (ground arith) (ground arith) (ground arith)
                                    ∙ ap (λ x. cons_to (some x) (decode_in in_text p))
                                        (ground arith))
  where
    short :
        (d v : ℕ)
        → c ≡ v
        → low_half v ≡ v
        → decode_in in_text (b'\\' ∷ d ∷ p) ≡ cons_to (some v) (decode_in in_text p)
        → ReadsBack c p (b'\\' ∷ d ∷ [])
    short d v e l h =
        h ∙ ap (λ x. cons_to (some x) (decode_in in_text p)) (sym l ∙ ap low_half (sym e))

abbrev pub AreBytes : Bytes → Type 0
AreBytes [] = Unit
AreBytes (c ∷ s) = (c < 256) × AreBytes s

-- A JSON reader gets from the escaped text one code unit for each byte: the byte itself if it is ASCII, and for a
-- byte from 128 on the code unit of 0xFF00 and the byte, which is another character.
pub decode-escape_special_cases :
    (s : Bytes) → AreBytes s → decode (escape_special_cases s) ≡ some (map low_half s)
unfolding decode escape_special_cases
decode-escape_special_cases [] h = refl
decode-escape_special_cases (c ∷ s) h =
    decode-escape_char c (escape_special_cases s) h.0
    ∙ ap (cons_to (some (low_half c))) (decode-escape_special_cases s h.1)
