-- ===== src/Launch/Fields.antt =====
-- A reader of a connection file: the fields that it finds in a text, line by line.
use xeus_cpp.Base.{
  ℕ, ◌≡◌, refl, ap, sym, ◌∙◌, Bool, true, false, not, ◌&&◌, [], ◌∷◌, ◌++◌, append_assoc, List,
  Option, none, some, codes, Bytes, ◌==◌, if◌then◌else◌, arith,
}
use xeus_cpp.Pattern.{run, after_run}
use xeus_cpp.Pattern.Runs.{All, Stops, run-append, after_run-append}

-- The first line of a text, and the others.
unfoldable pub lines : Bytes → Bytes × List Bytes
lines [] = ([], [])
lines (c ∷ p) = let (l, ls) = lines p in if c == b'\n' then ([], l ∷ ls) else (c ∷ l, ls)

-- A byte of a value: no end of a line and no comma.
unfoldable pub is_value : ℕ → Bool
is_value c = not (c == b'\n') && not (c == b',')

unfoldable pub is_name : ℕ → Bool
is_name c = not (c == b'"')

-- The rest behind a text that a text begins with.
unfoldable pub without : Bytes → Bytes → Option Bytes
without [] p = some p
without (c ∷ w) [] = none
without (c ∷ w) (d ∷ p) = if c == d then without w p else none

abbrev value_of : Bytes → Option Bytes → Option (Bytes × Bytes)
value_of name none = none
value_of name (some p) = some (name, run is_value p)

abbrev name_of : Option Bytes → Option (Bytes × Bytes)
name_of none = none
name_of (some p) = value_of (run is_name p) (without (codes "\": ") (after_run is_name p))

-- A field of the object: a name in quotes, and the text of its value.
unfoldable pub field : Bytes → Option (Bytes × Bytes)
field l = name_of (without (codes "    \"") l)

abbrev cons_some : Option (Bytes × Bytes) → List (Bytes × Bytes) → List (Bytes × Bytes)
cons_some none fs = fs
cons_some (some f) fs = f ∷ fs

unfoldable pub fields_in : List Bytes → List (Bytes × Bytes)
fields_in [] = []
fields_in (l ∷ ls) = cons_some (field l) (fields_in ls)

abbrev fields_of : Bytes × List Bytes → List (Bytes × Bytes)
fields_of (l, ls) = fields_in (l ∷ ls)

unfoldable pub fields : Bytes → List (Bytes × Bytes)
fields text = fields_of (lines text)

abbrev pub quoted : Bytes → Bytes
quoted value = codes "\"" ++ value ++ codes "\""

lines-append : (p q : Bytes) → All is_value p → lines (p ++ q) ≡ (p ++ (lines q).0, (lines q).1)
unfolding lines is_value
lines-append [] q h = refl
lines-append (c ∷ p) q h =
    let n : (c == 10) ≡ false = ground arith in rw (lines-append p q h.1, n) refl

is_value-quote : is_value b'"' ≡ true
unfolding is_value
is_value-quote = refl

All-quoted : (value : Bytes) → All is_value value → All is_value (value ++ b'"' ∷ [])
All-quoted [] h = (is_value-quote, tt)
All-quoted (c ∷ p) h = (h.0, All-quoted p h.1)

-- A line that is a field, with a name that is a word.
abbrev pub line_of : Bytes → Bytes → Bytes → Bytes
line_of name value rest = codes "    \"" ++ (name ++ (codes "\": " ++ (value ++ rest)))

IsWord : Bytes → Type 0
IsWord name = All is_value name × All is_name name

field-line_of :
    (name value rest : Bytes)
    → All is_name name
    → All is_value value
    → Stops is_value rest
    → field (line_of name value rest) ≡ some (name, value)
unfolding field without is_name
field-line_of name value rest n v s =
    rw
      (
        after_run-append is_name name (codes "\": " ++ (value ++ rest)) n refl,
        run-append is_name name (codes "\": " ++ (value ++ rest)) n refl,
        run-append is_value value rest v s,
      )
      refl

lines-line_of :
    (name value rest : Bytes)
    → All is_value name
    → All is_value value
    → lines (line_of name value rest) ≡ (line_of name value (lines rest).0, (lines rest).1)
unfolding lines
lines-line_of name value rest n v =
    rw (lines-append name (codes "\": " ++ (value ++ rest)) n, lines-append value rest v) refl

fields-line_of :
    (name value rest : Bytes)
    → All is_value name
    → All is_name name
    → All is_value value
    → Stops is_value (lines rest).0
    → fields (line_of name value rest) ≡ (name, value) ∷ fields_in (lines rest).1
unfolding fields fields_in
fields-line_of name value rest n m v s =
    ap fields_of (lines-line_of name value rest n v)
    ∙ ap (λ f. cons_some f (fields_in (lines rest).1))
        (field-line_of name value (lines rest).0 m v s)

-- A string is in quotes.
fields-quoted :
    (name value rest : Bytes)
    → All is_value name
    → All is_name name
    → All is_value value
    → Stops is_value (lines rest).0
    → fields (line_of name (b'"' ∷ value) (b'"' ∷ rest))
      ≡ (name, quoted value) ∷ fields_in (lines rest).1
fields-quoted name value rest n m v s =
    ap (λ t. fields (line_of name [] (b'"' ∷ t))) (sym (append_assoc value (b'"' ∷ []) rest))
    ∙ fields-line_of name (quoted value) rest n m (is_value-quote, All-quoted value v) s

abbrev pub next : Bytes → Bytes
next text = b',' ∷ b'\n' ∷ text

-- Every byte of a name passes the two tests.
abbrev pub is_named : Bytes → Bool
is_named [] = true
is_named (c ∷ p) = (is_value c && is_name c) && is_named p

pub named-value : (name : Bytes) → is_named name ≡ true → All is_value name
named-value [] e = tt
named-value (c ∷ p) e = (ground arith, named-value p (ground arith))

named-name : (name : Bytes) → is_named name ≡ true → All is_name name
named-name [] e = tt
named-name (c ∷ p) e = (ground arith, named-name p (ground arith))

comma-Stops : is_value b',' ≡ false
unfolding is_value
comma-Stops = refl

-- A field, in front of fields that are read.
pub string_field :
    (name value text : Bytes) {fs : List (Bytes × Bytes)}
    → is_named name ≡ true
    → All is_value value
    → fields text ≡ fs
    → fields (line_of name (b'"' ∷ value) (b'"' ∷ next text)) ≡ (name, quoted value) ∷ fs
unfolding fields lines fields_in
string_field name value text e v h =
    fields-quoted name value (next text) (named-value name e) (named-name name e) v comma-Stops
    ∙ ap (◌∷◌ (name, quoted value)) h

pub number_field :
    (name value text : Bytes) {fs : List (Bytes × Bytes)}
    → is_named name ≡ true
    → All is_value value
    → fields text ≡ fs
    → fields (line_of name value (next text)) ≡ (name, value) ∷ fs
unfolding fields lines fields_in
number_field name value text e v h =
    fields-line_of name value (next text) (named-value name e) (named-name name e) v comma-Stops
    ∙ ap (◌∷◌ (name, value)) h

pub last_field :
    (name value : Bytes)
    → is_named name ≡ true
    → All is_value value
    → fields (line_of name (b'"' ∷ value) (b'"' ∷ codes "\n}\n```\n")) ≡ (name, quoted value) ∷ []
unfolding lines fields_in field without
last_field name value e v =
    fields-quoted name value (codes "\n}\n```\n") (named-value name e) (named-name name e) v tt
