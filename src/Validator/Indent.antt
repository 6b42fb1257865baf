-- ===== src/Validator/Indent.antt =====
-- How deep the stack of `validate` can get, and the indent that is expected of the next line.
use xeus_cpp.Base.{
  ℕ, zero, suc, ◌+◌, ◌*◌, ◌%◌, ◌≤◌, ◌<◌, ◌≡◌, refl, ap, sym, ◌∙◌, Bool, [], ◌∷◌, ◌++◌, List, arith,
  Bytes, length, length-append, replicate, if_split,
}
use xeus_cpp.Base.Run.{
  Run, done, Ensures, Ensures-bind, Ensures-mono, Ensures-done, >>=-eq-done, done-injective,
}
use native.Mathlib.Nat.{le_dest, add-mul}
use xeus_cpp.Token.{TokenKind}
use xeus_cpp.Pattern.{run, after_run}
use xeus_cpp.Lexer.Progress.{
  skip_whitespace-Follows, read_to_end_of_line-Follows, lex_any_string-Follows, lex-shorter,
}
use xeus_cpp.Lexer.{
  is_whitespace, in_blanks, skip_while, skip_whitespace, lex_any_string, read_to_end_of_line, lex,
}
use xeus_cpp.Scan.Fuel.{scan-Ensures}
use xeus_cpp.Scan.{
  Scan, ValidationResult, pop_back, pop_template, switch, directive, close_conditional,
  close_bracket, push_kind, handle, received, scan_step, scan,
}
use xeus_cpp.Parser.{size_mod}
use xeus_cpp.Validator.{
  Validator, new_validator, check_template, indent_size, new_indent, validate, start, is_template,
  is_complete_request, get_expected_indent,
}

-- The open parents and the bytes that are left: a round adds one parent at most to what it leaves of them.
abbrev measure : Scan → ℕ
measure s = length s.parent_stack + length s.cursor

abbrev Grows : Scan → Run Scan → Type 0
Grows s = Ensures (λ t. measure t ≤ suc (measure s))

length-pop_back : (ks : List ℕ) → length (pop_back ks) ≤ length ks
length-pop_back [] = omega arith
length-pop_back (k ∷ ks) = omega arith

length-pop_template : (ks : List ℕ) → length (pop_template ks) ≤ length ks
unfolding pop_template
length-pop_template ks = ground (arith, length-pop_back ks)

directive-Grows : (s : Scan) → measure (directive s) ≤ suc (measure s)
unfolding directive close_conditional
directive-Grows s = ground arith

close_bracket-Grows : (s : Scan) → measure (close_bracket s) ≤ suc (measure s)
unfolding close_bracket
close_bracket-Grows s =
    ground (arith, length-pop_back s.parent_stack, length-pop_template (pop_back s.parent_stack))

switch-Grows : (k : TokenKind) (s : Scan) → Grows s (switch k s)
unfolding switch push_kind
switch-Grows TokenKind.comment s =
    Ensures-bind _ _ (read_to_end_of_line s.cursor) _ (read_to_end_of_line-Follows s.cursor)
      (λ x h. omega arith)
switch-Grows TokenKind.hash s =
    Ensures-bind _ _ (skip_whitespace s.cursor) _ (skip_whitespace-Follows s.cursor) λ x h.
      Ensures-bind _ _ (lex_any_string x.1) _ (lex_any_string-Follows x.1)
        λ y k. omega (arith, directive-Grows (record s { tok = y.0; cursor = y.1 }))
switch-Grows TokenKind.r_square s = close_bracket-Grows s
switch-Grows TokenKind.r_paren s = close_bracket-Grows s
switch-Grows TokenKind.r_brace s = close_bracket-Grows s
switch-Grows TokenKind.semicolon s = ground (arith, length-pop_template s.parent_stack)
switch-Grows TokenKind.r_comment s = ground (arith, length-pop_back s.parent_stack)
switch-Grows _ s = ground arith

handle-Grows : (s : Scan) → Grows s (handle s)
unfolding handle
handle-Grows s =
    if_split (Grows s) _ {x = done s} (λ _. omega arith) (λ _. switch-Grows s.tok.kind s)

scan_step-Grows : (m : ℕ) (s : Scan) → measure s ≤ m → Ensures (λ t. measure t ≤ m) (scan_step s)
unfolding scan_step
scan_step-Grows m s h = Ensures-bind _ _ (lex s.cursor) _ (lex-shorter s.cursor) λ x k.
    Ensures-mono _ _ (handle (received s x.0 x.1)) (handle-Grows (received s x.0 x.1))
      (λ t l. omega arith)

-- The blanks that the input begins with.
abbrev pub blanks : Bytes → ℕ
blanks input = length (run is_whitespace input)

skip_while-blanks :
    (input : Bytes)
    → skip_while in_blanks (input ++ 0 ∷ []) ≡ done (after_run is_whitespace input ++ 0 ∷ [])
unfolding skip_while run after_run is_whitespace
skip_while-blanks [] = refl
skip_while-blanks (c ∷ p) = ground (arith, skip_while-blanks p)

length-run :
    (test : ℕ → Bool) (p : Bytes) → length p ≡ length (run test p) + length (after_run test p)
unfolding run after_run
length-run test [] = omega arith
length-run test (c ∷ p) = ground (arith, length-run test p)

pub skip_whitespace-blanks :
    (input : Bytes)
    → skip_whitespace (input ++ 0 ∷ [])
      ≡ done (blanks input, after_run is_whitespace input ++ 0 ∷ [])
unfolding skip_whitespace
skip_whitespace-blanks input =
    let rest = after_run is_whitespace input in
    rw (skip_while-blanks input) (
      ap (λ n. done (n, rest ++ 0 ∷ []))
        (omega (
          arith,
          length-run is_whitespace input,
          length-append {0} input (0 ∷ []),
          length-append {0} rest (0 ∷ []),
        )))

check_template-length :
    (ks : List ℕ) (p : Bytes) → Ensures (λ js. length js ≤ length ks + 1) (check_template ks p)
unfolding check_template
check_template-length [] p =
    Ensures-bind _ _ (skip_whitespace p) _ (skip_whitespace-Follows p) λ x _.
      Ensures-bind _ _ (lex x.1) _ (lex-shorter x.1) λ y _.
        if_split (λ (js : List ℕ). length js ≤ 1) (is_template y.0) (λ _. omega arith)
          (λ _. omega arith)
check_template-length (k ∷ ks) p = omega arith

-- The validator behind an input: how many parents are open, and its indent.
pub record Indented (v : Validator) (input : Bytes) (nb_char_indent : ℕ) (w : Validator)
    : Type 0 where
  pub depth : length w.parent_stack ≤ length v.parent_stack + length input + 2
  pub indent :
      w.indent
      ≡ new_indent ((blanks input + length w.parent_stack * nb_char_indent) % size_mod) v.indent

validate-Indented :
    (v : Validator) (input : Bytes) (nb_char_indent : ℕ)
    → Ensures (λ x. Indented v input nb_char_indent x.0) (validate v input nb_char_indent)
unfolding validate indent_size
validate-Indented v input n =
    let buffer : Bytes = input ++ 0 ∷ [] in
    Ensures-bind _ _ (check_template v.parent_stack buffer) _
      (check_template-length v.parent_stack buffer)
      λ ks k. rw (skip_whitespace-blanks input) (
        Ensures-bind _ _
          (scan (suc (length buffer)) (start (after_run is_whitespace input ++ 0 ∷ []) ks)) _
          (scan-Ensures (λ s. measure s ≤ length ks + length buffer)
            (scan_step-Grows (length ks + length buffer)) _ (start _ ks) (omega (arith, shorter))
            (omega (arith, shorter)))
          λ s h. record {
            depth = omega (arith, k, h, length-append {0} input (0 ∷ []));
            indent = refl;
          })
  where
    shorter : length (after_run is_whitespace input ++ 0 ∷ []) ≤ length (input ++ 0 ∷ [])
    shorter = omega (
      arith,
      length-run is_whitespace input,
      length-append {0} input (0 ∷ []),
      length-append {0} (after_run is_whitespace input) (0 ∷ []),
    )

-- So many spaces, or the indent of before if it would be empty.
abbrev pub expected_indent : ℕ → Bytes → Bytes
expected_indent zero before = before
expected_indent (suc n) before = b' ' ∷ replicate n b' '

new_indent-expected : (n : ℕ) (before : Bytes) → new_indent n before ≡ expected_indent n before
unfolding new_indent
new_indent-expected zero before = refl
new_indent-expected (suc n) before = ground arith

mul_le_right : (a b n : ℕ) → a ≤ b → a * n ≤ b * n
mul_le_right a b n h = let (k, e) = le_dest h in rw⁻¹ e (omega (arith, add-mul a k n))

mod_size : (n : ℕ) → n < size_mod → n % size_mod ≡ n
mod_size n h = omega arith

-- The parents that are open behind an input are at most two more than those that were open before and the bytes of the input together.
-- The indent that is expected behind it is made of spaces, as many as the blanks that the input begins with and
-- `nb_char_indent` for each open parent, without a wrap-around; it is the indent of before if these are none. The sum
-- has to stay below 2^64 for the most parents that there can be.
pub validate-depth :
    (v : Validator) (input : Bytes) (nb_char_indent : ℕ) {w : Validator} {res : ValidationResult}
    → length input + (length v.parent_stack + length input + 2) * nb_char_indent < size_mod
    → validate v input nb_char_indent ≡ done (w, res)
    → (length w.parent_stack ≤ length v.parent_stack + length input + 2)
      × (w.indent
          ≡ expected_indent (blanks input + length w.parent_stack * nb_char_indent) v.indent)
validate-depth v input n {w} {res} small e =
    let h : Indented v input n w =
      Ensures-done (λ x. Indented v input n x.0) (validate-Indented v input n) e in
    let deep =
      mul_le_right (length w.parent_stack) (length v.parent_stack + length input + 2) n h.depth in
    (
      h.depth,
      h.indent
          ∙ ap (λ m. new_indent m v.indent)
              (mod_size (blanks input + length w.parent_stack * n)
                (omega (arith, small, deep, length-run is_whitespace input)))
          ∙ new_indent-expected _ v.indent,
    )

expected_indent-nil : (n : ℕ) → expected_indent n [] ≡ replicate n b' '
expected_indent-nil zero = refl
expected_indent-nil (suc n) = refl

-- The reply to a request whether an input is complete, for an input of less than (2^64 - 8) / 5 bytes: the indent is made of spaces, as
-- many as the blanks that the input begins with and four for each open parent, of which there are at most two more than the
-- bytes of the input.
pub is_complete_request-indent :
    (input : Bytes) {status indent : Bytes}
    → 5 * length input + 8 < size_mod
    → is_complete_request input ≡ done (status, indent)
    → (depth : ℕ) × (depth ≤ length input + 2)
      × (indent ≡ replicate (blanks input + depth * 4) b' ')
unfolding is_complete_request get_expected_indent
is_complete_request-indent input {status} {indent} small e =
    let (x, f, g) = >>=-eq-done (validate new_validator input 4) _ e in
    let (deep, i) = validate-depth new_validator input 4 (omega (arith, small)) f in
    let same : x.0.indent ≡ indent = ap (λ r. r.1) (done-injective g) in
    (length x.0.parent_stack, omega (arith, deep), sym same ∙ i ∙ expected_indent-nil _)
