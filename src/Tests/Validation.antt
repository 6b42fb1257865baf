-- ===== src/Tests/Validation.antt =====
-- Runs of the validator.
use Prim.Native.String.{String}
use xeus_cpp.Base.{◌≡◌, refl, codes, Bytes}
use xeus_cpp.Base.Run.{Run, done, out_of_bounds}
use xeus_cpp.Token.{as_int, kind_of_int, is_kind, identifier, closes_brace}
use xeus_cpp.Lexer.{
  is_alpha, is_digit, is_punctuator, is_quoted_string, is_whitespace, skip_while, skip_whitespace,
  lex_whitespace, is_word, lex_identifier, lex_constant, lex_any_string, read_to_end_of_line,
  close_quote, lex_quoted_string, punctuator_kind, lex_punctuator, lex_left_comment,
  lex_right_comment, lex_slash, lex_star, lex_other, lex,
}
use xeus_cpp.Scan.{
  in_block_comment, in_template, top_kind, pop_template, close_bracket, ends_directive, is_if,
  is_endif, close_conditional, directive, push_kind, switch, handle, remember, scan_step,
  is_mismatch, continues, scan,
}
use xeus_cpp.Validator.{
  to_string, get_expected_indent, is_template, check_template, final_result, indent_size,
  new_indent, validate, is_complete_request,
}

-- The names that a run computes with.
check : String → Run (Bytes × Bytes)
unfolding as_int kind_of_int is_kind identifier closes_brace is_alpha is_digit is_punctuator
    is_quoted_string is_whitespace skip_while skip_whitespace lex_whitespace is_word lex_identifier
    lex_constant lex_any_string read_to_end_of_line close_quote lex_quoted_string punctuator_kind
    lex_punctuator lex_left_comment lex_right_comment lex_slash lex_star lex_other lex
    in_block_comment in_template top_kind pop_template close_bracket ends_directive is_if is_endif
    close_conditional directive push_kind switch handle remember scan_step is_mismatch continues
    scan to_string get_expected_indent is_template check_template final_result indent_size
    new_indent validate is_complete_request
check code = is_complete_request (codes code)

abbrev Says : String → String → String → Type 0
Says code status indent = check code ≡ done (codes status, codes indent)

complete_code : Says "int f(int x) { return x; }" "complete" ""
unfolding check
complete_code = refl

open_brace : Says "int main() {" "incomplete" "    "
unfolding check
open_brace = refl

stray : Says "int main() }" "mismatch" ""
unfolding check
stray = refl

template_line : Says "template <typename T>" "incomplete" "    "
unfolding check
template_line = refl

template_class : Says "template <typename T> class A { T x[2]; };" "complete" ""
unfolding check
template_class = refl

conditional : Says "#if A\nf();\n#endif" "complete" ""
unfolding check
conditional = refl

comments : Says "/* ( */ f(); // (" "complete" ""
unfolding check
comments = refl

continued : Says "a," "incomplete" ""
unfolding check
continued = refl

-- The name of a directive runs to the next blank, over the end of its line.
swallowed : Says "#if A\nx\n#else\ny\n#endif" "incomplete" "    "
unfolding check
swallowed = refl

-- A stray bracket behind a comma.
comma_stray : Says "a,)" "incomplete" ""
unfolding check
comma_stray = refl

open_string : check "f(\"ab" ≡ out_of_bounds
unfolding check
open_string = refl

quote_in_comment : check "/* don't */" ≡ out_of_bounds
unfolding check
quote_in_comment = refl

-- The slash that ends a comment is read again, as the beginning of another comment.
comment_hides : Says "/*a*//*b*/ f(" "complete" ""
unfolding check
comment_hides = refl

comment_opens : Says "x /*a*/* y;" "incomplete" "    "
unfolding check
comment_opens = refl

-- A brace between the angle brackets of a template ends it, and a semicolon in a conditional does not.
template_brace : Says "template<int N = int{}>" "complete" ""
unfolding check
template_brace = refl

template_conditional : Says "template<class T>\n#if A \nvoid f();\n#endif" "incomplete" "    "
unfolding check
template_conditional = refl
