-- ===== src/Tests/Examples.antt =====
-- The theorems on the validator, at concrete inputs.
use xeus_cpp.Base.{◌≡◌, ◌≢◌, ◌↔◌, refl, codes, Bytes, List, [], ◌∷◌, ◌++◌, arith, true}
use xeus_cpp.Base.Run.{done, out_of_bounds, out_of_fuel}
use xeus_cpp.Token.{TokenKind}
use xeus_cpp.Lexer.Tokens.{Lexes, lex-Lexes}
use xeus_cpp.Lexer.Bounds.{Unclosed, lex-out_of_bounds}
use xeus_cpp.Scan.{ValidationResult}
use xeus_cpp.Scan.ValidationResult.{incomplete, complete}
use xeus_cpp.Scan.Bounds.{no_quote}
use xeus_cpp.Scan.Stack.{IsParents, is_parent_stack, is_code_stack, is_opener}
use xeus_cpp.Scan.Brackets.{Item, of_kind, block_comment}
use xeus_cpp.Scan.Reads.{plain_token}
use xeus_cpp.Scan.Comments.{ends, skips}
use xeus_cpp.Scan.Refines.{comment, Tokens, stop, more, last_kind}
use xeus_cpp.Validator.{Validator, new_validator}
use xeus_cpp.Validator.Total.{validate-ne-out_of_fuel, validate-Quoteless}
use xeus_cpp.Validator.Reply.{unindented, is_complete_request-Finished}
use xeus_cpp.Scan.Refines.{first}
use xeus_cpp.Validator.Resume.{validate-resumed}
use xeus_cpp.Scan.Brackets.{group, empty, paren, Balanced}
use xeus_cpp.Base.{false}
use xeus_cpp.Validator.Mismatch.{validate-mismatch}
use xeus_cpp.Validator.Parents.{validate-IsParents}
use xeus_cpp.Validator.Indent.{validate-depth}
use xeus_cpp.Pattern.{run}
use xeus_cpp.Base.{length, replicate, ◌≤◌, true}
use xeus_cpp.Validator.Brackets.{IsContinued, Finished, validate-Balanced}
use xeus_cpp.Token.{as_int, kind_of_int, is_kind, identifier, closes_brace}
use xeus_cpp.Lexer.{
  is_alpha, is_digit, is_punctuator, is_quoted_string, is_whitespace, skip_while, skip_whitespace,
  lex_whitespace, is_word, lex_identifier, lex_constant, lex_any_string, read_to_end_of_line,
  close_quote, lex_quoted_string, punctuator_kind, lex_punctuator, lex_left_comment,
  lex_right_comment, lex_slash, lex_star, lex_other, lex,
}
use xeus_cpp.Scan.{
  in_block_comment, in_template, top_kind, pop_template, close_bracket, ends_directive, is_if,
  is_endif, close_conditional, directive, push_kind, switch, handle, remember, scan_step,
  is_mismatch, continues, scan,
}
use xeus_cpp.Validator.{
  to_string, get_expected_indent, is_template, check_template, final_result, indent_size,
  new_indent, validate, is_complete_request,
}

-- The declaration of a template, with a bracket in a comment, and what the rounds read.
abbrev template_code : Bytes
template_code = codes "template<class T>\nT f(T) /*(*/;"

abbrev template_items : List Item
template_items =
    of_kind TokenKind.ident
    ∷ of_kind TokenKind.less
    ∷ of_kind TokenKind.ident
    ∷ of_kind TokenKind.space
    ∷ of_kind TokenKind.ident
    ∷ of_kind TokenKind.greater
    ∷ of_kind TokenKind.unknown
    ∷ of_kind TokenKind.ident
    ∷ of_kind TokenKind.space
    ∷ of_kind TokenKind.ident
    ∷ of_kind TokenKind.l_paren
    ∷ of_kind TokenKind.ident
    ∷ of_kind TokenKind.r_paren
    ∷ of_kind TokenKind.space
    ∷ block_comment
    ∷ of_kind TokenKind.slash
    ∷ of_kind TokenKind.semicolon
    ∷ []

template-Tokens : Tokens (template_code ++ 0 ∷ []) template_items
unfolding as_int kind_of_int is_kind identifier closes_brace is_alpha is_digit is_punctuator
    is_quoted_string is_whitespace skip_while skip_whitespace lex_whitespace is_word lex_identifier
    lex_constant lex_any_string read_to_end_of_line close_quote lex_quoted_string punctuator_kind
    lex_punctuator lex_left_comment lex_right_comment lex_slash lex_star lex_other lex
    in_block_comment in_template top_kind pop_template close_bracket ends_directive is_if is_endif
    close_conditional directive push_kind switch handle remember scan_step is_mismatch continues
    scan to_string get_expected_indent is_template check_template final_result indent_size
    new_indent validate is_complete_request
template-Tokens = more (plain_token refl refl (λ e. cc)) (
    more (plain_token refl refl (λ e. cc)) (
      more (plain_token refl refl (λ e. cc)) (
        more (plain_token refl refl (λ e. cc)) (
          more (plain_token refl refl (λ e. cc)) (
            more (plain_token refl refl (λ e. cc)) (
              more (plain_token refl refl (λ e. cc)) (
                more (plain_token refl refl (λ e. cc)) (
                  more (plain_token refl refl (λ e. cc)) (
                    more (plain_token refl refl (λ e. cc)) (
                      more (plain_token refl refl (λ e. cc)) (
                        more (plain_token refl refl (λ e. cc)) (
                          more (plain_token refl refl (λ e. cc)) (
                            more (plain_token refl refl (λ e. cc)) (
                              comment refl refl (skips refl (λ e. cc) (λ e. cc) (ends refl refl)) (
                                more (plain_token refl refl (λ e. cc)) (
                                  more (plain_token refl refl (λ e. cc))
                                    (stop refl refl)))))))))))))))))

validate-Balanced_example :
    ((w : Validator) × (validate new_validator template_code 0 ≡ done (w, complete)))
    ↔ (Finished true template_items × (¬ IsContinued (last_kind TokenKind.unknown template_items)))
unfolding as_int kind_of_int is_kind identifier closes_brace is_alpha is_digit is_punctuator
    is_quoted_string is_whitespace skip_while skip_whitespace lex_whitespace is_word lex_identifier
    lex_constant lex_any_string read_to_end_of_line close_quote lex_quoted_string punctuator_kind
    lex_punctuator lex_left_comment lex_right_comment lex_slash lex_star lex_other lex
    in_block_comment in_template top_kind pop_template close_bracket ends_directive is_if is_endif
    close_conditional directive push_kind switch handle remember scan_step is_mismatch continues
    scan to_string get_expected_indent is_template check_template final_result indent_size
    new_indent validate is_complete_request template-Tokens
validate-Balanced_example = validate-Balanced template_code 0 0 refl template-Tokens

lex-Lexes_example : Lexes (codes "f(x)") (lex (codes "f(x)"))
lex-Lexes_example = lex-Lexes (codes "f(x)")

validate-ne-out_of_fuel_example : validate new_validator (codes "int f() {") 0 ≢ out_of_fuel
validate-ne-out_of_fuel_example = validate-ne-out_of_fuel new_validator (codes "int f() {") 0

lex-out_of_bounds_example :
    (lex (codes "\"a" ++ 0 ∷ []) ≡ out_of_bounds)
    ↔ ((is_quoted_string b'"' ≡ true) × Unclosed b'"' (codes "a" ++ 0 ∷ []))
lex-out_of_bounds_example = lex-out_of_bounds b'"' (codes "a" ++ 0 ∷ []) (refl, (refl, refl))

validate-Quoteless_example :
    (x : Validator × ValidationResult) × (validate new_validator (codes "g(") 0 ≡ done x)
unfolding no_quote is_quoted_string
validate-Quoteless_example = validate-Quoteless new_validator (codes "g(") 0 (refl, (refl, tt))

is_complete_request-Finished_example :
    (ks : List Item) × (l : Tokens (unindented (codes "g(")) ks) × (((indent : Bytes)
        × (is_complete_request (codes "g(") ≡ done (codes "complete", indent)))
      ↔ (Finished (is_template (first l)) ks × (¬ IsContinued (last_kind TokenKind.unknown ks))))
unfolding no_quote is_quoted_string
is_complete_request-Finished_example = is_complete_request-Finished (codes "g(") (refl, (refl, tt))

-- The validator behind `g(`, with one open parenthesis.
abbrev open_validator : Validator
open_validator = record { parent_stack = as_int TokenKind.l_paren ∷ []; indent = [] }

validate-IsParents_example : IsParents open_validator.parent_stack
unfolding as_int kind_of_int is_kind identifier closes_brace is_alpha is_digit is_punctuator
    is_quoted_string is_whitespace skip_while skip_whitespace lex_whitespace is_word lex_identifier
    lex_constant lex_any_string read_to_end_of_line close_quote lex_quoted_string punctuator_kind
    lex_punctuator lex_left_comment lex_right_comment lex_slash lex_star lex_other lex
    in_block_comment in_template top_kind pop_template close_bracket ends_directive is_if is_endif
    close_conditional directive push_kind switch handle remember scan_step is_mismatch continues
    scan to_string get_expected_indent is_template check_template final_result indent_size
    new_indent validate is_complete_request is_parent_stack is_code_stack is_opener
validate-IsParents_example =
    validate-IsParents new_validator (codes "g(") 0 {w = open_validator} {res = incomplete} refl
      refl

-- The validator behind ` f(`.
abbrev in_call : Validator
in_call = record { parent_stack = as_int TokenKind.l_paren ∷ []; indent = replicate 5 b' ' }

in_call_run : validate new_validator (codes " f(") 4 ≡ done (in_call, incomplete)
unfolding as_int kind_of_int is_kind identifier closes_brace is_alpha is_digit is_punctuator
    is_quoted_string is_whitespace skip_while skip_whitespace lex_whitespace is_word lex_identifier
    lex_constant lex_any_string read_to_end_of_line close_quote lex_quoted_string punctuator_kind
    lex_punctuator lex_left_comment lex_right_comment lex_slash lex_star lex_other lex
    in_block_comment in_template top_kind pop_template close_bracket ends_directive is_if is_endif
    close_conditional directive push_kind switch handle remember scan_step is_mismatch continues
    scan to_string get_expected_indent is_template check_template final_result indent_size
    new_indent validate is_complete_request
in_call_run = refl

validate-depth_example : (length in_call.parent_stack ≤ 5) × (in_call.indent ≡ codes "     ")
unfolding is_whitespace run
validate-depth_example = validate-depth new_validator (codes " f(") 4 (omega arith) in_call_run

abbrev opening : List Item
opening = of_kind TokenKind.ident ∷ of_kind TokenKind.l_paren ∷ []

abbrev closing : List Item
closing = of_kind TokenKind.ident ∷ of_kind TokenKind.r_paren ∷ []

validate-resumed_example :
    ((w : Validator) × (validate in_call (codes "x)") 4 ≡ done (w, complete)))
    ↔ (Finished false (opening ++ closing) × (¬ IsContinued (last_kind TokenKind.unknown closing)))
unfolding as_int kind_of_int is_kind identifier closes_brace is_alpha is_digit is_punctuator
    is_quoted_string is_whitespace skip_while skip_whitespace lex_whitespace is_word lex_identifier
    lex_constant lex_any_string read_to_end_of_line close_quote lex_quoted_string punctuator_kind
    lex_punctuator lex_left_comment lex_right_comment lex_slash lex_star lex_other lex
    in_block_comment in_template top_kind pop_template close_bracket ends_directive is_if is_endif
    close_conditional directive push_kind switch handle remember scan_step is_mismatch continues
    scan to_string get_expected_indent is_template check_template final_result indent_size
    new_indent validate is_complete_request
validate-resumed_example =
    validate-resumed (codes " f(") (codes "x)") 4 1 0 (of_kind TokenKind.r_paren ∷ []) refl refl
      (more (plain_token refl refl (λ e. cc))
        (more (plain_token refl refl (λ e. cc)) (stop refl refl)))
      (more (plain_token refl refl (λ e. cc))
        (more (plain_token refl refl (λ e. cc)) (stop refl refl)))
      (Balanced.plain refl (group paren [] [] empty empty refl)) in_call_run (λ e. cc)

abbrev stray_items : List Item
stray_items = of_kind TokenKind.ident ∷ of_kind TokenKind.r_paren ∷ []

validate-mismatch_example : ¬ Balanced (stray_items ++ (of_kind TokenKind.l_paren ∷ []))
unfolding as_int kind_of_int is_kind identifier closes_brace is_alpha is_digit is_punctuator
    is_quoted_string is_whitespace skip_while skip_whitespace lex_whitespace is_word lex_identifier
    lex_constant lex_any_string read_to_end_of_line close_quote lex_quoted_string punctuator_kind
    lex_punctuator lex_left_comment lex_right_comment lex_slash lex_star lex_other lex
    in_block_comment in_template top_kind pop_template close_bracket ends_directive is_if is_endif
    close_conditional directive push_kind switch handle remember scan_step is_mismatch continues
    scan to_string get_expected_indent is_template check_template final_result indent_size
    new_indent validate is_complete_request
validate-mismatch_example =
    validate-mismatch (codes "f)") 4 0 (of_kind TokenKind.l_paren ∷ []) {w = new_validator} refl
      (more (plain_token refl refl (λ e. cc))
        (more (plain_token refl refl (λ e. cc)) (stop refl refl)))
      refl
