-- ===== src/Validator/Reply.antt =====
-- The reply to a request whether an input without quotes is complete.
use xeus_cpp.Base.{◌≡◌, ◌↔◌, refl, ap, ◌∙◌, List, [], ◌∷◌, ◌++◌, Bytes, codes, get_or, arith}
use xeus_cpp.Base.Run.{done, >>=-eq-done, done-injective}
use xeus_cpp.Token.{TokenKind}
use xeus_cpp.Pattern.{after_run}
use xeus_cpp.Lexer.{is_whitespace}
use xeus_cpp.Lexer.Bounds.{Ends, skip_whitespace-Ends}
use xeus_cpp.Scan.{ValidationResult, complete, incomplete, mismatch}
use xeus_cpp.Scan.Bounds.{no_quote}
use xeus_cpp.Scan.Brackets.{Item}
use xeus_cpp.Scan.Refines.{Tokens, first, last_kind}
use xeus_cpp.Scan.Total.{quoteless-Tokens}
use xeus_cpp.Validator.{
  Validator, new_validator, validate, is_template, is_complete_request, get_expected_indent,
  to_string,
}
use xeus_cpp.Validator.Brackets.{Finished, IsContinued, validate-Balanced}
use xeus_cpp.Validator.Indent.{blanks, skip_whitespace-blanks}
use xeus_cpp.Validator.Total.{Quoteless, Ends-Quoteless}

-- The buffer behind the blanks that it begins with.
abbrev pub unindented : Bytes → Bytes
unindented input = after_run is_whitespace input ++ 0 ∷ []

Ends-unindented : (input : Bytes) → Quoteless input → Ends no_quote (unindented input)
Ends-unindented input h =
    rw (skip_whitespace-blanks input) at
      (skip_whitespace-Ends no_quote (input ++ 0 ∷ []) (Ends-Quoteless input h))

to_string-complete : (res : ValidationResult) → to_string res ≡ codes "complete" → res ≡ complete
unfolding to_string
to_string-complete complete e = refl
to_string-complete incomplete e =
    let c : b'i' ≡ b'c' = ap (λ p. get_or p 0 0) e in absurd (omega (arith, c))
to_string-complete mismatch e =
    let c : b'm' ≡ b'c' = ap (λ p. get_or p 0 0) e in absurd (omega (arith, c))

-- The status is `complete` exactly if the result is.
is_complete_request_iff :
    (input : Bytes)
    → ((indent : Bytes) × (is_complete_request input ≡ done (codes "complete", indent)))
      ↔ ((w : Validator) × (validate new_validator input 4 ≡ done (w, complete)))
unfolding is_complete_request
is_complete_request_iff input = (
  λ (indent, e).
      let (x, f, g) = >>=-eq-done (validate new_validator input 4) _ e in
      let r = to_string-complete x.1 (ap (λ y. y.0) (done-injective g)) in
      (x.0, f ∙ ap (λ r. done (x.0, r)) r),
  λ (w, e). (get_expected_indent w, rw e (unfold to_string in refl)),
)

-- Every input without quotes is read up to its end, behind the blanks that it begins with. The reply has the status "complete" exactly
-- if the brackets and the conditional directives among what is read are well nested, the last token that is no
-- blank is neither a comma nor a backslash, and, where the first token is the word `template`, some well-nested
-- beginning of what is read ends with a semicolon or a closing brace. A stray closing mark of a comment is not well nested,
-- and neither is a comment that is not closed.
pub is_complete_request-Finished :
    (input : Bytes)
    → Quoteless input
    → (ks : List Item) × (l : Tokens (unindented input) ks) × (((indent : Bytes)
          × (is_complete_request input ≡ done (codes "complete", indent)))
        ↔ (Finished (is_template (first l)) ks × (¬ IsContinued (last_kind TokenKind.unknown ks))))
is_complete_request-Finished input h =
    let (ks, l) = quoteless-Tokens (unindented input) (Ends-unindented input h) in
    let (there, back) = is_complete_request_iff input in
    let (is, of) = validate-Balanced input 4 (blanks input) (skip_whitespace-blanks input) l in
    (ks, l, (λ a. is (there a), λ b. back (of b)))
