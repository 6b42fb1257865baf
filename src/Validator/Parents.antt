-- ===== src/Validator/Parents.antt =====
-- The stack that `validate` leaves for the next input, and what a result says of it.
use xeus_cpp.Base.{ℕ, suc, ◌≡◌, [], ◌∷◌, ◌++◌, List, arith, Bytes, length, if_split}
use xeus_cpp.Base.Run.{done, Ensures, Ensures-bind, Ensures-done}
use xeus_cpp.Lexer.Progress.{skip_whitespace-Follows, lex-shorter}
use xeus_cpp.Lexer.{skip_whitespace, lex}
use xeus_cpp.Scan.Fuel.{scan-Ensures}
use xeus_cpp.Scan.Stack.{IsParents, template-IsParents, scan_step-Parents}
use xeus_cpp.Scan.{ValidationResult, scan}
use xeus_cpp.Validator.{Validator, check_template, is_template, validate, start}

check_template-IsParents :
    (ks : List ℕ) (p : Bytes) → IsParents ks → Ensures IsParents (check_template ks p)
unfolding check_template
check_template-IsParents [] p h =
    Ensures-bind _ _ (skip_whitespace p) _ (skip_whitespace-Follows p) λ x _.
      Ensures-bind _ _ (lex x.1) _ (lex-shorter x.1)
        λ y _. if_split IsParents (is_template y.0) (λ _. template-IsParents) (λ _. h)
check_template-IsParents (k ∷ ks) p h = h

-- The stack that one call leaves for the next has the shape of a stack of open parents: a template
-- marker stands at the front only, a block comment at the back only, and all else are the openers
-- `[`, `(`, `{` and `#if`.
pub validate-IsParents :
    (v : Validator) (input : Bytes) (nb_char_indent : ℕ) {w : Validator} {res : ValidationResult}
    → IsParents v.parent_stack
    → validate v input nb_char_indent ≡ done (w, res)
    → IsParents w.parent_stack
unfolding validate
validate-IsParents v input n h e =
    let buffer : Bytes = input ++ 0 ∷ [] in
    Ensures-done (λ x. IsParents x.0.parent_stack)
      (Ensures-bind _ _ (check_template v.parent_stack buffer) _
        (check_template-IsParents v.parent_stack buffer h)
        λ ks k. Ensures-bind _ _ (skip_whitespace buffer) _ (skip_whitespace-Follows buffer) λ x l.
          Ensures-bind _ _ (scan (suc (length buffer)) (start x.1 ks)) _
            (scan-Ensures (λ s. IsParents s.parent_stack) scan_step-Parents _ (start x.1 ks)
              (omega arith) k)
            (λ s q. q.0))
      e
