-- ===== src/Validator/Mismatch.antt =====
-- When `validate` reports a mismatch.
use mathlib.Core.Path.{subst}
use xeus_cpp.Base.{ℕ, ◌≡◌, sym, ap, ◌∙◌, Bool, List, [], ◌∷◌, ◌++◌, some, Bytes, arith}
use xeus_cpp.Base.Run.{done, done-injective}
use xeus_cpp.Token.{TokenKind}
use xeus_cpp.Lexer.{skip_whitespace}
use xeus_cpp.Scan.{Scan, mismatch, is_mismatch}
use xeus_cpp.Scan.Brackets.{Bracket, Item, Balanced, mark_all}
use xeus_cpp.Scan.Brackets.Nesting.{nest_all_iff}
use xeus_cpp.Scan.Refines.{Tokens, first, EndsAs, last_kind}
use xeus_cpp.Validator.{Validator, new_validator, validate, is_template, final_result}
use xeus_cpp.Validator.Brackets.{check_template-first, validate-EndsAs}
use xeus_cpp.Validator.Resume.{begins-nested}

nested-not-mismatch :
    (m : Bool) (st : List Bracket) (k : TokenKind) (t : Scan)
    → EndsAs m (some st) k t
    → ¬ (final_result t ≡ mismatch)
unfolding final_result is_mismatch
nested-not-mismatch m st k t (r, p, l) e = ground arith

-- A new validator reports a mismatch only for an input, read up to its end, to which nothing can be added that makes its
-- items well nested.
pub validate-mismatch :
    (input : Bytes) (n m : ℕ) (more : List Item) {p : Bytes} {ks : List Item} {w : Validator}
    → skip_whitespace (input ++ 0 ∷ []) ≡ done (m, p)
    → Tokens p ks
    → validate new_validator input n ≡ done (w, mismatch)
    → ¬ Balanced (ks ++ more)
validate-mismatch input n m more {ks = ks} s l e h =
    let b = is_template (first l) in
    let (t, f, ends) =
      validate-EndsAs new_validator input n m b [] s (check_template-first input m l s) l in
    let (st, o) = begins-nested [] ks more ((nest_all_iff (ks ++ more)).1 h) in
    nested-not-mismatch (mark_all b [] ks) st (last_kind TokenKind.unknown ks) t
      (subst (λ o. EndsAs (mark_all b [] ks) o (last_kind TokenKind.unknown ks) t) o ends)
      (ap (λ x. x.1) (done-injective (sym f ∙ e)))
