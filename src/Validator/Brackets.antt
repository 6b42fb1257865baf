-- ===== src/Validator/Brackets.antt =====
-- The validator accepts exactly the well-nested inputs.
use mathlib.Core.Path.{subst}
use xeus_cpp.Base.{
  ℕ, suc, ◌≡◌, ◌↔◌, ◌⊎◌, ◌≤◌, refl, sym, ap, ◌∙◌, Bool, true, false, ◌||◌, List, [], ◌∷◌, ◌++◌,
  Option, none, some, inl, inr, arith, Bytes, length, Bool-cases, is_empty, if◌then◌else◌,
}
use xeus_cpp.Base.Run.{done, Returns-some, Ensures-done, done-injective}
use xeus_cpp.Token.{TokenKind, as_int, is_kind, is_kind_iff}
use xeus_cpp.Lexer.Progress.{skip_whitespace-Follows}
use xeus_cpp.Lexer.{skip_whitespace}
use xeus_cpp.Scan.Brackets.{Bracket, Item, Balanced, nest_all, mark_all}
use xeus_cpp.Scan.Brackets.Nesting.{nest_all_iff}
use xeus_cpp.Scan.Brackets.Templates.{EndsTemplate, mark_all-false, mark_all_iff}
use xeus_cpp.Scan.Reads.{bottom, ints}
use xeus_cpp.Scan.Refines.{Tokens, first, first-lex, EndsAs, last_kind, scan-EndsAs}
use xeus_cpp.Scan.{Scan, complete, is_mismatch, scan, remember, in_block_comment}
use xeus_cpp.Validator.{
  Validator, new_validator, check_template, final_result, validate, finish, start, is_template,
}

-- A line that ends in such a token is continued.
abbrev pub IsContinued : TokenKind → Type 0
IsContinued k = (k ≡ TokenKind.comma) ⊎ (k ≡ TokenKind.backslash)

abbrev continued : TokenKind → Bool
continued k = is_kind k TokenKind.backslash || is_kind k TokenKind.comma

continued_iff : (k : TokenKind) → (continued k ≡ true) ↔ IsContinued k
continued_iff k = ground (arith, is_kind_iff k TokenKind.backslash, is_kind_iff k TokenKind.comma)

not-continued : (k : TokenKind) → ¬ IsContinued k → continued k ≡ false
not-continued k n = elim (Bool-cases (continued k)) [
  | inl c ↦ absurd (n ((continued_iff k).0 c))
  | inr c ↦ c
]

-- The mark of a template is in its place, with no bracket above it.
bottom-complete :
    (m : Bool) (t : Scan) (k : TokenKind)
    → EndsAs m (some []) k t
    → (final_result t ≡ complete) ↔ ((m ≡ false) × (¬ IsContinued k))
unfolding final_result is_mismatch
bottom-complete true t k (r, p, l) = (λ h. absurd (ground arith), λ q. cc (q.0))
bottom-complete false t k (r, p, l) = (
  λ h. (refl, λ c. absurd (ground (arith, (continued_iff k).1 c))),
  λ q. ground (arith, not-continued k q.1),
)

open-stack : (ks : List ℕ) → in_block_comment ks ≡ true → is_empty ks ≡ false
unfolding in_block_comment
open-stack [] e = cc
open-stack (k ∷ ks) e = refl

-- The result behind the loop, by how the loop ended.
final_result_iff :
    (m : Bool) (t : Scan) (o : Option (List Bracket)) (k : TokenKind)
    → EndsAs m o k t
    → (final_result t ≡ complete) ↔ ((o ≡ some []) × (m ≡ false) × (¬ IsContinued k))
unfolding final_result is_mismatch
final_result_iff m t none k (inl e) = (λ h. absurd (ground arith), λ h. cc (h.0))
final_result_iff m t none k (inr e) =
    (λ h. absurd (ground (arith, open-stack t.parent_stack e.1)), λ h. cc (h.0))
final_result_iff m t (some []) k e =
    let (there, back) = bottom-complete m t k e in
    (λ h. let (a, b) = there h in (refl, a, b), λ q. back (q.1, q.2))
final_result_iff m t (some (b ∷ st)) k (r, p, l) = (λ h. absurd (ground arith), λ q. cc (q.0))

remember-start : (p : Bytes) (st : List ℕ) → (remember (start p st)).kind ≡ TokenKind.unknown
unfolding remember is_kind as_int
remember-start p st = refl

-- The stack that the loop begins with has the mark of a template exactly if the first token is the word `template`.
pub check_template-first :
    {p : Bytes} {ks : List Item} (input : Bytes) (m : ℕ) (l : Tokens p ks)
    → skip_whitespace (input ++ 0 ∷ []) ≡ done (m, p)
    → check_template [] (input ++ 0 ∷ []) ≡ done (bottom (is_template (first l)))
unfolding check_template
check_template-first input m l s =
    let (r, e) = first-lex l in rw (s, e) (by_test (is_template (first l)))
  where
    by_test : (b : Bool) → done (if b then as_int TokenKind.less ∷ [] else []) ≡ done (bottom b)
    by_test true = refl
    by_test false = refl

validate_result :
    (v : Validator) (input : Bytes) (n m : ℕ) {p : Bytes} {st : List ℕ} {t : Scan}
    → skip_whitespace (input ++ 0 ∷ []) ≡ done (m, p)
    → check_template v.parent_stack (input ++ 0 ∷ []) ≡ done st
    → scan (suc (length (input ++ 0 ∷ []))) (start p st) ≡ done t
    → validate v input n ≡ done (finish v m n t)
unfolding validate
validate_result v input n m s c e = rw (c, s, e)

-- A call of `validate` that begins its loop with a stack of brackets, and the mark of a template if `b`.
pub validate-EndsAs :
    (v : Validator) (input : Bytes) (n m : ℕ) (b : Bool) (st : List Bracket) {p : Bytes}
    {ks : List Item}
    → skip_whitespace (input ++ 0 ∷ []) ≡ done (m, p)
    → check_template v.parent_stack (input ++ 0 ∷ []) ≡ done (ints b st)
    → Tokens p ks
    → (t : Scan) × (validate v input n ≡ done (finish v m n t))
      × EndsAs (mark_all b st ks) (nest_all st ks) (last_kind TokenKind.unknown ks) t
validate-EndsAs v input n m b st {p} {ks} s c l =
    let within =
      Ensures-done (λ x. length x.1 ≤ length (input ++ 0 ∷ []))
        (skip_whitespace-Follows (input ++ 0 ∷ [])) s in
    let (t, e, ends) = Returns-some _ _ (
      scan-EndsAs (suc (length (input ++ 0 ∷ []))) (start p (ints b st)) b st l refl
        (omega (arith, within)) refl refl) in
    (
      t,
      validate_result v input n m s c e,
      subst (λ j. EndsAs (mark_all b st ks) (nest_all st ks) (last_kind j ks) t)
          (remember-start p (ints b st)) ends,
    )

pub validate-complete :
    (v : Validator) (input : Bytes) (n m : ℕ) (b : Bool) (st : List Bracket) {p : Bytes}
    {ks : List Item}
    → skip_whitespace (input ++ 0 ∷ []) ≡ done (m, p)
    → check_template v.parent_stack (input ++ 0 ∷ []) ≡ done (ints b st)
    → Tokens p ks
    → ((w : Validator) × (validate v input n ≡ done (w, complete))) ↔ (
        (nest_all st ks ≡ some [])
        × (mark_all b st ks ≡ false)
        × (¬ IsContinued (last_kind TokenKind.unknown ks)))
validate-complete v input n m b st {ks = ks} s c l =
    let (t, e, ends) = validate-EndsAs v input n m b st s c l in
    let (there, back) =
      final_result_iff (mark_all b st ks) t (nest_all st ks) (last_kind TokenKind.unknown ks)
        ends in
    (
      λ a. there (ap (λ x. x.1) (done-injective (sym e ∙ a.1))),
      λ q. ((finish v m n t).0, e ∙ ap (λ r. done ((finish v m n t).0, r)) (back q)),
    )

-- What the items must be, by whether the first token is the word `template`.
abbrev pub Finished : Bool → List Item → Type 0
Finished false ks = Balanced ks
Finished true ks = Balanced ks × EndsTemplate ks

pub Finished-iff :
    (b : Bool) (ks : List Item)
    → ((nest_all [] ks ≡ some []) × (mark_all b [] ks ≡ false)) ↔ Finished b ks
Finished-iff false ks =
    (λ h. (nest_all_iff ks).0 h.0, λ h. ((nest_all_iff ks).1 h, mark_all-false [] ks))
Finished-iff true ks = (
  λ h. ((nest_all_iff ks).0 h.0, (mark_all_iff ks).0 h.1),
  λ h. ((nest_all_iff ks).1 h.0, (mark_all_iff ks).1 h.1),
)

-- A new validator, on an input that (behind leading blanks) is read up to its end, answers that it is complete exactly if the brackets and the
-- conditional directives among what it reads are well nested, the last token that is no blank is neither a comma nor a
-- backslash, and, where the first token is the word `template`, some well-nested beginning of what it reads ends with a
-- semicolon or a closing brace. A directive whose name begins with `if` opens, and `endif` closes; a comment, and the name
-- of any other directive, count as one token that is no bracket. Behind a block comment the slash of its closing mark is
-- read again.
pub validate-Balanced :
    (input : Bytes) (n m : ℕ) {p : Bytes} {ks : List Item}
    → skip_whitespace (input ++ 0 ∷ []) ≡ done (m, p)
    → (l : Tokens p ks)
    → ((w : Validator) × (validate new_validator input n ≡ done (w, complete)))
      ↔ (Finished (is_template (first l)) ks × (¬ IsContinued (last_kind TokenKind.unknown ks)))
validate-Balanced input n m {p} {ks} s l =
    let b = is_template (first l) in
    let (there, back) =
      validate-complete new_validator input n m b [] s (check_template-first input m l s) l in
    let (is, of) = Finished-iff b ks in
    (
      λ a. let (nest, mark, d) = there a in (is (nest, mark), d),
      λ q. let (nest, mark) = of q.0 in back (nest, mark, q.1),
    )
