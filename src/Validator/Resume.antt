-- ===== src/Validator/Resume.antt =====
-- A validator that is given an input in two parts: it goes on with the stack that the first part has left.
use mathlib.Core.Path.{subst}
use xeus_cpp.Base.{
  ℕ, ◌≡◌, ◌≢◌, ◌↔◌, refl, sym, ap, ◌∙◌, Bool, List, [], ◌∷◌, ◌++◌, Option, none, some, Bytes,
}
use xeus_cpp.Base.Run.{done, done-injective}
use xeus_cpp.Token.{TokenKind}
use xeus_cpp.Lexer.{skip_whitespace}
use xeus_cpp.Scan.{ValidationResult, complete}
use xeus_cpp.Scan.Brackets.{Bracket, Item, Balanced, role, nest, nest_all, marked, mark_all}
use xeus_cpp.Scan.Brackets.Nesting.{nest_all_iff}
use xeus_cpp.Scan.Reads.{ints}
use xeus_cpp.Scan.Refines.{Tokens, first, EndsAs, last_kind}
use xeus_cpp.Validator.{Validator, new_validator, validate, check_template, is_template}
use xeus_cpp.Validator.Brackets.{
  Finished, Finished-iff, IsContinued, check_template-first, validate-EndsAs, validate-complete,
}

-- The stack of a result, if there is one.
abbrev or_nil : Option (List Bracket) → List Bracket
or_nil none = []
or_nil (some st) = st

nest_all-append :
    (st : List Bracket) (ks more : List Item) {st' : List Bracket}
    → nest_all st ks ≡ some st'
    → nest_all st (ks ++ more) ≡ nest_all st' more
nest_all-append st [] more e = ap (λ o. nest_all (or_nil o) more) e
nest_all-append st (k ∷ ks) more {st'} e =
    by_stack (nest (role k) st) e (λ t. nest_all-append t ks more)
  where
    by_stack :
        (o : Option (List Bracket))
        → elim o [ none ↦ none | some t ↦ nest_all t ks ] ≡ some st'
        → ((t : List Bracket)
            → nest_all t ks ≡ some st'
            → nest_all t (ks ++ more) ≡ nest_all st' more)
        → elim o [ none ↦ none | some t ↦ nest_all t (ks ++ more) ] ≡ nest_all st' more
    by_stack none e h = cc
    by_stack (some t) e h = h t e

mark_all-append :
    (m : Bool) (st : List Bracket) (ks more : List Item) {st' : List Bracket}
    → nest_all st ks ≡ some st'
    → mark_all m st (ks ++ more) ≡ mark_all (mark_all m st ks) st' more
mark_all-append m st [] more e = ap (λ o. mark_all m (or_nil o) more) e
mark_all-append m st (k ∷ ks) more {st'} e =
    by_stack (nest (role k) st) e (λ t. mark_all-append (marked m k t) t ks more)
  where
    by_stack :
        (o : Option (List Bracket))
        → elim o [ none ↦ none | some t ↦ nest_all t ks ] ≡ some st'
        → ((t : List Bracket)
            → nest_all t ks ≡ some st'
            → mark_all (marked m k t) t (ks ++ more)
              ≡ mark_all (mark_all (marked m k t) t ks) st' more)
        → elim o [ none ↦ m | some t ↦ mark_all (marked m k t) t (ks ++ more) ]
          ≡ mark_all (elim o [ none ↦ m | some t ↦ mark_all (marked m k t) t ks ]) st' more
    by_stack none e h = cc
    by_stack (some t) e h = h t e

-- What a well-nested sequence begins with is nested without a mismatch.
pub begins-nested :
    (st : List Bracket) (ks more : List Item)
    → nest_all st (ks ++ more) ≡ some []
    → (st' : List Bracket) × (nest_all st ks ≡ some st')
begins-nested st [] more e = (st, refl)
begins-nested st (k ∷ ks) more e = by_stack (nest (role k) st) e (λ t. begins-nested t ks more)
  where
    by_stack :
        (o : Option (List Bracket))
        → elim o [ none ↦ none | some t ↦ nest_all t (ks ++ more) ] ≡ some []
        → ((t : List Bracket)
            → nest_all t (ks ++ more) ≡ some []
            → (st' : List Bracket) × (nest_all t ks ≡ some st'))
        → (st' : List Bracket) × (elim o [ none ↦ none | some t ↦ nest_all t ks ] ≡ some st')
    by_stack none e h = cc
    by_stack (some t) e h = h t e

-- The stack that is left.
validate-ints :
    (input : Bytes) (n m : ℕ) (st : List Bracket) {p : Bytes} {ks : List Item} {v : Validator}
    {res : ValidationResult}
    → skip_whitespace (input ++ 0 ∷ []) ≡ done (m, p)
    → (l : Tokens p ks) → nest_all [] ks ≡ some st
    → validate new_validator input n ≡ done (v, res)
    → v.parent_stack ≡ ints (mark_all (is_template (first l)) [] ks) st
validate-ints input n m st {ks = ks} {v} {res} s l o e =
    let b = is_template (first l) in
    let (t, f, ends) =
      validate-EndsAs new_validator input n m b [] s (check_template-first input m l s) l in
    let (r, stack, k) =
      subst (λ o. EndsAs (mark_all b [] ks) o (last_kind TokenKind.unknown ks) t) o ends in
    ap (λ (x : Validator × ValidationResult). x.0.parent_stack) (done-injective (sym e ∙ f)) ∙ stack

check_template-open : (ks : List ℕ) (p : Bytes) → ks ≢ [] → check_template ks p ≡ done ks
unfolding check_template
check_template-open [] p n = absurd (n refl)
check_template-open (k ∷ ks) p n = refl

-- A new validator that is given an input in two parts, where the items of the first part are the beginning of some well-nested items and leave
-- something open: it answers to the second part that it is complete exactly if the items of both parts in a row are
-- well nested, the last of the second part is neither a comma nor a backslash, and, where the first part begins with the
-- word `template`, some well-nested beginning of all these items ends with a semicolon or a closing brace.
pub validate-resumed :
    (input next : Bytes) (n m m' : ℕ) {p q : Bytes} {ks js : List Item} (more : List Item)
    {v : Validator} {res : ValidationResult}
    → skip_whitespace (input ++ 0 ∷ []) ≡ done (m, p)
    → skip_whitespace (next ++ 0 ∷ []) ≡ done (m', q)
    → (l : Tokens p ks) → Tokens q js
    → Balanced (ks ++ more)
    → validate new_validator input n ≡ done (v, res)
    → v.parent_stack ≢ []
    → ((w : Validator) × (validate v next n ≡ done (w, complete))) ↔ (
        Finished (is_template (first l)) (ks ++ js)
        × (¬ IsContinued (last_kind TokenKind.unknown js)))
validate-resumed input next n m m' {ks = ks} {js = js} more {v = v} s s' l l' h e left =
    let b = is_template (first l) in
    let (st, o) = begins-nested [] ks more ((nest_all_iff (ks ++ more)).1 h) in
    let stack = validate-ints input n m st s l o e in
    let (there, back) =
      validate-complete v next n m' (mark_all b [] ks) st s'
        (check_template-open v.parent_stack (next ++ 0 ∷ []) left ∙ ap done stack) l' in
    let (is, of) = Finished-iff b (ks ++ js) in
    (
      λ a.
          let (nest, mark, d) = there a in
          (is (nest_all-append [] ks js o ∙ nest, mark_all-append b [] ks js o ∙ mark), d),
      λ q.
          let (nest, mark) = of q.0 in
          back (
            sym (nest_all-append [] ks js o) ∙ nest,
            sym (mark_all-append b [] ks js o) ∙ mark,
            q.1,
          ),
    )
