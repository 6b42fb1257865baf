-- ===== src/Scan/Brackets/Templates.antt =====
-- When the mark of a template is taken off the stack.
use xeus_cpp.Base.{
  ◌≡◌, ◌↔◌, refl, ap, ◌∙◌, Bool, true, false, List, [], ◌∷◌, ◌++◌, Option, none, some, arith,
}
use xeus_cpp.Scan.Brackets.{
  Bracket, Item, Balanced, role, nest, nest_all, ends_template, marked, mark_all,
}
use xeus_cpp.Scan.Brackets.Nesting.{nest_all_iff}

-- A well-nested beginning of the items ends with what ends a template.
abbrev pub EndsTemplate : List Item → Type 0
EndsTemplate ks =
    (p : List Item) × (k : Item) × (q : List Item) × (ks ≡ p ++ (k ∷ q))
    × (ends_template k ≡ true)
    × Balanced (p ++ (k ∷ []))

marked-false : (k : Item) (st : List Bracket) → marked false k st ≡ false
marked-false k [] = refl
marked-false k (b ∷ st) = refl

pub mark_all-false : (st : List Bracket) (ks : List Item) → mark_all false st ks ≡ false
mark_all-false st [] = refl
mark_all-false st (k ∷ ks) = by_stack (nest (role k) st) (λ st'. mark_all-false st' ks)
  where
    by_stack :
        (o : Option (List Bracket))
        → ((st' : List Bracket) → mark_all false st' ks ≡ false)
        → elim o [ none ↦ false | some st' ↦ mark_all (marked false k st') st' ks ] ≡ false
    by_stack none h = refl
    by_stack (some st') h = rw (marked-false k st') (h st')

-- The mark goes only where no bracket is open.
marked-true :
    (k : Item) (st : List Bracket) → marked true k st ≡ false → (st ≡ []) × (ends_template k ≡ true)
marked-true k [] e = (refl, ground arith)
marked-true k (b ∷ st) e = cc

abbrev Splits : List Bracket → List Item → Type 0
Splits st ks =
    (p : List Item) × (k : Item) × (q : List Item) × (ks ≡ p ++ (k ∷ q))
    × (ends_template k ≡ true)
    × (nest_all st (p ++ (k ∷ [])) ≡ some [])

mark_all-Splits : (st : List Bracket) (ks : List Item) → mark_all true st ks ≡ false → Splits st ks
mark_all-Splits st [] e = cc
mark_all-Splits st (k ∷ ks) e = by_stack (nest (role k) st) refl e (λ st'. mark_all-Splits st' ks)
  where
    by_mark :
        (st' : List Bracket) (b : Bool)
        → nest (role k) st ≡ some st'
        → marked true k st' ≡ b
        → mark_all b st' ks ≡ false
        → (mark_all true st' ks ≡ false → Splits st' ks)
        → Splits st (k ∷ ks)
    by_mark st' false n m e h =
        let (nothing, ends) = marked-true k st' m in
        ([], k, ks, refl, ends, rw (n, nest_all) (ap some nothing))
    by_mark st' true n m e h =
        let (p, j, q, split, ends, nested) = h e in
        (k ∷ p, j, q, ap (◌∷◌ k) split, ends, rw (n, nest_all) nested)

    by_stack :
        (o : Option (List Bracket))
        → nest (role k) st ≡ o
        → elim o [ none ↦ true | some st' ↦ mark_all (marked true k st') st' ks ] ≡ false
        → ((st' : List Bracket) → mark_all true st' ks ≡ false → Splits st' ks)
        → Splits st (k ∷ ks)
    by_stack none n e h = cc
    by_stack (some st') n e h = by_mark st' (marked true k st') n refl e (h st')

ended :
    (k : Item) (q : List Item) (o : Option (List Bracket))
    → ends_template k ≡ true
    → elim o [ none ↦ none | some st' ↦ some st' ] ≡ some []
    → elim o [ none ↦ true | some st' ↦ mark_all (marked true k st') st' q ] ≡ false
ended k q none e n = cc
ended k q (some []) e n = rw e (mark_all-false [] q)
ended k q (some (b ∷ st)) e n = cc

still_ended :
    (b : Bool) (st : List Bracket) (ks : List Item)
    → mark_all true st ks ≡ false
    → mark_all b st ks ≡ false
still_ended true st ks e = e
still_ended false st ks e = mark_all-false st ks

Splits-mark_all :
    (st : List Bracket) (p : List Item) (k : Item) (q : List Item)
    → ends_template k ≡ true
    → nest_all st (p ++ (k ∷ [])) ≡ some []
    → mark_all true st (p ++ (k ∷ q)) ≡ false
Splits-mark_all st [] k q e n = ended k q (nest (role k) st) e n
Splits-mark_all st (j ∷ p) k q e n =
    by_stack (nest (role j) st) n (λ st'. Splits-mark_all st' p k q e)
  where
    by_stack :
        (o : Option (List Bracket))
        → elim o [ none ↦ none | some st' ↦ nest_all st' (p ++ (k ∷ [])) ] ≡ some []
        → ((st' : List Bracket)
            → nest_all st' (p ++ (k ∷ [])) ≡ some []
            → mark_all true st' (p ++ (k ∷ q)) ≡ false)
        → elim o [ none ↦ true | some st' ↦ mark_all (marked true j st') st' (p ++ (k ∷ q)) ]
          ≡ false
    by_stack none n h = cc
    by_stack (some st') n h = still_ended (marked true j st') st' (p ++ (k ∷ q)) (h st' n)

-- The mark is gone behind the items exactly if the template ends in them.
pub mark_all_iff : (ks : List Item) → (mark_all true [] ks ≡ false) ↔ EndsTemplate ks
mark_all_iff ks = (
  λ e.
      let (p, k, q, split, ends, nested) = mark_all-Splits [] ks e in
      (p, k, q, split, ends, (nest_all_iff (p ++ (k ∷ []))).0 nested),
  λ (p, k, q, split, ends, balanced).
      ap (mark_all true []) split
      ∙ Splits-mark_all [] p k q ends ((nest_all_iff (p ++ (k ∷ []))).1 balanced),
)
