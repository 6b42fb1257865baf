-- ===== src/Scan/Brackets/Nesting.antt =====
-- The recogniser accepts exactly the well-nested sequences.
use xeus_cpp.Base.{
  ◌≡◌, ◌↔◌, refl, sym, ap, ◌∙◌, true, List, [], ◌∷◌, ◌++◌, none, some, append_assoc, append-nil,
  arith, Bool-cases, inl, inr,
}
use xeus_cpp.Token.{TokenKind}
use xeus_cpp.Scan.Brackets.{
  Bracket, square, paren, brace, conditional, Item, of_kind, if_line, endif_line, block_comment,
  open_comment, opener, closer, Role, opens, closes, neutral, stray, special, role, Balanced, empty,
  plain, group, nest, nest_all, same,
}

-- The brackets of `st` are closed in turn, with well-nested sequences before, between and after.
abbrev Closes : List Bracket → List Item → Type 0
Closes [] ks = Balanced ks
Closes (b ∷ st) ks =
    (inner : List Item) × (rest : List Item) × (ks ≡ inner ++ (closer b ∷ rest))
    × Balanced inner
    × Closes st rest

-- A well-nested sequence leaves the stack as it was.
nest_all-Balanced :
    {ks : List Item} (st : List Bracket) (more : List Item)
    → Balanced ks
    → nest_all st (ks ++ more) ≡ nest_all st more
nest_all-Balanced st more empty = refl
nest_all-Balanced st more (plain {k} {rest} n h) = rw (n, nest_all) (nest_all-Balanced st more h)
nest_all-Balanced st more (group square inner rest h k e) =
    rw e (rw append_assoc (nest_all-Balanced (square ∷ st) _ h ∙ nest_all-Balanced st more k))
nest_all-Balanced st more (group paren inner rest h k e) =
    rw e (rw append_assoc (nest_all-Balanced (paren ∷ st) _ h ∙ nest_all-Balanced st more k))
nest_all-Balanced st more (group brace inner rest h k e) =
    rw e (rw append_assoc (nest_all-Balanced (brace ∷ st) _ h ∙ nest_all-Balanced st more k))
nest_all-Balanced st more (group conditional inner rest h k e) =
    rw e (rw append_assoc (nest_all-Balanced (conditional ∷ st) _ h ∙ nest_all-Balanced st more k))

-- One more token in front of what closes the stack.
Closes-plain :
    (st : List Bracket) (k : Item) (ks : List Item)
    → role k ≡ neutral
    → Closes st ks
    → Closes st (k ∷ ks)
Closes-plain [] k ks n c = plain n c
Closes-plain (b ∷ st) k ks n (inner, rest, e, h, c) = (k ∷ inner, rest, ap (◌∷◌ k) e, plain n h, c)

Closes-opener :
    (st : List Bracket) (b : Bracket) (ks : List Item)
    → Closes (b ∷ st) ks
    → Closes st (opener b ∷ ks)
Closes-opener [] b ks (inner, rest, e, h, c) = group b inner rest h c (ap (◌∷◌ (opener b)) e)
Closes-opener (d ∷ st) b ks (inner, rest, e, h, (inner', rest', e', h', c)) = (
  opener b ∷ (inner ++ (closer b ∷ inner')),
  rest',
  ap (◌∷◌ (opener b)) (simp append_assoc (e ∙ ap (λ r. inner ++ (closer b ∷ r)) e')),
  group b inner inner' h h' refl,
  c,
)

role-opens : (k : Item) (b : Bracket) → role k ≡ opens b → k ≡ opener b
role-opens (of_kind TokenKind.l_square) b e = ground arith
role-opens (of_kind _) b e = ground arith
role-opens if_line b e = ground arith
role-opens endif_line b e = ground arith
role-opens block_comment b e = ground arith
role-opens open_comment b e = ground arith

role-closes : (k : Item) (b : Bracket) → role k ≡ closes b → k ≡ closer b
role-closes (of_kind TokenKind.l_square) b e = ground arith
role-closes (of_kind _) b e = ground arith
role-closes if_line b e = ground arith
role-closes endif_line b e = ground arith
role-closes block_comment b e = ground arith
role-closes open_comment b e = ground arith

same-eq : (b o : Bracket) → same b o ≡ true → b ≡ o
same-eq b o h = ground arith

nest_all-Closes : (st : List Bracket) (ks : List Item) → nest_all st ks ≡ some [] → Closes st ks
nest_all-Closes [] [] e = empty
nest_all-Closes (b ∷ st) [] e = cc
nest_all-Closes st (k ∷ ks) e = by_role (role k) st refl e (λ st'. nest_all-Closes st' ks)
  where
    by_role :
        (r : Role) (st : List Bracket)
        → role k ≡ r
        → elim (nest r st) [ none ↦ none | some st' ↦ nest_all st' ks ] ≡ some []
        → ((st' : List Bracket) → nest_all st' ks ≡ some [] → Closes st' ks)
        → Closes st (k ∷ ks)
    by_role (opens b) st q e ih = rw (role-opens k b q) (Closes-opener st b ks (ih (b ∷ st) e))
    by_role (closes b) [] q e ih = cc
    by_role (closes b) (o ∷ st) q e ih = elim (Bool-cases (same b o)) [
      | inl s ↦ (
        [],
        ks,
        ap (λ j. j ∷ ks) (role-closes k b q ∙ ap closer (same-eq b o s)),
        empty,
        ih st (rw s at e),
      )
      | inr d ↦ absurd (ground arith)
    ]
    by_role neutral st q e ih = Closes-plain st k ks q (ih st e)
    by_role stray st q e ih = cc
    by_role special st q e ih = cc

-- With an empty stack before and after, the recogniser accepts exactly the well-nested sequences.
pub nest_all_iff : (ks : List Item) → (nest_all [] ks ≡ some []) ↔ Balanced ks
nest_all_iff ks =
    (nest_all-Closes [] ks, λ h. ap (nest_all []) (sym (append-nil ks)) ∙ nest_all-Balanced [] [] h)
