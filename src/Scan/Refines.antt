-- ===== src/Scan/Refines.antt =====
-- The loop is the recogniser of nested brackets.
use mathlib.Core.Path.{subst}
use xeus_cpp.Base.{
  ℕ, zero, suc, ◌<◌, ◌≡◌, ◌≢◌, ◌⊎◌, refl, sym, ap, ◌∙◌, Bool, true, false, List, [], ◌∷◌, Option,
  none, some, arith, Bytes, length, Bool-cases, inl, inr, if◌then◌else◌,
}
use xeus_cpp.Base.Run.{Run, done, Returns, Returns-mono, Ensures-done}
use xeus_cpp.Token.{TokenKind, as_int, is_kind, is_kind_iff, Token}
use xeus_cpp.Lexer.{lex, skip_whitespace, lex_any_string}
use xeus_cpp.Scan.Bounds.{handle_eof, eof-stops}
use xeus_cpp.Scan.Reads.{plain_token, line_comment, directive_line, Reads, ints, nested}
use xeus_cpp.Scan.Rounds.{Round, Reads-Round, hash_end-steps}
use xeus_cpp.Scan.Nested.{ints-in_block_comment, scan_step-lex}
use xeus_cpp.Scan.Comments.{scan-suc, Inside, Passed, scan-comment}
use xeus_cpp.Scan.Comments.Open.{RunsOut, InComment, scan-open_comment}
use xeus_cpp.Scan.Fuel.{scan_step-shorter}
use xeus_cpp.Scan.Brackets.{
  Item, of_kind, if_line, endif_line, block_comment, open_comment, item_kind, role_of_kind,
}
use xeus_cpp.Scan.Brackets.{Bracket, special, role, nest, nest_all, marked, marked-plain, mark_all}
use xeus_cpp.Scan.{
  Scan, in_block_comment, complete, mismatch, is_mismatch, remember, received, continues, scan,
}

-- What the rounds read in a buffer up to its end.
pub data Tokens : Bytes → List Item → Type 0 where
  stop : {p r : Bytes} {t : Token} → lex p ≡ done (t, r) → t.kind ≡ TokenKind.eof → Tokens p []
  stop_hash :
      {p q q' r : Bytes} {t u : Token} {n : ℕ}
      → lex p ≡ done (t, q)
      → t.kind ≡ TokenKind.hash
      → skip_whitespace q ≡ done (n, q')
      → lex_any_string q' ≡ done (u, r)
      → u.kind ≡ TokenKind.eof
      → Tokens p []
  stop_comment :
      {p q : Bytes} {t : Token}
      → lex p ≡ done (t, q)
      → t.kind ≡ TokenKind.l_comment
      → RunsOut q
      → Tokens p (open_comment ∷ [])
  more : {p r : Bytes} {k : Item} {ks : List Item} → Reads p k r → Tokens r ks → Tokens p (k ∷ ks)
  comment :
      {p q r : Bytes} {t : Token} {ks : List Item}
      → lex p ≡ done (t, q)
      → t.kind ≡ TokenKind.l_comment
      → Inside q r
      → Tokens r ks
      → Tokens p (block_comment ∷ ks)

abbrev pub reads_lex :
    {p r : Bytes} {k : Item} → Reads p k r → (t : Token) × (q : Bytes) × (lex p ≡ done (t, q))
reads_lex (plain_token e d n) = (_, _, e)
reads_lex (line_comment e h l d f) = (_, _, e)
reads_lex (directive_line e h w l d f) = (_, _, e)

-- The token that is read first.
abbrev pub first : {p : Bytes} {ks : List Item} → Tokens p ks → Token
first (stop {t = t} e k) = t
first (stop_hash {t = t} e h w a k) = t
first (stop_comment {t = t} e k x) = t
first (more x l) = (reads_lex x).0
first (comment {t = t} e k x l) = t

pub first-lex :
    {p : Bytes} {ks : List Item} (l : Tokens p ks) → (r : Bytes) × (lex p ≡ done (first l, r))
first-lex (stop {r = r} e k) = (r, e)
first-lex (stop_hash {q = q} e h w a k) = (q, e)
first-lex (stop_comment {q = q} e k x) = (q, e)
first-lex (more x l) = let (t, q, e) = reads_lex x in (q, e)
first-lex (comment {q = q} e k x l) = (q, e)

-- The last kind that is not white space, or the one before.
abbrev pub last_kind : TokenKind → List Item → TokenKind
last_kind k [] = k
last_kind k (j ∷ ks) =
    last_kind (if is_kind (item_kind j) TokenKind.space then k else item_kind j) ks

-- How the loop ends: with a mismatch where the recogniser fails, and else with its stack.
abbrev pub EndsAs : Bool → Option (List Bracket) → TokenKind → Scan → Type 0
EndsAs m none k t =
    (t.res ≡ mismatch) ⊎ ((t.res ≡ complete) × (in_block_comment t.parent_stack ≡ true))
EndsAs m (some st) k t =
    (t.res ≡ complete) × (t.parent_stack ≡ ints m st) × (t.last_not_space_tok.kind ≡ k)

remember-kind :
    (u s : Scan) (k : TokenKind)
    → u.tok.kind ≡ k
    → u.last_not_space_tok ≡ remember s
    → (remember u).kind ≡ (if is_kind k TokenKind.space then (remember s).kind else k)
unfolding remember
remember-kind u s k e l = ground (arith, ap (λ (t : Token). t.kind) l)

continues_mismatch : (u : Scan) → u.res ≡ mismatch → continues u ≡ false
unfolding continues is_mismatch
continues_mismatch u e = ground arith

eof-special : (k : Item) → item_kind k ≡ TokenKind.eof → role k ≡ special
eof-special (of_kind k) e = ap role_of_kind e
eof-special if_line e = cc
eof-special endif_line e = cc
eof-special block_comment e = cc
eof-special open_comment e = cc

continues_on :
    (u : Scan) (k : Item)
    → u.tok.kind ≡ item_kind k
    → role k ≢ special
    → u.res ≡ complete
    → continues u ≡ true
unfolding continues is_mismatch
continues_on u k e n h = elim (Bool-cases (is_kind u.tok.kind TokenKind.eof)) [
  | inl y ↦ absurd (n (eof-special k (sym e ∙ (is_kind_iff u.tok.kind TokenKind.eof).0 y)))
  | inr x ↦ ground arith
]

top-ints :
    (s : Scan) (m : Bool) (st : List Bracket)
    → s.parent_stack ≡ ints m st
    → in_block_comment s.parent_stack ≡ false
top-ints s m st p = ap in_block_comment p ∙ ints-in_block_comment m st

-- The kind that is remembered behind a block comment.
comment-kind :
    (u : Scan) (k : TokenKind)
    → u.tok.kind ≡ TokenKind.r_comment
    → (remember u).kind
      ≡ (if is_kind TokenKind.r_comment TokenKind.space then k else TokenKind.r_comment)
unfolding remember is_kind as_int
comment-kind u k e = ground arith

nested-cursor :
    (m : Bool) (k : Item) (u : Scan) (o : Option (List Bracket))
    → (nested m k u o).cursor ≡ u.cursor
nested-cursor m k u none = refl
nested-cursor m k u (some st) = refl

-- The loop from a state on, as the recogniser goes on with the items.
abbrev Ends : Bool → List Bracket → TokenKind → List Item → Run Scan → Type 0
Ends m st k ks r = Returns (EndsAs (mark_all m st ks) (nest_all st ks) (last_kind k ks)) r

pub scan-EndsAs :
    {p : Bytes} {ks : List Item} (f : ℕ) (s : Scan) (m : Bool) (st : List Bracket)
    → Tokens p ks
    → s.cursor ≡ p
    → length p < f
    → s.parent_stack ≡ ints m st
    → s.res ≡ complete
    → Ends m st (remember s).kind ks (scan f s)
scan-EndsAs zero s m st (stop e q) c l p h = absurd (omega arith)
scan-EndsAs (suc f) s m st (stop {t} e q) c l p h =
    let ends = scan_step-lex s (ap lex c ∙ e) ∙ handle_eof (received s t _) q in
    rw (scan-suc f s _ ends, eof-stops (received s t _) q) (h, p, refl)
scan-EndsAs zero s m st (stop_hash e k w a d) c l p h = absurd (omega arith)
scan-EndsAs (suc f) s m st (stop_hash {q = q} {q'} {r} {t} {u} {n} e k w a d) c l p h =
    let ends =
      scan_step-lex s (ap lex c ∙ e) ∙ hash_end-steps m (received s t q) st u n q' r k p w a d in
    rw (scan-suc f s _ ends, eof-stops (record (received s t q) { tok = u; cursor = r }) d)
      (h, p, refl)
scan-EndsAs f s m st (stop_comment e k x) c l p h =
    Returns-mono InComment _ (scan f s)
      (scan-open_comment f s m st e k x (top-ints s m st p) c l p h) (λ t i. inr i)
scan-EndsAs f s m st (comment {r} {ks} e k x ts) c l p h =
    let rest : Passed f s m st r = scan-comment f s m st e k x (top-ints s m st p) c l p h in
    let n = marked-plain m block_comment st refl in
    rw rest.same (
      subst (λ j. Ends (marked m block_comment st) st j ks (scan rest.fuel rest.state))
        (comment-kind rest.state (remember s).kind rest.kind)
        (subst (λ n. Ends n st (remember rest.state).kind ks (scan rest.fuel rest.state)) (sym n)
          (scan-EndsAs rest.fuel rest.state m st ts rest.cursor rest.enough rest.stack rest.res)))
scan-EndsAs zero s m st (more x ts) c l p h = absurd (omega arith)
scan-EndsAs (suc f) s m st (more {r} {k} {ks} x ts) c l p h = rw (scan-suc f s _ round.steps) (
    go (nest (role k) st) λ st'.
      subst (λ j. Ends (marked m k st') st' j ks (scan f (nested m k u (some st'))))
        (remember-kind (nested m k u (some st')) s (item_kind k) round.kind round.last)
        (scan-EndsAs f (nested m k u (some st')) (marked m k st') st' ts round.cursor
          (omega (arith, shorter, ap length c)) refl (round.res ∙ h)))
  where
    round : Round m s st k r
    round = Reads-Round m s st x c p

    u : Scan
    u = round.state

    shorter : length r < length s.cursor
    shorter =
        let lt =
          Ensures-done (λ t. length t.cursor < length s.cursor) (scan_step-shorter s) round.steps in
        omega (arith, lt, ap length (nested-cursor m k u (nest (role k) st) ∙ round.cursor))

    next : TokenKind
    next = if is_kind (item_kind k) TokenKind.space then (remember s).kind else item_kind k

    go :
        (o : Option (List Bracket))
        → ((st' : List Bracket)
            → Ends (marked m k st') st' next ks (scan f (nested m k u (some st'))))
        → Returns
            (EndsAs
              (elim o [ none ↦ m | some st' ↦ mark_all (marked m k st') st' ks ])
              (elim o [ none ↦ none | some st' ↦ nest_all st' ks ])
              (last_kind next ks))
            (if continues (nested m k u o) then scan f (nested m k u o) else done (nested m k u o))
    go none ih = rw (continues_mismatch (nested m k u none) refl) (inl refl)
    go (some st') ih =
        rw (continues_on (nested m k u (some st')) k round.kind round.ordinary (round.res ∙ h))
          (ih st')
