-- ===== src/Scan/Stack.antt =====
-- The shape of the stack of open parents.
use xeus_cpp.Base.{
  ℕ, ◌≡◌, refl, ap, inl, inr, Bool, true, false, ◌&&◌, ◌||◌, List, [], ◌∷◌, ◌==◌, arith, if_split,
  Bool-cases, if◌then◌else◌,
}
use xeus_cpp.Base.Run.{done, Ensures, Ensures-bind}
use xeus_cpp.Token.{TokenKind, as_int, is_kind, is_kind_iff}
use xeus_cpp.Lexer.Progress.{
  skip_whitespace-Follows, read_to_end_of_line-Follows, lex_any_string-Follows, lex-shorter,
}
use xeus_cpp.Lexer.{skip_whitespace, lex_any_string, read_to_end_of_line, lex}
use xeus_cpp.Scan.{
  Scan, in_block_comment, pop_back, pop_template, switch, directive, close_conditional,
  close_bracket, push_kind, handle, received, scan_step,
}

-- An open bracket or an open `#if`.
unfoldable pub is_opener : ℕ → Bool
unfolding as_int
is_opener k =
    k == as_int TokenKind.l_square
    || k == as_int TokenKind.l_paren
    || k == as_int TokenKind.l_brace
    || k == as_int TokenKind.hash

-- Openers, with a template marker at the front of the deque at most.
unfoldable pub is_code_stack : List ℕ → Bool
unfolding is_opener
is_code_stack [] = true
is_code_stack (k ∷ []) = is_opener k || k == as_int TokenKind.less
is_code_stack (k ∷ j ∷ ks) = is_opener k && is_code_stack (j ∷ ks)

-- A block comment is open at the back at most.
unfoldable pub is_parent_stack : List ℕ → Bool
is_parent_stack [] = true
is_parent_stack (k ∷ ks) =
    if k == as_int TokenKind.l_comment then is_code_stack ks else is_code_stack (k ∷ ks)

abbrev pub IsParents : List ℕ → Type 0
IsParents ks = is_parent_stack ks ≡ true

-- The stack that the word `template` starts.
pub template-IsParents : IsParents (as_int TokenKind.less ∷ [])
unfolding is_parent_stack is_code_stack is_opener as_int
template-IsParents = refl

code-IsParents : (ks : List ℕ) → is_code_stack ks ≡ true → IsParents ks
unfolding is_parent_stack is_code_stack
code-IsParents [] h = refl
code-IsParents (k ∷ []) h = ground arith
code-IsParents (k ∷ j ∷ ks) h = ground arith

IsParents-code :
    (ks : List ℕ) → in_block_comment ks ≡ false → IsParents ks → is_code_stack ks ≡ true
unfolding is_parent_stack in_block_comment
IsParents-code [] n h = unfold is_code_stack in refl
IsParents-code (k ∷ ks) n h = rw n at h

code-cons :
    (k : ℕ) (ks : List ℕ)
    → is_opener k ≡ true
    → is_code_stack ks ≡ true
    → is_code_stack (k ∷ ks) ≡ true
unfolding is_code_stack
code-cons k [] o h = ground arith
code-cons k (j ∷ ks) o h = ground arith

code-pop_back : (ks : List ℕ) → is_code_stack ks ≡ true → is_code_stack (pop_back ks) ≡ true
unfolding is_code_stack
code-pop_back [] h = refl
code-pop_back (k ∷ []) h = refl
code-pop_back (k ∷ j ∷ ks) h = ground arith

IsParents-pop_back : (ks : List ℕ) → IsParents ks → is_code_stack (pop_back ks) ≡ true
unfolding is_parent_stack
IsParents-pop_back [] h = unfold is_code_stack in refl
IsParents-pop_back (k ∷ ks) h = ground (arith, code-pop_back (k ∷ ks))

code-pop_template : (ks : List ℕ) → is_code_stack ks ≡ true → is_code_stack (pop_template ks) ≡ true
unfolding pop_template
code-pop_template ks h = ground (arith, code-pop_back ks)

code-close_bracket :
    (s : Scan)
    → is_code_stack s.parent_stack ≡ true
    → is_code_stack (close_bracket s).parent_stack ≡ true
unfolding close_bracket
code-close_bracket s h =
    ground (arith, code-pop_back s.parent_stack, code-pop_template (pop_back s.parent_stack))

code-close_conditional :
    (s : Scan)
    → is_code_stack s.parent_stack ≡ true
    → is_code_stack (close_conditional s).parent_stack ≡ true
unfolding close_conditional
code-close_conditional s h = ground (arith, code-pop_back s.parent_stack)

code-directive :
    (s : Scan)
    → is_code_stack s.parent_stack ≡ true
    → is_code_stack (directive s).parent_stack ≡ true
unfolding directive is_opener
code-directive s h = ground (
  arith,
  code-close_conditional s,
  code-cons (as_int TokenKind.hash) s.parent_stack (unfold is_opener as_int in refl),
)

abbrev Parents : Scan → Type 0
Parents s = IsParents s.parent_stack

-- A bracket of this kind is pushed.
push-Parents :
    (k : TokenKind) (s : Scan)
    → s.tok.kind ≡ k
    → is_opener (as_int k) ≡ true
    → is_code_stack s.parent_stack ≡ true
    → Ensures Parents (done (push_kind s))
unfolding push_kind
push-Parents k s e o h = code-IsParents _ (code-cons (as_int s.tok.kind) s.parent_stack (rw e o) h)

comment-Parents :
    (s : Scan)
    → s.tok.kind ≡ TokenKind.l_comment
    → is_code_stack s.parent_stack ≡ true
    → Parents (push_kind s)
unfolding push_kind is_parent_stack
comment-Parents s e h = ground (arith, ap as_int e)

r_comment-Parents :
    (k : TokenKind) (s : Scan) → k ≡ TokenKind.r_comment → Parents s → Ensures Parents (switch k s)
unfolding switch
r_comment-Parents k s e p = rw e (
    if_split Parents (in_block_comment s.parent_stack)
      (λ _. code-IsParents _ (IsParents-pop_back s.parent_stack p)) (λ _. p))

-- Outside a block comment.
switch-Parents :
    (k : TokenKind) (s : Scan)
    → s.tok.kind ≡ k
    → is_code_stack s.parent_stack ≡ true
    → Ensures Parents (switch k s)
unfolding switch
switch-Parents TokenKind.comment s e h =
    Ensures-bind _ _ (read_to_end_of_line s.cursor) _ (read_to_end_of_line-Follows s.cursor)
      (λ x _. code-IsParents s.parent_stack h)
switch-Parents TokenKind.r_comment s e h =
    r_comment-Parents TokenKind.r_comment s refl (code-IsParents s.parent_stack h)
switch-Parents TokenKind.l_comment s e h = comment-Parents s e h
switch-Parents TokenKind.l_square s e h = push-Parents _ s e (unfold is_opener as_int in refl) h
switch-Parents TokenKind.l_paren s e h = push-Parents _ s e (unfold is_opener as_int in refl) h
switch-Parents TokenKind.l_brace s e h = push-Parents _ s e (unfold is_opener as_int in refl) h
switch-Parents TokenKind.r_square s e h = code-IsParents _ (code-close_bracket s h)
switch-Parents TokenKind.r_paren s e h = code-IsParents _ (code-close_bracket s h)
switch-Parents TokenKind.r_brace s e h = code-IsParents _ (code-close_bracket s h)
switch-Parents TokenKind.semicolon s e h = code-IsParents _ (code-pop_template s.parent_stack h)
switch-Parents TokenKind.hash s e h =
    Ensures-bind _ _ (skip_whitespace s.cursor) _ (skip_whitespace-Follows s.cursor) λ x _.
      Ensures-bind _ _ (lex_any_string x.1) _ (lex_any_string-Follows x.1)
        λ y _. code-IsParents _ (code-directive (record s { tok = y.0; cursor = y.1 }) h)
switch-Parents _ s e h = code-IsParents s.parent_stack h

handle-Parents : (s : Scan) → Parents s → Ensures Parents (handle s)
unfolding handle
handle-Parents s p = elim (Bool-cases (in_block_comment s.parent_stack)) [
  | inl b ↦ elim (Bool-cases (is_kind s.tok.kind TokenKind.r_comment)) [
    | inl r ↦
        rw (b, r)
          (r_comment-Parents s.tok.kind s ((is_kind_iff s.tok.kind TokenKind.r_comment).0 r) p)
    | inr n ↦ rw (b, n) p
  ]
  | inr n ↦ rw n (switch-Parents s.tok.kind s refl (IsParents-code s.parent_stack n p))
]

-- Each round of the loop keeps the shape of the stack.
pub scan_step-Parents :
    (s : Scan) → IsParents s.parent_stack → Ensures (λ t. IsParents t.parent_stack) (scan_step s)
unfolding scan_step
scan_step-Parents s p =
    Ensures-bind _ _ (lex s.cursor) _ (lex-shorter s.cursor)
      (λ x _. handle-Parents (received s x.0 x.1) p)
