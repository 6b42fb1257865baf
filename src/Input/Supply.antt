-- ===== src/Input/Supply.antt =====
-- What is read from `std::cin` is what the frontend sent.
use mathlib.Core.Path.{subst}
use xeus_cpp.Base.{
  ℕ, zero, suc, ◌+◌, ◌<◌, ◌≡◌, refl, ap, sym, ◌∙◌, true, [], ◌∷◌, ◌++◌, List, none, some, arith,
  Bytes, length, drop, get_elem?, append-nil, Option,
}
use xeus_cpp.Buffer.{underflow, head_or}
use xeus_cpp.World.{Outcome, returned, threw, undefined}
use xeus_cpp.Input.{Input, fill, fill_by, advance, advance_if, sbumpc, sgetn}

-- An answer with the newline that ends it, and the answers to `m` requests behind the first `k`.
abbrev pub ended : Bytes → Bytes
ended answer = answer ++ b'\n' ∷ []

unfoldable pub answered : (ℕ → Bytes) → ℕ → ℕ → Bytes
answered answers k zero = []
answered answers k (suc m) = ended (answers k) ++ answered answers (suc k) m

-- What waits in the get area.
abbrev pub pending : Input → Bytes
pending i = drop i.buffer.position i.buffer.m_value

drop-some {ℓ} :
    {A : Type ℓ} (xs : List A) (n : ℕ) (x : A)
    → get_elem? xs n ≡ some x
    → drop n xs ≡ x ∷ drop (suc n) xs
drop-some [] n x e = cc
drop-some (y ∷ ys) zero x e = cc
drop-some (y ∷ ys) (suc n) x e = drop-some ys n x e

drop-none {ℓ} : {A : Type ℓ} (xs : List A) (n : ℕ) → get_elem? xs n ≡ none → drop n xs ≡ []
drop-none [] zero e = refl
drop-none [] (suc n) e = refl
drop-none (y ∷ ys) zero e = cc
drop-none (y ∷ ys) (suc n) e = drop-none ys n e

-- A character is taken from the get area, or from a new answer if nothing waits there.
pub data Takes (answers : ℕ → Bytes) (i : Input) : Outcome ℕ × Input → Type 0 where
  waiting :
      (c : ℕ) (j : Input)
      → pending i ≡ c ∷ pending j
      → j.asked ≡ i.asked
      → j.allow_stdin ≡ true
      → Takes answers i (returned c, j)
  supplied :
      (c : ℕ) (j : Input)
      → pending i ≡ []
      → ended (answers i.asked) ≡ c ∷ pending j
      → j.asked ≡ suc i.asked
      → j.allow_stdin ≡ true
      → Takes answers i (returned c, j)

Takes-fill :
    (answers : ℕ → Bytes) (i : Input)
    → i.allow_stdin ≡ true
    → pending i ≡ []
    → Takes answers i (advance_if (fill answers i))
unfolding fill_by underflow
Takes-fill answers i allowed nothing =
    subst (λ b. Takes answers i (advance_if (fill_by b answers i))) (sym allowed)
      (supplied _ _ nothing (head_of (answers i.asked)) refl allowed)
  where
    head_of : (p : Bytes) → ended p ≡ head_or (ended p) ∷ drop 1 (ended p)
    head_of [] = refl
    head_of (c ∷ p) = refl

pub sbumpc-Takes :
    (answers : ℕ → Bytes) (i : Input) → i.allow_stdin ≡ true → Takes answers i (sbumpc answers i)
unfolding sbumpc
sbumpc-Takes answers i allowed = by_area (get_elem? i.buffer.m_value i.buffer.position) refl
  where
    by_area :
        (o : Option ℕ)
        → get_elem? i.buffer.m_value i.buffer.position ≡ o
        → Takes answers i
            (elim o [ none ↦ advance_if (fill answers i) | some c ↦ (returned c, advance i) ])
    by_area none e = Takes-fill answers i allowed (drop-none i.buffer.m_value i.buffer.position e)
    by_area (some c) e =
        waiting c (advance i) (drop-some i.buffer.m_value i.buffer.position c e) refl allowed

-- What reading `n` characters gives: that many, which with the rest are the text that waited and the answers to `m` new
-- requests, none of which was made while there was text for all the characters.
pub record Supplied (answers : ℕ → Bytes) (i : Input) (n : ℕ) (cs : Bytes) (j : Input)
    : Type 0 where
  pub m : ℕ
  pub count : length cs ≡ n
  pub text : cs ++ pending j ≡ pending i ++ answered answers i.asked m
  pub asked : j.asked ≡ i.asked + m
  pub allow_stdin : j.allow_stdin ≡ true
  pub lazy : (l : ℕ) → l < m → length (pending i ++ answered answers i.asked l) < n

abbrev got : (ℕ → Bytes) → ℕ → Outcome ℕ × Input → Bytes × Input
got answers n r =
    let (cs, k) = sgetn n answers r.1 in
    elim r.0 [ returned c ↦ (c ∷ cs, k) | threw e ↦ ([], r.1) | undefined ↦ ([], r.1) ]

Supplied-got :
    (answers : ℕ → Bytes) (i : Input) (n : ℕ) (r : Outcome ℕ × Input)
    → Takes answers i r
    → ((j : Input)
        → j.allow_stdin ≡ true
        → let (cs, k) = sgetn n answers j in Supplied answers j n cs k)
    → let (cs, k) = got answers n r in Supplied answers i (suc n) cs k
unfolding answered
Supplied-got answers i n r (waiting c j w a b) h =
    let s = h j b in
    record {
      m = s.m;
      count = ap suc s.count;
      text = rw w (ap (◌∷◌ c) (s.text ∙ ap (λ k. pending j ++ answered answers k s.m) a));
      asked = s.asked ∙ ap (λ k. k + s.m) a;
      allow_stdin = s.allow_stdin;
      lazy = λ l t.
          rw w (omega (arith, ap (λ k. length (pending j ++ answered answers k l)) a, s.lazy l t));
    }
Supplied-got answers i n r (supplied c j w e a b) h =
    let s = h j b in
    record {
      m = suc s.m;
      count = ap suc s.count;
      text = rw (w, e) (ap (◌∷◌ c) (s.text ∙ ap (λ k. pending j ++ answered answers k s.m) a));
      asked = omega (arith, s.asked, a);
      allow_stdin = s.allow_stdin;
      lazy = lazy;
    }
  where
    lazy : (l : ℕ) → l < suc (h j b).m → length (pending i ++ answered answers i.asked l) < suc n
    lazy zero t = rw w (omega arith)
    lazy (suc l) t =
        rw (w, e)
          (omega (
            arith,
            t,
            ap (λ k. length (pending j ++ answered answers k l)) a,
            (h j b).lazy l (omega (arith, t)),
          ))

-- While input is allowed, reading `n` characters through the buffer behind `std::cin` gives exactly `n` characters: these and
-- what is left waiting are the text that waited before and the answers to the new input requests, each with a newline at
-- its end, in their order. No input request is sent while the text there is enough for all the characters.
pub sgetn-Supplied :
    (answers : ℕ → Bytes) (n : ℕ) (i : Input)
    → i.allow_stdin ≡ true
    → let (cs, j) = sgetn n answers i in Supplied answers i n cs j
unfolding sgetn
sgetn-Supplied answers zero i b = record {
  m = 0;
  count = refl;
  text = unfold answered in sym (append-nil (pending i));
  asked = omega arith;
  allow_stdin = b;
  lazy = λ l t. omega (arith, t);
}
sgetn-Supplied answers (suc n) i b =
    Supplied-got answers i n (sbumpc answers i) (sbumpc-Takes answers i b)
      (sgetn-Supplied answers n)
