-- ===== src/Question/Suffix.antt =====
-- What is looked up with the cursor behind a word.
use xeus_cpp.Base.{
  ℕ, ◌≡◌, refl, ap, ◌∙◌, Bool, true, false, ◌==◌, [], ◌∷◌, ◌++◌, List, Bytes, take-length_append,
  length, arith, Bool-cases, inl, inr,
}
use xeus_cpp.Pattern.{is_word, after_run}
use xeus_cpp.Pattern.Runs.{All, after_run-All}
use xeus_cpp.Inspect.{XmlLib, Interop, Entry, inspect}
use xeus_cpp.Question.{
  all_dots, closes, second_colon, is_group, is_tail, question_in, answer_of, inspect_request,
}

-- The last byte is one of a word.
abbrev pub word_end : Bytes → Bool
word_end [] = false
word_end (c ∷ []) = is_word c
word_end (c ∷ d ∷ p) = word_end (d ∷ p)

all_dots-word_end : (p : Bytes) → word_end p ≡ true → all_dots p ≡ false
unfolding all_dots is_word
all_dots-word_end [] h = cc
all_dots-word_end (c ∷ []) h = ground arith
all_dots-word_end (c ∷ d ∷ p) h = ground (arith, all_dots-word_end (d ∷ p) h)

word-ne : (b c : ℕ) → is_word b ≡ false → is_word c ≡ true → (c == b) ≡ false
word-ne b c h k = ground arith

closes-word_end : (b : ℕ) (p : Bytes) → is_word b ≡ false → word_end p ≡ true → closes b p ≡ false
unfolding closes
closes-word_end b [] n h = refl
closes-word_end b (c ∷ []) n h = ground (arith, word-ne b c n h)
closes-word_end b (c ∷ d ∷ p) n h =
    ground (arith, all_dots-word_end (d ∷ p) h, closes-word_end b (d ∷ p) n h)

second_colon-word_end : (p : Bytes) → word_end p ≡ true → second_colon p ≡ false
unfolding is_word
second_colon-word_end [] h = refl
second_colon-word_end (c ∷ []) h = ground arith
second_colon-word_end (c ∷ d ∷ p) h = ground (arith, all_dots-word_end (d ∷ p) h)

no_words : (is_word b'>' ≡ false) × (is_word b')' ≡ false) × (is_word b']' ≡ false)
unfolding is_word
no_words = (refl, refl, refl)

-- A group of the expression does not end in a word.
is_group-word_end : (c : ℕ) (p : Bytes) → word_end p ≡ true → is_group (c ∷ p) ≡ false
unfolding is_group all_dots
is_group-word_end c p h =
    rw
      (
        all_dots-word_end p h,
        second_colon-word_end p h,
        closes-word_end b'>' p no_words.0 h,
        closes-word_end b')' p no_words.1 h,
        closes-word_end b']' p no_words.2 h,
      )
      (ground arith)

word_end-append :
    (pre : Bytes) (d : ℕ) (w : Bytes) → word_end w ≡ true → word_end (pre ++ (d ∷ w)) ≡ true
word_end-append [] d [] h = cc
word_end-append [] d (c ∷ w) h = h
word_end-append (c ∷ []) d w h = word_end-append [] d w h
word_end-append (c ∷ e ∷ pre) d w h = word_end-append (e ∷ pre) d w h

-- Such a text with a byte that is in no word matches nothing.
is_tail-no_word :
    (pre : Bytes) (d : ℕ) (w : Bytes)
    → is_word d ≡ false
    → word_end w ≡ true
    → is_tail (pre ++ (d ∷ w)) ≡ false
unfolding is_tail after_run
is_tail-no_word [] d w n h = rw n (is_group-word_end d w h)
is_tail-no_word (c ∷ pre) d w n h = elim (Bool-cases (is_word c)) [
  | inl e ↦ rw e (is_tail-no_word pre d w n h)
  | inr e ↦ rw e (is_group-word_end c (pre ++ (d ∷ w)) (word_end-append pre d w h))
]

All-word_end : (c : ℕ) (w : Bytes) → All is_word (c ∷ w) → word_end (c ∷ w) ≡ true
All-word_end c [] h = h.0
All-word_end c (d ∷ w) h = All-word_end d w h.1

question_in-word : (c : ℕ) (w : Bytes) → All is_word (c ∷ w) → question_in (c ∷ w) ≡ c ∷ w
unfolding question_in is_tail is_group
question_in-word c w h = rw (after_run-All is_word (c ∷ w) h) refl

question_in-append :
    (pre : Bytes) (d c : ℕ) (w : Bytes)
    → is_word d ≡ false
    → All is_word (c ∷ w)
    → question_in (pre ++ (d ∷ (c ∷ w))) ≡ c ∷ w
unfolding question_in
question_in-append [] d c w n h =
    rw (is_tail-no_word [] d (c ∷ w) n (All-word_end c w h)) (question_in-word c w h)
question_in-append (e ∷ pre) d c w n h =
    rw (is_tail-no_word (e ∷ pre) d (c ∷ w) n (All-word_end c w h))
      (question_in-append pre d c w n h)

-- With the cursor behind a word, in front of which stands a byte that is in no word, exactly the word is looked up,
-- whatever stands in front of that byte or behind the cursor: of `v.size` only `size`, of `std::vector` only `vector`.
pub inspect_request-word :
    (xml : XmlLib) (cpp : Interop) (dir : Bytes) (confs : List Entry) (n : ℕ) (pre : Bytes)
    (d c : ℕ) (w rest : Bytes)
    → is_word d ≡ false
    → All is_word (c ∷ w)
    → inspect_request xml cpp dir confs n
        ((pre ++ (d ∷ (c ∷ w))) ++ rest)
        (length (pre ++ (d ∷ (c ∷ w))))
      ≡ (answer_of (inspect xml cpp dir confs n (c ∷ w)).0, (inspect xml cpp dir confs n (c ∷ w)).1)
unfolding inspect_request
inspect_request-word xml cpp dir confs n pre d c w rest no_word word =
    ap (λ q. (answer_of (inspect xml cpp dir confs n q).0, (inspect xml cpp dir confs n q).1))
      (ap question_in (take-length_append (pre ++ (d ∷ (c ∷ w))) rest)
        ∙ question_in-append pre d c w no_word word)
