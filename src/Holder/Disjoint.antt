-- ===== src/Holder/Disjoint.antt =====
-- The patterns of the preambles exclude one another.
use xeus_cpp.Base.{
  ℕ, ◌≡◌, ◌≢◌, refl, sym, ◌∙◌, true, false, [], ◌∷◌, Option, none, some, arith, Bytes, if_split,
}
use xeus_cpp.Pattern.{behind}
use xeus_cpp.Magics.{is_magic, cell_name, line_name}
use xeus_cpp.Inspect.{is_inspect}
use xeus_cpp.Shell.{is_shell}
use xeus_cpp.Holder.{
  Preamble, introspection, magics, shell, matches, is_match, Manager, first_match,
}

-- The byte that a code has to begin with.
abbrev pub mark : Preamble → ℕ
mark introspection = b'?'
mark (magics m) = b'%'
mark shell = b'!'

begins : (p : Preamble) (c : ℕ) (code : Bytes) → matches p (c ∷ code) ≡ true → c ≡ mark p
unfolding matches is_inspect is_magic is_shell behind cell_name line_name
begins introspection c code h = ground arith
begins (magics m) c code h = ground arith
begins shell c code h = ground arith

never_empty : (p : Preamble) → matches p [] ≡ false
unfolding matches is_inspect is_magic is_shell behind cell_name line_name
never_empty introspection = refl
never_empty (magics m) = refl
never_empty shell = refl

-- No code matches preambles of two classes.
pub mark-matches :
    (p q : Preamble) (code : Bytes)
    → matches p code ≡ true
    → matches q code ≡ true
    → mark p ≡ mark q
mark-matches p q [] h k = absurd (cc (h, never_empty p))
mark-matches p q (c ∷ code) h k = sym (begins p c code h) ∙ begins q c code k

-- The preamble stands under some name, and no two preambles are of one class.
pub data Holds (p : Preamble) : Manager → Type 0 where
  here : {name : Bytes} {m : Manager} → Holds p ((name, some p) ∷ m)
  there : {name : Bytes} {h : Option Preamble} {m : Manager} → Holds p m → Holds p ((name, h) ∷ m)

abbrev Differs : ℕ → Manager → Type 0
Differs b [] = Unit
Differs b ((name, none) ∷ m) = Differs b m
Differs b ((name, some p) ∷ m) = (mark p ≢ b) × Differs b m

abbrev pub OnePerClass : Manager → Type 0
OnePerClass [] = Unit
OnePerClass ((name, none) ∷ m) = OnePerClass m
OnePerClass ((name, some p) ∷ m) = Differs (mark p) m × OnePerClass m

Holds-Differs : (p : Preamble) (b : ℕ) {m : Manager} → Holds p m → Differs b m → mark p ≢ b
Holds-Differs p b here d = d.0
Holds-Differs p b (there {h = none} k) d = Holds-Differs p b k d
Holds-Differs p b (there {h = some q} k) d = Holds-Differs p b k d.1

-- Where the manager holds one preamble of each class at most, and the code matches one that it holds, the loop takes that
-- one, whatever the names and their order.
pub first_match-Holds :
    (p : Preamble) (code : Bytes) {m : Manager}
    → Holds p m
    → OnePerClass m
    → matches p code ≡ true
    → first_match code m ≡ some p
unfolding first_match is_match
first_match-Holds p code here o h = rw h
first_match-Holds p code (there {h = none} k) o h = first_match-Holds p code k o h
first_match-Holds p code (there {h = some q} k) o h =
    if_split (λ r. r ≡ some p) (matches q code)
      (λ e. absurd (Holds-Differs p (mark q) k o.0 (mark-matches p q code h e)))
      (λ _. first_match-Holds p code k o.1 h)
