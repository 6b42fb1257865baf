-- ===== src/Assist/Chat/Frame.antt =====
-- Computations that neither meet undefined behaviour nor touch one file, and the exchanges with the models.
use xeus_cpp.Base.{
  List, Bytes, Bool, true, false, [], ◌≡◌, refl, ◌∙◌, Option, none, some, equal, if◌then◌else◌,
  arith, Option-cases, inl, inr,
}
use xeus_cpp.World.{
  Access, World, M, Outcome, returned, threw, undefined, ◌>>◌, ◌>>=◌, bind_outcome, pure, report,
  report_line, print,
}
use xeus_cpp.World.Disk.{lookup}
use xeus_cpp.Assist.Settings.{load}
use xeus_cpp.Assist.History.{chat_history_path, append_and_read_back}
use xeus_cpp.Assist.History.Messages.{lookup-append_file}
use xeus_cpp.Assist.Chat.{or_throw}

module _ (path : Bytes) where
  -- The end is not undefined, and the file at the path is what it was in the world.
  unfoldable pub Spared : {A : Type 0} → World → Outcome A × World → Type 0
  Spared w (returned a, w') = lookup path w'.files ≡ lookup path w.files
  Spared w (threw e, w') = lookup path w'.files ≡ lookup path w.files
  Spared w (undefined, w') = ⊥

  abbrev pub Spares : {A : Type 0} → M A → Type 0
  Spares m = (w : World) → Spared w (m w)

  pub Spared-trans :
      {A : Type 0} (w v : World) (r : Outcome A × World)
      → lookup path v.files ≡ lookup path w.files
      → Spared v r
      → Spared w r
  unfolding Spared
  Spared-trans w v (returned a, u) e h = h ∙ e
  Spared-trans w v (threw x, u) e h = h ∙ e
  Spared-trans w v (undefined, u) e h = h

  pub Spared-bind :
      {A B : Type 0} (w : World) (r : Outcome A × World) (f : A → M B)
      → Spared w r
      → ((a : A) → Spares (f a))
      → Spared w (bind_outcome r f)
  unfolding Spared
  Spared-bind w (returned a, v) f h k = Spared-trans w v (f a v) h (k a v)
  Spared-bind w (threw x, v) f h k = h
  Spared-bind w (undefined, v) f h k = h

  pub Spares-bind :
      {A B : Type 0} (m : M A) (f : A → M B)
      → Spares m
      → ((a : A) → Spares (f a))
      → Spares (m >>= f)
  Spares-bind m f h k w = Spared-bind w (m w) f (h w) k

  pub Spares-pure : {A : Type 0} (a : A) → Spares (pure a)
  unfolding Spared
  Spares-pure a w = refl

  pub Spares-report : (text : List Bytes) → Spares (report text)
  unfolding Spared report
  Spares-report text w = refl

  pub Spares-report_line : (text : List Bytes) → Spares (report_line text)
  unfolding Spared report_line
  Spares-report_line text w = refl

  pub Spares-print : (text : Bytes) → Spares (print text)
  unfolding Spared print
  Spares-print text w = refl

  pub Spares-or_throw : {A : Type 0} (o : Option A) → Spares (or_throw o)
  unfolding Spared
  Spares-or_throw none w = refl
  Spares-or_throw (some a) w = refl

  pub Spares-complain : (text : List Bytes) → Spares {A = Bytes} (report_line text >> pure [])
  Spares-complain text =
      Spares-bind (report_line text) (λ _. pure []) (Spares-report_line text) λ _. Spares-pure []

  pub Spares-if :
      {A : Type 0} (t : Bool) (m n : M A) → Spares m → Spares n → Spares (if t then m else n)
  Spares-if true m n h k = h
  Spares-if false m n h k = k

  pub Spares-if_when :
      {A : Type 0} (t : Bool) (m n : M A)
      → (t ≡ true → Spares m)
      → Spares n
      → Spares (if t then m else n)
  Spares-if_when true m n h k = h refl
  Spares-if_when false m n h k = k

  pub Spared-if :
      {A : Type 0} (w : World) (t : Bool) (r s : Outcome A × World)
      → Spared w r
      → Spared w s
      → Spared w (if t then r else s)
  Spared-if w true r s h k = h
  Spared-if w false r s h k = k

  module _ (access : Access) where
    pub Spares-load : (file : Bytes) (complaint : List Bytes) → Spares (load access file complaint)
    unfolding load Spared report_line
    Spares-load file complaint w =
        Spared-if w (access.readable file) _ _
          (elim (Option-cases (lookup file w.files)) [
            | inl e ↦ ground arith
            | inr (v, e) ↦ ground arith
          ])
          refl

    pub Spares-append_and_read_back :
        (model user cell : Bytes)
        → equal (chat_history_path model) path ≡ false
        → Spares (append_and_read_back access model user cell)
    unfolding append_and_read_back Spared report_line
    Spares-append_and_read_back model user cell n w =
        Spared-if w (access.writable (chat_history_path model)) _ _
          (lookup-append_file access (chat_history_path model) path _ w.files n) refl
