-- ===== src/Validator/Total.antt =====
-- `validate` ends, and it stays inside the buffer on inputs without quotes.
use xeus_cpp.Base.{ℕ, suc, ◌≡◌, ◌≢◌, refl, [], ◌∷◌, ◌++◌, List, arith, Bytes, length}
use xeus_cpp.Base.Run.{
  Run, done, out_of_fuel, Ensures, Ensures-bind, Ensures-mono, Returns, Returns-bind,
  Returns-Ensures, Returns-some,
}
use xeus_cpp.Lexer.Progress.{skip_whitespace-Follows, lex-shorter}
use xeus_cpp.Lexer.Bounds.{Ends, skip_whitespace-Ends}
use xeus_cpp.Lexer.Tokens.{All}
use xeus_cpp.Lexer.{skip_whitespace, lex}
use xeus_cpp.Scan.Fuel.{scan_step-shorter, scan-Ensures}
use xeus_cpp.Scan.Bounds.{no_quote, lex-Inside, scan-Inside}
use xeus_cpp.Scan.{ValidationResult, scan, scan_step}
use xeus_cpp.Validator.{Validator, check_template, validate, start}

check_template-Ensures : (ks : List ℕ) (p : Bytes) → Ensures (λ _. Unit {0}) (check_template ks p)
unfolding check_template
check_template-Ensures [] p =
    Ensures-bind _ _ (skip_whitespace p) _ (skip_whitespace-Follows p)
      λ x _. Ensures-bind _ _ (lex x.1) _ (lex-shorter x.1) (λ _ _. tt)
check_template-Ensures (k ∷ ks) p = tt

Ensures-ne-out_of_fuel {ℓ} :
    {A : Type ℓ} (P : A → Type 0) (m : Run A) → Ensures P m → m ≢ out_of_fuel
Ensures-ne-out_of_fuel P m h e = rw e at h

-- The loop of `validate` ends on every input, whatever the stack and the indent width: the fuel, one
-- more than the length of the buffer, never runs out.
pub validate-ne-out_of_fuel :
    (v : Validator) (input : Bytes) (nb_char_indent : ℕ)
    → validate v input nb_char_indent ≢ out_of_fuel
unfolding validate
validate-ne-out_of_fuel v input n =
    let buffer : Bytes = input ++ 0 ∷ [] in
    Ensures-ne-out_of_fuel (λ _. Unit {0}) _
      (Ensures-bind _ _ (check_template v.parent_stack buffer) _
        (check_template-Ensures v.parent_stack buffer)
        λ ks _. Ensures-bind _ _ (skip_whitespace buffer) _ (skip_whitespace-Follows buffer) λ x h.
          Ensures-bind _ _ (scan (suc (length buffer)) (start x.1 ks)) _
            (scan-Ensures (λ _. Unit {0})
              (λ s _. Ensures-mono _ _ (scan_step s) (scan_step-shorter s) (λ _ _. tt)) _
              (start x.1 ks) (omega arith) tt)
            (λ _ _. tt))

-- An input with no quote in it.
abbrev pub Quoteless : Bytes → Type 0
Quoteless = All no_quote

pub Ends-Quoteless : (input : Bytes) → Quoteless input → Ends no_quote (input ++ 0 ∷ [])
Ends-Quoteless [] h = refl
Ends-Quoteless (c ∷ []) h = (h.0, refl)
Ends-Quoteless (c ∷ d ∷ p) h = (h.0, Ends-Quoteless (d ∷ p) h.1)

check_template-Returns :
    (ks : List ℕ) (p : Bytes) → Ends no_quote p → Returns (λ _. Unit {0}) (check_template ks p)
unfolding check_template
check_template-Returns [] p h =
    Returns-bind _ _ (skip_whitespace p) _ (skip_whitespace-Ends no_quote p h)
      λ x k. Returns-bind _ _ (lex x.1) _ (lex-Inside x.1 k) (λ _ _. tt)
check_template-Returns (k ∷ ks) p h = tt

-- On an input without quotes `validate` returns a result: it reads nothing outside the buffer.
pub validate-Quoteless :
    (v : Validator) (input : Bytes) (nb_char_indent : ℕ)
    → Quoteless input
    → (x : Validator × ValidationResult) × (validate v input nb_char_indent ≡ done x)
unfolding validate
validate-Quoteless v input n h =
    let buffer : Bytes = input ++ 0 ∷ [] in
    let inside : Ends no_quote buffer = Ends-Quoteless input h in
    let (x, e, _) =
      Returns-some (λ _. Unit {0}) _
        (Returns-bind _ _ (check_template v.parent_stack buffer) _
          (check_template-Returns v.parent_stack buffer inside)
          λ ks _.
            Returns-bind _ _ (skip_whitespace buffer) _
              (Returns-Ensures _ _ (skip_whitespace buffer)
                (skip_whitespace-Ends no_quote buffer inside) (skip_whitespace-Follows buffer))
              λ x k.
                Returns-bind _ _ (scan (suc (length buffer)) (start x.1 ks)) _
                  (scan-Inside _ (start x.1 ks) (omega arith) k.0) (λ _ _. tt)) in
    (x, e)
