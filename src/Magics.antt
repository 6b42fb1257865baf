-- ===== src/Magics.antt =====
-- `xmagics_manager` of include/xeus-cpp/xmanager.hpp and the magics' interfaces of include/xeus-cpp/xmagics.hpp.
pub mod Syntax
pub mod Registry
pub mod Dispatch
pub mod Endings
pub mod Bare
use xeus_cpp.Base.{
  ℕ, Bool, true, false, [], ◌∷◌, ◌++◌, List, Option, none, some, codes, Bytes, is_empty,
  if◌then◌else◌, is_space, ◌==◌, not, ◌||◌,
}
use xeus_cpp.Base.Map.{Map, lookup, insert, erase}
use xeus_cpp.Pattern.{is_any, run, after_run, behind, word_of, is_word}
use xeus_cpp.World.{
  World, M, Outcome, returned, threw, undefined, Thrown, runtime_error, logic_error, exception,
  other, ◌>>=◌, ◌>>◌, pure, fault, report, report_line, flush_out,
}

-- The JSON object of a reply, as far as the code fills it in: the fields that are set one by one (a traceback that is
-- `none` is the JSON value null), or the arguments of a function of xeus that composes it: a successful reply may carry a page, as plain text and as HTML.
pub data KernelRes : Type 0 where
  null : KernelRes
  status_ok : KernelRes
  status_error : Bytes → Bytes → Option (List Bytes) → KernelRes
  successful_reply : Option (Bytes × Bytes) → KernelRes
  error_reply : Bytes → Bytes → List Bytes → KernelRes
  named_error_reply : Bytes → KernelRes

pub data MagicType : Type 0 where
  cell line : MagicType

abbrev pub LineMagic : Type 0
LineMagic = Bytes → M (Unit {0})

abbrev pub CellMagic : Type 0
CellMagic = Bytes → Bytes → M (Unit {0})

-- An object of a class that is derived from `xmagic_line`, from `xmagic_cell`, or from both.
pub record Magic : Type 0 where
  pub as_line : Option LineMagic
  pub as_cell : Option CellMagic

pub record MagicsManager : Type 0 where
  pub m_magic_cell : Map CellMagic
  pub m_magic_line : Map LineMagic

abbrev pub new_magics_manager : MagicsManager
new_magics_manager = record { m_magic_cell = []; m_magic_line = [] }

abbrev pub insert_if {ℓ} : {V : Type ℓ} → Bytes → Option V → Map V → Map V
insert_if k none m = m
insert_if k (some v) m = insert k v m

unfoldable pub register_magic : Bytes → Magic → MagicsManager → MagicsManager
register_magic name magic m = record {
  m_magic_cell = insert_if name magic.as_cell m.m_magic_cell;
  m_magic_line = insert_if name magic.as_line m.m_magic_line;
}

unfoldable pub unregister_magic : Bytes → MagicsManager → MagicsManager
unregister_magic name m = record {
  m_magic_cell = erase name m.m_magic_cell;
  m_magic_line = erase name m.m_magic_line;
}

abbrev pub is_some {ℓ} : {V : Type ℓ} → Option V → Bool
is_some none = false
is_some (some v) = true

unfoldable pub contains : MagicsManager → Bytes → MagicType → Bool
contains m name cell = is_some (lookup name m.m_magic_cell)
contains m name line = is_some (lookup name m.m_magic_line)

-- The pointer in the map is called; a name that the map does not hold gets a null pointer.
abbrev pub call_cell : Option CellMagic → Bytes → Bytes → M (Unit {0})
call_cell none args content = fault
call_cell (some magic) args content = magic args content

abbrev pub call_line : Option LineMagic → Bytes → M (Unit {0})
call_line none args = fault
call_line (some magic) args = magic args

abbrev pub recovering : M (Unit {0})
recovering = report (codes "Exception occurred. Recovering...\n" ∷ [])

-- The handlers of the two overloads of `apply`.
abbrev pub recover_cell : Outcome (Unit {0}) × World → Outcome (Unit {0}) × World
recover_cell (returned a, w) = (returned a, w)
recover_cell (threw (runtime_error what), w) = report_line (what ∷ []) w
recover_cell (threw (logic_error what), w) = report_line (what ∷ []) w
recover_cell (threw (exception what), w) = report_line (what ∷ []) w
recover_cell (threw other, w) = recovering w
recover_cell (undefined, w) = (undefined, w)

abbrev pub recover_line : Outcome (Unit {0}) × World → Outcome (Unit {0}) × World
recover_line (returned a, w) = (returned a, w)
recover_line (threw (runtime_error what), w) = report_line (what ∷ []) w
recover_line (threw (logic_error what), w) = report_line (what ∷ []) w
recover_line (threw (exception what), w) = recovering w
recover_line (threw other, w) = recovering w
recover_line (undefined, w) = (undefined, w)

unfoldable pub usage_error : MagicsManager → Bytes → M (Unit {0})
usage_error m name =
    report_line
      (codes "UsageError: %%" ∷ name ∷ codes " is a cell magic, but the cell body is empty." ∷ [])
    >> (report (
          codes "If you only intend to display %%"
          ∷ name
          ∷ codes " help, please use a double line break to fill in the cell body."
          ∷ [])
        >> ((if contains m name line
              then report
                  (codes " Did you mean the line magic %" ∷ name ∷ codes " (single %)?" ∷ [])
              else pure tt)
            >> report (codes "\n" ∷ [])))

unfoldable pub apply_cell : MagicsManager → Bytes → Bytes → Bytes → M (Unit {0})
apply_cell m name args content w =
    if is_empty content
    then usage_error m name w
    else recover_cell (call_cell (lookup name m.m_magic_cell) args content w)

unfoldable pub apply_line : MagicsManager → Bytes → Bytes → M (Unit {0})
apply_line m name args w = recover_line (call_line (lookup name m.m_magic_line) args w)

-- The word behind `^\%{2}(\w+)`, and behind `^\%(\w+)`.
unfoldable pub cell_name : Bytes → Option Bytes
cell_name code = elim (behind b'%' code) [
  | none ↦ none
  | some p ↦ elim (behind b'%' p) [ none ↦ none | some q ↦ word_of q ]
]

unfoldable pub line_name : Bytes → Option Bytes
line_name code = elim (behind b'%' code) [ none ↦ none | some p ↦ word_of p ]

-- `(\w+(?:\s.*)?)\n((?:.*\n?)*)` behind the two percent signs: the submatches, which are empty where there is no
-- match. The optional group is tried first; the white space that begins it may be the end of the line. The second
-- group goes up to a carriage return.
abbrev pub is_body : ℕ → Bool
is_body c = not (c == b'\r')

abbrev split_plain : Bytes → Bytes → Bytes × Bytes
split_plain w [] = ([], [])
split_plain w (s ∷ p) = if s == b'\n' then (w, run is_body p) else ([], [])

abbrev split_long : Bytes → ℕ → Bytes → Bytes → Bytes → Bytes × Bytes
split_long w s p l [] = split_plain w (s ∷ p)
split_long w s p l (n ∷ q) =
    if n == b'\n' then (w ++ s ∷ l, run is_body q) else split_plain w (s ∷ p)

abbrev split_word : Bytes → Bytes → Bytes × Bytes
split_word w [] = ([], [])
split_word w (s ∷ p) =
    if is_space s
    then split_long w s p (run is_any p) (after_run is_any p)
    else split_plain w (s ∷ p)

unfoldable pub split_cell : Bytes → Bytes × Bytes
split_cell p = split_word (run is_word p) (after_run is_word p)

-- `(\w+(?:\s.*)?)` behind the percent sign.
abbrev split_args : Bytes → Bytes → Bytes
split_args w [] = w
split_args w (s ∷ p) = if is_space s then w ++ s ∷ run is_any p else w

unfoldable pub split_line : Bytes → Bytes
split_line p = split_args (run is_word p) (after_run is_word p)

-- What is behind the percent signs.
abbrev pub drop2 : Bytes → Bytes
drop2 (c ∷ d ∷ p) = p
drop2 _ = []

abbrev pub drop1 : Bytes → Bytes
drop1 (c ∷ p) = p
drop1 [] = []

abbrev pub unknown_magic : Option (List Bytes) → Bytes → Bytes → M KernelRes
unknown_magic traceback complaint name =
    report (complaint ∷ name ∷ codes "\n" ∷ [])
    >> (flush_out >> pure (status_error (codes "ename") (codes "evalue") traceback))

abbrev pub call_known_line : MagicsManager → Bytes → Bytes → M KernelRes
call_known_line m code name =
    apply_line m name (split_line (drop1 code)) >> (flush_out >> pure status_ok)

-- The second test of `apply`, which a cell magic that was called reaches too.
abbrev pub on_line_name : MagicsManager → Bytes → KernelRes → Option Bytes → M KernelRes
on_line_name m code res none = pure res
on_line_name m code res (some name) =
    if contains m name line
    then call_known_line m code name
    else unknown_magic none (codes "Unknown magic line function %") name

unfoldable pub run_line : MagicsManager → Bytes → KernelRes → M KernelRes
run_line m code res = on_line_name m code res (line_name code)

abbrev pub call_known_cell : MagicsManager → Bytes → Bytes → M KernelRes
call_known_cell m code name =
    apply_cell m name (split_cell (drop2 code)).0 (split_cell (drop2 code)).1
    >> (flush_out >> run_line m code status_ok)

-- The first test of `apply`. An unknown cell magic makes it return.
abbrev pub on_cell_name : MagicsManager → Bytes → KernelRes → Option Bytes → M KernelRes
on_cell_name m code res none = run_line m code res
on_cell_name m code res (some name) =
    if contains m name cell
    then call_known_cell m code name
    else unknown_magic (some []) (codes "Unknown magic cell function %%") name

unfoldable pub apply : MagicsManager → Bytes → KernelRes → M KernelRes
apply m code res = on_cell_name m code res (cell_name code)

-- The pattern of the preamble, `^(?:\%{2}|\%)(\w+)`.
unfoldable pub is_magic : Bytes → Bool
is_magic code = is_some (cell_name code) || is_some (line_name code)
