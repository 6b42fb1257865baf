-- ===== src/Tests/Dispatch.antt =====
-- The theorems on the preambles, the magics and the look-ups, at concrete inputs.
use xeus_cpp.Base.{
  ◌≡◌, refl, codes, Bytes, Bool, List, [], ◌∷◌, Option, none, some, arith, true, false, equal,
  get_elem?, if◌then◌else◌,
}
use xeus_cpp.Buffer.{new_output_buffer}
use xeus_cpp.World.{Access, World, Outcome, returned, threw, logic_error, print}
use xeus_cpp.World.Disk.{Files, lookup}
use xeus_cpp.Pattern.{is_word, is_any, run, behind, word_of}
use xeus_cpp.Magics.{null, CellMagic, MagicsManager, is_magic, cell_name, line_name, apply}
use xeus_cpp.Magics.Dispatch.{Handled, apply-cell}
use xeus_cpp.Magics.Endings.{Meets, is_known, Answers, apply-Answers}
use xeus_cpp.WriteFile.{Parsed}
use xeus_cpp.Inspect.{
  XmlLib, ClassMemberPredicate, satisfies, satisfies_member, has_member, is_member, get_filename,
  find_name, find_kinds,
}
use xeus_cpp.Inspect.Find.{
  Among, Found, FindsSatisfying, find_name-Found, get_filename-satisfies_member,
}
use xeus_cpp.Inspect.{Interop, inspect}
use xeus_cpp.Question.{answer_of, inspect_request}
use xeus_cpp.Question.Suffix.{inspect_request-word}
use xeus_cpp.Holder.{introspection, shell, Manager, matches, first_match}
use xeus_cpp.Holder.Disjoint.{here, there, first_match-Holds}

abbrev pub open_access : Access
open_access = record { readable = λ path. true; writable = λ path. true }

abbrev pub empty_world : World
empty_world = record { files = []; out = new_output_buffer; err = new_output_buffer }

-- A magic that prints the cell.
abbrev echo : CellMagic
echo args content = print content

abbrev echo_magics : MagicsManager
echo_magics = record { m_magic_cell = (codes "echo", echo) ∷ []; m_magic_line = [] }

abbrev echo_code : Bytes
echo_code = codes "%%echo x\nhi"

apply-cell_example :
    let r : Outcome (Unit {0}) × World = echo (codes "echo x") (codes "hi") empty_world in
    Handled r.0 r.1 (apply echo_magics echo_code null empty_world)
unfolding is_word is_any lookup
apply-cell_example =
    apply-cell echo_magics echo b'e' b' ' (codes "cho") (codes "x") b'h' (codes "i")
      (refl, (refl, (refl, (refl, tt)))) refl (refl, tt) (refl, (refl, tt)) refl empty_world null

apply-Answers_example :
    Answers
      (Meets echo_magics echo_code empty_world)
      (is_known echo_magics echo_code)
      (apply echo_magics echo_code null empty_world).0
unfolding is_magic cell_name line_name word_of run is_word behind
apply-Answers_example = apply-Answers echo_magics echo_code empty_world refl

-- An options parser that takes the second word as the file, and appends if there is a third.
abbrev named : Option Bytes → Outcome Bytes
named none = threw (logic_error (codes "filename"))
named (some path) = returned path

abbrev pub second_word : List Bytes → Parsed
second_word ws = record {
  printed = [];
  complaint = none;
  filename = named (get_elem? ws 1);
  append = false;
}

abbrev echo_pipe : Bytes → Files → Option Bytes × Files
echo_pipe command files = (some command, files)

abbrev shell_first : Manager
shell_first = (codes "a", some shell) ∷ (codes "b", none) ∷ (codes "c", some introspection) ∷ []

first_match-Holds_example : first_match (codes "?f") shell_first ≡ some introspection
unfolding matches xeus_cpp.Inspect.is_inspect behind
first_match-Holds_example =
    first_match-Holds introspection (codes "?f") {m = shell_first} (there (there here))
      ((λ e. omega arith, tt), (tt, tt)) refl

-- A document with one class `A`, the node `true`, that has one member function `f`, the node `false`.
abbrev node_kind : Bool → Bytes
node_kind true = codes "class"
node_kind false = codes "function"

abbrev node_text : Bytes → Bool → Bytes
node_text field node =
    if equal field (codes "name") then (if node then codes "A" else codes "f") else codes "A.html"

abbrev node_children : Bool → List Bool
node_children true = false ∷ []
node_children false = []

abbrev search : (Bool → Bool) → Unit {0} → Option Bool
search test doc = if test true then some true else none

abbrev pub one_class : XmlLib
one_class = record {
  Node = Bool;
  kind_of = node_kind;
  child_value = node_text;
  children = node_children;
  Document = Unit;
  load_file = λ path. tt;
  find_node = search;
}

search-FindsSatisfying : FindsSatisfying one_class
search-FindsSatisfying test doc node e = ground (arith, e)

abbrev f_of_A : ClassMemberPredicate
f_of_A = record { class_name = codes "A"; kind = codes "function"; child_text = codes "f" }

get_filename-satisfies_member_example :
    (child : Bool) × Among child (node_children true)
    × (node_kind child ≡ codes "function")
    × (node_text (codes "name") child ≡ codes "f")
    × (get_filename one_class f_of_A true ≡ node_text (codes "anchorfile") child)
unfolding satisfies_member has_member is_member
get_filename-satisfies_member_example = get_filename-satisfies_member one_class f_of_A true refl

abbrev one_conf : List (Bytes × Bytes)
one_conf = (codes "http://a/", codes "a.tag") ∷ []

find_name-Found_example :
    Found one_class
      (codes "A")
      (codes "tags")
      one_conf
      (find_name one_class (codes "A") (codes "tags") [] one_conf)
unfolding find_name find_kinds satisfies
find_name-Found_example =
    find_name-Found one_class search-FindsSatisfying (codes "A") (codes "tags") one_conf refl

abbrev no_types : Interop
no_types = record { get_type = λ e. none; declare = λ c. true; type_of = λ n. [] }

inspect_request-word_example :
    inspect_request one_class no_types (codes "tags") [] 0 (codes "v.A;") 3 ≡ (
      answer_of (inspect one_class no_types (codes "tags") [] 0 (codes "A")).0,
      (inspect one_class no_types (codes "tags") [] 0 (codes "A")).1,
    )
unfolding is_word
inspect_request-word_example =
    inspect_request-word one_class no_types (codes "tags") [] 0 (codes "v") b'.' b'A' [] (codes ";")
      refl (refl, tt)
