-- ===== src/Inspect.antt =====
-- The documentation look-up: src/xinspect.cpp, and the directories of src/xutils.cpp. pugixml, the JSON library, the
-- file system and the C++ interpreter are parameters.
pub mod Expression
pub mod Names
pub mod Find
use xeus_cpp.Base.{
  ℕ, ◌+◌, ◌<◌, Bool, true, false, ◌&&◌, ◌||◌, [], ◌∷◌, ◌++◌, List, Option, none, some, codes, Bytes,
  equal, is_empty, if◌then◌else◌,
}
use xeus_cpp.Pattern.{behind, run, is_any}
use xeus_cpp.World.{M, ◌>>◌, pure, raise, report_line, flush_out, other}
use xeus_cpp.Magics.{KernelRes, named_error_reply, successful_reply, is_some}
use xeus_cpp.Inspect.Expression.{first_expression, method_of, is_namespace}
use xeus_cpp.Inspect.Names.{decimal}

-- `pugi::xml_node` and `pugi::xml_document`: the attribute "kind", the text of the first child of a name, the children,
-- and the search through a document. A file that cannot be read is an empty document.
pub record XmlLib : Type 1 where
  pub Node : Type 0
  pub kind_of : Node → Bytes
  pub child_value : Bytes → Node → Bytes
  pub children : Node → List Node
  pub Document : Type 0
  pub load_file : Bytes → Document
  pub find_node : (Node → Bool) → Document → Option Node

-- `Cpp::GetType` with the qualified name of what it finds, `Cpp::Declare`, which returns whether it failed, and the name
-- of the type that a declared name stands for.
pub record Interop : Type 0 where
  pub get_type : Bytes → Option Bytes
  pub declare : Bytes → Bool
  pub type_of : Bytes → Bytes

-- An entry of the directory of the tag configurations: its extension, and the fields "url" and "tagfile" of the JSON
-- object in it; `none` where the library throws.
pub record Entry : Type 0 where
  pub extension : Bytes
  pub parses : Bool
  pub url : Option Bytes
  pub tagfile : Option Bytes

-- `retrieve_tagconf_dir` and `retrieve_tagfile_dir`, for the value of the environment variable and the prefix.
unfoldable pub retrieve_tagconf_dir : Option Bytes → Bytes → Bytes
retrieve_tagconf_dir (some dir) prefix = dir
retrieve_tagconf_dir none prefix = prefix ++ codes "etc/xeus-cpp/tags.d"

unfoldable pub retrieve_tagfile_dir : Option Bytes → Bytes → Bytes
retrieve_tagfile_dir (some dir) prefix = dir
retrieve_tagfile_dir none prefix = prefix ++ codes "share/xeus-cpp/tagfiles"

abbrev cons_to {ℓ} : {A : Type ℓ} → A → Option (List A) → Option (List A)
cons_to a none = none
cons_to a (some as_) = some (a ∷ as_)

-- The entries with the extension ".json"; `none` where one of them cannot be parsed.
unfoldable pub read_tagconfs : List Entry → Option (List Entry)
read_tagconfs [] = some []
read_tagconfs (e ∷ es) =
    let rest = read_tagconfs es in
    if equal e.extension (codes ".json") then (if e.parses then cons_to e rest else none) else rest

-- The fields of the configurations, as the loops read them; `none` where one is missing.
abbrev fields_of :
    Option Bytes → Option Bytes → Option (List (Bytes × Bytes)) → Option (List (Bytes × Bytes))
fields_of (some url) (some tagfile) rest = cons_to (url, tagfile) rest
fields_of _ _ rest = none

unfoldable pub tagconf_fields : List Entry → Option (List (Bytes × Bytes))
tagconf_fields [] = some []
tagconf_fields (e ∷ es) = fields_of e.url e.tagfile (tagconf_fields es)

abbrev pub over {ℓ κ} : {A : Type ℓ} {B : Type κ} → (A → B) → Option A → Option B
over f none = none
over f (some a) = some (f a)

-- `find_type_slow`, with the static counter before and after the call.
abbrev using_clause : Bytes → Bytes → Bytes
using_clause id expression =
    codes "using " ++ id ++ codes " = __typeof__(" ++ expression ++ codes ");\n"

unfoldable pub type_id : ℕ → Bytes
type_id n = codes "__Xeus_GetType_" ++ decimal n

abbrev type_slow : Interop → ℕ → Bytes → Option Bytes → Bytes × ℕ
type_slow cpp n expression (some name) = (name, n)
type_slow cpp n expression none = (
  if cpp.declare (using_clause (type_id n) expression) then [] else cpp.type_of (type_id n),
  n + 1,
)

unfoldable pub find_type_slow : Interop → ℕ → Bytes → Bytes × ℕ
find_type_slow cpp n expression = type_slow cpp n expression (cpp.get_type expression)

abbrev pub or_else : Bytes → Bytes → Bytes
or_else name expression = if is_empty name then expression else name

pub record NodePredicate : Type 0 where
  pub kind : Bytes
  pub child_text : Bytes

pub record ClassMemberPredicate : Type 0 where
  pub class_name : Bytes
  pub kind : Bytes
  pub child_text : Bytes

abbrev find_expression : Interop → ℕ → Bytes → Bool → Bytes × ℕ
find_expression cpp n expression true = (expression, n)
find_expression cpp n expression false =
    let (name, n') = find_type_slow cpp n expression in (or_else name expression, n')

abbrev pub checks : List Bytes
checks = codes "class" ∷ codes "struct" ∷ codes "function" ∷ []

-- Where the page of a node of this kind is named.
abbrev pub page_field : Bytes → Bytes
page_field c =
    if equal c (codes "class") || equal c (codes "struct")
    then codes "filename"
    else codes "anchorfile"

module _ (xml : XmlLib) where
  open xml use {Node, kind_of, child_value, children, Document, load_file, find_node}

  -- `node_predicate::operator()`
  unfoldable pub satisfies : NodePredicate → Node → Bool
  satisfies p node =
      equal (kind_of node) p.kind && equal (child_value (codes "name") node) p.child_text

  -- A child that `class_member_predicate` looks for.
  unfoldable pub is_member : ClassMemberPredicate → Node → Bool
  is_member p child =
      equal (kind_of child) p.kind && equal (child_value (codes "name") child) p.child_text

  unfoldable pub find_filename : ClassMemberPredicate → List Node → Bytes
  find_filename p [] = []
  find_filename p (child ∷ more) =
      if is_member p child then child_value (codes "anchorfile") child else find_filename p more

  unfoldable pub get_filename : ClassMemberPredicate → Node → Bytes
  get_filename p node = find_filename p (children node)

  unfoldable pub has_member : ClassMemberPredicate → List Node → Bool
  has_member p [] = false
  has_member p (child ∷ more) = if is_member p child then true else has_member p more

  -- `class_member_predicate::operator()`
  unfoldable pub satisfies_member : ClassMemberPredicate → Node → Bool
  satisfies_member p node =
      (equal (kind_of node) (codes "class") || equal (kind_of node) (codes "struct"))
      && equal (child_value (codes "name") node) p.class_name
      && has_member p (children node)

  -- One round of the loop for a member, in a document, with the result so far.
  abbrev member_page : ClassMemberPredicate → Bytes → Bytes → Option Node → Bytes
  member_page p url result none = result
  member_page p url result (some node) = url ++ get_filename p node

  -- The loop over the configurations, with their URL and their tag file.
  unfoldable pub find_member : ClassMemberPredicate → Bytes → Bytes → List (Bytes × Bytes) → Bytes
  find_member p dir result [] = result
  find_member p dir result ((url, tagfile) ∷ confs) =
      let doc = load_file (dir ++ codes "/" ++ tagfile) in
      find_member p dir (member_page p url result (find_node (satisfies_member p) doc)) confs

  -- The text of the field of the node that was found, or nothing.
  abbrev pub node_page : Bytes → Option Node → Bytes
  node_page field none = []
  node_page field (some node) = child_value field node

  -- The inner loop over the kinds, in one document.
  unfoldable pub find_kinds : Bytes → Bytes → Document → Bytes → List Bytes → Bytes
  find_kinds find_string url doc result [] = result
  find_kinds find_string url doc result (c ∷ cs) =
      let node =
        node_page (page_field c)
          (find_node (satisfies (record { kind = c; child_text = find_string })) doc) in
      find_kinds find_string url doc (if is_empty node then result else url ++ node) cs

  unfoldable pub find_name : Bytes → Bytes → Bytes → List (Bytes × Bytes) → Bytes
  find_name find_string dir result [] = result
  find_name find_string dir result ((url, tagfile) ∷ confs) =
      let doc = load_file (dir ++ codes "/" ++ tagfile) in
      find_name find_string dir (find_kinds find_string url doc result checks) confs

  -- The two branches of `inspect`, with the counter; `none` for an exception of the JSON library.
  abbrev member_branch : Bytes → List Entry → Bytes → Bytes × ℕ → Option Bytes × ℕ
  member_branch dir confs member (type_name, n) = (
    if is_empty type_name
        then some []
        else over
            (find_member
              (record { class_name = type_name; kind = codes "function"; child_text = member }) dir
              [])
            (tagconf_fields confs),
    n,
  )

  abbrev name_branch : Bytes → List Entry → Bytes × ℕ → Option Bytes × ℕ
  name_branch dir confs (find_string, n) =
      (over (find_name find_string dir []) (tagconf_fields confs), n)

  abbrev branch :
      Interop → ℕ → Bytes → List Entry → Bytes → Option (Bytes × Bytes) → Option Bytes × ℕ
  branch cpp n dir confs to_inspect (some (object, member)) =
      let (name, n') = find_type_slow cpp n object in
      member_branch dir confs member (or_else name object, n')
  branch cpp n dir confs to_inspect none =
      name_branch dir confs (find_expression cpp n to_inspect (is_namespace to_inspect))

  abbrev on_tagconfs : Interop → ℕ → Bytes → Bytes → Option (List Entry) → Option Bytes × ℕ
  on_tagconfs cpp n dir to_inspect none = (none, n)
  on_tagconfs cpp n dir to_inspect (some confs) =
      branch cpp n dir confs to_inspect (method_of to_inspect)

  -- `inspect`, for the directory of the tag files and the entries of the directory of the configurations.
  unfoldable pub inspect : Interop → Bytes → List Entry → ℕ → Bytes → Option Bytes × ℕ
  inspect cpp dir entries n code =
      on_tagconfs cpp n dir (first_expression code) (read_tagconfs entries)

-- `build_inspect_data`: the texts of the types "text/plain" and "text/html".
abbrev pub html_head : Bytes
html_head =
    codes
      "<style>\n        #pager-container {\n            padding: 0;\n            margin: 0;\n            width: 100%;\n            height: 100%;\n        }\n        .xcpp-iframe-pager {\n            padding: 0;\n            margin: 0;\n            width: 100%;\n            height: 100%;\n            border: none;\n        }\n        </style>\n        <iframe class=\"xcpp-iframe-pager\" src=\""

unfoldable pub build_inspect_data : Bytes → Bytes × Bytes
build_inspect_data result = (result, html_head ++ result ++ codes "?action=purge\"></iframe>")

-- The preamble's pattern, `^\?`.
unfoldable pub is_inspect : Bytes → Bool
is_inspect code = is_some (behind b'?' code)

-- `(.*)` behind the question mark.
abbrev submatch : Option Bytes → Bytes
submatch none = []
submatch (some p) = run is_any p

unfoldable pub question_of : Bytes → Bytes
question_of code = submatch (behind b'?' code)

-- The flush at the end of `inspect`, and `xintrospection::apply`, by what `inspect` gives.
unfoldable pub reply_to : Bytes → Option Bytes → M KernelRes
reply_to code none = raise other
reply_to code (some result) =
    flush_out
    >> (if is_empty result
        then report_line (codes "No documentation found for " ∷ code ∷ [])
          >> pure (named_error_reply (codes "No documentation found"))
        else pure (successful_reply (some (build_inspect_data result))))
