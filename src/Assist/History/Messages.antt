-- ===== src/Assist/History/Messages.antt =====
-- The history file as a list of messages.
use xeus_cpp.Base.{
  Bytes, true, false, not, List, [], ◌∷◌, ◌++◌, codes, equal, is_empty, if◌then◌else◌, ◌≡◌, sym, ap,
  ◌∙◌, append_assoc, append-nil, arith, Bool-cases, inl, inr, Option-cases,
}
use xeus_cpp.World.{Access, World, returned}
use xeus_cpp.World.Disk.{Files, lookup, lookup-insert, lookup-insert_self}
use xeus_cpp.Assist.History.{
  chat_history_path, entry, is_file_empty, read_file_content, append_file, append_and_read_back,
}

-- A role, and the serialized text of a message.
abbrev pub Message : Type 0
Message = Bytes × Bytes

-- JSON texts: a string of plain characters, a member of an object, an object with two members or one, and an array of one element.
abbrev pub string_of : Bytes → Bytes
string_of s = b'"' ∷ (s ++ b'"' ∷ [])

abbrev pub member : Bytes → Bytes → Bytes
member name value = string_of name ++ (b':' ∷ b' ' ∷ value)

abbrev pub object_of : Bytes → Bytes
object_of members = b'{' ∷ b' ' ∷ (members ++ b'}' ∷ [])

abbrev pub array_of : Bytes → Bytes
array_of elements = b'[' ∷ b' ' ∷ (elements ++ b']' ∷ [])

-- A message: gemini has its text in the only part of it.
abbrev pub content_of : Bytes → Bytes → Bytes
content_of model cell =
    if equal model (codes "gemini")
    then member (codes "parts") (array_of (object_of (member (codes "text") cell)))
    else member (codes "content") cell

abbrev pub message_of : Bytes → Message → Bytes
message_of model (user, cell) =
    object_of (member (codes "role") (string_of user) ++ (b',' ∷ b' ' ∷ content_of model cell))

abbrev pub element : Bytes → Message → Bytes
element model m = message_of model m ++ b'\n' ∷ []

-- The elements of a JSON array, in order, each with the end of a line behind it, and with commas between them.
abbrev pub render_from : Bytes → List Message → Bytes
render_from model [] = []
render_from model (m ∷ ms) = b',' ∷ b' ' ∷ (element model m ++ render_from model ms)

unfoldable pub render : Bytes → List Message → Bytes
render model [] = []
render model (m ∷ ms) = element model m ++ render_from model ms

gemini_shape :
    (user cell : Bytes)
    → codes "{ \"role\": \""
        ++ (user ++ (codes "\", \"parts\": [ { \"text\": " ++ (cell ++ codes "}]}\n")))
      ≡ object_of (
          member (codes "role") (string_of user)
          ++ (b','
              ∷ b' '
              ∷ member (codes "parts") (array_of (object_of (member (codes "text") cell)))))
        ++ b'\n' ∷ []
gemini_shape user cell = simp append_assoc

content_shape :
    (user cell : Bytes)
    → codes "{ \"role\": \"" ++ (user ++ (codes "\", \"content\": " ++ (cell ++ codes "}\n")))
      ≡ object_of
          (member (codes "role") (string_of user) ++ (b',' ∷ b' ' ∷ member (codes "content") cell))
        ++ b'\n' ∷ []
content_shape user cell = simp append_assoc

-- The text that is appended for a message is that message.
entry-message_of : (model user cell : Bytes) → entry model user cell ≡ element model (user, cell)
unfolding entry
entry-message_of model user cell = elim (Bool-cases (equal model (codes "gemini"))) [
  | inl e ↦ rw e (gemini_shape user cell)
  | inr e ↦ rw e (content_shape user cell)
]

render_from-append :
    (model : Bytes) (ms : List Message) (m : Message)
    → render_from model (ms ++ (m ∷ [])) ≡ render_from model ms ++ (codes ", " ++ element model m)
render_from-append model [] m = ap (λ t. codes ", " ++ t) (append-nil (element model m))
render_from-append model (n ∷ ms) m =
    ap (λ t. codes ", " ++ (element model n ++ t)) (render_from-append model ms m)
    ∙ ap (λ t. codes ", " ++ t) (sym (append_assoc (element model n) (render_from model ms) _))

-- One more message is separated from those before it, if there are any.
render-append :
    (model : Bytes) (ms : List Message) (m : Message)
    → render model ms
        ++ ((if not (is_empty (render model ms)) then codes ", " else []) ++ element model m)
      ≡ render model (ms ++ (m ∷ []))
unfolding render
render-append model [] m = sym (append-nil (element model m))
render-append model (n ∷ ms) m =
    append_assoc (element model n) (render_from model ms) _
    ∙ ap (λ t. element model n ++ t) (sym (render_from-append model ms m))

module _ (access : Access) where
  is_file_empty-read :
      (path : Bytes) (files : Files)
      → is_file_empty access path files ≡ is_empty (read_file_content access path files)
  unfolding is_file_empty read_file_content
  is_file_empty-read path files = ground arith

  read-append_file :
      (path text : Bytes) (files : Files)
      → access.readable path ≡ true
      → read_file_content access path (append_file access path text files)
        ≡ read_file_content access path files ++ text
  unfolding read_file_content append_file
  read-append_file path text files h = elim (Option-cases (lookup path files)) [
    | inl e ↦ ground (arith, lookup-insert_self path text files)
    | inr (old, e) ↦ ground (arith, lookup-insert_self path (old ++ text) files)
  ]

  pub lookup-append_file :
      (path j text : Bytes) (files : Files)
      → equal path j ≡ false
      → lookup j (append_file access path text files) ≡ lookup j files
  unfolding append_file
  lookup-append_file path j text files n = elim (Option-cases (lookup path files)) [
    | inl e ↦ ground (arith, lookup-insert path j text files)
    | inr (old, e) ↦ ground (arith, lookup-insert path j (old ++ text) files)
  ]

  -- The file of the model holds these messages; there may be no file if there are none.
  abbrev pub Holds : Bytes → List Message → World → Type 0
  Holds model ms w = read_file_content access (chat_history_path model) w.files ≡ render model ms

  -- A message is appended to the messages of its model's file: what is returned, and what the file holds
  -- afterwards, are the old messages and the new one as the elements of an array. No other file
  -- changes. The file has to be open to writing and reading.
  pub append_and_read_back-Holds :
      (model user cell : Bytes) (ms : List Message) (w : World)
      → access.writable (chat_history_path model) ≡ true
      → access.readable (chat_history_path model) ≡ true
      → Holds model ms w
      → (w' : World) × (append_and_read_back access model user cell w
          ≡ (returned (render model (ms ++ ((user, cell) ∷ []))), w'))
        × Holds model (ms ++ ((user, cell) ∷ [])) w'
        × ((j : Bytes)
            → equal (chat_history_path model) j ≡ false
            → lookup j w'.files ≡ lookup j w.files)
  unfolding append_and_read_back
  append_and_read_back-Holds model user cell ms w hw hr h = (
    record w { files = files },
    ground (arith, content),
    content,
    λ j n. lookup-append_file path j text w.files n,
  )
    where
      path : Bytes
      path = chat_history_path model

      text : Bytes
      text =
          (if not (is_file_empty access path w.files) then codes ", " else [])
          ++ entry model user cell

      files : Files
      files = append_file access path text w.files

      content : read_file_content access path files ≡ render model (ms ++ ((user, cell) ∷ []))
      content =
          read-append_file path text w.files hr
          ∙ ap
              (λ t.
                read_file_content access path w.files
                ++ ((if not t then codes ", " else []) ++ entry model user cell))
              (is_file_empty-read path w.files)
          ∙ ap (λ t. t ++ ((if not (is_empty t) then codes ", " else []) ++ entry model user cell))
              h
          ∙ ap
              (λ t.
                render model ms
                ++ ((if not (is_empty (render model ms)) then codes ", " else []) ++ t))
              (entry-message_of model user cell)
          ∙ render-append model ms (user, cell)
