-- ===== src/Assist/History.antt =====
-- `chat_history` of src/xmagics/xassist.cpp: the messages of a chat, in one file for each model.
pub mod Messages
use xeus_cpp.Base.{
  Bytes, Bool, true, false, not, [], ◌∷◌, ◌++◌, none, some, codes, equal, is_empty, if◌then◌else◌,
  Option,
}
use xeus_cpp.World.{Access, World, M, ◌>>◌, ◌>>=◌, pure, report_line, returned}
use xeus_cpp.World.Disk.{Files, lookup, insert}

abbrev pub chat_history_path : Bytes → Bytes
chat_history_path model = model ++ codes "_chat_history.txt"

-- What is appended for one message, behind the separator.
unfoldable pub entry : Bytes → Bytes → Bytes → Bytes
entry model user serialized_cell =
    if equal model (codes "gemini")
    then codes "{ \"role\": \""
      ++ (user ++ (codes "\", \"parts\": [ { \"text\": " ++ (serialized_cell ++ codes "}]}\n")))
    else codes "{ \"role\": \""
      ++ (user ++ (codes "\", \"content\": " ++ (serialized_cell ++ codes "}\n")))

module _ (access : Access) where
  -- The contents of a file that can be opened for reading.
  abbrev pub contents : Bytes → Files → Option Bytes
  contents path files = if access.readable path then lookup path files else none

  unfoldable pub is_file_empty : Bytes → Files → Bool
  is_file_empty path files = elim (contents path files) [ none ↦ true | some text ↦ is_empty text ]

  unfoldable pub read_file_content : Bytes → Files → Bytes
  read_file_content path files = elim (contents path files) [ none ↦ [] | some text ↦ text ]

  -- A write at the end of a file that `std::ios::app` opened, and created if there was none.
  unfoldable pub append_file : Bytes → Bytes → Files → Files
  append_file path text files = elim (lookup path files) [
    | none ↦ insert path text files
    | some old ↦ insert path (old ++ text) files
  ]

  unfoldable pub append_and_read_back : Bytes → Bytes → Bytes → M Bytes
  append_and_read_back model user serialized_cell w =
      let path = chat_history_path model in
      let separator = if not (is_file_empty path w.files) then codes ", " else [] in
      let files = append_file path (separator ++ entry model user serialized_cell) w.files in
      if access.writable path
      then (returned (read_file_content path files), record w { files = files })
      else (report_line
              (codes "Failed to open file for writing chat history for model " ∷ model ∷ [])
            >> pure [])
          w

  -- `chat` of a text, and of a JSON value in its serialized form.
  unfoldable pub chat_text : Bytes → Bytes → Bytes → M Bytes
  chat_text model user cell = append_and_read_back model user (codes "\"" ++ (cell ++ codes "\""))

  unfoldable pub chat_json : Bytes → Bytes → Bytes → M Bytes
  chat_json model user dump = append_and_read_back model user dump

  -- `std::ofstream` with `std::ios::out` leaves an empty file.
  unfoldable pub refresh : Bytes → M (Unit {0})
  refresh model w =
      let path = chat_history_path model in
      if access.writable path
      then (returned tt, record w { files = insert path [] w.files })
      else (returned tt, w)
