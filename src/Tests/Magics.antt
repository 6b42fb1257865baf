-- ===== src/Tests/Magics.antt =====
-- The theorems on the other components, at concrete inputs.
use xeus_cpp.Base.{
  ℕ, ◌≡◌, ◌↔◌, refl, codes, Bytes, List, [], ◌∷◌, Option, none, some, arith, true, false, equal,
  get_elem?, words, words_from,
}
use xeus_cpp.Base.Int.{pos, negsuc}
use xeus_cpp.Parser.Split.{line_start, behind}
use xeus_cpp.Completion.{delims, complete_request}
use xeus_cpp.Completion.Range.{complete_request-end, complete_request-inside}
use xeus_cpp.World.{Access, World, returned, undefined}
use xeus_cpp.World.Disk.{lookup}
use xeus_cpp.Assist.Escape.{escape_special_cases}
use xeus_cpp.Assist.Escape.Decode.{decode, decode-escape_special_cases}
use xeus_cpp.Assist.Settings.{api_key_path, save_api_key, load_api_key}
use xeus_cpp.Assist.Settings.RoundTrip.{load_api_key-save_api_key}
use xeus_cpp.Assist.History.{chat_history_path, append_and_read_back, read_file_content}
use xeus_cpp.Assist.History.Messages.{Holds, render, append_and_read_back-Holds}
use xeus_cpp.Assist.Chat.{Reply, failed, Request, JsonLib}
use xeus_cpp.Assist.Command.{xassist}
use xeus_cpp.Assist.Command.Safe.{xassist-contained, xassist-undefined}
use xeus_cpp.Buffer.{
  OutputBuffer, Call, overflow_call, xsputn_call, sync_call, new_output_buffer, sync, calls,
}
use xeus_cpp.Buffer.Order.{concat, texts, NoneEmpty, sync-calls}

abbrev engine : Bytes → ℕ → ℕ → List Bytes
engine code line column = codes "printf" ∷ []

complete_request-end_example :
    complete_request engine (codes "x;pr") 4
    ≡ some (record { matches = codes "printf" ∷ []; cursor_start = pos 2; cursor_end = 4 })
unfolding delims
complete_request-end_example =
    complete_request-end engine (codes "x;") (codes "pr") (behind (codes "x") b';' refl refl)
      (refl, (λ e. omega arith), (refl, (λ e. omega arith), tt))

complete_request-inside_example :
    complete_request engine (codes "pri") 2
    ≡ some (record { matches = codes "printf" ∷ []; cursor_start = negsuc 0; cursor_end = 2 })
unfolding delims
complete_request-inside_example =
    complete_request-inside engine [] (codes "pr") b'i' [] line_start
      (refl, (λ e. omega arith), (refl, (λ e. omega arith), tt)) refl (λ e. omega arith)

decode-escape_special_cases_example :
    decode (escape_special_cases (b'"' ∷ 233 ∷ [])) ≡ some (b'"' ∷ 65513 ∷ [])
decode-escape_special_cases_example =
    decode-escape_special_cases (b'"' ∷ 233 ∷ []) (omega arith, (omega arith, tt))

-- Every file can be opened.
abbrev open_access : Access
open_access = record { readable = λ path. true; writable = λ path. true }

abbrev empty_world : World
empty_world = record { files = []; out = new_output_buffer; err = new_output_buffer }

abbrev gemini_name : Bytes
gemini_name = codes "gemini"

load_api_key-save_api_key_example :
    let saved : World = (save_api_key open_access gemini_name (codes "k\n") empty_world).1 in
    (load_api_key open_access gemini_name saved ≡ (returned (codes "k"), saved))
    × ((j : Bytes)
        → equal (api_key_path gemini_name) j ≡ false
        → lookup j saved.files ≡ lookup j [])
load_api_key-save_api_key_example =
    load_api_key-save_api_key open_access gemini_name (codes "k\n") empty_world refl refl

append_and_read_back-Holds_example :
    (w' : World) × (append_and_read_back open_access gemini_name
        (codes "user")
        (codes "\"hi\"")
        empty_world
      ≡ (returned (render gemini_name ((codes "user", codes "\"hi\"") ∷ [])), w'))
    × Holds open_access gemini_name ((codes "user", codes "\"hi\"") ∷ []) w'
    × ((j : Bytes)
        → equal (chat_history_path gemini_name) j ≡ false
        → lookup j w'.files ≡ lookup j [])
unfolding read_file_content lookup render
append_and_read_back-Holds_example =
    append_and_read_back-Holds open_access gemini_name (codes "user") (codes "\"hi\"") []
      empty_world refl refl refl

-- A connection that fails, and a JSON library of strings that refuses the empty text.
abbrev pub no_connection : Request → Reply
no_connection request = failed (codes "no route to host")

abbrev parse_string : Bytes → Option Bytes
parse_string [] = none
parse_string (c ∷ p) = some (c ∷ p)

abbrev pub string_lib : JsonLib
string_lib = record {
  Json = Bytes;
  parse = parse_string;
  has_key = λ k j. false;
  at_key = λ k j. some j;
  at_index = λ i j. some j;
  dump = λ j. j;
  get_string = λ j. some j;
}

xassist-contained_example :
    ((xassist open_access no_connection string_lib
        (codes "xassist ollama")
        (codes "hi")
        empty_world).0
      ≡ returned tt)
    × (lookup
          (codes "notes.txt")
          (xassist open_access no_connection string_lib
            (codes "xassist ollama")
            (codes "hi")
            empty_world).1.files
        ≡ lookup (codes "notes.txt") [])
unfolding words_from
xassist-contained_example =
    xassist-contained open_access no_connection string_lib (codes "xassist ollama") (codes "hi")
      (codes "ollama") (codes "notes.txt") empty_world refl refl refl refl refl

xassist-undefined_example :
    ((xassist open_access no_connection string_lib (codes "xassist") [] empty_world).0 ≡ undefined)
    ↔ (get_elem? (words (codes "xassist")) 1 ≡ none)
xassist-undefined_example =
    xassist-undefined open_access no_connection string_lib (codes "xassist") [] empty_world

abbrev some_calls : List Call
some_calls = xsputn_call (codes "ab") ∷ sync_call ∷ overflow_call (some b'c') ∷ sync_call ∷ []

sync-calls_example :
    let b : OutputBuffer = sync (calls some_calls new_output_buffer) in
    (concat b.published ≡ texts some_calls) × (b.m_output ≡ []) × NoneEmpty b.published
sync-calls_example = sync-calls some_calls
