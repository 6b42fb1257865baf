-- ===== src/Assist/Chat.antt =====
-- `curl_helper::perform_request`, `gemini`, `ollama` and `openai` of src/xmagics/xassist.cpp: one exchange with a
-- model. libcurl and the JSON library are parameters.
pub mod Frame
pub mod Exchange
use xeus_cpp.Base.{
  ℕ, Bytes, Bool, [], ◌∷◌, ◌++◌, List, Option, none, some, codes, is_empty, if◌then◌else◌,
}
use xeus_cpp.World.{Access, M, ◌>>◌, ◌>>=◌, pure, raise, report, report_line, Thrown, Thrown.other}
use xeus_cpp.Assist.Settings.{load_model, load_url}
use xeus_cpp.Assist.History.{chat_text, chat_json}

-- What `curl_easy_perform` says: the bytes received, or the text of the error.
pub data Reply : Type 0 where
  ok : Bytes → Reply
  failed : Bytes → Reply

-- A POST to a URL, with its header lines and its body.
pub record Request : Type 0 where
  pub url : Bytes
  pub headers : List Bytes
  pub post_data : Bytes

-- The JSON library, as far as a response is read. `none` where the library throws. Its exceptions are no
-- `std::runtime_error`, so that the handler which they reach asks for nothing more: they are `other`.
pub record JsonLib : Type 1 where
  pub Json : Type 0
  pub parse : Bytes → Option Json
  pub has_key : Bytes → Json → Bool
  pub at_key : Bytes → Json → Option Json
  pub at_index : ℕ → Json → Option Json
  pub dump : Json → Bytes
  pub get_string : Json → Option Bytes

-- One subscript of `j["candidates"][0]`.
pub data Step : Type 0 where
  key : Bytes → Step
  index : ℕ → Step

-- The value that there is, or an exception of the library.
abbrev pub or_throw : {A : Type 0} → Option A → M A
or_throw none = raise other
or_throw (some a) = pure a

-- What is made of the code that libcurl returned.
abbrev pub received : Reply → M Bytes
received (ok response) = pure response
received (failed message) = report_line (codes "CURL request failed: " ∷ message ∷ []) >> pure []

module _ (access : Access) (curl : Request → Reply) (lib : JsonLib) where
  unfoldable pub perform_request : Bytes → Bytes → Bytes → M Bytes
  perform_request url post_data auth_header =
      let content_type = codes "Content-Type: application/json" in
      let headers =
        if is_empty auth_header then content_type ∷ [] else content_type ∷ auth_header ∷ [] in
      received (curl (record { url = url; headers = headers; post_data = post_data }))

  unfoldable pub walk : List Step → lib.Json → M lib.Json
  walk [] j = pure j
  walk (key k ∷ steps) j = or_throw (lib.at_key k j) >>= walk steps
  walk (index i ∷ steps) j = or_throw (lib.at_index i j) >>= walk steps

  -- The end that the three models share: the response is parsed, an error is reported, and the text that
  -- the path leads to is put into the history and returned.
  unfoldable pub answer : Bytes → Bytes → List Step → Bytes → M Bytes
  answer model role steps response = or_throw (lib.parse response) >>= λ j.
      if lib.has_key (codes "error") j
      then report (codes "Error: " ∷ [])
        >> (walk (key (codes "error") ∷ key (codes "message") ∷ []) j >>= λ message.
            report_line (lib.dump message ∷ []) >> pure [])
      else walk steps j >>= λ text.
          chat_json access model role (lib.dump text) >>= λ _. or_throw (lib.get_string text)

  unfoldable pub gemini : Bytes → Bytes → M Bytes
  gemini cell key_ = chat_text access (codes "gemini") (codes "user") cell >>= λ chat_message.
      load_model access (codes "gemini") >>= λ model.
      if is_empty model
      then report_line (codes "Model not found." ∷ []) >> pure []
      else perform_request
          (codes "https://generativelanguage.googleapis.com/v1beta/models/"
            ++ model
            ++ codes ":generateContent?key="
            ++ key_)
          (codes "{\"contents\": [ " ++ chat_message ++ codes "]}") []
        >>= answer (codes "gemini") (codes "model") (
            key (codes "candidates")
            ∷ index 0
            ∷ key (codes "content")
            ∷ key (codes "parts")
            ∷ index 0
            ∷ key (codes "text")
            ∷ [])

  unfoldable pub ollama : Bytes → M Bytes
  ollama cell = load_url access (codes "ollama") >>= λ url.
      chat_text access (codes "ollama") (codes "user") cell >>= λ chat_message.
      load_model access (codes "ollama") >>= λ model.
      if is_empty model
      then report_line (codes "Model not found." ∷ []) >> pure []
      else if is_empty url
      then report_line (codes "URL not found." ∷ []) >> pure []
      else perform_request url
          (codes "{\n                    \"model\": \""
            ++ model
            ++ codes "\",\n                    \"messages\": ["
            ++ chat_message
            ++ codes "],\n                    \"stream\": false\n                }")
          []
        >>= answer (codes "ollama") (codes "assistant")
            (key (codes "message") ∷ key (codes "content") ∷ [])

  unfoldable pub openai : Bytes → Bytes → M Bytes
  openai cell key_ = chat_text access (codes "openai") (codes "user") cell >>= λ chat_message.
      load_model access (codes "openai") >>= λ model.
      if is_empty model
      then report_line (codes "Model not found." ∷ []) >> pure []
      else perform_request (codes "https://api.openai.com/v1/chat/completions")
          (codes "{\n                    \"model\": \""
            ++ model
            ++ codes "\",\n                    \"messages\": ["
            ++ chat_message
            ++ codes "],\n                    \"temperature\": 0.7\n                }")
          (codes "Authorization: Bearer " ++ key_)
        >>= answer (codes "openai") (codes "assistant")
            (key (codes "choices") ∷ index 0 ∷ key (codes "message") ∷ key (codes "content") ∷ [])
