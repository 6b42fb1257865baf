-- ===== src/Assist/Command.antt =====
-- `xassist::operator()` of src/xmagics/xassist.cpp: the line is read as words, then a setting is stored or the cell is
-- sent to a model.
pub mod Safe
use xeus_cpp.Base.{
  ℕ, Bytes, Bool, true, false, not, ◌&&◌, ◌||◌, [], ◌∷◌, ◌++◌, List, Option, none, some, codes,
  equal, is_empty, if◌then◌else◌, get_elem?, words,
}
use xeus_cpp.World.{
  Access, World, M, Outcome, returned, threw, undefined, Thrown, runtime_error, other, ◌>>◌, ◌>>=◌,
  pure, fault, report_line, print,
}
use xeus_cpp.Assist.Escape.{escape_special_cases}
use xeus_cpp.Assist.Settings.{save_api_key, load_api_key, save_model, save_url}
use xeus_cpp.Assist.History.{refresh}
use xeus_cpp.Assist.Chat.{Reply, Request, JsonLib, gemini, ollama, openai}

-- What the third word of the line asks for. The last one stands for any other word, for `--set-url` with a
-- model that is not ollama, and for a line of two words.
pub data OptionWord : Type 0 where
  save_key refresh_history save_model_name set_url ask : OptionWord

unfoldable pub option_word : Bytes → Option Bytes → OptionWord
option_word model none = ask
option_word model (some word) =
    if equal word (codes "--save-key")
    then save_key
    else if equal word (codes "--refresh")
    then refresh_history
    else if equal word (codes "--save-model")
    then save_model_name
    else if equal word (codes "--set-url") && equal model (codes "ollama")
    then set_url
    else ask

unfoldable pub is_model : Bytes → Bool
is_model model =
    equal model (codes "gemini") || equal model (codes "openai") || equal model (codes "ollama")

-- The handlers around the body.
abbrev pub handled : Outcome (Unit {0}) × World → Outcome (Unit {0}) × World
handled (returned a, w) = (returned a, w)
handled (threw (runtime_error what), w) = report_line (codes "Caught an exception: " ∷ what ∷ []) w
handled (threw _, w) = report_line (codes "Caught an unknown exception" ∷ []) w
handled (undefined, w) = (undefined, w)

module _ (access : Access) (curl : Request → Reply) (lib : JsonLib) where
  unfoldable pub ask_model : Bytes → Bytes → Bytes → M Bytes
  ask_model model prompt key =
      if equal model (codes "gemini")
      then gemini access curl lib prompt key
      else if equal model (codes "openai")
      then openai access curl lib prompt key
      else if equal model (codes "ollama")
      then ollama access curl lib prompt
      else pure []

  unfoldable pub respond : Bytes → Bytes → Bytes → M (Unit {0})
  respond model cell key =
      ask_model model (escape_special_cases cell) key >>= λ response. print response

  -- The API key, which ollama has none of, and then the question.
  unfoldable pub converse : Bytes → Bytes → M (Unit {0})
  converse model cell =
      if not (equal model (codes "ollama"))
      then (load_api_key access model >>= λ key.
          if is_empty key
          then report_line (codes "API key for model " ∷ model ∷ codes " is not available." ∷ [])
          else respond model cell key)
      else respond model cell []

  unfoldable pub execute : Bytes → Bytes → OptionWord → M (Unit {0})
  execute model cell save_key = save_api_key access model cell
  execute model cell refresh_history = refresh access model
  execute model cell save_model_name = save_model access model cell
  execute model cell set_url = save_url access model cell
  execute model cell ask = converse model cell

  -- The second and the third word, where there are these. `tokens[1]` is undefined without a second word.
  unfoldable pub command : Option Bytes → Option Bytes → Bytes → M (Unit {0})
  command none third cell = fault
  command (some model) third cell =
      if not (is_model model)
      then report_line (codes "Model not found." ∷ [])
      else execute model cell (option_word model third)

  -- The body of the `try` block, with the line's words.
  unfoldable pub body : List Bytes → Bytes → M (Unit {0})
  body tokens cell = command (get_elem? tokens 1) (get_elem? tokens 2) cell

  unfoldable pub xassist : Bytes → Bytes → M (Unit {0})
  xassist line cell w = handled (body (words line) cell w)
