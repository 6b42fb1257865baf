-- ===== src/Assist/Command/Safe.antt =====
-- What `xassist` leaves alone, and how it ends.
use mathlib.Core.Path.{subst}
use xeus_cpp.Base.{
  sym, ◌↔◌, ℕ, ap, Bytes, true, false, not, [], ◌∷◌, ◌++◌, List, ◌≡◌, refl, none, some, codes,
  equal, equal_iff, is_empty, get_elem?, words, arith, Option-cases, inl, inr,
}
use xeus_cpp.World.{
  Access, World, Outcome, returned, threw, undefined, report_line, print_line, runtime_error,
  logic_error, exception, other,
}
use xeus_cpp.World.Disk.{lookup, lookup-insert}
use xeus_cpp.Assist.Settings.{
  save, save_api_key, save_model, save_url, load_api_key, api_key_path, model_path, url_path,
}
use xeus_cpp.Assist.History.{chat_history_path, refresh}
use xeus_cpp.Assist.Chat.{Reply, Request, JsonLib}
use xeus_cpp.Assist.Chat.Frame.{
  Spared, Spares, Spares-bind, Spares-pure, Spares-report_line, Spares-print, Spares-if,
  Spares-if_when, Spares-load, Spared-if,
}
use xeus_cpp.Assist.Chat.Exchange.{Spares-gemini, Spares-openai, Spares-ollama}
use xeus_cpp.Assist.Command.{
  OptionWord, save_key, refresh_history, save_model_name, set_url, ask, option_word, is_model,
  handled, ask_model, respond, converse, execute, command, body, xassist,
}

other_path :
    (a b path : Bytes)
    → equal a b ≡ true
    → equal (chat_history_path a) path ≡ false
    → equal (chat_history_path b) path ≡ false
other_path a b path e n =
    ground (arith, ap (λ m. equal (chat_history_path m) path) ((equal_iff a b).0 e), n)

-- A path that a suffix ends is not empty.
suffixed : (a : Bytes) (c : ℕ) (b : Bytes) → equal (a ++ c ∷ b) [] ≡ false
suffixed [] c b = refl
suffixed (x ∷ a) c b = refl

module _ (path : Bytes) (access : Access) (curl : Request → Reply) (lib : JsonLib) where
  Spares-save :
      (file value saved : Bytes) (complaint : List Bytes)
      → equal file path ≡ false
      → Spares path (save access file value saved complaint)
  unfolding save Spared print_line report_line
  Spares-save file value saved complaint n w =
      Spared-if path w (access.writable file) _ _
        (ground (arith, lookup-insert file path value w.files)) refl

  Spares-refresh :
      (model : Bytes)
      → equal (chat_history_path model) path ≡ false
      → Spares path (refresh access model)
  unfolding refresh Spared
  Spares-refresh model n w =
      Spared-if path w (access.writable (chat_history_path model)) _ _
        (ground (arith, lookup-insert (chat_history_path model) path [] w.files)) refl

  Spares-ask_model :
      (model prompt key : Bytes)
      → equal (chat_history_path model) path ≡ false
      → Spares path (ask_model access curl lib model prompt key)
  unfolding ask_model
  Spares-ask_model model prompt key n =
      Spares-if_when path (equal model (codes "gemini")) _ _
        (λ e. Spares-gemini path access curl lib prompt key (other_path model _ path e n))
        (Spares-if_when path (equal model (codes "openai")) _ _
          (λ e. Spares-openai path access curl lib prompt key (other_path model _ path e n))
          (Spares-if_when path (equal model (codes "ollama")) _ _
            (λ e. Spares-ollama path access curl lib prompt (other_path model _ path e n))
            (Spares-pure path [])))

  Spares-respond :
      (model cell key : Bytes)
      → equal (chat_history_path model) path ≡ false
      → Spares path (respond access curl lib model cell key)
  unfolding respond
  Spares-respond model cell key n =
      Spares-bind path _ _ (Spares-ask_model model _ key n) λ response. Spares-print path response

  Spares-converse :
      (model cell : Bytes)
      → equal (chat_history_path model) path ≡ false
      → Spares path (converse access curl lib model cell)
  unfolding converse load_api_key
  Spares-converse model cell n =
      Spares-if path (not (equal model (codes "ollama"))) _ _
        (Spares-bind path _ _ (Spares-load path access _ _) λ key.
          Spares-if path (is_empty key) _ _ (Spares-report_line path _)
            (Spares-respond model cell key n))
        (Spares-respond model cell [] n)

  -- What a command may write is its model's history, API key, model name or URL.
  Spares-execute :
      (model cell : Bytes) (o : OptionWord)
      → equal (chat_history_path model) path ≡ false
      → equal (api_key_path model) path ≡ false
      → equal (model_path model) path ≡ false
      → equal (url_path model) path ≡ false
      → Spares path (execute access curl lib model cell o)
  unfolding execute save_api_key save_model save_url
  Spares-execute model cell save_key h a m u = Spares-save _ _ _ _ a
  Spares-execute model cell refresh_history h a m u = Spares-refresh model h
  Spares-execute model cell save_model_name h a m u = Spares-save _ _ _ _ m
  Spares-execute model cell set_url h a m u = Spares-save _ _ _ _ u
  Spares-execute model cell ask h a m u = Spares-converse model cell h

  Spares-body :
      (tokens : List Bytes) (model cell : Bytes)
      → get_elem? tokens 1 ≡ some model
      → equal (chat_history_path model) path ≡ false
      → equal (api_key_path model) path ≡ false
      → equal (model_path model) path ≡ false
      → equal (url_path model) path ≡ false
      → Spares path (body access curl lib tokens cell)
  unfolding body command
  Spares-body tokens model cell e h a m u =
      subst (λ o. Spares path (command access curl lib o (get_elem? tokens 2) cell)) (sym e)
        (Spares-if path (not (is_model model)) _ _
          (Spares-report_line path (codes "Model not found." ∷ []))
          (Spares-execute model cell (option_word model (get_elem? tokens 2)) h a m u))

handled-Spared :
    (path : Bytes) (w : World) (r : Outcome (Unit {0}) × World)
    → Spared path w r
    → ((handled r).0 ≡ returned tt) × (lookup path (handled r).1.files ≡ lookup path w.files)
unfolding Spared report_line
handled-Spared path w (returned tt, v) h = (refl, h)
handled-Spared path w (threw (runtime_error what), v) h = (refl, h)
handled-Spared path w (threw (logic_error what), v) h = (refl, h)
handled-Spared path w (threw (exception what), v) h = (refl, h)
handled-Spared path w (threw other, v) h = (refl, h)
handled-Spared path w (undefined, v) h = absurd h

module _ (access : Access) (curl : Request → Reply) (lib : JsonLib) where
  -- Of a line with a second word, whatever libcurl and the JSON library answer: the magic returns, so that no
  -- exception leaves it, and the only files it changes are the history, the API key, the model name and the
  -- URL of the model that the second word names.
  pub xassist-contained :
      (line cell model path : Bytes) (w : World)
      → get_elem? (words line) 1 ≡ some model
      → equal (chat_history_path model) path ≡ false
      → equal (api_key_path model) path ≡ false
      → equal (model_path model) path ≡ false
      → equal (url_path model) path ≡ false
      → ((xassist access curl lib line cell w).0 ≡ returned tt)
        × (lookup path (xassist access curl lib line cell w).1.files ≡ lookup path w.files)
  unfolding xassist
  xassist-contained line cell model path w e h a m u =
      handled-Spared path w _ (Spares-body path access curl lib (words line) model cell e h a m u w)

  -- The magic has undefined behaviour exactly for the lines of fewer than two words.
  pub xassist-undefined :
      (line cell : Bytes) (w : World)
      → ((xassist access curl lib line cell w).0 ≡ undefined) ↔ (get_elem? (words line) 1 ≡ none)
  unfolding xassist body command
  xassist-undefined line cell w = elim (Option-cases (get_elem? (words line) 1)) [
    | inl e ↦ (
      λ d. e,
      λ n. ap (λ o. (handled (command access curl lib o (get_elem? (words line) 2) cell w)).0) e,
    )
    | inr (model, e) ↦ (
      λ d. ground (
        arith,
        d,
        (xassist-contained line cell model [] w e (suffixed model _ _) (suffixed model _ _)
            (suffixed model _ _) (suffixed model _ _)).0,
      ),
      λ n. ground (arith, e, n),
    )
  ]
