-- ===== src/Assist/Chat/Exchange.antt =====
-- What an exchange with a model touches.
use xeus_cpp.Base.{Bytes, false, [], ◌∷◌, List, ◌≡◌, codes, equal, is_empty}
use xeus_cpp.World.{Access, report}
use xeus_cpp.Assist.Settings.{load_model, load_url}
use xeus_cpp.Assist.History.{chat_history_path, chat_text, chat_json}
use xeus_cpp.Assist.Chat.{
  Reply, ok, failed, Request, JsonLib, Step, key, index, or_throw, received, perform_request, walk,
  answer, gemini, ollama, openai,
}
use xeus_cpp.Assist.Chat.Frame.{
  Spares, Spares-bind, Spares-pure, Spares-report, Spares-or_throw, Spares-complain, Spares-if,
  Spares-load, Spares-append_and_read_back,
}

module _ (path : Bytes) (access : Access) (curl : Request → Reply) (lib : JsonLib) where
  Spares-received : (reply : Reply) → Spares path (received reply)
  Spares-received (ok response) = Spares-pure path response
  Spares-received (failed message) =
      Spares-complain path (codes "CURL request failed: " ∷ message ∷ [])

  Spares-perform_request :
      (url post_data auth : Bytes)
      → Spares path (perform_request access curl lib url post_data auth)
  unfolding perform_request
  Spares-perform_request url post_data auth =
      Spares-received (curl (record { url = url; headers = _; post_data = post_data }))

  Spares-walk : (steps : List Step) (j : lib.Json) → Spares path (walk access curl lib steps j)
  unfolding walk
  Spares-walk [] j = Spares-pure path j
  Spares-walk (key k ∷ steps) j =
      Spares-bind path (or_throw (lib.at_key k j)) (walk access curl lib steps)
        (Spares-or_throw path (lib.at_key k j)) (Spares-walk steps)
  Spares-walk (index i ∷ steps) j =
      Spares-bind path (or_throw (lib.at_index i j)) (walk access curl lib steps)
        (Spares-or_throw path (lib.at_index i j)) (Spares-walk steps)

  Spares-answer :
      (model role : Bytes) (steps : List Step) (response : Bytes)
      → equal (chat_history_path model) path ≡ false
      → Spares path (answer access curl lib model role steps response)
  unfolding answer chat_json
  Spares-answer model role steps response n =
      Spares-bind path (or_throw (lib.parse response)) _ (Spares-or_throw path (lib.parse response))
        λ j.
          Spares-if path (lib.has_key (codes "error") j) _ _
            (Spares-bind path (report (codes "Error: " ∷ [])) _
              (Spares-report path (codes "Error: " ∷ []))
              λ _.
                Spares-bind path
                  (walk access curl lib (key (codes "error") ∷ key (codes "message") ∷ []) j) _
                  (Spares-walk _ j) λ message. Spares-complain path (lib.dump message ∷ []))
            (Spares-bind path (walk access curl lib steps j) _ (Spares-walk steps j) λ text.
              Spares-bind path (chat_json access model role (lib.dump text)) _
                (Spares-append_and_read_back path access model role (lib.dump text) n)
                λ _. Spares-or_throw path (lib.get_string text))

  pub Spares-gemini :
      (cell api_key : Bytes)
      → equal (chat_history_path (codes "gemini")) path ≡ false
      → Spares path (gemini access curl lib cell api_key)
  unfolding gemini chat_text load_model
  Spares-gemini cell api_key n =
      Spares-bind path _ _ (Spares-append_and_read_back path access _ _ _ n) λ chat_message.
        Spares-bind path _ _ (Spares-load path access _ _) λ model.
          Spares-if path (is_empty model) _ _ (Spares-complain path _) (
            Spares-bind path _ _ (Spares-perform_request _ _ _)
              λ response. Spares-answer _ _ _ response n)

  pub Spares-openai :
      (cell api_key : Bytes)
      → equal (chat_history_path (codes "openai")) path ≡ false
      → Spares path (openai access curl lib cell api_key)
  unfolding openai chat_text load_model
  Spares-openai cell api_key n =
      Spares-bind path _ _ (Spares-append_and_read_back path access _ _ _ n) λ chat_message.
        Spares-bind path _ _ (Spares-load path access _ _) λ model.
          Spares-if path (is_empty model) _ _ (Spares-complain path _) (
            Spares-bind path _ _ (Spares-perform_request _ _ _)
              λ response. Spares-answer _ _ _ response n)

  pub Spares-ollama :
      (cell : Bytes)
      → equal (chat_history_path (codes "ollama")) path ≡ false
      → Spares path (ollama access curl lib cell)
  unfolding ollama chat_text load_model load_url
  Spares-ollama cell n = Spares-bind path _ _ (Spares-load path access _ _) λ url.
      Spares-bind path _ _ (Spares-append_and_read_back path access _ _ _ n) λ chat_message.
        Spares-bind path _ _ (Spares-load path access _ _) λ model.
          Spares-if path (is_empty model) _ _ (Spares-complain path _) (
            Spares-if path (is_empty url) _ _ (Spares-complain path _) (
              Spares-bind path _ _ (Spares-perform_request _ _ _)
                λ response. Spares-answer _ _ _ response n))
