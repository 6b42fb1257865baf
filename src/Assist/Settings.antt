-- ===== src/Assist/Settings.antt =====
-- `api_key_manager`, `model_manager` and `url_manager` of src/xmagics/xassist.cpp: one file for each model
-- and setting.
pub mod RoundTrip
use xeus_cpp.Base.{List, ◌∷◌, Bytes, [], ◌++◌, none, some, if◌then◌else◌, codes}
use xeus_cpp.World.{Access, M, ◌>>◌, pure, print_line, report_line, returned}
use xeus_cpp.World.Disk.{lookup, insert, first_line}

abbrev pub api_key_path : Bytes → Bytes
api_key_path model = model ++ codes "_api_key.txt"

abbrev pub model_path : Bytes → Bytes
model_path model = model ++ codes "_model.txt"

abbrev pub url_path : Bytes → Bytes
url_path model = model ++ codes "_url.txt"

module _ (access : Access) where
  -- `std::ofstream out(path)`, with the branches for a file that opened and for one that did not.
  unfoldable pub save : Bytes → Bytes → Bytes → List Bytes → M (Unit {0})
  save path value saved failed w =
      if access.writable path
      then print_line saved (record w { files = insert path value w.files })
      else report_line failed w

  -- `std::ifstream in(path)` and `std::getline`.
  unfoldable pub load : Bytes → List Bytes → M Bytes
  load path failed w =
      let absent = (report_line failed >> pure []) w in
      if access.readable path
      then elim (lookup path w.files) [
        | none ↦ absent
        | some value ↦ (returned (first_line value), w)
      ]
      else absent

  unfoldable pub save_api_key : Bytes → Bytes → M (Unit {0})
  save_api_key model api_key =
      save (api_key_path model) api_key (codes "API key saved for model " ++ model)
        (codes "Failed to open file for writing API key for model " ∷ model ∷ [])

  unfoldable pub load_api_key : Bytes → M Bytes
  load_api_key model =
      load (api_key_path model)
        (codes "Failed to open file for reading API key for model " ∷ model ∷ [])

  unfoldable pub save_model : Bytes → Bytes → M (Unit {0})
  save_model model model_name =
      save (model_path model) model_name (codes "Model saved for model " ++ model)
        (codes "Failed to open file for writing model for model " ∷ model ∷ [])

  unfoldable pub load_model : Bytes → M Bytes
  load_model model =
      load (model_path model)
        (codes "Failed to open file for reading model for model " ∷ model ∷ [])

  unfoldable pub save_url : Bytes → Bytes → M (Unit {0})
  save_url model url =
      save (url_path model) url (codes "URL saved for model " ++ model)
        (codes "Failed to open file for writing URL for model " ∷ model ∷ [])

  unfoldable pub load_url : Bytes → M Bytes
  load_url model =
      load (url_path model) (codes "Failed to open file for reading URL for model " ∷ model ∷ [])
