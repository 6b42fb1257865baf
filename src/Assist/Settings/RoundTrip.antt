-- ===== src/Assist/Settings/RoundTrip.antt =====
-- What is loaded after a setting was saved.
use xeus_cpp.Base.{Bytes, ◌≡◌, true, false, arith, equal, equal_iff}
use xeus_cpp.World.{print_line, Access, World, returned}
use xeus_cpp.World.Disk.{lookup, first_line, lookup-insert}
use xeus_cpp.Assist.Settings.{save, load, api_key_path, save_api_key, load_api_key}

module _ (access : Access) where
  -- An API key that was saved in a file that can be written and read is loaded again up to its first newline.
  -- Loading it changes nothing, and saving it changes no other file.
  pub load_api_key-save_api_key :
      (model api_key : Bytes) (w : World)
      → access.writable (api_key_path model) ≡ true
      → access.readable (api_key_path model) ≡ true
      → let saved : World = (save_api_key access model api_key w).1 in
        (load_api_key access model saved ≡ (returned (first_line api_key), saved))
        × ((j : Bytes)
            → equal (api_key_path model) j ≡ false
            → lookup j saved.files ≡ lookup j w.files)
  unfolding save_api_key load_api_key load save print_line
  load_api_key-save_api_key model api_key w hw hr =
      let path = api_key_path model in
      (
        ground (arith, lookup-insert path path api_key w.files, equal_iff path path),
        λ j n. ground (arith, lookup-insert path j api_key w.files),
      )
