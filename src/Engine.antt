-- ===== src/Engine.antt =====
-- `createInterpreter` of src/xinterpreter.cpp: the arguments with which the C++ interpreter is created. What CppInterOp
-- detects and creates is a parameter.
pub mod Options
use xeus_cpp.Base.{
  Bytes, Bool, true, false, not, ◌&&◌, [], ◌∷◌, ◌++◌, List, codes, equal, is_empty, c_string,
  if◌then◌else◌,
}
use xeus_cpp.World.{M, pure, report, ◌>>◌}

-- `DetectResourceDir`, `DetectSystemCompilerIncludePaths`, and whether `CreateInterpreter` gives an interpreter for some
-- arguments.
pub record Detected : Type 0 where
  pub resource_dir : Bytes
  pub include_paths : List Bytes
  pub creates : List Bytes → Bool

-- `std::find_if` finds an argument.
unfoldable pub any_of : (Bytes → Bool) → List Bytes → Bool
any_of test [] = false
any_of test (s ∷ more) = let rest = any_of test more in if test s then true else rest

abbrev pub is_resource_dir : Bytes → Bool
is_resource_dir s = equal s (codes "-resource-dir")

-- `s.find("-fopenmp") == 0`
unfoldable pub begins_with : Bytes → Bytes → Bool
begins_with [] s = true
begins_with (c ∷ p) [] = false
begins_with (c ∷ p) (d ∷ s) =
    let rest = begins_with p s in if equal (c ∷ []) (d ∷ []) then rest else false

abbrev pub is_openmp : Bytes → Bool
is_openmp s = begins_with (codes "-fopenmp") s

abbrev pub resource_args : Detected → List Bytes → List Bytes
resource_args detected extra_args =
    if any_of is_resource_dir extra_args
    then []
    else if is_empty detected.resource_dir
    then []
    else codes "-resource-dir" ∷ c_string detected.resource_dir ∷ []

unfoldable pub include_args : List Bytes → List Bytes
include_args [] = []
include_args (path ∷ more) = codes "-isystem" ∷ c_string path ∷ include_args more

unfoldable pub clang_args : Detected → List Bytes → List Bytes
clang_args detected extra_args =
    codes "-v"
    ∷ (resource_args detected extra_args ++ (include_args detected.include_paths ++ extra_args))

-- The message for a directory that is looked for and not found.
abbrev pub complains : Detected → List Bytes → Bool
complains detected extra_args =
    not (any_of is_resource_dir extra_args) && is_empty detected.resource_dir

-- Whether there is an interpreter, and whether libomp was loaded into it.
pub record Created : Type 0 where
  pub interpreter : Bool
  pub loaded_libomp : Bool

unfoldable pub create_interpreter : Detected → List Bytes → M Created
create_interpreter detected extra_args =
    let args = clang_args detected extra_args in
    (if complains detected extra_args
      then report (codes "Failed to detect the resource-dir\n" ∷ [])
      else pure tt)
    >> pure (record {
      interpreter = detected.creates args;
      loaded_libomp = detected.creates args && any_of is_openmp args;
    })
