-- ===== src/Launch/Builder.antt =====
-- `builder_with_args` of src/main_emscripten_kernel.cpp. Its two variables are static: the arguments are taken from the
-- caller when the function is called for the first time, and both are cleared at the end of each call. A vector that has
-- held an element keeps its storage, so that `data` is no null pointer; that of a new vector is one, as in libc++.
use xeus_cpp.Base.{
  Bool, true, false, not, ◌||◌, [], ◌∷◌, List, Option, none, some, Bytes, ◌≡◌, refl,
}
use xeus_cpp.World.{Outcome, returned, undefined}
use xeus_cpp.Launch.{Host, Process, extra_args, create}

-- `args`, which is `none` before the first call, and whether `argv_vec` has storage.
pub record Statics : Type 0 where
  pub args : Option (List Bytes)
  pub has_storage : Bool

abbrev pub no_calls : Statics
no_calls = record { args = none; has_storage = false }

-- The initialiser runs once.
unfoldable pub args_in : Option (List Bytes) → List Bytes → List Bytes
args_in none js_args = js_args
args_in (some args) js_args = args

abbrev is_nil : List Bytes → Bool
is_nil [] = true
is_nil (s ∷ more) = false

-- What the constructor of the interpreter is given, and the variables behind the call.
unfoldable pub builder_with_args : List Bytes → Statics → Outcome (List Bytes) × Statics
builder_with_args js_args s =
    let args = args_in s.args js_args in
    let storage = s.has_storage || not (is_nil args) in
    (extra_args storage args, record { args = some []; has_storage = storage })

-- The constructor ends before the variables are cleared.
unfoldable pub build : Host → List Bytes → Statics → Process → Outcome (Unit {0}) × Process
build host js_args s p = create host (builder_with_args js_args s).0 p

-- The interpreter of the first call is given the arguments behind the first one, none if there is none. The second call, whatever
-- its arguments: if the first one had arguments, it is undefined, and else its interpreter has no arguments.
pub builder_with_args-twice :
    (name : Bytes) (first second : List Bytes)
    → let (o, s) = builder_with_args (name ∷ first) no_calls in
      let (o', t) = builder_with_args [] no_calls in
      (o ≡ returned first)
      × ((builder_with_args second s).0 ≡ undefined)
      × (o' ≡ returned [])
      × ((builder_with_args second t).0 ≡ returned [])
unfolding builder_with_args args_in extra_args
builder_with_args-twice name first second = (refl, refl, refl, refl)
