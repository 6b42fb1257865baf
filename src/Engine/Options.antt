-- ===== src/Engine/Options.antt =====
-- Which options the interpreter is created with.
use xeus_cpp.Base.{
  ℕ, ◌≡◌, refl, ap, ◌∙◌, Bytes, Bool, false, ◌&&◌, ◌||◌, [], ◌∷◌, ◌++◌, List, codes, is_empty,
  c_string, if◌then◌else◌, arith, if_split, ◌+◌, Bool-cases, inl, inr,
}
use xeus_cpp.World.{World, returned, report}
use xeus_cpp.Engine.{
  Detected, any_of, is_resource_dir, begins_with, is_openmp, resource_args, include_args,
  clang_args, complains, create_interpreter,
}

-- How many of the arguments pass a test.
unfoldable pub count : (Bytes → Bool) → List Bytes → ℕ
count test [] = 0
count test (s ∷ more) = let rest = count test more in if test s then 1 + rest else rest

count-append :
    (test : Bytes → Bool) (l r : List Bytes) → count test (l ++ r) ≡ count test l + count test r
unfolding count
count-append test [] r = omega arith
count-append test (s ∷ l) r = ground (arith, count-append test l r)

-- No path passes the test.
unfoldable pub NonePass : (Bytes → Bool) → List Bytes → Type 0
NonePass test [] = Unit
NonePass test (s ∷ more) = (test (c_string s) ≡ false) × NonePass test more

count-include_args :
    (test : Bytes → Bool) (paths : List Bytes)
    → test (codes "-isystem") ≡ false
    → NonePass test paths
    → count test (include_args paths) ≡ 0
unfolding count include_args NonePass
count-include_args test [] e h = refl
count-include_args test (s ∷ paths) e h = rw (e, h.0) (count-include_args test paths e h.1)

any_of-append :
    (test : Bytes → Bool) (l r : List Bytes)
    → any_of test (l ++ r) ≡ (any_of test l || any_of test r)
unfolding any_of
any_of-append test [] r = refl
any_of-append test (s ∷ l) r = ground (arith, any_of-append test l r)

any_of-include_args :
    (test : Bytes → Bool) (paths : List Bytes)
    → test (codes "-isystem") ≡ false
    → NonePass test paths
    → any_of test (include_args paths) ≡ false
unfolding any_of include_args NonePass
any_of-include_args test [] e h = refl
any_of-include_args test (s ∷ paths) e h = rw (e, h.0) (any_of-include_args test paths e h.1)

any_of-resource_args :
    (detected : Detected) (extra_args : List Bytes)
    → is_openmp (c_string detected.resource_dir) ≡ false
    → any_of is_openmp (resource_args detected extra_args) ≡ false
unfolding any_of begins_with
any_of-resource_args detected extra_args h =
    if_split (λ l. any_of is_openmp l ≡ false) (any_of is_resource_dir extra_args) (λ _. refl)
      (λ _.
        if_split (λ l. any_of is_openmp l ≡ false) (is_empty detected.resource_dir) (λ _. refl)
          (λ _. rw h refl))

openmp_args :
    (detected : Detected) (extra_args : List Bytes)
    → is_openmp (c_string detected.resource_dir) ≡ false
    → NonePass is_openmp detected.include_paths
    → any_of is_openmp (clang_args detected extra_args) ≡ any_of is_openmp extra_args
unfolding clang_args any_of begins_with
openmp_args detected extra_args h k =
    rw
      (
        any_of-append is_openmp (resource_args detected extra_args)
            (include_args detected.include_paths ++ extra_args),
        any_of-resource_args detected extra_args h,
        any_of-append is_openmp (include_args detected.include_paths) extra_args,
        any_of-include_args is_openmp detected.include_paths refl k,
      )
      refl

-- How often the option is given: by the user, or else once if a directory is detected.
abbrev pub expected_count : Detected → List Bytes → ℕ
expected_count detected extra_args =
    if any_of is_resource_dir extra_args
    then count is_resource_dir extra_args
    else if is_empty detected.resource_dir
    then 0
    else 1

count-any_of : (test : Bytes → Bool) (l : List Bytes) → any_of test l ≡ false → count test l ≡ 0
unfolding count any_of
count-any_of test [] e = refl
count-any_of test (s ∷ l) e = ground (arith, count-any_of test l)

resource_args-count :
    (detected : Detected) (extra_args : List Bytes)
    → is_resource_dir (c_string detected.resource_dir) ≡ false
    → count is_resource_dir (resource_args detected extra_args) + count is_resource_dir extra_args
      ≡ expected_count detected extra_args
unfolding count
resource_args-count detected extra_args h = elim (Bool-cases (any_of is_resource_dir extra_args)) [
  | inl e ↦ rw e (omega arith)
  | inr n ↦ elim (Bool-cases (is_empty detected.resource_dir)) [
    | inl e ↦ rw (n, e) (omega (arith, count-any_of is_resource_dir extra_args n))
    | inr m ↦ rw (n, m, h, count-any_of is_resource_dir extra_args n) refl
  ]
]

counted :
    (detected : Detected) (extra_args : List Bytes)
    → is_resource_dir (c_string detected.resource_dir) ≡ false
    → NonePass is_resource_dir detected.include_paths
    → count is_resource_dir (clang_args detected extra_args) ≡ expected_count detected extra_args
unfolding clang_args count
counted detected extra_args h k =
    let paths = include_args detected.include_paths in
    let no_path = count-include_args is_resource_dir detected.include_paths refl k in
    count-append is_resource_dir (resource_args detected extra_args) (paths ++ extra_args)
    ∙ ap (λ n. count is_resource_dir (resource_args detected extra_args) + n)
        (count-append is_resource_dir paths extra_args ∙ rw no_path (omega arith))
    ∙ resource_args-count detected extra_args h

created :
    (detected : Detected) (extra_args : List Bytes) (w : World)
    → any_of is_openmp (clang_args detected extra_args) ≡ any_of is_openmp extra_args
    → (create_interpreter detected extra_args w).0
      ≡ returned (record {
        interpreter = detected.creates (clang_args detected extra_args);
        loaded_libomp =
            detected.creates (clang_args detected extra_args) && any_of is_openmp extra_args;
      })
unfolding create_interpreter report
created detected extra_args w e = elim (Bool-cases (complains detected extra_args)) [
  | inl y ↦ rw (y, e) refl
  | inr n ↦ rw (n, e) refl
]

-- Where no path that is detected is itself spelled like the option `-resource-dir` or begins with `-fopenmp`: libomp is
-- loaded exactly if the interpreter is created and one of the user's arguments begins with `-fopenmp`, and the
-- interpreter's arguments have the option `-resource-dir` as often as the user gave it, and else once if a
-- directory is detected.
pub create_interpreter-options :
    (detected : Detected) (extra_args : List Bytes) (w : World)
    → is_openmp (c_string detected.resource_dir) ≡ false
    → NonePass is_openmp detected.include_paths
    → is_resource_dir (c_string detected.resource_dir) ≡ false
    → NonePass is_resource_dir detected.include_paths
    → let args : List Bytes = clang_args detected extra_args in
      ((create_interpreter detected extra_args w).0
        ≡ returned (record {
          interpreter = detected.creates args;
          loaded_libomp = detected.creates args && any_of is_openmp extra_args;
        }))
      × (count is_resource_dir args ≡ expected_count detected extra_args)
create_interpreter-options detected extra_args w h k i l = (
  created detected extra_args w (openmp_args detected extra_args h k),
  counted detected extra_args i l,
)
