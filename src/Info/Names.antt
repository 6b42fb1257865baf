-- ===== src/Info/Names.antt =====
-- The names of the languages and the standards tell them apart.
use xeus_cpp.Base.{
  Bytes, ◌≡◌, refl, ap, sym, ◌∙◌, [], ◌∷◌, List, Option, none, some, equal, if◌then◌else◌,
}
use xeus_cpp.Info.{
  LanguageStandard, get_stdopt, Language, get_language, InfoReply, kernel_info_request,
}
use xeus_cpp.Info.{
  c89, c94, gnu89, c99, gnu99, c11, gnu11, c17, gnu17, c23, gnu23, c2y, gnu2y, cxx98, gnucxx98,
  cxx11, gnucxx11, cxx14, gnucxx14, cxx17, gnucxx17, cxx20, gnucxx20, cxx23, gnucxx23, cxx26,
  gnucxx26, opencl10, opencl11, opencl12, opencl20, opencl30, openclcpp10, openclcpp2021, hlsl,
  hlsl2015, hlsl2016, hlsl2017, hlsl2018, hlsl2021, hlsl202x, hlsl202y, lang_unspecified, unlisted,
  unknown_lang, asm_lang, cir_lang, llvm_ir_lang, c_lang, c_plus_plus_lang, obj_c_lang,
  obj_c_plus_plus_lang, open_cl_lang, open_cl_cxx_lang, cuda_lang, hip_lang, hlsl_lang,
  unlisted_lang,
}

abbrev standards : List LanguageStandard
standards =
    c89 ∷ c94 ∷ gnu89 ∷ c99 ∷ gnu99 ∷ c11 ∷ gnu11 ∷ c17 ∷ gnu17 ∷ c23 ∷ gnu23 ∷ c2y ∷ gnu2y ∷ cxx98
    ∷ gnucxx98 ∷ cxx11 ∷ gnucxx11 ∷ cxx14 ∷ gnucxx14 ∷ cxx17 ∷ gnucxx17 ∷ cxx20 ∷ gnucxx20 ∷ cxx23
    ∷ gnucxx23 ∷ cxx26 ∷ gnucxx26 ∷ opencl10 ∷ opencl11 ∷ opencl12 ∷ opencl20 ∷ opencl30
    ∷ openclcpp10 ∷ openclcpp2021 ∷ hlsl ∷ hlsl2015 ∷ hlsl2016 ∷ hlsl2017 ∷ hlsl2018 ∷ hlsl2021
    ∷ hlsl202x ∷ hlsl202y ∷ lang_unspecified ∷ unlisted ∷ []

-- The first of a list that has the name.
abbrev standard_named : Bytes → List LanguageStandard → Option LanguageStandard
standard_named name [] = none
standard_named name (s ∷ more) =
    if equal (get_stdopt s) name then some s else standard_named name more

standard_named-get_stdopt :
    (s : LanguageStandard) → standard_named (get_stdopt s) standards ≡ some s
unfolding get_stdopt
standard_named-get_stdopt c89 = refl
standard_named-get_stdopt c94 = refl
standard_named-get_stdopt gnu89 = refl
standard_named-get_stdopt c99 = refl
standard_named-get_stdopt gnu99 = refl
standard_named-get_stdopt c11 = refl
standard_named-get_stdopt gnu11 = refl
standard_named-get_stdopt c17 = refl
standard_named-get_stdopt gnu17 = refl
standard_named-get_stdopt c23 = refl
standard_named-get_stdopt gnu23 = refl
standard_named-get_stdopt c2y = refl
standard_named-get_stdopt gnu2y = refl
standard_named-get_stdopt cxx98 = refl
standard_named-get_stdopt gnucxx98 = refl
standard_named-get_stdopt cxx11 = refl
standard_named-get_stdopt gnucxx11 = refl
standard_named-get_stdopt cxx14 = refl
standard_named-get_stdopt gnucxx14 = refl
standard_named-get_stdopt cxx17 = refl
standard_named-get_stdopt gnucxx17 = refl
standard_named-get_stdopt cxx20 = refl
standard_named-get_stdopt gnucxx20 = refl
standard_named-get_stdopt cxx23 = refl
standard_named-get_stdopt gnucxx23 = refl
standard_named-get_stdopt cxx26 = refl
standard_named-get_stdopt gnucxx26 = refl
standard_named-get_stdopt opencl10 = refl
standard_named-get_stdopt opencl11 = refl
standard_named-get_stdopt opencl12 = refl
standard_named-get_stdopt opencl20 = refl
standard_named-get_stdopt opencl30 = refl
standard_named-get_stdopt openclcpp10 = refl
standard_named-get_stdopt openclcpp2021 = refl
standard_named-get_stdopt hlsl = refl
standard_named-get_stdopt hlsl2015 = refl
standard_named-get_stdopt hlsl2016 = refl
standard_named-get_stdopt hlsl2017 = refl
standard_named-get_stdopt hlsl2018 = refl
standard_named-get_stdopt hlsl2021 = refl
standard_named-get_stdopt hlsl202x = refl
standard_named-get_stdopt hlsl202y = refl
standard_named-get_stdopt lang_unspecified = refl
standard_named-get_stdopt unlisted = refl

abbrev languages : List Language
languages =
    unknown_lang ∷ asm_lang ∷ cir_lang ∷ llvm_ir_lang ∷ c_lang ∷ c_plus_plus_lang ∷ obj_c_lang
    ∷ obj_c_plus_plus_lang ∷ open_cl_lang ∷ open_cl_cxx_lang ∷ cuda_lang ∷ hip_lang ∷ hlsl_lang
    ∷ unlisted_lang ∷ []

-- The first of a list that has the name.
abbrev language_named : Bytes → List Language → Option Language
language_named name [] = none
language_named name (s ∷ more) =
    if equal (get_language s) name then some s else language_named name more

language_named-get_language : (s : Language) → language_named (get_language s) languages ≡ some s
unfolding get_language
language_named-get_language unknown_lang = refl
language_named-get_language asm_lang = refl
language_named-get_language cir_lang = refl
language_named-get_language llvm_ir_lang = refl
language_named-get_language c_lang = refl
language_named-get_language c_plus_plus_lang = refl
language_named-get_language obj_c_lang = refl
language_named-get_language obj_c_plus_plus_lang = refl
language_named-get_language open_cl_lang = refl
language_named-get_language open_cl_cxx_lang = refl
language_named-get_language cuda_lang = refl
language_named-get_language hip_lang = refl
language_named-get_language hlsl_lang = refl
language_named-get_language unlisted_lang = refl

some-injective : {A : Type 0} {a b : A} → some a ≡ some b → a ≡ b
some-injective h = cc

-- Kernels of one version that reply with the same information have the same language and the same standard.
pub kernel_info_request-injective :
    (version : Bytes) (l l' : Language) (s s' : LanguageStandard)
    → kernel_info_request version (get_language l) (get_stdopt s)
      ≡ kernel_info_request version (get_language l') (get_stdopt s')
    → (l ≡ l') × (s ≡ s')
unfolding kernel_info_request
kernel_info_request-injective version l l' s s' h = (
  some-injective (
      sym (language_named-get_language l)
      ∙ ap (λ (r : InfoReply). language_named r.language_name languages) h
      ∙ language_named-get_language l'),
  some-injective (
      sym (standard_named-get_stdopt s)
      ∙ ap (λ (r : InfoReply). standard_named r.language_version standards) h
      ∙ standard_named-get_stdopt s'),
)
