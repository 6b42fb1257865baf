-- ===== src/Info.antt =====
-- The language that a kernel reports: `get_stdopt`, `get_language` and `kernel_info_request_impl` of
-- src/xinterpreter.cpp. The enumerations are CppInterOp's; `unlisted` stands for a value that the switch has no case
-- for.
pub mod Names
use xeus_cpp.Base.{Bytes, [], ◌∷◌, ◌++◌, List, codes}

pub data LanguageStandard : Type 0 where
  c89 c94 gnu89 c99 gnu99 c11 gnu11 c17 gnu17 c23 gnu23 c2y gnu2y cxx98 gnucxx98 cxx11 gnucxx11
        cxx14 gnucxx14 cxx17 gnucxx17 cxx20 gnucxx20 cxx23 gnucxx23 cxx26 gnucxx26 opencl10 opencl11
        opencl12 opencl20 opencl30 openclcpp10 openclcpp2021 hlsl hlsl2015 hlsl2016 hlsl2017
        hlsl2018 hlsl2021 hlsl202x hlsl202y lang_unspecified unlisted :
      LanguageStandard

unfoldable pub get_stdopt : LanguageStandard → Bytes
get_stdopt c89 = codes "c89"
get_stdopt c94 = codes "c94"
get_stdopt gnu89 = codes "gnu89"
get_stdopt c99 = codes "c99"
get_stdopt gnu99 = codes "gnu99"
get_stdopt c11 = codes "c11"
get_stdopt gnu11 = codes "gnu11"
get_stdopt c17 = codes "c17"
get_stdopt gnu17 = codes "gnu17"
get_stdopt c23 = codes "c23"
get_stdopt gnu23 = codes "gnu23"
get_stdopt c2y = codes "c2y"
get_stdopt gnu2y = codes "gnu2y"
get_stdopt cxx98 = codes "cxx98"
get_stdopt gnucxx98 = codes "gnucxx98"
get_stdopt cxx11 = codes "cxx11"
get_stdopt gnucxx11 = codes "gnucxx11"
get_stdopt cxx14 = codes "cxx14"
get_stdopt gnucxx14 = codes "gnucxx14"
get_stdopt cxx17 = codes "cxx17"
get_stdopt gnucxx17 = codes "gnucxx17"
get_stdopt cxx20 = codes "cxx20"
get_stdopt gnucxx20 = codes "gnucxx20"
get_stdopt cxx23 = codes "cxx23"
get_stdopt gnucxx23 = codes "gnucxx23"
get_stdopt cxx26 = codes "cxx26"
get_stdopt gnucxx26 = codes "gnucxx26"
get_stdopt opencl10 = codes "opencl10"
get_stdopt opencl11 = codes "opencl11"
get_stdopt opencl12 = codes "opencl12"
get_stdopt opencl20 = codes "opencl20"
get_stdopt opencl30 = codes "opencl30"
get_stdopt openclcpp10 = codes "openclcpp10"
get_stdopt openclcpp2021 = codes "openclcpp2021"
get_stdopt hlsl = codes "hlsl"
get_stdopt hlsl2015 = codes "hlsl2015"
get_stdopt hlsl2016 = codes "hlsl2016"
get_stdopt hlsl2017 = codes "hlsl2017"
get_stdopt hlsl2018 = codes "hlsl2018"
get_stdopt hlsl2021 = codes "hlsl2021"
get_stdopt hlsl202x = codes "hlsl202x"
get_stdopt hlsl202y = codes "hlsl202y"
get_stdopt lang_unspecified = codes "lang_unspecified"
get_stdopt unlisted = codes "unknown"

pub data Language : Type 0 where
  unknown_lang asm_lang cir_lang llvm_ir_lang c_lang c_plus_plus_lang obj_c_lang
        obj_c_plus_plus_lang open_cl_lang open_cl_cxx_lang cuda_lang hip_lang hlsl_lang
        unlisted_lang :
      Language

unfoldable pub get_language : Language → Bytes
get_language unknown_lang = codes "Unknown"
get_language asm_lang = codes "Asm"
get_language cir_lang = codes "CIR"
get_language llvm_ir_lang = codes "LLVM_IR"
get_language c_lang = codes "C"
get_language c_plus_plus_lang = codes "C++"
get_language obj_c_lang = codes "ObjC"
get_language obj_c_plus_plus_lang = codes "ObjC++"
get_language open_cl_lang = codes "OpenCL"
get_language open_cl_cxx_lang = codes "OpenCLCXX"
get_language cuda_lang = codes "CUDA"
get_language hip_lang = codes "HIP"
get_language hlsl_lang = codes "HLSL"
get_language unlisted_lang = codes "unknown"

-- The arguments of `xeus::create_info_reply`, in its order; of the help links the texts and the URLs.
pub record InfoReply : Type 0 where
  pub implementation : Bytes
  pub implementation_version : Bytes
  pub language_name : Bytes
  pub language_version : Bytes
  pub mimetype : Bytes
  pub file_extension : Bytes
  pub pygments_lexer : Bytes
  pub codemirror_mode : Bytes
  pub nbconvert_exporter : Bytes
  pub banner : Bytes
  pub help_links : List (Bytes × Bytes)

abbrev banner : Bytes
banner =
    codes "  __  _____ _   _ ___\n"
    ++ codes "  \\ \\/ / _ \\ | | / __|\n"
    ++ codes "   >  <  __/ |_| \\__ \\\n"
    ++ codes "  /_/\\_\\___|\\__,_|___/\n"
    ++ codes "\n"
    ++ codes "  xeus-cpp: a C++ Jupyter kernel - based on Clang-repl\n"

-- `kernel_info_request_impl`, for the version `XEUS_CPP_VERSION`, and `m_language` and `m_version`.
unfoldable pub kernel_info_request : Bytes → Bytes → Bytes → InfoReply
kernel_info_request version m_language m_version = record {
  implementation = codes "xeus-cpp";
  implementation_version = version;
  language_name = m_language;
  language_version = m_version;
  mimetype = codes "text/x-c++src";
  file_extension = codes ".cpp";
  pygments_lexer = [];
  codemirror_mode = codes "text/x-c++src";
  nbconvert_exporter = [];
  banner = banner;
  help_links = (codes "Xeus-cpp Reference", codes "https://xeus-cpp.readthedocs.io") ∷ [];
}
