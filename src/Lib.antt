-- ===== src/Lib.antt =====
-- xeus-cpp, a Jupyter kernel for C++.
--
-- The kernel answers the requests of a front end. A request to execute a code first asks the preambles, by
-- their patterns and in the order of their names: the look-up of documentation (`?`), the magics (`%` and
-- `%%`) and the shell (`!`). A code that none of them matches goes to the C++ interpreter, between guards
-- that redirect or silence the standard streams, and one reply is composed of what it returns or throws.
-- Other requests complete a word, tell whether an input is complete, and describe the kernel. What the code
-- prints reaches the front end through stream buffers that collect it up to the next flush.
--
-- Files:
-- - Token, Lexer, Scan, Validator: `token`, `xlexer` and `xinput_validator` of src/xinput_validator.hpp and
--   src/xinput_validator.cpp. Lexer has a function for each `lex_*`, Scan the loop of `validate` and the cases of its
--   switch, Validator what is before and behind the loop, and `is_complete_request_impl` of src/xinterpreter.cpp.
-- - Kernel: `interpreter` of include/xeus-cpp/xinterpreter.hpp and src/xinterpreter.cpp, its state and
--   `execute_request_impl`, with `StreamRedirectRAII` (`processed`), `SilentStreamRedirectRAII` (`silence`, `unsilence`)
--   and `input_redirection` of src/xinput.cpp. Kernel/Init is the constructor with `init_preamble` and `init_magic`.
-- - Completion: `complete_request_impl`. Question: `inspect_request_impl`. Info: `get_stdopt`, `get_language` and
--   `kernel_info_request_impl`. Engine: `createInterpreter`. All of src/xinterpreter.cpp.
-- - Holder: `xholder_preamble` of src/xholder.cpp, `xpreamble` of include/xeus-cpp/xpreamble.hpp and
--   `xpreamble_manager` of include/xeus-cpp/xmanager.hpp.
-- - Magics: `xmagics_manager` of include/xeus-cpp/xmanager.hpp. Pattern: the parts of its regular expressions.
-- - WriteFile: `writefile` of src/xmagics/os.cpp and `argparser::parse` of src/xoptions.cpp.
-- - Assist: src/xmagics/xassist.cpp, in child modules: Settings (the managers of keys, models and URLs), History
--   (`chat_history`), Escape (`escape_special_cases`), Chat (the exchanges) and Command (`xassist::operator()`).
-- - Shell: `xsystem` of src/xsystem.hpp. Inspect: src/xinspect.cpp and the directories of src/xutils.cpp.
-- - Buffer: include/xeus-cpp/xbuffer.hpp. Parser: src/xparser.cpp. Input: the buffer of src/xinput.cpp behind `std::cin`,
--   with the functions of the standard library by which a code reads it.
-- - Launch: `main` of src/main.cpp and the handlers of src/xutils.cpp; Launch/Builder: src/main_emscripten_kernel.cpp.
-- - World: the files and the kernel's output buffers, which the magics act on (`std::cerr` is unit-buffered), and how a computation of C++ ends: it
--   returns, throws, or its behaviour is undefined. Base: lists of bytes, maps, the results of code that walks a buffer.
-- - Tests: runs of the definitions, and the theorems at concrete inputs.
--
-- State and operations. A `std::string` is a list of bytes. A cursor into a buffer is what is left of the
-- buffer from it on. The kernel is a record of its files and buffers, of what the three standard streams are
-- connected to, the preambles, the counter of `find_type_slow`, and what was published and replied; each
-- operation takes it and gives it back. The stack of the validator has its back at the head of the list. A
-- `std::map` is a list in the order of its keys.
--
-- Bounds and fuel. A `std::size_t` has 64 bits, and where the source may wrap around (`trim`, the indent) the
-- model does. The loop of `validate` has as fuel the length of the buffer and one more; each round that goes
-- on reads a byte. The loop over `fgets` has as fuel the length of the output and one more. A line that is
-- read from `std::cin` has a fuel that bounds its characters. A `char` is signed.
--
-- Parameters. What is not in the repository is an argument: CppInterOp (what the interpreter does with a
-- code, the types it finds, the paths it detects), xeus (the replies that it composes are constructors with
-- their arguments), libcurl, the JSON library, pugixml, argparse, `popen`, the answers of the frontend, the
-- environment of the process, and which files can be opened. Regular expressions are functions on bytes, in
-- the "C" locale.
--
-- Not modelled: the replies to shutdown and interrupt, which are fixed; the server of xeus, with its loggers
-- and its sockets, once `main` has started it; include/xcpp, which hands values to xeus. A code may leave a
-- buffer of its own behind `std::cout` or `std::cerr`, and what is printed from then on reaches none of the
-- kernel's; a code that puts one of the kernel's buffers or a guard's behind a stream is not followed. What a
-- code reads from `std::cin` while `Cpp::Process` runs it is part of that parameter. An interpreter that
-- calls back into the kernel is seen by what it leaves.
pub mod Base
pub mod Token
pub mod Lexer
pub mod Scan
pub mod Validator
pub mod Parser
pub mod Completion
pub mod World
pub mod Assist
pub mod Buffer
pub mod Pattern
pub mod Magics
pub mod WriteFile
pub mod Shell
pub mod Inspect
pub mod Holder
pub mod Kernel
pub mod Info
pub mod Engine
pub mod Question
pub mod Input
pub mod Launch
mod Tests
