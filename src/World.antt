-- ===== src/World.antt =====
-- What the magics act on: the files and the standard streams, with the exceptions of C++ and undefined behaviour as
-- outcomes. Which files can be opened is up to the environment, `Access`.
pub mod Disk
use xeus_cpp.Base.{Bytes, Bool, List, [], ◌∷◌, ◌++◌, codes}
use xeus_cpp.Buffer.{OutputBuffer, xsputn, sync}
use xeus_cpp.World.Disk.{Files}

-- What a computation may throw, as far as the handlers tell it apart: a `std::runtime_error`, a `std::logic_error` or
-- another `std::exception` with its text, or a value of any type of which no handler asks more.
pub data Thrown : Type 0 where
  runtime_error : Bytes → Thrown
  logic_error : Bytes → Thrown
  exception : Bytes → Thrown
  other : Thrown

pub data Outcome (A : Type 0) : Type 0 where
  returned : A → Outcome A
  threw : Thrown → Outcome A
  undefined : Outcome A

-- `out` and `err` are the kernel's buffers `m_cout_buffer` and `m_cerr_buffer`, behind `std::cout` and `std::cerr`.
pub record World : Type 0 where
  pub files : Files
  pub out : OutputBuffer
  pub err : OutputBuffer

pub record Access : Type 0 where
  pub readable : Bytes → Bool
  pub writable : Bytes → Bool

abbrev pub M : Type 0 → Type 0
M A = World → Outcome A × World

abbrev pub pure : {A : Type 0} → A → M A
pure a w = (returned a, w)

abbrev pub raise : {A : Type 0} → Thrown → M A
raise e w = (threw e, w)

abbrev pub fault : {A : Type 0} → M A
fault w = (undefined, w)

abbrev pub bind_outcome : {A B : Type 0} → Outcome A × World → (A → M B) → Outcome B × World
bind_outcome (returned a, w) f = f a w
bind_outcome (threw e, w) f = (threw e, w)
bind_outcome (undefined, w) f = (undefined, w)

infixl 5 ◌>>=◌ ◌>>◌
abbrev pub ◌>>=◌ : {A B : Type 0} → M A → (A → M B) → M B
◌>>=◌ m f w = bind_outcome (m w) f

abbrev pub ◌>>◌ : {B : Type 0} → M (Unit {0}) → M B → M B
m >> k = m >>= λ _. k

-- `std::cout << text`, the flush, and `<< text << std::endl`.
unfoldable pub print : Bytes → M (Unit {0})
print text w = (returned tt, record w { out = xsputn text w.out })

unfoldable pub flush_out : M (Unit {0})
flush_out w = (returned tt, record w { out = sync w.out })

unfoldable pub print_line : Bytes → M (Unit {0})
print_line text w = (returned tt, record w { out = sync (xsputn (text ++ codes "\n") w.out) })

-- Insertions into `std::cerr`. It is unit-buffered, so that each is flushed at once.
unfoldable pub insertions : List Bytes → OutputBuffer → OutputBuffer
insertions [] b = b
insertions (text ∷ more) b = insertions more (sync (xsputn text b))

-- `std::cerr << text << ...`, and the same with `<< std::endl` behind it. It is tied to `std::cout`, which is flushed before an
-- insertion.
unfoldable pub report : List Bytes → M (Unit {0})
report texts w = (returned tt, record w { out = sync w.out; err = insertions texts w.err })

unfoldable pub report_line : List Bytes → M (Unit {0})
report_line texts w = (
  returned tt,
  record w { out = sync w.out; err = insertions (codes "\n" ∷ []) (insertions texts w.err) },
)
