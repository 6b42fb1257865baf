-- ===== src/Input.antt =====
-- src/xinput.cpp, and `xinput_buffer` of include/xeus-cpp/xbuffer.hpp behind `std::cin`. The frontend is seen by its
-- answers to the input requests, in their order; it answers each of them.
pub mod Supply
pub mod Lines
use xeus_cpp.Base.{
  ℕ, zero, suc, ◌+◌, Bool, true, false, [], ◌∷◌, ◌++◌, List, Option, none, some, codes, Bytes,
  get_elem?, if◌then◌else◌, ◌==◌,
}
use xeus_cpp.Base.Run.{Run, done, out_of_bounds, out_of_fuel, ◌>>=◌}
use xeus_cpp.Buffer.{InputBuffer, new_input_buffer, underflow}
use xeus_cpp.World.{Outcome, returned, threw, undefined, Thrown, runtime_error}

-- `m_cin_buffer` with the callback that it was made with, and how many input requests were sent.
pub record Input : Type 0 where
  pub allow_stdin : Bool
  pub buffer : InputBuffer
  pub asked : ℕ

unfoldable pub input_redirection : Bool → ℕ → Input
input_redirection allow_stdin asked = record {
  allow_stdin = allow_stdin;
  buffer = new_input_buffer;
  asked = asked;
}

abbrev pub notimplemented : Thrown
notimplemented = runtime_error (codes "This frontend does not support input requests")

-- `underflow` with the callback that the constructor chose: `blocking_input_request` or `notimplemented`, which leaves
-- the buffer alone.
unfoldable pub fill_by : Bool → (ℕ → Bytes) → Input → Outcome ℕ × Input
fill_by true answers i =
    let (c, b) = underflow (λ _. answers i.asked) i.buffer in
    (returned c, record i { buffer = b; asked = suc i.asked })
fill_by false answers i = (threw notimplemented, i)

abbrev pub fill : (ℕ → Bytes) → Input → Outcome ℕ × Input
fill answers i = fill_by i.allow_stdin answers i

-- `gptr` behind the character that was read.
abbrev pub advance : Input → Input
advance i = record i { buffer = record i.buffer { position = suc i.buffer.position } }

abbrev pub advance_if : Outcome ℕ × Input → Outcome ℕ × Input
advance_if (returned c, i) = (returned c, advance i)
advance_if (threw e, i) = (threw e, i)
advance_if (undefined, i) = (undefined, i)

-- `sbumpc`: a character of the get area, or the first one of a new get area.
unfoldable pub sbumpc : (ℕ → Bytes) → Input → Outcome ℕ × Input
sbumpc answers i = elim (get_elem? i.buffer.m_value i.buffer.position) [
  | none ↦ advance_if (fill answers i)
  | some c ↦ (returned c, advance i)
]

-- `xsgetn`: the characters that are read, up to an exception.
unfoldable pub sgetn : ℕ → (ℕ → Bytes) → Input → Bytes × Input
sgetn zero answers i = ([], i)
sgetn (suc n) answers i =
    let (o, j) = sbumpc answers i in
    let (cs, k) = sgetn n answers j in
    elim o [ returned c ↦ (c ∷ cs, k) | threw e ↦ ([], j) | undefined ↦ ([], j) ]

-- `std::cin`: its buffer, and whether no error was met.
pub record Cin : Type 0 where
  pub input : Input
  pub good : Bool

abbrev pub new_cin : Bool → ℕ → Cin
new_cin allow_stdin asked = record { input = input_redirection allow_stdin asked; good = true }

abbrev pub failed : Input → Cin
failed i = record { input = i; good = false }

-- `std::getline(std::cin, line)` on a stream without an error: the characters up to the end of a line. A stream takes an
-- exception of its buffer for an error, and throws none. The fuel bounds the characters that are read.
unfoldable pub read_line : ℕ → (ℕ → Bytes) → Bytes → Input → Run (Option Bytes × Cin)
read_line zero answers line i = out_of_fuel
read_line (suc f) answers line i =
    let (o, j) = sbumpc answers i in
    elim o [
      | returned c ↦
          let rest = read_line f answers (line ++ c ∷ []) j in
          if c == b'\n' then done (some line, record { input = j; good = true }) else rest
      | threw e ↦ done (none, failed j)
      | undefined ↦ out_of_bounds
    ]

unfoldable pub getline : ℕ → (ℕ → Bytes) → Cin → Run (Option Bytes × Cin)
getline f answers s = if s.good then read_line f answers [] s.input else done (none, s)

-- Several lines, one after the other.
unfoldable pub getlines : ℕ → ℕ → (ℕ → Bytes) → Cin → Run (List (Option Bytes) × Cin)
getlines zero f answers s = done ([], s)
getlines (suc n) f answers s = do
  (line, t) ← getline f answers s
  (rest, u) ← getlines n f answers t
  done (line ∷ rest, u)
