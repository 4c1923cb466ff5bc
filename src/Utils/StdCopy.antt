-- ===== src/Utils/StdCopy.antt =====
-- utils/stdcopy.go: several output streams in one connection. The reader is the list of what its
-- further `Read` calls can give; a piece longer than the buffer's free part stays for the next
-- call, and the empty list is the end of the file. The writers' answers are a parameter.
mod Tests
pub mod Fill
pub mod RoundTrip
use docker_analysis.Base.{
  ℕ, zero, suc, ◌+◌, ◌-◌, ◌*◌, ◌/◌, ◌%◌, ◌≡◌, Bool, true, false, List, [], ◌∷◌, ◌++◌, Option, none,
  some, ltb, leb, nat_beq, if◌then◌else◌, Str, length, take, drop,
}

abbrev pub std_writer_prefix_len : ℕ
std_writer_prefix_len = 8

-- A `StdType`: its first byte. The other seven are 0 until `Write` puts the size there.
pub data StdType : Type 0 where
  stdin stdout stderr : StdType

abbrev pub fd_byte : StdType → ℕ
fd_byte stdin = 0
fd_byte stdout = 1
fd_byte stderr = 2

-- `binary.BigEndian.PutUint32(…, uint32(n))`
abbrev pub put_uint32 : ℕ → Str
put_uint32 n = (n / 0x100_0000 % 256) ∷ (n / 0x1_0000 % 256) ∷ (n / 0x100 % 256) ∷ (n % 256) ∷ []

-- The prefix of a frame of `n` bytes.
abbrev pub header : StdType → ℕ → Str
header t n = fd_byte t ∷ 0 ∷ 0 ∷ 0 ∷ put_uint32 n

-- The bytes that one `Write` of a `StdWriter` passes to its writer.
unfoldable pub write_frame : StdType → Str → Str
write_frame t buf = header t (length buf) ++ buf

pub data ReadError : Type 0 where
  no_error eof failure : ReadError

pub record Piece : Type 0 where
  pub bytes : Str
  pub error : ReadError

abbrev pub Reader : Type 0
Reader = List Piece

-- `src.Read(buf[nr:])` with `space` bytes of room.
unfoldable pub read : ℕ → Reader → Piece × Reader
read space [] = (record { bytes = []; error = eof }, [])
read space (p ∷ rest) =
    if ltb space (length p.bytes)
    then (
      record { bytes = take space p.bytes; error = no_error },
      record p { bytes = drop space p.bytes } ∷ rest,
    )
    else (p, rest)

pub data Filled : Type 0 where
  full : Str → Reader → Filled
  ended failed no_fuel : Filled

-- The two loops `for nr < need`; `buf` is `buf[:nr]`, and `room` is `bufLen`.
unfoldable pub fill : ℕ → ℕ → ℕ → Str → Reader → Filled
fill zero need room buf rd = no_fuel
fill (suc fuel) need room buf rd =
    let (p, rd') = read (room - length buf) rd in
    let buf' = buf ++ p.bytes in
    let again = fill fuel need room buf' rd' in
    if ltb (length buf) need
    then elim p.error [
      | no_error ↦ again
      | eof ↦ if ltb (length buf') need then ended else full buf' rd'
      | failure ↦ failed
    ]
    else full buf rd

-- What one `Write` answers: the number of bytes taken, or an error.
abbrev pub Writer : Type 0
Writer = StdType → Str → Option ℕ

pub data CopyError : Type 0 where
  invalid_std_header read_error write_error short_write : CopyError

pub record Copied : Type 0 where
  pub out : List Str
  pub err : List Str
  pub written : ℕ

-- `fuelled` says that the rounds given did not end the loop.
pub data Result : Type 0 where
  done : Copied → Result
  stopped : CopyError → Copied → Result
  fuelled : Result

-- The stream that the first byte of a frame names.
abbrev pub stream_of : ℕ → Option StdType
stream_of fd =
    if nat_beq fd 0
    then some stdout
    else if nat_beq fd 1
    then some stdout
    else if nat_beq fd 2
    then some stderr
    else none

abbrev pub uint32 : Str → ℕ
uint32 (a ∷ b ∷ c ∷ d ∷ rest) = a * 0x100_0000 + b * 0x1_0000 + c * 0x100 + d
uint32 _ = 0

abbrev pub head_or_zero : Str → ℕ
head_or_zero [] = 0
head_or_zero (x ∷ xs) = x

-- `append(buf, make([]byte, frameSize+8-bufLen+1)...)`
abbrev pub extended : ℕ → ℕ → ℕ
extended room size =
    if ltb room (size + std_writer_prefix_len)
    then room + (size + std_writer_prefix_len - room + 1)
    else room

abbrev pub note : StdType → Str → Copied → Copied
note stdin frame c = c
note stdout frame c = record c { out = c.out ++ frame ∷ []; written = c.written + length frame }
note stderr frame c = record c { err = c.err ++ frame ∷ []; written = c.written + length frame }

unfoldable pub std_copy : ℕ → Writer → ℕ → Str → Reader → Copied → Result
std_copy zero w room buf rd c = fuelled
std_copy (suc fuel) w room buf rd c = elim (fill (suc fuel) std_writer_prefix_len room buf rd) [
  | no_fuel ↦ fuelled
  | ended ↦ done c
  | failed ↦ stopped read_error c
  | full head rd₁ ↦ elim (stream_of (head_or_zero head)) [
    | none ↦ stopped invalid_std_header c
    | some t ↦
        let size : ℕ = uint32 (drop 4 head) in
        let room' = extended room size in
        elim (fill (suc fuel) (size + std_writer_prefix_len) room' head rd₁) [
          | no_fuel ↦ fuelled
          | ended ↦ done c
          | failed ↦ stopped read_error c
          | full whole rd₂ ↦
              let frame = take size (drop std_writer_prefix_len whole) in
              let rest = drop (size + std_writer_prefix_len) whole in
              elim (w t frame) [
                | none ↦ stopped write_error c
                | some nw ↦
                    let more = std_copy fuel w room' rest rd₂ (note t frame c) in
                    if nat_beq nw size then more else stopped short_write c
              ]
        ]
  ]
]

abbrev pub initial_len : ℕ
initial_len = 32 * 1024 + std_writer_prefix_len + 1
