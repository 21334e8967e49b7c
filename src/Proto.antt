-- ===== src/Proto.antt =====
-- src/proto.rs: the encoder of the protobuf wire format. A byte buffer is a list of numbers;
-- `none` is a panic. A `u64`, `u32` or `usize` is a number below 2 ^ 64, 2 ^ 32 or 2 ^ 64.
pub mod Wire
pub mod Varint
pub mod Tags
pub mod Fields
pub mod Framing
pub mod Reading
mod Runs
use mathlib.Core.WellFounded.{Acc}
use mathlib.Core.Logic.{dite}
use native.Mathlib.Decide.{dec_lt}
use tracing_perfetto_file.Common.{
  ℕ, zero, suc, ◌+◌, ◌-◌, ◌*◌, ◌/◌, ◌%◌, ◌^◌, ◌≤◌, ◌<◌, bit_and, bit_or, List, [], ◌∷◌, ◌++◌,
  Option, none, some, ◌==◌, leb, if◌then◌else◌, ◌>>=◌, ◌>>◌, guard, arith, below_wf,
}
use tracing_perfetto_file.Common.Lists.{length, take, drop, replicate}

abbrev pub IsU64 : ℕ → Type 0
IsU64 v = v < 2 ^ 64

pub data WireType : Type 0 where
  varint fixed64 delimited : WireType

-- `wire_type as u32`
abbrev pub wire_type_code : WireType → ℕ
wire_type_code varint = 0
wire_type_code fixed64 = 1
wire_type_code delimited = 2

shifted-lt : (v : ℕ) → 0 < v / 2 ^ 7 → v / 2 ^ 7 < v
shifted-lt v h = omega arith

-- The loop of `write_varint`: it goes on while `value >> 7` is not zero.
write_varint_loop : (value : ℕ) → Acc ◌<◌ value → List ℕ → List ℕ
write_varint_loop value (Acc.intro _ smaller) out =
    let byte = bit_and value 0x7f % 256 in
    let value' = value / 2 ^ 7 in
    dite (dec_lt 0 value')
      (λ more.
        write_varint_loop value' (smaller value' (shifted-lt value more))
          (out ++ bit_or byte 0x80 ∷ []))
      (λ _. out ++ byte ∷ [])

pub write_varint : ℕ → List ℕ → List ℕ
write_varint value out = write_varint_loop value (below_wf.apply value) out

abbrev pub message_len_prefix_size : ℕ
message_len_prefix_size = 4

abbrev pub max_message_len : ℕ
max_message_len = 2 ^ (message_len_prefix_size * 7) - 1

-- The loop of `write_redundant_varint` over the bytes that are left of the slice, from index `i`.
redundant_bytes : (value i last : ℕ) → List ℕ → List ℕ
redundant_bytes value i last [] = []
redundant_bytes value i last (_ ∷ slice) =
    bit_or (value % 256) (if i == last then 0 else 0x80)
    ∷ redundant_bytes (value / 2 ^ 7) (i + 1) last slice

-- The new contents of the slice `out`. `out.len() - 1` panics on an empty slice.
pub write_redundant_varint : ℕ → List ℕ → Option (List ℕ)
write_redundant_varint value out = do
  guard (leb value max_message_len)
  guard (leb 1 (length out))
  some (redundant_bytes value 0 (length out - 1) out)

pub record ProtoBuffer : Type 0 where
  pub buf : List ℕ

pub record MessageToken : Type 0 where
  pub len_prefix : ℕ
  pub payload_start : ℕ

unfoldable pub new : ProtoBuffer
new = record { buf = [] }

unfoldable pub clear : ProtoBuffer → ProtoBuffer
clear b = record b { buf = [] }

pub as_bytes : ProtoBuffer → List ℕ
as_bytes b = b.buf

unfoldable pub truncate : ProtoBuffer → ℕ → ProtoBuffer
truncate b len = record b { buf = take len b.buf }

-- `field_id << 3` drops the bits that leave the `u32`.
pub tag : ProtoBuffer → ℕ → WireType → ProtoBuffer
tag b field_id wire_type = record b {
  buf = write_varint (bit_or (field_id * 2 ^ 3 % 2 ^ 32) (wire_type_code wire_type)) b.buf;
}

pub varint_field : ProtoBuffer → ℕ → ℕ → ProtoBuffer
varint_field b field_id value =
    let b' = tag b field_id varint in record b' { buf = write_varint value b'.buf }

-- The array `encoded`.
pub redundant_u64 : ℕ → List ℕ
redundant_u64 value =
    bit_or (value % 256) 0x80
    ∷ bit_or (value / 2 ^ 7 % 256) 0x80
    ∷ bit_or (value / 2 ^ 14 % 256) 0x80
    ∷ bit_or (value / 2 ^ 21 % 256) 0x80
    ∷ bit_or (value / 2 ^ 28 % 256) 0x80
    ∷ bit_or (value / 2 ^ 35 % 256) 0x80
    ∷ bit_or (value / 2 ^ 42 % 256) 0x80
    ∷ bit_or (value / 2 ^ 49 % 256) 0x80
    ∷ bit_or (value / 2 ^ 56 % 256) 0x80
    ∷ value / 2 ^ 63 % 256
    ∷ []

pub redundant_varint_field : ProtoBuffer → ℕ → ℕ → ProtoBuffer
redundant_varint_field b field_id value =
    let b' = tag b field_id varint in record b' { buf = b'.buf ++ redundant_u64 value }

-- `to_le_bytes`, for `n` bytes
abbrev pub to_le_bytes : ℕ → ℕ → List ℕ
to_le_bytes zero value = []
to_le_bytes (suc n) value = value % 256 ∷ to_le_bytes n (value / 256)

pub fixed64_field : ProtoBuffer → ℕ → ℕ → ProtoBuffer
fixed64_field b field_id value =
    let b' = tag b field_id fixed64 in record b' { buf = b'.buf ++ to_le_bytes 8 value }

-- An `f64` is given by its bits, the result of `to_bits`.
pub double_field : ProtoBuffer → ℕ → ℕ → ProtoBuffer
double_field b field_id bits = fixed64_field b field_id bits

pub string_field : ProtoBuffer → ℕ → List ℕ → ProtoBuffer
string_field b field_id value =
    let b' = tag b field_id delimited in
    record b' { buf = write_varint (length value) b'.buf ++ value }

pub begin_message : ProtoBuffer → ℕ → MessageToken × ProtoBuffer
begin_message b field_id =
    let tagged = tag b field_id delimited in
    let grown = tagged.buf ++ replicate message_len_prefix_size 0 in
    (
      record { len_prefix = length tagged.buf; payload_start = length grown },
      record { buf = grown },
    )

-- Panics where the subtraction or the slice does.
pub finish_message : ProtoBuffer → MessageToken → Option ProtoBuffer
finish_message b token = do
  guard (leb token.payload_start (length b.buf))
  guard (leb token.len_prefix token.payload_start)
  let payload_len = length b.buf - token.payload_start
  let slice = take (token.payload_start - token.len_prefix) (drop token.len_prefix b.buf)
  prefix ← write_redundant_varint payload_len slice
  some
      (record b { buf = take token.len_prefix b.buf ++ (prefix ++ drop token.payload_start b.buf) })

-- A nested message: `body` is what the code does with the handle until it is dropped.
unfoldable pub message : ProtoBuffer → ℕ → (ProtoBuffer → Option ProtoBuffer) → Option ProtoBuffer
message b field_id body =
    let (token, begun) = begin_message b field_id in
    body begun >>= λ written. finish_message written token

-- What `Sink` collects: the pieces of text that the formatted value writes, in order.
extend_all : ProtoBuffer → List (List ℕ) → ProtoBuffer
extend_all b [] = b
extend_all b (piece ∷ pieces) = extend_all (record b { buf = b.buf ++ piece }) pieces

pub fmt_field : ProtoBuffer → ℕ → List (List ℕ) → Option ProtoBuffer
fmt_field b field_id pieces = message b field_id λ m. some (extend_all m pieces)

-- `pieces` is what the `Debug` implementation of the value writes.
pub debug_field : ProtoBuffer → ℕ → List (List ℕ) → Option ProtoBuffer
debug_field b field_id pieces = fmt_field b field_id pieces

-- `pieces` is what the `Display` implementation of the value writes.
pub display_field : ProtoBuffer → ℕ → List (List ℕ) → Option ProtoBuffer
display_field b field_id pieces = fmt_field b field_id pieces
