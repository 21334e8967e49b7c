-- ===== src/Proto/Tags.antt =====
-- The tags and the values of fields (src/proto.rs), and how they read back.
use native.Mathlib.Nat.{pow-suc}
use tracing_perfetto_file.Common.{
  ℕ, zero, suc, ◌+◌, ◌*◌, ◌/◌, ◌%◌, ◌^◌, ◌≤◌, ◌<◌, ◌≡◌, refl, sym, ◌∙◌, ap, List, [], ◌++◌, some,
  arith, bit_or, append_assoc, append-nil,
}
use tracing_perfetto_file.Common.Bits.{bit_or_shifted}
use tracing_perfetto_file.Common.Lists.{length, length-append, take-append, drop-append}
use tracing_perfetto_file.Proto.{
  ProtoBuffer, WireType, wire_type_code, IsU64, tag, varint_field, to_le_bytes,
}
use tracing_perfetto_file.Proto.Varint.{
  groups, write_varint-groups, read_varint-groups, length-groups,
}
use tracing_perfetto_file.Proto.Wire.{
  end, varint, Value, number, fixed, bytes, Reads, Encodes, read_varint, read_value, read_field,
  little_endian, split,
}

-- The schema's field numbers are far below this limit of the format.
abbrev pub IsFieldId : ℕ → Type 0
IsFieldId f = f < 2 ^ 29

-- The bytes of a tag.
abbrev pub tag_bytes : ℕ → WireType → List ℕ
tag_bytes f w = groups 9 (f * 8 + wire_type_code w)

code-lt : (w : WireType) → wire_type_code w < 8
code-lt WireType.varint = omega arith
code-lt WireType.fixed64 = omega arith
code-lt WireType.delimited = omega arith

pub tag_lem :
    (b : ProtoBuffer) (f : ℕ) (w : WireType)
    → IsFieldId f
    → tag b f w ≡ record { buf = b.buf ++ tag_bytes f w }
unfolding tag
tag_lem b f w h =
    let shifted : bit_or (f * 2 ^ 3 % 2 ^ 32) (wire_type_code w) ≡ f * 8 + wire_type_code w =
      ap (λ (t : ℕ). bit_or t (wire_type_code w))
        (let small : f * 2 ^ 3 % 2 ^ 32 ≡ f * 8 = omega arith in small)
      ∙ bit_or_shifted f (wire_type_code w) (code-lt w) in
    rw (shifted, write_varint-groups (f * 8 + wire_type_code w) b.buf (omega (arith, code-lt w)))

read_field-tag_bytes :
    (f : ℕ) (w : WireType) (bs rest : List ℕ) (v : Value)
    → IsFieldId f
    → read_value (wire_type_code w) bs ≡ some (v, rest)
    → read_field (tag_bytes f w ++ bs) ≡ some (f, v, rest)
unfolding read_field
read_field-tag_bytes f w bs rest v h e =
    rw (read_varint-groups 9 (f * 8 + wire_type_code w) bs (omega (arith, code-lt w)))
      (ground (arith, code-lt w, e))

pub Reads-tagged :
    (f : ℕ) (w : WireType) (bs : List ℕ) (v : Value)
    → IsFieldId f
    → ((rest : List ℕ) → read_value (wire_type_code w) (bs ++ rest) ≡ some (v, rest))
    → Reads f v (tag_bytes f w ++ bs)
Reads-tagged f w bs v h reads rest =
    rw (append_assoc (tag_bytes f w) bs rest)
      (read_field-tag_bytes f w (bs ++ rest) rest v h (reads rest))

pub read_value-number :
    (v : ℕ) (bs rest : List ℕ)
    → read_varint (bs ++ rest) ≡ some (v, rest)
    → read_value 0 (bs ++ rest) ≡ some (number v, rest)
unfolding read_value
read_value-number v bs rest e = rw e

split_lem : (s rest : List ℕ) → split (length s) (s ++ rest) ≡ some (s, rest)
unfolding split
split_lem s rest =
    rw (take-append s rest, drop-append s rest) (ground (arith, length-append s rest))

little_endian_lem : (n v : ℕ) → v < 256 ^ n → little_endian (to_le_bytes n v) ≡ v
little_endian_lem zero v h = omega arith
little_endian_lem (suc n) v h =
    omega (arith, little_endian_lem n (v / 256) (omega (arith, pow-suc 256 n)))

pub read_value-fixed :
    (v : ℕ) (rest : List ℕ)
    → IsU64 v
    → read_value 1 (to_le_bytes 8 v ++ rest) ≡ some (fixed v, rest)
unfolding read_value
read_value-fixed v rest h =
    rw (split_lem (to_le_bytes 8 v) rest)
      (ap (λ (t : ℕ). some (fixed t, rest)) (little_endian_lem 8 v (omega arith)))

pub read_value-bytes :
    (prefix s rest : List ℕ)
    → ((more : List ℕ) → read_varint (prefix ++ more) ≡ some (length s, more))
    → read_value 2 ((prefix ++ s) ++ rest) ≡ some (bytes s, rest)
unfolding read_value
read_value-bytes prefix s rest reads =
    rw (append_assoc prefix s rest, reads (s ++ rest)) (rw (split_lem s rest))

-- The bytes of one field: its tag, and those of its value.
pub alone : (xs : List ℕ) → xs ≡ xs ++ []
alone xs = sym (append-nil xs)

pub length-tag_bytes-append :
    (f : ℕ) (w : WireType) (bs : List ℕ) → length (tag_bytes f w ++ bs) ≤ 10 + length bs
length-tag_bytes-append f w bs =
    omega (arith, length-append (tag_bytes f w) bs, length-groups 9 (f * 8 + wire_type_code w))

pub varint_field_lem :
    (b : ProtoBuffer) (f v : ℕ)
    → IsFieldId f
    → IsU64 v
    → varint_field b f v ≡ record { buf = b.buf ++ (tag_bytes f WireType.varint ++ groups 9 v) }
unfolding varint_field
varint_field_lem b f v h hv =
    rw (tag_lem b f WireType.varint h, write_varint-groups v _ hv, append_assoc)

pub varint_bytes-Encodes :
    (f v : ℕ)
    → IsFieldId f
    → IsU64 v
    → Encodes (varint f v end) (tag_bytes f WireType.varint ++ groups 9 v)
varint_bytes-Encodes f v h hv = (
  _,
  [],
  alone _,
  Reads-tagged f WireType.varint (groups 9 v) (number v) h
      (λ rest. read_value-number v (groups 9 v) rest (read_varint-groups 9 v rest (omega arith))),
  refl,
)

pub length-varint_bytes : (f v : ℕ) → length (tag_bytes f WireType.varint ++ groups 9 v) ≤ 20
length-varint_bytes f v =
    omega (arith, length-tag_bytes-append f WireType.varint (groups 9 v), length-groups 9 v)
