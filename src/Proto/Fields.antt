-- ===== src/Proto/Fields.antt =====
-- The field writers of src/proto.rs against the reader of the wire format: each appends bytes that
-- read as its one field.
use tracing_perfetto_file.Common.{
  ℕ, ◌+◌, ◌≤◌, ◌≡◌, refl, ap, List, [], ◌++◌, Option, some, ◌>>=◌, arith, append_assoc,
}
use tracing_perfetto_file.Common.Lists.{length, length-append}
use tracing_perfetto_file.Proto.{
  ProtoBuffer, WireType, IsU64, varint_field, redundant_varint_field, fixed64_field, double_field,
  string_field, to_le_bytes,
}
use tracing_perfetto_file.Proto.Varint.{
  groups, padded, write_varint-groups, read_varint-groups, read_varint-padded, length-groups,
  length-padded, redundant_u64-padded,
}
use tracing_perfetto_file.Proto.Wire.{
  Layout, end, varint, fixed64, string, message, ◌+++◌, number, fixed, bytes, Encodes,
  Encodes-append,
}
use tracing_perfetto_file.Proto.Tags.{
  IsFieldId, tag_bytes, tag_lem, Reads-tagged, read_value-number, read_value-fixed,
  read_value-bytes, alone, length-tag_bytes-append, varint_field_lem, varint_bytes-Encodes,
  length-varint_bytes,
}

-- An upper bound of the bytes that the fields take.
abbrev pub bound : Layout → ℕ
bound end = 0
bound (varint f v l) = 20 + bound l
bound (fixed64 f v l) = 18 + bound l
bound (string f s l) = 20 + length s + bound l
bound (message f sub l) = 14 + bound sub + bound l

-- On every buffer, `op` appends the same bytes, which hold the fields of the tree.
pub record Writes (l : Layout) (op : ProtoBuffer → Option ProtoBuffer) : Type 0 where
  pub chunk : List ℕ
  pub appends : (b : ProtoBuffer) → op b ≡ some (record { buf = b.buf ++ chunk })
  pub small : length chunk ≤ bound l
  pub holds : Encodes l chunk

module _ (f : ℕ) (h : IsFieldId f) where
  -- `varint_field`, for a field number of the format and a `u64`: it appends bytes that read as
  -- one varint field with the value.
  pub varint_field-Writes :
      (v : ℕ) → IsU64 v → Writes (varint f v end) (λ b. some (varint_field b f v))
  varint_field-Writes v hv = record {
    chunk = tag_bytes f WireType.varint ++ groups 9 v;
    appends = λ b. ap some (varint_field_lem b f v h hv);
    small = length-varint_bytes f v;
    holds = varint_bytes-Encodes f v h hv;
  }

  -- `redundant_varint_field`, for a field number of the format and a `u64`: it appends bytes that
  -- read as one varint field with the value, though the varint is padded to ten bytes.
  pub redundant_varint_field-Writes :
      (v : ℕ) → IsU64 v → Writes (varint f v end) (λ b. some (redundant_varint_field b f v))
  unfolding redundant_varint_field
  redundant_varint_field-Writes v hv = record {
    chunk = tag_bytes f WireType.varint ++ padded 9 v;
    appends = λ b. rw (tag_lem b f WireType.varint h, redundant_u64-padded v hv, append_assoc);
    small =
        omega (arith, length-tag_bytes-append f WireType.varint (padded 9 v), length-padded 9 v);
    holds = (
      _,
      [],
      alone _,
      Reads-tagged f WireType.varint (padded 9 v) (number v) h (λ rest.
          read_value-number v (padded 9 v) rest (read_varint-padded 9 v rest (omega arith))),
      refl,
    );
  }

  -- `fixed64_field`, for a field number of the format and a `u64`: it appends bytes that read as
  -- one field of eight bytes with the value.
  pub fixed64_field-Writes :
      (v : ℕ) → IsU64 v → Writes (fixed64 f v end) (λ b. some (fixed64_field b f v))
  unfolding fixed64_field
  fixed64_field-Writes v hv = record {
    chunk = tag_bytes f WireType.fixed64 ++ to_le_bytes 8 v;
    appends = λ b. rw (tag_lem b f WireType.fixed64 h, append_assoc);
    small = length-tag_bytes-append f WireType.fixed64 (to_le_bytes 8 v);
    holds = (
      _,
      [],
      alone _,
      Reads-tagged f WireType.fixed64 (to_le_bytes 8 v) (fixed v) h
          (λ rest. read_value-fixed v rest hv),
      refl,
    );
  }

  pub double_field-Writes :
      (bits : ℕ) → IsU64 bits → Writes (fixed64 f bits end) (λ b. some (double_field b f bits))
  unfolding double_field
  double_field-Writes bits hv = fixed64_field-Writes bits hv

  -- `string_field`, for a field number of the format and a text whose length is a `u64`: it
  -- appends bytes that read as one field with the bytes of the text.
  pub string_field-Writes :
      (s : List ℕ) → IsU64 (length s) → Writes (string f s end) (λ b. some (string_field b f s))
  unfolding string_field
  string_field-Writes s hs = record {
    chunk = tag_bytes f WireType.delimited ++ (groups 9 (length s) ++ s);
    appends = λ b. rw (
      tag_lem b f WireType.delimited h,
      write_varint-groups (length s) _ hs,
      append_assoc,
      append_assoc,
    );
    small = omega (
      arith,
      length-tag_bytes-append f WireType.delimited (groups 9 (length s) ++ s),
      length-append (groups 9 (length s)) s,
      length-groups 9 (length s),
    );
    holds = (
      _,
      [],
      alone _,
      Reads-tagged f WireType.delimited (groups 9 (length s) ++ s) (bytes s) h (λ rest.
          read_value-bytes (groups 9 (length s)) s rest
            (λ more. read_varint-groups 9 (length s) more (omega arith))),
      refl,
    );
  }

pub bound-append : (l m : Layout) → bound (l +++ m) ≡ bound l + bound m
bound-append end m = omega arith
bound-append (varint f v l) m = omega (arith, bound-append l m)
bound-append (fixed64 f v l) m = omega (arith, bound-append l m)
bound-append (string f s l) m = omega (arith, bound-append l m)
bound-append (message f sub l) m = omega (arith, bound-append l m)

-- One writer behind another.
pub Writes-seq :
    {l m : Layout} {op next : ProtoBuffer → Option ProtoBuffer}
    → Writes l op
    → Writes m next
    → Writes (l +++ m) (λ b. op b >>= next)
Writes-seq {l} {m} w w' = record {
  chunk = w.chunk ++ w'.chunk;
  appends = λ b. rw (w.appends b, w'.appends _, append_assoc);
  small = omega (arith, length-append w.chunk w'.chunk, bound-append l m, w.small, w'.small);
  holds = Encodes-append l m w.chunk w'.chunk w.holds w'.holds;
}

pub Writes-nothing : Writes end some
Writes-nothing = record {
  chunk = [];
  appends = λ b. ap (λ (t : List ℕ). some (record { buf = t })) (alone b.buf);
  small = omega arith;
  holds = refl;
}
