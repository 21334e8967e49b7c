-- ===== src/Proto/Framing.antt =====
-- Nested messages of src/proto.rs: the length that is written into the four reserved bytes.
use mathlib.Core.List.{flatten}
use tracing_perfetto_file.Common.{
  ℕ, ◌+◌, ◌-◌, ◌≤◌, ◌<◌, ◌≡◌, refl, ◌∙◌, ap, List, [], ◌∷◌, ◌++◌, Option, none, some, ◌>>=◌, leb,
  le→leb, lt→not-leb, arith, append_assoc, true,
}
use tracing_perfetto_file.Common.Lists.{
  length, take, drop, length-append, take-append, drop-append, drop-append_beyond,
}
use tracing_perfetto_file.Proto.{
  ProtoBuffer, MessageToken, WireType, max_message_len, write_redundant_varint, begin_message,
  finish_message, message, extend_all, fmt_field, debug_field, display_field,
}
use tracing_perfetto_file.Proto.Varint.{
  padded, read_varint-padded, length-padded, redundant_bytes-padded,
}
use tracing_perfetto_file.Proto.Fields.{Writes, bound}
use tracing_perfetto_file.Proto.Tags.{IsFieldId}
use tracing_perfetto_file.Proto.Tags.{
  tag_bytes, tag_lem, Reads-tagged, read_value-bytes, alone, length-tag_bytes-append,
}
use tracing_perfetto_file.Proto.Wire

-- A buffer with four reserved bytes between `front` and `payload`, and its token.
module _ (front payload : List ℕ) (p q r s : ℕ) where
  abbrev pub reserved : ProtoBuffer
  reserved = record { buf = front ++ p ∷ q ∷ r ∷ s ∷ payload }

  abbrev pub reserved_token : MessageToken
  reserved_token = record { len_prefix = length front; payload_start = length front + 4 }

  reserved_length : length (front ++ p ∷ q ∷ r ∷ s ∷ payload) ≡ length front + 4 + length payload
  reserved_length = omega (arith, length-append front (p ∷ q ∷ r ∷ s ∷ payload))

  reserved_slice :
      take
        (length front + 4 - length front)
        (drop (length front) (front ++ p ∷ q ∷ r ∷ s ∷ payload))
      ≡ p ∷ q ∷ r ∷ s ∷ []
  reserved_slice =
      ap (λ (n : ℕ). take n (drop (length front) (front ++ p ∷ q ∷ r ∷ s ∷ payload)))
        (let four : length front + 4 - length front ≡ 4 = omega arith in four)
      ∙ ap (take 4) (drop-append front (p ∷ q ∷ r ∷ s ∷ payload))

  finish_message_step : finish_message reserved reserved_token ≡ (
      write_redundant_varint (length payload) (p ∷ q ∷ r ∷ s ∷ []) >>= λ prefix.
      some (record { buf = front ++ (prefix ++ payload) }))
  unfolding finish_message
  finish_message_step =
      let buf : List ℕ = front ++ p ∷ q ∷ r ∷ s ∷ payload in
      let in_reach : leb (length front + 4) (length buf) ≡ true =
        le→leb _ _ (omega (arith, reserved_length)) in
      let ordered : leb (length front) (length front + 4) ≡ true = le→leb _ _ (omega arith) in
      let left : length buf - (length front + 4) ≡ length payload =
        omega (arith, reserved_length) in
      rw (in_reach, ordered, left, reserved_slice, take-append front, drop-append_beyond 4 front _)

  -- `finish_message`, for a payload within the limit: the padded length of the payload goes into
  -- the four reserved bytes, whatever they hold, and all other bytes stay.
  pub finish_message_lem :
      length payload ≤ max_message_len
      → finish_message reserved reserved_token
        ≡ some (record { buf = front ++ (padded 3 (length payload) ++ payload) })
  finish_message_lem small =
      finish_message_step ∙ rw (redundant_bytes-padded (length payload) p q r s small)

  pub finish_message_too_long :
      max_message_len < length payload → finish_message reserved reserved_token ≡ none
  finish_message_too_long long =
      finish_message_step
      ∙ unfold write_redundant_varint in rw (lt→not-leb (length payload) max_message_len long)

pub begin_message_lem :
    (f : ℕ) (b : ProtoBuffer)
    → IsFieldId f
    → let front : List ℕ = b.buf ++ tag_bytes f WireType.delimited in
      begin_message b f ≡ (reserved_token front [] 0 0 0 0, reserved front [] 0 0 0 0)
unfolding begin_message
begin_message_lem f b h =
    let front : List ℕ = b.buf ++ tag_bytes f WireType.delimited in
    let start : length (front ++ 0 ∷ 0 ∷ 0 ∷ 0 ∷ []) ≡ length front + 4 =
      length-append front (0 ∷ 0 ∷ 0 ∷ 0 ∷ []) in
    rw (tag_lem b f WireType.delimited h, start)

module _ (f : ℕ) (h : IsFieldId f) (body : ProtoBuffer → Option ProtoBuffer) (payload : List ℕ)
    (appends : (b : ProtoBuffer) → body b ≡ some (record { buf = b.buf ++ payload })) where
  message_begun :
      (b : ProtoBuffer)
      → let front : List ℕ = b.buf ++ tag_bytes f WireType.delimited in
        message b f body
        ≡ finish_message (reserved front payload 0 0 0 0) (reserved_token front payload 0 0 0 0)
  unfolding message begin_message
  message_begun b =
      let front : List ℕ = b.buf ++ tag_bytes f WireType.delimited in
      let zeros : List ℕ = 0 ∷ 0 ∷ 0 ∷ 0 ∷ [] in
      let start : length (front ++ zeros) ≡ length front + 4 = length-append front zeros in
      rw (
        tag_lem b f WireType.delimited h,
        appends (record { buf = front ++ zeros }),
        start,
        append_assoc front zeros payload,
      )

  -- What a nested message appends: its tag, its length in four bytes, and what its body appends.
  pub message_lem :
      (b : ProtoBuffer)
      → length payload ≤ max_message_len
      → message b f body
        ≡ some (record {
          buf = b.buf ++ (tag_bytes f WireType.delimited ++ (padded 3 (length payload) ++ payload));
        })
  message_lem b small =
      message_begun b
      ∙ finish_message_lem (b.buf ++ tag_bytes f WireType.delimited) payload 0 0 0 0 small
      ∙ rw (append_assoc b.buf)

  -- A message panics if its payload takes 256 MiB or more.
  pub message_too_long :
      (b : ProtoBuffer) → max_message_len < length payload → message b f body ≡ none
  message_too_long b long =
      message_begun b
      ∙ finish_message_too_long (b.buf ++ tag_bytes f WireType.delimited) payload 0 0 0 0 long

-- The bytes of a message with the payload.
abbrev pub message_bytes : ℕ → List ℕ → List ℕ
message_bytes f payload = tag_bytes f WireType.delimited ++ (padded 3 (length payload) ++ payload)

pub message_bytes-Encodes :
    (f : ℕ) (l : Wire.Layout) (payload : List ℕ)
    → IsFieldId f
    → length payload ≤ max_message_len
    → Wire.Encodes l payload
    → Wire.Encodes (Wire.message f l Wire.end) (message_bytes f payload)
message_bytes-Encodes f l payload h small holds = (
  _,
  [],
  payload,
  alone _,
  Reads-tagged f WireType.delimited (padded 3 (length payload) ++ payload) (Wire.bytes payload) h
      (λ rest.
        read_value-bytes (padded 3 (length payload)) payload rest
          (λ more. read_varint-padded 3 (length payload) more (omega arith))),
  holds,
  refl,
)

-- A nested message whose body writes the fields of a tree, if the bound of the tree is within the
-- limit of four length bytes: it does not panic, and appends bytes that a reader of the wire
-- format takes as one field with that tree in it.
pub message-Writes :
    (f : ℕ) {l : Wire.Layout} {body : ProtoBuffer → Option ProtoBuffer}
    → IsFieldId f
    → bound l ≤ max_message_len
    → Writes l body
    → Writes (Wire.message f l Wire.end) (λ b. message b f body)
message-Writes f {l} {body} h fits w =
    let payload : List ℕ = w.chunk in
    let small : length payload ≤ max_message_len = omega (arith, w.small) in
    record {
      chunk = tag_bytes f WireType.delimited ++ (padded 3 (length payload) ++ payload);
      appends = λ b. message_lem f h body payload w.appends b small;
      small = omega (
        arith,
        w.small,
        length-tag_bytes-append f WireType.delimited (padded 3 (length payload) ++ payload),
        length-append (padded 3 (length payload)) payload,
        length-padded 3 (length payload),
      );
      holds = message_bytes-Encodes f l payload h small w.holds;
    }

extend_all_lem :
    (b : ProtoBuffer) (pieces : List (List ℕ))
    → extend_all b pieces ≡ record { buf = b.buf ++ flatten pieces }
unfolding extend_all flatten
extend_all_lem b [] = ap (λ (t : List ℕ). record { buf = t }) (alone b.buf)
extend_all_lem b (piece ∷ pieces) =
    extend_all_lem (record { buf = b.buf ++ piece }) pieces
    ∙ ap (λ (t : List ℕ). record { buf = t }) (append_assoc b.buf piece (flatten pieces))

-- A formatted field appends a string field: the pieces joined, behind a length of four bytes.
pub fmt_field-Writes :
    (f : ℕ) (pieces : List (List ℕ))
    → IsFieldId f
    → length (flatten pieces) ≤ max_message_len
    → Writes (Wire.string f (flatten pieces) Wire.end) (λ b. fmt_field b f pieces)
unfolding fmt_field
fmt_field-Writes f pieces h small =
    let text : List ℕ = flatten pieces in
    let appends : (b : ProtoBuffer)
        → some (extend_all b pieces) ≡ some (record { buf = b.buf ++ text }) =
      λ b. ap some (extend_all_lem b pieces) in
    record {
      chunk = tag_bytes f WireType.delimited ++ (padded 3 (length text) ++ text);
      appends = λ b. message_lem f h (λ m. some (extend_all m pieces)) text appends b small;
      small = omega (
        arith,
        length-tag_bytes-append f WireType.delimited (padded 3 (length text) ++ text),
        length-append (padded 3 (length text)) text,
        length-padded 3 (length text),
      );
      holds = (
        _,
        [],
        alone _,
        Reads-tagged f WireType.delimited (padded 3 (length text) ++ text) (Wire.bytes text) h
            (λ rest.
              read_value-bytes (padded 3 (length text)) text rest
                (λ more. read_varint-padded 3 (length text) more (omega arith))),
        refl,
      );
    }

pub debug_field-Writes :
    (f : ℕ) (pieces : List (List ℕ))
    → IsFieldId f
    → length (flatten pieces) ≤ max_message_len
    → Writes (Wire.string f (flatten pieces) Wire.end) (λ b. debug_field b f pieces)
unfolding debug_field
debug_field-Writes f pieces h small = fmt_field-Writes f pieces h small

pub display_field-Writes :
    (f : ℕ) (pieces : List (List ℕ))
    → IsFieldId f
    → length (flatten pieces) ≤ max_message_len
    → Writes (Wire.string f (flatten pieces) Wire.end) (λ b. display_field b f pieces)
unfolding display_field
display_field-Writes f pieces h small = fmt_field-Writes f pieces h small
