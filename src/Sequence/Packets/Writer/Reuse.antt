-- ===== src/Sequence/Packets/Writer/Reuse.antt =====
-- src/sequence.rs: a packet starts from the prefix that an earlier packet left in the buffer, or
-- from an empty buffer; the packets are the same.
use tracing_perfetto_file.Common.{
  ℕ, ◌+◌, ◌-◌, ◌≡◌, refl, sym, ◌∙◌, ap, ◌⊎◌, inl, inr, List, [], ◌∷◌, ◌++◌, Bool, true, false,
  Option, none, some, arith, append_assoc,
}
use tracing_perfetto_file.Common.Lists.{length, take, take-append, length-append}
use tracing_perfetto_file.Proto.{
  ProtoBuffer, MessageToken, WireType, IsU64, new, clear, truncate, varint_field,
}
use tracing_perfetto_file.Proto.Varint.{groups}
use tracing_perfetto_file.Proto.Tags.{tag_bytes, varint_field_lem}
use tracing_perfetto_file.Proto.Framing.{begin_message_lem}
use tracing_perfetto_file.Sequence.{SequenceState}
use tracing_perfetto_file.Sequence.Packets.{
  Packet, begin_packet, later_packet, initialize_packet_prefix,
}

-- The tag of a packet, and the two fields of the prefix: the sequence id and the flags.
abbrev pub start : List ℕ
start = tag_bytes 1 WireType.delimited

abbrev pub varint_bytes : ℕ → ℕ → List ℕ
varint_bytes f v = tag_bytes f WireType.varint ++ groups 9 v

abbrev pub header : ℕ → List ℕ
header id = varint_bytes 10 id ++ varint_bytes 13 2

abbrev pub root_token : MessageToken
root_token = record { len_prefix = length start; payload_start = length start + 4 }

-- The prefix with any four bytes for the length.
abbrev pub prefix_bytes : ℕ → ℕ → ℕ → ℕ → ℕ → List ℕ
prefix_bytes p q r s id = start ++ p ∷ q ∷ r ∷ s ∷ header id

abbrev pub kept_prefix : ℕ → Option (ℕ × MessageToken)
kept_prefix id = some (length (prefix_bytes 0 0 0 0 id), root_token)

-- No prefix is kept, or the buffer still starts with it.
abbrev pub PrefixIn : SequenceState → Option (ℕ × MessageToken) → Type 0
PrefixIn st kept =
    (kept ≡ none)
    ⊎ ((kept ≡ kept_prefix st.sequence_id)
        × ((p q r s : ℕ) × (rest : List ℕ) × (st.scratch.buf
              ≡ prefix_bytes p q r s st.sequence_id ++ rest)))

-- The sequence after its first packet.
pub record IsReady (st : SequenceState) : Type 0 where
  pub done : st.first_packet_done ≡ true
  pub small_id : IsU64 st.sequence_id
  pub prefix : PrefixIn st st.packet_prefix

-- The sequence while a packet is open.
abbrev pub opened : SequenceState → ℕ → SequenceState
opened st raw = record st {
  scratch = new;
  last_timestamp_ns = raw;
  packet_prefix = kept_prefix st.sequence_id;
}

-- The open packet: behind the length, the header and the timestamp.
abbrev pub Opened : SequenceState → ℕ → Packet → Type 0
Opened st raw packet =
    (p q r s : ℕ) × (packet ≡ record {
      sequence = opened st raw;
      proto = record {
        buf = prefix_bytes p q r s st.sequence_id ++ varint_bytes 8 (raw - st.last_timestamp_ns);
      };
      root = root_token;
    })

length-prefix_bytes :
    (p q r s id : ℕ) → length (prefix_bytes p q r s id) ≡ length (prefix_bytes 0 0 0 0 id)
length-prefix_bytes p q r s id = omega (
  arith,
  length-append start (p ∷ q ∷ r ∷ s ∷ header id),
  length-append start (0 ∷ 0 ∷ 0 ∷ 0 ∷ header id),
)

begin_packet-none :
    (st : SequenceState)
    → begin_packet st none ≡ (record { buf = start ++ 0 ∷ 0 ∷ 0 ∷ 0 ∷ [] }, root_token, false)
unfolding begin_packet clear
begin_packet-none st = rw (begin_message_lem 1 (record { buf = [] }) (omega arith))

begin_packet-kept :
    (st : SequenceState) (id p q r s : ℕ) (rest : List ℕ)
    → st.scratch.buf ≡ prefix_bytes p q r s id ++ rest
    → begin_packet st (kept_prefix id)
      ≡ (record { buf = prefix_bytes p q r s id }, root_token, true)
unfolding begin_packet truncate
begin_packet-kept st id p q r s rest in_buffer =
    let front : take (length (prefix_bytes 0 0 0 0 id)) st.scratch.buf ≡ prefix_bytes p q r s id =
      rw (
        sym (length-prefix_bytes p q r s id),
        in_buffer,
        take-append (prefix_bytes p q r s id) rest,
      ) in
    ap (λ (t : List ℕ). (record { buf = t }, root_token, true)) front

initialize_packet_prefix_lem :
    (st : SequenceState)
    → IsU64 st.sequence_id
    → initialize_packet_prefix (record {
      sequence = st;
      proto = record { buf = start ++ 0 ∷ 0 ∷ 0 ∷ 0 ∷ [] };
      root = root_token;
    })
      ≡ record {
        sequence = record st { packet_prefix = kept_prefix st.sequence_id };
        proto = record { buf = prefix_bytes 0 0 0 0 st.sequence_id };
        root = root_token;
      }
unfolding initialize_packet_prefix
initialize_packet_prefix_lem st hid =
    let zeros : List ℕ = 0 ∷ 0 ∷ 0 ∷ 0 ∷ [] in
    let flat : ((start ++ zeros) ++ varint_bytes 10 st.sequence_id) ++ varint_bytes 13 2
        ≡ prefix_bytes 0 0 0 0 st.sequence_id =
      append_assoc (start ++ zeros) (varint_bytes 10 st.sequence_id) (varint_bytes 13 2)
      ∙ append_assoc start zeros (header st.sequence_id) in
    rw (
      varint_field_lem (record { buf = start ++ zeros }) 10 st.sequence_id (omega arith) hid,
      varint_field_lem (record { buf = (start ++ zeros) ++ varint_bytes 10 st.sequence_id }) 13 2
          (omega arith) (omega arith),
      flat,
    )

-- What `later_packet` makes of the buffer that `begin_packet` gives.
unfoldable pub later_from : SequenceState → ℕ → ProtoBuffer × MessageToken × Bool → Packet
later_from st raw (proto, root, reused_prefix) =
    later_packet (record { sequence = record st { scratch = new }; proto = proto; root = root }) raw
      reused_prefix

-- The timestamp behind the prefix.
add_timestamp :
    (delta : ℕ) (st : SequenceState) (p q r s : ℕ)
    → IsU64 delta
    → varint_field (record { buf = prefix_bytes p q r s st.sequence_id }) 8 delta
      ≡ record { buf = prefix_bytes p q r s st.sequence_id ++ varint_bytes 8 delta }
add_timestamp delta st p q r s hd = varint_field_lem _ 8 delta (omega arith) hd

pub later_from-Opened :
    (st : SequenceState) (raw : ℕ) (kept : Option (ℕ × MessageToken))
    → IsU64 st.sequence_id
    → IsU64 (raw - st.last_timestamp_ns)
    → st.packet_prefix ≡ kept
    → PrefixIn st kept
    → Opened st raw (later_from st raw (begin_packet st kept))
unfolding later_from later_packet
later_from-Opened st raw kept hid hd e (inl absent) =
    let first = record st { scratch = new; last_timestamp_ns = raw } in
    (
      0,
      0,
      0,
      0,
      rw (absent, begin_packet-none st, initialize_packet_prefix_lem first hid)
          (rw (add_timestamp (raw - st.last_timestamp_ns) st 0 0 0 0 hd) refl),
    )
later_from-Opened st raw kept hid hd e (inr (there, (p, q, r, s, rest, in_buffer))) = (
  p,
  q,
  r,
  s,
  rw (there, begin_packet-kept st st.sequence_id p q r s rest in_buffer)
      (rw (add_timestamp (raw - st.last_timestamp_ns) st p q r s hd) (λ i. record {
        sequence = record st {
          scratch = new;
          last_timestamp_ns = raw;
          packet_prefix = (e ∙ there) i;
        };
        proto = record {
          buf = prefix_bytes p q r s st.sequence_id ++ varint_bytes 8 (raw - st.last_timestamp_ns);
        };
        root = root_token;
      })),
)
