-- ===== src/Sequence/Packets/Writer/Delivery.antt =====
-- src/sequence.rs: the bytes that a packet after the first delivers.
use tracing_perfetto_file.Common.{
  ℕ, ◌+◌, ◌-◌, ◌≤◌, ◌≡◌, refl, sym, ◌∙◌, ap, subst, inr, List, [], ◌∷◌, ◌++◌, true, Option, none,
  some, arith, append_assoc,
}
use tracing_perfetto_file.Common.Lists.{length, length-append}
use tracing_perfetto_file.Proto.{ProtoBuffer, IsU64, max_message_len}
use tracing_perfetto_file.Proto.Fields.{Writes, bound}
use tracing_perfetto_file.Proto.Tags.{varint_bytes-Encodes, length-varint_bytes}
use tracing_perfetto_file.Proto.Framing.{finish_message_lem, message_bytes, message_bytes-Encodes}
use tracing_perfetto_file.Proto.Varint.{padded}
use tracing_perfetto_file.Proto.Wire
use tracing_perfetto_file.Proto.Wire.{Layout, Encodes, Encodes-append, ◌+++◌}
use tracing_perfetto_file.Sequence.{SequenceState}
use tracing_perfetto_file.Sequence.Pending.{without_pending, emit_interned_data}
use tracing_perfetto_file.Sequence.Pending.Written.{
  FitsMessage, pending_layout, emit_interned_data-Writes,
}
use tracing_perfetto_file.Sequence.Packets.{Readings, Packet, begin_packet}
use tracing_perfetto_file.Sequence.Packets.Writer.{
  SequenceWriter, timestamp, packet_without_initialization, drop, with_packet, fields,
}
use tracing_perfetto_file.Sequence.Packets.Writer.Reuse.{
  start, varint_bytes, header, root_token, prefix_bytes, kept_prefix, IsReady, opened, later_from,
  later_from-Opened,
}

-- The timestamp of a callback: the one that it has, or the clock.
abbrev pub at_time : Readings → Option ℕ → ℕ
at_time env none = env.raw_clock_ns
at_time env (some at) = at

-- A body that goes from the sequence `st` to `st'` and appends the fields of a tree.
pub record Adds (st st' : SequenceState) (l : Layout) (body : Packet → Option Packet) : Type 0 where
  pub chunk : List ℕ
  pub appends :
      (packet : Packet)
      → packet.sequence ≡ st
      → body packet
        ≡ some (record {
          sequence = st';
          proto = record { buf = packet.proto.buf ++ chunk };
          root = packet.root;
        })
  pub small : length chunk ≤ bound l
  pub holds : Encodes l chunk

-- The fields of a packet after the first: sequence id, flags, timestamp, those of the body, and the
-- interned data.
abbrev pub packet_layout : ℕ → ℕ → Layout → SequenceState → Layout
packet_layout id delta l st' =
    Wire.varint 10 id (Wire.varint 13 2 (Wire.varint 8 delta (l +++ pending_layout st')))

module _ {W : Type 0} (deliver : W → List ℕ → W) (env : Readings) where
  timestamp_lem :
      (w : SequenceWriter deliver) (ts : Option ℕ)
      → w.timestamp_ns ≡ ts
      → timestamp deliver env w ts
        ≡ (at_time env ts, record w { timestamp_ns = some (at_time env ts) })
  unfolding timestamp
  timestamp_lem w none e = refl
  timestamp_lem w (some at) e = λ i. (at, record w { timestamp_ns = e i })

  open_lem :
      (w : SequenceWriter deliver)
      → IsReady w.sequence
      → let raw = at_time env w.timestamp_ns in
        packet_without_initialization deliver env w
        ≡ some (
          record w { timestamp_ns = some raw },
          later_from w.sequence raw (begin_packet w.sequence w.sequence.packet_prefix),
        )
  unfolding packet_without_initialization later_from
  open_lem w ready = rw (timestamp_lem w w.timestamp_ns refl) (rw ready.done refl)

  -- The end of a packet that holds `payload` behind its four bytes.
  drop_lem :
      (w : SequenceWriter deliver) (st' : SequenceState) (payload chunk : List ℕ) (p q r s : ℕ)
      → ((b : ProtoBuffer)
          → emit_interned_data st' b ≡ some (without_pending st', record { buf = b.buf ++ chunk }))
      → length (payload ++ chunk) ≤ max_message_len
      → let bytes = message_bytes 1 (payload ++ chunk) in
        drop deliver w (record {
          sequence = st';
          proto = record { buf = start ++ p ∷ q ∷ r ∷ s ∷ payload };
          root = root_token;
        })
        ≡ some (record w {
          output = deliver w.output bytes;
          sequence = record st' {
            new_event_names = [];
            new_annotation_names = [];
            new_annotation_values = [];
            new_categories = [];
            new_source_locations = [];
            scratch = record { buf = bytes };
          };
        })
  unfolding drop
  drop_lem w st' payload chunk p q r s emits small =
      let flat : (start ++ p ∷ q ∷ r ∷ s ∷ payload) ++ chunk
          ≡ start ++ p ∷ q ∷ r ∷ s ∷ (payload ++ chunk) =
        append_assoc start (p ∷ q ∷ r ∷ s ∷ payload) chunk in
      rw (emits (record { buf = start ++ p ∷ q ∷ r ∷ s ∷ payload }))
        (rw (flat, finish_message_lem start (payload ++ chunk) p q r s small) refl)

  -- What a packet after the first gives: the bytes handed on hold one field 1, the packet, whose
  -- fields are those of `packet_layout`; the buffer keeps them as a prefix for the next packet.
  pub record Delivered (w : SequenceWriter deliver) (st' : SequenceState) (l : Layout)
      (result : Option (SequenceWriter deliver)) : Type 0 where
    pub bytes : List ℕ
    pub returns :
        result
        ≡ some (record w {
          timestamp_ns = some (at_time env w.timestamp_ns);
          output = deliver w.output bytes;
          sequence = record (without_pending st') { scratch = record { buf = bytes } };
        })
    pub holds :
        Encodes
          (Wire.message 1
            (packet_layout w.sequence.sequence_id
              (at_time env w.timestamp_ns - w.sequence.last_timestamp_ns)
              l
              st')
            Wire.end)
          bytes
    pub ready : IsReady (record (without_pending st') { scratch = record { buf = bytes } })

  front-Encodes :
      (id delta : ℕ)
      → IsU64 id
      → IsU64 delta
      → Encodes
          (Wire.varint 10 id (Wire.varint 13 2 (Wire.varint 8 delta Wire.end)))
          (header id ++ varint_bytes 8 delta)
  front-Encodes id delta hid hd =
      Encodes-append (Wire.varint 10 id (Wire.varint 13 2 Wire.end)) (Wire.varint 8 delta Wire.end)
        (header id) (varint_bytes 8 delta)
        (Encodes-append (Wire.varint 10 id Wire.end) (Wire.varint 13 2 Wire.end)
          (varint_bytes 10 id) (varint_bytes 13 2) (varint_bytes-Encodes 10 id (omega arith) hid)
          (varint_bytes-Encodes 13 2 (omega arith) (omega arith)))
        (varint_bytes-Encodes 8 delta (omega arith) hd)

  front_length : (id delta : ℕ) → length (header id ++ varint_bytes 8 delta) ≤ 60
  front_length id delta = omega (
    arith,
    length-append (header id) (varint_bytes 8 delta),
    length-append (varint_bytes 10 id) (varint_bytes 13 2),
    length-varint_bytes 10 id,
    length-varint_bytes 13 2,
    length-varint_bytes 8 delta,
  )

  regroup_packet :
      (id delta p q r s : ℕ) (chunk : List ℕ)
      → (prefix_bytes p q r s id ++ varint_bytes 8 delta) ++ chunk
        ≡ start ++ p ∷ q ∷ r ∷ s ∷ ((header id ++ varint_bytes 8 delta) ++ chunk)
  regroup_packet id delta p q r s chunk =
      ap (λ (t : List ℕ). t ++ chunk)
        (append_assoc start (p ∷ q ∷ r ∷ s ∷ header id) (varint_bytes 8 delta))
      ∙ append_assoc start (p ∷ q ∷ r ∷ s ∷ (header id ++ varint_bytes 8 delta)) chunk

  -- The bytes of a packet keep the header behind their four length bytes.
  stays_in :
      (id n : ℕ) (payload rest : List ℕ)
      → payload ≡ header id ++ rest
      → (p q r s : ℕ) × (rest' : List ℕ) × (start ++ (padded 3 n ++ payload)
          ≡ prefix_bytes p q r s id ++ rest')
  unfolding padded
  stays_in id n payload rest e = (
    _,
    _,
    _,
    _,
    rest,
    ap (λ (t : List ℕ). start ++ (padded 3 n ++ t)) e
        ∙ sym (append_assoc start (padded 3 n ++ header id) rest),
  )

  behind_header :
      (id delta : ℕ) (chunk more : List ℕ)
      → ((header id ++ varint_bytes 8 delta) ++ chunk) ++ more
        ≡ header id ++ (varint_bytes 8 delta ++ (chunk ++ more))
  behind_header id delta chunk more =
      append_assoc (header id ++ varint_bytes 8 delta) chunk more
      ∙ append_assoc (header id) (varint_bytes 8 delta) (chunk ++ more)

  -- A packet after the first, with a body that appends the fields of `l`, while the interned data
  -- and the packet fit one message: whether the prefix is reused or not, it does not panic, hands on
  -- one whole packet with the sequence id, the flags, the time since the last packet, the fields of
  -- the body and then the pending entries, and leaves the sequence ready for the next one.
  pub with_packet-Delivered :
      (w : SequenceWriter deliver) (st' : SequenceState) (l : Layout)
      (body : Packet → Option Packet)
      → let raw = at_time env w.timestamp_ns in
        IsReady w.sequence
        → IsU64 raw
        → Adds (opened w.sequence raw) st' l body
        → st'.packet_prefix ≡ kept_prefix w.sequence.sequence_id
        → st'.sequence_id ≡ w.sequence.sequence_id
        → st'.first_packet_done ≡ true
        → FitsMessage st'
        → 60 + (bound l + bound (pending_layout st')) ≤ max_message_len
        → Delivered w st' l (with_packet deliver env w body)
  unfolding with_packet
  with_packet-Delivered w st' l body ready small_raw adds prefix_kept same_id done fits room =
      let id = w.sequence.sequence_id in
      let raw = at_time env w.timestamp_ns in
      let delta = raw - w.sequence.last_timestamp_ns in
      let (p, q, r, s, e) =
        later_from-Opened w.sequence raw w.sequence.packet_prefix ready.small_id (omega arith) refl
          ready.prefix in
      let (written, emits) = emit_interned_data-Writes st' fits in
      let payload = (header id ++ varint_bytes 8 delta) ++ adds.chunk in
      let packet : Packet = record {
        sequence = opened w.sequence raw;
        proto = record { buf = prefix_bytes p q r s id ++ varint_bytes 8 delta };
        root = root_token;
      } in
      let bytes = message_bytes 1 (payload ++ written.chunk) in
      let small : length (payload ++ written.chunk) ≤ max_message_len = omega (
        arith,
        length-append payload written.chunk,
        length-append (header id ++ varint_bytes 8 delta) adds.chunk,
        front_length id delta,
        adds.small,
        written.small,
      ) in
      let tail : Encodes (l +++ pending_layout st') (adds.chunk ++ written.chunk) =
        Encodes-append l (pending_layout st') adds.chunk written.chunk adds.holds written.holds in
      let all : Encodes (packet_layout id delta l st') (payload ++ written.chunk) =
        subst (Encodes (packet_layout id delta l st'))
          (sym (append_assoc (header id ++ varint_bytes 8 delta) adds.chunk written.chunk))
          (Encodes-append (Wire.varint 10 id (Wire.varint 13 2 (Wire.varint 8 delta Wire.end)))
            (l +++ pending_layout st') (header id ++ varint_bytes 8 delta)
            (adds.chunk ++ written.chunk) (front-Encodes id delta ready.small_id (omega arith))
            tail) in
      record {
        bytes = bytes;
        returns = rw (open_lem w ready) (
            rw (e, adds.appends packet refl, regroup_packet id delta p q r s adds.chunk)
              (drop_lem (record w { timestamp_ns = some raw }) st' payload written.chunk p q r s
                emits small));
        holds = message_bytes-Encodes 1 (packet_layout id delta l st') _ (omega arith) small all;
        ready = record {
          done = done;
          small_id = subst IsU64 (sym same_id) ready.small_id;
          prefix = inr (
            prefix_kept ∙ ap kept_prefix (sym same_id),
            subst (λ n. (a b c d : ℕ) × (rest : List ℕ) × (bytes ≡ prefix_bytes a b c d n ++ rest))
                (sym same_id)
                (stays_in id (length (payload ++ written.chunk)) (payload ++ written.chunk)
                  (varint_bytes 8 delta ++ (adds.chunk ++ written.chunk))
                  (behind_header id delta adds.chunk written.chunk)),
          );
        };
      }

  -- A body that only writes fields.
  pub fields-Adds :
      (st : SequenceState) (l : Layout) (op : ProtoBuffer → Option ProtoBuffer)
      → Writes l op
      → Adds st st l (fields deliver op)
  unfolding fields
  fields-Adds st l op w = record {
    chunk = w.chunk;
    appends = λ packet e. rw (w.appends packet.proto) (λ i. some (record {
      sequence = e i;
      proto = record { buf = packet.proto.buf ++ w.chunk };
      root = packet.root;
    }));
    small = w.small;
    holds = w.holds;
  }
