-- ===== src/Subscriber/Layouts.antt =====
-- What the handlers of src/subscriber.rs write into a track event, as trees of fields.
use tracing_perfetto_file.Common.{
  ℕ, ◌≤◌, ◌≡◌, refl, sym, ◌∙◌, ap, subst, List, [], ◌∷◌, ◌++◌, Option, some, ◌>>=◌, append-nil,
  append_assoc, arith,
}
use tracing_perfetto_file.Common.Lists.{length, length-append, All}
use tracing_perfetto_file.Common.Int.{as_u64}
use tracing_perfetto_file.Common.Maps.{StaticStr}
use tracing_perfetto_file.Emit.{TrackEventWriter, from_bool}
use tracing_perfetto_file.Emit.Layouts.{
  IsText, flow_start-Writes, flow_terminate-Writes, annotation_bool-Writes, annotation_i64-Writes,
  annotation_u64-Writes, annotation_f64-Writes, annotation_str-Writes,
}
use tracing_perfetto_file.Proto.{
  ProtoBuffer, IsU64, max_message_len, message, begin_message, finish_message,
}
use tracing_perfetto_file.Proto.Fields.{Writes, Writes-seq, Writes-nothing, bound, bound-append}
use tracing_perfetto_file.Proto.Framing.{message-Writes}
use tracing_perfetto_file.Proto.Wire
use tracing_perfetto_file.Proto.Wire.{Layout, Encodes, Encodes-append, ◌+++◌}
use tracing_perfetto_file.Runtime.{FieldValue, PendingFlow}
use tracing_perfetto_file.Sequence.{SequenceState, intern_annotation_name}
use tracing_perfetto_file.Sequence.Packets.Writer.Delivery.{Adds}
use tracing_perfetto_file.Subscriber.Events.{
  Event, write_flow, write_pending_flows, write_value, write_stored_fields, track_event,
}

-- Code that takes the sequence from `st` to `st'` and appends the fields of a tree to any event.
pub record EventAdds (st st' : SequenceState) (l : Layout) (write : Event → Option Event)
    : Type 0 where
  pub chunk : List ℕ
  pub appends :
      (event : TrackEventWriter)
      → write (event, st) ≡ some (record { buf = event.buf ++ chunk }, st')
  pub small : length chunk ≤ bound l
  pub holds : Encodes l chunk

pub EventAdds-seq :
    {st st1 st2 : SequenceState} {l m : Layout} {write next : Event → Option Event}
    → EventAdds st st1 l write
    → EventAdds st1 st2 m next
    → EventAdds st st2 (l +++ m) (λ e. write e >>= next)
EventAdds-seq {st} {st1} {st2} {l} {m} a b = record {
  chunk = a.chunk ++ b.chunk;
  appends = λ event. rw (a.appends event) (
      rw (b.appends (record { buf = event.buf ++ a.chunk })) (
        ap (λ (t : List ℕ). some (record { buf = t }, st2))
          (append_assoc event.buf a.chunk b.chunk)));
  small = omega (arith, length-append a.chunk b.chunk, bound-append l m, a.small, b.small);
  holds = Encodes-append l m a.chunk b.chunk a.holds b.holds;
}

-- A writer that leaves the sequence alone.
pub Writes-EventAdds :
    (st : SequenceState) {l : Layout} {op : ProtoBuffer → Option ProtoBuffer}
    → Writes l op
    → EventAdds st st l (λ e. op e.0 >>= λ event. some (event, e.1))
Writes-EventAdds st w = record {
  chunk = w.chunk;
  appends = λ event. rw (w.appends event) refl;
  small = w.small;
  holds = w.holds;
}

-- The same bytes by other code.
pub EventAdds-by :
    {st st' : SequenceState} {l : Layout} {write other : Event → Option Event}
    → EventAdds st st' l write
    → ((event : TrackEventWriter) → other (event, st) ≡ write (event, st))
    → EventAdds st st' l other
EventAdds-by a same = record {
  chunk = a.chunk;
  appends = λ event. same event ∙ a.appends event;
  small = a.small;
  holds = a.holds;
}

-- The message of a track event, field 11 of a packet.
pub track_event-Adds :
    {st st' : SequenceState} {l : Layout} {write : Event → Option Event}
    → bound l ≤ max_message_len
    → EventAdds st st' l write
    → Adds st st' (Wire.message 11 l Wire.end) (track_event write)
unfolding track_event message
track_event-Adds {st} {st'} {l} {write} fits a =
    let body : ProtoBuffer → Option ProtoBuffer = λ b. some (record { buf = b.buf ++ a.chunk }) in
    let w : Writes l body = record {
      chunk = a.chunk;
      appends = λ b. refl;
      small = a.small;
      holds = a.holds;
    } in
    let m = message-Writes 11 (omega arith) fits w in
    record {
      chunk = m.chunk;
      appends = λ packet e.
          (let (token, begun) = begin_message packet.proto 11 in
            let finished : finish_message (record { buf = begun.buf ++ a.chunk }) token
                ≡ some (record { buf = packet.proto.buf ++ m.chunk }) =
              m.appends packet.proto in
            subst
              (λ st.
                track_event write (record packet { sequence = st })
                ≡ some (record {
                  sequence = st';
                  proto = record { buf = packet.proto.buf ++ m.chunk };
                  root = packet.root;
                }))
              (sym e) (rw (a.appends begun) (rw finished refl)));
      small = m.small;
      holds = m.holds;
    }

-- A flow is a fixed field: 47 for its start, and 48 for its end.
abbrev pub flows_layout : List PendingFlow → Layout
flows_layout [] = Wire.end
flows_layout (PendingFlow.start id ∷ flows) = Wire.fixed64 47 id (flows_layout flows)
flows_layout (PendingFlow.terminate id ∷ flows) = Wire.fixed64 48 id (flows_layout flows)

abbrev pub IsFlow : PendingFlow → Type 0
IsFlow (PendingFlow.start id) = IsU64 id
IsFlow (PendingFlow.terminate id) = IsU64 id

-- Flows that are `u64`: one field for each, in order.
pub write_pending_flows-Writes :
    (flows : List PendingFlow)
    → All IsFlow flows
    → Writes (flows_layout flows) (λ e. some (write_pending_flows e flows))
unfolding write_pending_flows write_flow
write_pending_flows-Writes [] h = Writes-nothing
write_pending_flows-Writes (PendingFlow.start id ∷ flows) (small, h) =
    Writes-seq (flow_start-Writes id small) (write_pending_flows-Writes flows h)
write_pending_flows-Writes (PendingFlow.terminate id ∷ flows) (small, h) =
    Writes-seq (flow_terminate-Writes id small) (write_pending_flows-Writes flows h)

-- A stored value, in the field of its type.
abbrev pub value_layout : FieldValue → Layout
value_layout (FieldValue.bool v) = Wire.varint 2 (from_bool v) Wire.end
value_layout (FieldValue.u64 v) = Wire.varint 3 v Wire.end
value_layout (FieldValue.i64 v) = Wire.varint 4 (as_u64 v) Wire.end
value_layout (FieldValue.f64 v) = Wire.fixed64 5 v Wire.end
value_layout (FieldValue.str s) = Wire.string 6 s Wire.end

abbrev pub IsValue : FieldValue → Type 0
IsValue (FieldValue.bool v) = Unit {0}
IsValue (FieldValue.u64 v) = IsU64 v
IsValue (FieldValue.i64 v) = Unit {0}
IsValue (FieldValue.f64 v) = IsU64 v
IsValue (FieldValue.str s) = IsText s

write_value-Writes :
    (iid : ℕ) (value : FieldValue)
    → IsU64 iid
    → IsValue value
    → Writes
        (Wire.message 4 (Wire.varint 1 iid (value_layout value)) Wire.end)
        (λ e. write_value e iid value)
unfolding write_value
write_value-Writes iid (FieldValue.bool v) h k = annotation_bool-Writes iid h v
write_value-Writes iid (FieldValue.u64 v) h k = annotation_u64-Writes iid h v k
write_value-Writes iid (FieldValue.i64 v) h k = annotation_i64-Writes iid h v
write_value-Writes iid (FieldValue.f64 v) h k = annotation_f64-Writes iid h v k
write_value-Writes iid (FieldValue.str s) h k = annotation_str-Writes iid h s k

-- The sequence after the names of stored fields are interned.
unfoldable pub fields_state : SequenceState → List (StaticStr × FieldValue) → SequenceState
fields_state st [] = st
fields_state st ((name, value) ∷ fields) = fields_state (intern_annotation_name st name).1 fields

-- One annotation for each stored field, in order, with the iid of its name.
abbrev pub fields_layout : SequenceState → List (StaticStr × FieldValue) → Layout
fields_layout st [] = Wire.end
fields_layout st ((name, value) ∷ fields) =
    Wire.message 4 (Wire.varint 1 (intern_annotation_name st name).0 (value_layout value))
      (fields_layout (intern_annotation_name st name).1 fields)

-- The iids are `u64`, and the values have the range of their types and fit a message.
abbrev pub AreStored : SequenceState → List (StaticStr × FieldValue) → Type 0
AreStored st [] = Unit {0}
AreStored st ((name, value) ∷ fields) =
    (IsU64 (intern_annotation_name st name).0 × IsValue value)
    × AreStored (intern_annotation_name st name).1 fields

-- The stored fields of a span, whose iids are `u64` and whose values have the range of their types and
-- fit a message: one annotation for each, in order, with the iid that its name is interned as, and the
-- value in the field of its type; a number keeps its value, a negative one its two's complement.
-- Nothing panics.
pub write_stored_fields-EventAdds :
    (st : SequenceState) (fields : List (StaticStr × FieldValue))
    → AreStored st fields
    → EventAdds st
        (fields_state st fields)
        (fields_layout st fields)
        (λ e. write_stored_fields e fields)
unfolding write_stored_fields fields_state
write_stored_fields-EventAdds st [] h = record {
  chunk = [];
  appends =
      λ event. ap (λ (t : List ℕ). some (record { buf = t }, st)) (sym (append-nil event.buf));
  small = omega arith;
  holds = refl;
}
write_stored_fields-EventAdds st ((name, value) ∷ fields) ((small, fits), h) =
    let interned = intern_annotation_name st name in
    let w = write_value-Writes interned.0 value small fits in
    let rest = write_stored_fields-EventAdds interned.1 fields h in
    record {
      chunk = w.chunk ++ rest.chunk;
      appends = λ event. rw (w.appends event) (
          rw (rest.appends (record { buf = event.buf ++ w.chunk })) (
            ap (λ (t : List ℕ). some (record { buf = t }, fields_state interned.1 fields))
              (append_assoc event.buf w.chunk rest.chunk)));
      small = omega (arith, length-append w.chunk rest.chunk, w.small, rest.small);
      holds =
          Encodes-append (Wire.message 4 (Wire.varint 1 interned.0 (value_layout value)) Wire.end)
            (fields_layout interned.1 fields) w.chunk rest.chunk w.holds rest.holds;
    }
