-- ===== src/Emit.antt =====
-- src/emit.rs: the writers of track events and track descriptors. A `TrackEventWriter` is the
-- buffer that it borrows; a `bool`, `i64`, `u64` or `f64` is a Boolean, an integer, a number, or
-- the bits of the float. `none` is the panic of a message that is too long.
pub mod Schema
pub mod Layouts
mod ReadBack
mod Runs
use tracing_perfetto_file.Common.{ℕ, List, Bool, true, false, Option, some, ◌>>=◌}
use tracing_perfetto_file.Common.Int.{ℤ, as_u64}
use tracing_perfetto_file.Proto.{
  ProtoBuffer, varint_field, redundant_varint_field, fixed64_field, double_field, string_field,
  debug_field, display_field, message,
}
use Schema.TrackEvent
use Schema.DebugAnnotation
use Schema.TrackDescriptor
use Schema.TracePacket

abbrev pub max_extra_counters : ℕ
max_extra_counters = 8

abbrev pub TrackEventWriter : Type 0
TrackEventWriter = ProtoBuffer

-- `u64::from(value)` of a `bool`
abbrev pub from_bool : Bool → ℕ
from_bool true = 1
from_bool false = 0

pub slice_begin : TrackEventWriter → TrackEventWriter
slice_begin e = varint_field e TrackEvent.type TrackEvent.type_slice_begin

pub slice_end : TrackEventWriter → TrackEventWriter
slice_end e = varint_field e TrackEvent.type TrackEvent.type_slice_end

pub instant : TrackEventWriter → TrackEventWriter
instant e = varint_field e TrackEvent.type TrackEvent.type_instant

pub track_uuid : TrackEventWriter → ℕ → TrackEventWriter
track_uuid e uuid = redundant_varint_field e TrackEvent.track_uuid uuid

pub name_iid : TrackEventWriter → ℕ → TrackEventWriter
name_iid e iid = varint_field e TrackEvent.name_iid iid

pub flow_start : TrackEventWriter → ℕ → TrackEventWriter
flow_start e id = fixed64_field e TrackEvent.flow_ids id

pub flow_terminate : TrackEventWriter → ℕ → TrackEventWriter
flow_terminate e id = fixed64_field e TrackEvent.terminating_flow_ids id

pub source_location_iid : TrackEventWriter → ℕ → TrackEventWriter
source_location_iid e iid = varint_field e TrackEvent.source_location_iid iid

pub category_iid : TrackEventWriter → ℕ → TrackEventWriter
category_iid e iid = varint_field e TrackEvent.category_iids iid

pub level_annotation : TrackEventWriter → ℕ → ℕ → Option TrackEventWriter
level_annotation e name_iid value_iid = message e TrackEvent.debug_annotations λ annotation.
    let annotation = varint_field annotation DebugAnnotation.name_iid name_iid in
    some (varint_field annotation DebugAnnotation.string_value_iid value_iid)

pub annotation_bool : TrackEventWriter → ℕ → Bool → Option TrackEventWriter
annotation_bool e name_iid value = message e TrackEvent.debug_annotations λ annotation.
    let annotation = varint_field annotation DebugAnnotation.name_iid name_iid in
    some (varint_field annotation DebugAnnotation.bool_value (from_bool value))

pub annotation_i64 : TrackEventWriter → ℕ → ℤ → Option TrackEventWriter
annotation_i64 e name_iid value = message e TrackEvent.debug_annotations λ annotation.
    let annotation = varint_field annotation DebugAnnotation.name_iid name_iid in
    some (varint_field annotation DebugAnnotation.int_value (as_u64 value))

pub annotation_u64 : TrackEventWriter → ℕ → ℕ → Option TrackEventWriter
annotation_u64 e name_iid value = message e TrackEvent.debug_annotations λ annotation.
    let annotation = varint_field annotation DebugAnnotation.name_iid name_iid in
    some (varint_field annotation DebugAnnotation.uint_value value)

pub annotation_f64 : TrackEventWriter → ℕ → ℕ → Option TrackEventWriter
annotation_f64 e name_iid value = message e TrackEvent.debug_annotations λ annotation.
    let annotation = varint_field annotation DebugAnnotation.name_iid name_iid in
    some (double_field annotation DebugAnnotation.double_value value)

pub annotation_str : TrackEventWriter → ℕ → List ℕ → Option TrackEventWriter
annotation_str e name_iid value = message e TrackEvent.debug_annotations λ annotation.
    let annotation = varint_field annotation DebugAnnotation.name_iid name_iid in
    some (string_field annotation DebugAnnotation.string_value value)

pub annotation_debug : TrackEventWriter → ℕ → List (List ℕ) → Option TrackEventWriter
annotation_debug e name_iid value = message e TrackEvent.debug_annotations λ annotation.
    let annotation = varint_field annotation DebugAnnotation.name_iid name_iid in
    debug_field annotation DebugAnnotation.string_value value

pub annotation_display : TrackEventWriter → ℕ → List (List ℕ) → Option TrackEventWriter
annotation_display e name_iid value = message e TrackEvent.debug_annotations λ annotation.
    let annotation = varint_field annotation DebugAnnotation.name_iid name_iid in
    display_field annotation DebugAnnotation.string_value value

pub counter_i64 : TrackEventWriter → ℕ → ℤ → TrackEventWriter
counter_i64 e track_uuid value =
    let e = redundant_varint_field e TrackEvent.extra_counter_track_uuids track_uuid in
    varint_field e TrackEvent.extra_counter_values (as_u64 value)

pub counter_f64 : TrackEventWriter → ℕ → ℕ → TrackEventWriter
counter_f64 e track_uuid value =
    let e = redundant_varint_field e TrackEvent.extra_double_counter_track_uuids track_uuid in
    double_field e TrackEvent.extra_double_counter_values value

pub event_name_str : TrackEventWriter → List ℕ → TrackEventWriter
event_name_str e value = string_field e TrackEvent.name value

pub event_name_debug : TrackEventWriter → List (List ℕ) → Option TrackEventWriter
event_name_debug e value = debug_field e TrackEvent.name value

pub track_descriptor : ProtoBuffer → ℕ → List ℕ → ℕ → Option ProtoBuffer
track_descriptor b uuid name parent_uuid = message b TracePacket.track_descriptor λ descriptor.
    let descriptor = redundant_varint_field descriptor TrackDescriptor.uuid uuid in
    let descriptor = string_field descriptor TrackDescriptor.name name in
    some (redundant_varint_field descriptor TrackDescriptor.parent_uuid parent_uuid)

pub counter_descriptor : ProtoBuffer → ℕ → List ℕ → ℕ → Option ProtoBuffer
counter_descriptor b uuid name parent_uuid = message b TracePacket.track_descriptor λ descriptor.
    let descriptor = redundant_varint_field descriptor TrackDescriptor.uuid uuid in
    let descriptor = string_field descriptor TrackDescriptor.name name in
    let descriptor = redundant_varint_field descriptor TrackDescriptor.parent_uuid parent_uuid in
    message descriptor TrackDescriptor.counter some
