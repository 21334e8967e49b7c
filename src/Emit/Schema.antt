-- ===== src/Emit/Schema.antt =====
-- src/emit.rs, module `schema`: one module for each message of the trace format.
pub mod Trace
pub mod TracePacket
pub mod TracePacketDefaults
pub mod TrackEventDefaults
pub mod ClockSnapshot
pub mod TrackEvent
pub mod EventName
pub mod SourceLocation
pub mod TrackDescriptor
pub mod ProcessDescriptor
pub mod ThreadDescriptor
pub mod InternedData
pub mod DebugAnnotation
pub mod InternedString
pub mod DebugAnnotationName
