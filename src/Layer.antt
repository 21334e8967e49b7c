-- ===== src/Layer.antt =====
-- src/lib.rs: the builder of the layer, its options, and the span modes.
use tracing_perfetto_file.Common.{Bool, true, false, ◌&&◌, Option, none, some, if◌then◌else◌}

pub data SpanMode : Type 0 where
  both thread_tracks span_tracks : SpanMode

-- `SpanMode::default()`
abbrev pub default : SpanMode
default = span_tracks

unfoldable pub emit_thread_slices : SpanMode → Bool
emit_thread_slices both = true
emit_thread_slices thread_tracks = true
emit_thread_slices span_tracks = false

unfoldable pub emit_span_slices : SpanMode → Bool
emit_span_slices both = true
emit_span_slices thread_tracks = false
emit_span_slices span_tracks = true

-- src/runtime.rs: the resolved options.
pub record Config : Type 0 where
  pub span_mode : SpanMode
  pub debug_annotations : Bool
  pub poll_slices : Bool
  pub source_locations : Bool
  pub counters : Bool
  pub process_arguments : Bool

-- The writer is any value; the builder only passes it on.
pub record PerfettoLayerBuilder (W : Type 0) : Type 0 where
  pub writer : W
  pub config : Config

module _ {W : Type 0} where
  unfoldable pub builder : W → PerfettoLayerBuilder W
  builder writer = record {
    writer = writer;
    config = record {
      span_mode = default;
      debug_annotations = false;
      poll_slices = false;
      source_locations = false;
      counters = false;
      process_arguments = true;
    };
  }

  unfoldable pub without_process_arguments : PerfettoLayerBuilder W → PerfettoLayerBuilder W
  without_process_arguments b = record b { config = record b.config { process_arguments = false } }

  unfoldable pub with_span_mode : PerfettoLayerBuilder W → SpanMode → PerfettoLayerBuilder W
  with_span_mode b mode = record b { config = record b.config { span_mode = mode } }

  unfoldable pub with_debug_annotations : PerfettoLayerBuilder W → PerfettoLayerBuilder W
  with_debug_annotations b = record b { config = record b.config { debug_annotations = true } }

  unfoldable pub with_poll_slices : PerfettoLayerBuilder W → PerfettoLayerBuilder W
  with_poll_slices b = record b { config = record b.config { poll_slices = true } }

  unfoldable pub with_source_locations : PerfettoLayerBuilder W → PerfettoLayerBuilder W
  with_source_locations b = record b { config = record b.config { source_locations = true } }

  unfoldable pub with_counters : PerfettoLayerBuilder W → PerfettoLayerBuilder W
  with_counters b = record b { config = record b.config { counters = true } }

  -- What `try_build` hands to `Inner::new`, or the error `Unsupported`. `browser` says whether the
  -- target is browser WebAssembly, for which the first test is compiled in.
  unfoldable pub try_build : Bool → PerfettoLayerBuilder W → Option (W × Config)
  try_build browser b =
      if browser && b.config.process_arguments then none else some (b.writer, b.config)
