-- ===== src/Thread/Runs.antt =====
-- Retained span data at work, and the theorem at it.
use tracing_perfetto_file.Common.{◌≡◌, [], ◌∷◌, some}
use tracing_perfetto_file.Common.Lists.{All}
use tracing_perfetto_file.Runtime.{RetainedSpanData, default_retained, u64}
use tracing_perfetto_file.Thread.{new_retained}
use tracing_perfetto_file.Thread.Blank.{take, give_back, taken, taken-default}

abbrev used : RetainedSpanData
used = record {
  fields = (record { ptr = 16; text = 120 ∷ [] }, u64 1) ∷ [];
  pending_flows = [];
  poll_flow_id = some 4;
}

taken-default_example :
    All
      (λ retained. retained ≡ default_retained)
      (taken new_retained (take ∷ give_back used ∷ take ∷ []))
taken-default_example = taken-default (take ∷ give_back used ∷ take ∷ [])
