-- ===== src/Spans/Pools/Runs.antt =====
-- The theorem on pools at concrete pools.
use tracing_perfetto_file.Common.{refl, [], ◌∷◌, arith}
use tracing_perfetto_file.Spans.Pools.{TrackKey, new_pools, track_pool}
use tracing_perfetto_file.Spans.Pools.Instances.{list_queue, list_map}
use tracing_perfetto_file.Spans.Pools.Laws.{IsPools, Served, track_pool-Served}

abbrev work : TrackKey
work = record { name = record { ptr = 32; text = 119 ∷ [] }; parent_uuid = 3 }

new_pools-IsPools : IsPools list_queue list_map (new_pools list_queue list_map)
unfolding new_pools
new_pools-IsPools = record { counted = refl; bounded = omega arith }

track_pool-Served_example :
    let (found, s') = track_pool list_queue list_map (new_pools list_queue list_map) work in
    Served list_queue list_map (new_pools list_queue list_map) work found s'
track_pool-Served_example =
    track_pool-Served list_queue list_map (new_pools list_queue list_map) work new_pools-IsPools
