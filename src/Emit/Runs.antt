-- ===== src/Emit/Runs.antt =====
-- Concrete runs of the writers of src/emit.rs, and the theorems at concrete inputs.
use tracing_perfetto_file.Common.{ℕ, ◌≡◌, refl, [], ◌∷◌, some, ◌>>=◌, arith}
use tracing_perfetto_file.Common.Int.{negsuc, as_i64, fits_i64}
use tracing_perfetto_file.Proto.{new}
use tracing_perfetto_file.Proto.Fields.{Writes}
use tracing_perfetto_file.Proto.Wire.{end, varint, string, message, number, bytes}
use tracing_perfetto_file.Emit.{track_descriptor, annotation_i64, counter_descriptor}
use tracing_perfetto_file.Emit.Layouts.{counter_descriptor-Writes}
use tracing_perfetto_file.Emit.ReadBack.{read_nested, track_descriptor-reads, annotation_i64-reads}

track_descriptor-reads_example :
    (track_descriptor new 300 (104 ∷ 105 ∷ []) 7 >>= λ b. read_nested b.buf)
    ≡ some (60, (1, number 300) ∷ (2, bytes (104 ∷ 105 ∷ [])) ∷ (5, number 7) ∷ [])
track_descriptor-reads_example =
    track_descriptor-reads 300 7 (104 ∷ 105 ∷ []) (omega arith) (omega arith) (omega arith)

annotation_i64-reads_example :
    (u : ℕ) × ((annotation_i64 new 2 (negsuc 4) >>= λ b. read_nested b.buf)
      ≡ some (4, (1, number 2) ∷ (4, number u) ∷ []))
    × (as_i64 u ≡ negsuc 4)
annotation_i64-reads_example =
    annotation_i64-reads 2 (negsuc 4) (omega arith) (unfold fits_i64 in refl)

counter_descriptor-Writes_example :
    Writes
      (message 60 (varint 1 9 (string 2 (120 ∷ []) (varint 5 7 (message 8 end end)))) end)
      (λ b. counter_descriptor b 9 (120 ∷ []) 7)
counter_descriptor-Writes_example =
    counter_descriptor-Writes 9 (omega arith) (120 ∷ []) 7 (omega arith) (omega arith)
