-- ===== src/Sequence/Packets/Writer/Later.antt =====
-- Packets of an initialized sequence (src/sequence.rs).
use tracing_perfetto_file.Common.{ℕ, List, ◌≡◌, refl, Option, true, if_true}
use tracing_perfetto_file.Sequence.Packets.{Readings, Packet}
use tracing_perfetto_file.Sequence.Packets.Writer.{SequenceWriter, packet, initialized, with_packet}

module _ {W : Type 0} (deliver : W → List ℕ → W) (env : Readings) where
  pub packet-with_packet :
      (w : SequenceWriter deliver) (body : Packet → Option Packet)
      → w.sequence.initialized ≡ true
      → packet deliver env w body ≡ with_packet deliver env w body
  unfolding packet initialized
  packet-with_packet w body ready = rw (if_true w.sequence.initialized _ _ ready) refl
