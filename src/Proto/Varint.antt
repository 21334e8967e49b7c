-- ===== src/Proto/Varint.antt =====
-- The two varint encoders of src/proto.rs against the reader of the wire format.
use mathlib.Core.WellFounded.{Acc}
use tracing_perfetto_file.Common.{
  ℕ, zero, suc, ◌+◌, ◌/◌, ◌%◌, ◌^◌, ◌≤◌, ◌<◌, ◌≡◌, refl, ap, List, [], ◌∷◌, ◌++◌, some, arith,
  bit_and, bit_or, append_assoc, if◌then◌else◌, ltb,
}
use tracing_perfetto_file.Common.Bits.{bit_and_seven_ones, bit_or_top, bit_or-zero}
use tracing_perfetto_file.Common.Lists.{length, All}
use tracing_perfetto_file.Proto.{
  IsU64, write_varint_loop, write_varint, redundant_u64, max_message_len, redundant_bytes,
  write_redundant_varint,
}
use tracing_perfetto_file.Proto.Wire.{read_varint}

abbrev pub IsByte : ℕ → Type 0
IsByte b = b < 256

-- The groups of seven bits of `v`, for `v` below 128 ^ (k + 1).
unfoldable pub groups : ℕ → ℕ → List ℕ
groups zero v = v ∷ []
groups (suc k) v =
    let more = groups k (v / 128) in if ltb v 128 then v ∷ [] else (v % 128 + 128) ∷ more

byte_and_mask : (v : ℕ) → bit_and v 0x7f % 256 ≡ v % 128
byte_and_mask v = omega (arith, bit_and_seven_ones v)

write_varint_loop-groups :
    (k v : ℕ) (w : Acc ◌<◌ v) (out : List ℕ)
    → v < 128 ^ suc k
    → write_varint_loop v w out ≡ out ++ groups k v
unfolding write_varint_loop groups
write_varint_loop-groups zero v (Acc.intro _ smaller) out h = ground (arith, byte_and_mask v)
write_varint_loop-groups (suc k) v (Acc.intro _ smaller) out h =
    let low : List ℕ = (v % 128 + 128) ∷ [] in
    grind (
      arith,
      byte_and_mask v,
      bit_or_top (v % 128),
      λ (w : Acc ◌<◌ (v / 128)). write_varint_loop-groups k (v / 128) w (out ++ low) (omega arith),
      append_assoc out low (groups k (v / 128)),
    )

pub write_varint-groups : (v : ℕ) (out : List ℕ) → IsU64 v → write_varint v out ≡ out ++ groups 9 v
unfolding write_varint
write_varint-groups v out h = write_varint_loop-groups 9 v _ out (omega arith)

pub read_varint-groups :
    (k v : ℕ) (rest : List ℕ) → v < 128 ^ suc k → read_varint (groups k v ++ rest) ≡ some (v, rest)
unfolding groups read_varint
read_varint-groups zero v rest h = ground arith
read_varint-groups (suc k) v rest h =
    ground (arith, read_varint-groups k (v / 128) rest (omega arith))

-- A varint takes 1 to `k + 1` bytes.
pub length-groups : (k v : ℕ) → (1 ≤ length (groups k v)) × (length (groups k v) ≤ k + 1)
unfolding groups
length-groups zero v = omega arith
length-groups (suc k) v = ground (arith, length-groups k (v / 128))

pub groups-IsByte : (k v : ℕ) → v < 128 ^ suc k → All IsByte (groups k v)
unfolding groups
groups-IsByte zero v h = omega arith
groups-IsByte (suc k) v h = ground (arith, groups-IsByte k (v / 128) (omega arith))

redundant_step : (v : ℕ) → bit_or (v % 256) 0x80 ≡ v % 128 + 128
redundant_step v = omega (arith, bit_or_top (v % 256) (omega arith))

-- The groups of seven bits of `v`, the first `k` with the continuation bit.
unfoldable pub padded : ℕ → ℕ → List ℕ
padded zero v = v ∷ []
padded (suc k) v = (v % 128 + 128) ∷ padded k (v / 128)

pub read_varint-padded :
    (k v : ℕ) (rest : List ℕ) → v < 128 ^ suc k → read_varint (padded k v ++ rest) ≡ some (v, rest)
unfolding padded read_varint
read_varint-padded zero v rest h = ground arith
read_varint-padded (suc k) v rest h =
    ground (arith, read_varint-padded k (v / 128) rest (omega arith))

pub length-padded : (k v : ℕ) → length (padded k v) ≡ suc k
unfolding padded
length-padded zero v = refl
length-padded (suc k) v = ap suc (length-padded k (v / 128))

pub padded-IsByte : (k v : ℕ) → v < 128 ^ suc k → All IsByte (padded k v)
unfolding padded
padded-IsByte zero v h = omega arith
padded-IsByte (suc k) v h = (omega arith, padded-IsByte k (v / 128) (omega arith))

-- The ten bytes of `redundant_varint_field` are a padded varint.
pub redundant_u64-padded : (v : ℕ) → IsU64 v → redundant_u64 v ≡ padded 9 v
unfolding redundant_u64 padded
redundant_u64-padded v h = ground (
  arith,
  redundant_step v,
  redundant_step (v / 2 ^ 7),
  redundant_step (v / 2 ^ 14),
  redundant_step (v / 2 ^ 21),
  redundant_step (v / 2 ^ 28),
  redundant_step (v / 2 ^ 35),
  redundant_step (v / 2 ^ 42),
  redundant_step (v / 2 ^ 49),
  redundant_step (v / 2 ^ 56),
)

-- What `write_redundant_varint` puts in a slice of four bytes is a padded varint.
pub redundant_bytes-padded :
    (v a b c d : ℕ)
    → v ≤ max_message_len
    → write_redundant_varint v (a ∷ b ∷ c ∷ d ∷ []) ≡ some (padded 3 v)
unfolding write_redundant_varint redundant_bytes padded
redundant_bytes-padded v a b c d h = ground (
  arith,
  redundant_step v,
  redundant_step (v / 2 ^ 7),
  redundant_step (v / 2 ^ 7 / 2 ^ 7),
  bit_or-zero (v / 2 ^ 7 / 2 ^ 7 / 2 ^ 7 % 256),
)
