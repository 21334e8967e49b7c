-- ===== src/Visitor/EventVisitor/Tallies.antt =====
-- How often a message has a field.
use tracing_perfetto_file.Common.{ℕ, ◌+◌, ◌≡◌, ◌==◌, if◌then◌else◌, arith}
use tracing_perfetto_file.Proto.Wire.{Layout, end, varint, fixed64, string, message, ◌+++◌}

abbrev pub one_if : ℕ → ℕ → ℕ
one_if f g = if f == g then 1 else 0

-- The fields with the number `f`, but not those of nested messages.
unfoldable pub occurrences : ℕ → Layout → ℕ
occurrences f end = 0
occurrences f (varint g v l) = one_if f g + occurrences f l
occurrences f (fixed64 g v l) = one_if f g + occurrences f l
occurrences f (string g s l) = one_if f g + occurrences f l
occurrences f (message g sub l) = one_if f g + occurrences f l

pub occurrences-append :
    (f : ℕ) (l m : Layout) → occurrences f (l +++ m) ≡ occurrences f l + occurrences f m
unfolding occurrences
occurrences-append f end m = omega arith
occurrences-append f (varint g v l) m = omega (arith, occurrences-append f l m)
occurrences-append f (fixed64 g v l) m = omega (arith, occurrences-append f l m)
occurrences-append f (string g s l) m = omega (arith, occurrences-append f l m)
occurrences-append f (message g sub l) m = omega (arith, occurrences-append f l m)
