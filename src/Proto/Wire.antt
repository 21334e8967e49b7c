-- ===== src/Proto/Wire.antt =====
-- The wire format that a reader of the trace expects, independent of the encoder in src/proto.rs:
-- how one field is read, and when bytes hold a given tree of fields.
use tracing_perfetto_file.Common.{
  ℕ, zero, suc, ◌+◌, ◌*◌, ◌/◌, ◌%◌, ◌≡◌, refl, ap, ◌∙◌, List, [], ◌∷◌, ◌++◌, Option, none, some,
  ltb, leb, ◌==◌, if◌then◌else◌, ◌>>=◌, append_assoc,
}
use tracing_perfetto_file.Common.Lists.{length, take, drop}

pub data Value : Type 0 where
  number : ℕ → Value
  fixed : ℕ → Value
  bytes : List ℕ → Value

-- Groups of seven bits, lowest first; the last byte is below 128.
unfoldable pub read_varint : List ℕ → Option (ℕ × List ℕ)
read_varint [] = none
read_varint (b ∷ bs) =
    if ltb b 128
    then some (b, bs)
    else (read_varint bs >>= λ (v, rest). some (b % 128 + 128 * v, rest))

abbrev pub little_endian : List ℕ → ℕ
little_endian [] = 0
little_endian (b ∷ bs) = b + 256 * little_endian bs

-- The next `n` bytes.
unfoldable pub split : ℕ → List ℕ → Option (List ℕ × List ℕ)
split n bs = if leb n (length bs) then some (take n bs, drop n bs) else none

-- The rest of a field whose tag is read, by its wire type.
unfoldable pub read_value : ℕ → List ℕ → Option (Value × List ℕ)
unfolding split
read_value kind bs =
    if kind == 0
    then (read_varint bs >>= λ (v, rest). some (number v, rest))
    else if kind == 1
    then (split 8 bs >>= λ (v, rest). some (fixed (little_endian v), rest))
    else if kind == 2
    then (read_varint bs >>= λ (n, rest). split n rest >>= λ (v, rest'). some (bytes v, rest'))
    else none

-- One field: its number, its value, and the bytes behind it.
unfoldable pub read_field : List ℕ → Option (ℕ × Value × List ℕ)
read_field bs =
    read_varint bs >>= λ (t, rest). read_value (t % 8) rest >>= λ (v, rest'). some (t / 8, v, rest')

-- All fields, in order. Each takes a byte at least, so `length bs` rounds are enough.
unfoldable pub read_fields_loop : ℕ → List ℕ → Option (List (ℕ × Value))
read_fields_loop fuel [] = some []
read_fields_loop zero (b ∷ bs) = none
read_fields_loop (suc fuel) (b ∷ bs) = read_field (b ∷ bs) >>= λ (f, v, rest).
    read_fields_loop fuel rest >>= λ fields. some ((f, v) ∷ fields)

unfoldable pub read_fields : List ℕ → Option (List (ℕ × Value))
unfolding read_fields_loop
read_fields bs = read_fields_loop (length bs) bs

-- A message as a tree: its first field, and the fields behind that one.
pub data Layout : Type 0 where
  end : Layout
  varint : ℕ → ℕ → Layout → Layout
  fixed64 : ℕ → ℕ → Layout → Layout
  string : ℕ → List ℕ → Layout → Layout
  message : ℕ → Layout → Layout → Layout

infixr 65 ◌+++◌
abbrev pub ◌+++◌ : Layout → Layout → Layout
end +++ m = m
varint f v l +++ m = varint f v (l +++ m)
fixed64 f v l +++ m = fixed64 f v (l +++ m)
string f s l +++ m = string f s (l +++ m)
message f sub l +++ m = message f sub (l +++ m)

-- `bs` reads as the one field, whatever bytes follow.
abbrev pub Reads : ℕ → Value → List ℕ → Type 0
Reads f v bs = (rest : List ℕ) → read_field (bs ++ rest) ≡ some (f, v, rest)

-- `bs` holds the fields of the tree, in order, and nothing else.
abbrev pub Encodes : Layout → List ℕ → Type 0
Encodes end bs = bs ≡ []
Encodes (varint f v l) bs =
    (here there : List ℕ) × (bs ≡ here ++ there) × Reads f (number v) here × Encodes l there
Encodes (fixed64 f v l) bs =
    (here there : List ℕ) × (bs ≡ here ++ there) × Reads f (fixed v) here × Encodes l there
Encodes (string f s l) bs =
    (here there : List ℕ) × (bs ≡ here ++ there) × Reads f (bytes s) here × Encodes l there
Encodes (message f sub l) bs =
    (here there payload : List ℕ) × (bs ≡ here ++ there)
    × Reads f (bytes payload) here
    × Encodes sub payload
    × Encodes l there

regroup : (xs ys here there : List ℕ) → xs ≡ here ++ there → xs ++ ys ≡ here ++ (there ++ ys)
regroup xs ys here there e = ap (λ (t : List ℕ). t ++ ys) e ∙ append_assoc here there ys

pub Encodes-append :
    (l m : Layout) (xs ys : List ℕ) → Encodes l xs → Encodes m ys → Encodes (l +++ m) (xs ++ ys)
Encodes-append end m xs ys ex ey = rw ex ey
Encodes-append (varint f v l) m xs ys (here, there, e, r, rest) ey =
    (here, there ++ ys, regroup xs ys here there e, r, Encodes-append l m there ys rest ey)
Encodes-append (fixed64 f v l) m xs ys (here, there, e, r, rest) ey =
    (here, there ++ ys, regroup xs ys here there e, r, Encodes-append l m there ys rest ey)
Encodes-append (string f v l) m xs ys (here, there, e, r, rest) ey =
    (here, there ++ ys, regroup xs ys here there e, r, Encodes-append l m there ys rest ey)
Encodes-append (message f sub l) m xs ys (here, there, payload, e, r, inner, rest) ey = (
  here,
  there ++ ys,
  payload,
  regroup xs ys here there e,
  r,
  inner,
  Encodes-append l m there ys rest ey,
)

pub +++-end : (l : Layout) → l +++ end ≡ l
+++-end end = refl
+++-end (varint f v l) = ap (varint f v) (+++-end l)
+++-end (fixed64 f v l) = ap (fixed64 f v) (+++-end l)
+++-end (string f s l) = ap (string f s) (+++-end l)
+++-end (message f sub l) = ap (message f sub) (+++-end l)

pub +++_assoc : (k l m : Layout) → (k +++ l) +++ m ≡ k +++ (l +++ m)
+++_assoc end l m = refl
+++_assoc (varint f v k) l m = ap (varint f v) (+++_assoc k l m)
+++_assoc (fixed64 f v k) l m = ap (fixed64 f v) (+++_assoc k l m)
+++_assoc (string f s k) l m = ap (string f s) (+++_assoc k l m)
+++_assoc (message f sub k) l m = ap (message f sub) (+++_assoc k l m)
