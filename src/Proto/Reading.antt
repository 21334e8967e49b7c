-- ===== src/Proto/Reading.antt =====
-- A reader of the wire format takes the bytes of a tree apart completely.
use tracing_perfetto_file.Common.{
  ℕ, zero, suc, ◌≤◌, ◌≡◌, refl, ap, List, [], ◌∷◌, ◌++◌, some, arith,
}
use tracing_perfetto_file.Common.Lists.{length, length-append}
use tracing_perfetto_file.Proto.Wire.{
  Layout, end, varint, fixed64, string, message, Value, number, fixed, bytes, Reads, Encodes,
  read_varint, read_field, read_fields, read_fields_loop,
}

-- The fields that a reader gets from a tree, a nested message as its bytes.
abbrev pub Shows : Layout → List (ℕ × Value) → Type 0
Shows end fs = fs ≡ []
Shows (varint f v l) fs = (rest : List (ℕ × Value)) × (fs ≡ (f, number v) ∷ rest) × Shows l rest
Shows (fixed64 f v l) fs = (rest : List (ℕ × Value)) × (fs ≡ (f, fixed v) ∷ rest) × Shows l rest
Shows (string f s l) fs = (rest : List (ℕ × Value)) × (fs ≡ (f, bytes s) ∷ rest) × Shows l rest
Shows (message f sub l) fs =
    (rest : List (ℕ × Value)) × (payload : List ℕ) × (fs ≡ (f, bytes payload) ∷ rest)
    × Encodes sub payload
    × Shows l rest

-- The number of fields, those of nested messages left out.
abbrev count : Layout → ℕ
count end = 0
count (varint f v l) = suc (count l)
count (fixed64 f v l) = suc (count l)
count (string f s l) = suc (count l)
count (message f sub l) = suc (count l)

Reads-length : (f : ℕ) (v : Value) (here : List ℕ) → Reads f v here → 1 ≤ length here
Reads-length f v [] r = unfold read_field read_varint in cc (r [])
Reads-length f v (b ∷ bs) r = omega arith

one_field :
    (fuel f : ℕ) (v : Value) (here there : List ℕ) (fs : List (ℕ × Value))
    → Reads f v here
    → read_fields_loop fuel there ≡ some fs
    → read_fields_loop (suc fuel) (here ++ there) ≡ some ((f, v) ∷ fs)
one_field fuel f v [] there fs r e = unfold read_field read_varint in cc (r [])
one_field fuel f v (b ∷ here) there fs r e = unfold read_fields_loop in rw (r there, e)

abbrev Found : ℕ → Layout → List ℕ → Type 0
Found fuel l bs = (fs : List (ℕ × Value)) × (read_fields_loop fuel bs ≡ some fs) × Shows l fs

read_fields_loop-Found :
    (fuel : ℕ) (l : Layout) (bs : List ℕ) → count l ≤ fuel → Encodes l bs → Found fuel l bs
read_fields_loop-Found fuel end bs h e = ([], rw e (unfold read_fields_loop in refl), refl)
read_fields_loop-Found zero (varint f v l) bs h e = elim h [ ]
read_fields_loop-Found zero (fixed64 f v l) bs h e = elim h [ ]
read_fields_loop-Found zero (string f v l) bs h e = elim h [ ]
read_fields_loop-Found zero (message f sub l) bs h e = elim h [ ]
read_fields_loop-Found (suc fuel) (varint f v l) bs h (here, there, e, r, more) =
    let (fs, found, shows) = read_fields_loop-Found fuel l there (omega arith) more in
    (_, rw e (one_field fuel f (number v) here there fs r found), (fs, refl, shows))
read_fields_loop-Found (suc fuel) (fixed64 f v l) bs h (here, there, e, r, more) =
    let (fs, found, shows) = read_fields_loop-Found fuel l there (omega arith) more in
    (_, rw e (one_field fuel f (fixed v) here there fs r found), (fs, refl, shows))
read_fields_loop-Found (suc fuel) (string f s l) bs h (here, there, e, r, more) =
    let (fs, found, shows) = read_fields_loop-Found fuel l there (omega arith) more in
    (_, rw e (one_field fuel f (bytes s) here there fs r found), (fs, refl, shows))
read_fields_loop-Found (suc fuel) (message f sub l) bs h (here, there, payload, e, r, inner, more) =
    let (fs, found, shows) = read_fields_loop-Found fuel l there (omega arith) more in
    (
      _,
      rw e (one_field fuel f (bytes payload) here there fs r found),
      (fs, payload, refl, inner, shows),
    )

one_more :
    (n f : ℕ) (v : Value) (bs here there : List ℕ)
    → bs ≡ here ++ there
    → Reads f v here
    → n ≤ length there
    → suc n ≤ length bs
one_more n f v bs here there e r h =
    omega (arith, ap length e, length-append here there, Reads-length f v here r)

count-le-length : (l : Layout) (bs : List ℕ) → Encodes l bs → count l ≤ length bs
count-le-length end bs e = omega arith
count-le-length (varint f v l) bs (here, there, e, r, more) =
    one_more _ f (number v) bs here there e r (count-le-length l there more)
count-le-length (fixed64 f v l) bs (here, there, e, r, more) =
    one_more _ f (fixed v) bs here there e r (count-le-length l there more)
count-le-length (string f s l) bs (here, there, e, r, more) =
    one_more _ f (bytes s) bs here there e r (count-le-length l there more)
count-le-length (message f sub l) bs (here, there, payload, e, r, inner, more) =
    one_more _ f (bytes payload) bs here there e r (count-le-length l there more)

pub read_fields-Shows :
    (l : Layout) (bs : List ℕ)
    → Encodes l bs
    → (fs : List (ℕ × Value)) × (read_fields bs ≡ some fs) × Shows l fs
unfolding read_fields
read_fields-Shows l bs e = read_fields_loop-Found (length bs) l bs (count-le-length l bs e) e
