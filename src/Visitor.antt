-- ===== src/Visitor.antt =====
-- src/visitor.rs: the visitors of recorded fields. A field is its name; a value that the code formats
-- comes with its text (`to_string`), or with the pieces that its formatting writes. A panic of the
-- writer is `none`.
pub mod StoreVisitor
pub mod AttributeVisitor
pub mod EventVisitor
pub mod Calls
use tracing_perfetto_file.Common.{ℕ, ◌^◌, ltb, List, [], ◌∷◌, Bool, true, false, ◌&&◌, ◌==◌}
use tracing_perfetto_file.Common.Maps.{StaticStr}
use tracing_perfetto_file.Runtime.{FieldValue}

-- `==` on `str`
unfoldable pub same_text : List ℕ → List ℕ → Bool
same_text [] [] = true
same_text [] (b ∷ bs) = false
same_text (a ∷ text) [] = false
same_text (a ∷ text) (b ∷ bs) = a == b && same_text text bs

-- `str::starts_with`
unfoldable pub starts_with : List ℕ → List ℕ → Bool
starts_with text [] = true
starts_with [] (p ∷ ps) = false
starts_with (a ∷ text) (p ∷ ps) = a == p && starts_with text ps

-- "counter." and "message"
abbrev pub counter_prefix : List ℕ
counter_prefix = 99 ∷ 111 ∷ 117 ∷ 110 ∷ 116 ∷ 101 ∷ 114 ∷ 46 ∷ []

abbrev pub message_name : List ℕ
message_name = 109 ∷ 101 ∷ 115 ∷ 115 ∷ 97 ∷ 103 ∷ 101 ∷ []

-- `u64::try_from` of a `u128` succeeds.
abbrev pub fits_u64 : ℕ → Bool
fits_u64 value = ltb value (2 ^ 64)

abbrev pub Fields : Type 0
Fields = List (StaticStr × FieldValue)
