-- ===== src/Visitor/StoreVisitor.antt =====
-- src/visitor.rs: `StoreVisitor`, given by the fields that it collects.
mod Laws
mod Runs
use tracing_perfetto_file.Common.{ℕ, List, [], ◌∷◌, Bool, if◌then◌else◌}
use tracing_perfetto_file.Common.Int.{ℤ, fits_i64}
use tracing_perfetto_file.Common.Maps.{StaticStr}
use tracing_perfetto_file.Runtime.{FieldValue, bool, i64, u64, f64, str}
use tracing_perfetto_file.Visitor.{Fields, same_text, fits_u64}

unfoldable pub set : Fields → StaticStr → FieldValue → Fields
set [] name value = (name, value) ∷ []
set ((n, old) ∷ fields) name value =
    if same_text n.text name.text then (n, value) ∷ fields else (n, old) ∷ set fields name value

pub record_bool : Fields → StaticStr → Bool → Fields
record_bool fields field value = set fields field (bool value)

pub record_i64 : Fields → StaticStr → ℤ → Fields
record_i64 fields field value = set fields field (i64 value)

pub record_u64 : Fields → StaticStr → ℕ → Fields
record_u64 fields field value = set fields field (u64 value)

pub record_f64 : Fields → StaticStr → ℕ → Fields
record_f64 fields field value = set fields field (f64 value)

pub record_i128 : Fields → StaticStr → ℤ → List ℕ → Fields
record_i128 fields field value text =
    set fields field (if fits_i64 value then i64 value else str text)

pub record_u128 : Fields → StaticStr → ℕ → List ℕ → Fields
record_u128 fields field value text =
    set fields field (if fits_u64 value then u64 value else str text)

pub record_str : Fields → StaticStr → List ℕ → Fields
record_str fields field value = set fields field (str value)

-- `text` is what `format!("{value:02x?}")` gives.
pub record_bytes : Fields → StaticStr → List ℕ → Fields
record_bytes fields field text = set fields field (str text)

pub record_error : Fields → StaticStr → List ℕ → Fields
record_error fields field text = set fields field (str text)

pub record_debug : Fields → StaticStr → List ℕ → Fields
record_debug fields field text = set fields field (str text)
