-- ===== src/Visitor/StoreVisitor/Runs.antt =====
-- Recorded fields, and the theorem at them.
use tracing_perfetto_file.Common.{ℕ, ◌≡◌, refl, List, [], ◌∷◌, some, if◌then◌else◌}
use tracing_perfetto_file.Common.Maps.{StaticStr}
use tracing_perfetto_file.Runtime.{u64}
use tracing_perfetto_file.Visitor.{Fields, same_text}
use tracing_perfetto_file.Visitor.StoreVisitor.{set}
use tracing_perfetto_file.Visitor.StoreVisitor.Laws.{
  value_of, IsDistinct, names, names_with, set-Sets,
}

abbrev x_name : StaticStr
x_name = record { ptr = 10; text = 120 ∷ [] }

abbrev y_name : StaticStr
y_name = record { ptr = 20; text = 121 ∷ [] }

abbrev x_and_y : Fields
x_and_y = (x_name, u64 1) ∷ (y_name, u64 2) ∷ []

x_again : set x_and_y x_name (u64 3) ≡ (x_name, u64 3) ∷ (y_name, u64 2) ∷ []
unfolding set same_text
x_again = refl

set-Sets_example :
    ((m : List ℕ)
      → value_of (set x_and_y x_name (u64 3)) m
        ≡ (if same_text x_name.text m then some (u64 3) else value_of x_and_y m))
    × IsDistinct (set x_and_y x_name (u64 3))
    × (names (set x_and_y x_name (u64 3))
        ≡ names_with (value_of x_and_y x_name.text) (names x_and_y) x_name.text)
set-Sets_example =
    set-Sets x_and_y x_name (u64 3)
      (unfold value_of in unfold same_text in refl, (unfold value_of in refl, tt))
