-- ===== src/Visitor/StoreVisitor/Laws.antt =====
-- The fields of a StoreVisitor (src/visitor.rs) are a map from names, in the order of first records.
use tracing_perfetto_file.Common.{
  ℕ, ◌≡◌, refl, sym, ◌∙◌, ap, List, [], ◌∷◌, ◌++◌, map, Bool, true, false, Bool-cases, inl, inr,
  Option, none, some, ◌==◌, ==_iff, if◌then◌else◌, swap_tests,
}
use tracing_perfetto_file.Common.Maps.{StaticStr}
use tracing_perfetto_file.Runtime.{FieldValue}
use tracing_perfetto_file.Visitor.{Fields, same_text}
use tracing_perfetto_file.Visitor.StoreVisitor.{set}

pub same_text-eq : (a b : List ℕ) → same_text a b ≡ true → a ≡ b
unfolding same_text
same_text-eq [] [] h = refl
same_text-eq [] (b ∷ bs) h = cc h
same_text-eq (a ∷ text) [] h = cc h
same_text-eq (a ∷ text) (b ∷ bs) h = elim (Bool-cases (a == b)) [
  | inl same ↦
      let first : a ≡ b = (==_iff a b).0 same in
      let rest : text ≡ bs = same_text-eq text bs (rw same at h) in λ i. first i ∷ rest i
  | inr other ↦ (let never : false ≡ true = (rw other at h) in cc never)
]

pub same_text_refl : (a : List ℕ) → same_text a a ≡ true
unfolding same_text
same_text_refl [] = refl
same_text_refl (a ∷ text) = rw ((==_iff a a).1 refl) (same_text_refl text)

unfoldable pub value_of : Fields → List ℕ → Option FieldValue
value_of [] m = none
value_of ((n, v) ∷ fields) m = if same_text n.text m then some v else value_of fields m

-- No name is recorded twice.
abbrev pub IsDistinct : Fields → Type 0
IsDistinct [] = Unit
IsDistinct ((n, v) ∷ fields) = (value_of fields n.text ≡ none) × IsDistinct fields

abbrev pub names : Fields → List (List ℕ)
names fields = map (λ field. field.0.text) fields

set-value :
    (fields : Fields) (name : StaticStr) (v : FieldValue) (m : List ℕ)
    → value_of (set fields name v) m ≡ (if same_text name.text m then some v else value_of fields m)
unfolding set value_of
set-value [] name v m = refl
set-value ((n, old) ∷ fields) name v m = elim (Bool-cases (same_text n.text name.text)) [
  | inl same ↦
      let is : n.text ≡ name.text = same_text-eq n.text name.text same in
      rw same
        (overwritten (same_text n.text m) (same_text name.text m) (ap (λ t. same_text t m) is))
  | inr other ↦
      rw (other, set-value fields name v m)
        (swap_tests (same_text n.text m) (same_text name.text m) (some old) (some v)
          (value_of fields m)
          (λ a b.
            let is : n.text ≡ name.text =
              same_text-eq n.text m a ∙ sym (same_text-eq name.text m b) in
            let hit : same_text n.text name.text ≡ true =
              ap (λ t. same_text n.text t) (sym is) ∙ same_text_refl n.text in
            cc (hit, other)))
]
  where
    overwritten :
        (a b : Bool)
        → a ≡ b
        → (if a then some v else value_of fields m)
          ≡ (if b then some v else if a then some old else value_of fields m)
    overwritten true true e = refl
    overwritten true false e = cc e
    overwritten false true e = cc e
    overwritten false false e = refl

other_way : (a b : List ℕ) → same_text a b ≡ false → same_text b a ≡ false
other_way a b h = elim (Bool-cases (same_text b a)) [
  | inl hit ↦
      let is : b ≡ a = same_text-eq b a hit in
      let back : same_text a b ≡ true = ap (λ t. same_text a t) is ∙ same_text_refl a in
      cc (back, h)
  | inr miss ↦ miss
]

set-IsDistinct :
    (fields : Fields) (name : StaticStr) (v : FieldValue)
    → IsDistinct fields
    → IsDistinct (set fields name v)
unfolding set value_of
set-IsDistinct [] name v d = (refl, tt)
set-IsDistinct ((n, old) ∷ fields) name v (gone, d) =
    elim (Bool-cases (same_text n.text name.text)) [
      | inl same ↦ rw same (gone, d)
      | inr other ↦
          let differs : same_text name.text n.text ≡ false = other_way n.text name.text other in
          rw other
            (set-value fields name v n.text ∙ rw differs gone, set-IsDistinct fields name v d)
    ]

-- The names behind a record of `name`, which had the value `old`.
abbrev pub names_with : Option FieldValue → List (List ℕ) → List ℕ → List (List ℕ)
names_with none before name = before ++ name ∷ []
names_with (some old) before name = before

names_with-behind :
    (old : Option FieldValue) (first : List ℕ) (before : List (List ℕ)) (name : List ℕ)
    → first ∷ names_with old before name ≡ names_with old (first ∷ before) name
names_with-behind none first before name = refl
names_with-behind (some old) first before name = refl

set-names :
    (fields : Fields) (name : StaticStr) (v : FieldValue)
    → names (set fields name v) ≡ names_with (value_of fields name.text) (names fields) name.text
unfolding set value_of
set-names [] name v = refl
set-names ((n, old) ∷ fields) name v = elim (Bool-cases (same_text n.text name.text)) [
  | inl same ↦ rw same refl
  | inr other ↦
      rw (other, set-names fields name v)
        (names_with-behind (value_of fields name.text) n.text (names fields) name.text)
]

-- `set` on fields with distinct names: afterwards the name has the new value, all other names have
-- the value that they had, the names are still distinct, and they stand in the order in which they
-- were first recorded, a new one at the end.
pub set-Sets :
    (fields : Fields) (name : StaticStr) (v : FieldValue)
    → IsDistinct fields
    → ((m : List ℕ)
        → value_of (set fields name v) m
          ≡ (if same_text name.text m then some v else value_of fields m))
      × IsDistinct (set fields name v)
      × (names (set fields name v)
          ≡ names_with (value_of fields name.text) (names fields) name.text)
set-Sets fields name v d =
    (set-value fields name v, set-IsDistinct fields name v d, set-names fields name v)
