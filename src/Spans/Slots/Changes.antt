-- ===== src/Spans/Slots/Changes.antt =====
-- A slot of a shard (src/span_state.rs) that is emptied, or whose data is changed.
use tracing_perfetto_file.Common.{
  ℕ, zero, suc, ◌+◌, ◌≡◌, refl, sym, ◌∙◌, ap, subst, ◌≢◌, ◌⊎◌, inl, inr, [], ◌∷◌, Bool, true, false,
  Bool-cases, Option, none, some, ◌==◌, swap_tests, ==_iff, if◌then◌else◌, arith,
}
use tracing_perfetto_file.Common.Lists.{get_elem?, set}
use tracing_perfetto_file.Spans.{
  SpanData, ActiveEntry, ActiveSlots, index_from, index, take_at, take_slot,
}
use tracing_perfetto_file.Spans.Slots.{find, IsUnique, index_from-Indexed, absent_behind, not-==}

-- A slot that is emptied: its span is gone, the others stay.
present :
    (slots : ActiveSlots) (j : ℕ) (entry : ActiveEntry)
    → get_elem? slots j ≡ some (some entry)
    → find slots entry.span_id ≢ none
unfolding find
present [] j entry h e = cc h
present (none ∷ slots) zero entry h e = cc h
present (none ∷ slots) (suc j) entry h e = present slots j entry h e
present (some first ∷ slots) zero entry h e =
    let same : first ≡ entry = cc h in
    (absent_behind first slots entry.span_id e).0 (ap (λ (a : ActiveEntry). a.span_id) same)
present (some first ∷ slots) (suc j) entry h e =
    present slots j entry h (absent_behind first slots entry.span_id e).1

if_none {ℓ} : {A : Type ℓ} (b : Bool) (x : Option A) → x ≡ none → (if b then none else x) ≡ none
if_none true x h = refl
if_none false x h = h

behind_test {ℓ} :
    {A : Type ℓ} (b : Bool) (x y z : A)
    → (if b then x else z) ≡ (if b then x else if b then y else z)
behind_test true x y z = refl
behind_test false x y z = refl

first_gone :
    (first : ActiveEntry) (slots : ActiveSlots) (k : ℕ)
    → find slots first.span_id ≡ none
    → find slots k ≡ (if first.span_id == k then none else find (some first ∷ slots) k)
unfolding find
first_gone first slots k gone = elim (Bool-cases (first.span_id == k)) [
  | inl same ↦ rw same (subst (λ i. find slots i ≡ none) ((==_iff first.span_id k).0 same) gone)
  | inr other ↦ rw other refl
]

pub emptied :
    (slots : ActiveSlots) (j k : ℕ) (entry : ActiveEntry)
    → IsUnique slots
    → get_elem? slots j ≡ some (some entry)
    → find (set slots j none) k ≡ (if entry.span_id == k then none else find slots k)
unfolding find
emptied [] j k entry u h = cc h
emptied (none ∷ slots) zero k entry u h = cc h
emptied (none ∷ slots) (suc j) k entry u h = emptied slots j k entry u h
emptied (some first ∷ slots) zero k entry (gone, u) h =
    let same : first ≡ entry = cc h in
    subst
      (λ (a : ActiveEntry).
        find slots k ≡ (if a.span_id == k then none else find (some first ∷ slots) k))
      same (first_gone first slots k gone)
emptied (some first ∷ slots) (suc j) k entry (gone, u) h = rw (emptied slots j k entry u h) (
    swap_tests (first.span_id == k) (entry.span_id == k) (some first.span_data) none (find slots k)
      (λ a b.
        let same : first.span_id ≡ entry.span_id =
          (==_iff first.span_id k).0 a ∙ sym ((==_iff entry.span_id k).0 b) in
        present slots j entry h (subst (λ i. find slots i ≡ none) same gone)))

pub emptied-IsUnique :
    (slots : ActiveSlots) (j : ℕ) (entry : ActiveEntry)
    → IsUnique slots
    → get_elem? slots j ≡ some (some entry)
    → IsUnique (set slots j none)
emptied-IsUnique [] j entry u h = cc h
emptied-IsUnique (none ∷ slots) zero entry u h = cc h
emptied-IsUnique (none ∷ slots) (suc j) entry u h = emptied-IsUnique slots j entry u h
emptied-IsUnique (some first ∷ slots) zero entry (gone, u) h = u
emptied-IsUnique (some first ∷ slots) (suc j) entry (gone, u) h = (
  emptied slots j first.span_id entry u h
      ∙ if_none (entry.span_id == first.span_id) (find slots first.span_id) gone,
  emptied-IsUnique slots j entry u h,
)

-- `ActiveSlots::take`: an absent span, or its data with the slot emptied.
abbrev Taken : ActiveSlots → ℕ → Option (SpanData × ActiveSlots) → Type 0
Taken slots k r =
    ((r ≡ none) × (find slots k ≡ none))
    ⊎ ((d : SpanData) × (slots' : ActiveSlots) × (r ≡ some (d, slots'))
        × (find slots k ≡ some d)
        × ((j : ℕ) → find slots' j ≡ (if k == j then none else find slots j))
        × IsUnique slots')

pub take_slot-Taken :
    (slots : ActiveSlots) (k : ℕ) → IsUnique slots → Taken slots k (take_slot slots k)
unfolding take_slot take_at index
take_slot-Taken slots k u = elim (index_from-Indexed 0 slots k) [
  | inl (e, absent) ↦ inl (rw e refl, absent)
  | inr (j, entry, e, there, found, same) ↦
      let at : index_from 0 slots k ≡ some j =
        e ∙ ap some (let step : 0 + j ≡ j = omega arith in step) in
      inr (
        entry.span_data,
        set slots j none,
        rw at (rw there refl),
        found,
        (λ i.
            subst (λ k. find (set slots j none) i ≡ (if k == i then none else find slots i)) same
              (emptied slots j i entry u there)),
        emptied-IsUnique slots j entry u there,
      )
]

-- A slot whose data is changed: its span has the new data, the others stay.
pub changed_slot :
    (slots : ActiveSlots) (j k : ℕ) (entry : ActiveEntry) (d : SpanData)
    → IsUnique slots
    → get_elem? slots j ≡ some (some entry)
    → find (set slots j (some (record entry { span_data = d }))) k
      ≡ (if entry.span_id == k then some d else find slots k)
unfolding find
changed_slot [] j k entry d u h = cc h
changed_slot (none ∷ slots) zero k entry d u h = cc h
changed_slot (none ∷ slots) (suc j) k entry d u h = changed_slot slots j k entry d u h
changed_slot (some first ∷ slots) zero k entry d u h =
    let same : first ≡ entry = cc h in
    subst
      (λ (a : ActiveEntry).
        (if a.span_id == k then some d else find slots k)
        ≡ (if a.span_id == k then some d else find (some first ∷ slots) k))
      same (behind_test (first.span_id == k) (some d) (some first.span_data) (find slots k))
changed_slot (some first ∷ slots) (suc j) k entry d (gone, u) h =
    rw (changed_slot slots j k entry d u h) (
      swap_tests (first.span_id == k) (entry.span_id == k) (some first.span_data) (some d)
        (find slots k)
        (λ a b.
          let same : first.span_id ≡ entry.span_id =
            (==_iff first.span_id k).0 a ∙ sym ((==_iff entry.span_id k).0 b) in
          present slots j entry h (subst (λ i. find slots i ≡ none) same gone)))

pub changed_slot-IsUnique :
    (slots : ActiveSlots) (j : ℕ) (entry : ActiveEntry) (d : SpanData)
    → IsUnique slots
    → get_elem? slots j ≡ some (some entry)
    → IsUnique (set slots j (some (record entry { span_data = d })))
changed_slot-IsUnique [] j entry d u h = cc h
changed_slot-IsUnique (none ∷ slots) zero entry d u h = cc h
changed_slot-IsUnique (none ∷ slots) (suc j) entry d u h = changed_slot-IsUnique slots j entry d u h
changed_slot-IsUnique (some first ∷ slots) zero entry d (gone, u) h =
    let same : first ≡ entry = cc h in
    (subst (λ (a : ActiveEntry). find slots a.span_id ≡ none) same gone, u)
changed_slot-IsUnique (some first ∷ slots) (suc j) entry d (gone, u) h =
    let differs : entry.span_id == first.span_id ≡ false =
      not-== entry.span_id first.span_id
        (λ same. present slots j entry h (subst (λ i. find slots i ≡ none) (sym same) gone)) in
    (
      changed_slot slots j first.span_id entry d u h ∙ rw differs gone,
      changed_slot-IsUnique slots j entry d u h,
    )
