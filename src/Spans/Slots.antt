-- ===== src/Spans/Slots.antt =====
-- The slots of a shard (src/span_state.rs) as a partial map from span ids.
pub mod Changes
use tracing_perfetto_file.Common.{
  ℕ, zero, suc, ◌+◌, ◌≡◌, refl, sym, ◌∙◌, ap, subst, ◌≢◌, ◌⊎◌, inl, inr, [], ◌∷◌, Bool, true, false,
  Bool-cases, Option, none, some, ◌==◌, swap_tests, ==_iff, if◌then◌else◌, arith,
}
use tracing_perfetto_file.Common.Lists.{get_elem?, set}
use tracing_perfetto_file.Spans.{
  SpanData, ActiveEntry, ActiveSlots, Inserted, ok, err, insert_slot, index_from, index, take_at,
  take_slot,
}

unfoldable pub find : ActiveSlots → ℕ → Option SpanData
find [] k = none
find (none ∷ slots) k = find slots k
find (some entry ∷ slots) k = if entry.span_id == k then some entry.span_data else find slots k

-- No two slots hold the same span.
abbrev pub IsUnique : ActiveSlots → Type 0
IsUnique [] = Unit
IsUnique (none ∷ slots) = IsUnique slots
IsUnique (some entry ∷ slots) = (find slots entry.span_id ≡ none) × IsUnique slots

-- What a search from index `i` finds.
abbrev Indexed : ℕ → ActiveSlots → ℕ → Type 0
Indexed i slots k =
    ((index_from i slots k ≡ none) × (find slots k ≡ none))
    ⊎ ((j : ℕ) × (entry : ActiveEntry) × (index_from i slots k ≡ some (i + j))
        × (get_elem? slots j ≡ some (some entry))
        × (find slots k ≡ some entry.span_data)
        × (entry.span_id ≡ k))

later_Indexed :
    (i : ℕ) (slot : Option ActiveEntry) (slots : ActiveSlots) (k : ℕ)
    → index_from i (slot ∷ slots) k ≡ index_from (i + 1) slots k
    → find (slot ∷ slots) k ≡ find slots k
    → Indexed (i + 1) slots k
    → Indexed i (slot ∷ slots) k
later_Indexed i slot slots k e f (inl (none_there, absent)) = inl (e ∙ none_there, f ∙ absent)
later_Indexed i slot slots k e f (inr (j, entry, at, there, found, same)) =
    let step : i + 1 + j ≡ i + suc j = omega arith in
    inr (suc j, entry, e ∙ at ∙ ap some step, there, f ∙ found, same)

pub index_from-Indexed : (i : ℕ) (slots : ActiveSlots) (k : ℕ) → Indexed i slots k
unfolding index_from find
index_from-Indexed i [] k = inl (refl, refl)
index_from-Indexed i (none ∷ slots) k =
    later_Indexed i none slots k refl refl (index_from-Indexed (i + 1) slots k)
index_from-Indexed i (some entry ∷ slots) k = elim (Bool-cases (entry.span_id == k)) [
  | inl same ↦
      let here : i ≡ i + 0 = omega arith in
      inr (0, entry, rw same (ap some here), refl, rw same refl, (==_iff entry.span_id k).0 same)
  | inr other ↦
      later_Indexed i (some entry) slots k (rw other refl) (rw other refl)
        (index_from-Indexed (i + 1) slots k)
]

-- `insert_slot` of a span that is not there: into a free slot, or nothing changes.
pub record InsertedSlot (slots : ActiveSlots) (k : ℕ) (d : SpanData) (slots' : ActiveSlots)
    : Type 0 where
  pub finds : (j : ℕ) → find slots' j ≡ (if k == j then some d else find slots j)
  pub unique : IsUnique slots → IsUnique slots'

abbrev InsertedSlots : ActiveSlots → ℕ → SpanData → Option Inserted → Type 0
InsertedSlots slots k d r =
    ((slots' : ActiveSlots) × (r ≡ some (ok slots')) × InsertedSlot slots k d slots')
    ⊎ (r ≡ some (err d))

absent_behind :
    (entry : ActiveEntry) (slots : ActiveSlots) (k : ℕ)
    → find (some entry ∷ slots) k ≡ none
    → (entry.span_id ≢ k) × (find slots k ≡ none)
unfolding find
absent_behind entry slots k h = elim (Bool-cases (entry.span_id == k)) [
  | inl same ↦ (let hit : some entry.span_data ≡ none = (rw same at h) in cc hit)
  | inr other ↦ ((λ e. cc (other, (==_iff entry.span_id k).1 e)), rw other at h)
]

pub not-== : (a b : ℕ) → a ≢ b → a == b ≡ false
not-== a b h = ground arith

insert_behind :
    (entry : ActiveEntry) (slots : ActiveSlots) (k : ℕ) (d : SpanData) (slots' : ActiveSlots)
    → find (some entry ∷ slots) k ≡ none
    → InsertedSlot slots k d slots'
    → InsertedSlot (some entry ∷ slots) k d (some entry ∷ slots')
unfolding find
insert_behind entry slots k d slots' absent x =
    let differs = (absent_behind entry slots k absent).0 in
    record {
      finds = λ j. rw (x.finds j) (
          swap_tests (entry.span_id == j) (k == j) (some entry.span_data) (some d) (find slots j)
            (λ a b. differs ((==_iff entry.span_id j).0 a ∙ sym ((==_iff k j).0 b))));
      unique = λ u. (
        x.finds entry.span_id ∙ rw (not-== k entry.span_id (λ e. differs (sym e))) u.0,
        x.unique u.1,
      );
    }

pub insert_slot-Inserted :
    (slots : ActiveSlots) (k : ℕ) (d : SpanData)
    → k ≢ 0
    → find slots k ≡ none
    → InsertedSlots slots k d (insert_slot slots k d)
unfolding insert_slot find
insert_slot-Inserted [] k d nonzero absent = inr refl
insert_slot-Inserted (none ∷ slots) k d nonzero absent = inl (
  some (record { span_id = k; span_data = d }) ∷ slots,
  rw (not-== k 0 nonzero) refl,
  record { finds = λ j. refl; unique = λ u. (absent, u) },
)
insert_slot-Inserted (some entry ∷ slots) k d nonzero absent =
    elim (insert_slot-Inserted slots k d nonzero (absent_behind entry slots k absent).1) [
      | inl (slots', e, x) ↦
          inl (some entry ∷ slots', rw e refl, insert_behind entry slots k d slots' absent x)
      | inr e ↦ inr (rw e refl)
    ]
