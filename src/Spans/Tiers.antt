-- ===== src/Spans/Tiers.antt =====
-- The tiers of the span store (src/span_state.rs): what it holds, and what a change in one tier does.
use tracing_perfetto_file.Common.{
  ℕ, ◌+◌, ◌<◌, ◌≡◌, refl, sym, ◌∙◌, ap, subst, ◌≢◌, ◌⊎◌, inl, inr, false, Bool-cases, Option, none,
  some, ◌==◌, ==_iff, if◌then◌else◌, arith, bit_and, or_else, or_else-none,
}
use tracing_perfetto_file.Common.Bits.{bit_and_three_ones}
use tracing_perfetto_file.Common.Lists.{length, get_elem?, set}
use tracing_perfetto_file.Common.Indexed.{get_elem?-set, length-set, get_elem?_within}
use tracing_perfetto_file.Spans.{
  SpanData, ActiveSlots, DashMap, active_shard, SpanStore, get_from, get, index,
}
use tracing_perfetto_file.Spans.Slots.{find, IsUnique, not-==, index_from-Indexed}

three_ones-lt : (a : ℕ) → bit_and a 7 < 8
three_ones-lt a = omega (arith, bit_and_three_ones a)

pub active_shard-lt : (k : ℕ) → active_shard k < 8
unfolding active_shard
active_shard-lt k = three_ones-lt _

module _ (map : DashMap SpanData) where
  -- The span in a shard's slots, or else in the overflow map.
  abbrev pub held : ActiveSlots → map.Map → ℕ → Option SpanData
  held slots overflow k = or_else (find slots k) (map.get overflow k)

  -- Eight shards; in each, no span twice; and no span in a shard and in the overflow map.
  pub record IsStore (s : SpanStore map) : Type 0 where
    pub shards : length s.active ≡ 8
    pub unique : (i : ℕ) (slots : ActiveSlots) → get_elem? s.active i ≡ some slots → IsUnique slots
    pub one_tier :
        (i : ℕ) (slots : ActiveSlots) (k : ℕ)
        → get_elem? s.active i ≡ some slots
        → active_shard k ≡ i
        → (find slots k ≡ none) ⊎ (map.get s.overflow k ≡ none)

  pub shard_there :
      (s : SpanStore map) (k : ℕ)
      → IsStore s
      → (slots : ActiveSlots) × (get_elem? s.active (active_shard k) ≡ some slots)
  shard_there s k x =
      get_elem?_within s.active (active_shard k) (omega (arith, active_shard-lt k, x.shards))

  pub get_lem :
      (s : SpanStore map) (k : ℕ) (slots : ActiveSlots)
      → get_elem? s.active (active_shard k) ≡ some slots
      → get map s k ≡ some (held slots s.overflow k)
  unfolding get get_from index
  get_lem s k slots e = elim (index_from-Indexed 0 slots k) [
    | inl (at, absent) ↦ rw e (rw (at, absent) refl)
    | inr (j, entry, at, there, found, same) ↦
        let zero_less : 0 + j ≡ j = omega arith in rw e (rw (at, zero_less, there, found) refl)
  ]

  -- The store `s'` has `v` for the span `k`, and is otherwise the store `s`.
  pub record Updates (s s' : SpanStore map) (k : ℕ) (v : Option SpanData) : Type 0 where
    pub store : IsStore s'
    pub gets : (j : ℕ) → get map s' j ≡ (if k == j then some v else get map s j)

  -- A change in the slots of the span's shard.
  module _ (s : SpanStore map) (k : ℕ) (v : Option SpanData) (slots slots' : ActiveSlots)
      (x : IsStore s) (there : get_elem? s.active (active_shard k) ≡ some slots)
      (finds : (j : ℕ) → find slots' j ≡ (if k == j then v else find slots j))
      (unique : IsUnique slots') (absent : map.get s.overflow k ≡ none) where
    at :
        (i : ℕ)
        → get_elem? (set s.active (active_shard k) slots') i
          ≡ (if active_shard k == i then some slots' else get_elem? s.active i)
    at i = get_elem?-set s.active (active_shard k) i slots' slots there

    tier_in_shard :
        (j : ℕ)
        → active_shard j ≡ active_shard k
        → (find slots' j ≡ none) ⊎ (map.get s.overflow j ≡ none)
    tier_in_shard j shard = elim (Bool-cases (k == j)) [
      | inl same ↦ inr (subst (λ j. map.get s.overflow j ≡ none) ((==_iff k j).0 same) absent)
      | inr other ↦ elim (x.one_tier (active_shard k) slots j there shard) [
        | inl none_there ↦ inl (finds j ∙ rw other none_there)
        | inr none_over ↦ inr none_over
      ]
    ]

    changed-IsStore : IsStore (record s { active = set s.active (active_shard k) slots' })
    changed-IsStore = record {
      shards = length-set s.active (active_shard k) slots' ∙ x.shards;
      unique = λ i ss e. elim (Bool-cases (active_shard k == i)) [
        | inl same ↦
            let hit : some slots' ≡ some ss = sym (at i ∙ rw same refl) ∙ e in
            let is : slots' ≡ ss = cc hit in subst IsUnique is unique
        | inr other ↦ x.unique i ss (sym (at i ∙ rw other refl) ∙ e)
      ];
      one_tier = λ i ss j e shard. elim (Bool-cases (active_shard k == i)) [
        | inl same ↦
            let hit : some slots' ≡ some ss = sym (at i ∙ rw same refl) ∙ e in
            let is : slots' ≡ ss = cc hit in
            subst (λ ss. (find ss j ≡ none) ⊎ (map.get s.overflow j ≡ none)) is
              (tier_in_shard j (shard ∙ sym ((==_iff (active_shard k) i).0 same)))
        | inr other ↦ x.one_tier i ss j (sym (at i ∙ rw other refl) ∙ e) shard
      ];
    }

    in_shard :
        (j : ℕ)
        → active_shard k ≡ active_shard j
        → get map (record s { active = set s.active (active_shard k) slots' }) j
          ≡ (if k == j then some v else get map s j)
    in_shard j shard =
        let s' : SpanStore map = record s { active = set s.active (active_shard k) slots' } in
        let there_j = subst (λ i. get_elem? s.active i ≡ some slots) shard there in
        let new_j : get_elem? s'.active (active_shard j) ≡ some slots' =
          at (active_shard j) ∙ rw ((==_iff (active_shard k) (active_shard j)).1 shard) refl in
        elim (Bool-cases (k == j)) [
          | inl same ↦
              let over : map.get s.overflow j ≡ none =
                subst (λ j. map.get s.overflow j ≡ none) ((==_iff k j).0 same) absent in
              let found : find slots' j ≡ v = finds j ∙ rw same refl in
              rw same (get_lem s' j slots' new_j ∙ rw (found, over) (ap some (or_else-none v)))
          | inr other ↦
              let kept : find slots' j ≡ find slots j = finds j ∙ rw other refl in
              rw other (get_lem s' j slots' new_j ∙ rw kept (sym (get_lem s j slots there_j)))
        ]

    pub changed-Updates : Updates s (record s { active = set s.active (active_shard k) slots' }) k v
    changed-Updates = record {
      store = changed-IsStore;
      gets = λ j. elim (Bool-cases (active_shard k == active_shard j)) [
        | inl same ↦ in_shard j ((==_iff (active_shard k) (active_shard j)).0 same)
        | inr other ↦
            let (ss, there_j) = shard_there s j x in
            let s' : SpanStore map = record s { active = set s.active (active_shard k) slots' } in
            let new_j : get_elem? s'.active (active_shard j) ≡ some ss =
              at (active_shard j) ∙ rw other there_j in
            let differs : k == j ≡ false =
              not-== k j (λ e.
                cc (other, (==_iff (active_shard k) (active_shard j)).1 (ap active_shard e))) in
            rw differs (get_lem s' j ss new_j ∙ sym (get_lem s j ss there_j))
      ];
    }

  -- A change in the overflow map.
  pub overflow-Updates :
      (s : SpanStore map) (k : ℕ) (v : Option SpanData) (slots : ActiveSlots) (overflow : map.Map)
      → IsStore s
      → get_elem? s.active (active_shard k) ≡ some slots
      → find slots k ≡ none
      → map.get overflow k ≡ v
      → ((j : ℕ) → j ≢ k → map.get overflow j ≡ map.get s.overflow j)
      → Updates s (record s { overflow = overflow }) k v
  overflow-Updates s k v slots overflow x there absent now others =
      let s' : SpanStore map = record s { overflow = overflow } in
      let differs : (j : ℕ) → k == j ≡ false → j ≢ k =
        λ j other e. cc (other, (==_iff k j).1 (sym e)) in
      record {
        store = record {
          shards = x.shards;
          unique = x.unique;
          one_tier = λ i ss j e shard. elim (Bool-cases (k == j)) [
            | inl same ↦
                let is_j : k ≡ j = (==_iff k j).0 same in
                let hit : some slots ≡ some ss =
                  sym there ∙ ap (get_elem? s.active) (ap active_shard is_j ∙ shard) ∙ e in
                let is : slots ≡ ss = cc hit in
                inl
                  (subst (λ ss. find ss j ≡ none) is (subst (λ j. find slots j ≡ none) is_j absent))
            | inr other ↦ elim (x.one_tier i ss j e shard) [
              | inl none_there ↦ inl none_there
              | inr none_over ↦ inr (others j (differs j other) ∙ none_over)
            ]
          ];
        };
        gets = λ j. elim (Bool-cases (k == j)) [
          | inl same ↦
              let is_j : k ≡ j = (==_iff k j).0 same in
              let there_j =
                subst (λ j. get_elem? s.active (active_shard j) ≡ some slots) is_j there in
              let gone : find slots j ≡ none = subst (λ j. find slots j ≡ none) is_j absent in
              let here : map.get overflow j ≡ v = subst (λ j. map.get overflow j ≡ v) is_j now in
              rw same (get_lem s' j slots there_j ∙ rw (gone, here) refl)
          | inr other ↦
              let (ss, there_j) = shard_there s j x in
              rw other (
                get_lem s' j ss there_j
                ∙ rw (others j (differs j other)) (sym (get_lem s j ss there_j)))
        ];
      }
