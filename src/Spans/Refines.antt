-- ===== src/Spans/Refines.antt =====
-- The span store of src/span_state.rs is one partial map from span ids, whatever tier holds a span.
use tracing_perfetto_file.Common.{
  ℕ, ◌+◌, ◌≡◌, refl, sym, ◌∙◌, ap, subst, ◌≢◌, ◌⊎◌, inl, inr, Option-cases, none, some, ◌==◌,
  if◌then◌else◌, arith, or_else-absent,
}
use tracing_perfetto_file.Common.Lists.{set, replicate}
use tracing_perfetto_file.Common.Indexed.{get_elem?-replicate}
use tracing_perfetto_file.Spans.{
  SpanData, DashMap, active_shard, SpanStore, new_store, fast_shards, fast_slots, insert_into,
  get_mut, change_in, change_at, index_from, insert, get, take_from, take, index,
}
use tracing_perfetto_file.Spans.Slots.{find, IsUnique, index_from-Indexed, insert_slot-Inserted}
use tracing_perfetto_file.Spans.Slots.Changes.{take_slot-Taken, changed_slot, changed_slot-IsUnique}
use tracing_perfetto_file.Spans.Tiers.{
  held, IsStore, Updates, shard_there, get_lem, changed-Updates, overflow-Updates,
}

module _ (map : DashMap SpanData) where
  -- `insert` of a span that is not in the store, whose id is not zero: the store then has it, in
  -- whatever tier has room, and is the same for all other ids. It does not panic.
  pub insert-Updates :
      (s : SpanStore map) (k : ℕ) (d : SpanData)
      → IsStore map s
      → k ≢ 0
      → get map s k ≡ some none
      → (s' : SpanStore map) × (insert map s k d ≡ some s') × Updates map s s' k (some d)
  unfolding insert insert_into
  insert-Updates s k d x nonzero absent =
      let (slots, there) = shard_there map s k x in
      let nothing : some (held map slots s.overflow k) ≡ some none =
        sym (get_lem map s k slots there) ∙ absent in
      let (gone, not_over) = or_else-absent (find slots k) (map.get s.overflow k) (cc nothing) in
      elim (insert_slot-Inserted slots k d nonzero gone) [
        | inl (slots', e, put) ↦ (
          record s { active = set s.active (active_shard k) slots' },
          rw there (rw e refl),
          changed-Updates map s k (some d) slots slots' x there put.finds
              (put.unique (x.unique (active_shard k) slots there)) not_over,
        )
        | inr full ↦ (
          record s { overflow = map.insert s.overflow k d },
          rw there (rw full refl),
          overflow-Updates map s k (some d) slots (map.insert s.overflow k d) x there gone
              (map.get-insert_same s.overflow k d)
              (λ j ne. map.get-insert_other s.overflow k j d ne),
        )
      ]

  -- `take` of any span: an absent one gives nothing, and a present one its data, and the store then
  -- lacks it and is the same for all other ids. It does not panic.
  pub take-Updates :
      (s : SpanStore map) (k : ℕ)
      → IsStore map s
      → ((get map s k ≡ some none) × (take map s k ≡ some none))
        ⊎ ((d : SpanData) × (s' : SpanStore map) × (get map s k ≡ some (some d))
            × (take map s k ≡ some (some (d, s')))
            × Updates map s s' k none)
  unfolding take take_from
  take-Updates s k x =
      let (slots, there) = shard_there map s k x in
      elim (take_slot-Taken slots k (x.unique (active_shard k) slots there)) [
        | inr (d, slots', e, found, finds, unique) ↦
            let not_over : map.get s.overflow k ≡ none =
              elim (x.one_tier (active_shard k) slots k there refl) [
                | inl gone ↦ cc (gone, found)
                | inr absent ↦ absent
              ] in
            inr (
              d,
              record s { active = set s.active (active_shard k) slots' },
              get_lem map s k slots there ∙ rw found refl,
              rw there (rw e refl),
              changed-Updates map s k none slots slots' x there finds unique not_over,
            )
        | inl (e, gone) ↦ elim (Option-cases (map.get s.overflow k)) [
          | inl absent ↦ inl (
            get_lem map s k slots there ∙ rw (gone, absent) refl,
            rw there (rw e (rw (map.remove-absent s.overflow k absent) refl)),
          )
          | inr (d, present) ↦
              let (overflow, removed, now, others) = map.remove-present s.overflow k d present in
              inr (
                d,
                record s { overflow = overflow },
                get_lem map s k slots there ∙ rw (gone, present) refl,
                rw there (rw e (rw removed refl)),
                overflow-Updates map s k none slots overflow x there gone now others,
              )
        ]
      ]

  new_store_shards : IsStore map (new_store map)
  unfolding new_store find
  new_store_shards = record {
    shards = refl;
    unique = λ i slots e.
        subst IsUnique (get_elem?-replicate fast_shards i (replicate fast_slots none) slots e) tt;
    one_tier = λ i slots k e shard. inl (
        subst (λ slots. find slots k ≡ none)
          (get_elem?-replicate fast_shards i (replicate fast_slots none) slots e) refl);
  }

  -- A new store has its eight shards, and no span.
  pub new_store-IsStore :
      IsStore map (new_store map) × ((k : ℕ) → get map (new_store map) k ≡ some none)
  unfolding new_store find
  new_store-IsStore = (
    new_store_shards,
    λ k.
        let (slots, there) = shard_there map (new_store map) k new_store_shards in
        let empty : find slots k ≡ none =
          subst (λ slots. find slots k ≡ none)
            (get_elem?-replicate fast_shards (active_shard k) (replicate fast_slots none) slots
              there)
            refl in
        get_lem map (new_store map) k slots there ∙ rw (empty, map.get-empty k) refl,
  )

  -- `get_mut` of any span, with `change` done to its data: an absent one gives nothing, and a present
  -- one is in the store with the changed data afterwards, which is the same for all other ids. It
  -- does not panic.
  pub get_mut-Updates :
      (s : SpanStore map) (k : ℕ) (change : SpanData → SpanData)
      → IsStore map s
      → ((get map s k ≡ some none) × (get_mut map s k change ≡ some none))
        ⊎ ((d : SpanData) × (s' : SpanStore map) × (get map s k ≡ some (some d))
            × (get_mut map s k change ≡ some (some s'))
            × Updates map s s' k (some (change d)))
  unfolding get_mut change_in change_at index
  get_mut-Updates s k change x =
      let (slots, there) = shard_there map s k x in
      let unique = x.unique (active_shard k) slots there in
      elim (index_from-Indexed 0 slots k) [
        | inr (j, entry, e, at_j, found, same) ↦
            let zero_less : 0 + j ≡ j = omega arith in
            let at_index : index_from 0 slots k ≡ some j = e ∙ ap some zero_less in
            let not_over : map.get s.overflow k ≡ none =
              elim (x.one_tier (active_shard k) slots k there refl) [
                | inl gone ↦ cc (gone, found)
                | inr absent ↦ absent
              ] in
            let slots' = set slots j (some (record entry { span_data = change entry.span_data })) in
            inr (
              entry.span_data,
              record s { active = set s.active (active_shard k) slots' },
              get_lem map s k slots there ∙ rw found refl,
              rw there (rw at_index (rw at_j refl)),
              changed-Updates map s k (some (change entry.span_data)) slots slots' x there
                  (λ i.
                    subst
                      (λ k.
                        find slots' i
                        ≡ (if k == i then some (change entry.span_data) else find slots i))
                      same (changed_slot slots j i entry (change entry.span_data) unique at_j))
                  (changed_slot-IsUnique slots j entry (change entry.span_data) unique at_j)
                  not_over,
            )
        | inl (e, gone) ↦ elim (Option-cases (map.get s.overflow k)) [
          | inl absent ↦ inl (
            get_lem map s k slots there ∙ rw (gone, absent) refl,
            rw there (rw e (rw (map.get_mut-absent s.overflow k change absent) refl)),
          )
          | inr (d, present) ↦
              let (overflow, changed, now, others) =
                map.get_mut-present s.overflow k change d present in
              inr (
                d,
                record s { overflow = overflow },
                get_lem map s k slots there ∙ rw (gone, present) refl,
                rw there (rw e (rw changed refl)),
                overflow-Updates map s k (some (change d)) slots overflow x there gone now others,
              )
        ]
      ]
