-- ===== src/Thread/Contexts/Updates.antt =====
-- A change of one context of a thread (src/thread.rs), and what contexts keep for later spans.
use tracing_perfetto_file.Common.{
  ℕ, ◌≡◌, refl, sym, ◌∙◌, ap, subst, inl, inr, [], ◌∷◌, true, false, Bool-cases, >>=-eq-some, some,
  ◌==◌, ==_iff, if◌then◌else◌, ◌>>=◌,
}
use tracing_perfetto_file.Common.Lists.{All}
use tracing_perfetto_file.Thread.Blank.{IsBlank}
use tracing_perfetto_file.Thread.Contexts.{ThreadCtx, Contexts, context_of, update}

-- The retained data that contexts keep is blank.
abbrev pub Blank : Contexts → Type 0
Blank contexts =
    (k : ℕ) (context : ThreadCtx)
    → context_of contexts k ≡ some context
    → All IsBlank context.retained_spans

pub context_of-update :
    (contexts : Contexts) (k j : ℕ) (change : ThreadCtx → ThreadCtx)
    → context_of (update contexts k change) j ≡ (
        if k == j
        then (context_of contexts j >>= λ context. some (change context))
        else context_of contexts j)
unfolding context_of update
context_of-update [] k j change = elim (Bool-cases (k == j)) [
  | inl same ↦ rw same refl
  | inr other ↦ rw other refl
]
context_of-update ((i, context) ∷ contexts) k j change = elim (Bool-cases (i == k)) [
  | inl hit ↦ elim (Bool-cases (k == j)) [
    | inl same ↦
        let is : (i == j) ≡ true = (==_iff i j).1 ((==_iff i k).0 hit ∙ (==_iff k j).0 same) in
        rw (hit, same) (rw is refl)
    | inr other ↦
        let apart : (i == j) ≡ false = elim (Bool-cases (i == j)) [
          | inl same ↦
              (let is : (k == j) ≡ true =
                  (==_iff k j).1 (sym ((==_iff i k).0 hit) ∙ (==_iff i j).0 same) in
                cc (is, other))
          | inr away ↦ away
        ] in
        rw (hit, other) (rw apart refl)
  ]
  | inr miss ↦ elim (Bool-cases (i == j)) [
    | inl at_j ↦
        let apart : (k == j) ≡ false = elim (Bool-cases (k == j)) [
          | inl same ↦
              (let is : (i == k) ≡ true =
                  (==_iff i k).1 ((==_iff i j).0 at_j ∙ sym ((==_iff k j).0 same)) in
                cc (is, miss))
          | inr other ↦ other
        ] in
        rw miss (rw (at_j, apart) refl)
    | inr not_j ↦ rw miss (rw not_j (context_of-update contexts k j change))
  ]
]

pub Blank-update :
    (contexts : Contexts) (k : ℕ) (change : ThreadCtx → ThreadCtx)
    → ((context : ThreadCtx)
        → context_of contexts k ≡ some context
        → All IsBlank (change context).retained_spans)
    → Blank contexts
    → Blank (update contexts k change)
Blank-update contexts k change keeps blank j context e = elim (Bool-cases (k == j)) [
  | inr other ↦ blank j context (sym (context_of-update contexts k j change ∙ rw other refl) ∙ e)
  | inl same ↦
      let is : k ≡ j = (==_iff k j).0 same in
      let changed : (context_of contexts j >>= λ context. some (change context)) ≡ some context =
        sym (context_of-update contexts k j change ∙ rw same refl) ∙ e in
      let (old, there, now) =
        >>=-eq-some (context_of contexts j) (λ context. some (change context)) changed in
      let result : change old ≡ context = cc now in
      subst (λ context. All IsBlank context.retained_spans) result
        (keeps old (ap (λ k. context_of contexts k) is ∙ there))
]

context_of-update_same :
    (contexts : Contexts) (k : ℕ) (change : ThreadCtx → ThreadCtx) (context : ThreadCtx)
    → context_of contexts k ≡ some context
    → context_of (update contexts k change) k ≡ some (change context)
context_of-update_same contexts k change context there =
    context_of-update contexts k k change ∙ rw ((==_iff k k).1 refl) (rw there refl)
