-- ===== src/Spans/Instances.antt =====
-- The overflow map of the span store (src/span_state.rs) as an association list.
use tracing_perfetto_file.Common.{
  ℕ, ◌≡◌, ◌≢◌, refl, [], ◌∷◌, Option, none, some, ◌==◌, if◌then◌else◌, arith, ◌>>=◌,
}
use tracing_perfetto_file.Common.Maps.{PtrMap, get, insert, get-insert_same, get-insert_other}
use tracing_perfetto_file.Spans.{SpanData, DashMap}

-- All entries of a key go.
unfoldable pub without : PtrMap SpanData → ℕ → PtrMap SpanData
without [] k = []
without ((j, d) ∷ m) k = let rest = without m k in if j == k then rest else (j, d) ∷ rest

get-without_same : (m : PtrMap SpanData) (k : ℕ) → get (without m k) k ≡ none
unfolding get without
get-without_same [] k = refl
get-without_same ((j, d) ∷ m) k = ground (arith, get-without_same m k)

get-without_other : (m : PtrMap SpanData) (k j : ℕ) → j ≢ k → get (without m k) j ≡ get m j
unfolding get without
get-without_other [] k j ne = refl
get-without_other ((i, d) ∷ m) k j ne = ground (arith, get-without_other m k j ne)

unfoldable pub remove : PtrMap SpanData → ℕ → Option (SpanData × PtrMap SpanData)
remove m k = get m k >>= λ d. some (d, without m k)

pub remove_absent : (m : PtrMap SpanData) (k : ℕ) → get m k ≡ none → remove m k ≡ none
unfolding remove
remove_absent m k h = rw h refl

pub remove_present :
    (m : PtrMap SpanData) (k : ℕ) (d : SpanData)
    → get m k ≡ some d
    → (m' : PtrMap SpanData) × (remove m k ≡ some (d, m'))
      × (get m' k ≡ none)
      × ((j : ℕ) → j ≢ k → get m' j ≡ get m j)
unfolding remove
remove_present m k d h =
    (without m k, rw h refl, get-without_same m k, λ j ne. get-without_other m k j ne)

unfoldable pub get_mut : PtrMap SpanData → ℕ → (SpanData → SpanData) → Option (PtrMap SpanData)
get_mut m k change = get m k >>= λ d. some (insert m k (change d))

pub get_mut_absent :
    (m : PtrMap SpanData) (k : ℕ) (change : SpanData → SpanData)
    → get m k ≡ none
    → get_mut m k change ≡ none
unfolding get_mut
get_mut_absent m k change h = rw h refl

pub get_mut_present :
    (m : PtrMap SpanData) (k : ℕ) (change : SpanData → SpanData) (d : SpanData)
    → get m k ≡ some d
    → (m' : PtrMap SpanData) × (get_mut m k change ≡ some m')
      × (get m' k ≡ some (change d))
      × ((j : ℕ) → j ≢ k → get m' j ≡ get m j)
unfolding get_mut
get_mut_present m k change d h = (
  insert m k (change d),
  rw h refl,
  get-insert_same m k (change d),
  λ j ne. get-insert_other m k j (change d) ne,
)

pub get_empty : (k : ℕ) → ◌≡◌ {A = Option SpanData} (get [] k) none
unfolding get
get_empty k = refl

abbrev pub assoc : DashMap SpanData
assoc = record {
  Map = PtrMap SpanData;
  empty = [];
  get = get;
  insert = insert;
  remove = remove;
  get_mut = get_mut;
  get-empty = get_empty;
  get-insert_same = get-insert_same;
  get-insert_other = get-insert_other;
  remove-absent = remove_absent;
  remove-present = remove_present;
  get_mut-absent = get_mut_absent;
  get_mut-present = get_mut_present;
}
