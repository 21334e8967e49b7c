-- ===== src/Sequence/Dictionary.antt =====
-- The iids of src/sequence.rs over many packets: a reader that adds the entries of each packet to its
-- dictionary gets back every text.
use tracing_perfetto_file.Common.{
  ℕ, ◌+◌, ◌^◌, ◌≤◌, ◌<◌, ◌≡◌, refl, sym, ◌∙◌, ap, subst, ◌≢◌, ◌⊎◌, inl, inr, List, [], ◌∷◌, ◌++◌,
  map, Option, none, some, ◌==◌, Bool-cases, arith, append_assoc, append-nil,
}
use tracing_perfetto_file.Common.Lists.{All, length, length-append}
use tracing_perfetto_file.Common.Maps.{StaticStr}
use tracing_perfetto_file.Sequence.{Entries, Interner, after_reserved, intern}
use tracing_perfetto_file.Sequence.Interning.{
  Interned, Resolves, intern-Resolves, after_reserved-Interned,
}
use tracing_perfetto_file.Sequence.Entries.{text_of, iid_of, iid_of-append}

-- The strings of one packet, one after another.
unfoldable pub intern_all : Interner → Entries → List StaticStr → List ℕ × Interner × Entries
intern_all n pending [] = ([], n, pending)
intern_all n pending (s ∷ ss) =
    let (iid, n', pending') = intern n s pending in
    let (iids, n'', pending'') = intern_all n' pending' ss in (iid ∷ iids, n'', pending'')

-- Packet after packet, each with its iids and the entries that were pending at its end.
unfoldable pub packets : Interner → List (List StaticStr) → List (List ℕ × Entries)
packets n [] = []
packets n (ss ∷ groups) =
    let (iids, n', entries) = intern_all n [] ss in (iids, entries) ∷ packets n' groups

-- The reader: the entries of a packet count for that packet and those behind it.
abbrev pub text : Option StaticStr → Option (List ℕ)
text none = none
text (some s) = some s.text

unfoldable pub read_back : Entries → List (List ℕ × Entries) → List (List (Option (List ℕ)))
read_back dictionary [] = []
read_back dictionary ((iids, entries) ∷ rest) =
    map (λ iid. text (text_of (dictionary ++ entries) iid)) iids
    ∷ read_back (dictionary ++ entries) rest

abbrev pub total : List (List StaticStr) → ℕ
total [] = 0
total (ss ∷ groups) = length ss + total groups

-- The bytes at an address do not change; no string is at address 0.
module _ (text_at : ℕ → List ℕ) where
  abbrev pub IsStatic : StaticStr → Type 0
  IsStatic s = (s.ptr ≢ 0) × (s.text ≡ text_at s.ptr)

  abbrev pub Aligned : Entries → Type 0
  Aligned log = All (λ e. e.1.text ≡ text_at e.1.ptr) log

  text_of-Aligned :
      (log : Entries) (i : ℕ) (t : StaticStr)
      → Aligned log
      → text_of log i ≡ some t
      → t.text ≡ text_at t.ptr
  unfolding text_of
  text_of-Aligned [] i t a h = cc h
  text_of-Aligned ((j, s) ∷ log) i t (e, a) h = elim (Bool-cases (j == i)) [
    | inl same ↦
        let first : some s ≡ some t = (rw same at h) in
        let is_t : s ≡ t = cc first in subst (λ t. t.text ≡ text_at t.ptr) is_t e
    | inr other ↦ text_of-Aligned log i t a (rw other at h)
  ]

  abbrev Found : Entries → List StaticStr → List ℕ → Type 0
  Found log [] [] = Unit
  Found log [] (i ∷ is) = ⊥
  Found log (s ∷ ss) [] = ⊥
  Found log (s ∷ ss) (i ∷ is) = (iid_of log s.ptr ≡ some i) × Found log ss is

  Found-texts :
      (base : ℕ) (n : Interner) (log : Entries) (ss : List StaticStr) (is : List ℕ)
      → Interned base n log
      → Aligned log
      → All IsStatic ss
      → Found log ss is
      → map (λ i. text (text_of log i)) is ≡ map (λ s. some s.text) ss
  Found-texts base n log [] [] x a st f = refl
  Found-texts base n log [] (i ∷ is) x a st f = absurd f
  Found-texts base n log (s ∷ ss) [] x a st f = absurd f
  Found-texts base n log (s ∷ ss) (i ∷ is) x a ((nonzero, e), st) (here, f) =
      let (t, found, at) = x.back s.ptr i here in
      let same : t.text ≡ s.text = text_of-Aligned log i t a found ∙ ap text_at at ∙ sym e in
      rw (found, same, Found-texts base n log ss is x a st f) refl

  -- What `intern_all` leaves: the old entries with more behind them, at most one for each string.
  record Interns (base : ℕ) (flushed pending : Entries) (ss : List StaticStr) (iids : List ℕ)
      (n' : Interner) (pending' : Entries) : Type 0 where
    kept : Interned base n' (flushed ++ pending')
    aligned : Aligned (flushed ++ pending')
    found : Found (flushed ++ pending') ss iids
    extends : (more : Entries) × (pending' ≡ pending ++ more)
    few : length pending' ≤ length pending + length ss

  iid_of-extends :
      (log more : Entries) (k i : ℕ) → iid_of log k ≡ some i → iid_of (log ++ more) k ≡ some i
  iid_of-extends log more k i h = iid_of-append log more k ∙ rw h refl

  Aligned-append : (log more : Entries) → Aligned log → Aligned more → Aligned (log ++ more)
  Aligned-append [] more a b = b
  Aligned-append (e ∷ log) more (p, a) b = (p, Aligned-append log more a b)

  -- Entries that stayed, or got one more.
  one_more :
      (flushed pending pending' : Entries) (e : ℕ × StaticStr)
      → (pending' ≡ pending) ⊎ (pending' ≡ pending ++ e ∷ [])
      → Aligned (flushed ++ pending)
      → e.1.text ≡ text_at e.1.ptr
      → (more : Entries) × (pending' ≡ pending ++ more)
        × Aligned (flushed ++ pending')
        × (length pending' ≤ length pending + 1)
  one_more flushed pending pending' e (inl same) a h = (
    [],
    same ∙ sym (append-nil pending),
    subst (λ p. Aligned (flushed ++ p)) (sym same) a,
    omega (arith, ap length same),
  )
  one_more flushed pending pending' e (inr grown) a h =
      let longer : Aligned (flushed ++ (pending ++ e ∷ [])) =
        subst Aligned (append_assoc flushed pending (e ∷ []))
          (Aligned-append (flushed ++ pending) (e ∷ []) a (h, tt)) in
      (
        e ∷ [],
        grown,
        subst (λ p. Aligned (flushed ++ p)) (sym grown) longer,
        omega (arith, ap length grown, length-append pending (e ∷ [])),
      )

  intern_all-Interns :
      (base : ℕ) (n : Interner) (flushed pending : Entries) (ss : List StaticStr)
      → Interned base n (flushed ++ pending)
      → Aligned (flushed ++ pending)
      → All IsStatic ss
      → base + (length flushed + length pending) + length ss < 2 ^ 64
      → let (iids, n', pending') = intern_all n pending ss in
        Interns base flushed pending ss iids n' pending'
  unfolding intern_all
  intern_all-Interns base n flushed pending [] x a st room = record {
    kept = x;
    aligned = a;
    found = tt;
    extends = ([], sym (append-nil pending));
    few = omega arith;
  }
  intern_all-Interns base n flushed pending (s ∷ ss) x a ((nonzero, e), st) room =
      let iid = (intern n s pending).0 in
      let n' = (intern n s pending).1 in
      let pending' = (intern n s pending).2 in
      let r : Resolves base flushed pending s iid n' pending' =
        intern-Resolves base n flushed pending s x nonzero
          (omega (arith, x.counted, length-append flushed pending)) in
      let (added, grown, a', short) = one_more flushed pending pending' (iid, s) r.added a e in
      let rest = intern_all-Interns base n' flushed pending' ss r.kept a' st (omega arith) in
      let (more, grown') = rest.extends in
      let pending'' = (intern_all n' pending' ss).2 in
      let split : (flushed ++ pending') ++ more ≡ flushed ++ pending'' =
        append_assoc flushed pending' more ∙ ap (λ (p : Entries). flushed ++ p) (sym grown') in
      record {
        kept = rest.kept;
        aligned = rest.aligned;
        found = (
          subst (λ log. iid_of log s.ptr ≡ some iid) split
              (iid_of-extends (flushed ++ pending') more s.ptr iid r.stable),
          rest.found,
        );
        extends = (
          added ++ more,
          grown' ∙ ap (λ (p : Entries). p ++ more) grown ∙ append_assoc pending added more,
        );
        few = omega (arith, rest.few);
      }

  packets-read :
      (base : ℕ) (n : Interner) (flushed : Entries) (groups : List (List StaticStr))
      → Interned base n flushed
      → Aligned flushed
      → All (All IsStatic) groups
      → base + length flushed + total groups < 2 ^ 64
      → read_back flushed (packets n groups) ≡ map (map (λ s. some s.text)) groups
  unfolding packets read_back
  packets-read base n flushed [] x a st room = refl
  packets-read base n flushed (ss ∷ groups) x a (now, later) room =
      let nothing : flushed ≡ flushed ++ [] = sym (append-nil flushed) in
      let r =
        intern_all-Interns base n flushed [] ss (subst (Interned base n) nothing x)
          (subst Aligned nothing a) now (omega arith) in
      let iids = (intern_all n [] ss).0 in
      let n' = (intern_all n [] ss).1 in
      let entries = (intern_all n [] ss).2 in
      let here : map (λ iid. text (text_of (flushed ++ entries) iid)) iids
          ≡ map (λ s. some s.text) ss =
        Found-texts base n' (flushed ++ entries) ss iids r.kept r.aligned now r.found in
      rw here (
        rw
          (packets-read base n' (flushed ++ entries) groups r.kept r.aligned later
            (omega (arith, length-append flushed entries, r.few)))
          refl)

-- A fresh interner, with any number of reserved iids, over any number of packets: a reader that
-- takes up the entries of each packet before it looks up the iids of that packet finds the text of
-- every string that the packet interned. This holds while the address of a string determines its
-- text, length included (so no two of the strings have one address and different lengths, as a
-- literal and a prefix of it may), no string is at address 0, and the number of strings with the
-- reserved iids is below 2 ^ 64.
pub packets-read_back :
    (base : ℕ) (text_at : ℕ → List ℕ) (groups : List (List StaticStr))
    → All (All (IsStatic text_at)) groups
    → base + total groups < 2 ^ 64
    → read_back [] (packets (after_reserved base) groups) ≡ map (map (λ s. some s.text)) groups
packets-read_back base text_at groups st room =
    packets-read text_at base (after_reserved base) [] groups (after_reserved-Interned base) tt st
      (omega arith)
