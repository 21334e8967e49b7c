-- ===== src/Sequence/Interning.antt =====
-- The interner of src/sequence.rs against the dictionary that a reader builds from its entries.
use tracing_perfetto_file.Common.{
  ℕ, ◌+◌, ◌%◌, ◌^◌, ◌≤◌, ◌<◌, ◌≡◌, refl, sym, ◌∙◌, ap, subst, ◌≢◌, ◌⊎◌, inl, inr, [], ◌∷◌, ◌++◌,
  Option, none, some, ◌==◌, or_else, ==_iff, if◌then◌else◌, Bool, true, false, Option-cases,
  if_either, arith, append_assoc,
}
use tracing_perfetto_file.Common.Lists.{All, length, length-append}
use tracing_perfetto_file.Common.Maps.{StaticStr, get, insert, get-insert}
use tracing_perfetto_file.Sequence.{
  Entries, Interner, after_reserved, intern, intern_found, intern_miss,
}
use tracing_perfetto_file.Sequence.Entries.{
  text_of, iid_of, text_of-append, iid_of-append, text_of-fresh, All-append, All-weaken,
}

-- The interner, after it has handed out the entries of `log`, with `base` reserved iids.
pub record Interned (base : ℕ) (n : Interner) (log : Entries) : Type 0 where
  pub known : (k : ℕ) → get n.map k ≡ iid_of log k
  pub cached : (n.last_key ≡ 0) ⊎ (iid_of log n.last_key ≡ some n.last_iid)
  pub counted : n.next ≡ base + length log
  pub below : All (λ e. e.0 ≤ n.next) log
  pub back :
      (k i : ℕ) → iid_of log k ≡ some i → (s : StaticStr) × (text_of log i ≡ some s) × (s.ptr ≡ k)

pub after_reserved-Interned : (base : ℕ) → Interned base (after_reserved base) []
unfolding after_reserved get iid_of
after_reserved-Interned base = record {
  known = λ k. refl;
  cached = inl refl;
  counted = omega arith;
  below = tt;
  back = λ k i h. cc h;
}

-- What a call of `intern` for `s` gives, if the entries `log` were handed out before, the last of
-- them still in `pending`: an iid that the entries now resolve to a string at the same address;
-- entries are only added behind the old ones, and at most one.
pub record Resolves (base : ℕ) (flushed pending : Entries) (s : StaticStr) (iid : ℕ) (n : Interner)
    (pending' : Entries) : Type 0 where
  pub kept : Interned base n (flushed ++ pending')
  pub resolved : (t : StaticStr) × (text_of (flushed ++ pending') iid ≡ some t) × (t.ptr ≡ s.ptr)
  pub stable : iid_of (flushed ++ pending') s.ptr ≡ some iid
  pub added : (pending' ≡ pending) ⊎ (pending' ≡ pending ++ (iid, s) ∷ [])
  pub first :
      (old : ℕ) → iid_of (flushed ++ pending) s.ptr ≡ some old → (iid ≡ old) × (pending' ≡ pending)

-- The string is known: nothing is added.
known-Resolves :
    (base : ℕ) (n n' : Interner) (flushed pending : Entries) (s : StaticStr) (iid : ℕ)
    → Interned base n (flushed ++ pending)
    → Interned base n' (flushed ++ pending)
    → iid_of (flushed ++ pending) s.ptr ≡ some iid
    → Resolves base flushed pending s iid n' pending
known-Resolves base n n' flushed pending s iid x x' there = record {
  kept = x';
  resolved = x.back s.ptr iid there;
  stable = there;
  added = inl refl;
  first = λ old e. (cc (there, e), refl);
}

found_behind :
    (b : Bool) (i : ℕ) (g old : Option ℕ)
    → g ≡ old
    → (b ≡ true → old ≡ none)
    → (if b then some i else g) ≡ or_else old (if b then some i else none)
found_behind true i g old e h = rw (h refl) refl
found_behind false i g none e h = e
found_behind false i g (some j) e h = e

only_new : (b : Bool) (i j : ℕ) → (if b then some i else none) ≡ some j → (b ≡ true) × (i ≡ j)
only_new true i j h = (refl, cc h)
only_new false i j h = cc h

-- The string is new.
module _ (base : ℕ) (n : Interner) (log : Entries) (s : StaticStr) (x : Interned base n log)
    (missing : get n.map s.ptr ≡ none) where
  unseen : iid_of log s.ptr ≡ none
  unseen = sym (x.known s.ptr) ∙ missing

  miss_known : (i k : ℕ) → get (insert n.map s.ptr i) k ≡ iid_of (log ++ (i, s) ∷ []) k
  unfolding iid_of
  miss_known i k =
      get-insert n.map s.ptr k i
      ∙ found_behind (s.ptr == k) i (get n.map k) (iid_of log k) (x.known k)
          (λ same. subst (λ k. iid_of log k ≡ none) ((==_iff s.ptr k).0 same) unseen)
      ∙ sym (iid_of-append log ((i, s) ∷ []) k)

  iid_of-new : (i : ℕ) → iid_of (log ++ (i, s) ∷ []) s.ptr ≡ some i
  unfolding iid_of
  iid_of-new i = iid_of-append log ((i, s) ∷ []) s.ptr ∙ rw unseen (ground arith)

  text_of-new : (i : ℕ) → n.next < i → text_of (log ++ (i, s) ∷ []) i ≡ some s
  unfolding text_of
  text_of-new i new =
      let fresh : text_of log i ≡ none = text_of-fresh log n.next i x.below new in
      text_of-append log ((i, s) ∷ []) i ∙ rw fresh (ground arith)

  miss_back :
      (i k j : ℕ)
      → n.next < i
      → iid_of (log ++ (i, s) ∷ []) k ≡ some j
      → (t : StaticStr) × (text_of (log ++ (i, s) ∷ []) j ≡ some t) × (t.ptr ≡ k)
  unfolding iid_of text_of
  miss_back i k j new h = elim (Option-cases (iid_of log k)) [
    | inr (old, there) ↦
        let (t, found, at) = x.back k old there in
        let same : some old ≡ some j =
          ap (λ o. or_else o (iid_of ((i, s) ∷ []) k)) (sym there)
          ∙ sym (iid_of-append log ((i, s) ∷ []) k)
          ∙ h in
        let old_is_j : old ≡ j = cc same in
        let found' : text_of log j ≡ some t = subst (λ j. text_of log j ≡ some t) old_is_j found in
        (t, text_of-append log ((i, s) ∷ []) j ∙ rw found' refl, at)
    | inl absent ↦
        let only : (if s.ptr == k then some i else none) ≡ some j =
          ap (λ o. or_else o (iid_of ((i, s) ∷ []) k)) (sym absent)
          ∙ sym (iid_of-append log ((i, s) ∷ []) k)
          ∙ h in
        let (hit, is_j) = only_new (s.ptr == k) i j only in
        (
          s,
          subst (λ j. text_of (log ++ (i, s) ∷ []) j ≡ some s) is_j (text_of-new i new),
          (==_iff s.ptr k).0 hit,
        )
  ]

  miss_Interned :
      (n.next + 1 < 2 ^ 64)
      → let next = (n.next + 1) % 2 ^ 64 in
        Interned base
          (record { map = insert n.map s.ptr next; next = next; last_key = s.ptr; last_iid = next })
          (log ++ (next, s) ∷ [])
  miss_Interned room =
      let i = (n.next + 1) % 2 ^ 64 in
      record {
        known = miss_known i;
        cached = inr (iid_of-new i);
        counted = omega (arith, x.counted, length-append log ((i, s) ∷ []));
        below =
            All-append (λ e. e.0 ≤ i) log (i, s) (All-weaken log n.next i (omega arith) x.below)
              (omega arith);
        back = λ k j h. miss_back i k j (omega arith) h;
      }

-- `Resolves`, of the result of a call.
abbrev Resolved : ℕ → Entries → Entries → StaticStr → ℕ × Interner × Entries → Type 0
Resolved base flushed pending s r = Resolves base flushed pending s r.0 r.1 r.2

module _ (base : ℕ) (n : Interner) (flushed pending : Entries) (s : StaticStr)
    (x : Interned base n (flushed ++ pending)) where
  cached_Resolved :
      s.ptr ≢ 0 → n.last_key ≡ s.ptr → Resolved base flushed pending s (n.last_iid, n, pending)
  cached_Resolved nonzero same = elim x.cached [
    | inl at_zero ↦ absurd (nonzero (sym same ∙ at_zero))
    | inr there ↦
        known-Resolves base n n flushed pending s n.last_iid x x
          (subst (λ k. iid_of (flushed ++ pending) k ≡ some n.last_iid) same there)
  ]

  found_Resolved :
      n.next + 1 < 2 ^ 64
      → (found : Option ℕ) → get n.map s.ptr ≡ found
      → Resolved base flushed pending s (intern_found n s pending found)
  unfolding intern_found intern_miss
  found_Resolved room (some iid) e =
      let there : iid_of (flushed ++ pending) s.ptr ≡ some iid = sym (x.known s.ptr) ∙ e in
      let kept : Interned base (record n { last_key = s.ptr; last_iid = iid })
          (flushed ++ pending) =
        record {
          known = x.known;
          cached = inr there;
          counted = x.counted;
          below = x.below;
          back = x.back;
        } in
      known-Resolves base n _ flushed pending s iid x kept there
  found_Resolved room none e =
      let i = (n.next + 1) % 2 ^ 64 in
      let grown : (flushed ++ pending) ++ (i, s) ∷ [] ≡ flushed ++ (pending ++ (i, s) ∷ []) =
        append_assoc flushed pending ((i, s) ∷ []) in
      record {
        kept = subst (Interned base _) grown (miss_Interned base n (flushed ++ pending) s x e room);
        resolved = (
          s,
          subst (λ all. text_of all i ≡ some s) grown
              (text_of-new base n (flushed ++ pending) s x e i (omega arith)),
          refl,
        );
        stable =
            subst (λ all. iid_of all s.ptr ≡ some i) grown
              (iid_of-new base n (flushed ++ pending) s x e i);
        added = inr refl;
        first = λ old there. cc (there, unseen base n (flushed ++ pending) s x e);
      }

-- `intern`, with the entries `flushed` written in earlier packets and `pending` not written yet, for
-- a string that is not at address 0, while the counter has room: the iid that it returns stands for
-- a string at the address of `s` in the entries that are then written or pending; the old entries
-- stay, and only a new address adds one, behind them.
pub intern-Resolves :
    (base : ℕ) (n : Interner) (flushed pending : Entries) (s : StaticStr)
    → Interned base n (flushed ++ pending)
    → s.ptr ≢ 0
    → n.next + 1 < 2 ^ 64
    → let (iid, n', pending') = intern n s pending in
      Resolves base flushed pending s iid n' pending'
unfolding intern
intern-Resolves base n flushed pending s x nonzero room =
    if_either (Resolved base flushed pending s) (n.last_key == s.ptr) (n.last_iid, n, pending)
      (intern_found n s pending (get n.map s.ptr))
      (λ same.
        cached_Resolved base n flushed pending s x nonzero ((==_iff n.last_key s.ptr).0 same))
      (λ other. found_Resolved base n flushed pending s x room (get n.map s.ptr) refl)
