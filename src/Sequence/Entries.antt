-- ===== src/Sequence/Entries.antt =====
-- The entries of an interner (src/sequence.rs) as a log, and lookups in it.
use tracing_perfetto_file.Common.{
  ℕ, ◌≤◌, ◌<◌, ◌≡◌, refl, [], ◌∷◌, ◌++◌, Option, none, some, ◌==◌, or_else, if◌then◌else◌, Bool,
  true, false, arith,
}
use tracing_perfetto_file.Common.Lists.{All}
use tracing_perfetto_file.Common.Maps.{StaticStr}
use tracing_perfetto_file.Sequence.{Entries}

-- What a reader of the entries finds: the text of an iid, and the iid of a string.
unfoldable pub text_of : Entries → ℕ → Option StaticStr
text_of [] i = none
text_of ((j, s) ∷ log) i = if j == i then some s else text_of log i

unfoldable pub iid_of : Entries → ℕ → Option ℕ
iid_of [] k = none
iid_of ((i, s) ∷ log) k = if s.ptr == k then some i else iid_of log k

if_or_else {ℓ} :
    {A : Type ℓ} (b : Bool) (x : A) (rest more : Option A)
    → (if b then some x else or_else rest more) ≡ or_else (if b then some x else rest) more
if_or_else true x rest more = refl
if_or_else false x rest more = refl

pub text_of-append :
    (log more : Entries) (i : ℕ)
    → text_of (log ++ more) i ≡ or_else (text_of log i) (text_of more i)
unfolding text_of
text_of-append [] more i = refl
text_of-append ((j, s) ∷ log) more i =
    rw (text_of-append log more i) (if_or_else (j == i) s (text_of log i) (text_of more i))

pub iid_of-append :
    (log more : Entries) (k : ℕ) → iid_of (log ++ more) k ≡ or_else (iid_of log k) (iid_of more k)
unfolding iid_of
iid_of-append [] more k = refl
iid_of-append ((i, s) ∷ log) more k =
    rw (iid_of-append log more k) (if_or_else (s.ptr == k) i (iid_of log k) (iid_of more k))

pub text_of-fresh :
    (log : Entries) (n i : ℕ) → All (λ e. e.0 ≤ n) log → n < i → text_of log i ≡ none
unfolding text_of
text_of-fresh [] n i below h = refl
text_of-fresh ((j, s) ∷ log) n i (low, below) h = ground (arith, text_of-fresh log n i below h)

pub All-append :
    (P : ℕ × StaticStr → Type 0) (log : Entries) (e : ℕ × StaticStr)
    → All P log
    → P e
    → All P (log ++ e ∷ [])
All-append P [] e a p = (p, tt)
All-append P (d ∷ log) e (q, a) p = (q, All-append P log e a p)

pub All-weaken : (log : Entries) (n m : ℕ) → n ≤ m → All (λ e. e.0 ≤ n) log → All (λ e. e.0 ≤ m) log
All-weaken [] n m h a = tt
All-weaken (d ∷ log) n m h (low, a) = (omega arith, All-weaken log n m h a)
