-- ===== src/Runtime/Output/Interleave/Logs.antt =====
-- Logs of packets.
use tracing_perfetto_file.Common.{
  ℕ, ◌≡◌, refl, sym, ap, ◌∙◌, List, [], ◌∷◌, ◌++◌, arith, append_assoc, ◌==◌, if◌then◌else◌,
}
use tracing_perfetto_file.Runtime.Output.Interleave.{bytes_of, packets_of, label, joined}

pub bytes_of-append : (xs ys : List (ℕ × List ℕ)) → bytes_of (xs ++ ys) ≡ bytes_of xs ++ bytes_of ys
bytes_of-append [] ys = refl
bytes_of-append ((i, p) ∷ xs) ys =
    ap (◌++◌ p) (bytes_of-append xs ys) ∙ sym (append_assoc p (bytes_of xs) (bytes_of ys))

pub bytes_of-label : (i : ℕ) (ps : List (List ℕ)) → bytes_of (label i ps) ≡ joined ps
bytes_of-label i [] = refl
bytes_of-label i (p ∷ ps) = ap (◌++◌ p) (bytes_of-label i ps)

pub joined-append : (xs ys : List (List ℕ)) → joined (xs ++ ys) ≡ joined xs ++ joined ys
joined-append [] ys = refl
joined-append (p ∷ xs) ys =
    ap (◌++◌ p) (joined-append xs ys) ∙ sym (append_assoc p (joined xs) (joined ys))

pub packets_of-append :
    (j : ℕ) (xs ys : List (ℕ × List ℕ))
    → packets_of j (xs ++ ys) ≡ packets_of j xs ++ packets_of j ys
packets_of-append j [] ys = refl
packets_of-append j ((i, p) ∷ xs) ys = ground (arith, packets_of-append j xs ys)

pub packets_of-label :
    (i j : ℕ) (ps : List (List ℕ)) → packets_of j (label i ps) ≡ (if i == j then ps else [])
packets_of-label i j [] = ground arith
packets_of-label i j (p ∷ ps) = ground (arith, packets_of-label i j ps)
