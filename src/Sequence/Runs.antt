-- ===== src/Sequence/Runs.antt =====
-- Interned strings at concrete inputs, and the theorems at them.
use tracing_perfetto_file.Common.{
  ℕ, ◌≡◌, refl, List, [], ◌∷◌, map, some, arith, ◌==◌, if◌then◌else◌,
}
use tracing_perfetto_file.Common.Maps.{StaticStr, get, insert}
use tracing_perfetto_file.Sequence.{after_reserved, intern, intern_found, intern_miss}
use tracing_perfetto_file.Sequence.Interning.{Resolves, intern-Resolves, after_reserved-Interned}
use tracing_perfetto_file.Sequence.Dictionary.{packets, intern_all, read_back, packets-read_back}

abbrev open_name : StaticStr
open_name = record { ptr = 100; text = 111 ∷ [] }

abbrev close_name : StaticStr
close_name = record { ptr = 200; text = 99 ∷ 108 ∷ [] }

abbrev text_at : ℕ → List ℕ
text_at k = if k == 100 then 111 ∷ [] else 99 ∷ 108 ∷ []

abbrev two_packets : List (List StaticStr)
two_packets = (open_name ∷ close_name ∷ open_name ∷ []) ∷ (close_name ∷ open_name ∷ []) ∷ []

-- One reserved iid: the names get 2 and 3, and only the first packet has entries.
two_packets_iids :
    packets (after_reserved 1) two_packets
    ≡ (2 ∷ 3 ∷ 2 ∷ [], (2, open_name) ∷ (3, close_name) ∷ []) ∷ (3 ∷ 2 ∷ [], []) ∷ []
unfolding packets intern_all intern intern_found intern_miss after_reserved get insert
two_packets_iids = refl

intern-Resolves_example :
    let (iid, n', pending') = intern (after_reserved 1) open_name [] in
    Resolves 1 [] [] open_name iid n' pending'
intern-Resolves_example =
    intern-Resolves 1 (after_reserved 1) [] [] open_name (after_reserved-Interned 1) (omega arith)
      (unfold after_reserved in omega arith)

packets-read_back_example :
    read_back [] (packets (after_reserved 1) two_packets) ≡ map (map (λ s. some s.text)) two_packets
packets-read_back_example =
    packets-read_back 1 text_at two_packets
      (
        (((omega arith), refl), (((omega arith), refl), (((omega arith), refl), tt))),
        ((((omega arith), refl), (((omega arith), refl), tt)), tt),
      )
      (omega arith)
