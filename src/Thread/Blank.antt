-- ===== src/Thread/Blank.antt =====
-- No span gets the data of another (src/thread.rs).
use tracing_perfetto_file.Common.{◌≡◌, refl, List, [], ◌∷◌, Option, none, some}
use tracing_perfetto_file.Common.Lists.{All}
use tracing_perfetto_file.Runtime.{RetainedSpanData, default_retained, clear, clear_lem}
use tracing_perfetto_file.Thread.{
  Retained, new_retained, take_retained_span, put_retained, return_retained_span,
}

-- What a thread's spans do: one takes data, and one gives its data back.
pub data Use : Type 0 where
  take : Use
  give_back : RetainedSpanData → Use

-- The data that the takes get.
unfoldable pub taken : Retained → List Use → List RetainedSpanData
taken slots [] = []
taken slots (take ∷ uses) =
    let (retained, slots') = take_retained_span slots in retained ∷ taken slots' uses
taken slots (give_back retained ∷ uses) = taken (return_retained_span slots retained) uses

abbrev pub IsBlank : Option RetainedSpanData → Type 0
IsBlank none = Unit
IsBlank (some retained) = retained ≡ default_retained

pub take-IsBlank :
    (slots : Retained)
    → All IsBlank slots
    → ((take_retained_span slots).0 ≡ default_retained) × All IsBlank (take_retained_span slots).1
unfolding take_retained_span
take-IsBlank [] blank = (refl, tt)
take-IsBlank (none ∷ slots) (_, blank) = let (e, rest) = take-IsBlank slots blank in (e, (tt, rest))
take-IsBlank (some retained ∷ slots) (e, blank) = (e, (tt, blank))

put-IsBlank :
    (slots : Retained) (retained : RetainedSpanData)
    → retained ≡ default_retained
    → All IsBlank slots
    → All IsBlank (put_retained slots retained)
unfolding put_retained
put-IsBlank [] retained e blank = tt
put-IsBlank (none ∷ slots) retained e (_, blank) = (e, blank)
put-IsBlank (some old ∷ slots) retained e (old_blank, blank) =
    (old_blank, put-IsBlank slots retained e blank)

taken-blank :
    (slots : Retained) (uses : List Use)
    → All IsBlank slots
    → All (λ retained. retained ≡ default_retained) (taken slots uses)
unfolding taken return_retained_span
taken-blank slots [] blank = tt
taken-blank slots (take ∷ uses) blank =
    let (e, rest) = take-IsBlank slots blank in
    (e, taken-blank (take_retained_span slots).1 uses rest)
taken-blank slots (give_back retained ∷ uses) blank =
    taken-blank (put_retained slots (clear retained)) uses
      (put-IsBlank slots (clear retained) (clear_lem retained) blank)

pub new_retained-IsBlank : All IsBlank new_retained
unfolding new_retained
new_retained-IsBlank = (tt, (tt, (tt, (tt, tt))))

-- From a new thread, whatever its spans take and give back, each take gets blank data: no fields, no
-- flows, and no poll flow of an earlier span.
pub taken-default :
    (uses : List Use) → All (λ retained. retained ≡ default_retained) (taken new_retained uses)
taken-default uses = taken-blank new_retained uses new_retained-IsBlank
