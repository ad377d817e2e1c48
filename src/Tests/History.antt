-- ===== src/Tests/History.antt =====
-- The history buffer's theorems at concrete buffers.
use smolmux.Base.{
  codes, ℕ, ◌-◌, true, false, ◌&&◌, List, [], ◌∷◌, ◌≡◌, refl, arith, Bytes, length, drop, ◌⊎◌,
}
use smolmux.History.{RingBuffer, Memory, init, append}
use smolmux.History.Inv.{IsValid, stream, init-IsValid}
use smolmux.History.Append.{Recorded, Ignored, append-outcome}
use smolmux.History.Feed.{feed, fed, feed_lem}
use smolmux.History.Query.{get_since_seq}
use smolmux.History.Query.Cursor.{IsPage, wanted, get_since_seq-IsPage}

-- Three calls of 3 bytes on a buffer of 4.
abbrev calls : List (Bytes × ℕ)
calls = (codes "abc", 1) ∷ (codes "def", 1) ∷ (codes "ghi", 2) ∷ []

abbrev full : RingBuffer
full = feed (init [] 4) calls

feed_lem_example :
    (stream full ≡ drop (length (fed calls) - 4) (fed calls))
    × (full.total_seq ≡ length (fed calls))
    × IsValid full
feed_lem_example = feed_lem [] 4 calls

full-IsValid : IsValid full
full-IsValid = feed_lem_example.2

abbrev no_table : Memory
no_table = record { grow = false; table = false; chunk = true }

append-outcome_example :
    Recorded (init [] 4) (codes "xyz") (append no_table (init [] 4) (codes "xyz") 7)
    ⊎ (Ignored (init [] 4) (append no_table (init [] 4) (codes "xyz") 7)
        × ((false && true) ≡ false))
append-outcome_example =
    append-outcome no_table (init [] 4) (codes "xyz") 7 (init-IsValid [] 4) (omega arith)

abbrev over : RingBuffer
over = record full { max_bytes = 2 }

get_since_seq-IsPage_example :
    IsPage full (wanted full 6) 2 (get_since_seq true full 6 2)
    × ((get_since_seq true full 6 2).dropped ≡ full.first_seq - 6)
get_since_seq-IsPage_example =
    get_since_seq-IsPage full 6 2 full-IsValid.core (omega (arith, feed_lem_example.1, nine))
  where
    nine : length (fed calls) ≡ 9
    nine = unfold fed in refl
