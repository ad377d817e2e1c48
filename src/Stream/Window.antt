-- ===== src/Stream/Window.antt =====
-- The sliding window of src/boot_stage.c and src/autoresponder.c, whose `window_append` are the same
-- text. The byte behind the window is its NUL.
pub mod Laws
use smolmux.Base.{ℕ, ◌+◌, ◌-◌, Bytes, List, [], ◌++◌, ltb, leb, ◌==◌, if◌then◌else◌, length, drop}

pub record Window : Type 0 where
  pub bytes : Bytes
  pub cap : ℕ
  pub search_offset : ℕ

abbrev pub empty_window : ℕ → Window
empty_window cap = record { bytes = []; cap = cap; search_offset = 0 }

-- `window_append`
pub window_append : Window → Bytes → Window
window_append w input =
    let keep = w.cap - 1 in
    let need = length w.bytes + length input - keep in
    if w.cap == 0
    then w
    else if leb w.cap (length input)
    then record w { bytes = drop (length input - keep) input; search_offset = 0 }
    else if ltb keep (length w.bytes + length input)
    then record w {
      bytes = drop need w.bytes ++ input;
      search_offset = if ltb need w.search_offset then w.search_offset - need else 0;
    }
    else record w { bytes = w.bytes ++ input }
