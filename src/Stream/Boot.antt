-- ===== src/Stream/Boot.antt =====
-- src/boot_stage.c. Times are milliseconds; the regex engine is a `Matcher`.
pub mod Stages
pub mod Progress
use smolmux.Base.{
  ℕ, zero, suc, ◌+◌, ◌-◌, ◌*◌, Bool, true, false, not, ◌&&◌, ◌||◌, Option, none, some, List, [],
  ◌∷◌, ◌++◌, map, Bytes, ltb, leb, ◌==◌, if◌then◌else◌, length, drop, copied,
}
use smolmux.Stream.Matcher.{Matcher}
use smolmux.Stream.Window.{Window, empty_window, window_append}

abbrev pub max_stages : ℕ
max_stages = 32

abbrev pub window_bytes : ℕ
window_bytes = 8192

abbrev pub default_stall : ℕ
default_stall = 10000

abbrev pub overlap : ℕ
overlap = 256

-- `sm_boot_stage_t`
pub record Stage (E : Type 0) : Type 0 where
  pub name : Bytes
  pub pattern : Bytes
  pub compiled : E
  pub reached : Bool
  pub announced : Bool
  pub reached_ts : ℕ

-- `sm_boot_tracker_t`. The list holds the `stage_count` stages; `ahead` is `furthest + 1`, which is 0
-- for -1.
pub record Tracker (E : Type 0) : Type 0 where
  pub stages : List (Stage E)
  pub stage_cap : ℕ
  pub ahead : ℕ
  pub last_advance_ts : ℕ
  pub stall_timeout : ℕ
  pub window : Window

pub grown_cap : ℕ → ℕ
grown_cap old =
    let new_cap = if old == 0 then 8 else old * 2 in
    if ltb max_stages new_cap then max_stages else new_cap

-- What the loop of `sm_boot_feed` leaves: the stages, `furthest + 1`, the time of the last advance,
-- and the number of stages newly reached.
pub record Scan (E : Type 0) : Type 0 where
  pub stages : List (Stage E)
  pub ahead : ℕ
  pub last_advance_ts : ℕ
  pub newly : ℕ

abbrev pub search_start : Window → ℕ
search_start w = if ltb overlap w.search_offset then w.search_offset - overlap else 0

module _ {E : Type 0} where
  -- `sm_boot_init`; the flag is the success of its `malloc`.
  pub init : Bool → Tracker E
  init ok = record {
    stages = [];
    stage_cap = 0;
    ahead = 0;
    last_advance_ts = 0;
    stall_timeout = default_stall;
    window = empty_window (if ok then window_bytes else 0);
  }

  append_stage : Tracker E → Bytes → Bytes → Option E → Bool × Tracker E
  append_stage t name pattern none = (false, t)
  append_stage t name pattern (some e) =
      let s : Stage E = record {
        name = copied 64 name;
        pattern = copied 256 pattern;
        compiled = e;
        reached = false;
        announced = false;
        reached_ts = 0;
      } in
      (true, record t { stages = t.stages ++ s ∷ [] })

  -- `sm_boot_add_stage`; the first flag is the success of its `realloc`, the result's that of the call.
  pub add_stage : Matcher E → Bool → Tracker E → Bytes → Bytes → Bool × Tracker E
  unfolding append_stage
  add_stage m ok t name pattern =
      if leb max_stages (length t.stages)
      then (false, t)
      else if leb t.stage_cap (length t.stages)
      then (if ok
          then append_stage (record t { stage_cap = grown_cap t.stage_cap }) name pattern
              (m.compile pattern)
          else (false, t))
      else append_stage t name pattern (m.compile pattern)

  -- `sm_boot_set_stall_timeout` with a timeout that is not negative.
  pub set_stall_timeout : Tracker E → ℕ → Tracker E
  set_stall_timeout t timeout = if ltb 0 timeout then record t { stall_timeout = timeout } else t

  pub clear_stages : List (Stage E) → List (Stage E)
  clear_stages [] = []
  clear_stages (s ∷ ss) =
      record s { reached = false; announced = false; reached_ts = 0 } ∷ clear_stages ss

  -- `sm_boot_reset`
  pub reset : Tracker E → Tracker E
  reset t = record t { stages = clear_stages t.stages; ahead = 0; last_advance_ts = 0 }

  -- `sm_boot_restart`
  pub restart : Tracker E → Tracker E
  restart t =
      let r = reset t in record r { window = record r.window { bytes = []; search_offset = 0 } }

  -- What stage 0 in the new bytes does: the window starts with the marker, and the boot anew.
  pub reboot : Tracker E → Stage E → List (Stage E) → Option ℕ → Tracker E
  reboot t s ss none = record t { stages = s ∷ ss }
  reboot t s ss (some noff) = reset (record t {
    stages = s ∷ ss;
    window = record t.window {
      bytes = drop (t.window.search_offset + noff) t.window.bytes;
      search_offset = 0;
    };
  })

  -- The reboot heuristic of `sm_boot_feed`.
  pub check_reboot : Matcher E → Tracker E → List (Stage E) → Tracker E
  check_reboot m t [] = t
  check_reboot m t (s ∷ ss) =
      let (found, e) = m.exec s.compiled (drop t.window.search_offset t.window.bytes) in
      if leb 2 t.ahead then reboot t (record s { compiled = e }) ss found else t

  abbrev pub with_stage : Stage E → Scan E → Scan E
  with_stage s r = record r { stages = s ∷ r.stages }

  -- The loop, from the stage `i` on.
  pub scan_stages : Matcher E → Bytes → ℕ → ℕ → List (Stage E) → ℕ → ℕ → Scan E
  scan_stages m region ts i [] ahead last = record {
    stages = [];
    ahead = ahead;
    last_advance_ts = last;
    newly = 0;
  }
  scan_stages m region ts i (s ∷ ss) ahead last =
      let (found, e) = m.exec s.compiled region in
      elim s.reached [
        | true ↦ with_stage s (scan_stages m region ts (i + 1) ss ahead last)
        | false ↦ elim found [
          | none ↦
              with_stage (record s { compiled = e }) (scan_stages m region ts (i + 1) ss ahead last)
          | some off ↦
              let hit =
                scan_stages m region ts (i + 1) ss (if ltb ahead (i + 1) then i + 1 else ahead)
                  ts in
              record (with_stage (record s { compiled = e; reached = true; reached_ts = ts }) hit) {
                newly = hit.newly + 1;
              }
        ]
      ]

  pub finish_feed : Tracker E → Scan E → ℕ × Tracker E
  finish_feed t r = (
    r.newly,
    record t {
      stages = r.stages;
      ahead = r.ahead;
      last_advance_ts = r.last_advance_ts;
      window = record t.window { search_offset = length t.window.bytes };
    },
  )

  -- `sm_boot_feed`: the number of stages newly reached, and the tracker.
  pub feed : Matcher E → Tracker E → Bytes → ℕ → ℕ × Tracker E
  feed m t input ts =
      let fed = record t { window = window_append t.window input } in
      let t' = check_reboot m fed fed.stages in
      let region = drop (search_start t'.window) t'.window.bytes in
      if length input == 0 || length t.stages == 0 || t.window.cap == 0
      then (0, t)
      else finish_feed t' (scan_stages m region ts 0 t'.stages t'.ahead t'.last_advance_ts)

  pub last_reached : List (Stage E) → Bool
  last_reached [] = false
  last_reached (s ∷ []) = s.reached
  last_reached (s ∷ s' ∷ ss) = last_reached (s' ∷ ss)

  -- `sm_boot_terminal_reached`
  pub terminal_reached : Tracker E → Bool
  terminal_reached t = last_reached t.stages

  -- `sm_boot_stalled`
  pub stalled : Tracker E → ℕ → Bool
  stalled t now =
      if length t.stages == 0
      then false
      else if t.ahead == 0
      then false
      else if t.stall_timeout == 0
      then false
      else if t.last_advance_ts == 0
      then false
      else if terminal_reached t
      then false
      else ltb (t.last_advance_ts + t.stall_timeout) now
