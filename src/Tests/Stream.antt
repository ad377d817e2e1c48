-- ===== src/Tests/Stream.antt =====
-- The theorems on the watchers of the output, with a matcher that looks for a word.
use smolmux.Base.{
  codes, ℕ, suc, ◌≤◌, true, false, Option, none, some, List, [], ◌∷◌, ◌++◌, ◌≡◌, refl, arith, Bytes,
  if◌then◌else◌, length, take, same_text, Option-cases, Bool-cases, inl, inr,
}
use smolmux.Stream.Matcher.{Matcher}
use smolmux.Stream.Window.{Window, empty_window, window_append}
use smolmux.Stream.Window.Laws.{Appended, window_append-Appended}
use smolmux.Stream.Anomaly.{region_has_literal, extract_literal_prefix, occurs, is_meta}
use smolmux.Stream.Anomaly.Prefilter.{prefilter_alternation}
use smolmux.Stream.Boot
use smolmux.Stream.Boot.Progress
use smolmux.Stream.Expect
use smolmux.Stream.Expect.Limits
use smolmux.Stream.Expect.Pending.{Swept, collect-Swept}
use smolmux.Stream.Expect.Buffer
use smolmux.Stream.Autoresponder
use smolmux.Stream.Autoresponder.Firing.{run_shots, run_shots_once}

abbrev later : Option ℕ → Option ℕ
later none = none
later (some off) = some (suc off)

abbrev index_of : Bytes → Bytes → Option ℕ
index_of word [] = none
index_of word (c ∷ s) =
    let rest = later (index_of word s) in
    if same_text word (take (length word) (c ∷ s)) then some 0 else rest

index_of-within : (word s : Bytes) (off : ℕ) → index_of word s ≡ some off → off ≤ length s
index_of-within word [] off h = absurd (ground arith)
index_of-within word (c ∷ s) off h =
    elim (Bool-cases (same_text word (take (length word) (c ∷ s)))) [
      | inl here ↦ ground arith
      | inr there ↦ elim (Option-cases (index_of word s)) [
        | inl miss ↦ absurd (ground arith)
        | inr (n, found) ↦ ground (arith, index_of-within word s n found)
      ]
    ]

abbrev words : Matcher Bytes
words = record {
  compile = some;
  exec = λ word s. (index_of word s, word);
  within = index_of-within;
}

abbrev small_window : Window
small_window = window_append (empty_window 4) (b'a' ∷ b'b' ∷ [])

small_window-Appended : Appended (empty_window 4) (b'a' ∷ b'b' ∷ []) small_window
small_window-Appended =
    window_append-Appended (empty_window 4) (b'a' ∷ b'b' ∷ []) (omega arith)
      (record { fits = λ h. h; scanned = omega arith })

window_append-Appended_example :
    Appended small_window (b'c' ∷ b'd' ∷ []) (window_append small_window (b'c' ∷ b'd' ∷ []))
window_append-Appended_example =
    window_append-Appended small_window (b'c' ∷ b'd' ∷ [])
      (omega (arith, small_window-Appended.same_cap)) small_window-Appended.valid

abbrev stage : Bytes → Boot.Stage Bytes
stage word = record {
  name = word;
  pattern = word;
  compiled = word;
  reached = false;
  announced = false;
  reached_ts = 0;
}

abbrev boot : Boot.Tracker Bytes
boot = record {
  stages = stage (codes "SPL") ∷ stage (b'L' ∷ b'x' ∷ []) ∷ [];
  stage_cap = 8;
  ahead = 0;
  last_advance_ts = 0;
  stall_timeout = 10000;
  window = empty_window 8192;
}

feed-Advanced_example : Progress.Advanced boot (Boot.feed words boot (codes "SPL") 5)
feed-Advanced_example = Progress.feed-Advanced words boot (codes "SPL") 5 (record {
  window = record { fits = λ h. omega arith; scanned = omega arith };
  top = refl;
  few = omega arith;
})

add-Outcome_example : Limits.Outcome Expect.init (
    Expect.add words true true 10 Expect.init (b'e' ∷ b'1' ∷ []) (codes "login:") 500 (codes "cli"))
add-Outcome_example =
    Limits.add-Outcome words true true 10 Expect.init (b'e' ∷ b'1' ∷ []) (codes "login:") 500
      (codes "cli") Limits.init-IsValid (omega arith)

abbrev waiting : Expect.Request Bytes
waiting = record {
  id = (b'e' ∷ b'1' ∷ []);
  compiled = codes "login:";
  pattern = codes "login:";
  deadline = 500;
  buffer = codes "log";
  buf_cap = 4096;
  search_offset = 3;
  matched = false;
  aborted = false;
  client_id = codes "cli";
  abort_reason = [];
  abort_pattern = [];
}

abbrev two : Expect.Expects Bytes
two = record { requests = waiting ∷ record waiting { matched = true } ∷ []; capacity = 16 }

collect-Swept_example :
    let (gone, left) = Expect.collect two 100 8 in
    Swept (Expect.is_done 100) 8 two.requests gone left.requests
collect-Swept_example = collect-Swept two 100 8

feed_request-Fed_example :
    Buffer.Fed waiting
      (codes "in: ")
      (λ _. true)
      (Expect.feed_request words (λ _. true) (codes "in: ") waiting)
feed_request-Fed_example =
    Buffer.feed_request-Fed words (λ _. true) (codes "in: ") waiting
      (record { few = omega arith; block = omega arith; scanned = omega arith }) refl

abbrev responder : Autoresponder.Autoresponder Bytes
responder = record {
  rules =
      record {
        name = codes "login";
        pattern = codes "login:";
        compiled = codes "login:";
        response = codes "root\n";
        once = true;
        enabled = true;
        cooldown = 1000;
        last_fire_time = 0;
        created_by = [];
      }
      ∷ [];
  rule_cap = 8;
  window = empty_window 8192;
}

abbrev inputs : List (Bytes × ℕ)
inputs = (codes "login:", 10) ∷ (codes "\nlogin:", 5000) ∷ []

run_shots_once_example : run_shots words 8 0 responder inputs ≤ 1
run_shots_once_example = run_shots_once words 8 0 responder inputs refl

prefilter_alternation_example :
    region_has_literal
      (codes "a FAIL")
      (extract_literal_prefix ((b'E' ∷ (b'R' ∷ b'R' ∷ [])) ++ b'|' ∷ (codes "FAIL")) 48)
    ≡ occurs (b'E' ∷ (b'R' ∷ b'R' ∷ [])) (codes "a FAIL")
prefilter_alternation_example =
    prefilter_alternation b'E' (b'R' ∷ b'R' ∷ []) (codes "FAIL") (codes "a FAIL")
      (unfold is_meta in refl) (omega arith)
