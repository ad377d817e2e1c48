-- ===== src/Stream/Anomaly.antt =====
-- Parts of src/anomaly.c: the literal prefilter, the table of patterns, the bytes kept as context and
-- the room in the window. Times are milliseconds; the regex engine is a `Matcher`.
pub mod Prefilter
pub mod Context
use smolmux.Base.{
  ℕ, zero, suc, ◌+◌, ◌-◌, ◌*◌, ◌/◌, Bool, true, false, not, ◌&&◌, ◌||◌, Option, none, some, List,
  [], ◌∷◌, ◌++◌, Bytes, ltb, leb, ◌==◌, if◌then◌else◌, length, take, drop, copied, same_text,
}
use smolmux.Stream.Matcher.{Matcher}
use smolmux.Stream.Window.{Window}

abbrev pub max_patterns : ℕ
max_patterns = 64

abbrev pub max_window : ℕ
max_window = 65536

abbrev pub context_size : ℕ
context_size = 1024

-- `memmem` finds the needle, which is not empty.
pub occurs : Bytes → Bytes → Bool
occurs needle [] = false
occurs needle (c ∷ s) = same_text needle (take (length needle) (c ∷ s)) || occurs needle s

-- One needle of the loop of `region_has_literal`; it is cut to 31 bytes.
pub has_needle : Bytes → Bytes → Bool
has_needle region [] = false
has_needle region (c ∷ needle) = occurs (take 31 (c ∷ needle)) region

-- The loop, with the bytes of the current needle that were passed.
pub has_some_needle : Bytes → Bytes → Bytes → Bool
has_some_needle region needle [] = has_needle region needle
has_some_needle region needle (c ∷ literal) =
    if c == b';'
    then has_needle region needle || has_some_needle region [] literal
    else has_some_needle region (needle ++ c ∷ []) literal

pub region_has_literal : Bytes → Bytes → Bool
region_has_literal region [] = true
region_has_literal region (c ∷ literal) = has_some_needle region [] (c ∷ literal)

unfoldable pub is_meta : ℕ → Bool
is_meta c =
    c == b'['
    || c == b'('
    || c == b'.'
    || c == b'*'
    || c == b'+'
    || c == b'?'
    || c == b'|'
    || c == b'\\'
    || c == b'^'
    || c == b'$'

pub literal_run : ℕ → Bytes → Bytes
literal_run zero s = []
literal_run (suc room) [] = []
literal_run (suc room) (c ∷ s) = if is_meta c then [] else c ∷ literal_run room s

pub trim_spaces : Bytes → Bytes
trim_spaces [] = []
trim_spaces (c ∷ s) =
    let rest = trim_spaces s in if c == 32 && length rest == 0 then [] else c ∷ rest

-- `extract_literal_prefix` into a buffer of `size` bytes.
pub extract_literal_prefix : Bytes → ℕ → Bytes
extract_literal_prefix pattern size = trim_spaces (literal_run (size - 1) pattern)

-- `sm_anomaly_pattern_t`
pub record Pattern (E : Type 0) : Type 0 where
  pub name : Bytes
  pub severity : Bytes
  pub literal : Bytes
  pub compiled : E
  pub last_fire_time : ℕ

module _ {E : Type 0} where
  pub has_pattern : List (Pattern E) → Bytes → Bool
  has_pattern [] name = false
  has_pattern (p ∷ ps) name = same_text p.name name || has_pattern ps name

  -- A pattern of the same name is replaced, in its place.
  pub replace_pattern : List (Pattern E) → Bytes → (Pattern E → Pattern E) → List (Pattern E)
  replace_pattern [] name change = []
  replace_pattern (p ∷ ps) name change =
      let rest = replace_pattern ps name change in
      if same_text p.name name then change p ∷ ps else p ∷ rest

  add_compiled : Bool → List (Pattern E) → ℕ → Bytes → Bytes → Bytes → E → Bool × List (Pattern E)
  add_compiled ok ps cap_now name pattern severity e =
      let literal = extract_literal_prefix pattern 48 in
      let p : Pattern E = record {
        name = copied 64 name;
        severity = copied 16 severity;
        literal = literal;
        compiled = e;
        last_fire_time = 0;
      } in
      if has_pattern ps name
      then (true, replace_pattern ps name (λ old. record p { name = old.name }))
      else if leb max_patterns (length ps)
      then (false, ps)
      else if leb cap_now (length ps) && not ok
      then (false, ps)
      else (true, ps ++ p ∷ [])

  -- `sm_anomaly_add_pattern` with arguments that are not NULL, on the table and its capacity. The flag
  -- is the success of the table's `realloc`.
  pub add_pattern :
      Matcher E → Bool → List (Pattern E) → ℕ → Bytes → Bytes → Bytes → Bool × List (Pattern E)
  unfolding add_compiled
  add_pattern m ok ps cap_now name pattern severity =
      if length name == 0 then (false, ps) else (elim (m.compile pattern) [
        | none ↦ (false, ps)
        | some e ↦ add_compiled ok ps cap_now name pattern severity e
      ])

  set_last_literal : List (Pattern E) → Bytes → List (Pattern E)
  set_last_literal [] literal = []
  set_last_literal (p ∷ []) literal = record p { literal = copied 48 literal } ∷ []
  set_last_literal (p ∷ q ∷ ps) literal = p ∷ set_last_literal (q ∷ ps) literal

  -- `add_builtin`: the literal goes to the last pattern of the table.
  pub add_builtin :
      Matcher E
      → Bool
      → List (Pattern E)
      → ℕ
      → Bytes
      → Bytes
      → Bytes
      → Bytes
      → Bool × List (Pattern E)
  unfolding set_last_literal
  add_builtin m ok ps cap_now name pattern severity literal =
      let (added, ps') = add_pattern m ok ps cap_now name pattern severity in
      if added then (true, set_last_literal ps' literal) else (false, ps')

  -- Is the pattern looked for in the region: is its cooldown over, and does the prefilter pass?
  pub is_searched : ℕ → ℕ → Bytes → Pattern E → Bool
  is_searched ts cooldown region p =
      not (ltb 0 p.last_fire_time && ltb ts (p.last_fire_time + cooldown))
      && region_has_literal region p.literal

-- The pre-context of `sm_anomaly_feed`.
pub push_context : Bytes → Bytes → Bytes
push_context context input =
    let avail = context_size - length context in
    if leb context_size (length input)
    then drop (length input - context_size) input
    else if leb (length input) avail
    then context ++ input
    else drop (length input - avail) context ++ input

-- The start of `sm_anomaly_feed`: a window that is too long loses its oldest bytes.
pub trim_window : Window → Window
trim_window w =
    let removed = length w.bytes - 4096 in
    if ltb 8192 (length w.bytes)
    then record w {
      bytes = drop removed w.bytes;
      search_offset = if ltb removed w.search_offset then w.search_offset - removed else 0;
    }
    else w

-- Where the window may not grow any more, its oldest bytes make room.
pub discard_oldest : Window → ℕ → Window
discard_oldest w len =
    let half = w.cap / 2 in
    let want = if ltb half len then len else half in
    let keep = if ltb (length w.bytes) want then length w.bytes else want in
    let removed = length w.bytes - keep in
    if ltb len (length w.bytes)
    then record w {
      bytes = drop removed w.bytes;
      search_offset = if ltb removed w.search_offset then w.search_offset - removed else 0;
    }
    else record w { bytes = []; search_offset = 0 }
