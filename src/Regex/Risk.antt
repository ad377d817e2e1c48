-- ===== src/Regex/Risk.antt =====
-- `check_redos_risk`. A pattern is the list of its bytes, none of them NUL. Where the code reads behind the
-- terminating NUL, which is undefined in C and depends on bytes that are not the pattern's, the model stops
-- with `overrun`: no verdict of the code, only the mark of that place.
pub mod Total
pub mod Overrun
use smolmux.Base.{
  ℕ, zero, suc, ◌+◌, Bool, true, false, ◌&&◌, ◌||◌, Option, none, some, List, [], ◌∷◌, Bytes, ltb,
  leb, ◌==◌, if◌then◌else◌, length,
}

pub data Verdict : Type 0 where
  accepted : Verdict
  nested_quantifier quantified_alternation too_deep repeated_wildcards : Verdict
  too_many_quantifiers : Verdict
  overrun : Verdict

-- `has_quantifier[depth]` and `has_alternation[depth]`.
pub record Level : Type 0 where
  pub quantifier : Bool
  pub alternation : Bool

abbrev pub clear : Level
clear = record { quantifier = false; alternation = false }

-- The loop's variables. The arrays are read at `depth` and below only, and an entry is cleared when
-- `depth` comes to it: `level` is the entry at `depth`, `outer` those below it, and `depth` is the
-- length of `outer`.
pub record Risk : Type 0 where
  pub level : Level
  pub outer : List Level
  pub wildcards : ℕ
  pub total : ℕ

abbrev pub start : Risk
start = record { level = clear; outer = []; wildcards = 0; total = 0 }

abbrev pub max_depth : ℕ
max_depth = 32

pub is_quantifier : ℕ → Bool
is_quantifier c = c == b'+' || c == b'*' || c == b'?' || c == b'{'

-- `p[1]` at the end of a pattern is the NUL.
abbrev pub next_byte : Bytes → ℕ
next_byte [] = 0
next_byte (c ∷ s) = c

-- The loop of `skip_char_class`: the bytes behind the closing bracket, `none` when the loop stops
-- at the NUL.
pub class_loop : Bytes → Option Bytes
class_loop [] = none
class_loop (c ∷ []) = if c == b']' then some [] else none
class_loop (c ∷ d ∷ s) =
    let behind_pair = class_loop s in
    let behind_one = class_loop (d ∷ s) in
    if c == b']' then some (d ∷ s) else if c == b'\\' then behind_pair else behind_one

skip_byte : ℕ → Bytes → Bytes
skip_byte b [] = []
skip_byte b (c ∷ s) = if c == b then s else c ∷ s

-- `skip_char_class`, on the bytes behind the opening bracket.
pub skip_char_class : Bytes → Option Bytes
skip_char_class s = class_loop (skip_byte b']' (skip_byte b'^' s))

-- `check_quantified_group`; `none` is its result 0.
pub check_quantified_group : Level → Option Verdict
check_quantified_group l =
    if l.quantifier
    then some nested_quantifier
    else if l.alternation
    then some quantified_alternation
    else none

-- A closing group folds its risk into the enclosing one.
pub fold_level : Level → Bool → Level → Level
fold_level child quantified parent = record {
  quantifier = parent.quantifier || (child.quantifier || quantified);
  alternation = parent.alternation || child.alternation;
}

abbrev pub reset : Risk → Risk
reset r = record r { wildcards = 0 }

-- A step: the end of the scan, or the bytes that were passed (the last of them, for `p[-1]`), the
-- bytes left, and the new variables.
pub data Step : Type 0 where
  stop : Verdict → Step
  go : ℕ → Bytes → Risk → Step

stop_or : Option Verdict → Step → Step
stop_or none next = next
stop_or (some v) next = stop v

-- At `)`, with the levels below the current one.
pub close_group : Bytes → Risk → List Level → Step
unfolding stop_or
close_group s r [] = go b')' s (reset r)
close_group s r (parent ∷ outer) =
    let quantified = is_quantifier (next_byte s) in
    stop_or (if quantified then check_quantified_group r.level else none)
      (go b')' s (record (reset r) { level = fold_level r.level quantified parent; outer = outer }))

abbrev pub inside : Risk → Bool
inside r = ltb 0 (length r.outer)

abbrev pub counted : Risk → Risk
counted r = record r {
  total = r.total + 1;
  level = record { quantifier = r.level.quantifier || inside r; alternation = r.level.alternation };
}

-- `+`, `*` or `{` behind the byte `prev`.
pub quantifier_step : ℕ → ℕ → Bytes → Risk → Step
quantifier_step prev c s r =
    if prev == b'.'
    then (if leb 3 (r.wildcards + 1)
        then stop repeated_wildcards
        else go c s (record (counted r) { wildcards = r.wildcards + 1 }))
    else go c s (reset (counted r))

-- At a backslash that is not the last byte, both bytes are passed.
skip_pair : ℕ → Bytes → Risk → Step
skip_pair c [] r = go c [] r
skip_pair c (d ∷ rest) r = go d rest (reset r)

class_step : Option Bytes → Risk → Step
class_step none r = stop overrun
class_step (some behind) r = go b']' behind (reset r)

-- The loop body at the byte `c`, with `s` behind it.
pub step : ℕ → ℕ → Bytes → Risk → Step
unfolding skip_pair class_step
step prev c s r =
    if c == b'\\' && ltb 0 (length s)
    then skip_pair c s r
    else if c == b'['
    then class_step (skip_char_class s) r
    else if c == b'('
    then (if leb max_depth (length r.outer + 1)
        then stop too_deep
        else go c s (record r { level = clear; outer = r.level ∷ r.outer; wildcards = 0 }))
    else if c == b')'
    then close_group s r r.outer
    else if c == b'|'
    then go c s (record (reset r) {
      level = record {
        quantifier = r.level.quantifier;
        alternation = r.level.alternation || inside r;
      };
    })
    else if c == b'+' || c == b'*' || c == b'{'
    then quantifier_step prev c s r
    else if c == b'.'
    then go c s r
    else go c s (reset r)

pub finish : Risk → Verdict
finish r = if ltb 20 r.total then too_many_quantifiers else accepted

-- The loop; `none` when the fuel runs out. `prev` is `p[-1]`, 0 at the start.
pub scan : ℕ → ℕ → Bytes → Risk → Option Verdict
scan zero prev s r = none
scan (suc fuel) prev [] r = some (finish r)
scan (suc fuel) prev (c ∷ s) r = elim (step prev c s r) [
  | stop v ↦ some v
  | go last rest r' ↦ scan fuel last rest r'
]

-- Each round passes a byte at least.
pub check_redos_risk : Bytes → Option Verdict
check_redos_risk pattern = scan (suc (length pattern)) 0 pattern start
