-- ===== src/Regex/Risk/Overrun.antt =====
-- A class with no closing bracket: `skip_char_class` stops at the NUL, and the loop goes on behind it.
use smolmux.Base.{
  ℕ, zero, suc, ◌<◌, Bool, true, false, not, ◌&&◌, ◌||◌, none, some, List, [], ◌∷◌, ◌++◌, ◌≡◌, ◌≢◌,
  refl, arith, Bytes, ◌==◌, length, Bool-cases, inl, inr,
}
use smolmux.Regex.Risk.{
  Verdict, overrun, Risk, Level, Step, stop, go, step, scan, class_loop, skip_char_class, skip_byte,
  close_group, quantifier_step, skip_pair, class_step, check_redos_risk, start, stop_or,
  check_quantified_group, reset, finish,
}

abbrev pub absent : ℕ → Bytes → Bool
absent b [] = true
absent b (c ∷ s) = not (c == b) && absent b s

-- A byte that the scan passes over with nothing but a reset of the wildcard count.
abbrev pub is_plain : ℕ → Bool
is_plain c = not (
    c == b'\\'
    || c == b'['
    || c == b'('
    || c == b')'
    || c == b'|'
    || c == b'+'
    || c == b'*'
    || c == b'{'
    || c == b'.')

abbrev pub all_plain : Bytes → Bool
all_plain [] = true
all_plain (c ∷ s) = is_plain c && all_plain s

class_loop-absent : (s : Bytes) → absent b']' s ≡ true → class_loop s ≡ none
unfolding class_loop
class_loop-absent [] h = refl
class_loop-absent (c ∷ []) h = ground arith
class_loop-absent (c ∷ d ∷ s) h = elim (Bool-cases (c == b']')) [
  | inl e ↦ absurd (false_true (rw e at h))
  | inr e ↦ elim (Bool-cases (c == b'\\')) [
    | inl f ↦ rw (e, f, class_loop) (class_loop-absent s (ground arith))
    | inr f ↦ rw (e, f, class_loop) (class_loop-absent (d ∷ s) (ground arith))
  ]
]
  where
    false_true : false ≡ true → ⊥
    false_true h = cc

skip_byte-absent : (b x : ℕ) (s : Bytes) → absent x s ≡ true → absent x (skip_byte b s) ≡ true
unfolding skip_byte
skip_byte-absent b x [] h = refl
skip_byte-absent b x (c ∷ s) h = ground arith

skip_char_class-absent : (s : Bytes) → absent b']' s ≡ true → skip_char_class s ≡ none
unfolding skip_char_class
skip_char_class-absent s h =
    class_loop-absent _ (skip_byte-absent b']' b']' _ (skip_byte-absent b'^' b']' s h))

step_plain :
    (prev c : ℕ) (s : Bytes) (r : Risk) → is_plain c ≡ true → step prev c s r ≡ go c s (reset r)
unfolding step
step_plain prev c s r h = ground arith

step_open_class :
    (prev : ℕ) (s : Bytes) (r : Risk) → skip_char_class s ≡ none → step prev b'[' s r ≡ stop overrun
unfolding step class_step
step_open_class prev s r h = ground arith

scan_overrun :
    (pre cls : Bytes) (fuel prev : ℕ) (r : Risk)
    → all_plain pre ≡ true
    → absent b']' cls ≡ true
    → length (pre ++ b'[' ∷ cls) < fuel
    → scan fuel prev (pre ++ b'[' ∷ cls) r ≡ some overrun
unfolding scan
scan_overrun pre cls zero prev r p a h = absurd (omega arith)
scan_overrun [] cls (suc fuel) prev r p a h =
    rw (step_open_class prev cls r (skip_char_class-absent cls a), scan) refl
scan_overrun (c ∷ pre) cls (suc fuel) prev r p a h =
    rw (step_plain prev c (pre ++ b'[' ∷ cls) r (ground arith), scan)
      (scan_overrun pre cls fuel c (reset r) (ground arith) a (omega arith))

-- On a pattern with plain bytes, a `[` and no `]` behind it, the check reads behind the pattern's
-- terminating NUL.
pub check_redos_risk_overrun :
    (pre cls : Bytes)
    → all_plain pre ≡ true
    → absent b']' cls ≡ true
    → check_redos_risk (pre ++ b'[' ∷ cls) ≡ some overrun
unfolding check_redos_risk
check_redos_risk_overrun pre cls p a = scan_overrun pre cls _ 0 start p a (omega arith)

-- A step that does not read behind the pattern, and leaves no bracket.
abbrev Safe : Step → Type 0
Safe (stop v) = v ≢ overrun
Safe (go last rest r) = absent b'[' rest ≡ true

close_group-Safe :
    (s : Bytes) (r : Risk) (outer : List Level)
    → absent b'[' s ≡ true
    → Safe (close_group s r outer)
unfolding close_group stop_or check_quantified_group
close_group-Safe s r [] h = h
close_group-Safe s r (parent ∷ outer) h = grind arith

skip_pair-Safe : (c : ℕ) (s : Bytes) (r : Risk) → absent b'[' s ≡ true → Safe (skip_pair c s r)
unfolding skip_pair
skip_pair-Safe c [] r h = h
skip_pair-Safe c (d ∷ s) r h = ground arith

step-Safe :
    (prev c : ℕ) (s : Bytes) (r : Risk) → absent b'[' (c ∷ s) ≡ true → Safe (step prev c s r)
unfolding step quantifier_step
step-Safe prev c s r h = grind (arith, skip_pair-Safe c s r, close_group-Safe s r r.outer)

scan-Safe :
    (fuel prev : ℕ) (s : Bytes) (r : Risk)
    → absent b'[' s ≡ true
    → scan fuel prev s r ≢ some overrun
unfolding scan finish
scan-Safe zero prev s r h = λ e. cc
scan-Safe (suc fuel) prev [] r h = λ e. ground arith
scan-Safe (suc fuel) prev (c ∷ s) r h =
    after (step prev c s r) refl (step-Safe prev c s r h)
      (λ last rest r'. scan-Safe fuel last rest r')
  where
    after :
        (t : Step)
        → step prev c s r ≡ t
        → Safe t
        → ((last : ℕ) (rest : Bytes) (r' : Risk)
            → absent b'[' rest ≡ true
            → scan fuel last rest r' ≢ some overrun)
        → scan (suc fuel) prev (c ∷ s) r ≢ some overrun
    after (stop v) e safe ih = rw (e, scan) (λ h. safe (some-injective' v h))
      where
        some-injective' : (v : Verdict) → some v ≡ some overrun → v ≡ overrun
        some-injective' v h = cc
    after (go last rest r') e safe ih = rw (e, scan) (ih last rest r' safe)

-- A pattern with no `[` is read inside its bounds.
pub check_redos_risk_in_bounds :
    (pattern : Bytes) → absent b'[' pattern ≡ true → check_redos_risk pattern ≢ some overrun
unfolding check_redos_risk
check_redos_risk_in_bounds pattern h = scan-Safe (suc (length pattern)) 0 pattern start h
