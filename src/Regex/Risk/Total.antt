-- ===== src/Regex/Risk/Total.antt =====
-- The scan of the model passes over the pattern in as many rounds as it has bytes, at most. It stops where
-- the code reads behind the pattern, of which nothing is said here.
use smolmux.Base.{
  ℕ, zero, suc, ◌≤◌, ◌<◌, Option, none, some, List, [], ◌∷◌, ◌≡◌, refl, arith, Bytes, ◌==◌,
  if◌then◌else◌, length, Bool-cases, inl, inr,
}
use smolmux.Regex.Risk.{
  Verdict, Risk, Level, Step, stop, go, step, scan, class_loop, skip_char_class, skip_byte,
  close_group, quantifier_step, skip_pair, class_step, check_redos_risk, start, stop_or,
  is_quantifier, next_byte, check_quantified_group,
}

-- What `go` leaves is no longer than `n`.
abbrev pub Within : ℕ → Step → Type 0
Within n (stop v) = Unit
Within n (go last rest r) = length rest ≤ n

-- What a class leaves is no longer than `n`.
abbrev Leaves : ℕ → Option Bytes → Type 0
Leaves n none = Unit
Leaves n (some behind) = length behind ≤ n

Leaves-more : (m n : ℕ) (o : Option Bytes) → m ≤ n → Leaves m o → Leaves n o
Leaves-more m n none le h = tt
Leaves-more m n (some behind) le h = omega arith

class_loop-Leaves : (s : Bytes) → Leaves (length s) (class_loop s)
unfolding class_loop
class_loop-Leaves [] = tt
class_loop-Leaves (c ∷ []) = elim (Bool-cases (c == b']')) [
  | inl e ↦ rw (e, class_loop) (omega arith)
  | inr e ↦ rw (e, class_loop) tt
]
class_loop-Leaves (c ∷ d ∷ s) = elim (Bool-cases (c == b']')) [
  | inl e ↦ rw (e, class_loop) (omega arith)
  | inr e ↦ elim (Bool-cases (c == b'\\')) [
    | inl f ↦
        rw (e, f, class_loop)
          (Leaves-more (length s) _ (class_loop s) (omega arith) (class_loop-Leaves s))
    | inr f ↦
        rw (e, f, class_loop)
          (Leaves-more (length (d ∷ s)) _ (class_loop (d ∷ s)) (omega arith)
            (class_loop-Leaves (d ∷ s)))
  ]
]

skip_byte_shorter : (b : ℕ) (s : Bytes) → length (skip_byte b s) ≤ length s
unfolding skip_byte
skip_byte_shorter b [] = omega arith
skip_byte_shorter b (c ∷ s) = ground arith

class_step-Within : (n : ℕ) (o : Option Bytes) (r : Risk) → Leaves n o → Within n (class_step o r)
unfolding class_step
class_step-Within n none r h = tt
class_step-Within n (some behind) r h = h

close_group-Within :
    (s : Bytes) (r : Risk) (outer : List Level) → Within (length s) (close_group s r outer)
unfolding close_group
close_group-Within s r [] = omega arith
close_group-Within s r (parent ∷ outer) =
    stop_or_within (length s)
      (if is_quantifier (next_byte s) then check_quantified_group r.level else none) _ (omega arith)
  where
    stop_or_within :
        (n : ℕ) (o : Option Verdict) (next : Step) → Within n next → Within n (stop_or o next)
    stop_or_within n none next h = h
    stop_or_within n (some v) next h = tt

skip_pair-Within : (c : ℕ) (s : Bytes) (r : Risk) → Within (length s) (skip_pair c s r)
unfolding skip_pair
skip_pair-Within c [] r = omega arith
skip_pair-Within c (d ∷ s) r = omega arith

skip_char_class-Leaves : (s : Bytes) → Leaves (length s) (skip_char_class s)
unfolding skip_char_class
skip_char_class-Leaves s =
    Leaves-more _ (length s) (class_loop (skip_byte b']' (skip_byte b'^' s)))
      (omega (arith, skip_byte_shorter b']' (skip_byte b'^' s), skip_byte_shorter b'^' s))
      (class_loop-Leaves (skip_byte b']' (skip_byte b'^' s)))

pub step-Within : (prev c : ℕ) (s : Bytes) (r : Risk) → Within (length s) (step prev c s r)
unfolding step quantifier_step
step-Within prev c s r = grind (
  arith,
  skip_pair-Within c s r,
  class_step-Within (length s) (skip_char_class s) r (skip_char_class-Leaves s),
  close_group-Within s r r.outer,
)

scan_total :
    (fuel prev : ℕ) (s : Bytes) (r : Risk)
    → length s < fuel
    → (v : Verdict) × (scan fuel prev s r ≡ some v)
unfolding scan
scan_total zero prev s r h = absurd (omega arith)
scan_total (suc fuel) prev [] r h = (_, refl)
scan_total (suc fuel) prev (c ∷ s) r h =
    after (step prev c s r) refl (step-Within prev c s r)
      (λ last rest r' l. scan_total fuel last rest r' (omega arith))
  where
    after :
        (t : Step)
        → step prev c s r ≡ t
        → Within (length s) t
        → ((last : ℕ) (rest : Bytes) (r' : Risk)
            → length rest ≤ length s
            → (v : Verdict) × (scan fuel last rest r' ≡ some v))
        → (v : Verdict) × (scan (suc fuel) prev (c ∷ s) r ≡ some v)
    after (stop v) e w ih = (v, rw (e, scan))
    after (go last rest r') e w ih = let (v, found) = ih last rest r' w in (v, rw (e, scan) found)

-- The rounds that the model allows are enough: it has a verdict for every pattern, which is `overrun` where the
-- code goes on behind the terminating NUL.
pub check_redos_risk_total : (pattern : Bytes) → (v : Verdict) × (check_redos_risk pattern ≡ some v)
unfolding check_redos_risk
check_redos_risk_total pattern = scan_total (suc (length pattern)) 0 pattern start (omega arith)
