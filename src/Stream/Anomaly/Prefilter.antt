-- ===== src/Stream/Anomaly/Prefilter.antt =====
-- The prefilter hides the second branch of an alternation.
use smolmux.Base.{
  ℕ, zero, suc, ◌≤◌, Bool, true, false, not, ◌&&◌, [], ◌∷◌, ◌++◌, ◌≡◌, refl, sym, ap, ◌∙◌, arith,
  Bytes, ◌==◌, length, take-all, append_assoc, append-nil,
}
use smolmux.Stream.Anomaly.{
  occurs, has_needle, has_some_needle, region_has_literal, is_meta, literal_run, trim_spaces,
  extract_literal_prefix,
}

-- Letters of a pattern that stand for themselves, in the pattern and in the prefilter.
abbrev pub is_letter : ℕ → Bool
is_letter c = not (is_meta c) && not (c == b';') && not (c == 32)

abbrev pub all_letters : Bytes → Bool
all_letters [] = true
all_letters (c ∷ s) = is_letter c && all_letters s

literal_run_letters :
    (room : ℕ) (s rest : Bytes)
    → all_letters s ≡ true
    → length s ≤ room
    → literal_run room (s ++ b'|' ∷ rest) ≡ s
unfolding literal_run is_meta
literal_run_letters zero [] rest h l = refl
literal_run_letters (suc room) [] rest h l = refl
literal_run_letters zero (c ∷ s) rest h l = absurd (omega arith)
literal_run_letters (suc room) (c ∷ s) rest h l =
    ground (arith, literal_run_letters room s rest (ground arith) (omega arith))

trim_spaces_letters : (s : Bytes) → all_letters s ≡ true → trim_spaces s ≡ s
unfolding trim_spaces
trim_spaces_letters [] h = refl
trim_spaces_letters (c ∷ s) h = ground (arith, trim_spaces_letters s (ground arith))

has_some_needle_letters :
    (region needle s : Bytes)
    → all_letters s ≡ true
    → has_some_needle region needle s ≡ has_needle region (needle ++ s)
unfolding has_some_needle
has_some_needle_letters region needle [] h = ap (has_needle region) (sym (append-nil needle))
has_some_needle_letters region needle (c ∷ s) h =
    let e : (c == b';') ≡ false = ground arith in
    rw e (
      has_some_needle_letters region (needle ++ c ∷ []) s (ground arith)
      ∙ ap (has_needle region) (append_assoc needle (c ∷ []) s))

-- Of a custom pattern `word|rest`, where `word` is at most 31 bytes that stand for themselves, the
-- prefilter lets a region pass exactly when it holds `word`, so the branch `rest` is never looked
-- for by itself.
pub prefilter_alternation :
    (c : ℕ) (word rest region : Bytes)
    → all_letters (c ∷ word) ≡ true
    → length (c ∷ word) ≤ 31
    → region_has_literal region (extract_literal_prefix ((c ∷ word) ++ b'|' ∷ rest) 48)
      ≡ occurs (c ∷ word) region
unfolding extract_literal_prefix region_has_literal has_needle
prefilter_alternation c word rest region h l =
    let run : literal_run 47 ((c ∷ word) ++ b'|' ∷ rest) ≡ c ∷ word =
      literal_run_letters 47 (c ∷ word) rest h (omega arith) in
    ap (λ s. region_has_literal region (trim_spaces s)) run
    ∙ ap (region_has_literal region) (trim_spaces_letters (c ∷ word) h)
    ∙ has_some_needle_letters region [] (c ∷ word) h
    ∙ ap (λ s. occurs s region) (take-all 31 (c ∷ word) l)
