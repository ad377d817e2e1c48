-- ===== src/Text/StrBuf.antt =====
-- The string buffer of src/util/str.c. The byte behind the text is its terminator; `cap` is the size
-- of the block, 0 when there is none.
use smolmux.Base.{
  ℕ, zero, suc, ◌+◌, ◌-◌, ◌*◌, ◌≤◌, ◌<◌, Bool, true, false, ◌||◌, ◌⊎◌, inl, inr, [], ◌∷◌, ◌++◌, ◌≡◌,
  refl, sym, ap, append-nil, arith, Bytes, ltb, leb, ◌==◌, if◌then◌else◌, length, drop,
  length-append, length-drop, Bool-cases, drop_none,
}

-- `sm_strbuf_t`; `len` is the length of `text`.
pub record StrBuf : Type 0 where
  pub text : Bytes
  pub cap : ℕ

abbrev pub empty : StrBuf
empty = record { text = []; cap = 0 }

-- `while (new_cap < want) new_cap *= 2`
pub double_until : ℕ → ℕ → ℕ → ℕ
double_until zero new_cap want = new_cap
double_until (suc fuel) new_cap want =
    let doubled = double_until fuel (new_cap * 2) want in
    if ltb new_cap want then doubled else new_cap

-- `sm_strbuf_grow`: the buffer, and whether it has room. The flag is the success of `realloc`.
pub grow : Bool → StrBuf → ℕ → StrBuf × Bool
grow ok sb needed =
    let want = length sb.text + needed + 1 in
    let new_cap = double_until want (if sb.cap == 0 then 64 else sb.cap) want in
    if ltb sb.cap new_cap
    then (if ok then (record sb { cap = new_cap }, true) else (sb, false))
    else (sb, true)

-- `sm_strbuf_append`
pub append : Bool → StrBuf → Bytes → StrBuf
append ok sb s =
    let (grown, done) = grow ok sb (length s) in
    if length s == 0 then sb else if done then record grown { text = grown.text ++ s } else sb

-- `sm_strbuf_steal`: the text handed over, and the buffer left.
pub steal : StrBuf → Bytes × StrBuf
steal sb = (sb.text, empty)

-- `sm_strbuf_cap`: keeps the last `max` bytes.
pub keep_last : StrBuf → ℕ → StrBuf
keep_last sb max =
    if sb.cap == 0 || max == 0 || leb (length sb.text) max
    then sb
    else record sb { text = drop (length sb.text - max) sb.text }

-- `sm_strbuf_printf`, where `printed` is what `vsnprintf` writes.
pub print : Bool → StrBuf → Bytes → StrBuf
print ok sb printed =
    let (grown, done) = grow ok sb (length printed) in
    if ltb 0 (length printed)
    then (if done then record grown { text = grown.text ++ printed } else grown)
    else sb

-- `sm_strbuf_destroy`
pub destroy : StrBuf → StrBuf
destroy sb = empty

-- The text and its terminator fit in the block.
pub record IsValid (sb : StrBuf) : Type 0 where
  pub fits : (sb.cap ≡ 0) ⊎ (length sb.text < sb.cap)
  pub none_left : sb.cap ≡ 0 → length sb.text ≡ 0

double_until-enough :
    (fuel new_cap want : ℕ)
    → 0 < new_cap
    → want ≤ new_cap + fuel
    → want ≤ double_until fuel new_cap want
unfolding double_until
double_until-enough zero new_cap want p h = omega arith
double_until-enough (suc fuel) new_cap want p h =
    ground (arith, double_until-enough fuel (new_cap * 2) want)

grow_lem :
    (ok : Bool) (sb : StrBuf) (needed : ℕ)
    → let (grown, done) = grow ok sb needed in
      (grown.text ≡ sb.text)
      × (done ≡ true → length sb.text + needed < grown.cap)
      × (done ≡ false → (ok ≡ false) × (grown ≡ sb))
unfolding grow
grow_lem ok sb needed =
    let want = length sb.text + needed + 1 in
    ground (arith, double_until-enough want (if sb.cap == 0 then 64 else sb.cap) want)

-- `sm_strbuf_append` writes inside the block and keeps the invariant; the text is the old one with
-- `s` behind it, or the buffer is as it was and `realloc` has failed.
pub append_lem :
    (ok : Bool) (sb : StrBuf) (s : Bytes)
    → IsValid sb
    → IsValid (append ok sb s)
      × (((append ok sb s).text ≡ sb.text ++ s) ⊎ ((ok ≡ false) × (append ok sb s ≡ sb)))
unfolding append
append_lem ok sb [] v = (v, inl (sym (append-nil sb.text)))
append_lem ok sb (c ∷ s) v =
    let input : Bytes = c ∷ s in
    let g = grow_lem ok sb (length input) in
    let nz : (length input == 0) ≡ false = ground arith in
    elim (Bool-cases (grow ok sb (length input)).1) [
      | inl done ↦
          rw (nz, done)
            (
              record {
                fits = inr (
                    omega (
                      arith,
                      g.1 done,
                      length-append (grow ok sb (length input)).0.text input,
                      ap (length {0}) g.0,
                    ));
                none_left = λ e. absurd (omega (arith, g.1 done));
              },
              inl (ap (λ t. t ++ input) g.0),
            )
      | inr failed ↦ rw (nz, failed) (v, inr ((g.2 failed).0, refl))
    ]

-- `sm_strbuf_cap` with a positive limit leaves at most `max` bytes, the last of the text.
pub keep_last_lem :
    (sb : StrBuf) (max : ℕ)
    → IsValid sb
    → 0 < max
    → ((keep_last sb max).text ≡ drop (length sb.text - max) sb.text)
      × (length (keep_last sb max).text ≤ max)
      × IsValid (keep_last sb max)
unfolding keep_last
keep_last_lem sb max v h =
    let whole = drop_none (length sb.text - max) sb.text in
    let shorter = length-drop (length sb.text - max) sb.text in
    elim (Bool-cases (sb.cap == 0 || max == 0 || leb (length sb.text) max)) [
      | inl small ↦
          let few : length sb.text ≤ max = ground (arith, v.none_left) in
          rw small (sym (whole (omega arith)), few, v)
      | inr large ↦ rw large (refl, omega (arith, shorter), ground (arith, v.fits, shorter))
    ]
