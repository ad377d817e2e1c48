-- ===== src/Text/Monitor.antt =====
-- src/monitor_crlf.h and src/monitor_esc.h: the monitor's line ends and its escape commands.
use smolmux.Base.{
  ℕ, ◌*◌, ◌≤◌, Bool, true, not, ◌&&◌, ◌||◌, ◌⊎◌, inl, inr, ◌↔◌, [], ◌∷◌, ◌++◌, ◌≡◌, ◌≢◌, refl,
  arith, Bytes, ◌==◌, if◌then◌else◌, length, Bool-cases,
}

-- `sm_mon_map_lf`: the output, and the flag `*prev_cr` left behind.
pub map_lf : Bytes → Bool → Bytes × Bool
map_lf [] prev_cr = ([], prev_cr)
map_lf (c ∷ cs) prev_cr =
    let (out, last) = map_lf cs (c == b'\r') in
    ((if c == b'\n' && not prev_cr then b'\r' ∷ c ∷ out else c ∷ out), last)

-- Two chunks give the output of the two joined, and leave the same flag, where the flag is carried
-- from the first to the second.
pub map_lf-append :
    (xs ys : Bytes) (prev_cr : Bool)
    → let (out, mid) = map_lf xs prev_cr in
      let (out', last) = map_lf ys mid in map_lf (xs ++ ys) prev_cr ≡ (out ++ out', last)
unfolding map_lf
map_lf-append [] ys p = refl
map_lf-append (x ∷ xs) ys p = ground (arith, map_lf-append xs ys (x == b'\r'))

-- Every LF stands behind a CR.
abbrev pub NoBareLf : Bool → Bytes → Type 0
NoBareLf prev_cr [] = Unit
NoBareLf prev_cr (c ∷ cs) = (c ≡ b'\n' → prev_cr ≡ true) × NoBareLf (c == b'\r') cs

-- The output of `sm_mon_map_lf` has no bare LF, where the flag tells what came before.
pub map_lf-NoBareLf : (xs : Bytes) (prev_cr : Bool) → NoBareLf prev_cr (map_lf xs prev_cr).0
unfolding map_lf
map_lf-NoBareLf [] p = tt
map_lf-NoBareLf (x ∷ xs) p = elim (Bool-cases (x == b'\n' && not p)) [
  | inl bare ↦ rw bare ((λ e. absurd (omega arith)), ((λ _. refl), map_lf-NoBareLf xs (x == b'\r')))
  | inr fine ↦ rw fine ((λ e. ground arith), map_lf-NoBareLf xs (x == b'\r'))
]

pub map_lf_fixed : (xs : Bytes) (prev_cr : Bool) → NoBareLf prev_cr xs → (map_lf xs prev_cr).0 ≡ xs
unfolding map_lf
map_lf_fixed [] p h = refl
map_lf_fixed (x ∷ xs) p h = ground (arith, map_lf_fixed xs (x == b'\r') h.1, h.0)

-- `out` holds `2 * len` bytes.
pub length-map_lf : (xs : Bytes) (p : Bool) → length (map_lf xs p).0 ≤ 2 * length xs
unfolding map_lf
length-map_lf [] p = omega arith
length-map_lf (x ∷ xs) p = ground (arith, length-map_lf xs (x == b'\r'))

-- `SM_MON_ESC_*`
pub data EscKind : Type 0 where
  forward quit help status restart_c takeover release break suspend resume : EscKind

-- `sm_mon_esc_kind`
pub esc_kind : ℕ → EscKind
esc_kind ch =
    if ch == b'q'
    then quit
    else if ch == b'h' || ch == b'?'
    then help
    else if ch == b's'
    then status
    else if ch == b'c'
    then restart_c
    else if ch == b't'
    then takeover
    else if ch == b'r'
    then release
    else if ch == b'b'
    then break
    else if ch == b'z'
    then suspend
    else if ch == b'Z'
    then resume
    else forward

-- `SM_MON_WIRE_*`
pub data Wire : Type 0 where
  silent wire_status wire_takeover wire_release wire_break wire_suspend wire_resume : Wire

-- `sm_mon_esc_wire`
pub esc_wire : EscKind → Wire
esc_wire status = wire_status
esc_wire takeover = wire_takeover
esc_wire release = wire_release
esc_wire break = wire_break
esc_wire suspend = wire_suspend
esc_wire resume = wire_resume
esc_wire _ = silent

-- The escape keys that put a message on the wire are s, t, r, b, z and Z, and no others.
pub esc_wire_silent :
    (ch : ℕ)
    → (esc_wire (esc_kind ch) ≢ silent)
      ↔ ((ch ≡ b's') ⊎ (ch ≡ b't') ⊎ (ch ≡ b'r') ⊎ (ch ≡ b'b') ⊎ (ch ≡ b'z') ⊎ (ch ≡ b'Z'))
unfolding esc_wire esc_kind
esc_wire_silent ch = ground arith
