-- ===== src/Link/WriteQueue/Inv.antt =====
-- The invariant of the link's write queue, and the bytes that it owes the device.
use smolmux.Base.{
  suc, ◌-◌, ◌≤◌, ◌<◌, List, [], ◌∷◌, ◌++◌, ◌≡◌, refl, sym, ap, ◌∙◌, arith, Bytes, length, drop,
  append_assoc,
}
use smolmux.Base.Ring.{cells, cells_first}
use smolmux.Link.WriteQueue.{WriteQueue, Entry, no_entry, queue, front, max_bytes, init}

abbrev pub owed : List Entry → Bytes
owed [] = []
owed (e ∷ es) = drop e.offset e.bytes ++ owed es

-- The bytes not yet written, in order.
abbrev pub pending : WriteQueue → Bytes
pending wq = owed (queue wq)

-- Every entry has a byte left.
abbrev pub AllLeft : List Entry → Type 0
AllLeft [] = Unit
AllLeft (e ∷ es) = (e.offset < length e.bytes) × AllLeft es

pub record IsValid (wq : WriteQueue) : Type 0 where
  pub table : wq.cap ≡ length wq.entries
  pub fits : wq.count ≤ wq.cap
  pub head_in : 0 < wq.cap → wq.head < wq.cap
  pub total : wq.total_bytes ≡ length (pending wq)
  pub bounded : wq.total_bytes ≤ max_bytes
  pub left : AllLeft (queue wq)

pub init-IsValid : IsValid init
unfolding init
init-IsValid = record {
  table = refl;
  fits = omega arith;
  head_in = λ h. absurd (omega arith);
  total = refl;
  bounded = omega arith;
  left = tt;
}

pub owed-append : (xs ys : List Entry) → owed (xs ++ ys) ≡ owed xs ++ owed ys
owed-append [] ys = refl
owed-append (x ∷ xs) ys =
    ap (λ l. drop x.offset x.bytes ++ l) (owed-append xs ys)
    ∙ sym (append_assoc (drop x.offset x.bytes) (owed xs) (owed ys))

pub AllLeft-snoc :
    (es : List Entry) (e : Entry) → AllLeft es → e.offset < length e.bytes → AllLeft (es ++ e ∷ [])
AllLeft-snoc [] e h l = (l, tt)
AllLeft-snoc (x ∷ es) e h l = (h.0, AllLeft-snoc es e h.1 l)

-- The entries behind the first.
abbrev pub behind : WriteQueue → List Entry
behind wq = cells no_entry wq.entries wq.cap wq.head 1 (wq.count - 1)

pub queue_suc : (wq : WriteQueue) → IsValid wq → 0 < wq.count → queue wq ≡ front wq ∷ behind wq
queue_suc wq v h =
    ap (cells no_entry wq.entries wq.cap wq.head 0) pos
    ∙ cells_first no_entry wq.entries wq.cap wq.head (wq.count - 1)
        (v.head_in (omega (arith, v.fits)))
  where
    pos : wq.count ≡ suc (wq.count - 1)
    pos = omega arith
