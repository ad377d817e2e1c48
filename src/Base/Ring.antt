-- ===== src/Base/Ring.antt =====
-- Circular arrays: the entries of a queue that starts at `head` of an array of `cap` cells. The
-- history buffer and the write queues of the clients and of the link all store their entries so.
use Prim.Native.Nat.{ℕ, zero, suc, ◌+◌, ◌-◌, ◌%◌, ◌≤◌, ◌<◌}
use mathlib.Core.Path.{◌≡◌, refl, sym, ap, ap₂, ◌∙◌}
use mathlib.Core.Logic.{◌≢◌}
use mathlib.Core.List.{List, [], ◌∷◌, ◌++◌, append_assoc}
use native.Mathlib.Nat.{mod-add-mod, mod-eq_of_lt}
use native.Mathlib.Omega.{arith}
use smolmux.Base.Lists.{
  length, get_or, set, take, drop, replicate, length-append, length-replicate, get_or-set_self,
  get_or-set_ne,
}

-- Distinct entries of a queue no longer than the array stand in distinct cells.
pub slot-ne :
    (cap head i j : ℕ) → head < cap → i < j → j < i + cap → (head + i) % cap ≢ (head + j) % cap
slot-ne cap head i j hh hi hj = grind arith

pub slot_zero : (cap head : ℕ) → head < cap → (head + 0) % cap ≡ head
slot_zero cap head h = mod-eq_of_lt (omega arith) ∙ omega arith

pub slot_next : (cap head i : ℕ) → ((head + 1) % cap + i) % cap ≡ (head + suc i) % cap
slot_next cap head i = mod-add-mod (head + 1) cap i ∙ ap (λ k. k % cap) (omega arith)

module _ {ℓ} {A : Type ℓ} (d : A) where
  -- `n` entries from the `i`-th on, each read at `(head + i) % cap`.
  abbrev pub cells : List A → ℕ → ℕ → ℕ → ℕ → List A
  cells buf cap head i zero = []
  cells buf cap head i (suc n) = get_or buf ((head + i) % cap) d ∷ cells buf cap head (suc i) n

  pub length-cells : (buf : List A) (cap head i n : ℕ) → length (cells buf cap head i n) ≡ n
  length-cells buf cap head i zero = refl
  length-cells buf cap head i (suc n) = ap suc (length-cells buf cap head (suc i) n)

  pub cells_snoc :
      (buf : List A) (cap head i n : ℕ)
      → cells buf cap head i (suc n)
        ≡ cells buf cap head i n ++ get_or buf ((head + (i + n)) % cap) d ∷ []
  cells_snoc buf cap head i zero = ap (λ k. get_or buf ((head + k) % cap) d ∷ []) (omega arith)
  cells_snoc buf cap head i (suc n) = ap (◌∷◌ (get_or buf ((head + i) % cap) d)) (
      cells_snoc buf cap head (suc i) n
      ∙ ap (λ k. cells buf cap head (suc i) n ++ get_or buf ((head + k) % cap) d ∷ [])
          (omega arith))

  -- The queue behind its first entry.
  pub cells_shift :
      (buf : List A) (cap head i n : ℕ)
      → cells buf cap ((head + 1) % cap) i n ≡ cells buf cap head (suc i) n
  cells_shift buf cap head i zero = refl
  cells_shift buf cap head i (suc n) =
      ap₂ ◌∷◌ (ap (λ k. get_or buf k d) (slot_next cap head i)) (cells_shift buf cap head (suc i) n)

  -- A write to the cell of entry `j` leaves the entries in front of it alone.
  cells-set_before :
      (buf : List A) (cap head i n j : ℕ) (v : A)
      → head < cap
      → i + n ≤ j
      → j < i + cap
      → cells (set buf ((head + j) % cap) v) cap head i n ≡ cells buf cap head i n
  cells-set_before buf cap head i zero j v hh h hj = refl
  cells-set_before buf cap head i (suc n) j v hh h hj =
      ap₂ ◌∷◌
        (get_or-set_ne buf ((head + j) % cap) ((head + i) % cap) v d
          (λ e. slot-ne cap head i j hh (omega arith) hj (sym e)))
        (cells-set_before buf cap head (suc i) n j v hh (omega arith) (omega arith))

  -- A write behind the last of `n` entries appends.
  pub cells-set_last :
      (buf : List A) (cap head n : ℕ) (v : A)
      → cap ≤ length buf
      → head < cap
      → n < cap
      → cells (set buf ((head + n) % cap) v) cap head 0 (suc n) ≡ cells buf cap head 0 n ++ v ∷ []
  cells-set_last buf cap head n v hb hh hn =
      cells_snoc (set buf ((head + n) % cap) v) cap head 0 n
      ∙ ap₂ (λ l x. l ++ x ∷ [])
          (cells-set_before buf cap head 0 n n v hh (omega arith) (omega arith))
          (ap (λ k. get_or (set buf ((head + n) % cap) v) ((head + k) % cap) d) (omega arith)
            ∙ get_or-set_self buf ((head + n) % cap) v d (omega arith))

  pub cells-set_after :
      (buf : List A) (cap head i n : ℕ) (v : A)
      → head < cap
      → 0 < i
      → i + n ≤ cap
      → cells (set buf head v) cap head i n ≡ cells buf cap head i n
  cells-set_after buf cap head i zero v hh hi h = refl
  cells-set_after buf cap head i (suc n) v hh hi h =
      ap₂ ◌∷◌
        (get_or-set_ne buf head ((head + i) % cap) v d
          (λ e. slot-ne cap head 0 i hh hi (omega arith) (slot_zero cap head hh ∙ e)))
        (cells-set_after buf cap head (suc i) n v hh (omega arith) (omega arith))

  -- A write to the first entry's cell replaces it.
  pub cells-set_head :
      (buf : List A) (cap head n : ℕ) (v : A)
      → cap ≤ length buf
      → head < cap
      → suc n ≤ cap
      → cells (set buf head v) cap head 0 (suc n) ≡ v ∷ cells buf cap head 1 n
  cells-set_head buf cap head n v hb hh hn =
      ap₂ ◌∷◌
        (ap (λ k. get_or (set buf head v) k d) (slot_zero cap head hh)
          ∙ get_or-set_self buf head v d (omega arith))
        (cells-set_after buf cap head 1 n v hh (omega arith) (omega arith))

  pub cells_first :
      (buf : List A) (cap head n : ℕ)
      → head < cap
      → cells buf cap head 0 (suc n) ≡ get_or buf head d ∷ cells buf cap head 1 n
  cells_first buf cap head n h =
      ap (λ k. get_or buf k d ∷ cells buf cap head 1 n) (slot_zero cap head h)

  get_or-append : (xs : List A) (x : A) (ys : List A) → get_or (xs ++ x ∷ ys) (length xs) d ≡ x
  get_or-append [] x ys = refl
  get_or-append (y ∷ xs) x ys = get_or-append xs x ys

  cells_of_append :
      (ps xs zs : List A) (cap : ℕ)
      → length ps + length xs ≤ cap
      → cells (ps ++ (xs ++ zs)) cap 0 (length ps) (length xs) ≡ xs
  cells_of_append ps [] zs cap h = refl
  cells_of_append ps (x ∷ xs) zs cap h =
      ap₂ ◌∷◌ (ap (λ k. get_or (ps ++ (x ∷ (xs ++ zs))) k d) here ∙ get_or-append ps x (xs ++ zs)) (
        ap₂ (λ l k. cells l cap 0 k (length xs)) (sym (append_assoc ps (x ∷ []) (xs ++ zs))) next
        ∙ cells_of_append (ps ++ x ∷ []) xs zs cap (omega (arith, next)))
    where
      here : (0 + length ps) % cap ≡ length ps
      here = ap (λ k. k % cap) (omega arith) ∙ mod-eq_of_lt (omega arith)

      next : suc (length ps) ≡ length (ps ++ x ∷ [])
      next = omega (arith, length-append ps (x ∷ []))

  -- A fresh array of `new_cap` cells into which the `n` entries are copied from cell 0 on.
  abbrev pub regrown : List A → ℕ → ℕ → ℕ → ℕ → List A
  regrown buf cap head n new_cap = cells buf cap head 0 n ++ replicate (new_cap - n) d

  pub length-regrown :
      (buf : List A) (cap head n new_cap : ℕ)
      → n ≤ new_cap
      → length (regrown buf cap head n new_cap) ≡ new_cap
  length-regrown buf cap head n new_cap h = omega (
    arith,
    length-append (cells buf cap head 0 n) (replicate (new_cap - n) d),
    length-cells buf cap head 0 n,
    length-replicate (new_cap - n) d,
  )

  pub cells-regrown :
      (buf : List A) (cap head n new_cap : ℕ)
      → n ≤ new_cap
      → cells (regrown buf cap head n new_cap) new_cap 0 0 n ≡ cells buf cap head 0 n
  cells-regrown buf cap head n new_cap h =
      ap (λ k. cells (regrown buf cap head n new_cap) new_cap 0 0 k)
        (sym (length-cells buf cap head 0 n))
      ∙ cells_of_append [] (cells buf cap head 0 n) (replicate (new_cap - n) d) new_cap
          (omega (arith, length-cells buf cap head 0 n))

  pub cells-drop :
      (buf : List A) (cap head i n k : ℕ)
      → drop k (cells buf cap head i n) ≡ cells buf cap head (i + k) (n - k)
  cells-drop buf cap head i n zero = ap₂ (cells buf cap head) (omega arith) (omega arith)
  cells-drop buf cap head i zero (suc k) =
      let e : 0 ≡ 0 - suc k = omega arith in ap (cells buf cap head (i + suc k)) e
  cells-drop buf cap head i (suc n) (suc k) =
      cells-drop buf cap head (suc i) n k ∙ ap₂ (cells buf cap head) (omega arith) (omega arith)

  pub cells-take :
      (buf : List A) (cap head i n k : ℕ)
      → k ≤ n
      → take k (cells buf cap head i n) ≡ cells buf cap head i k
  cells-take buf cap head i n zero h = refl
  cells-take buf cap head i zero (suc k) h = absurd (omega arith)
  cells-take buf cap head i (suc n) (suc k) h =
      ap (◌∷◌ (get_or buf ((head + i) % cap) d)) (cells-take buf cap head (suc i) n k (omega arith))
