-- ===== src/History/Query/Octets.antt =====
-- A page of `sm_rb_get_since_seq` holds nothing but what is in the buffer's blocks.
use smolmux.Base.{
  ℕ, zero, suc, ◌+◌, ◌-◌, ◌%◌, Bool, true, false, ◌||◌, Option, none, some, List, [], ◌∷◌, ◌++◌,
  Bytes, ltb, leb, ◌==◌, if◌then◌else◌, if-elim, Bool-cases, ◌⊎◌, inl, inr, ◌≡◌, refl, subst,
  get_or,
}
use smolmux.Base.Ring.{cells}
use smolmux.Text.Base64.RoundTrip.{AllBytes}
use smolmux.History.{RingBuffer, Chunk, no_chunk, queue}
use smolmux.History.Inv.{concat}
use smolmux.History.Query.{
  chunk_at, copy_range, Page, no_page, find_start, finish_page, page_from, start_page,
  get_since_seq, since_from, get_since, last_start, get_last_n_bytes, get_all,
}

-- The blocks of the buffer hold bytes.
abbrev pub HoldsBytes : RingBuffer → Type 0
HoldsBytes rb = (i : ℕ) → AllBytes (get_or rb.chunks i no_chunk).bytes

AllBytes-append : (xs ys : Bytes) → AllBytes xs → AllBytes ys → AllBytes (xs ++ ys)
AllBytes-append [] ys h k = k
AllBytes-append (x ∷ xs) ys h k = (h.0, AllBytes-append xs ys h.1 k)

module _ (rb : RingBuffer) (h : HoldsBytes rb) where
  AllBytes-cells : (i n : ℕ) → AllBytes (concat (cells no_chunk rb.chunks rb.capacity rb.head i n))
  AllBytes-cells i zero = tt
  AllBytes-cells i (suc n) =
      AllBytes-append _ _ (h ((rb.head + i) % rb.capacity)) (AllBytes-cells (suc i) n)

  AllBytes-copy_range : (ok : Bool) (start n : ℕ) → AllBytes (concat (copy_range ok rb start n))
  unfolding copy_range
  AllBytes-copy_range ok start n =
      if-elim (λ (cs : List Chunk). AllBytes (concat cs)) (n == 0) _ _ (λ _. tt)
        (λ _.
          if-elim (λ (cs : List Chunk). AllBytes (concat cs)) ok _ _ (λ _. AllBytes-cells start n)
            (λ _. tt))

  finish_bytes :
      (ok : Bool) (dropped start first_skip : ℕ) (out : ℕ × ℕ)
      → AllBytes (concat (finish_page ok rb dropped start first_skip out).chunks)
  finish_bytes ok dropped start first_skip (n, cursor) =
      finished (copy_range ok rb start n) (Bool-cases (n == 0)) refl
        (AllBytes-copy_range ok start n)
    where
      finished :
          (cs : List Chunk)
          → ((n == 0) ≡ true) ⊎ ((n == 0) ≡ false)
          → copy_range ok rb start n ≡ cs
          → AllBytes (concat (copy_range ok rb start n))
          → AllBytes (concat (finish_page ok rb dropped start first_skip (n, cursor)).chunks)
      finished cs (inl e) c b = unfold finish_page in rw e tt
      finished [] (inr e) c b = unfold finish_page in rw (e, c) tt
      finished (x ∷ xs) (inr e) c b =
          let b' : AllBytes (concat (x ∷ xs)) =
            subst (λ (l : List Chunk). AllBytes (concat l)) c b in
          unfold finish_page in rw (e, c) b'

  start_bytes :
      (ok : Bool) (want max_bytes dropped : ℕ) (start : Option ℕ)
      → AllBytes (concat (start_page ok rb want max_bytes dropped start).chunks)
  unfolding start_page page_from
  start_bytes ok want max_bytes dropped none = tt
  start_bytes ok want max_bytes dropped (some start) = finish_bytes ok dropped start _ _

  pub get_since_seq-AllBytes :
      (ok : Bool) (since_seq max_bytes : ℕ)
      → AllBytes (concat (get_since_seq ok rb since_seq max_bytes).chunks)
  unfolding get_since_seq
  get_since_seq-AllBytes ok since_seq max_bytes =
      let want = if ltb since_seq rb.first_seq then rb.first_seq else since_seq in
      let dropped = if ltb since_seq rb.first_seq then rb.first_seq - since_seq else 0 in
      if-elim (λ (p : Page). AllBytes (concat p.chunks)) (rb.count == 0 || leb rb.total_seq want)
        (no_page rb dropped)
        (start_page ok rb want max_bytes dropped (find_start want (queue rb) 0)) (λ _. tt)
        (λ _. start_bytes ok want max_bytes dropped (find_start want (queue rb) 0))

  since_bytes : (ok : Bool) (ts i n : ℕ) → AllBytes (concat (since_from ok rb ts i n))
  unfolding since_from
  since_bytes ok ts i zero = tt
  since_bytes ok ts i (suc n) =
      if-elim (λ (cs : List Chunk). AllBytes (concat cs)) (leb ts (chunk_at rb i).timestamp) _ _
        (λ _. AllBytes-copy_range ok i (rb.count - i)) (λ _. since_bytes ok ts (suc i) n)

  pub get_since-AllBytes : (ok : Bool) (ts : ℕ) → AllBytes (concat (get_since ok rb ts))
  unfolding get_since
  get_since-AllBytes ok ts = since_bytes ok ts 0 rb.count

  pub get_last_n_bytes-AllBytes : (ok : Bool) (n : ℕ) → AllBytes (concat (get_last_n_bytes ok rb n))
  unfolding get_last_n_bytes
  get_last_n_bytes-AllBytes ok n =
      if-elim (λ (cs : List Chunk). AllBytes (concat cs)) (rb.count == 0 || n == 0) [] _ (λ _. tt)
        (λ _.
          AllBytes-copy_range ok (last_start rb n rb.count 0)
            (rb.count - last_start rb n rb.count 0))

  pub get_all-AllBytes : (ok : Bool) → AllBytes (concat (get_all ok rb))
  unfolding get_all
  get_all-AllBytes ok = AllBytes-copy_range ok 0 rb.count
