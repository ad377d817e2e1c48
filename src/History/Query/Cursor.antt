-- ===== src/History/Query/Cursor.antt =====
-- `sm_rb_get_since_seq`: a page is a part of the stream, it starts where the caller asked, and it
-- moves the cursor on.
use smolmux.Base.{
  ℕ, zero, suc, ◌+◌, ◌-◌, ◌≤◌, ◌<◌, true, false, ◌||◌, List, [], ◌∷◌, ◌++◌, ◌≡◌, refl, sym, ap, ap₂,
  subst, ◌∙◌, inl, inr, ◌↔◌, arith, ltb, leb, ◌==◌, if◌then◌else◌, Bool-cases, Bytes, length,
  get_or, take, drop, length-append, length-drop, drop-append_ge, drop-append_le, drop_none,
  take-append_le, take-append-drop, min,
}
use smolmux.Base.Ring.{cells, length-cells, cells-drop, cells-take}
use smolmux.History.{RingBuffer, Chunk, no_chunk, queue}
use smolmux.History.Inv.{Core, concat, stream, Linked, Linked-end, concat-append, first_seq-stream}
use smolmux.History.Query.Paging.{
  Found, find_start-Found, Selected, select_page-Selected, select_page_progress,
}
use smolmux.History.Query.{
  chunk_at, copy_range, Page, find_start, select_page, finish_page, page_from, no_page, start_page,
  get_since_seq,
}

-- Where a page starts: the byte asked for, or the oldest that is left.
abbrev pub wanted : RingBuffer → ℕ → ℕ
wanted rb since_seq = if ltb since_seq rb.first_seq then rb.first_seq else since_seq

-- The bytes of a page that starts at `want`.
abbrev pub payload : Page → ℕ → Bytes
payload p want = take (p.cursor - want) (drop p.first_skip (concat p.chunks))

pub record IsPage (rb : RingBuffer) (want max_bytes : ℕ) (p : Page) : Type 0 where
  pub bytes : payload p want ≡ take (p.cursor - want) (drop (want - rb.first_seq) (stream rb))
  pub forward : want ≤ p.cursor
  pub within : p.cursor ≤ rb.total_seq
  pub progress : want < rb.total_seq → want < p.cursor
  pub limited : 0 < max_bytes → p.cursor - want ≤ max_bytes
  pub whole : max_bytes ≡ 0 → p.cursor ≡ rb.total_seq
  pub exact :
      0 < max_bytes → p.cursor - want ≡ min max_bytes (length (drop p.first_skip (concat p.chunks)))
  pub skip_in : p.first_skip ≤ length (concat (take 1 p.chunks))
  pub more : (p.has_more ≡ true) ↔ (p.cursor < rb.total_seq)

no_page-IsPage :
    (rb : RingBuffer) (want max_bytes dropped : ℕ)
    → want ≡ rb.total_seq
    → IsPage rb want max_bytes (no_page rb dropped)
no_page-IsPage rb want max_bytes dropped e = record {
  bytes = empty _ _ (omega arith);
  forward = omega arith;
  within = omega arith;
  progress = λ h. absurd (omega arith);
  limited = λ _. omega arith;
  whole = λ _. refl;
  exact = λ _. omega arith;
  skip_in = omega arith;
  more = ((λ h. cc), (λ h. absurd (omega arith)));
}
  where
    empty : (xs ys : Bytes) {n : ℕ} → n ≡ 0 → take n xs ≡ take n ys
    empty xs ys e = rw e

take-drop-prefix :
    (m o : ℕ) (xs ys : Bytes) → o + m ≤ length xs → take m (drop o (xs ++ ys)) ≡ take m (drop o xs)
take-drop-prefix m o xs ys h =
    ap (take m) (drop-append_le o xs ys (omega arith))
    ∙ take-append_le m (drop o xs) ys (omega (arith, length-drop o xs))

concat_split : (k : ℕ) (cs : List Chunk) → concat cs ≡ concat (take k cs) ++ concat (drop k cs)
concat_split k cs = ap concat (sym (take-append-drop k cs)) ∙ concat-append (take k cs) (drop k cs)

module _ (rb : RingBuffer) (v : Core rb) (want : ℕ)
    (f : Found rb.first_seq rb.total_seq want 0 (queue rb) (find_start want (queue rb) 0)) where
  abbrev index : ℕ
  index = length f.pre

  count_split : rb.count ≡ index + suc (length f.post)
  count_split =
      sym (length-cells no_chunk rb.chunks rb.capacity rb.head 0 rb.count)
      ∙ ap (length {0}) f.split
      ∙ length-append f.pre (f.c ∷ f.post)

  tail_cells : cells no_chunk rb.chunks rb.capacity rb.head index (rb.count - index) ≡ f.c ∷ f.post
  tail_cells =
      ap (λ k. cells no_chunk rb.chunks rb.capacity rb.head k (rb.count - index)) zero_add
      ∙ sym (cells-drop no_chunk rb.chunks rb.capacity rb.head 0 rb.count index)
      ∙ ap (drop index) f.split
      ∙ drop-append_ge index f.pre (f.c ∷ f.post) (omega arith)
      ∙ drop_none _ (f.c ∷ f.post) (omega arith)
    where
      zero_add : index ≡ 0 + index
      zero_add = omega arith

  chunk_at-index : chunk_at rb index ≡ f.c
  chunk_at-index =
      ap (λ l. get_or l 0 no_chunk)
        (subst (λ k. cells no_chunk rb.chunks rb.capacity rb.head index k ≡ f.c ∷ f.post) pos
          tail_cells)
    where
      pos : rb.count - index ≡ suc (length f.post)
      pos = omega (arith, count_split)

  stream_from :
      drop (want - rb.first_seq) (stream rb) ≡ drop (want - f.c.seq_start) (concat (f.c ∷ f.post))
  stream_from =
      ap (λ l. drop (want - rb.first_seq) (concat l)) f.split
      ∙ ap (drop (want - rb.first_seq)) (concat-append f.pre (f.c ∷ f.post))
      ∙ drop-append_ge (want - rb.first_seq) (concat f.pre) (concat (f.c ∷ f.post))
          (omega (arith, f.start, f.after))
      ∙ ap (λ k. drop k (concat (f.c ∷ f.post))) (omega (arith, f.start, f.after))

  finish_page_lem :
      (dropped first_skip n cursor : ℕ)
      → 0 < n
      → n ≤ suc (length f.post)
      → finish_page true rb dropped index first_skip (n, cursor) ≡ record {
        chunks = take n (f.c ∷ f.post);
        first_skip = first_skip;
        cursor = cursor;
        dropped = dropped;
        has_more = ltb cursor rb.total_seq;
      }
  unfolding finish_page copy_range
  finish_page_lem dropped first_skip zero cursor h le = absurd (omega arith)
  finish_page_lem dropped first_skip (suc k) cursor h le =
      let nz : (suc k == 0) ≡ false = ground arith in rw (copied, nz)
    where
      copied : cells no_chunk rb.chunks rb.capacity rb.head index (suc k) ≡ f.c ∷ take k f.post
      copied =
          sym (
            cells-take no_chunk rb.chunks rb.capacity rb.head index (rb.count - index) (suc k)
              (omega (arith, count_split)))
          ∙ ap (take (suc k)) tail_cells

  page_from_lem :
      (max_bytes dropped : ℕ)
      → page_from true rb want max_bytes dropped index
        ≡ finish_page true rb dropped index
            (want - f.c.seq_start)
            (select_page max_bytes (want - f.c.seq_start) (f.c ∷ f.post) 0 0 want)
  unfolding page_from
  page_from_lem max_bytes dropped =
      ap₂
        (λ (c : Chunk) l.
          let skip = if ltb c.seq_start want then want - c.seq_start else 0 in
          finish_page true rb dropped index skip (select_page max_bytes skip l 0 0 want))
        chunk_at-index tail_cells
      ∙ ap
          (λ k.
            finish_page true rb dropped index k (select_page max_bytes k (f.c ∷ f.post) 0 0 want))
          skip
    where
      skip : (if ltb f.c.seq_start want then want - f.c.seq_start else 0) ≡ want - f.c.seq_start
      skip = ground arith

  module _ (below : want < rb.total_seq) (max_bytes dropped : ℕ) where
    abbrev skip : ℕ
    skip = want - f.c.seq_start

    selected : ℕ × ℕ
    selected = select_page max_bytes skip (f.c ∷ f.post) 0 0 want

    selected-Selected :
        Selected max_bytes skip f.c.seq_start rb.total_seq (f.c ∷ f.post) 0 0 want selected
    unfolding selected
    selected-Selected =
        select_page-Selected max_bytes skip f.c.seq_start rb.total_seq (f.c ∷ f.post) 0 0 want
          f.linked (inr (omega (arith, f.before, f.after, f.linked.1, length-append f.c.bytes [])))
          (omega (arith, f.after))

    selected_progress : (0 < selected.0) × (want < selected.1)
    unfolding selected
    selected_progress =
        select_page_progress max_bytes skip f.c.seq_start rb.total_seq f.c f.post 0 want f.linked
          (omega (arith, f.before, f.after, f.linked.1)) (omega (arith, f.after))

    the_page : Page
    the_page = record {
      chunks = take selected.0 (f.c ∷ f.post);
      first_skip = skip;
      cursor = selected.1;
      dropped = dropped;
      has_more = ltb selected.1 rb.total_seq;
    }

    page_from-the_page : page_from true rb want max_bytes dropped index ≡ the_page
    unfolding the_page selected
    page_from-the_page =
        page_from_lem max_bytes dropped
        ∙ finish_page_lem dropped skip selected.0 selected.1 selected_progress.0
            (omega (arith, selected-Selected.count, selected-Selected.inside))

    select_end : selected.1 ≤ f.c.seq_start + length (concat (take selected.0 (f.c ∷ f.post)))
    select_end =
        let r = selected-Selected in
        let same : selected.0 ≡ r.k = omega (arith, r.count) in
        omega (
          arith,
          r.within,
          selected_progress.1,
          f.after,
          ap (λ k. length (concat (take k (f.c ∷ f.post)))) same,
        )

    the_page-IsPage : IsPage rb want max_bytes the_page
    unfolding the_page
    the_page-IsPage = record {
      bytes = sym (
          ap (λ l. take (selected.1 - want) l)
            (stream_from ∙ ap (drop skip) (concat_split selected.0 (f.c ∷ f.post)))
          ∙ take-drop-prefix (selected.1 - want) skip (concat (take selected.0 (f.c ∷ f.post)))
              (concat (drop selected.0 (f.c ∷ f.post)))
              (omega (arith, select_end, f.after, selected_progress.1)));
      forward = omega (arith, selected_progress.1);
      within = omega (
        arith,
        select_end,
        ap (length {0}) (concat_split selected.0 (f.c ∷ f.post)),
        length-append (concat (take selected.0 (f.c ∷ f.post)))
            (concat (drop selected.0 (f.c ∷ f.post))),
        Linked-end f.c.seq_start rb.total_seq (f.c ∷ f.post) f.linked,
      );
      progress = λ _. selected_progress.1;
      limited = λ m. omega (arith, selected-Selected.limited m (omega arith));
      whole = selected-Selected.whole;
      exact = λ m.
          let r = selected-Selected in
          let same : selected.0 ≡ r.k = omega (arith, r.count) in
          omega (
            arith,
            r.exact m (omega arith),
            length-drop skip (concat (take selected.0 (f.c ∷ f.post))),
            ap (λ k. length (concat (take k (f.c ∷ f.post)))) same,
          );
      skip_in = first_of (selected.0) selected_progress.0;
      more = ground arith;
    }
      where
        first_of : (k : ℕ) → 0 < k → skip ≤ length (concat (take 1 (take k (f.c ∷ f.post))))
        first_of zero h = absurd (omega arith)
        first_of (suc k) h =
            let one : take 1 (take (suc k) (f.c ∷ f.post)) ≡ f.c ∷ [] = refl in
            omega (arith, f.after, f.before, length-append f.c.bytes [])

    start_page-IsPage :
        IsPage rb want max_bytes
          (start_page true rb want max_bytes dropped (find_start want (queue rb) 0))
        × ((start_page true rb want max_bytes dropped (find_start want (queue rb) 0)).dropped
            ≡ dropped)
    unfolding start_page the_page
    start_page-IsPage =
        let e : 0 + index ≡ index = omega arith in
        rw (f.index, e, page_from-the_page) (the_page-IsPage, refl)

-- A buffer with no chunk has nothing between its sequence numbers.
empty_seq : (rb : RingBuffer) → Core rb → rb.count ≡ 0 → rb.first_seq ≡ rb.total_seq
empty_seq rb v e =
    subst (λ k. Linked rb.first_seq rb.total_seq (cells no_chunk rb.chunks rb.capacity rb.head 0 k))
      e v.linked

-- `sm_rb_get_since_seq` on a valid buffer, where `malloc` does not fail and `since_seq` is not
-- ahead of the buffer: the bytes of the page are those of the stream from `since_seq`, or from the
-- oldest byte if that is later, up to the new cursor; the cursor moves on if there is anything
-- to read, is never beyond the end and at most `max_bytes` on (at the end for no limit), and
-- `has_more` tells whether it is short of the end; `dropped` counts the bytes that are gone.
pub get_since_seq-IsPage :
    (rb : RingBuffer) (since_seq max_bytes : ℕ)
    → Core rb
    → since_seq ≤ rb.total_seq
    → IsPage rb (wanted rb since_seq) max_bytes (get_since_seq true rb since_seq max_bytes)
      × ((get_since_seq true rb since_seq max_bytes).dropped ≡ rb.first_seq - since_seq)
unfolding get_since_seq
get_since_seq-IsPage rb since_seq max_bytes v h =
    elim (Bool-cases (rb.count == 0 || leb rb.total_seq (wanted rb since_seq))) [
      | inl e ↦
          let end : wanted rb since_seq ≡ rb.total_seq =
            ground (arith, empty_seq rb v, first_seq-stream v) in
          rw (e, get_since_seq)
            (no_page-IsPage rb (wanted rb since_seq) max_bytes _ end, ground arith)
      | inr e ↦
          let below : wanted rb since_seq < rb.total_seq = ground arith in
          let f =
            find_start-Found rb.first_seq rb.total_seq (wanted rb since_seq) 0 (queue rb) v.linked
              (ground arith) below in
          let p =
            start_page-IsPage rb v (wanted rb since_seq) f below max_bytes
              (if ltb since_seq rb.first_seq then rb.first_seq - since_seq else 0) in
          rw (e, get_since_seq) (p.0, p.1 ∙ ground arith)
    ]
