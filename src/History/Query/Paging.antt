-- ===== src/History/Query/Paging.antt =====
-- `sm_rb_get_since_seq`: a page is a part of the stream, it starts where the caller asked, and it
-- moves the cursor on.
use smolmux.Base.{
  ℕ, suc, ◌+◌, ◌-◌, ◌≤◌, ◌<◌, ◌&&◌, Option, some, List, [], ◌∷◌, ◌++◌, ◌≡◌, refl, ap, ◌∙◌, ◌⊎◌, inl,
  inr, arith, ltb, leb, ◌==◌, Bool-cases, length, take, length-append, min,
}
use smolmux.History.{Chunk}
use smolmux.History.Inv.{concat, Linked}
use smolmux.History.Query.{find_start, select_page}

-- The chunk `c` holds the byte `want`; `found` is its index, counted from `i`.
pub record Found (s e want i : ℕ) (cs : List Chunk) (found : Option ℕ) : Type 0 where
  pub pre : List Chunk
  pub c : Chunk
  pub post : List Chunk
  pub split : cs ≡ pre ++ (c ∷ post)
  pub index : found ≡ some (i + length pre)
  pub start : c.seq_start ≡ s + length (concat pre)
  pub after : c.seq_start ≤ want
  pub before : want < c.seq_start + length c.bytes
  pub linked : Linked c.seq_start e (c ∷ post)

pub find_start-Found :
    (s e want i : ℕ) (cs : List Chunk)
    → Linked s e cs
    → s ≤ want
    → want < e
    → Found s e want i cs (find_start want cs i)
unfolding find_start
find_start-Found s e want i [] l lo hi = absurd (omega arith)
find_start-Found s e want i (c ∷ cs) l lo hi =
    elim (Bool-cases (leb (c.seq_start + length c.bytes) want)) [
      | inr here ↦ record {
        pre = [];
        c = c;
        post = cs;
        split = refl;
        index = ground arith;
        start = omega (arith, l.0);
        after = omega (arith, l.0);
        before = ground arith;
        linked = (refl, l.1, l.2, rw l.0 l.3);
      }
      | inl later ↦
          let f =
            find_start-Found (s + length c.bytes) e want (suc i) cs l.3 (ground (arith, l.0)) hi in
          record {
            pre = c ∷ f.pre;
            c = f.c;
            post = f.post;
            split = ap (◌∷◌ c) f.split;
            index = ground (arith, f.index);
            start = f.start ∙ omega (arith, length-append c.bytes (concat f.pre));
            after = f.after;
            before = f.before;
            linked = f.linked;
          }
    ]

-- What `select_page` has chosen when it stops: `k` more chunks of `cs`, and a cursor inside them.
pub record Selected (max_bytes off s e : ℕ) (cs : List Chunk) (n acc cursor : ℕ) (out : ℕ × ℕ)
    : Type 0 where
  pub k : ℕ
  pub count : out.0 ≡ n + k
  pub inside : k ≤ length cs
  pub forward : cursor ≤ out.1
  pub within : out.1 ≤ s + off + (length (concat (take k cs)) - off)
  pub limited : 0 < max_bytes → acc ≤ max_bytes → acc + (out.1 - cursor) ≤ max_bytes
  pub whole : max_bytes ≡ 0 → out.1 ≡ e
  pub exact :
      0 < max_bytes
      → acc ≤ max_bytes
      → out.1 - cursor ≡ min (max_bytes - acc) (length (concat (take k cs)) - off)

pub select_page-Selected :
    (max_bytes off s e : ℕ) (cs : List Chunk) (n acc cursor : ℕ)
    → Linked s e cs
    → (off ≡ 0) ⊎ (off < length (concat (take 1 cs)))
    → cursor ≡ s + off
    → Selected max_bytes off s e cs n acc cursor (select_page max_bytes off cs n acc cursor)
unfolding select_page
select_page-Selected max_bytes off s e [] n acc cursor l z h = record {
  k = 0;
  count = omega arith;
  inside = omega arith;
  forward = omega arith;
  within = omega arith;
  limited = λ _ a. omega arith;
  whole = λ _. omega arith;
  exact = λ _ a. omega arith;
}
select_page-Selected max_bytes off s e (c ∷ cs) n acc cursor l z h =
    elim (Bool-cases (length c.bytes - off == 0)) [
      | inl none_left ↦ absurd (ground (arith, l.1, length-append c.bytes []))
      | inr some_left ↦ elim (Bool-cases (ltb 0 max_bytes && leb max_bytes acc)) [
        | inl full ↦
            rw (some_left, full, select_page)
              (record {
                k = 0;
                count = omega arith;
                inside = omega arith;
                forward = omega arith;
                within = omega arith;
                limited = λ _ a. omega arith;
                whole = λ m. absurd (ground arith);
                exact = λ _ a. ground arith;
              })
        | inr room ↦
            elim (Bool-cases (ltb 0 max_bytes && ltb max_bytes (acc + (length c.bytes - off)))) [
              | inl part ↦
                  rw (some_left, room, part, select_page)
                    (record {
                      k = 1;
                      count = omega arith;
                      inside = omega arith;
                      forward = omega (arith, l.0);
                      within = ground (arith, l.0, length-append c.bytes []);
                      limited = λ _ a. omega (arith, l.0);
                      whole = λ m. absurd (ground arith);
                      exact = λ _ a. ground (arith, l.0, length-append c.bytes []);
                    })
              | inr whole ↦
                  rw (some_left, room, whole, select_page)
                    (let r =
                        select_page-Selected max_bytes 0 (s + length c.bytes) e cs (n + 1)
                          (acc + (length c.bytes - off)) (c.seq_start + length c.bytes) l.3
                          (inl refl) (omega (arith, l.0)) in
                      record {
                        k = suc r.k;
                        count = omega (arith, r.count);
                        inside = omega (arith, r.inside);
                        forward = ground (arith, r.forward, l.0);
                        within =
                            ground (arith, r.within, length-append c.bytes (concat (take r.k cs)));
                        limited = λ m a. ground (arith, r.limited m (ground arith), r.forward, l.0);
                        whole = r.whole;
                        exact = λ m a. ground (
                          arith,
                          r.exact m (ground arith),
                          r.forward,
                          l.0,
                          length-append c.bytes (concat (take r.k cs)),
                        );
                      })
            ]
      ]
    ]

-- From a chunk with bytes left, and with room in the page, at least one byte is selected.
pub select_page_progress :
    (max_bytes off s e : ℕ) (c : Chunk) (cs : List Chunk) (n cursor : ℕ)
    → Linked s e (c ∷ cs)
    → off < length c.bytes
    → cursor ≡ s + off
    → let (n', cursor') = select_page max_bytes off (c ∷ cs) n 0 cursor in
      (n < n') × (cursor < cursor')
unfolding select_page
select_page_progress max_bytes off s e c cs n cursor l z h =
    let r =
      select_page-Selected max_bytes 0 (s + length c.bytes) e cs (n + 1)
        (0 + (length c.bytes - off)) (c.seq_start + length c.bytes) l.3 (inl refl)
        (omega (arith, l.0)) in
    ground (arith, r.count, r.forward, l.0)
