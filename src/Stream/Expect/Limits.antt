-- ===== src/Stream/Expect/Limits.antt =====
-- The limits on pending requests.
use smolmux.Base.{
  same_text_eq, ℕ, suc, ◌+◌, ◌≤◌, ◌<◌, Bool, true, false, Option, none, some, List, [], ◌∷◌, ◌++◌,
  ◌≡◌, ◌≢◌, refl, sym, ap, ◌∙◌, arith, Bytes, ltb, leb, if◌then◌else◌, if-elim, copied, length,
  take-all, length-append, Bool-cases, inl, inr, same_text,
}
use smolmux.Stream.Matcher.{Matcher}
use smolmux.Stream.Expect.{
  Request, Expects, init, add, AddStatus, added, full, per_client, bad_pattern, no_memory,
  max_pending, max_per_client, client_count, add_request, grown_table,
}

module _ {E : Type 0} where
  -- At most 256 requests, of which each client has at most 16.
  pub record IsValid (eng : Expects E) : Type 0 where
    pub few : length eng.requests ≤ max_pending
    pub fair : (client : Bytes) → client_count eng.requests client ≤ max_per_client
    pub room : length eng.requests ≤ eng.capacity

  client_count_snoc :
      (rs : List (Request E)) (r : Request E) (client : Bytes)
      → client_count (rs ++ r ∷ []) client
        ≡ client_count rs client + (if same_text r.client_id client then 1 else 0)
  unfolding client_count
  client_count_snoc [] r client = ground arith
  client_count_snoc (s ∷ rs) r client = ground (arith, client_count_snoc rs r client)

  snoc-fair :
      (rs : List (Request E)) (r : Request E) (client c : Bytes)
      → r.client_id ≡ client
      → client_count rs client < max_per_client
      → ((c : Bytes) → client_count rs c ≤ max_per_client)
      → client_count (rs ++ r ∷ []) c ≤ max_per_client
  snoc-fair rs r client c name few fair = elim (Bool-cases (same_text r.client_id c)) [
    | inl same ↦
        let e : c ≡ client = sym (same_text_eq r.client_id c same) ∙ name in
        omega (arith, client_count_snoc rs r c, ap (client_count rs) e, one same)
    | inr other ↦ omega (arith, client_count_snoc rs r c, fair c, none_of other)
  ]
    where
      as_number : Bool → ℕ
      as_number b = if b then 1 else 0

      one : same_text r.client_id c ≡ true → as_number (same_text r.client_id c) ≡ 1
      one e = rw e refl

      none_of : same_text r.client_id c ≡ false → as_number (same_text r.client_id c) ≡ 0
      none_of e = rw e refl

  -- What `sm_expect_add` comes to.
  pub record Outcome (eng : Expects E) (out : AddStatus × Expects E) : Type 0 where
    pub valid : IsValid out.1
    pub one_more : out.0 ≡ added → length out.1.requests ≡ suc (length eng.requests)
    pub as_before : out.0 ≢ added → out.1.requests ≡ eng.requests

  unchanged :
      (eng eng' : Expects E) (status : AddStatus)
      → IsValid eng'
      → eng'.requests ≡ eng.requests
      → status ≢ added
      → Outcome eng (status, eng')
  unchanged eng eng' status v e ne = record {
    valid = v;
    one_more = λ h. absurd (ne h);
    as_before = λ _. e;
  }

  add_request-Outcome :
      (block : Bool) (eng eng' : Expects E) (id pattern client : Bytes) (deadline : ℕ)
      (found : Option E)
      → IsValid eng'
      → eng'.requests ≡ eng.requests
      → length eng'.requests < max_pending
      → length eng'.requests < eng'.capacity
      → length client < 32
      → client_count eng'.requests client < max_per_client
      → Outcome eng (add_request block eng' id pattern deadline client found)
  unfolding add_request
  add_request-Outcome block eng eng' id pattern client deadline none v e few room fits fair =
      unchanged eng eng' bad_pattern v e (λ h. cc)
  add_request-Outcome false eng eng' id pattern client deadline (some x) v e few room fits fair =
      unchanged eng eng' no_memory v e (λ h. cc)
  add_request-Outcome true eng eng' id pattern client deadline (some x) v e few room fits fair =
      record {
        valid = record {
          few = omega (arith, length-append eng'.requests (_ ∷ []));
          fair = λ c.
              snoc-fair eng'.requests _ client c (take-all 31 client (omega arith)) fair v.fair;
          room = omega (arith, length-append eng'.requests (_ ∷ []));
        };
        one_more = λ _. omega (arith, length-append eng'.requests (_ ∷ []), ap length e);
        as_before = λ ne. absurd (ne refl);
      }

  grown_table-IsValid :
      (eng : Expects E) → IsValid eng → IsValid (record eng { capacity = grown_table eng.capacity })
  grown_table-IsValid eng v = record { few = v.few; fair = v.fair; room = ground (arith, v.room) }

  -- `sm_expect_add` for a client whose name fits in its field keeps both limits, whichever
  -- allocations fail: at most 256 requests are pending, and at most 16 of any client. On success
  -- there is one request more, on every error the requests are as they were.
  pub add-Outcome :
      (m : Matcher E) (table block : Bool) (now : ℕ) (eng : Expects E) (id pattern : Bytes)
      (timeout : ℕ) (client : Bytes)
      → IsValid eng
      → length client < 32
      → Outcome eng (add m table block now eng id pattern timeout client)
  unfolding add
  add-Outcome m table block now eng id pattern timeout client v fits =
      elim (Bool-cases (leb max_pending (length eng.requests))) [
        | inl all ↦ rw all (unchanged eng eng full v refl (λ h. cc))
        | inr few ↦ elim (Bool-cases (leb max_per_client (client_count eng.requests client))) [
          | inl unfair ↦ rw (few, unfair) (unchanged eng eng per_client v refl (λ h. cc))
          | inr fair ↦ elim (Bool-cases (leb eng.capacity (length eng.requests))) [
            | inr room ↦
                rw (few, fair, room)
                  (add_request-Outcome block eng eng id pattern client (now + timeout)
                    (m.compile pattern) v refl (ground arith) (ground arith) fits (ground arith))
            | inl tight ↦ elim (Bool-cases (ltb max_pending (grown_table eng.capacity))) [
              | inl over ↦ rw (few, fair, tight, over) (unchanged eng eng full v refl (λ h. cc))
              | inr under ↦ elim (Bool-cases table) [
                | inl got ↦
                    rw (few, fair, tight, under, got)
                      (add_request-Outcome block eng
                        (record eng { capacity = grown_table eng.capacity }) id pattern client
                        (now + timeout) (m.compile pattern) (grown_table-IsValid eng v) refl
                        (ground arith) (ground (arith, v.room)) fits (ground arith))
                | inr refused ↦
                    rw (few, fair, tight, under, refused)
                      (unchanged eng eng no_memory v refl (λ h. cc))
              ]
            ]
          ]
        ]
      ]

  -- An added request stands behind the others, with its id cut to the field.
  abbrev pub Appended : Expects E → Bytes → AddStatus × Expects E → Type 0
  Appended eng id out =
      out.0 ≡ added
      → (r : Request E) × (out.1.requests ≡ eng.requests ++ r ∷ []) × (r.id ≡ copied 64 id)

  add_request-Appended :
      (block : Bool) (eng eng' : Expects E) (id pattern client : Bytes) (deadline : ℕ)
      (found : Option E)
      → eng'.requests ≡ eng.requests
      → Appended eng id (add_request block eng' id pattern deadline client found)
  unfolding add_request
  add_request-Appended block eng eng' id pattern client deadline none e = λ h. absurd cc
  add_request-Appended true eng eng' id pattern client deadline (some c) e =
      λ h. (r, ap (λ rs. rs ++ r ∷ []) e, refl)
    where
      r : Request E
      r = record {
        id = copied 64 id;
        compiled = c;
        pattern = copied 256 pattern;
        deadline = deadline;
        buffer = [];
        buf_cap = 4096;
        search_offset = 0;
        matched = false;
        aborted = false;
        client_id = copied 32 client;
        abort_reason = [];
        abort_pattern = [];
      }
  add_request-Appended false eng eng' id pattern client deadline (some c) e = λ h. absurd cc

  pub add-Appended :
      (m : Matcher E) (table block : Bool) (now : ℕ) (eng : Expects E) (id pattern : Bytes)
      (timeout : ℕ) (client : Bytes)
      → Appended eng id (add m table block now eng id pattern timeout client)
  unfolding add
  add-Appended m table block now eng id pattern timeout client =
      if-elim P (leb max_pending (length eng.requests)) _ _ (λ _ h. absurd cc)
        (λ _.
          if-elim P (leb max_per_client (client_count eng.requests client)) _ _ (λ _ h. absurd cc)
            (λ _.
              if-elim P (leb eng.capacity (length eng.requests)) _ _
                (λ _.
                  if-elim P (ltb max_pending (grown_table eng.capacity)) _ _ (λ _ h. absurd cc)
                    (λ _.
                      if-elim P table _ _
                        (λ _.
                          add_request-Appended block eng
                            (record eng { capacity = grown_table eng.capacity }) id pattern client
                            (now + timeout) (m.compile pattern) refl)
                        (λ _ h. absurd cc)))
                (λ _.
                  add_request-Appended block eng eng id pattern client (now + timeout)
                    (m.compile pattern) refl)))
    where
      P : AddStatus × Expects E → Type 0
      P out = Appended eng id out

  pub init-IsValid : IsValid init
  unfolding init client_count
  init-IsValid = record { few = omega arith; fair = λ c. omega arith; room = omega arith }
