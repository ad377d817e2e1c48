-- ===== src/Stream/Expect/Pending.antt =====
-- Which requests `sm_expect_collect` and the cancellations remove.
use smolmux.Base.{
  ℕ, zero, suc, ◌+◌, ◌-◌, ◌≤◌, ◌<◌, Bool, true, false, List, [], ◌∷◌, ◌≡◌, refl, arith, Bytes, ◌==◌,
  if◌then◌else◌, length, get_or, take, length-take, same_text, Bool-cases, inl, inr,
}
use smolmux.Stream.Expect.{
  Request, Expects, sweep, move_last, is_done, collect, cancel_if, cancel_id, cancel_client,
}

module _ {E : Type 0} where
  -- How many requests of a list pass a test.
  abbrev pub count : (Request E → Bool) → List (Request E) → ℕ
  count p [] = 0
  count p (r ∷ rs) = (if p r then 1 else 0) + count p rs

  count-take_last :
      (p : Request E → Bool) (s d : Request E) (ss : List (Request E))
      → (if p (get_or (s ∷ ss) (length ss) d) then 1 else 0) + count p (take (length ss) (s ∷ ss))
        ≡ count p (s ∷ ss)
  count-take_last p s d [] = omega arith
  count-take_last p s d (t ∷ ss) = omega (arith, count-take_last p t d ss)

  count-move_last :
      (p : Request E → Bool) (r : Request E) (rs : List (Request E))
      → count p (move_last r rs) ≡ count p rs
  unfolding move_last
  count-move_last p r [] = refl
  count-move_last p r (s ∷ ss) = count-take_last p s s ss

  length-move_last : (r : Request E) (rs : List (Request E)) → length (move_last r rs) ≡ length rs
  unfolding move_last
  length-move_last r [] = refl
  length-move_last r (s ∷ ss) = omega (arith, length-take (length ss) (s ∷ ss))

  -- What a sweep does: it takes out only requests that are to go, as many as there is room for, and
  -- neither loses nor doubles a request.
  pub record Swept (out : Request E → Bool) (room : ℕ) (rs gone left : List (Request E))
      : Type 0 where
    pub within : length gone ≤ room
    pub right : count out gone ≡ length gone
    pub all : length gone < room → count out left ≡ 0
    pub same : (p : Request E → Bool) → count p gone + count p left ≡ count p rs

  sweep-Swept :
      (out : Request E → Bool) (fuel room : ℕ) (rs : List (Request E))
      → length rs ≤ fuel
      → let (gone, left) = sweep out fuel room rs in Swept out room rs gone left
  unfolding sweep
  sweep-Swept out zero room [] h = record {
    within = omega arith;
    right = refl;
    all = λ _. refl;
    same = λ p. omega arith;
  }
  sweep-Swept out zero room (r ∷ rs) h = absurd (omega arith)
  sweep-Swept out (suc fuel) room [] h = record {
    within = omega arith;
    right = refl;
    all = λ _. refl;
    same = λ p. omega arith;
  }
  sweep-Swept out (suc fuel) room (r ∷ rs) h =
      let gone =
        sweep-Swept out fuel (room - 1) (move_last r rs) (omega (arith, length-move_last r rs)) in
      let stay = sweep-Swept out fuel room rs (omega arith) in
      elim (Bool-cases (room == 0)) [
        | inl shut ↦ rw shut (record {
          within = omega arith;
          right = refl;
          all = λ few. absurd (ground arith);
          same = λ p. omega arith;
        })
        | inr room_left ↦ elim (Bool-cases (out r)) [
          | inl go ↦
              rw (room_left, go)
                (record {
                  within = ground (arith, gone.within);
                  right = rw go (omega (arith, gone.right));
                  all = λ few. gone.all (ground arith);
                  same = λ p. omega (arith, gone.same p, count-move_last p r rs);
                })
          | inr keep ↦
              rw (room_left, keep)
                (record {
                  within = stay.within;
                  right = stay.right;
                  all = λ few. rw keep (omega (arith, stay.all few));
                  same = λ p. omega (arith, stay.same p);
                })
        ]
      ]

  -- `sm_expect_collect` fills at most `max_out` results, each from a request that is matched, aborted
  -- or past its deadline; when there is room left over, none of those stays behind. Every request
  -- is collected or stays, once.
  pub collect-Swept :
      (eng : Expects E) (now max_out : ℕ)
      → let (gone, left) = collect eng now max_out in
        Swept (is_done now) max_out eng.requests gone left.requests
  unfolding collect
  collect-Swept eng now max_out =
      sweep-Swept (is_done now) (length eng.requests) max_out eng.requests (omega arith)

  count-length : (p : Request E → Bool) (rs : List (Request E)) → count p rs ≤ length rs
  count-length p [] = omega arith
  count-length p (r ∷ rs) = ground (arith, count-length p rs)

  count_true : (rs : List (Request E)) → count (λ _. true) rs ≡ length rs
  count_true [] = refl
  count_true (r ∷ rs) = omega (arith, count_true rs)

  count_apart :
      (out p : Request E → Bool) (rs : List (Request E))
      → ((r : Request E) → p r ≡ true → out r ≡ false)
      → count out rs ≡ length rs
      → count p rs ≡ 0
  count_apart out p [] apart h = refl
  count_apart out p (r ∷ rs) apart h = elim (Bool-cases (p r)) [
    | inl yes' ↦ absurd (omega (arith, count-length out rs, skipped yes'))
    | inr no' ↦
        rw no' (omega (arith, count_apart out p rs apart (ground (arith, count-length out rs))))
  ]
    where
      skipped : p r ≡ true → count out (r ∷ rs) ≡ count out rs
      skipped yes' = rw (apart r yes') (omega arith)

  -- A cancellation: no request that is to go stays, and those that are not stay, each once.
  pub record Cancelled (out : Request E → Bool) (before after : Expects E) : Type 0 where
    pub gone : count out after.requests ≡ 0
    pub stay :
        (p : Request E → Bool)
        → ((r : Request E) → p r ≡ true → out r ≡ false)
        → count p after.requests ≡ count p before.requests

  cancel_if-Cancelled :
      (out : Request E → Bool) (eng : Expects E) → Cancelled out eng (cancel_if out eng)
  unfolding cancel_if
  cancel_if-Cancelled out eng =
      let rs = eng.requests in
      let (gone, left) = sweep out (length rs) (suc (length rs)) rs in
      let s = sweep-Swept out (length rs) (suc (length rs)) rs (omega arith) in
      record {
        gone = s.all (omega (arith, s.same (λ _. true), count_true gone, count_true rs));
        stay = λ p apart. omega (arith, s.same p, count_apart out p gone apart s.right);
      }

  -- `sm_expect_cancel_client` removes the requests of the client, all of them, and no other.
  pub cancel_client-Cancelled :
      (eng : Expects E) (client : Bytes)
      → Cancelled (λ r. same_text r.client_id client) eng (cancel_client eng client)
  unfolding cancel_client
  cancel_client-Cancelled eng client = cancel_if-Cancelled (λ r. same_text r.client_id client) eng

  -- `sm_expect_cancel_id` removes the requests with the id, all of them, and no other.
  pub cancel_id-Cancelled :
      (eng : Expects E) (id : Bytes) → Cancelled (λ r. same_text r.id id) eng (cancel_id eng id)
  unfolding cancel_id
  cancel_id-Cancelled eng id = cancel_if-Cancelled (λ r. same_text r.id id) eng
