-- ===== src/Client/Feed/Chunks.antt =====
-- Calls of `sm_client_feed` in a row: however the bytes arrive, the messages are those of the lines.
use smolmux.Base.{
  ◌<◌, ◌≡◌, refl, sym, ap, ◌∙◌, Bool, true, false, Option, List, [], ◌∷◌, ◌++◌, Bytes, ◌==◌,
  if◌then◌else◌, if-elim, length, take, take-all, arith, append-nil, append_assoc,
}
use smolmux.Client.Feed.{
  extract, Reader, Read, got, again, ended, space, extract, take_lines, read_lines, feed, run,
  max_out, new_reader,
}
use smolmux.Client.Feed.Lines.{messages, extract-Passed}

-- The bytes that one call reads.
abbrev pub read_bytes : Reader → Read → Bytes
read_bytes r (got bytes) = if space r == 0 then [] else take (space r) bytes
read_bytes r again = []
read_bytes r ended = []

nothing_read : (r : Reader) (input : Read) → (space r == 0) ≡ true → read_bytes r input ≡ []
nothing_read r (got bytes) e = rw e refl
nothing_read r again e = refl
nothing_read r ended e = refl

shuffle : (a b c d : Bytes) → (a ++ b) ++ (c ++ d) ≡ (a ++ (b ++ c)) ++ d
shuffle a b c d = sym (append_assoc (a ++ b) c d) ∙ ap (λ l. l ++ d) (append_assoc a b c)

module _ {M : Type 0} (decode : Bytes → Option M) where
  -- The bytes that a run of calls reads.
  unfoldable pub all_bytes : Reader → List Read → Bytes
  all_bytes r [] = []
  all_bytes r (input ∷ inputs) =
      let rest = all_bytes (feed decode r input).1 inputs in
      if r.disconnected then [] else read_bytes r input ++ rest

  abbrev pub Cut : Bytes → List M × Reader → Type 0
  Cut text out =
      (more : Bytes)
      → out.0 ++ messages decode [] (out.1.read_buf ++ more) ≡ messages decode [] (text ++ more)

  take_lines-Cut : (r : Reader) → Cut r.read_buf (take_lines decode r)
  unfolding take_lines
  take_lines-Cut r = (extract-Passed decode max_out [] r.read_buf refl).rest

  read_lines-Cut :
      (r : Reader) (input : Read)
      → (space r == 0) ≡ false
      → Cut (r.read_buf ++ read_bytes r input) (read_lines decode r input)
  unfolding read_lines
  read_lines-Cut r (got bytes) e =
      rw e (take_lines-Cut (record r { read_buf = r.read_buf ++ take (space r) bytes }))
  read_lines-Cut r again e = rw (append-nil r.read_buf) (take_lines-Cut r)
  read_lines-Cut r ended e = rw (append-nil r.read_buf) (λ more. refl)

  feed-Cut :
      (r : Reader) (input : Read) → Cut (r.read_buf ++ read_bytes r input) (feed decode r input)
  unfolding feed
  feed-Cut r input =
      if-elim (Cut (r.read_buf ++ read_bytes r input)) (space r == 0) _ _
        (λ e. rw (nothing_read r input e, append-nil r.read_buf) (λ more. refl))
        (read_lines-Cut r input)

  stopped-Cut :
      (stop : Bool) (r : Reader) (bytes : Bytes) (out : List M × Reader)
      → Cut (r.read_buf ++ bytes) out
      → Cut (r.read_buf ++ (if stop then [] else bytes)) (if stop then ([], r) else out)
  stopped-Cut true r bytes out h = rw (append-nil r.read_buf) (λ more. refl)
  stopped-Cut false r bytes out h = h

  -- However the bytes arrive: the messages that the calls hand out, and then those of what is left in
  -- the buffer and of whatever follows, are those of all bytes that were read and of what follows.
  pub run-Cut :
      (r : Reader) (inputs : List Read)
      → Cut (r.read_buf ++ all_bytes r inputs) (run decode r inputs)
  unfolding run all_bytes
  run-Cut r [] = rw (append-nil r.read_buf) (λ more. refl)
  run-Cut r (input ∷ inputs) =
      let next : Reader = (feed decode r input).1 in
      let rest : Bytes = all_bytes next inputs in
      stopped-Cut r.disconnected r (read_bytes r input ++ rest) _ (λ more.
        append_assoc (feed decode r input).0 _ _
        ∙ ap ((feed decode r input).0 ++◌) (run-Cut next inputs more)
        ∙ ap (λ l. (feed decode r input).0 ++ messages decode [] l)
            (append_assoc next.read_buf rest more)
        ∙ feed-Cut r input (rest ++ more)
        ∙ ap (messages decode []) (shuffle r.read_buf (read_bytes r input) rest more))

  ended_silent : (r : Reader) → (feed decode r ended).0 ≡ []
  unfolding feed read_lines
  ended_silent r =
      if-elim (λ (x : List M × Reader). x.0 ≡ []) (space r == 0) _ _ (λ e. refl) (λ e. refl)

  -- When a peer sends its bytes at once and closes: only the first 16 messages are handed out, whatever
  -- else stands in whole lines.
  pub closing_drops :
      (bytes : Bytes)
      → length bytes < new_reader.read_cap
      → (run decode new_reader (got bytes ∷ ended ∷ [])).0 ≡ take 16 (messages decode [] bytes)
  unfolding run feed read_lines take_lines
  closing_drops bytes h =
      let left : Reader = record new_reader {
        read_buf = (extract decode max_out [] (take 65535 bytes)).1;
      } in
      ap ((extract decode max_out [] (take 65535 bytes)).0 ++◌) (append-nil _ ∙ ended_silent left)
      ∙ append-nil _
      ∙ ap (λ l. (extract decode max_out [] l).0) (take-all 65535 bytes (omega arith))
      ∙ (extract-Passed decode max_out [] bytes refl).first
