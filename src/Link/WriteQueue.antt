-- ===== src/Link/WriteQueue.antt =====
-- src/links/link_wq.c: the bytes that the device did not take yet, in a circular table that grows.
pub mod Inv
pub mod Enqueue
pub mod Flush
pub mod Write
use smolmux.Base.{
  ℕ, zero, suc, ◌+◌, ◌-◌, ◌*◌, ◌%◌, Bool, true, false, Option, none, some, List, [], ◌∷◌, ◌++◌,
  Bytes, ltb, leb, ◌==◌, if◌then◌else◌, length, get_or, set, drop, take,
}
use smolmux.Base.Ring.{cells, regrown}

-- `sm_link_wq_entry_t`; `len` is the length of `bytes`.
pub record Entry : Type 0 where
  pub bytes : Bytes
  pub offset : ℕ

abbrev pub no_entry : Entry
no_entry = record { bytes = []; offset = 0 }

-- `sm_link_wq_t`
pub record WriteQueue : Type 0 where
  pub entries : List Entry
  pub head : ℕ
  pub count : ℕ
  pub cap : ℕ
  pub total_bytes : ℕ

abbrev pub max_bytes : ℕ
max_bytes = 512 * 1024

pub init : WriteQueue
init = record { entries = []; head = 0; count = 0; cap = 0; total_bytes = 0 }

-- `sm_link_wq_clear` frees every block and the table.
pub clear : WriteQueue → WriteQueue
clear wq = init

pub has_pending : WriteQueue → Bool
has_pending wq = ltb 0 wq.count

abbrev pub queue : WriteQueue → List Entry
queue wq = cells no_entry wq.entries wq.cap wq.head 0 wq.count

-- What a call returns: 0, 1 and -1 of the source.
pub data Status : Type 0 where
  done more failed : Status

pub larger : ℕ → ℕ
larger cap = if cap == 0 then 16 else cap * 2

pub grow_table : WriteQueue → WriteQueue
grow_table wq = record wq {
  entries = regrown no_entry wq.entries wq.cap wq.head wq.count (larger wq.cap);
  cap = larger wq.cap;
  head = 0;
}

pub push_entry : WriteQueue → Bytes → WriteQueue
push_entry wq input =
    let e : Entry = record { bytes = input; offset = 0 } in
    record wq {
      entries = set wq.entries ((wq.head + wq.count) % wq.cap) e;
      count = wq.count + 1;
      total_bytes = wq.total_bytes + length input;
    }

-- `sm_link_wq_enqueue`. The flags are the success of the table's `calloc` and of the copy's `malloc`.
pub enqueue : Bool → Bool → WriteQueue → Bytes → Status × WriteQueue
enqueue table copy wq input =
    if length input == 0
    then (done, wq)
    else if ltb max_bytes (wq.total_bytes + length input)
    then (failed, wq)
    else if leb wq.cap wq.count
    then (if table
        then (if copy then (done, push_entry (grow_table wq) input) else (failed, grow_table wq))
        else (failed, wq))
    else if copy
    then (done, push_entry wq input)
    else (failed, wq)

-- What one `write` of a file descriptor did: so many bytes, none for now, or an error.
pub data Reply : Type 0 where
  wrote : ℕ → Reply
  again error : Reply

abbrev pub front : WriteQueue → Entry
front wq = get_or wq.entries wq.head no_entry

-- The loop body of `sm_link_wq_flush` behind a `write` of `n` bytes.
pub advance : WriteQueue → ℕ → WriteQueue
advance wq n =
    let e = front wq in
    let moved = record e { offset = e.offset + n } in
    if leb (length e.bytes) (e.offset + n)
    then record wq {
      entries = set wq.entries wq.head (record moved { bytes = [] });
      total_bytes = wq.total_bytes - n;
      head = (wq.head + 1) % wq.cap;
      count = wq.count - 1;
    }
    else record wq { entries = set wq.entries wq.head moved; total_bytes = wq.total_bytes - n }

-- What a run of writes leaves: its status, the queue, and the bytes that the device took.
pub record Run : Type 0 where
  pub status : Status
  pub wq : WriteQueue
  pub sent : Bytes

abbrev pub prepend : Bytes → Option Run → Option Run
prepend bytes none = none
prepend bytes (some r) = some (record r { sent = bytes ++ r.sent })

-- `os i len` is the reply of the kernel to the `i`-th `write`, of `len` bytes. A loop that runs out
-- of fuel gives `none`.
module _ (os : ℕ → ℕ → Reply) where
  -- `sm_link_wq_flush`
  pub flush : ℕ → ℕ → WriteQueue → Option Run
  flush zero i wq = none
  flush (suc fuel) i wq =
      let rest = drop (front wq).offset (front wq).bytes in
      let round : Option Run = elim (os i (length rest)) [
        | again ↦ some (record { status = more; wq = wq; sent = [] })
        | error ↦ some (record { status = failed; wq = wq; sent = [] })
        | wrote n ↦
            let next = prepend (take n rest) (flush fuel (i + 1) (advance wq n)) in
            if n == 0 then some (record { status = failed; wq = wq; sent = [] }) else next
      ] in
      if wq.count == 0 then some (record { status = done; wq = wq; sent = [] }) else round

  -- The loop of `sm_link_wq_write` over the bytes not yet written. The flags are those of `enqueue`.
  pub write_rest : Bool → Bool → ℕ → ℕ → WriteQueue → Bytes → Option Run
  write_rest table copy zero i wq rest = none
  write_rest table copy (suc fuel) i wq rest =
      let round : Option Run = elim (os i (length rest)) [
        | again ↦
            let (status, queued) = enqueue table copy wq rest in
            some (record { status = status; wq = queued; sent = [] })
        | error ↦ some (record { status = failed; wq = wq; sent = [] })
        | wrote n ↦
            let next =
              prepend (take n rest) (write_rest table copy fuel (i + 1) wq (drop n rest)) in
            if n == 0 then some (record { status = failed; wq = wq; sent = [] }) else next
      ] in
      if length rest == 0 then some (record { status = done; wq = wq; sent = [] }) else round

  -- `sm_link_wq_write`: behind a queue the bytes are queued too, so that they keep their order.
  pub write : Bool → Bool → ℕ → WriteQueue → Bytes → Option Run
  write table copy fuel wq input =
      let (status, queued) = enqueue table copy wq input in
      if length input == 0
      then some (record { status = done; wq = wq; sent = [] })
      else if has_pending wq
      then some (record { status = status; wq = queued; sent = [] })
      else write_rest table copy fuel 0 wq input
