-- ===== src/Tests/Link.antt =====
-- The write queue's theorems at a device that takes at most two bytes, and is busy at its third call.
use smolmux.Base.{codes, ℕ, suc, true, some, ◌++◌, ◌≡◌, arith, ltb, ◌==◌, if◌then◌else◌, length}
use smolmux.Link.WriteQueue.{WriteQueue, init, enqueue, Reply, wrote, again, Run, flush, write}
use smolmux.Link.WriteQueue.Inv.{IsValid, pending, init-IsValid}
use smolmux.Link.WriteQueue.Enqueue.{enqueue-Enqueued}
use smolmux.Link.WriteQueue.Flush.{Obeys, Conserved, flush-Conserved}
use smolmux.Link.WriteQueue.Write.{Written, write-Written}

abbrev slow : ℕ → ℕ → Reply
slow i len = if i == 2 then again else if ltb len 2 then wrote len else wrote 2

slow-Obeys : Obeys slow
slow-Obeys i len n h = ground arith

abbrev queued : WriteQueue
queued = (enqueue true true init (codes "reset\n")).1

queued-IsValid : IsValid queued
queued-IsValid = (enqueue-Enqueued true true init (codes "reset\n") init-IsValid).valid

flush-Conserved_example :
    (r : Run) × (flush slow (suc (length (pending queued))) 0 queued ≡ some r)
    × Conserved (pending queued) r
flush-Conserved_example = flush-Conserved slow slow-Obeys queued queued-IsValid

write-Written_example :
    (r : Run) × (write slow true true (suc 5) init (codes "hello") ≡ some r)
    × Written (pending init ++ (codes "hello")) r
write-Written_example = write-Written slow slow-Obeys true true init (codes "hello") init-IsValid
