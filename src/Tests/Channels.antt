-- ===== src/Tests/Channels.antt =====
-- The channels of crates/tx5-connection/src/lib.rs and crates/tx5-core/src/evt.rs, and the file cache of
-- crates/tx5-core/src/file_check.rs, on concrete runs.
use tx.Base.{◌+◌, ℕ, ◌≤◌, ◌≡◌, refl, true, false, List, [], ◌∷◌, ◌++◌, none, bytes_eq}
use tx.Mem.Slab.{slots_slab}
use tx.Chan.Queue.{bounded, Bounded}
use tx.Chan.Sender
use tx.Chan.Sender.{Shared, flushed, elapsed}
use tx.Chan.Delivery
use tx.Chan.Delivery.{
  accepted, obtained, tally, answers, begins, run-delivered, send_or_close_op, send_op, end_op,
  clone_op, set_op, drop_op, recv_op,
}
use tx.Chan.Closing
use tx.Chan.Closing.{run-closed}
use tx.Framed.Semaphore.{counting}
use tx.Evt
use tx.Evt.Bound
use tx.Evt.Bound.{total, flags, events, run-bounded}
use tx.Url.Simple.{simple}
use tx.Cache
use tx.Cache.Validity.{Handle, file_check-Handle}

abbrev chan_ops : List (Delivery.Op ℕ)
chan_ops =
    send_or_close_op 1
    ∷ clone_op 1
    ∷ send_op 2
    ∷ recv_op
    ∷ end_op flushed
    ∷ set_op 1 true
    ∷ drop_op 1
    ∷ send_or_close_op 3
    ∷ recv_op
    ∷ []

abbrev two_wide : Shared (Bounded ℕ)
two_wide = record {
  chan = record { size = 2; held = []; takes = true };
  sender = true;
  handles = (0, false) ∷ [];
  flushing = 0;
}

run-delivered_example :
    let (s', trace) = Delivery.run ℕ two_wide chan_ops in
    (accepted trace ≡ obtained trace ++ s'.chan.held)
    × (tally answers trace + s'.flushing ≤ two_wide.flushing + tally begins trace)
run-delivered_example = run-delivered ℕ two_wide chan_ops

-- A `send` has put its item in and waits.
abbrev one_sending : Shared (Bounded ℕ)
one_sending = record {
  chan = record { size = 2; held = 7 ∷ []; takes = true };
  sender = true;
  handles = (0, false) ∷ [];
  flushing = 1;
}

run-closed_example :
    let (s', trace) = Delivery.run ℕ (Delivery.operate ℕ one_sending (end_op elapsed)).0 chan_ops in
    (accepted trace ≡ [])
    × ((Delivery.operate ℕ one_sending (end_op elapsed)).0.chan.held
        ≡ obtained trace ++ s'.chan.held)
unfolding Closing.closes Delivery.operate Sender.send_end
run-closed_example = run-closed ℕ one_sending (end_op elapsed) chan_ops refl

abbrev event_ops : List (Bound.Op ℕ)
event_ops =
    Bound.try_permit_op
    ∷ Bound.send_op 1
    ∷ Bound.send_op 2
    ∷ Bound.send_err_op 3
    ∷ Bound.send_err_op 4
    ∷ Bound.send_permit_op 5
    ∷ Bound.recv_op
    ∷ []

run-bounded_example :
    let (c, w) = Bound.run (Evt.new {S = ℕ} 2) ([], true) event_ops in
    (total c ≡ 2) × (flags c.queue ≡ w.0) × (events w.0 ≤ 2)
run-bounded_example = run-bounded 2 event_ops

abbrev raced : Cache.Answers
raced = record {
  env = none;
  app_root = true;
  at_first = Cache.missing;
  written = true;
  persisted = false;
  perms_set = true;
  once_persisted = Cache.missing;
  in_the_way = Cache.file (9 ∷ []) true;
  at_temporary = Cache.file (1 ∷ []) true;
}

file_check-Handle_example :
    Handle
      (λ d. d)
      (1 ∷ [])
      (1 ∷ [])
      raced
      (Cache.file_check (λ d. d) (1 ∷ []) (1 ∷ []) raced)
      Cache.temporary
unfolding Cache.file_check Cache.validate Cache.get_cache_dir bytes_eq
file_check-Handle_example = file_check-Handle (λ d. d) (1 ∷ []) (1 ∷ []) raced Cache.temporary refl
