-- ===== src/Logs/Drain.antt =====
-- The balance of the store's counters over a call of enqueue and over a turn of the worker.
use whiterun_music_bot.Base.{
  ℕ, ◌+◌, ◌<◌, ◌≡◌, refl, ◌∙◌, ap, inl, inr, arith, Bool, true, false, [], ◌∷◌, ◌++◌, length, ltb,
  ltb→lt, length-append,
}
use whiterun_music_bot.Logs.{LogStore, enqueue_at}
use whiterun_music_bot.Logs.Account.{Accounts, pending, accounted, Worked}

pub running-pending : (s : LogStore) → s.done ≡ false → pending s ≡ length s.queue + length s.batch
running-pending s e = rw e refl

open-running : (n : ℕ) (s : LogStore) → Accounts n s → s.closed ≡ false → s.done ≡ false
open-running n s v c = elim v.done_closed [ inl d ↦ d | inr k ↦ cc ]

pub enqueue_at-Accounts :
    (n payload : ℕ) (closed room : Bool) (s : LogStore)
    → Accounts n s
    → s.closed ≡ closed
    → ltb (length s.queue) s.capacity ≡ room
    → Accounts (n + 1) (enqueue_at closed room payload s)
unfolding enqueue_at
enqueue_at-Accounts n payload true room s v c r = record {
  balance = omega (arith, v.balance);
  written_small = v.written_small;
  done_closed = v.done_closed;
  canceled_closed = v.canceled_closed;
  queued = v.queued;
  limited = v.limited;
  batched = v.batched;
}
enqueue_at-Accounts n payload false true s v c r =
    let d = open-running n s v c in
    let longer = record s { queue = s.queue ++ payload ∷ [] } in
    record {
      balance = omega (
        arith,
        v.balance,
        running-pending s d,
        running-pending longer d,
        length-append s.queue (payload ∷ []),
      );
      written_small = v.written_small;
      done_closed = v.done_closed;
      canceled_closed = v.canceled_closed;
      queued = omega (arith, ltb→lt _ _ r, length-append s.queue (payload ∷ []));
      limited = v.limited;
      batched = v.batched;
    }
enqueue_at-Accounts n payload false false s v c r = record {
  balance = omega (arith, v.balance);
  written_small = v.written_small;
  done_closed = v.done_closed;
  canceled_closed = v.canceled_closed;
  queued = v.queued;
  limited = v.limited;
  batched = v.batched;
}

-- A turn of a running worker, from the store `t` that has `more` records less in its queue.
pub turn-Accounts :
    (n more : ℕ) (s t u : LogStore)
    → Accounts n s
    → s.done ≡ false
    → Worked more t u
    → u.closed ≡ s.closed
    → u.canceled ≡ s.canceled
    → u.done ≡ s.done
    → t.metrics ≡ s.metrics
    → t.batch ≡ s.batch
    → t.batch_limit ≡ s.batch_limit
    → t.capacity ≡ s.capacity
    → length t.queue + more ≡ length s.queue
    → length u.batch < u.batch_limit
    → Accounts n u
turn-Accounts n more s t u v d w c k e met bat lim cap len less =
    let batch = ap length bat in
    let counts = ap accounted met in
    let queue = ap length w.queue in
    record {
      balance = omega (
        arith,
        v.balance,
        w.balance,
        running-pending s d,
        running-pending u (e ∙ d),
        batch,
        counts,
        queue,
        len,
      );
      written_small = w.small;
      done_closed = inl (e ∙ d);
      canceled_closed = elim v.canceled_closed [ inl x ↦ inl (k ∙ x) | inr x ↦ inr (c ∙ x) ];
      queued = omega (arith, v.queued, queue, len, w.capacity, cap);
      limited = omega (arith, v.limited, w.batch_limit, lim);
      batched = less;
    }
