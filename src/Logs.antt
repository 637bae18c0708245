-- ===== src/Logs.antt =====
-- internal/logstore/store.go: the queue of log records and the worker that writes them in batches.
-- A record is the length of its payload; the database is a parameter: what becomes of a write is
-- an argument. The channel is a list with a capacity; the worker's select takes any ready case.
pub mod Account
pub mod Drain
pub mod Run
pub mod Close
mod Examples
use whiterun_music_bot.Base.{
  ℕ, ◌+◌, ◌-◌, ◌*◌, ◌/◌, ◌%◌, ◌^◌, min, max, Bool, true, false, ◌||◌, Option, none, some, List, [],
  ◌∷◌, ◌++◌, length, ltb, leb, ◌==◌, if◌then◌else◌,
}

abbrev pub page_size : ℕ
page_size = 4096

abbrev pub max_record_bytes : ℕ
max_record_bytes = 16384

-- The limits that Open computes.
unfoldable pub main_limit : ℕ → ℕ
main_limit max_bytes = max_bytes / 5 * 2 / page_size * page_size

unfoldable pub batch_limit : ℕ → ℕ → ℕ
batch_limit main batch = min batch (max 1 (main / (32 * page_size)))

unfoldable pub record_limit : ℕ → ℕ
record_limit main = min max_record_bytes (main / 16)

-- atomic.Uint64.Add.
abbrev pub add64 : ℕ → ℕ → ℕ
add64 a n = (a + n) % 2 ^ 64

-- The counters that enqueue and run change.
pub record Counters : Type 0 where
  pub written : ℕ
  pub failures : ℕ
  pub overflow : ℕ
  pub lost : ℕ
  pub batches : ℕ
  pub rows : ℕ

-- The Store, with the variables of run; `done` is that run has returned.
pub record LogStore : Type 0 where
  pub main_limit : ℕ
  pub batch_limit : ℕ
  pub capacity : ℕ
  pub queue : List ℕ
  pub closed : Bool
  pub canceled : Bool
  pub done : Bool
  pub batch : List ℕ
  pub bytes : ℕ
  pub metrics : Counters

abbrev pub new_store : ℕ → ℕ → ℕ → LogStore
new_store main limit capacity = record {
  main_limit = main;
  batch_limit = limit;
  capacity = capacity;
  queue = [];
  closed = false;
  canceled = false;
  done = false;
  batch = [];
  bytes = 0;
  metrics = record { written = 0; failures = 0; overflow = 0; lost = 0; batches = 0; rows = 0 };
}

-- The settings of Open, with its defaults; none when they are refused.
unfoldable pub open_store : ℕ → ℕ → ℕ → Option LogStore
unfolding main_limit batch_limit
open_store max_bytes0 buffer0 batch0 =
    let max_bytes = if max_bytes0 == 0 then 524288000 else max_bytes0 in
    let buffer = if buffer0 == 0 then 512 else buffer0 in
    let batch = if batch0 == 0 then 64 else batch0 in
    let main = main_limit max_bytes in
    if ltb max_bytes (2 ^ 20) || ltb 8192 buffer || ltb 256 batch
    then none
    else some (new_store main (batch_limit main batch) buffer)

abbrev pub add_lost : ℕ → LogStore → LogStore
add_lost n s = record s { metrics = record s.metrics { lost = add64 s.metrics.lost n } }

abbrev pub add_overflow : LogStore → LogStore
add_overflow s = record s { metrics = record s.metrics { overflow = add64 s.metrics.overflow 1 } }

-- enqueue, by whether the store is closed and whether the channel has room.
unfoldable pub enqueue_at : Bool → Bool → ℕ → LogStore → LogStore
enqueue_at true room payload s = add_lost 1 s
enqueue_at false true payload s = record s { queue = s.queue ++ payload ∷ [] }
enqueue_at false false payload s = add_overflow s

unfoldable pub enqueue : ℕ → LogStore → LogStore
unfolding enqueue_at
enqueue payload s = enqueue_at s.closed (ltb (length s.queue) s.capacity) payload s

-- Close, up to its wait; and its end when the caller's context is done first, by when it has
-- closed the queue.
unfoldable pub close_store : LogStore → LogStore
close_store s = record s { closed = true }

unfoldable pub cancel_store : LogStore → LogStore
cancel_store s = record s { canceled = true }

-- What becomes of write: the batch is committed, it is not, or it is and something after it fails.
pub data Written : Type 0 where
  committed rolled_back fails_after : Written

abbrev pub is_committed : Written → Bool
is_committed rolled_back = false
is_committed _ = true

abbrev pub has_failed : Written → Bool
has_failed committed = false
has_failed _ = true

-- The counters that write changes.
unfoldable pub write : Written → ℕ → Counters → Counters
write w n m =
    if is_committed w
    then record m {
      written = add64 m.written n;
      rows = add64 m.rows n;
      batches = add64 m.batches 1;
    }
    else m

-- a - b on a uint64.
abbrev pub sub64 : ℕ → ℕ → ℕ
sub64 a b = (a + (2 ^ 64 - b)) % 2 ^ 64

-- The counters after flush: what the failed write did not count is lost.
unfoldable pub flush_metrics : Written → ℕ → Counters → Counters
unfolding write
flush_metrics w n m0 =
    let m = write w n m0 in
    if has_failed w
    then record m {
      failures = add64 m.failures 1;
      lost = add64 m.lost (sub64 n (sub64 m.written m0.written));
    }
    else m

unfoldable pub flush : Written → LogStore → LogStore
unfolding flush_metrics
flush w s =
    if length s.batch == 0
    then s
    else record s { metrics = flush_metrics w (length s.batch) s.metrics; batch = []; bytes = 0 }

-- A record taken from the channel.
unfoldable pub take_record : Written → Written → ℕ → LogStore → LogStore
unfolding flush
take_record first second payload s0 =
    let s = if ltb (s0.main_limit / 16) (s0.bytes + payload) then flush first s0 else s0 in
    let t = record s { batch = s.batch ++ payload ∷ []; bytes = s.bytes + payload } in
    if leb t.batch_limit (length t.batch) then flush second t else t

-- The case of the channel, which is ready when there is a record or it is closed.
unfoldable pub receive : Written → Written → List ℕ → LogStore → LogStore
unfolding take_record flush
receive first second [] s = if s.closed then record (flush first s) { done = true } else s
receive first second (payload ∷ rest) s =
    take_record first second payload (record s { queue = rest })

-- The case of the ended context, once it has ended.
unfoldable pub abandon : LogStore → LogStore
abandon s =
    if s.canceled then record (add_lost (length s.batch + length s.queue) s) { done = true } else s

-- The turns of the worker and the calls of the others.
pub data LogEvent : Type 0 where
  enqueues : ℕ → LogEvent
  closes cancels abandons : LogEvent
  receives : Written → Written → LogEvent
  ticks : Written → LogEvent

unfoldable pub step : LogEvent → LogStore → LogStore
unfolding enqueue close_store cancel_store abandon receive flush
step (enqueues payload) s = enqueue payload s
step closes s = close_store s
step cancels s = if s.closed then cancel_store s else s
step abandons s = if s.done then s else abandon s
step (receives first second) s = if s.done then s else receive first second s.queue s
step (ticks w) s = if s.done then s else flush w s

unfoldable pub run : List LogEvent → LogStore → LogStore
unfolding step
run [] s = s
run (e ∷ es) s = run es (step e s)
