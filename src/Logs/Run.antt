-- ===== src/Logs/Run.antt =====
-- The balance of the store's counters over every history.
use whiterun_music_bot.Base.{
  ℕ, ◌+◌, ◌<◌, ◌≡◌, refl, ◌∙◌, ap, inl, inr, arith, Bool, true, false, none, some, List, [], ◌∷◌,
  length, ◌==◌, if◌then◌else◌,
}
use whiterun_music_bot.Logs.{
  LogStore, new_store, open_store, enqueue, close_store, cancel_store, Written, flush, take_record,
  receive, abandon, LogEvent, enqueues, closes, cancels, abandons, receives, ticks, step, run,
  batch_limit,
}
use whiterun_music_bot.Logs.Account.{
  Accounts, flush-Worked, take_record-Worked, take_record-batch, flush-batch,
}
use whiterun_music_bot.Logs.Drain.{enqueue_at-Accounts, turn-Accounts, running-pending}

if-Accounts :
    (n : ℕ) (b : Bool) (x y : LogStore)
    → (b ≡ true → Accounts n x)
    → (b ≡ false → Accounts n y)
    → Accounts n (if b then x else y)
if-Accounts n true x y h k = h refl
if-Accounts n false x y h k = k refl

flush-Accounts :
    (n : ℕ) (w : Written) (s : LogStore) → Accounts n s → s.done ≡ false → Accounts n (flush w s)
flush-Accounts n w s v d =
    let k = flush-Worked w s v.written_small in
    turn-Accounts n 0 s s (flush w s) v d k k.closed k.canceled k.done refl refl refl refl
      (omega arith) (omega (arith, flush-batch w s, k.batch_limit, v.limited))

-- run returns on a closed and empty queue, after a last flush.
end-Accounts :
    (n : ℕ) (w : Written) (s : LogStore)
    → Accounts n s
    → s.done ≡ false
    → s.closed ≡ true
    → s.queue ≡ []
    → Accounts n (record (flush w s) { done = true })
end-Accounts n w s v d c q =
    let k = flush-Worked w s v.written_small in
    let f = flush-Accounts n w s v d in
    record {
      balance = omega (
        arith,
        f.balance,
        running-pending (flush w s) (k.done ∙ d),
        flush-batch w s,
        ap length k.queue,
        ap length q,
      );
      written_small = f.written_small;
      done_closed = inr (k.closed ∙ c);
      canceled_closed = f.canceled_closed;
      queued = f.queued;
      limited = f.limited;
      batched = f.batched;
    }

receive-Accounts :
    (n : ℕ) (first second : Written) (q : List ℕ) (s : LogStore)
    → Accounts n s
    → s.done ≡ false
    → s.queue ≡ q
    → Accounts n (receive first second q s)
unfolding receive
receive-Accounts n first second [] s v d q =
    if-Accounts n s.closed _ s (λ c. end-Accounts n first s v d c q) (λ c. v)
receive-Accounts n first second (payload ∷ rest) s v d q =
    let t = record s { queue = rest } in
    let k = take_record-Worked first second payload t v.written_small in
    let less = take_record-batch first second payload t v.written_small v.limited in
    turn-Accounts n 1 s t (take_record first second payload t) v d k k.closed k.canceled k.done refl
      refl refl refl (omega (arith, ap length q)) (omega (arith, less, k.batch_limit))

abandon-Accounts : (n : ℕ) (s : LogStore) → Accounts n s → s.done ≡ false → Accounts n (abandon s)
unfolding abandon
abandon-Accounts n s v d =
    if-Accounts n s.canceled _ s
      (λ c. record {
        balance = omega (arith, v.balance, running-pending s d);
        written_small = v.written_small;
        done_closed = elim v.canceled_closed [ inl e ↦ cc | inr e ↦ inr e ];
        canceled_closed = v.canceled_closed;
        queued = v.queued;
        limited = v.limited;
        batched = v.batched;
      })
      (λ c. v)

-- The calls of enqueue among the events.
abbrev pub offers : LogEvent → ℕ
offers (enqueues payload) = 1
offers _ = 0

unfoldable pub offered : List LogEvent → ℕ
offered [] = 0
offered (e ∷ es) = offers e + offered es

still : (n : ℕ) (s : LogStore) → Accounts n s → Accounts (n + 0) s
still n s v = let plain : n + 0 ≡ n = omega arith in rw plain v

step-Accounts :
    (n : ℕ) (e : LogEvent) (s : LogStore) → Accounts n s → Accounts (n + offers e) (step e s)
unfolding step enqueue close_store cancel_store
step-Accounts n (enqueues payload) s v = enqueue_at-Accounts n payload s.closed _ s v refl refl
step-Accounts n closes s v = still n (close_store s) (record {
  balance = v.balance;
  written_small = v.written_small;
  done_closed = inr refl;
  canceled_closed = inr refl;
  queued = v.queued;
  limited = v.limited;
  batched = v.batched;
})
step-Accounts n cancels s v = still n _ (
    if-Accounts n s.closed (cancel_store s) s
      (λ c. record {
        balance = v.balance;
        written_small = v.written_small;
        done_closed = v.done_closed;
        canceled_closed = inr c;
        queued = v.queued;
        limited = v.limited;
        batched = v.batched;
      })
      (λ c. v))
step-Accounts n abandons s v =
    still n _ (if-Accounts n s.done s (abandon s) (λ d. v) (λ d. abandon-Accounts n s v d))
step-Accounts n (receives first second) s v = still n _ (
    if-Accounts n s.done s (receive first second s.queue s) (λ d. v)
      (λ d. receive-Accounts n first second s.queue s v d refl))
step-Accounts n (ticks w) s v =
    still n _ (if-Accounts n s.done s (flush w s) (λ d. v) (λ d. flush-Accounts n w s v d))

pub run-Accounts :
    (n : ℕ) (es : List LogEvent) (s : LogStore)
    → Accounts n s
    → Accounts (n + offered es) (run es s)
unfolding run offered
run-Accounts n [] s v = still n s v
run-Accounts n (e ∷ es) s v =
    let same : n + (offers e + offered es) ≡ (n + offers e) + offered es = omega arith in
    rw same (run-Accounts (n + offers e) es (step e s) (step-Accounts n e s v))

new_store-Accounts :
    (main limit capacity : ℕ) → 0 < limit → Accounts 0 (new_store main limit capacity)
new_store-Accounts main limit capacity h = record {
  balance = omega arith;
  written_small = omega arith;
  done_closed = inl refl;
  canceled_closed = inl refl;
  queued = omega arith;
  limited = h;
  batched = h;
}

batch_limit-positive : (main batch : ℕ) → 0 < batch → 0 < batch_limit main batch
unfolding batch_limit
batch_limit-positive main batch h = omega arith

or_default : (n d : ℕ) → 0 < d → 0 < (if n == 0 then d else n)
or_default n d h = ground arith

some_if : (b : Bool) (x y : LogStore) → (if b then none else some x) ≡ some y → x ≡ y
some_if true x y e = cc
some_if false x y e = cc

open_store-Accounts :
    (max_bytes buffer batch : ℕ) (s : LogStore)
    → open_store max_bytes buffer batch ≡ some s
    → Accounts 0 s
unfolding open_store
open_store-Accounts max_bytes buffer batch s e =
    rw (← some_if _ _ s e)
      (new_store-Accounts _ _ _ (batch_limit-positive _ _ (or_default batch 64 (omega arith))))

-- From its opening on, after any calls and turns of the worker in any order, each record offered
-- was written, lost, refused for want of room, or still waits in the queue or the batch (counted
-- modulo 2 ^ 64), the queue is within its capacity, and the batch below its limit.
pub run_account :
    (max_bytes buffer batch : ℕ) (es : List LogEvent) (s : LogStore)
    → open_store max_bytes buffer batch ≡ some s
    → Accounts (offered es) (run es s)
run_account max_bytes buffer batch es s e =
    let same : offered es ≡ 0 + offered es = omega arith in
    rw same (run-Accounts 0 es s (open_store-Accounts max_bytes buffer batch s e))
