-- ===== src/Logs/Account.antt =====
-- Every record that was offered is accounted for once, in every order of events.
use whiterun_music_bot.Base.{
  ℕ, ◌+◌, ◌/◌, ◌%◌, ◌^◌, ◌≤◌, ◌<◌, ◌≡◌, refl, ◌∙◌, ◌⊎◌, inl, inr, arith, Bool, true, false, [], ◌∷◌,
  ◌++◌, length, ltb, leb, ◌==◌, if◌then◌else◌, Bool-cases, length-append,
}
use whiterun_music_bot.Logs.{
  Counters, LogStore, Written, committed, rolled_back, fails_after, write, flush_metrics, flush,
  take_record,
}

-- The records that wait or are in the batch, while the worker runs.
abbrev pub pending : LogStore → ℕ
pending s = if s.done then 0 else length s.queue + length s.batch

abbrev pub accounted : Counters → ℕ
accounted m = m.written + m.lost + m.overflow

-- After `offered` calls of enqueue.
pub record Accounts (offered : ℕ) (s : LogStore) : Type 0 where
  pub balance : (accounted s.metrics + pending s) % 2 ^ 64 ≡ offered % 2 ^ 64
  pub written_small : s.metrics.written < 2 ^ 64
  pub done_closed : (s.done ≡ false) ⊎ (s.closed ≡ true)
  pub canceled_closed : (s.canceled ≡ false) ⊎ (s.closed ≡ true)
  pub queued : length s.queue ≤ s.capacity
  pub limited : 0 < s.batch_limit
  pub batched : length s.batch < s.batch_limit

flush_metrics-balance :
    (w : Written) (n : ℕ) (m : Counters)
    → m.written < 2 ^ 64
    → (accounted (flush_metrics w n m) % 2 ^ 64 ≡ (accounted m + n) % 2 ^ 64)
      × ((flush_metrics w n m).written < 2 ^ 64)
unfolding flush_metrics write
flush_metrics-balance committed n m h = (omega arith, omega arith)
flush_metrics-balance rolled_back n m h = (omega arith, omega arith)
flush_metrics-balance fails_after n m h = (omega arith, omega arith)

-- What a turn of the worker leaves of a running store: all but the batch and the counters, which
-- account for the `more` records that it took.
pub record Worked (more : ℕ) (s t : LogStore) : Type 0 where
  pub queue : t.queue ≡ s.queue
  pub closed : t.closed ≡ s.closed
  pub canceled : t.canceled ≡ s.canceled
  pub done : t.done ≡ s.done
  pub capacity : t.capacity ≡ s.capacity
  pub batch_limit : t.batch_limit ≡ s.batch_limit
  pub small : t.metrics.written < 2 ^ 64
  pub balance :
      (accounted t.metrics + length t.batch) % 2 ^ 64
      ≡ (accounted s.metrics + length s.batch + more) % 2 ^ 64

pub flush-Worked :
    (w : Written) (s : LogStore) → s.metrics.written < 2 ^ 64 → Worked 0 s (flush w s)
unfolding flush
flush-Worked w s h = elim (Bool-cases (length s.batch == 0)) [
  | inl e ↦ rw e (record {
    queue = refl;
    closed = refl;
    canceled = refl;
    done = refl;
    capacity = refl;
    batch_limit = refl;
    small = h;
    balance = omega arith;
  })
  | inr e ↦
      let (b, small) = flush_metrics-balance w (length s.batch) s.metrics h in
      rw e (record {
        queue = refl;
        closed = refl;
        canceled = refl;
        done = refl;
        capacity = refl;
        batch_limit = refl;
        small = small;
        balance = omega (arith, b);
      })
]

pub flush-batch : (w : Written) (s : LogStore) → length (flush w s).batch ≡ 0
unfolding flush
flush-batch w s = ground arith

append-Worked :
    (s : LogStore) (payload : ℕ)
    → s.metrics.written < 2 ^ 64
    → Worked 1 s (record s { batch = s.batch ++ payload ∷ []; bytes = s.bytes + payload })
append-Worked s payload h = record {
  queue = refl;
  closed = refl;
  canceled = refl;
  done = refl;
  capacity = refl;
  batch_limit = refl;
  small = h;
  balance = omega (arith, length-append s.batch (payload ∷ []));
}

trans-Worked : (m n : ℕ) (s t u : LogStore) → Worked m s t → Worked n t u → Worked (m + n) s u
trans-Worked m n s t u a b = record {
  queue = b.queue ∙ a.queue;
  closed = b.closed ∙ a.closed;
  canceled = b.canceled ∙ a.canceled;
  done = b.done ∙ a.done;
  capacity = b.capacity ∙ a.capacity;
  batch_limit = b.batch_limit ∙ a.batch_limit;
  small = b.small;
  balance = omega (arith, a.balance, b.balance);
}

same-Worked : (s : LogStore) → s.metrics.written < 2 ^ 64 → Worked 0 s s
same-Worked s h = record {
  queue = refl;
  closed = refl;
  canceled = refl;
  done = refl;
  capacity = refl;
  batch_limit = refl;
  small = h;
  balance = omega arith;
}

if-Worked :
    (b : Bool) (w : Written) (s : LogStore)
    → s.metrics.written < 2 ^ 64
    → Worked 0 s (if b then flush w s else s)
if-Worked true w s h = flush-Worked w s h
if-Worked false w s h = same-Worked s h

pub take_record-Worked :
    (first second : Written) (payload : ℕ) (s : LogStore)
    → s.metrics.written < 2 ^ 64
    → Worked 1 s (take_record first second payload s)
unfolding take_record
take_record-Worked first second payload s h =
    let a = if-Worked (ltb (s.main_limit / 16) (s.bytes + payload)) first s h in
    let b = append-Worked _ payload a.small in
    trans-Worked 1 0 s _ _ (trans-Worked 0 1 s _ _ a b) (if-Worked _ second _ b.small)

full-batch :
    (w : Written) (t : LogStore)
    → 0 < t.batch_limit
    → length (if leb t.batch_limit (length t.batch) then flush w t else t).batch < t.batch_limit
full-batch w t h = elim (Bool-cases (leb t.batch_limit (length t.batch))) [
  | inl e ↦ rw e (omega (arith, flush-batch w t))
  | inr e ↦ rw e (ground (arith, e))
]

-- The batch stays below its limit.
pub take_record-batch :
    (first second : Written) (payload : ℕ) (s : LogStore)
    → s.metrics.written < 2 ^ 64
    → 0 < s.batch_limit
    → length (take_record first second payload s).batch < s.batch_limit
unfolding take_record
take_record-batch first second payload s h l =
    let over = ltb (s.main_limit / 16) (s.bytes + payload) in
    let kept : LogStore = if over then flush first s else s in
    let same = (if-Worked over first s h).batch_limit in
    let t : LogStore = record kept {
      batch = kept.batch ++ payload ∷ [];
      bytes = kept.bytes + payload;
    } in
    omega (arith, full-batch second t (omega (arith, same)), same)
