-- ===== src/Logs/Close.antt =====
-- A closed store drains: its worker comes to an end, and nothing is left unaccounted for.
use whiterun_music_bot.Base.{
  ℕ, ◌%◌, ◌^◌, ◌<◌, ◌≡◌, refl, ◌∙◌, ap, arith, Bool, true, false, some, List, [], ◌∷◌, length,
  if◌then◌else◌,
}
use whiterun_music_bot.Logs.{
  LogStore, open_store, Written, take_record, receive, flush, LogEvent, receives, step, run,
}
use whiterun_music_bot.Logs.Account.{accounted, pending, take_record-Worked}
use whiterun_music_bot.Logs.Run.{offered, run_account, run-Accounts}

-- Turns of the worker that take from the queue, with what becomes of the writes in each.
unfoldable pub turns : List (Written × Written) → List LogEvent
turns [] = []
turns ((a, b) ∷ ws) = receives a b ∷ turns ws

if_true : (b : Bool) (x y : LogStore) → b ≡ true → (if b then x else y) ≡ x
if_true true x y e = refl
if_true false x y e = cc

if_false : (b : Bool) (x y : LogStore) → b ≡ false → (if b then x else y) ≡ y
if_false true x y e = cc
if_false false x y e = refl

turns-done : (ws : List (Written × Written)) (s : LogStore) → s.done ≡ true → run (turns ws) s ≡ s
unfolding run step turns
turns-done [] s d = refl
turns-done ((a, b) ∷ ws) s d = ap (run (turns ws)) (if_true s.done s _ d) ∙ turns-done ws s d

step-receive :
    (a b : Written) (s : LogStore) (q : List ℕ)
    → s.done ≡ false
    → s.queue ≡ q
    → step (receives a b) s ≡ receive a b q s
unfolding step
step-receive a b s q d e = if_false s.done s _ d ∙ ap (λ x. receive a b x s) e

turns-ends :
    (ws : List (Written × Written)) (s : LogStore) (q : List ℕ)
    → s.metrics.written < 2 ^ 64
    → s.closed ≡ true
    → s.queue ≡ q
    → s.done ≡ false
    → length q < length ws
    → (run (turns ws) s).done ≡ true
unfolding run turns receive
turns-ends [] s q m c e d h = absurd (omega arith)
turns-ends ((a, b) ∷ ws) s [] m c e d h =
    let last = step-receive a b s [] d e ∙ if_true s.closed _ s c in
    let ended = turns-done ws (record (flush a s) { done = true }) refl in
    ap (λ x. (run (turns ws) x).done) last ∙ ap (λ x. x.done) ended
turns-ends ((a, b) ∷ ws) s (payload ∷ rest) m c e d h =
    let t : LogStore = record s { queue = rest } in
    let k = take_record-Worked a b payload t m in
    ap (λ x. (run (turns ws) x).done) (step-receive a b s (payload ∷ rest) d e)
    ∙ turns-ends ws (take_record a b payload t) rest k.small (k.closed ∙ c) k.queue (k.done ∙ d)
        (omega arith)

offered-turns : (ws : List (Written × Written)) → offered (turns ws) ≡ 0
unfolding offered turns
offered-turns [] = refl
offered-turns ((a, b) ∷ ws) = omega (arith, offered-turns ws)

done-pending : (s : LogStore) → s.done ≡ true → pending s ≡ 0
done-pending s e = rw e refl

-- When a store has been closed after any history and its worker still runs, as many turns of the
-- worker as there are records in the queue, and one more, bring it to its end, whatever becomes of
-- the writes; then every record that was ever offered was written, lost or refused (counted modulo
-- 2 ^ 64).
pub close_drains :
    (max_bytes buffer batch : ℕ) (es : List LogEvent) (s : LogStore) (ws : List (Written × Written))
    → open_store max_bytes buffer batch ≡ some s
    → (run es s).closed ≡ true
    → (run es s).done ≡ false
    → length (run es s).queue < length ws
    → let final = run (turns ws) (run es s) in
      (final.done ≡ true) × (accounted final.metrics % 2 ^ 64 ≡ offered es % 2 ^ 64)
close_drains max_bytes buffer batch es s ws o c d h =
    let v = run_account max_bytes buffer batch es s o in
    let ended = turns-ends ws (run es s) (run es s).queue v.written_small c refl d h in
    let w = run-Accounts (offered es) (turns ws) (run es s) v in
    (
      ended,
      omega (arith, w.balance, done-pending (run (turns ws) (run es s)) ended, offered-turns ws),
    )
