-- ===== src/Logs/Examples.antt =====
-- A store of the smallest size that takes three records, fails to write one batch, and is closed.
use whiterun_music_bot.Base.{◌%◌, ◌^◌, ◌≡◌, refl, arith, List, [], ◌∷◌, true}
use whiterun_music_bot.Logs.{
  LogStore, open_store, new_store, batch_limit, main_limit, committed, rolled_back, fails_after,
  LogEvent, enqueues, closes, receives, ticks, run,
}
use whiterun_music_bot.Logs.Account.{Accounts, accounted}
use whiterun_music_bot.Logs.Run.{offered, run_account}
use whiterun_music_bot.Logs.Close.{turns, close_drains}

abbrev small_store : LogStore
small_store = new_store 417792 3 2

abbrev history : List LogEvent
history =
    enqueues 100
    ∷ enqueues 200
    ∷ enqueues 300
    ∷ receives committed committed
    ∷ ticks rolled_back
    ∷ closes
    ∷ enqueues 400
    ∷ []

run_account_example : Accounts (offered history) (run history small_store)
unfolding open_store batch_limit main_limit
run_account_example = run_account 1048576 2 64 history small_store refl

close_drains_example :
    let final =
      run
        (turns ((committed, committed) ∷ (fails_after, committed) ∷ []))
        (run history small_store) in
    (final.done ≡ true) × (accounted final.metrics % 2 ^ 64 ≡ offered history % 2 ^ 64)
unfolding open_store run
close_drains_example =
    close_drains 1048576 2 64 history small_store
      ((committed, committed) ∷ (fails_after, committed) ∷ []) refl refl refl (omega arith)
