-- ===== src/Media/Examples.antt =====
-- A gate with a closed breaker, to which the theorems on internal/media apply.
mod Caching
mod Matches
use whiterun_music_bot.Base.{
  ℕ, ◌+◌, ◌≤◌, ◌≡◌, ◌≢◌, ◌⊎◌, refl, true, false, some, List, [], ◌∷◌, arith,
}
use whiterun_music_bot.Media.Errors.{
  Err, extraction, no_cause, is_voice_failure, is_admission_blocked, as_extraction, as_stream,
  extraction_category, one_of,
}
use whiterun_music_bot.Media.Errors.Provider.{
  or_classified, video_specific, global_provider_failure, provider_failure_category,
}
use whiterun_music_bot.Media.Errors.Laws.{global_provider_failure-local}
use whiterun_music_bot.Media.Admission.{
  blank, is_blank, process, trial, tag_eq, ProviderAdmission, new_provider_admission, no_status,
  wait_recovery, granted, admit, recovery_trials,
}
use whiterun_music_bot.Media.Admission.Invariant.{Inv, Call, waits, finishes, run, gate_run-Inv}
use whiterun_music_bot.Media.Admission.Budget.{grants, refunds, grants_bounded, one_trial}
use whiterun_music_bot.Media.Admission.Spacing.{admit_spaced}

abbrev closed : ProviderAdmission
closed = record {
  concurrency = 2;
  slots = 0;
  interval = 250;
  next_start = 0;
  changes = 1;
  status = record {
    blocked = true;
    exhausted = false;
    incident = process 1;
    category = "youtube_bot_challenge";
    attempts = 0;
    retry_at = 15;
  };
  epoch = 1;
  probe = blank;
  probe_spent = false;
  failures = 1;
  probe_failures = 0;
}

abbrev opened : ProviderAdmission
opened = record closed { status = record closed.status { blocked = false; incident = blank } }

closed-Inv : Inv closed
closed-Inv = ground arith

abbrev calls : List Call
calls = waits 20 false ∷ waits 21 false ∷ finishes 30 (trial (process 1) 1) (some Err.canceled) ∷ []

gate_run-Inv_example : Inv (
    run
      (record {
        concurrency = 2;
        slots = 0;
        interval = 250;
        next_start = 0;
        changes = 0;
        status = no_status;
        epoch = 0;
        probe = blank;
        probe_spent = false;
        failures = 0;
        probe_failures = 0;
      })
      calls)
unfolding new_provider_admission
gate_run-Inv_example = gate_run-Inv 2 250 calls refl

grants_bounded_example :
    grants closed calls + closed.status.attempts ≤ recovery_trials + refunds closed calls
grants_bounded_example = grants_bounded closed calls closed-Inv refl tt

one_trial_example :
    (wait_recovery 40 false (run (wait_recovery 20 false closed).0 (waits 21 false ∷ []))).1
    ≢ granted (trial (process 1) 2)
unfolding wait_recovery
one_trial_example =
    one_trial 20 40 false false closed (waits 21 false ∷ []) (trial (process 1) 1)
      (trial (process 1) 2) refl tt

abbrev first_epoch : ℕ
first_epoch = 1

admit_spaced_example :
    let after = run (admit 10 false blank opened).0 [] in
    (10 + 250 ≤ 300)
    × (first_epoch ≡ opened.epoch)
    × (first_epoch ≡ after.epoch)
    × ((after.status.blocked ≡ false)
        ⊎ ((is_blank after.probe ≡ false) × (tag_eq blank after.probe ≡ true)))
unfolding admit run
admit_spaced_example = admit_spaced 10 300 false false blank blank opened [] 1 1 refl refl

not_blank : global_provider_failure (extraction "youtube_bot_challenge" false no_cause) ≢ ""
unfolding global_provider_failure is_admission_blocked as_extraction as_stream extraction_category
    one_of or_classified video_specific
not_blank = λ h. cc

global_provider_failure-local_example :
    provider_failure_category (extraction "youtube_bot_challenge" false no_cause)
    ≡ global_provider_failure (extraction "youtube_bot_challenge" false no_cause)
unfolding is_voice_failure
global_provider_failure-local_example =
    global_provider_failure-local (extraction "youtube_bot_challenge" false no_cause) refl not_blank
