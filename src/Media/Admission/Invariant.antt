-- ===== src/Media/Admission/Invariant.antt =====
-- What holds of the gate between two calls, whatever the callers do.
use whiterun_music_bot.Base.{
  ℕ, ◌≤◌, ◌≡◌, Bool, true, false, List, [], ◌∷◌, Option, none, some, String, arith,
}
use whiterun_music_bot.Media.Errors.{Err}
use whiterun_music_bot.Media.Admission.{
  Tag, is_blank, recovery_trials, ProviderAdmission, new_provider_admission, observe,
  observe_category, wait_recovery, finish_trial, rearm, take_slot, admit, release_slot,
  sustained_media,
}

pub record Inv (g : ProviderAdmission) : Type 0 where
  pub budget : g.status.attempts ≤ recovery_trials
  pub blocked_incident : g.status.blocked ≡ true → is_blank g.status.incident ≡ false
  pub probe_blocked : is_blank g.probe ≡ false → g.status.blocked ≡ true
  pub probe_counted : is_blank g.probe ≡ false → 1 ≤ g.status.attempts
  pub exhausted_spent : g.status.exhausted ≡ true → g.status.attempts ≡ recovery_trials
  pub capacity : g.slots ≤ g.concurrency

-- The calls of the package, with what the environment decides: the time, whether the caller's
-- context has ended, its permit, and the error that it reports. `admits` takes a slot first;
-- `readmits` is a later round of a caller that waited with its slot.
pub data Call : Type 0 where
  observes : ℕ → Option Err → Call
  waits : ℕ → Bool → Call
  finishes : ℕ → Tag → Option Err → Call
  rearms : Call
  admits : ℕ → Bool → Tag → Call
  readmits : ℕ → Bool → Tag → Call
  releases : Call
  sustains : Tag → ℕ → Call

abbrev enter : ℕ → Bool → Tag → Option ProviderAdmission → ProviderAdmission → ProviderAdmission
enter now done permit none g = g
enter now done permit (some held) g = (admit now done permit held).0

unfoldable pub step : ProviderAdmission → Call → ProviderAdmission
step g (observes now err) = observe now err g
step g (waits now done) = (wait_recovery now done g).0
step g (finishes now permit err) = finish_trial now permit err g
step g rearms = rearm g
step g (admits now done permit) = enter now done permit (take_slot g) g
step g (readmits now done permit) = (admit now done permit g).0
step g releases = release_slot g
step g (sustains permit epoch) = sustained_media permit epoch g

unfoldable pub run : ProviderAdmission → List Call → ProviderAdmission
unfolding step
run g [] = g
run g (c ∷ cs) = run (step g c) cs

observe_category-Inv :
    (now : ℕ) (category : String) (g : ProviderAdmission)
    → Inv g
    → Inv (observe_category now category g)
unfolding observe_category
observe_category-Inv now category g v = ground arith

finish_trial-Inv :
    (now : ℕ) (permit : Tag) (err : Option Err) (g : ProviderAdmission)
    → Inv g
    → Inv (finish_trial now permit err g)
unfolding finish_trial
finish_trial-Inv now permit err g v = ground arith

-- Every call keeps the trial budget, the link from a trial and a block to their incident, the
-- meaning of exhaustion, and the bound on concurrent work.
pub step-Inv : (g : ProviderAdmission) (c : Call) → Inv g → Inv (step g c)
unfolding step observe wait_recovery rearm take_slot admit sustained_media
step-Inv g (observes now none) v = v
step-Inv g (observes now (some e)) v = observe_category-Inv now _ g v
step-Inv g (waits now done) v = ground arith
step-Inv g (finishes now permit err) v = finish_trial-Inv now permit err g v
step-Inv g rearms v = ground arith
step-Inv g (admits now done permit) v = ground arith
step-Inv g (readmits now done permit) v = ground arith
step-Inv g releases v = ground arith
step-Inv g (sustains permit epoch) v = ground arith

new-Inv :
    (concurrency interval : ℕ) {g : ProviderAdmission}
    → new_provider_admission concurrency interval ≡ some g
    → Inv g
unfolding new_provider_admission
new-Inv concurrency interval e = ground arith

pub run-Inv : (g : ProviderAdmission) (cs : List Call) → Inv g → Inv (run g cs)
unfolding run
run-Inv g [] v = v
run-Inv g (c ∷ cs) v = run-Inv (step g c) cs (step-Inv g c v)

-- From a gate that NewProviderAdmission accepts, any history of calls keeps at most 3 recovery
-- trials counted in an incident, a trial only while the gate is blocked, and never more work in
-- flight than the configured concurrency.
pub gate_run-Inv :
    (concurrency interval : ℕ) (cs : List Call) {g : ProviderAdmission}
    → new_provider_admission concurrency interval ≡ some g
    → Inv (run g cs)
gate_run-Inv concurrency interval cs e = run-Inv _ cs (new-Inv concurrency interval e)
