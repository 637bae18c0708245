-- ===== src/Media/Admission/Budget.antt =====
-- How many trials an incident gets, that there is one at a time, and how starts are spaced.
use whiterun_music_bot.Base.{
  ℕ, ◌+◌, ◌≤◌, ◌≡◌, ◌≢◌, Bool, true, false, not, ◌&&◌, List, [], ◌∷◌, Option, none, some, arith,
  if◌then◌else◌,
}
use whiterun_music_bot.Media.Errors.{Err}
use whiterun_music_bot.Media.Admission.{
  Tag, is_blank, tag_eq, ProviderAdmission, Recovery, granted, observe, wait_recovery, finish_trial,
  rearm, take_slot, admit, was_canceled, recovery_trials,
}
use whiterun_music_bot.Media.Admission.Invariant.{
  Inv, Call, observes, waits, finishes, rearms, admits, readmits, releases, sustains, step,
  step-Inv, run, run-Inv,
}

-- Neither an operator's rearm nor sustained new audio: what guilds do on their own.
abbrev pub IsRoutine : List Call → Type 0
IsRoutine [] = Unit {0}
IsRoutine (rearms ∷ cs) = ⊥
IsRoutine (sustains permit epoch ∷ cs) = ⊥
IsRoutine (c ∷ cs) = IsRoutine cs

abbrev is_granted : Recovery → ℕ
is_granted (granted t) = 1
is_granted _ = 0

abbrev grant : ProviderAdmission → Call → ℕ
grant g (waits now done) = is_granted (wait_recovery now done g).1
grant g _ = 0

-- A trial that was canceled before it started any work is given back.
abbrev refund : ProviderAdmission → Call → ℕ
refund g (finishes now permit err) =
    if not (is_blank permit) && (tag_eq g.probe permit && (was_canceled err && not g.probe_spent))
    then 1
    else 0
refund g _ = 0

unfoldable pub grants : ProviderAdmission → List Call → ℕ
grants g [] = 0
grants g (c ∷ cs) = grant g c + grants (step g c) cs

unfoldable pub refunds : ProviderAdmission → List Call → ℕ
refunds g [] = 0
refunds g (c ∷ cs) = refund g c + refunds (step g c) cs

abbrev Keeps : ProviderAdmission → Call → Type 0
Keeps g c =
    (is_blank (step g c).status.incident ≡ false)
    × (grant g c + g.status.attempts ≡ (step g c).status.attempts + refund g c)

observe-Keeps :
    (now : ℕ) (err : Option Err) (g : ProviderAdmission)
    → is_blank g.status.incident ≡ false
    → Keeps g (observes now err)
unfolding observe step
observe-Keeps now none g i = (i, omega arith)
observe-Keeps now (some e) g i = ground arith

step-Keeps :
    (g : ProviderAdmission) (c : Call)
    → IsRoutine (c ∷ [])
    → Inv g
    → is_blank g.status.incident ≡ false
    → Keeps g c
unfolding step wait_recovery finish_trial take_slot admit
step-Keeps g (observes now err) r v i = observe-Keeps now err g i
step-Keeps g (waits now done) r v i = ground arith
step-Keeps g (finishes now permit none) r v i = ground arith
step-Keeps g (finishes now permit (some e)) r v i = ground arith
step-Keeps g rearms r v i = absurd r
step-Keeps g (admits now done permit) r v i = ground arith
step-Keeps g (readmits now done permit) r v i = ground arith
step-Keeps g releases r v i = ground arith
step-Keeps g (sustains permit epoch) r v i = absurd r

IsRoutine-uncons :
    (c : Call) (cs : List Call) → IsRoutine (c ∷ cs) → IsRoutine (c ∷ []) × IsRoutine cs
IsRoutine-uncons (observes now err) cs r = (tt, r)
IsRoutine-uncons (waits now done) cs r = (tt, r)
IsRoutine-uncons (finishes now permit err) cs r = (tt, r)
IsRoutine-uncons rearms cs r = absurd r
IsRoutine-uncons (admits now done permit) cs r = (tt, r)
IsRoutine-uncons (readmits now done permit) cs r = (tt, r)
IsRoutine-uncons releases cs r = (tt, r)
IsRoutine-uncons (sustains permit epoch) cs r = absurd r

grants-attempts :
    (g : ProviderAdmission) (cs : List Call)
    → Inv g
    → is_blank g.status.incident ≡ false
    → IsRoutine cs
    → grants g cs + g.status.attempts ≡ (run g cs).status.attempts + refunds g cs
unfolding grants refunds run
grants-attempts g [] v i r = omega arith
grants-attempts g (c ∷ cs) v i r =
    let (once, rest) = IsRoutine-uncons c cs r in
    let (i', kept) = step-Keeps g c once v i in
    omega (arith, kept, grants-attempts (step g c) cs (step-Inv g c v) i' rest)

-- During an incident, whatever calls guilds make short of sustained new audio or an operator's
-- rearm, the trials granted are at most the three of the budget, less those already used, plus the
-- ones given back.
pub grants_bounded :
    (g : ProviderAdmission) (cs : List Call)
    → Inv g
    → is_blank g.status.incident ≡ false
    → IsRoutine cs
    → grants g cs + g.status.attempts ≤ recovery_trials + refunds g cs
grants_bounded g cs v i r = omega (arith, grants-attempts g cs v i r, (run-Inv g cs v).budget)

-- Calls that do not end the trial `permit`.
abbrev pub LeavesTrial : Tag → List Call → Type 0
LeavesTrial permit [] = Unit {0}
LeavesTrial permit (sustains p epoch ∷ cs) = ⊥
LeavesTrial permit (finishes now p err ∷ cs) = (tag_eq permit p ≡ false) × LeavesTrial permit cs
LeavesTrial permit (c ∷ cs) = LeavesTrial permit cs

step-probe :
    (g : ProviderAdmission) (c : Call) (cs : List Call) (t : Tag)
    → is_blank t ≡ false
    → g.probe ≡ t
    → LeavesTrial t (c ∷ cs)
    → ((step g c).probe ≡ t) × LeavesTrial t cs
unfolding step observe wait_recovery finish_trial rearm take_slot admit
step-probe g (observes now none) cs t b p l = (p, l)
step-probe g (observes now (some e)) cs t b p l = (ground arith, l)
step-probe g (waits now done) cs t b p l = (ground arith, l)
step-probe g (finishes now permit err) cs t b p l = (ground arith, l.1)
step-probe g rearms cs t b p l = (ground arith, l)
step-probe g (admits now done permit) cs t b p l = (ground arith, l)
step-probe g (readmits now done permit) cs t b p l = (ground arith, l)
step-probe g releases cs t b p l = (p, l)
step-probe g (sustains permit epoch) cs t b p l = absurd l

run-probe :
    (g : ProviderAdmission) (cs : List Call) (t : Tag)
    → is_blank t ≡ false
    → g.probe ≡ t
    → LeavesTrial t cs
    → (run g cs).probe ≡ t
unfolding run
run-probe g [] t b p l = p
run-probe g (c ∷ cs) t b p l =
    let (p', l') = step-probe g c cs t b p l in run-probe (step g c) cs t b p' l'

wait_recovery-granted :
    (now : ℕ) (done : Bool) (g : ProviderAdmission) (t : Tag)
    → (wait_recovery now done g).1 ≡ granted t
    → (is_blank g.probe ≡ true) × ((wait_recovery now done g).0.probe ≡ t) × (is_blank t ≡ false)
unfolding wait_recovery
wait_recovery-granted now done g t e = ground arith

-- Once a caller has a trial, no other caller gets one until that trial is finished under its own
-- permit or sustained new audio closes the incident.
pub one_trial :
    (now later : ℕ) (done ended : Bool) (g : ProviderAdmission) (cs : List Call) (t u : Tag)
    → (wait_recovery now done g).1 ≡ granted t
    → LeavesTrial t cs
    → (wait_recovery later ended (run (wait_recovery now done g).0 cs)).1 ≢ granted u
one_trial now later done ended g cs t u e l again =
    let (free, held, named) = wait_recovery-granted now done g t e in
    let still = run-probe (wait_recovery now done g).0 cs t named held l in
    let second = wait_recovery-granted later ended (run (wait_recovery now done g).0 cs) u again in
    ground arith
