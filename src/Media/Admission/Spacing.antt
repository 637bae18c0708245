-- ===== src/Media/Admission/Spacing.antt =====
-- How the starts of admitted work are spaced.
use whiterun_music_bot.Base.{
  ℕ, ◌+◌, ◌≤◌, ◌≡◌, refl, ◌∙◌, ◌⊎◌, Bool, true, false, List, [], ◌∷◌, none, some, arith,
}
use whiterun_music_bot.Media.Admission.{
  Tag, tag_eq, is_blank, ProviderAdmission, observe, wait_recovery, finish_trial, rearm, take_slot,
  admitted, admit, sustained_media,
}
use whiterun_music_bot.Media.Admission.Invariant.{
  Call, observes, waits, finishes, rearms, admits, readmits, releases, sustains, step, run,
}

step-next_start :
    (g : ProviderAdmission) (c : Call)
    → (g.next_start ≤ (step g c).next_start) × ((step g c).interval ≡ g.interval)
unfolding step observe wait_recovery finish_trial rearm take_slot admit sustained_media
step-next_start g (observes now none) = (omega arith, refl)
step-next_start g (observes now (some e)) = ground arith
step-next_start g (waits now done) = ground arith
step-next_start g (finishes now permit err) = ground arith
step-next_start g rearms = ground arith
step-next_start g (admits now done permit) = ground arith
step-next_start g (readmits now done permit) = ground arith
step-next_start g releases = (omega arith, refl)
step-next_start g (sustains permit epoch) = ground arith

run-next_start :
    (g : ProviderAdmission) (cs : List Call)
    → (g.next_start ≤ (run g cs).next_start) × ((run g cs).interval ≡ g.interval)
unfolding run
run-next_start g [] = (omega arith, refl)
run-next_start g (c ∷ cs) =
    let first = step-next_start g c in
    let rest = run-next_start (step g c) cs in (omega arith, rest.1 ∙ first.1)

admit-admitted :
    (now : ℕ) (done : Bool) (permit : Tag) (g : ProviderAdmission) (e : ℕ)
    → (admit now done permit g).1 ≡ admitted e
    → (g.next_start ≤ now)
      × ((admit now done permit g).0.next_start ≡ now + g.interval)
      × (e ≡ g.epoch)
      × ((g.status.blocked ≡ false) ⊎ ((is_blank g.probe ≡ false) × (tag_eq permit g.probe ≡ true)))
unfolding admit
admit-admitted now done permit g e a = ground arith

-- Two starts that the gate admits are at least its interval apart, whatever happens between them,
-- and each is admitted under the epoch then current; while the gate is blocked, a trial is in flight
-- whenever somebody is admitted, and it is its holder.
pub admit_spaced :
    (now later : ℕ) (done ended : Bool) (permit other : Tag) (g : ProviderAdmission)
    (cs : List Call) (e f : ℕ)
    → (admit now done permit g).1 ≡ admitted e
    → (admit later ended other (run (admit now done permit g).0 cs)).1 ≡ admitted f
    → let after = run (admit now done permit g).0 cs in
      (now + g.interval ≤ later)
      × (e ≡ g.epoch)
      × (f ≡ after.epoch)
      × ((after.status.blocked ≡ false)
          ⊎ ((is_blank after.probe ≡ false) × (tag_eq other after.probe ≡ true)))
admit_spaced now later done ended permit other g cs e f a b =
    let (_, next, epoch, _) = admit-admitted now done permit g e a in
    let (soon, _, epoch', free) = admit-admitted later ended other _ f b in
    let (grown, _) = run-next_start (admit now done permit g).0 cs in
    (omega arith, epoch, epoch', free)
