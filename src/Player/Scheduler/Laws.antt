-- ===== src/Player/Scheduler/Laws.antt =====
-- When the scheduler selects, and what.
use whiterun_music_bot.Base.{
  ℕ, ◌≤◌, ◌≡◌, refl, ◌⊎◌, inl, inr, Bool, true, false, not, ◌||◌, Option, List, [], ◌∷◌, is_some,
  arith,
}
use whiterun_music_bot.Media.Track.{Track}
use whiterun_music_bot.Media.Admission.{Tag, ProviderAdmission, is_blank}
use whiterun_music_bot.Player.State.{GuildPlayer, QueueEntry}
use whiterun_music_bot.Player.Scheduler.{run_round, selected, take_head, scheduler_reason, ready}

-- All that must hold for a round to select.
pub record IsReady (now : ℕ) (allow : Bool) (p : GuildPlayer) (e : QueueEntry)
    (rest : List QueueEntry) : Type 0 where
  pub head : p.queue ≡ e ∷ rest
  pub resolved : e.pending ≡ false
  pub running : p.canceled ≡ false
  pub attached : is_some p.voice ≡ true
  pub connected : p.voice_circuit.blocked ≡ false
  pub admitted : (p.provider.blocked ≡ false) ⊎ (allow ≡ true)
  pub going : p.halted ≡ false
  pub due : p.retry_at ≤ now

queue_cases :
    (q : List QueueEntry)
    → (q ≡ []) ⊎ ((e : QueueEntry) × (rest : List QueueEntry) × (q ≡ e ∷ rest))
queue_cases [] = inl refl
queue_cases (e ∷ rest) = inr (e, rest, refl)

ready_reason :
    (allow : Bool) (e : QueueEntry) (rest : List QueueEntry) (p : GuildPlayer)
    → p.queue ≡ e ∷ rest
    → e.pending ≡ false
    → p.canceled ≡ false
    → is_some p.voice ≡ true
    → p.voice_circuit.blocked ≡ false
    → (p.provider.blocked ≡ false) ⊎ (allow ≡ true)
    → p.halted ≡ false
    → scheduler_reason allow p ≡ ready
unfolding scheduler_reason
ready_reason allow e rest p h d r v c a s = ground (arith, h, d, r, v, c, a, s)

ready_only :
    (now : ℕ) (allow : Bool) (e : QueueEntry) (rest : List QueueEntry) (p : GuildPlayer)
    → p.queue ≡ e ∷ rest
    → scheduler_reason allow p ≡ ready
    → p.retry_at ≤ now
    → IsReady now allow p e rest
unfolding scheduler_reason
ready_only now allow e rest p h r d = ground (arith, h, r, d)

selected_facts :
    (now : ℕ) (local : Bool) (permit : Tag) (g : Option ProviderAdmission) (t : Track)
    (e : QueueEntry) (rest : List QueueEntry) (p : GuildPlayer)
    → p.queue ≡ e ∷ rest
    → (run_round now local permit g p).1 ≡ selected t
    → (scheduler_reason (not (is_blank permit) || local) p ≡ ready)
      × (p.retry_at ≤ now)
      × (e.track ≡ t)
unfolding run_round take_head
selected_facts now local permit g t e rest p head h = ground (arith, h, head)

-- A round selects only in that case: whenever it selects a track, all of those conditions hold and the
-- track is the head's.
pub selected_only :
    (now : ℕ) (local : Bool) (permit : Tag) (g : Option ProviderAdmission) (t : Track)
    (p : GuildPlayer)
    → (run_round now local permit g p).1 ≡ selected t
    → (e : QueueEntry) × (rest : List QueueEntry) × IsReady now
        (not (is_blank permit) || local)
        p
        e
        rest
      × (e.track ≡ t)
selected_only now local permit g t p h = elim (queue_cases p.queue) [
  | inl empty ↦ unfold run_round take_head in ground (arith, h, empty)
  | inr (e, rest, head) ↦
      let (reason, due, same) = selected_facts now local permit g t e rest p head h in
      (e, rest, ready_only now (not (is_blank permit) || local) e rest p head reason due, same)
]
