-- ===== src/Player/Durability.antt =====
-- What is on disk after a command, and what a restart makes of it.
pub mod Restore
pub mod Repair
use whiterun_music_bot.Base.{
  ℕ, ◌≡◌, ◌⊎◌, inl, inr, get_elem?, ◌-◌, String, Bool, false, Option, none, some, List, [], ◌∷◌,
  arith, Option-cases,
}
use whiterun_music_bot.Media.Track.{Track}
use whiterun_music_bot.Player.State.{GuildPlayer, Disk, DurableState, clean}
use whiterun_music_bot.Player.Durable.{persist, durable, save, fails}
use whiterun_music_bot.Player.Queue.{
  remove, move, shuffle, jump, replay, set_loop, set_autoplay, previous,
}
use whiterun_music_bot.Player.Jobs.{signal}
use whiterun_music_bot.Player.Commands.{enqueue_many, stop, leave, clear, skip_n}
use whiterun_music_bot.Player.Collection.{
  begin_collection, commit, commit_result, commit_results, Resolution,
}
use whiterun_music_bot.Player.System.{Event, step}

-- The commands that change what survives a restart, and the collections' commits.
abbrev pub IsSaving : Event → Type 0
IsSaving (Event.enqueues ts ticket) = Unit {0}
IsSaving (Event.begins done matcher ts skipped ticket) = Unit
IsSaving Event.stops = Unit
IsSaving Event.leaves = Unit
IsSaving Event.clears = Unit
IsSaving (Event.skips count) = Unit
IsSaving (Event.removes position) = Unit
IsSaving (Event.moves from to) = Unit
IsSaving (Event.shuffles algorithm) = Unit
IsSaving (Event.jumps position) = Unit
IsSaving Event.replays = Unit
IsSaving Event.previouses = Unit
IsSaving (Event.sets_loop mode) = Unit
IsSaving (Event.sets_autoplay enabled) = Unit
IsSaving (Event.commits id ended results) = Unit
IsSaving _ = ⊥

abbrev pub saved_in : Option Disk → Option DurableState
saved_in none = none
saved_in (some d) = some d.saved

-- The database holds exactly the state that a restart should find, and no write is missing.
abbrev pub IsSaved : GuildPlayer → Type 0
IsSaved p = (saved_in p.persistence.store ≡ some (durable p)) × (p.persistence.error ≡ clean)

-- A disk that takes the next write.
pub record IsWritable (p : GuildPlayer) : Type 0 where
  pub disk : Disk
  pub attached : p.persistence.store ≡ some disk
  pub works : fails disk.faults ≡ false
  pub running : p.canceled ≡ false

-- A save of any state of this player's store succeeds.
save-IsSaved :
    (p : GuildPlayer) (s : DurableState)
    → IsWritable p
    → (saved_in (save p.canceled s none p.persistence).store ≡ some s)
      × ((save p.canceled s none p.persistence).error ≡ clean)
unfolding save
save-IsSaved p s w = ground (arith, w.attached, w.works, w.running)

-- What a command may do: refuse and leave the player as it was, or change it and save it.
abbrev pub Kept : GuildPlayer → GuildPlayer → Type 0
Kept p q = (q ≡ p) ⊎ IsSaved q

remove-IsSaved : (position : ℕ) (p : GuildPlayer) → IsWritable p → Kept p (remove position p).0
unfolding remove durable
remove-IsSaved position p w = ground (arith, w.attached, w.works, w.running)

move-IsSaved : (from to : ℕ) (p : GuildPlayer) → IsWritable p → Kept p (move from to p).0
unfolding move durable
move-IsSaved from to p w = elim (Option-cases (get_elem? p.queue (from - 1))) [
  | inl e ↦ ground (arith, e)
  | inr (t, e) ↦ ground (arith, e, w.attached, w.works, w.running)
]

shuffle-IsSaved :
    (algorithm : ℕ → List (ℕ × ℕ)) (p : GuildPlayer) → IsWritable p → Kept p (shuffle algorithm p).0
unfolding shuffle durable
shuffle-IsSaved algorithm p w = ground (arith, w.attached, w.works, w.running)

jump-IsSaved : (position : ℕ) (p : GuildPlayer) → IsWritable p → Kept p (jump position p).0
unfolding jump durable
jump-IsSaved position p w = ground (arith, w.attached, w.works, w.running)

replay-IsSaved : (p : GuildPlayer) → IsWritable p → Kept p (replay p).0
unfolding replay durable
replay-IsSaved p w = ground (arith, w.attached, w.works, w.running)

previous-IsSaved : (p : GuildPlayer) → IsWritable p → IsSaved (previous p).0
unfolding previous durable
previous-IsSaved p w = ground (arith, w.attached, w.works, w.running)

set_loop-IsSaved : (mode : String) (p : GuildPlayer) → IsWritable p → Kept p (set_loop mode p).0
unfolding set_loop durable
set_loop-IsSaved mode p w = ground (arith, w.attached, w.works, w.running)

set_autoplay-IsSaved :
    (enabled : Bool) (p : GuildPlayer) → IsWritable p → IsSaved (set_autoplay enabled p)
unfolding set_autoplay durable
set_autoplay-IsSaved enabled p w = ground (arith, w.attached, w.works, w.running)

stop-IsSaved : (p : GuildPlayer) → IsWritable p → IsSaved (stop p)
unfolding stop durable
stop-IsSaved p w = ground (arith, w.attached, w.works, w.running)

leave-IsSaved : (p : GuildPlayer) → IsWritable p → IsSaved (leave p)
unfolding leave durable
leave-IsSaved p w = ground (arith, w.attached, w.works, w.running)

clear-IsSaved : (p : GuildPlayer) → IsWritable p → IsSaved (clear p).0
unfolding clear durable
clear-IsSaved p w = ground (arith, w.attached, w.works, w.running)

enqueue_many-IsSaved :
    (ts : List Track) (ticket : ℕ) (p : GuildPlayer)
    → IsWritable p
    → IsSaved (enqueue_many ts ticket p).0
unfolding enqueue_many durable
enqueue_many-IsSaved ts ticket p w = ground (arith, w.attached, w.works, w.running)

begin_collection-IsSaved :
    (done matcher : Bool) (ts : List Track) (skipped ticket : ℕ) (p : GuildPlayer)
    → IsWritable p
    → IsSaved (begin_collection done matcher ts skipped ticket p).0
unfolding begin_collection durable
begin_collection-IsSaved done matcher ts skipped ticket p w =
    ground (arith, w.attached, w.works, w.running)

skip_n-IsSaved : (count : ℕ) (p : GuildPlayer) → IsWritable p → Kept p (skip_n count p).0
unfolding skip_n durable
skip_n-IsSaved count p w = ground (arith, w.attached, w.works, w.running)

commit_results-IsWritable :
    (id : ℕ) (rs : List Resolution) (p : GuildPlayer)
    → IsWritable p
    → IsWritable (commit_results id rs p)
unfolding commit_results
commit_results-IsWritable id [] p w = w
commit_results-IsWritable id (r ∷ rs) p w =
    commit_results-IsWritable id rs (commit_result id r p) (record {
      disk = w.disk;
      attached = unfold commit_result in w.attached;
      works = w.works;
      running = unfold commit_result in w.running;
    })

signal-persist-IsSaved : (p : GuildPlayer) → IsWritable p → IsSaved (persist (signal p))
unfolding signal persist durable
signal-persist-IsSaved p w = ground (arith, w.attached, w.works, w.running)

commit-IsSaved :
    (id : ℕ) (ended : Bool) (rs : List Resolution) (p : GuildPlayer)
    → IsWritable p
    → IsSaved (commit id ended rs p).0
unfolding commit durable
commit-IsSaved id ended rs p w =
    let v = commit_results-IsWritable id rs p w in
    ground (arith, w.attached, w.works, w.running, v.attached, v.works, v.running)

-- When the disk takes the write, a command that changes the queue, the loop mode, autoplay or the
-- history leaves the database holding exactly the player's durable state with no write missing; the
-- only other outcome is that the command changed nothing at all. A collection's commit is the same.
pub command_durable : (e : Event) (p : GuildPlayer) → IsSaving e → IsWritable p → Kept p (step e p)
unfolding step
command_durable (Event.enqueues ts ticket) p h w = inr (enqueue_many-IsSaved ts ticket p w)
command_durable (Event.begins done matcher ts skipped ticket) p h w =
    inr (begin_collection-IsSaved done matcher ts skipped ticket p w)
command_durable Event.stops p h w = inr (stop-IsSaved p w)
command_durable Event.leaves p h w = inr (leave-IsSaved p w)
command_durable Event.clears p h w = inr (clear-IsSaved p w)
command_durable (Event.skips count) p h w = skip_n-IsSaved count p w
command_durable (Event.removes position) p h w = remove-IsSaved position p w
command_durable (Event.moves from to) p h w = move-IsSaved from to p w
command_durable (Event.shuffles algorithm) p h w = shuffle-IsSaved algorithm p w
command_durable (Event.jumps position) p h w = jump-IsSaved position p w
command_durable Event.replays p h w = replay-IsSaved p w
command_durable Event.previouses p h w = inr (previous-IsSaved p w)
command_durable (Event.sets_loop mode) p h w = set_loop-IsSaved mode p w
command_durable (Event.sets_autoplay enabled) p h w = inr (set_autoplay-IsSaved enabled p w)
command_durable (Event.commits id ended rs) p h w = inr (commit-IsSaved id ended rs p w)
command_durable (Event.attaches _) p h w = elim h [ ]
command_durable Event.closes p h w = elim h [ ]
command_durable (Event.pauses _ _ _) p h w = elim h [ ]
command_durable Event.suspends p h w = elim h [ ]
command_durable (Event.blocks _ _ _) p h w = elim h [ ]
command_durable (Event.finishes_trial _ _ _ _) p h w = elim h [ ]
command_durable (Event.rounds _ _ _ _) p h w = elim h [ ]
command_durable (Event.gets_metadata _ _ _) p h w = elim h [ ]
command_durable (Event.starts _ _) p h w = elim h [ ]
command_durable (Event.sends _ _ _ _) p h w = elim h [ ]
command_durable (Event.ends _ _ _ _ _) p h w = elim h [ ]
command_durable Event.recovers p h w = elim h [ ]
command_durable (Event.tries_voice _ _ _) p h w = elim h [ ]
command_durable (Event.tried_voice _ _ _) p h w = elim h [ ]
command_durable Event.retries_save p h w = elim h [ ]
command_durable Event.retry_ends p h w = elim h [ ]
command_durable (Event.searches _ _ _ _ _ _) p h w = elim h [ ]
command_durable (Event.searched _ _ _ _ _ _ _ _ _ _) p h w = elim h [ ]
command_durable (Event.records _ _) p h w = elim h [ ]
command_durable (Event.ends_job _) p h w = elim h [ ]
command_durable (Event.configures_youtube _ _) p h w = elim h [ ]
command_durable (Event.seeks _) p h w = elim h [ ]
command_durable (Event.enters_wait _ _) p h w = elim h [ ]
command_durable (Event.adopts _ _) p h w = elim h [ ]
command_durable (Event.waits_latch _ _) p h w = elim h [ ]
command_durable Event.announces_provider p h w = elim h [ ]
