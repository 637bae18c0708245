-- ===== src/Player/System/Commands.antt =====
-- The commands of internal/player keep the bounds.
use whiterun_music_bot.Base.{
  ℕ, suc, ◌+◌, ◌-◌, ◌≡◌, refl, ap, Bool, Option, none, some, List, [], ◌∷◌, String, length, take,
  drop, length-append, length-take, length-drop, length-set, get_elem?, get_elem?-lt, Option-cases,
  inl, inr, set, ◌∙◌, arith, occupancy, min,
}
use whiterun_music_bot.Media.Track.{Track}
use whiterun_music_bot.Media.Admission.{ProviderStatus}
use whiterun_music_bot.Player.State.{GuildPlayer, QueueEntry}
use whiterun_music_bot.Player.Queue.{
  remove, move, swap, swaps, shuffle, jump, replay, set_loop, previous, past,
}
use whiterun_music_bot.Player.Queue.Laws.{length-move_entry}
use whiterun_music_bot.Player.Pause.{
  set_paused, resume_global, pause_current, resume_local, resume_halted, pause_suspended,
}
use whiterun_music_bot.Player.Commands.{
  attach, enqueue_many, entries_from, stop, leave, close, clear, skip_n,
}
use whiterun_music_bot.Player.System.Bounds.{Inv}

pub attach-Inv : (v : ℕ) (p : GuildPlayer) → Inv p → Inv (attach v p).0
unfolding attach
attach-Inv v p i = ground arith

length-entries_from : (k total : ℕ) (ts : List Track) → length (entries_from k total ts) ≡ length ts
unfolding entries_from
length-entries_from k total [] = refl
length-entries_from k total (t ∷ ts) = ap suc (length-entries_from (k + 1) total ts)

pub enqueue_many-Inv :
    (ts : List Track) (ticket : ℕ) (p : GuildPlayer) → Inv p → Inv (enqueue_many ts ticket p).0
unfolding enqueue_many
enqueue_many-Inv ts ticket p i = ground (
  arith,
  length-append p.queue (entries_from 0 (length ts) ts),
  length-entries_from 0 (length ts) ts,
)

pub stop-Inv : (p : GuildPlayer) → Inv p → Inv (stop p)
unfolding stop
stop-Inv p i = ground arith

pub skip_n-Inv : (count : ℕ) (p : GuildPlayer) → Inv p → Inv (skip_n count p).0
unfolding skip_n
skip_n-Inv count p i =
    ground (arith, length-drop (min (count - occupancy p.current) (length p.queue)) p.queue)

pub remove-Inv : (position : ℕ) (p : GuildPlayer) → Inv p → Inv (remove position p).0
unfolding remove
remove-Inv position p i = ground (
  arith,
  length-append (take (position - 1) p.queue) (drop (position - 1 + 1) p.queue),
  length-take (position - 1) p.queue,
  length-drop (position - 1 + 1) p.queue,
)

pub move-Inv : (from to : ℕ) (p : GuildPlayer) → Inv p → Inv (move from to p).0
unfolding move
move-Inv from to p i = elim (Option-cases (get_elem? p.queue (from - 1))) [
  | inl gone ↦ rw (gone, move) i
  | inr (e, found) ↦ ground (
    arith,
    found,
    get_elem?-lt p.queue (from - 1) found,
    length-move_entry (from - 1) (to - 1) e p.queue,
  )
]

length-swap : (a b : ℕ) (q : List QueueEntry) → length (swap a b q) ≡ length q
unfolding swap
length-swap a b q = elim (Option-cases (get_elem? q a)) [
  | inl gone ↦ rw (gone, swap) refl
  | inr (x, ha) ↦ elim (Option-cases (get_elem? q b)) [
    | inl gone ↦ rw (ha, gone, swap) refl
    | inr (y, hb) ↦ rw (ha, hb, swap) (length-set (set q a y) b x ∙ length-set q a y)
  ]
]

length-swaps : (ss : List (ℕ × ℕ)) (q : List QueueEntry) → length (swaps ss q) ≡ length q
unfolding swaps
length-swaps [] q = refl
length-swaps ((a, b) ∷ ss) q = omega (arith, length-swaps ss (swap a b q), length-swap a b q)

pub shuffle-Inv :
    (algorithm : ℕ → List (ℕ × ℕ)) (p : GuildPlayer) → Inv p → Inv (shuffle algorithm p).0
unfolding shuffle
shuffle-Inv algorithm p i = ground (arith, length-swaps (algorithm (length p.queue)) p.queue)

pub jump-Inv : (position : ℕ) (p : GuildPlayer) → Inv p → Inv (jump position p).0
unfolding jump
jump-Inv position p i = ground (arith, length-drop (position - 1) p.queue)

pub replay-Inv : (p : GuildPlayer) → Inv p → Inv (replay p).0
unfolding replay
replay-Inv p i = ground arith

pub previous-Inv : (p : GuildPlayer) → Inv p → Inv (previous p).0
unfolding previous
previous-Inv p i = ground (arith, length-take (past p - 1) p.history)

pub set_loop-Inv : (mode : String) (p : GuildPlayer) → Inv p → Inv (set_loop mode p).0
unfolding set_loop
set_loop-Inv mode p i = ground arith

pub clear-Inv : (p : GuildPlayer) → Inv p → Inv (clear p).0
unfolding clear
clear-Inv p i = ground arith

pub leave-Inv : (p : GuildPlayer) → Inv p → Inv (leave p)
unfolding leave
leave-Inv p i = ground arith

pub close-Inv : (p : GuildPlayer) → Inv p → Inv (close p)
unfolding close
close-Inv p i = ground arith

resume_global-Inv :
    (shared : ProviderStatus) (p : GuildPlayer) → Inv p → Inv (resume_global shared p).0
unfolding resume_global
resume_global-Inv shared p i = ground arith

pause_current-Inv : (paused : Bool) (p : GuildPlayer) → Inv p → Inv (pause_current paused p).0
unfolding pause_current
pause_current-Inv paused p i = ground arith

resume_local-Inv : (now : ℕ) (p : GuildPlayer) → Inv p → Inv (resume_local now p).0
unfolding resume_local
resume_local-Inv now p i = ground arith

pause_suspended-Inv : (paused : Bool) (p : GuildPlayer) → Inv p → Inv (pause_suspended paused p).0
unfolding pause_suspended
pause_suspended-Inv paused p i = ground arith

resume_halted-Inv : (p : GuildPlayer) → Inv p → Inv (resume_halted p).0
unfolding resume_halted
resume_halted-Inv p i = ground arith

pub set_paused-Inv :
    (now : ℕ) (shared : Option ProviderStatus) (paused : Bool) (p : GuildPlayer)
    → Inv p
    → Inv (set_paused now shared paused p).0
unfolding set_paused
set_paused-Inv now none paused p i = ground (
  arith,
  pause_suspended-Inv paused p i,
  resume_local-Inv now p i,
  resume_halted-Inv p i,
  pause_current-Inv paused p i,
)
set_paused-Inv now (some shared) paused p i = ground (
  arith,
  pause_suspended-Inv paused p i,
  resume_global-Inv shared p i,
  resume_local-Inv now p i,
  resume_halted-Inv p i,
  pause_current-Inv paused p i,
)
