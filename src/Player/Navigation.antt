-- ===== src/Player/Navigation.antt =====
-- What the queue's navigation commands do: Previous and SkipN.
use whiterun_music_bot.Base.{
  ℕ, ◌+◌, ◌-◌, ◌≤◌, ◌<◌, ◌≡◌, ◌⊎◌, ◌↔◌, inl, inr, true, false, none, some, List, [], ◌∷◌, ◌++◌,
  length, take, drop, get_elem?, get_elem?-lt, get_elem?-none, take-length-append,
  get_elem?-append_length, length-append, is_some, arith, occupancy, Option-cases, length-drop, min,
}
use whiterun_music_bot.Media.Track.{Track}
use whiterun_music_bot.Player.State.{
  GuildPlayer, ready_entry, CommandError, max_queue_tracks, max_skip_tracks,
}
use whiterun_music_bot.Player.Queue.{previous, previous_unsaved, is_overrun, past}
use whiterun_music_bot.Player.Commands.{skip_n, next_track}

-- Previous panics exactly when a voice is attached, the player runs, the current track has started
-- while the history is empty, and the queue has room for two more entries.
pub previous_panics :
    (p : GuildPlayer)
    → ((previous p).1 ≡ some CommandError.panicked) ↔ (
        (p.canceled ≡ false)
        × (is_some p.voice ≡ true)
        × (is_overrun p ≡ true)
        × (length p.queue + 2 ≤ max_queue_tracks))
unfolding previous previous_unsaved
previous_panics p = elim (Option-cases (get_elem? p.history (past p - 1))) [
  | inl e ↦ ground (arith, e, get_elem?-none p.history (past p - 1) e)
  | inr (t, e) ↦ ground (arith, e, get_elem?-lt p.history (past p - 1) e)
]

-- With a current track that has started and stands last in the history, Previous puts the recording
-- before it in front, the current track right after it, and forgets both in the history.
previous_lem :
    (older : List Track) (before t : Track) (p : GuildPlayer)
    → p.history ≡ older ++ before ∷ t ∷ []
    → p.current ≡ some t
    → p.started_sequence ≡ p.sequence
    → p.canceled ≡ false
    → is_some p.voice ≡ true
    → length p.queue + 2 ≤ max_queue_tracks
    → ((previous p).1 ≡ none)
      × ((previous p).0.queue
          ≡ ready_entry (record before { resume_offset = 0 }) ∷ ready_entry t ∷ p.queue)
      × ((previous p).0.history ≡ older)
      × ((previous p).0.current ≡ none)
unfolding previous
previous_lem older before t p h c s r v l = ground (arith, counted, found, kept)
  where
    counted : past p - 1 ≡ length older
    counted = ground (arith, h, c, s, length-append older (before ∷ t ∷ []))

    found : get_elem? p.history (past p - 1) ≡ some before
    found = rw (counted, h) (get_elem?-append_length older before (t ∷ []))

    kept : take (past p - 1) p.history ≡ older
    kept = rw (counted, h) (take-length-append older (before ∷ t ∷ []))

-- A count of 1 to 1001 skips the current track and then as many queued entries as there are, up to
-- the count; the rest of the queue stays in its order, nothing is current any more, and the result
-- tells what was skipped and what is left. Any other count is refused and changes nothing.
skip_n_lem :
    (count : ℕ) (p : GuildPlayer)
    → ((1 ≤ count)
        × (count ≤ max_skip_tracks)
        × ((skip_n count p).2 ≡ none)
        × ((skip_n count p).1.skipped ≡ min count (occupancy p.current + length p.queue))
        × ((skip_n count p).0.queue
            ≡ drop ((skip_n count p).1.skipped - occupancy p.current) p.queue)
        × ((skip_n count p).1.remaining ≡ length (skip_n count p).0.queue)
        × ((skip_n count p).1.next ≡ next_track (skip_n count p).0.queue)
        × ((skip_n count p).0.current ≡ none))
      ⊎ (((count ≡ 0) ⊎ (max_skip_tracks < count))
          × ((skip_n count p).0 ≡ p)
          × ((skip_n count p).2 ≡ some CommandError.bad_skip_count))
unfolding skip_n
skip_n_lem count p =
    ground (arith, length-drop (min (count - occupancy p.current) (length p.queue)) p.queue)
