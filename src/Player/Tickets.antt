-- ===== src/Player/Tickets.antt =====
-- Requests that searched before they were queued: Ticket, and the generation that Stop, Leave and
-- Clear advance.
use whiterun_music_bot.Base.{ℕ, ◌≡◌, ◌≢◌, Bool, true, some, List, arith, inc64, inc64-ne}
use whiterun_music_bot.Media.Track.{Track}
use whiterun_music_bot.Player.State.{GuildPlayer, CommandError}
use whiterun_music_bot.Player.Commands.{attach, stop, leave, clear, ticket, is_stale, enqueue_many}
use whiterun_music_bot.Player.Collection.{begin_collection}

-- A request's result is refused and adds nothing to the queue or to the jobs.
pub record IsRefused (t : ℕ) (p : GuildPlayer) : Type 0 where
  pub tracks :
      (ts : List Track)
      → ((enqueue_many ts t p).1 ≡ some CommandError.stale_ticket)
        × ((enqueue_many ts t p).0.queue ≡ p.queue)
        × ((enqueue_many ts t p).0.jobs ≡ p.jobs)
  pub collection :
      (done matcher : Bool) (ts : List Track) (skipped : ℕ)
      → ((begin_collection done matcher ts skipped t p).1 ≡ some CommandError.stale_ticket)
        × ((begin_collection done matcher ts skipped t p).0.queue ≡ p.queue)
        × ((begin_collection done matcher ts skipped t p).0.jobs ≡ p.jobs)

stale-IsRefused : (t : ℕ) (p : GuildPlayer) → is_stale t p ≡ true → IsRefused t p
stale-IsRefused t p h = record {
  tracks = λ ts. unfold enqueue_many in ground (arith, h);
  collection = λ done matcher ts skipped. unfold begin_collection in ground (arith, h);
}

-- Two steps of the counter do not lead back either.
inc64-twice-ne : (n : ℕ) → inc64 (inc64 n) ≢ n
inc64-twice-ne n h = omega arith

-- A ticket that no request can use any more: the current one is another, and so it stays when a voice
-- is attached.
pub record IsExpired (t : ℕ) (p : GuildPlayer) : Type 0 where
  pub outdated : ticket p ≢ t
  pub now : IsRefused t p
  pub attached : (v : ℕ) → IsRefused t (attach v p).0

generation-IsExpired :
    (t : ℕ) (p : GuildPlayer) → p.generation ≢ t → inc64 p.generation ≢ t → IsExpired t p
generation-IsExpired t p h k = record {
  outdated = h;
  now = stale-IsRefused t p (ground (arith, h));
  attached = λ v. stale-IsRefused t (attach v p).0 (unfold attach in ground (arith, h, k));
}

-- After Stop, Leave or Clear, a ticket of the time before it is not the current one, and whatever was
-- requested with it is refused and adds nothing, neither tracks nor a collection, also when a voice
-- has been attached in the meantime.
pub ticket_expires :
    (p : GuildPlayer)
    → IsExpired (ticket p) (stop p)
      × IsExpired (ticket p) (leave p)
      × IsExpired (ticket p) (clear p).0
ticket_expires p =
    let one = inc64-ne p.generation in
    let two = inc64-twice-ne p.generation in
    (
      generation-IsExpired (ticket p) (stop p) (unfold stop in one) (unfold stop in two),
      generation-IsExpired (ticket p) (leave p) (unfold leave in one) (unfold leave in two),
      generation-IsExpired (ticket p) (clear p).0 (unfold clear in one) (unfold clear in two),
    )
