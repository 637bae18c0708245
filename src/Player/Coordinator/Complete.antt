-- ===== src/Player/Coordinator/Complete.antt =====
-- A window whose searches all end while nothing interferes.
use whiterun_music_bot.Base.{
  ℕ, suc, ◌≤◌, ◌≡◌, refl, ap, sym, ◌∙◌, inl, inr, Bool, true, false, ◌||◌, Option, none, List, [],
  ◌∷◌, ◌++◌, arith, ◌==◌, if◌then◌else◌, Option-cases, is_some, Perm, length, Each,
}
use mathlib.Core.Path.{subst}
use mathlib.Core.Bool.{true≢false, Bool-set}
use mathlib.Core.Logic.Or
use mathlib.Core.List.Perm
use mathlib.Core.List
use mathlib.Core.Nat.{suc_inj}
use mathlib.Core.List.{
  Mem, not-mem-nil, eq-or-mem_of_mem-cons, mem-append_right, mem-cons_self, append-nil,
}
use whiterun_music_bot.Player.State.{GuildPlayer, QueueEntry}
use whiterun_music_bot.Player.Jobs.{signal}
use whiterun_music_bot.Player.Durable.{persist}
use whiterun_music_bot.Player.Collection.{
  Resolution, fill_slot, commit, commit_results, commit_result, record_result,
}
use whiterun_music_bot.Player.Coordinator.{
  World, Coordinator, tick, record_at, after_commit, commit_at, advance, buffer, hold,
  receive_result, receive_all, open_round, round,
}
use whiterun_music_bot.Player.Coordinator.Order.{indices, round_in_order}
use whiterun_music_bot.Player.Coordinator.Filled.{filled, filled-snoc, filled-closes, open_at}
use whiterun_music_bot.Player.Collection.Laws.{slots_at}

commit_open :
    (id : ℕ) (ended : Bool) (r : Resolution) (p : GuildPlayer)
    → ended ≡ false
    → p.provider.blocked ≡ false
    → ((commit id ended (r ∷ []) p).1 ≡ true)
      × ((commit id ended (r ∷ []) p).0.provider.blocked ≡ false)
      × ((commit id ended (r ∷ []) p).0.queue ≡ fill_slot id r p.queue)
unfolding commit commit_results commit_result signal persist
commit_open id ended r p h e = ground arith

record_result_open :
    (id : ℕ) (r : Resolution) (p : GuildPlayer)
    → ((record_result id r p).provider.blocked ≡ p.provider.blocked)
      × ((record_result id r p).queue ≡ p.queue)
unfolding record_result
record_result_open id r p = ground arith

-- The frontier waits at a position that has not arrived.
abbrev IsHeld : (ℕ → Option Resolution) → List ℕ → Type 0
IsHeld f [] = Unit
IsHeld f (i ∷ is) = f i ≡ none

record Running (id : ℕ) (q : List QueueEntry) (s : Coordinator) : Type 0 where
  stopped : s.stopped ≡ false
  blocked : s.blocked ≡ false
  open_provider : s.player.provider.blocked ≡ false
  written : s.player.queue ≡ filled id s.handed q

-- The second branch of a test that fails.
else_case :
    (P : Coordinator → Type 0) (b : Bool) (x y : Coordinator)
    → b ≡ false
    → P y
    → P (if b then x else y)
else_case P true x y e h = elim (true≢false e) [ ]
else_case P false x y e h = h

-- Whether a result of the position has come.
unfoldable has_arrived : ℕ → List Resolution → Bool
has_arrived i [] = false
has_arrived i (r ∷ rs) = i == r.index || has_arrived i rs

arrives :
    (r : Resolution) (rs : List Resolution) (f g : ℕ → Option Resolution)
    → g ≡ buffer r f
    → (j : ℕ) → (is_some (f j) || has_arrived j (r ∷ rs)) ≡ true
    → (is_some (g j) || has_arrived j rs) ≡ true
unfolding has_arrived
arrives r rs f g e j h =
    subst (λ (x : ℕ → Option Resolution). (is_some (x j) || has_arrived j rs) ≡ true) (sym e)
      (ground arith)

module _ (w : World) (calm : (k : ℕ) → (w k).ended ≡ false)
    (unblocked : (k : ℕ) (p : GuildPlayer)
      → p.provider.blocked ≡ false
      → ((w k).others p).provider.blocked ≡ false)
    (quiet : (k : ℕ) (p : GuildPlayer) → ((w k).others p).queue ≡ p.queue) (id : ℕ)
    (q : List QueueEntry) where
  after_commit-Running :
      (r : Resolution) (s : Coordinator) (c : GuildPlayer × Bool)
      → Running id q s
      → c.1 ≡ true
      → c.0.provider.blocked ≡ false
      → c.0.queue ≡ fill_slot id r s.player.queue
      → Running id q (after_commit r s c) × ((after_commit r s c).buffered ≡ s.buffered)
  unfolding after_commit
  after_commit-Running r s (p, true) run h e l = (
    record {
      stopped = run.stopped;
      blocked = run.blocked;
      open_provider = e;
      written = l ∙ ap (fill_slot id r) run.written ∙ sym (filled-snoc id s.handed r q);
    },
    refl,
  )
  after_commit-Running r s (p, false) run h e l = elim (true≢false (sym h)) [ ]

  tick-Running : (s : Coordinator) → Running id q s → Running id q (tick w s)
  unfolding tick
  tick-Running s run = record {
    stopped = run.stopped;
    blocked = run.blocked;
    open_provider = unblocked s.clock s.player run.open_provider;
    written = quiet s.clock s.player ∙ run.written;
  }

  commit_at-Running :
      (r : Resolution) (s : Coordinator)
      → Running id q s
      → Running id q (commit_at w id r s) × ((commit_at w id r s).buffered ≡ s.buffered)
  unfolding commit_at tick
  commit_at-Running r s run =
      let t = tick-Running s run in
      let c = commit_open id (w s.clock).ended r (tick w s).player (calm s.clock) t.open_provider in
      after_commit-Running r (tick w s) _ t c.0 c.1 c.2

  advance-Running :
      (is : List ℕ) (s : Coordinator)
      → Running id q s
      → Running id q (advance w id is s)
        × ((advance w id is s).buffered ≡ s.buffered)
        × IsHeld s.buffered (advance w id is s).waiting
  unfolding advance tick
  advance-Running [] s run = (
    record {
      stopped = run.stopped;
      blocked = run.blocked;
      open_provider = run.open_provider;
      written = run.written;
    },
    refl,
    tt,
  )
  advance-Running (i ∷ is) s run = elim (Option-cases (s.buffered i)) [
    | inl e ↦ rw (e, advance) (again run, refl, e)
    | inr (r, e) ↦
        let looked : Coordinator = tick w (record s { waiting = i ∷ is }) in
        let before : Running id q looked =
          tick-Running (record s { waiting = i ∷ is }) (again run) in
        let done = commit_at-Running r looked before in
        let rest = advance-Running is (commit_at w id r looked) done.0 in
        rw (e, advance)
          (else_case after_it looked.player.provider.blocked _ _ before.open_provider (
            else_case after_it (commit_at w id r looked).stopped _ _ done.0.stopped (
              rest.0,
              rest.1 ∙ done.1,
              subst
                  (λ (f : ℕ → Option Resolution).
                    IsHeld f (advance w id is (commit_at w id r looked)).waiting)
                  done.1 rest.2,
            )))
  ]
    where
      after_it : Coordinator → Type 0
      after_it t = Running id q t × (t.buffered ≡ s.buffered) × IsHeld s.buffered t.waiting

      again : Running id q s → Running id q (record s { waiting = i ∷ is })
      again run = record {
        stopped = run.stopped;
        blocked = run.blocked;
        open_provider = run.open_provider;
        written = run.written;
      }

  receive_result-Running :
      (r : Resolution) (s : Coordinator)
      → Running id q s
      → r.blocked ≡ false
      → Running id q (receive_result w id r s)
        × ((receive_result w id r s).buffered ≡ buffer r s.buffered)
        × IsHeld (receive_result w id r s).buffered (receive_result w id r s).waiting
  unfolding receive_result record_at
  receive_result-Running r s run clear =
      else_case after_it (tick w s).ended _ _ (unfold tick in calm s.clock) (
        else_case after_it r.blocked _ _ clear (
          let u = hold r (record_at w id r (tick w s)) in
          let moved =
            advance-Running u.waiting u (recorded (tick-Running _ (tick-Running s run))) in
          (
            moved.0,
            moved.1 ∙ unfold tick in refl,
            subst (λ (f : ℕ → Option Resolution). IsHeld f (advance w id u.waiting u).waiting)
                (sym moved.1) moved.2,
          )))
    where
      after_it : Coordinator → Type 0
      after_it t = Running id q t × (t.buffered ≡ buffer r s.buffered) × IsHeld t.buffered t.waiting

      recorded :
          Running id q (tick w (tick w s)) → Running id q (hold r (record_at w id r (tick w s)))
      recorded t = record {
        stopped = t.stopped;
        blocked = t.blocked;
        open_provider = (record_result_open id r (tick w (tick w s)).player).0 ∙ t.open_provider;
        written = (record_result_open id r (tick w (tick w s)).player).1 ∙ t.written;
      }

  receive_all-Running :
      (is : List ℕ) (rs : List Resolution) (s : Coordinator)
      → Running id q s
      → IsHeld s.buffered s.waiting
      → length is ≡ length rs
      → Each (λ (r : Resolution). r.blocked ≡ false) rs
      → Running id q (receive_all w id is rs s)
        × IsHeld (receive_all w id is rs s).buffered (receive_all w id is rs s).waiting
        × ((i : ℕ)
            → (is_some (s.buffered i) || has_arrived i rs) ≡ true
            → is_some ((receive_all w id is rs s).buffered i) ≡ true)
  unfolding receive_all has_arrived
  receive_all-Running [] [] s run held l clear = (run, held, λ i h. ground arith)
  receive_all-Running [] (r ∷ rs) s run held l clear = absurd (omega arith)
  receive_all-Running (i ∷ is) [] s run held l clear = absurd (omega arith)
  receive_all-Running (i ∷ is) (r ∷ rs) s run held l (c, clear) =
      let here = receive_result-Running r s run c in
      let rest =
        receive_all-Running is rs (receive_result w id r s) here.0 here.2 (omega arith) clear in
      else_case
        (λ (t : Coordinator).
          Running id q t
          × IsHeld t.buffered t.waiting
          × ((j : ℕ)
              → (is_some (s.buffered j) || has_arrived j (r ∷ rs)) ≡ true
              → is_some (t.buffered j) ≡ true))
        (receive_result w id r s).stopped _ _ here.0.stopped
        (rest.0, rest.1, λ j h. rest.2 j (arrives r rs s.buffered _ here.1 j h))

has_arrived-Mem : (i : ℕ) (rs : List Resolution) → Mem i (indices rs) → has_arrived i rs ≡ true
unfolding has_arrived indices
has_arrived-Mem i [] h = elim (not-mem-nil h) [ ]
has_arrived-Mem i (r ∷ rs) h =
    Or.elim (Bool-set _ _) (eq-or-mem_of_mem-cons h) (λ e. ground (arith, e))
      λ m. ground (arith, has_arrived-Mem i rs m)

indices-length : (rs : List Resolution) → length (indices rs) ≡ length rs
unfolding indices
indices-length [] = refl
indices-length (r ∷ rs) = ap suc (indices-length rs)

-- Lists that are equally long by the library's count are so by the native one.
native-length : (a b : List ℕ) → List.length a ≡ List.length b → length a ≡ length b
native-length [] [] e = refl
native-length [] (y ∷ b) e = cc
native-length (x ∷ a) [] e = cc
native-length (x ∷ a) (y ∷ b) e = ap suc (native-length a b (suc_inj e))

-- A frontier that waits at none of the window's positions has passed them all.
passed :
    (f : ℕ → Option Resolution) (before waiting ws : List ℕ) (rs : List Resolution)
    → IsHeld f waiting
    → before ++ waiting ≡ ws
    → Perm (indices rs) ws
    → ((i : ℕ) → has_arrived i rs ≡ true → is_some (f i) ≡ true)
    → waiting ≡ []
passed f before [] ws rs held e p h = refl
passed f before (i ∷ is) ws rs held e p h =
    let m : Mem i ws = subst (Mem i) e (mem-append_right before mem-cons_self) in
    let found = h i (has_arrived-Mem i rs ((Perm.mem_iff p).1 m)) in
    elim (true≢false (sym found ∙ ap is_some held)) [ ]

-- A list of which all members have a property of their positions.
Each-index :
    (P : ℕ → Type 0) (rs : List Resolution)
    → Each (λ (r : Resolution). P r.index) rs
    → Each P (indices rs)
unfolding indices
Each-index P [] h = tt
Each-index P (r ∷ rs) (h, t) = (h, Each-index P rs t)

-- When every search of a window comes back, in any order and none of them held back by the provider,
-- and meanwhile the job is not canceled, the provider not blocked and the queue left alone by others,
-- the round hands over the results of the whole window in the window's order, each is written into
-- its slot in that order, and the coordinator goes on to the next round. Where no position stood twice
-- in the queue, none of the window's positions is left unresolved.
pub round_complete :
    (w : World) (id : ℕ) (ws : List ℕ) (rs : List Resolution) (s : Coordinator)
    → ((k : ℕ) → (w k).ended ≡ false)
    → ((k : ℕ) (p : GuildPlayer)
        → p.provider.blocked ≡ false
        → ((w k).others p).provider.blocked ≡ false)
    → ((k : ℕ) (p : GuildPlayer) → ((w k).others p).queue ≡ p.queue)
    → s.player.provider.blocked ≡ false
    → s.stopped ≡ false
    → Each (λ (r : Resolution). r.blocked ≡ false) rs
    → Perm (indices rs) ws
    → ((i : ℕ) → slots_at id i s.player.queue ≤ 1)
    → let t = round w id ws rs s in
      (indices t.handed ≡ ws)
      × (t.player.queue ≡ filled id t.handed s.player.queue)
      × Each (λ i. open_at id i t.player.queue ≡ 0) ws
      × (t.blocked ≡ false)
      × (t.stopped ≡ false)
unfolding round open_round
round_complete w id ws rs s calm unblocked quiet op on clear p once =
    let start : Coordinator = open_round ws s in
    let t = round w id ws rs s in
    let end =
      receive_all-Running w calm unblocked quiet id s.player.queue ws rs start
        (record {
          stopped = on;
          blocked = refl;
          open_provider = op;
          written = unfold filled in refl;
        })
        (starts ws) (sym (native-length _ _ (Perm.length-eq p)) ∙ indices-length rs) clear in
    let order = (round_in_order w id ws rs s on).0 in
    let none_left = passed t.buffered (indices t.handed) t.waiting ws rs end.1 order p end.2 in
    let whole : indices t.handed ≡ ws =
      sym (append-nil _) ∙ ap (λ (l : List ℕ). indices t.handed ++ l) (sym none_left) ∙ order in
    let closed =
      Each-index (λ i. open_at id i (filled id t.handed s.player.queue) ≡ 0) t.handed
        (filled-closes id t.handed s.player.queue once) in
    (
      whole,
      end.0.written,
      subst (λ q. Each (λ i. open_at id i q ≡ 0) ws) (sym end.0.written)
          (subst (Each λ i. open_at id i (filled id t.handed s.player.queue) ≡ 0) whole closed),
      end.0.blocked,
      end.0.stopped,
    )
  where
    starts : (l : List ℕ) → IsHeld (λ (i : ℕ). none) l
    starts [] = tt
    starts (i ∷ is) = refl
