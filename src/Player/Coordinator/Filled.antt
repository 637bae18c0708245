-- ===== src/Player/Coordinator/Filled.antt =====
-- The queue when the results of a window have been written into their slots.
use whiterun_music_bot.Base.{
  ℕ, ◌+◌, ◌≤◌, ◌≡◌, refl, ◌&&◌, List, [], ◌∷◌, ◌++◌, arith, if◌then◌else◌, Each,
}
use whiterun_music_bot.Player.State.{QueueEntry}
use whiterun_music_bot.Player.Collection.{Resolution, is_slot, fill_slot}
use whiterun_music_bot.Player.Collection.Laws.{slots_at, fill_slot-slots_at}

-- The queue after results have been written into their slots, one after the other.
unfoldable pub filled : ℕ → List Resolution → List QueueEntry → List QueueEntry
filled id [] q = q
filled id (r ∷ rs) q = filled id rs (fill_slot id r q)

pub filled-snoc :
    (id : ℕ) (rs : List Resolution) (r : Resolution) (q : List QueueEntry)
    → filled id (rs ++ r ∷ []) q ≡ fill_slot id r (filled id rs q)
unfolding filled
filled-snoc id [] r q = refl
filled-snoc id (x ∷ rs) r q = filled-snoc id rs r (fill_slot id x q)

-- How often the position stands unresolved in the queue.
unfoldable pub open_at : ℕ → ℕ → List QueueEntry → ℕ
open_at id index [] = 0
open_at id index (e ∷ es) = (if is_slot id index e && e.pending then 1 else 0) + open_at id index es

open_at-slots_at : (id index : ℕ) (q : List QueueEntry) → open_at id index q ≤ slots_at id index q
unfolding open_at slots_at
open_at-slots_at id index [] = omega arith
open_at-slots_at id index (e ∷ es) = ground (arith, open_at-slots_at id index es)

fill_slot-open_at :
    (id index : ℕ) (r : Resolution) (q : List QueueEntry)
    → open_at id index (fill_slot id r q) ≤ open_at id index q
unfolding open_at fill_slot
fill_slot-open_at id index r [] = omega arith
fill_slot-open_at id index r (e ∷ es) = ground (arith, fill_slot-open_at id index r es)

-- A result closes its own slot, when there is one at most.
fill_slot-closes :
    (id : ℕ) (r : Resolution) (q : List QueueEntry)
    → slots_at id r.index q ≤ 1
    → open_at id r.index (fill_slot id r q) ≡ 0
unfolding open_at fill_slot slots_at
fill_slot-closes id r [] h = refl
fill_slot-closes id r (e ∷ es) h =
    ground (arith, h, open_at-slots_at id r.index es, fill_slot-closes id r es)

filled-open_at :
    (id index : ℕ) (rs : List Resolution) (q : List QueueEntry)
    → open_at id index (filled id rs q) ≤ open_at id index q
unfolding filled
filled-open_at id index [] q = omega arith
filled-open_at id index (r ∷ rs) q =
    omega (arith, filled-open_at id index rs (fill_slot id r q), fill_slot-open_at id index r q)

pub filled-closes :
    (id : ℕ) (rs : List Resolution) (q : List QueueEntry)
    → ((i : ℕ) → slots_at id i q ≤ 1)
    → Each (λ (r : Resolution). open_at id r.index (filled id rs q) ≡ 0) rs
unfolding filled
filled-closes id [] q h = tt
filled-closes id (r ∷ rs) q h = (
  omega
      (arith, filled-open_at id r.index rs (fill_slot id r q), fill_slot-closes id r q (h r.index)),
  filled-closes id rs (fill_slot id r q) λ i. omega (arith, fill_slot-slots_at id i r q, h i),
)
