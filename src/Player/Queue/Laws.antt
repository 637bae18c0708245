-- ===== src/Player/Queue/Laws.antt =====
-- What the reordering commands do to the queue, against plain descriptions of it.
use whiterun_music_bot.Base.{
  ℕ, zero, suc, ◌+◌, ◌-◌, ◌≤◌, ◌<◌, ◌≡◌, sym, ◌⊎◌, ◌↔◌, none, some, List, [], ◌∷◌, ◌++◌, length,
  take, drop, get_elem?, set, length-append, length-take, length-drop, arith, Perm, ltb, ◌==◌,
  if◌then◌else◌, get_elem?-append, get_elem?-take, get_elem?-drop, get_elem?-set, get_elem?-cons,
  get_elem?-lt, get_elem?-ge, list_ext, Bool-cases, Option-cases, ltb→lt, inl, inr, split_at,
  take-append-drop,
}
use mathlib.Core.Path.{subst}
use mathlib.Core.List.{perm_middle}
use mathlib.Core.List.Perm
use whiterun_music_bot.Player.State.{GuildPlayer, QueueEntry, CommandError}
use whiterun_music_bot.Player.Queue.{
  remove_at, copy_at, slice, move_entry, swap, swaps, move, shuffle, remove, jump,
}

-- The entry inserted so that it stands at index j.
abbrev pub insert_at : ℕ → QueueEntry → List QueueEntry → List QueueEntry
insert_at j e q = take j q ++ e ∷ drop j q

get_elem?-remove_at :
    (i : ℕ) (q : List QueueEntry) (k : ℕ)
    → i < length q
    → get_elem? (remove_at i q) k ≡ (if ltb k i then get_elem? q k else get_elem? q (k + 1))
unfolding remove_at
get_elem?-remove_at i q k h = ground (
  arith,
  get_elem?-append (take i q) (drop (i + 1) q) k,
  length-take i q,
  get_elem?-take i q k,
  get_elem?-drop (i + 1) q (k - length (take i q)),
)

length-remove_at :
    (i : ℕ) (q : List QueueEntry) → i < length q → length (remove_at i q) + 1 ≡ length q
unfolding remove_at
length-remove_at i q h =
    omega (arith, length-append (take i q) (drop (i + 1) q), length-take i q, length-drop (i + 1) q)

get_elem?-insert_at :
    (j : ℕ) (e : QueueEntry) (q : List QueueEntry) (k : ℕ)
    → j ≤ length q
    → get_elem? (insert_at j e q) k
      ≡ (if ltb k j then get_elem? q k else if k == j then some e else get_elem? q (k - 1))
get_elem?-insert_at j e q k h = ground (
  arith,
  get_elem?-append (take j q) (e ∷ drop j q) k,
  length-take j q,
  get_elem?-take j q k,
  get_elem?-cons e (drop j q) (k - length (take j q)),
  get_elem?-drop j q (k - length (take j q) - 1),
)

get_elem?-copy_at :
    (lo : ℕ) (part q : List QueueEntry) (k : ℕ)
    → lo + length part ≤ length q
    → get_elem? (copy_at lo part q) k ≡ (
        if ltb k lo
        then get_elem? q k
        else if ltb k (lo + length part)
        then get_elem? part (k - lo)
        else get_elem? q k)
unfolding copy_at
get_elem?-copy_at lo part q k h = ground (
  arith,
  get_elem?-append (take lo q) (part ++ drop (lo + length part) q) k,
  get_elem?-append part (drop (lo + length part) q) (k - length (take lo q)),
  length-take lo q,
  get_elem?-take lo q k,
  get_elem?-drop (lo + length part) q (k - length (take lo q) - length part),
)

get_elem?-slice :
    (lo hi : ℕ) (q : List QueueEntry) (k : ℕ)
    → get_elem? (slice lo hi q) k ≡ (if ltb k (hi - lo) then get_elem? q (lo + k) else none)
get_elem?-slice lo hi q k =
    ground (arith, get_elem?-take (hi - lo) (drop lo q) k, get_elem?-drop lo q k)

length-slice : (lo hi : ℕ) (q : List QueueEntry) → hi ≤ length q → length (slice lo hi q) ≡ hi - lo
length-slice lo hi q h = omega (arith, length-take (hi - lo) (drop lo q), length-drop lo q)

length-copy_at :
    (lo : ℕ) (part q : List QueueEntry)
    → lo + length part ≤ length q
    → length (copy_at lo part q) ≡ length q
unfolding copy_at
length-copy_at lo part q h = omega (
  arith,
  length-append (take lo q) (part ++ drop (lo + length part) q),
  length-append part (drop (lo + length part) q),
  length-take lo q,
  length-drop (lo + length part) q,
)

move_down :
    (i j : ℕ) (e : QueueEntry) (q : List QueueEntry) (k : ℕ)
    → i < j
    → j < length q
    → get_elem? (set (copy_at i (slice (i + 1) (j + 1) q) q) j e) k
      ≡ get_elem? (insert_at j e (remove_at i q)) k
move_down i j e q k h l = ground (
  arith,
  length-slice (i + 1) (j + 1) q,
  length-copy_at i (slice (i + 1) (j + 1) q) q,
  get_elem?-set (copy_at i (slice (i + 1) (j + 1) q) q) j e k,
  get_elem?-copy_at i (slice (i + 1) (j + 1) q) q k,
  get_elem?-slice (i + 1) (j + 1) q (k - i),
  length-remove_at i q,
  get_elem?-insert_at j e (remove_at i q) k,
  get_elem?-remove_at i q k,
  get_elem?-remove_at i q (k - 1),
)

move_up :
    (i j : ℕ) (e : QueueEntry) (q : List QueueEntry) (k : ℕ)
    → j ≤ i
    → i < length q
    → get_elem? (set (copy_at (j + 1) (slice j i q) q) j e) k
      ≡ get_elem? (insert_at j e (remove_at i q)) k
move_up i j e q k h l = ground (
  arith,
  length-slice j i q,
  length-copy_at (j + 1) (slice j i q) q,
  get_elem?-set (copy_at (j + 1) (slice j i q) q) j e k,
  get_elem?-copy_at (j + 1) (slice j i q) q k,
  get_elem?-slice j i q (k - (j + 1)),
  length-remove_at i q,
  get_elem?-insert_at j e (remove_at i q) k,
  get_elem?-remove_at i q k,
  get_elem?-remove_at i q (k - 1),
)

-- Shifting the entries between the two indices and writing the entry back is taking the entry out
-- and inserting it at the other index.
pub move_entry_lem :
    (i j : ℕ) (e : QueueEntry) (q : List QueueEntry)
    → i < length q
    → j < length q
    → move_entry i j e q ≡ insert_at j e (remove_at i q)
unfolding move_entry
move_entry_lem i j e q hi hj = list_ext _ _ (λ k. elim (Bool-cases (ltb i j)) [
  | inl down ↦ rw (down, move_entry) (move_down i j e q k (ltb→lt i j down) hj)
  | inr up ↦ rw (up, move_entry) (move_up i j e q k (ground arith) hi)
])

move_queue :
    (from to : ℕ) (e : QueueEntry) (p : GuildPlayer)
    → 0 < from
    → 0 < to
    → to ≤ length p.queue
    → get_elem? p.queue (from - 1) ≡ some e
    → ((move from to p).1 ≡ none)
      × ((move from to p).0.queue ≡ insert_at (to - 1) e (remove_at (from - 1) p.queue))
move_queue from to e p hf ht hl found =
    rw (← move_entry_lem (from - 1) (to - 1) e p.queue (get_elem?-lt _ _ found) (omega arith))
      (unfold move in ground arith)

insert_at-perm : (j : ℕ) (e : QueueEntry) (q : List QueueEntry) → Perm (insert_at j e q) (e ∷ q)
insert_at-perm j e q =
    Perm.trans (perm_middle (take j q) (drop j q)) (Perm.cons e (rw take-append-drop (Perm.refl q)))

pub length-move_entry :
    (i j : ℕ) (e : QueueEntry) (q : List QueueEntry)
    → i < length q
    → j < length q
    → length (move_entry i j e q) ≡ length q
length-move_entry i j e q hi hj = rw (move_entry_lem i j e q hi hj) (
    omega (
      arith,
      length-append (take j (remove_at i q)) (e ∷ drop j (remove_at i q)),
      length-take j (remove_at i q),
      length-drop j (remove_at i q),
      length-remove_at i q hi,
    ))

split_of_get_elem? :
    (i : ℕ) (e : QueueEntry) (q : List QueueEntry)
    → get_elem? q i ≡ some e
    → q ≡ take i q ++ e ∷ drop (i + 1) q
split_of_get_elem? i e q h =
    let (x, found, split) = split_at q i (get_elem?-lt q i h) in ground (arith, found, split)

-- Taking an entry out leaves the others.
remove_at-perm :
    (i : ℕ) (e : QueueEntry) (q : List QueueEntry)
    → get_elem? q i ≡ some e
    → Perm (e ∷ remove_at i q) q
unfolding remove_at
remove_at-perm i e q h =
    subst (Perm (e ∷ (take i q ++ drop (i + 1) q))) (sym (split_of_get_elem? i e q h))
      (Perm.symm (perm_middle (take i q) (drop (i + 1) q)))

-- Move takes the entry at `from` out, inserts it at `to` and saves; every other entry stays, in its
-- order. Positions outside the queue are refused, and then nothing changes.
pub move_lem :
    (from to : ℕ) (e : QueueEntry) (p : GuildPlayer)
    → 0 < from
    → 0 < to
    → to ≤ length p.queue
    → get_elem? p.queue (from - 1) ≡ some e
    → let q = (move from to p).0.queue in
      ((move from to p).1 ≡ none)
      × (q ≡ insert_at (to - 1) e (remove_at (from - 1) p.queue))
      × (get_elem? q (to - 1) ≡ some e)
      × Perm q p.queue
move_lem from to e p hf ht hl found = (moved.0, moved.1, at, order)
  where
    moved :
        ((move from to p).1 ≡ none)
        × ((move from to p).0.queue ≡ insert_at (to - 1) e (remove_at (from - 1) p.queue))
    moved = move_queue from to e p hf ht hl found

    at : get_elem? (move from to p).0.queue (to - 1) ≡ some e
    at = rw moved.1 (
        ground (
          arith,
          get_elem?-insert_at (to - 1) e (remove_at (from - 1) p.queue) (to - 1),
          length-remove_at (from - 1) p.queue,
          get_elem?-lt p.queue (from - 1) found,
        ))

    order : Perm (move from to p).0.queue p.queue
    order = rw moved.1 (
        Perm.trans (insert_at-perm (to - 1) e (remove_at (from - 1) p.queue))
          (remove_at-perm (from - 1) e p.queue found))

-- Out of range, Move and Remove refuse and change nothing.
bad_position_lem :
    (from to : ℕ) (p : GuildPlayer)
    → (from ≡ 0) ⊎ (length p.queue < from)
    → (move from to p ≡ (p, some CommandError.bad_position))
      × (remove from p ≡ (p, some CommandError.bad_position))
      × (jump from p ≡ (p, some CommandError.bad_position))
unfolding move remove jump
bad_position_lem from to p h = ground (arith, get_elem?-ge p.queue (from - 1))

perm_set :
    (q : List QueueEntry) (j : ℕ) (x y : QueueEntry)
    → get_elem? q j ≡ some y
    → Perm (y ∷ set q j x) (x ∷ q)
perm_set [] j x y h = cc
perm_set (a ∷ q) zero x y h = let e : a ≡ y = cc in rw e (Perm.swap x y q)
perm_set (a ∷ q) (suc j) x y h =
    Perm.trans (Perm.swap a y (set q j x))
      (Perm.trans (Perm.cons a (perm_set q j x y h)) (Perm.swap x a q))

perm_exchange :
    (q : List QueueEntry) (i j : ℕ) (x y : QueueEntry)
    → get_elem? q i ≡ some x
    → get_elem? q j ≡ some y
    → Perm (set (set q i y) j x) q
perm_exchange [] i j x y hi hj = cc
perm_exchange (a ∷ q) zero zero x y hi hj = let e : a ≡ x = cc in rw e (Perm.refl (x ∷ q))
perm_exchange (a ∷ q) zero (suc j) x y hi hj = let e : a ≡ x = cc in rw e (perm_set q j x y hj)
perm_exchange (a ∷ q) (suc i) zero x y hi hj = let e : a ≡ y = cc in rw e (perm_set q i y x hi)
perm_exchange (a ∷ q) (suc i) (suc j) x y hi hj = Perm.cons a (perm_exchange q i j x y hi hj)

swap-perm : (i j : ℕ) (q : List QueueEntry) → Perm (swap i j q) q
unfolding swap
swap-perm i j q = elim (Option-cases (get_elem? q i)) [
  | inl gone ↦ rw (gone, swap) (Perm.refl q)
  | inr (x, hi) ↦ elim (Option-cases (get_elem? q j)) [
    | inl gone ↦ rw (hi, gone, swap) (Perm.refl q)
    | inr (y, hj) ↦ rw (hi, hj, swap) (perm_exchange q i j x y hi hj)
  ]
]

swaps-perm : (ss : List (ℕ × ℕ)) (q : List QueueEntry) → Perm (swaps ss q) q
unfolding swaps
swaps-perm [] q = Perm.refl q
swaps-perm ((i, j) ∷ ss) q = Perm.trans (swaps-perm ss (swap i j q)) (swap-perm i j q)

-- Whatever swaps the random source makes, Shuffle loses no entry and invents none; it refuses only
-- the empty queue.
shuffle-perm :
    (algorithm : ℕ → List (ℕ × ℕ)) (p : GuildPlayer)
    → Perm (shuffle algorithm p).0.queue p.queue
      × (((shuffle algorithm p).1 ≡ none) ↔ (0 < length p.queue))
unfolding shuffle
shuffle-perm algorithm p = elim (Bool-cases (length p.queue == 0)) [
  | inl e ↦ rw (e, shuffle) (Perm.refl p.queue, ground arith)
  | inr e ↦ rw (e, shuffle) (swaps-perm (algorithm (length p.queue)) p.queue, ground arith)
]
