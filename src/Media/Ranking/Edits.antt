-- ===== src/Media/Ranking/Edits.antt =====
-- What the distance of two words is: the least number of runes to change, drop or insert.
use whiterun_music_bot.Base.{
  ℕ, suc, ◌+◌, ◌≤◌, ◌≡◌, refl, sym, ◌∙◌, ◌⊎◌, inl, inr, min, [], ◌∷◌, ◌++◌, length, arith, ◌==◌,
  Bool-cases,
}
use mathlib.Core.Path.{subst}
use mathlib.Core.List.{append-nil}
use whiterun_music_bot.Media.Ranking.{Text, cost}

-- `n` edits make the second word of the first.
pub data Edits : Text → Text → ℕ → Type 0 where
  done : Edits [] [] 0
  keep : {x y n : ℕ} {a b : Text} → x ≡ y → Edits a b n → Edits (x ∷ a) (y ∷ b) n
  change : {n : ℕ} {a b : Text} (x y : ℕ) → Edits a b n → Edits (x ∷ a) (y ∷ b) (suc n)
  drop : {n : ℕ} {a b : Text} (x : ℕ) → Edits a b n → Edits (x ∷ a) b (suc n)
  insert : {n : ℕ} {a b : Text} (y : ℕ) → Edits a b n → Edits a (y ∷ b) (suc n)

-- The distance by recursion on the words' ends that come first. `extend` adds a rune to the first word.
unfoldable pub extend : ℕ → (Text → ℕ) → Text → ℕ
extend x f [] = f [] + 1
extend x f (y ∷ b) = min (f (y ∷ b) + 1) (min (extend x f b + 1) (f b + cost x y))

unfoldable pub distance : Text → Text → ℕ
unfolding extend
distance [] b = length b
distance (x ∷ a) b = extend x (distance a) b

pub distance-nil : (a : Text) → distance a [] ≡ length a
unfolding distance
distance-nil [] = refl
distance-nil (x ∷ a) = omega (arith, distance-nil a)

extend_drop : (x : ℕ) (f : Text → ℕ) (b : Text) → extend x f b ≤ f b + 1
unfolding extend
extend_drop x f [] = omega arith
extend_drop x f (y ∷ b) = omega arith

distance_insert : (y : ℕ) (a b : Text) → distance a (y ∷ b) ≤ distance a b + 1
unfolding distance
distance_insert y [] b = omega arith
distance_insert y (x ∷ a) b = omega arith

-- No way of editing takes fewer edits.
pub distance_least : {a b : Text} {n : ℕ} → Edits a b n → distance a b ≤ n
unfolding distance
distance_least done = omega arith
distance_least (keep {x} {y} e s) = ground (arith, distance_least s)
distance_least (change x y s) = ground (arith, distance_least s)
distance_least (drop {a = a} {b = b} x s) =
    omega (arith, extend_drop x (distance a) b, distance_least s)
distance_least (insert {a = a} {b = b} y s) = omega (arith, distance_insert y a b, distance_least s)

all_inserted : (b : Text) → Edits [] b (length b)
all_inserted [] = done
all_inserted (y ∷ b) = insert y (all_inserted b)

at_cost : (x y : ℕ) {a b : Text} {n : ℕ} → Edits a b n → Edits (x ∷ a) (y ∷ b) (n + cost x y)
at_cost x y {a} {b} {n} s = elim (Bool-cases (x == y)) [
  | inl e ↦ subst (Edits (x ∷ a) (y ∷ b)) (ground arith) (keep (ground arith) s)
  | inr e ↦ subst (Edits (x ∷ a) (y ∷ b)) (ground arith) (change x y s)
]

min-or : (a b : ℕ) → (min a b ≡ a) ⊎ (min a b ≡ b)
min-or a b = omega arith

-- A least number is one of the numbers.
min-cases : (P : ℕ → Type 0) (a b c : ℕ) → P a → P b → P c → P (min a (min b c))
min-cases P a b c p q r = elim (min-or a (min b c)) [
  | inl e ↦ subst P (sym e) p
  | inr e ↦ elim (min-or b c) [ inl k ↦ subst P (sym (e ∙ k)) q | inr k ↦ subst P (sym (e ∙ k)) r ]
]

extend_edits :
    (x : ℕ) (a : Text) (f : Text → ℕ)
    → ((b : Text) → Edits a b (f b))
    → (b : Text) → Edits (x ∷ a) b (extend x f b)
unfolding extend
extend_edits x a f h [] = subst (Edits (x ∷ a) []) (omega arith) (drop x (h []))
extend_edits x a f h (y ∷ b) =
    min-cases (Edits (x ∷ a) (y ∷ b)) _ _ _
      (subst (Edits (x ∷ a) (y ∷ b)) (omega arith) (drop x (h (y ∷ b))))
      (subst (Edits (x ∷ a) (y ∷ b)) (omega arith) (insert y (extend_edits x a f h b)))
      (at_cost x y (h b))

-- Some way of editing takes that many.
pub distance_edits : (a b : Text) → Edits a b (distance a b)
unfolding distance
distance_edits [] b = all_inserted b
distance_edits (x ∷ a) b = extend_edits x a (distance a) (distance_edits a) b

-- The words read backwards, onto others.
unfoldable pub rev_onto : Text → Text → Text
rev_onto [] s = s
rev_onto (x ∷ a) s = rev_onto a (x ∷ s)

rev_onto-twice : (a c d : Text) → rev_onto (rev_onto a c) d ≡ rev_onto c (a ++ d)
unfolding rev_onto
rev_onto-twice [] c d = refl
rev_onto-twice (x ∷ a) c d = rev_onto-twice a (x ∷ c) d

reversed_twice : (a : Text) → rev_onto (rev_onto a []) [] ≡ a
unfolding rev_onto
reversed_twice a = rev_onto-twice a [] [] ∙ append-nil a

edits_backwards :
    {a b c d : Text} {n m : ℕ}
    → Edits a b n
    → Edits c d m
    → Edits (rev_onto a c) (rev_onto b d) (n + m)
unfolding rev_onto
edits_backwards {c = c} {d = d} done t = subst (Edits c d) (omega arith) t
edits_backwards (keep e s) t = edits_backwards s (keep e t)
edits_backwards (change x y s) t =
    subst (Edits _ _) (omega arith) (edits_backwards s (change x y t))
edits_backwards (drop x s) t = subst (Edits _ _) (omega arith) (edits_backwards s (drop x t))
edits_backwards (insert y s) t = subst (Edits _ _) (omega arith) (edits_backwards s (insert y t))

pub edits_reversed : {a b : Text} {n : ℕ} → Edits a b n → Edits (rev_onto a []) (rev_onto b []) n
edits_reversed {a} {b} s =
    subst (Edits (rev_onto a []) (rev_onto b [])) (omega arith) (edits_backwards s done)

pub edits_restored : {n : ℕ} (a b : Text) → Edits (rev_onto a []) (rev_onto b []) n → Edits a b n
edits_restored {n} a b s =
    subst (λ (t : Text). Edits t b n) (reversed_twice a)
      (subst (λ (t : Text). Edits (rev_onto (rev_onto a []) []) t n) (reversed_twice b)
        (edits_reversed s))
