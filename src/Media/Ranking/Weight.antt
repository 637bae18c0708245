-- ===== src/Media/Ranking/Weight.antt =====
-- When two tokens count as a typing error apart.
use whiterun_music_bot.Base.{ℕ, ◌+◌, ◌≤◌, ◌≡◌, ◌↔◌, refl, true, false, [], ◌∷◌, length, arith}
use whiterun_music_bot.Media.Ranking.{
  Text, text_eq, begins_with, contains, row_distance, token_weight,
}
use whiterun_music_bot.Media.Ranking.Edits.{Edits, done, keep, change, drop, insert}
use whiterun_music_bot.Media.Ranking.Rows.{row_distance_lem}

-- Words that few edits part differ little in length.
edits_length :
    {a b : Text} {n : ℕ} → Edits a b n → (length a ≤ length b + n) × (length b ≤ length a + n)
edits_length done = omega arith
edits_length (keep e s) = omega (arith, edits_length s)
edits_length (change x y s) = omega (arith, edits_length s)
edits_length (drop x s) = omega (arith, edits_length s)
edits_length (insert y s) = omega (arith, edits_length s)

prefix_refl : (a : Text) → begins_with a a ≡ true
prefix_refl [] = refl
prefix_refl (x ∷ a) = ground (arith, prefix_refl a)

text_eq-prefix : (a b : Text) → text_eq a b ≡ true → begins_with a b ≡ true
text_eq-prefix [] [] h = refl
text_eq-prefix [] (y ∷ b) h = h
text_eq-prefix (x ∷ a) [] h = refl
text_eq-prefix (x ∷ a) (y ∷ b) h = ground (arith, text_eq-prefix a b)

contains-prefix : (a b : Text) → begins_with a b ≡ true → contains a b ≡ true
contains-prefix [] b h = h
contains-prefix (x ∷ a) b h = ground arith

passes :
    (q c : Text)
    → token_weight q c ≡ 60
    → (5 ≤ length q)
      × (5 ≤ length c)
      × (contains c q ≡ false)
      × (contains q c ≡ false)
      × (row_distance q c ≤ 2)
unfolding token_weight
passes q c h = ground arith

-- An absent occurrence is no prefix and no equality.
distinct : (q c : Text) → contains q c ≡ false → (text_eq q c ≡ false) × (begins_with q c ≡ false)
distinct q c h = ground (arith, text_eq-prefix q c, contains-prefix q c)

weighs :
    (q c : Text)
    → 5 ≤ length q
    → 5 ≤ length c
    → contains c q ≡ false
    → contains q c ≡ false
    → row_distance q c ≤ 2
    → length q ≤ length c + 2
    → length c ≤ length q + 2
    → token_weight q c ≡ 60
unfolding token_weight
weighs q c lq lc hc hq d a b = ground (arith, distinct q c hq, distinct c q hc)

-- Two tokens weigh 60 exactly when both have at least five runes, neither contains the other, and at
-- most two changed, dropped or inserted runes make one of the other. So the test of their lengths,
-- which spares the loops, refuses no pair that the loops would let pass.
pub token_weight_typo :
    (q c : Text)
    → (token_weight q c ≡ 60) ↔ (
        (5 ≤ length q)
        × (5 ≤ length c)
        × (contains c q ≡ false)
        × (contains q c ≡ false)
        × (n : ℕ) × (n ≤ 2)
        × Edits q c n)
token_weight_typo q c = (
  λ h.
      let p = passes q c h in (p.0, p.1, p.2, p.3, row_distance q c, p.4, (row_distance_lem q c).0),
  λ h.
      let few = (row_distance_lem q c).1 h.4 h.6 in
      let near = edits_length h.6 in
      weighs q c h.0 h.1 h.2 h.3 (omega (arith, few, h.5)) (omega (arith, near, h.5))
        (omega (arith, near, h.5)),
)
