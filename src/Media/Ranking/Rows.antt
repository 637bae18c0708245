-- ===== src/Media/Ranking/Rows.antt =====
-- The row that tokenWeight keeps, against the distance by recursion.
use whiterun_music_bot.Base.{
  ℕ, suc, ◌+◌, ◌≤◌, ◌≡◌, refl, sym, ap, ◌∙◌, List, [], ◌∷◌, length, arith, get_or,
}
use mathlib.Core.Path.{subst}
use whiterun_music_bot.Media.Ranking.{Text, fill, next_row, rows, first_row, row_distance}
use whiterun_music_bot.Media.Ranking.Edits.{
  Edits, extend, distance, distance-nil, distance_least, distance_edits, rev_onto, edits_reversed,
  edits_restored,
}

-- The cells of a row right of the one for `rb`, where the candidate's word goes on with `b`: `rb` is
-- what has been read of it, backwards.
cells : (Text → ℕ) → Text → Text → List ℕ
cells f rb [] = []
cells f rb (y ∷ b) = f (y ∷ rb) ∷ cells f (y ∷ rb) b

first_row-cells : (rb b : Text) → first_row (length rb) b ≡ length rb ∷ cells (distance []) rb b
unfolding first_row cells distance
first_row-cells rb [] = refl
first_row-cells rb (y ∷ b) = ap (◌∷◌ (length rb)) (
    subst (λ (n : ℕ). first_row n b ≡ suc (length rb) ∷ cells (distance []) (y ∷ rb) b)
      (omega arith) (first_row-cells (y ∷ rb) b))

fill-cells :
    (x : ℕ) (f : Text → ℕ) (rb b : Text)
    → fill x (f rb) (extend x f rb) b (cells f rb b) ≡ cells (extend x f) rb b
unfolding fill cells extend
fill-cells x f rb [] = refl
fill-cells x f rb (y ∷ b) = ap (◌∷◌ (extend x f (y ∷ rb))) (fill-cells x f (y ∷ rb) b)

next_row-cells :
    (x : ℕ) (ra b : Text)
    → next_row (length ra) x b (distance ra [] ∷ cells (distance ra) [] b)
      ≡ distance (x ∷ ra) [] ∷ cells (distance (x ∷ ra)) [] b
unfolding next_row distance extend
next_row-cells x ra b =
    ap (λ (n : ℕ). n ∷ fill x (distance ra []) n b (cells (distance ra) [] b))
      (ap (λ (n : ℕ). n + 1) (sym (distance-nil ra)))
    ∙ ap (◌∷◌ (distance ra [] + 1)) (unfold extend in fill-cells x (distance ra) [] b)

rows-cells :
    (ra a b : Text)
    → rows (length ra) a b (distance ra [] ∷ cells (distance ra) [] b)
      ≡ distance (rev_onto a ra) [] ∷ cells (distance (rev_onto a ra)) [] b
unfolding rows rev_onto
rows-cells ra [] b = refl
rows-cells ra (x ∷ a) b =
    ap (rows (length ra + 1) a b) (next_row-cells x ra b)
    ∙ ap (λ (n : ℕ). rows n a b (distance (x ∷ ra) [] ∷ cells (distance (x ∷ ra)) [] b))
        (omega arith)
    ∙ rows-cells (x ∷ ra) a b

last_cell :
    (f : Text → ℕ) (rb b : Text) → get_or (f rb ∷ cells f rb b) (length b) 0 ≡ f (rev_onto b rb)
unfolding cells rev_onto
last_cell f rb [] = refl
last_cell f rb (y ∷ b) = last_cell f (y ∷ rb) b

row_distance_backwards : (a b : Text) → row_distance a b ≡ distance (rev_onto a []) (rev_onto b [])
unfolding row_distance distance
row_distance_backwards a b =
    ap (λ (row : List ℕ). get_or (rows 0 a b row) (length b) 0) (first_row-cells [] b)
    ∙ ap (λ (row : List ℕ). get_or row (length b) 0) (rows-cells [] a b)
    ∙ last_cell (distance (rev_onto a [])) [] b

-- The loops of tokenWeight over one row compute the least number of runes to change, drop or insert
-- that makes the candidate's token of the query's: some way of editing takes that many, and none takes
-- fewer.
pub row_distance_lem :
    (a b : Text) → Edits a b (row_distance a b) × ((n : ℕ) (s : Edits a b n) → row_distance a b ≤ n)
row_distance_lem a b = (
  subst (Edits a b) (sym (row_distance_backwards a b))
      (edits_restored a b (distance_edits (rev_onto a []) (rev_onto b []))),
  λ n s.
      subst (λ (k : ℕ). k ≤ n) (sym (row_distance_backwards a b))
        (distance_least (edits_reversed s)),
)
