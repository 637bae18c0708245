-- ===== src/Media/Ranking.antt =====
-- internal/media/ranking.go: texts as Go ranges over them, and how much a token of the query counts
-- when a title has a token like it. What package unicode says of a rune is a parameter.
pub mod Edits
pub mod Rows
pub mod Weight
pub mod Music
pub mod Score
pub mod Best
use Prim.Native.Char.{code}
use Prim.Native.String as String
use whiterun_music_bot.Base.{
  ℕ, ◌+◌, ◌-◌, min, Bool, true, false, ◌&&◌, ◌||◌, List, [], ◌∷◌, String, length, get_or, ltb, leb,
  ◌==◌, if◌then◌else◌,
}

-- A text's runes.
abbrev pub Text : Type 0
Text = List ℕ

abbrev pub codes : String → Text
codes String.[] = []
codes (String.◌∷◌ c s) = code c ∷ codes s

abbrev pub text_eq : Text → Text → Bool
text_eq [] [] = true
text_eq (x ∷ s) (y ∷ t) = x == y && text_eq s t
text_eq _ _ = false

-- strings.HasPrefix.
abbrev pub begins_with : Text → Text → Bool
begins_with s [] = true
begins_with [] (y ∷ t) = false
begins_with (x ∷ s) (y ∷ t) = x == y && begins_with s t

-- strings.Contains.
abbrev pub contains : Text → Text → Bool
contains [] t = begins_with [] t
contains (x ∷ s) t = begins_with (x ∷ s) t || contains s t

abbrev pub cost : ℕ → ℕ → ℕ
cost x y = if x == y then 0 else 1

-- The inner loop over the rest of the candidate's token and of the row, which it overwrites: `prev` is
-- what stood at row[j] before, `left` what stands there now.
unfoldable pub fill : ℕ → ℕ → ℕ → Text → List ℕ → List ℕ
fill x prev left [] row = []
fill x prev left (y ∷ b) [] = []
fill x prev left (y ∷ b) (old ∷ row) =
    let here = min (old + 1) (min (left + 1) (prev + cost x y)) in here ∷ fill x old here b row

unfoldable pub next_row : ℕ → ℕ → Text → List ℕ → List ℕ
unfolding fill
next_row i x b [] = []
next_row i x b (prev ∷ row) = (i + 1) ∷ fill x prev (i + 1) b row

-- The outer loop, from index `i` of the query's token.
unfoldable pub rows : ℕ → Text → Text → List ℕ → List ℕ
unfolding next_row
rows i [] b row = row
rows i (x ∷ a) b row = rows (i + 1) a b (next_row i x b row)

unfoldable pub first_row : ℕ → Text → List ℕ
first_row j [] = j ∷ []
first_row j (y ∷ b) = j ∷ first_row (j + 1) b

unfoldable pub row_distance : Text → Text → ℕ
unfolding rows first_row
row_distance a b = get_or (rows 0 a b (first_row 0 b)) (length b) 0

-- tokenWeight.
unfoldable pub token_weight : Text → Text → ℕ
token_weight query candidate =
    if text_eq query candidate
    then 100
    else if ltb (length query) 5 || ltb (length candidate) 5
    then 0
    else if begins_with candidate query || begins_with query candidate
    then 35
    else if contains candidate query || contains query candidate
    then 10
    else if ltb 2 (length query - length candidate) || ltb 2 (length candidate - length query)
    then 0
    else if leb (row_distance query candidate) 2
    then 60
    else 0
