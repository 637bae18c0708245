-- ===== src/Player/Seek.antt =====
-- internal/player/controls.go: ParseTimestamp and Seek. A text is the list of its bytes; the three
-- messages of a timestamp that is refused are one error.
use whiterun_music_bot.Base.{
  ℕ, ◌+◌, ◌-◌, ◌*◌, ◌≤◌, ◌≡◌, ◌&&◌, ◌||◌, Option, none, some, List, [], ◌∷◌, ◌++◌, length, ltb,
  ◌==◌, if◌then◌else◌, arith,
}
use whiterun_music_bot.Media.Track.{second}
use whiterun_music_bot.Player.State.{GuildPlayer, CommandError, Outcome}

-- strings.Split at colons; `part` is what precedes.
unfoldable pub split : List ℕ → List ℕ → List (List ℕ)
split part [] = part ∷ []
split part (c ∷ cs) =
    let next = split [] cs in
    let more = split (part ++ c ∷ []) cs in if c == 58 then part ∷ next else more

-- The value of digits, as strconv.ParseInt computes it; none where another character stands.
unfoldable pub parse_digits : ℕ → List ℕ → Option ℕ
parse_digits n [] = some n
parse_digits n (c ∷ cs) =
    let rest = parse_digits (n * 10 + (c - 48)) cs in if ltb c 48 || ltb 57 c then none else rest

unfoldable pub parse_part : List ℕ → Option ℕ
unfolding parse_digits
parse_part s = if length s == 0 || ltb 6 (length s) then none else parse_digits 0 s

-- The parts after the first, onto the sum of those before.
unfoldable pub parse_rest : ℕ → List (List ℕ) → Option ℕ
unfolding parse_part
parse_rest total [] = some total
parse_rest total (s ∷ ss) = elim (parse_part s) [
  | none ↦ none
  | some n ↦ if ltb 59 n then none else parse_rest (total * 60 + n) ss
]

unfoldable pub parse_parts : List (List ℕ) → Option ℕ
unfolding parse_part parse_rest
parse_parts [] = some 0
parse_parts (s ∷ ss) = elim (parse_part s) [ none ↦ none | some n ↦ parse_rest n ss ]

-- ParseTimestamp, in nanoseconds.
unfoldable pub parse_timestamp : List ℕ → Option ℕ
unfolding split parse_parts
parse_timestamp raw =
    let parts = split [] raw in
    if ltb (length parts) 2 || ltb 3 (length parts) then none else elim (parse_parts parts) [
      | none ↦ none
      | some total ↦ if ltb 86400 total then none else some (total * second)
    ]

-- Seek, once the timestamp is parsed: it never moves.
unfoldable pub seek_to : Option ℕ → GuildPlayer → Outcome
seek_to none p = (p, some CommandError.bad_timestamp)
seek_to (some position) p = elim p.current [
  | none ↦ (p, some CommandError.not_playing)
  | some t ↦
      if ltb 0 t.duration && ltb t.duration position
      then (p, some CommandError.past_the_end)
      else (p, some CommandError.seek_unavailable)
]

unfoldable pub seek : List ℕ → GuildPlayer → Outcome
unfolding parse_timestamp seek_to
seek raw p = seek_to (parse_timestamp raw) p

-- A timestamp that is accepted is at most a day.
parse_timestamp-bounded : (raw : List ℕ) (t : ℕ) → parse_timestamp raw ≡ some t → t ≤ 86400 * second
unfolding parse_timestamp
parse_timestamp-bounded raw t e = ground (arith, e)
