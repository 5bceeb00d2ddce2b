-- ===== src/Report/Tables.antt =====
-- `_table`, and `zip` with `strict=True`, which raises `ValueError` on rows of different lengths.
use drtm_tests.Prelude.{
  ℕ, ◌+◌, ◌-◌, List, [], ◌∷◌, ◌++◌, map, Text, txt, join, length, leb, if◌then◌else◌, replicate,
  Result, ok, err, ◌>>=◌, value_error,
}

-- The widest cell of each column so far, against one more row
unfoldable pub widen : List ℕ → List Text → Result (List ℕ)
widen [] [] = ok []
widen (w ∷ ws) (cell ∷ cells) = do
  rest ← widen ws cells
  ok ((if leb w (length cell) then length cell else w) ∷ rest)
widen [] (cell ∷ cells) = err value_error
widen (w ∷ ws) [] = err value_error

unfoldable pub widths_of : List ℕ → List (List Text) → Result (List ℕ)
unfolding widen
widths_of widths [] = ok widths
widths_of widths (row ∷ rows) = do widths' ← widen widths row; widths_of widths' rows

-- `cell.ljust(width)`
unfoldable pub ljust : Text → ℕ → Text
ljust cell width = cell ++ replicate (width - length cell) b' '

unfoldable pub padded : List Text → List ℕ → List Text
unfolding ljust
padded [] widths = []
padded (cell ∷ cells) [] = []
padded (cell ∷ cells) (w ∷ ws) = ljust cell w ∷ padded cells ws

unfoldable pub line : List ℕ → List Text → Text
unfolding padded
line widths cells = txt "| " ++ (join (txt " | ") (padded cells widths) ++ txt " |")

unfoldable pub rule : List ℕ → Text
rule widths = b'|' ∷ (join (txt "|") (map (λ w. replicate (w + 2) b'-') widths) ++ txt "|")

unfoldable pub table : List Text → List (List Text) → Result (List Text)
unfolding widths_of line rule
table header rows = do
  widths ← widths_of (map length header) rows
  ok (line widths header ∷ rule widths ∷ map (line widths) rows)
