-- ===== src/Report/Widths.antt =====
-- The lengths of the lines of a table.
use mathlib.Core.Path.{subst}
use drtm_tests.Prelude.{
  suc, ℕ, ◌+◌, ◌-◌, ◌≤◌, ◌≡◌, refl, sym, ap, List, [], ◌∷◌, ◌++◌, map, Text, txt, join, length, leb,
  arith, if◌then◌else◌, replicate, ok, length-append, length-replicate,
}
use drtm_tests.Report.Tables.{widen, widths_of, ljust, padded, line, rule, table}

-- A row has as many cells as there are widths, and none is wider than its column.
abbrev pub Fits : List ℕ → List Text → Type 0
Fits [] [] = Unit {0}
Fits (w ∷ ws) (cell ∷ cells) = (length cell ≤ w) × Fits ws cells
Fits _ _ = ⊥

-- The length of a line of these widths
abbrev pub inner : List ℕ → ℕ
inner [] = 0
inner (w ∷ []) = w
inner (w ∷ v ∷ ws) = w + (3 + inner (v ∷ ws))

length-ljust : (cell : Text) (w : ℕ) → length cell ≤ w → length (ljust cell w) ≡ w
unfolding ljust
length-ljust cell w h = omega (
  arith,
  length-append cell (replicate (w - length cell) b' '),
  length-replicate {A = ℕ} (w - length cell) b' ',
)

length-bar : length (txt " | ") ≡ 3
unfolding txt
length-bar = refl

length-padded :
    (widths : List ℕ) (cells : List Text)
    → Fits widths cells
    → length (join (txt " | ") (padded cells widths)) ≡ inner widths
unfolding padded join
length-padded [] [] h = refl
length-padded (w ∷ []) (cell ∷ []) (h, _) = length-ljust cell w h
length-padded (w ∷ v ∷ ws) (cell ∷ next ∷ cells) (h, hs) =
    let rest = join (txt " | ") (padded (next ∷ cells) (v ∷ ws)) in
    omega (
      arith,
      length-append (ljust cell w) (txt " | " ++ rest),
      length-append (txt " | ") rest,
      length-bar,
      length-ljust cell w h,
      length-padded (v ∷ ws) (next ∷ cells) hs,
    )
length-padded (w ∷ []) (cell ∷ next ∷ cells) (_, h) = elim h [ ]
length-padded (w ∷ v ∷ ws) (cell ∷ []) (_, h) = elim h [ ]
length-padded [] (cell ∷ cells) h = elim h [ ]
length-padded (w ∷ ws) [] h = elim h [ ]

length-left : length (txt "| ") ≡ 2
unfolding txt
length-left = refl

length-right : length (txt " |") ≡ 2
unfolding txt
length-right = refl

length-line :
    (widths : List ℕ) (cells : List Text)
    → Fits widths cells
    → length (line widths cells) ≡ inner widths + 4
unfolding line
length-line widths cells h =
    let middle = join (txt " | ") (padded cells widths) in
    omega (
      arith,
      length-append (txt "| ") (middle ++ txt " |"),
      length-append middle (txt " |"),
      length-left,
      length-right,
      length-padded widths cells h,
    )

abbrev dashes : ℕ → Text
dashes w = replicate (w + 2) b'-'

length-one : length (txt "|") ≡ 1
unfolding txt
length-one = refl

length-dashes :
    (w : ℕ) (ws : List ℕ) → length (join (txt "|") (map dashes (w ∷ ws))) ≡ inner (w ∷ ws) + 2
unfolding join
length-dashes w [] = omega (arith, length-replicate {A = ℕ} (w + 2) b'-')
length-dashes w (v ∷ ws) =
    let rest = join (txt "|") (map dashes (v ∷ ws)) in
    omega (
      arith,
      length-append (dashes w) (txt "|" ++ rest),
      length-append (txt "|") rest,
      length-one,
      length-replicate {A = ℕ} (w + 2) b'-',
      length-dashes v ws,
    )

length-rule : (w : ℕ) (ws : List ℕ) → length (rule (w ∷ ws)) ≡ inner (w ∷ ws) + 4
unfolding rule
length-rule w ws =
    let middle = join (txt "|") (map dashes (w ∷ ws)) in
    omega (arith, length-append middle (txt "|"), length-one, length-dashes w ws)

-- Widths that are as many, and none less
abbrev Widens : List ℕ → List ℕ → Type 0
Widens [] [] = Unit {0}
Widens (w ∷ ws) (v ∷ vs) = (w ≤ v) × Widens ws vs
Widens _ _ = ⊥

Widens-refl : (ws : List ℕ) → Widens ws ws
Widens-refl [] = tt
Widens-refl (w ∷ ws) = (omega arith, Widens-refl ws)

Fits-Widens : (ws vs : List ℕ) (cells : List Text) → Widens ws vs → Fits ws cells → Fits vs cells
Fits-Widens [] [] [] g h = tt
Fits-Widens (w ∷ ws) (v ∷ vs) (cell ∷ cells) (g, gs) (h, hs) =
    (omega arith, Fits-Widens ws vs cells gs hs)
Fits-Widens [] (v ∷ vs) cells g h = elim g [ ]
Fits-Widens (w ∷ ws) [] cells g h = elim g [ ]
Fits-Widens [] [] (cell ∷ cells) g h = elim h [ ]
Fits-Widens (w ∷ ws) (v ∷ vs) [] g h = elim h [ ]

Widens-trans : (us ws vs : List ℕ) → Widens us ws → Widens ws vs → Widens us vs
Widens-trans [] [] [] g h = tt
Widens-trans (u ∷ us) (w ∷ ws) (v ∷ vs) (g, gs) (h, hs) = (omega arith, Widens-trans us ws vs gs hs)
Widens-trans [] (w ∷ ws) vs g h = elim g [ ]
Widens-trans (u ∷ us) [] vs g h = elim g [ ]
Widens-trans [] [] (v ∷ vs) g h = elim h [ ]
Widens-trans (u ∷ us) (w ∷ ws) [] g h = elim h [ ]

-- Rows of as many cells as there are columns
abbrev pub Rectangular : ℕ → List (List Text) → Type 0
Rectangular n [] = Unit {0}
Rectangular n (row ∷ rows) = (length row ≡ n) × Rectangular n rows

abbrev AllFit : List ℕ → List (List Text) → Type 0
AllFit ws [] = Unit {0}
AllFit ws (row ∷ rows) = Fits ws row × AllFit ws rows

abbrev Widened : List ℕ → List Text → List ℕ → Type 0
Widened ws row vs = Widens ws vs × Fits vs row

wider : ℕ → Text → ℕ
wider w cell = if leb w (length cell) then length cell else w

wider_le : (w : ℕ) (cell : Text) → (w ≤ wider w cell) × (length cell ≤ wider w cell)
unfolding wider
wider_le w cell = ground arith

widen_fits :
    (ws : List ℕ) (row : List Text)
    → length row ≡ length ws
    → (vs : List ℕ) × (widen ws row ≡ ok vs) × Widened ws row vs
unfolding widen wider
widen_fits [] [] h = ([], refl, (tt, tt))
widen_fits (w ∷ ws) (cell ∷ cells) h =
    let (vs, e, (g, f)) = widen_fits ws cells (omega arith) in
    let (lo, hi) = wider_le w cell in (wider w cell ∷ vs, rw (e) refl, ((lo, g), (hi, f)))
widen_fits [] (cell ∷ cells) h = let no : ⊥ = omega arith in elim no [ ]
widen_fits (w ∷ ws) [] h = let no : ⊥ = omega arith in elim no [ ]

length-Widens : (ws vs : List ℕ) → Widens ws vs → length vs ≡ length ws
length-Widens [] [] g = refl
length-Widens (w ∷ ws) (v ∷ vs) (_, g) = ap suc (length-Widens ws vs g)
length-Widens [] (v ∷ vs) g = elim g [ ]
length-Widens (w ∷ ws) [] g = elim g [ ]

widths_of_fits :
    (ws : List ℕ) (rows : List (List Text))
    → Rectangular (length ws) rows
    → (vs : List ℕ) × (widths_of ws rows ≡ ok vs) × (Widens ws vs × AllFit vs rows)
unfolding widths_of
widths_of_fits ws [] h = (ws, refl, (Widens-refl ws, tt))
widths_of_fits ws (row ∷ rows) (h, hs) =
    let (us, e, (g, f)) = widen_fits ws row h in
    let (vs, e', (g', fs)) =
      widths_of_fits us rows (subst (λ n. Rectangular n rows) (sym (length-Widens ws us g)) hs) in
    (vs, rw (e) e', (Widens-trans ws us vs g g', (Fits-Widens us vs row g' f, fs)))

header-Fits : (header : List Text) → Fits (map length header) header
header-Fits [] = tt
header-Fits (cell ∷ cells) = (omega arith, header-Fits cells)

length-widths : (header : List Text) → length (map length header) ≡ length header
length-widths [] = refl
length-widths (cell ∷ cells) = ap suc (length-widths cells)

abbrev pub AllLong : ℕ → List Text → Type 0
AllLong n [] = Unit {0}
AllLong n (l ∷ ls) = (length l ≡ n) × AllLong n ls

rows_long :
    (ws : List ℕ) (rows : List (List Text))
    → AllFit ws rows
    → AllLong (inner ws + 4) (map (line ws) rows)
rows_long ws [] h = tt
rows_long ws (row ∷ rows) (h, hs) = (length-line ws row h, rows_long ws rows hs)

rule_long : (w : ℕ) (ws vs : List ℕ) → Widens (w ∷ ws) vs → length (rule vs) ≡ inner vs + 4
rule_long w ws (v ∷ vs) h = length-rule v vs
rule_long w ws [] h = elim h [ ]

length-map-line :
    (ws : List ℕ) (rows : List (List Text)) → length (map (line ws) rows) ≡ length rows
length-map-line ws [] = refl
length-map-line ws (row ∷ rows) = ap suc (length-map-line ws rows)

-- A table whose rows all have as many cells as its header, which has one at least, is printed, as one
-- line for the header, one for the rule and one for each row, all of the same length.
pub table-AllLong :
    (cell : Text) (cells : List Text) (rows : List (List Text))
    → Rectangular (length (cell ∷ cells)) rows
    → (lines : List Text) × (n : ℕ) × (table (cell ∷ cells) rows ≡ ok lines)
      × (AllLong n lines × (length lines ≡ length rows + 2))
unfolding table
table-AllLong cell cells rows h =
    let start = map length (cell ∷ cells) in
    let (ws, e, (g, fs)) =
      widths_of_fits start rows
        (subst (λ n. Rectangular n rows) (sym (length-widths (cell ∷ cells))) h) in
    (
      line ws (cell ∷ cells) ∷ rule ws ∷ map (line ws) rows,
      inner ws + 4,
      rw (e) refl,
      (
        (
          length-line ws (cell ∷ cells)
              (Fits-Widens start ws (cell ∷ cells) g (header-Fits (cell ∷ cells))),
          (rule_long _ _ ws g, rows_long ws rows fs),
        ),
        omega (arith, length-map-line ws rows),
      ),
    )
