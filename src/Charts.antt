-- ===== src/Charts.antt =====
-- studio/src/components/charts/charts-impl.tsx and index.tsx, and the counts of studio/src/lib/charts.ts:
-- the rows and series of a chart, the top of a stack, the hover card and the table of the data. Drawing
-- is that of the library.
pub mod Tops
pub mod Stacks
pub mod Tests
use restitch_gateway.Prelude.{
  ℕ, zero, suc, ◌+◌, Bool, true, false, not, ◌&&◌, Option, none, some, List, [], ◌∷◌, map, Str,
  codes, ◌===◌, ltb, if◌then◌else◌, length, get_elem?, filter, ℤ, pos, negsuc,
}

pub record Series : Type 0 where
  pub key : Str
  pub label : Str
  pub color : Str

pub data Cell : Type 0 where
  number : ℤ → Cell
  words : Str → Cell
  null : Cell

pub record ChartRow : Type 0 where
  pub label : Str
  pub cells : List (Str × Cell)

unfoldable pub cell_in : List (Str × Cell) → Str → Option Cell
cell_in [] key = none
cell_in ((k, c) ∷ cells) key = if k === key then some c else cell_in cells key

-- `r[key]`: the label stands in the row too.
unfoldable pub cell_of : ChartRow → Str → Option Cell
cell_of r key = if key === codes "label" then some (words r.label) else cell_in r.cells key

abbrev pub number_of : Option Cell → Option ℤ
number_of (some (number n)) = some n
number_of _ = none

abbrev pub is_number : Option ℤ → Bool
is_number none = false
is_number (some n) = true

-- lib/charts.ts; the numbers are finite.
unfoldable pub point_count : List ChartRow → Str → ℕ
point_count rows key = length (filter (λ r. is_number (number_of (cell_of r key))) rows)

unfoldable pub needs_dots : List ChartRow → Str → Bool
needs_dots rows key = ltb (point_count rows key) 2

abbrev above_zero : Option ℤ → Bool
above_zero (some (pos (suc n))) = true
above_zero _ = false

abbrev pub is_filled : ChartRow → Series → Bool
is_filled r s = above_zero (number_of (cell_of r s.key))

abbrev pub or_key : Option Series → ChartRow → Option Str → Option Str
or_key none r rest = rest
or_key (some s) r rest = if is_filled r s then some s.key else rest

-- The inner loop of `topKeys`, with the places below `i` left.
unfoldable pub top_from : ChartRow → List Series → ℕ → Option Str
top_from r series zero = none
top_from r series (suc i) = let rest = top_from r series i in or_key (get_elem? series i) r rest

unfoldable pub top_keys : List ChartRow → List Series → List (Option Str)
top_keys rows series = map (λ r. top_from r series (length series)) rows

-- `indexed`: each row with its place, and the label at a place.
unfoldable pub index_rows : ℕ → List ChartRow → List (ℕ × ChartRow)
index_rows i [] = []
index_rows i (r ∷ rows) = (i, r) ∷ index_rows (i + 1) rows

abbrev label_or_none : Option ChartRow → Str
label_or_none none = []
label_or_none (some r) = r.label

unfoldable pub label_at : List ChartRow → ℕ → Str
label_at rows i = label_or_none (get_elem? rows i)

-- An item of the hover card: the values that are numbers, and not zero where zeros are hidden.
pub record TipItem : Type 0 where
  pub name : Str
  pub value : Option ℤ

abbrev is_zero : Option ℤ → Bool
is_zero (some (pos zero)) = true
is_zero _ = false

-- `none`: no card.
unfoldable pub tooltip_items : Bool → Bool → List TipItem → Option (List TipItem)
tooltip_items active hide_zero [] = none
tooltip_items active hide_zero (p ∷ payload) =
    if active
    then some (filter (λ q. is_number q.value && not (hide_zero && is_zero q.value)) (p ∷ payload))
    else none

-- ChartFrame: the chart or the empty text, the legend, and the table, `none` for a dash.
pub record FrameView : Type 0 where
  pub empty_text : Option Str
  pub legend : List Str
  pub table : List (Str × List (Option ℤ))

abbrev labels : List Series → List Str
labels = map (λ s. s.label)

abbrev legend_of : List Series → List Str
legend_of series = if ltb 1 (length series) then labels series else []

abbrev table_row : List Series → ChartRow → Str × List (Option ℤ)
table_row series r = (r.label, map (λ s. number_of (cell_of r s.key)) series)

unfoldable pub chart_frame : Option Str → List ChartRow → List Series → FrameView
chart_frame empty_text [] series = record {
  empty_text = some (elim empty_text [ none ↦ codes "No data in this range." | some t ↦ t ]);
  legend = [];
  table = [];
}
chart_frame empty_text (r ∷ rows) series = record {
  empty_text = none;
  legend = legend_of series;
  table = map (table_row series) (r ∷ rows);
}

abbrev pub chart_colors : List Str
chart_colors =
    codes "var(--accent)"
    ∷ codes "var(--state-timed-out)"
    ∷ codes "light-dark(#30b0c7, #40c8e0)"
    ∷ codes "light-dark(#af52de, #bf5af2)"
    ∷ codes "var(--state-success)"
    ∷ codes "light-dark(#ff2d55, #ff375f)"
    ∷ codes "light-dark(#5856d6, #5e5ce6)"
    ∷ []
