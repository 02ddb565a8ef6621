-- ===== src/Charts/Tests.antt =====
-- A stack of two series whose upper one is empty in the second row.
use restitch_gateway.Prelude.{
  map, true, ◌≡◌, refl, false, none, some, List, [], ◌∷◌, codes, ◌===◌, pos, negsuc,
}
use restitch_gateway.Charts.{
  Series, ChartRow, number, cell_of, cell_in, top_from, top_keys, point_count, needs_dots,
  chart_frame,
}
use restitch_gateway.Charts.Stacks.{stacked_bars}
use restitch_gateway.Charts.Tops.{AreTops, top_keys-AreTops}

abbrev series : List Series
series =
    record { key = codes "ok"; label = codes "Succeeded"; color = codes "a" }
    ∷ record { key = codes "errors"; label = codes "Failed"; color = codes "b" }
    ∷ []

abbrev rows : List ChartRow
rows =
    record {
      label = codes "10:00";
      cells = (codes "ok", number (pos 3)) ∷ (codes "errors", number (pos 1)) ∷ [];
    }
    ∷ record {
      label = codes "10:01";
      cells = (codes "ok", number (pos 2)) ∷ (codes "errors", number (pos 0)) ∷ [];
    }
    ∷ record { label = codes "10:02"; cells = (codes "ok", number (negsuc 0)) ∷ [] }
    ∷ []

tops : top_keys rows series ≡ some (codes "errors") ∷ some (codes "ok") ∷ none ∷ []
unfolding top_keys top_from cell_of cell_in ◌===◌
tops = refl

top_keys-AreTops_example : AreTops series rows (top_keys rows series)
top_keys-AreTops_example = top_keys-AreTops rows series

dots : needs_dots rows (codes "errors") ≡ false
unfolding needs_dots point_count cell_of cell_in ◌===◌
dots = refl

absent_is_dash :
    (chart_frame none rows series).table
    ≡ (codes "10:00", some (pos 3) ∷ some (pos 1) ∷ [])
      ∷ (codes "10:01", some (pos 2) ∷ some (pos 0) ∷ [])
      ∷ (codes "10:02", some (negsuc 0) ∷ none ∷ [])
      ∷ []
unfolding chart_frame cell_of cell_in ◌===◌
absent_is_dash = refl

-- Only the last filled piece of a row is round.
rounded :
    map (λ b. b.is_round) (stacked_bars rows series)
    ≡ (false ∷ true ∷ false ∷ []) ∷ (true ∷ false ∷ false ∷ []) ∷ []
unfolding stacked_bars top_keys top_from cell_of cell_in ◌===◌
rounded = refl
