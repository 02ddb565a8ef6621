-- ===== src/StepGraph/Tests.antt =====
-- Runs of the step graph, the ones of step-graph.test.tsx among them.
use Prim.Native.String.{String}
use restitch_gateway.Dag.Relation.{IsAcyclic, Needs}
use restitch_gateway.Dag.Search.{IsAcyclic-by_search}
use restitch_gateway.StepGraph.Runtime.{graph_map}
use restitch_gateway.StepGraph.Connect.{HasDistinctNames, Answer, connect-Answer, connect-IsAcyclic}
use restitch_gateway.StepGraph.Disconnect.{
  without, disconnect_removes, disconnect-IsAcyclic, disconnect-connect,
}
use restitch_gateway.StepGraph.Edges.{draws, step_edges_iff}
use restitch_gateway.StepGraph.Layout.{HasColumn, is_bow, step_edges-RunsRight}
use restitch_gateway.Prelude.{
  ℕ, suc, ◌*◌, ◌+◌, ◌<◌, find, map, ◌≢◌, ◌↔◌, ◌≡◌, refl, true, none, some, List, [], ◌∷◌, Str,
  codes, ◌===◌, set_add,
}
use restitch_gateway.Values.{
  str, arr, Fields, end, field, get_field, set_field, delete_field, items_of, strings_of,
}
use restitch_gateway.Dag.{
  map_set, map_from, map_get, set_from, step_names, depends_on_map, search_loop, search_fuel,
  depends_on_transitively, is_ready, next_wave, delete_all, waves_loop, compute_waves,
}
use restitch_gateway.StepGraph.{
  Inferred, names_of, inferred_for, solid_edge, template_edge, step_edges, texts, named_step, named,
  is_text, put_depends_on, with_depends_on, runtime, no_error, cycle, GraphState, change_selection,
  change_all, connect_to, connect, drop_dep, disconnect_all, disconnect, on_edges_delete, col,
  node_width, edge_path, wave_nodes, place_nodes, graph_nodes, edge_row, view_list, view, name_key,
  depends_on_key,
}

abbrev program : Unit {0}
unfolding ◌===◌ set_add map_set map_from map_get set_from step_names depends_on_map search_loop
    search_fuel depends_on_transitively is_ready next_wave delete_all waves_loop compute_waves
    get_field set_field delete_field items_of strings_of names_of inferred_for solid_edge
    template_edge step_edges texts named_step named is_text put_depends_on with_depends_on runtime
    change_selection change_all connect_to connect drop_dep disconnect_all disconnect
    on_edges_delete wave_nodes place_nodes graph_nodes edge_row view_list view
program = tt

abbrev pub bare : String → Fields
bare n = field name_key (str (codes n)) end

abbrev pub after : String → List Str → Fields
after n ds = field name_key (str (codes n)) (field depends_on_key (arr (items_of ds)) end)

abbrev pub idle : GraphState
idle = record { error = no_error; from = []; to = []; selected = [] }

abbrev pub chain : List Fields
chain = bare "a" ∷ after "b" (codes "a" ∷ []) ∷ after "c" (codes "b" ∷ []) ∷ []

-- "refuses an edge that makes a cycle"
refuses_cycle :
    connect chain [] idle (codes "a") (codes "c")
    ≡ (record idle { error = cycle (codes "a") (codes "c") }, none)
unfolding program
refuses_cycle = refl

abbrev pub open_chain : List Fields
open_chain = bare "a" ∷ after "b" (codes "a" ∷ []) ∷ bare "c" ∷ []

-- "adds depends_on when two steps are connected"
pub adds_edge :
    connect open_chain [] idle (codes "c") (codes "b")
    ≡ (idle, some (bare "a" ∷ after "b" (codes "a" ∷ []) ∷ after "c" (codes "b" ∷ []) ∷ []))
unfolding program
adds_edge = refl

-- "removes depends_on when the edge is removed"
removes_edge :
    disconnect (bare "a" ∷ after "b" (codes "a" ∷ []) ∷ []) idle ((codes "b", codes "a") ∷ [])
    ≡ (idle, some (bare "a" ∷ bare "b" ∷ []))
unfolding program
removes_edge = refl

-- "refuses an edge that closes a cycle through a template reference"
refuses_template_cycle :
    connect
      (bare "a" ∷ after "b" (codes "a" ∷ []) ∷ bare "c" ∷ [])
      ((codes "c", codes "b" ∷ []) ∷ [])
      idle
      (codes "a")
      (codes "c")
    ≡ (record idle { error = cycle (codes "a") (codes "c") }, none)
unfolding program
refuses_template_cycle = refl

open_chain-HasDistinctNames : HasDistinctNames open_chain
unfolding program
open_chain-HasDistinctNames = (refl, (refl, (refl, tt)))

chain-HasDistinctNames : HasDistinctNames chain
unfolding program
chain-HasDistinctNames = (refl, (refl, (refl, tt)))

open_chain-IsAcyclic : IsAcyclic (graph_map (named open_chain) [])
unfolding program
open_chain-IsAcyclic = IsAcyclic-by_search (runtime (named open_chain) []) refl

connect-IsAcyclic_example : IsAcyclic (graph_map (named chain) [])
connect-IsAcyclic_example =
    connect-IsAcyclic open_chain [] idle idle (codes "c") (codes "b") chain
      open_chain-HasDistinctNames open_chain-IsAcyclic adds_edge

chain_target :
    find (λ s. s.name === codes "a") (named chain)
    ≡ some (record { name = codes "a"; depends_on = [] })
unfolding program
chain_target = refl

connect-Answer_example :
    Answer chain [] idle
      (codes "a")
      (codes "c")
      (record { name = codes "a"; depends_on = [] })
      (connect chain [] idle (codes "a") (codes "c"))
connect-Answer_example =
    connect-Answer chain [] idle (codes "a") (codes "c")
      (record { name = codes "a"; depends_on = [] }) chain_target

path_key-ne : codes "path" ≢ depends_on_key
path_key-ne h = cc h

disconnect_removes_example :
    (left : List Fields) × (disconnect open_chain idle ((codes "b", codes "a") ∷ [])
      ≡ (record idle { error = no_error }, some left))
    × (named left ≡ map (without ((codes "b", codes "a") ∷ [])) (named open_chain))
disconnect_removes_example =
    disconnect_removes open_chain idle ((codes "b", codes "a") ∷ []) open_chain-HasDistinctNames

disconnects :
    disconnect open_chain idle ((codes "b", codes "a") ∷ [])
    ≡ (idle, some (bare "a" ∷ bare "b" ∷ bare "c" ∷ []))
unfolding program
disconnects = refl

disconnect-IsAcyclic_example :
    IsAcyclic (graph_map (named (bare "a" ∷ bare "b" ∷ bare "c" ∷ [])) [])
disconnect-IsAcyclic_example =
    disconnect-IsAcyclic open_chain [] idle idle ((codes "b", codes "a") ∷ [])
      (bare "a" ∷ bare "b" ∷ bare "c" ∷ []) open_chain-HasDistinctNames open_chain-IsAcyclic
      disconnects

disconnect-connect_example :
    (left : List Fields) × (disconnect chain idle ((codes "c", codes "b") ∷ [])
      ≡ (record idle { error = no_error }, some left))
    × (named left ≡ named open_chain)
disconnect-connect_example =
    disconnect-connect open_chain [] idle idle (codes "c") (codes "b") chain
      open_chain-HasDistinctNames adds_edge

abbrev references : Inferred
references = (codes "c", codes "a" ∷ codes "b" ∷ []) ∷ []

step_edges_iff_example :
    (draws (λ e. true) (step_edges (named chain) references []) (codes "a") (codes "c") ≡ true)
    ↔ Needs (graph_map (named chain) references) (codes "c") (codes "a")
step_edges_iff_example =
    step_edges_iff (named chain) references [] (codes "a") (codes "c") chain-HasDistinctNames

runs_to_b : draws (λ e. true) (step_edges (named open_chain) [] []) (codes "a") (codes "b") ≡ true
unfolding program
runs_to_b = refl

step_edges-RunsRight_example :
    (i : ℕ) × (j : ℕ) × (i < j)
    × HasColumn (graph_nodes (named open_chain) []) (codes "a") i
    × HasColumn (graph_nodes (named open_chain) []) (codes "b") j
    × ((y z : ℕ) → (is_bow (edge_path (i * col + node_width) y (j * col) z) ≡ true) ↔ (suc i < j))
step_edges-RunsRight_example =
    step_edges-RunsRight (named open_chain) [] [] (codes "a") (codes "b")
      open_chain-HasDistinctNames open_chain-IsAcyclic runs_to_b
