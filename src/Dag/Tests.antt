-- ===== src/Dag/Tests.antt =====
-- Runs of dag.ts on small graphs.
use Prim.Native.String.{String}
use restitch_gateway.Dag.Names.{NoRepeat}
use restitch_gateway.Dag.Relation.{IsAcyclic, Reach}
use restitch_gateway.Dag.Search.{IsAcyclic-by_search, depends_on_transitively_decides}
use restitch_gateway.Dag.Order.{IsLayered, IsGrouped, compute_waves_layers, compute_waves_groups}
use restitch_gateway.Prelude.{
  Bool, any, includes, flatten, Perm, ◌↔◌, ◌≡◌, refl, true, false, some, List, [], ◌∷◌, Str, codes,
  ◌===◌, set_add,
}
use restitch_gateway.Dag.{
  DagStep, map_set, map_from, map_get, set_from, step_names, depends_on_map, search_loop,
  search_fuel, depends_on_transitively, is_ready, next_wave, delete_all, waves_loop, compute_waves,
}

abbrev pub step : String → List Str → DagStep
step n ds = record { name = codes n; depends_on = some ds }

-- a, b after a, c after b, d after a.
abbrev pub chain : List DagStep
chain =
    step "a" []
    ∷ step "b" (codes "a" ∷ [])
    ∷ step "c" (codes "b" ∷ codes "x" ∷ [])
    ∷ step "d" (codes "a" ∷ [])
    ∷ []

abbrev pub ring : List DagStep
ring = step "a" (codes "b" ∷ []) ∷ step "b" (codes "a" ∷ []) ∷ step "c" [] ∷ []

abbrev program : Unit {0}
unfolding ◌===◌ set_add map_set map_from map_get set_from step_names depends_on_map search_loop
    search_fuel depends_on_transitively is_ready next_wave delete_all waves_loop compute_waves
program = tt

pub compute_waves-chain :
    compute_waves chain
    ≡ some ((codes "a" ∷ []) ∷ (codes "b" ∷ codes "d" ∷ []) ∷ (codes "c" ∷ []) ∷ [])
unfolding program
compute_waves-chain = refl

compute_waves-ring :
    compute_waves ring ≡ some ((codes "c" ∷ []) ∷ (codes "a" ∷ codes "b" ∷ []) ∷ [])
unfolding program
compute_waves-ring = refl

searches :
    (depends_on_transitively chain (codes "c") (codes "a") ≡ some true)
    × (depends_on_transitively chain (codes "a") (codes "c") ≡ some false)
    × (depends_on_transitively ring (codes "a") (codes "b") ≡ some true)
unfolding program
searches = (refl, refl, refl)

chain-IsAcyclic : IsAcyclic (depends_on_map chain)
unfolding program
chain-IsAcyclic = IsAcyclic-by_search chain refl

compute_waves_layers_example :
    IsLayered
      (depends_on_map chain)
      []
      []
      ((codes "a" ∷ []) ∷ (codes "b" ∷ codes "d" ∷ []) ∷ (codes "c" ∷ []) ∷ [])
compute_waves_layers_example = compute_waves_layers chain _ chain-IsAcyclic compute_waves-chain

compute_waves_groups_example :
    (ws : List (List Str)) × (compute_waves ring ≡ some ws)
    × Perm (flatten ws) (step_names ring)
    × NoRepeat (step_names ring)
    × ((a : Str) → includes (step_names ring) a ≡ any (λ s. s.name === a) ring)
    × IsGrouped (depends_on_map ring) [] [] ws
compute_waves_groups_example = compute_waves_groups ring

depends_on_transitively_decides_example :
    (b : Bool) × (depends_on_transitively ring (codes "a") (codes "c") ≡ some b)
    × ((b ≡ true) ↔ ∥ Reach (depends_on_map ring) (codes "a") (codes "c") ∥₁)
depends_on_transitively_decides_example =
    depends_on_transitively_decides ring (codes "a") (codes "c")
