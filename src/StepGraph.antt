-- ===== src/StepGraph.antt =====
-- studio/src/features/resources/step-edges.ts and step-graph.tsx: the editor of the dependencies of
-- a composition's steps. `inferred` holds the template references that the server reports; it is
-- read as a dictionary of its own keys.
pub mod Names
pub mod Runtime
pub mod Connect
pub mod Disconnect
pub mod Edges
pub mod Layout
pub mod Selection
pub mod Tests
use restitch_gateway.Prelude.{
  ℕ, suc, ◌+◌, ◌-◌, ◌*◌, ltb, Bool, true, false, not, ◌&&◌, ◌||◌, Option, none, some, List, [], ◌∷◌,
  ◌++◌, map, Str, codes, ◌===◌, if◌then◌else◌, filter, any, find, flat_map, includes, set_add,
  set_delete,
}
use restitch_gateway.Values.{
  Value, undefined, null, bool, num, str, arr, obj, Fields, get_field, set_field, delete_field,
  items_of, strings_of,
}
use restitch_gateway.Dag.{
  DagStep, StrMap, map_get, set_from, depends_on_transitively, compute_waves,
}

-- A step with a name, and its depends_on as texts.
pub record Named : Type 0 where
  pub name : Str
  pub depends_on : List Str

abbrev pub Inferred : Type 0
Inferred = StrMap

unfoldable pub names_of : List Named → List Str
names_of list = set_from [] (map (λ s. s.name) list)

unfoldable pub inferred_for : Named → Inferred → List Str → List Str
inferred_for step inferred names =
    filter (λ d. not (d === step.name) && (includes names d && not (includes step.depends_on d)))
      (map_get inferred step.name)

-- An edge of the drawing. `none` is a property that the source leaves out; `dashed` is the style of
-- a template reference.
pub record Edge : Type 0 where
  pub id : Str
  pub source : Str
  pub target : Str
  pub selected : Option Bool
  pub deletable : Option Bool
  pub selectable : Option Bool
  pub focusable : Option Bool
  pub dashed : Bool

unfoldable pub solid_edge : List Str → Str → Str → Edge
solid_edge selected target d =
    let id : Str = d ++ (codes "->" ++ target) in
    record {
      id = id;
      source = d;
      target = target;
      selected = some (includes selected id);
      deletable = none;
      selectable = none;
      focusable = none;
      dashed = false;
    }

unfoldable pub template_edge : Str → Str → Edge
template_edge target d = record {
  id = codes "template:" ++ (d ++ (codes "->" ++ target));
  source = d;
  target = target;
  selected = none;
  deletable = some false;
  selectable = some false;
  focusable = some false;
  dashed = true;
}

unfoldable pub step_edges : List Named → Inferred → List Str → List Edge
step_edges list inferred selected =
    flat_map
      (λ s.
        map (solid_edge selected s.name) (filter (includes (names_of list)) s.depends_on)
        ++ map (template_edge s.name) (inferred_for s inferred (names_of list)))
      list

-- A step as the body holds it: an object with any fields.
abbrev pub name_key : Str
name_key = codes "name"

abbrev pub depends_on_key : Str
depends_on_key = codes "depends_on"

-- `Array.isArray(v) ? v.filter(d => typeof d === "string") : []`.
unfoldable pub texts : Value → List Str
texts (arr vs) = strings_of vs
texts _ = []

unfoldable pub named_step : Value → Value → List Named
named_step (str n) deps = if n === [] then [] else record { name = n; depends_on = texts deps } ∷ []
named_step _ deps = []

unfoldable pub named : List Fields → List Named
named steps = flat_map (λ s. named_step (get_field s name_key) (get_field s depends_on_key)) steps

-- `v === text`.
unfoldable pub is_text : Value → Str → Bool
is_text (str n) text = n === text
is_text _ text = false

unfoldable pub put_depends_on : Fields → List Str → Fields
put_depends_on s [] = delete_field s depends_on_key
put_depends_on s (d ∷ ds) = set_field s depends_on_key (arr (items_of (d ∷ ds)))

unfoldable pub with_depends_on : List Fields → Str → List Str → List Fields
with_depends_on steps step next =
    map (λ s. if is_text (get_field s name_key) step then put_depends_on s next else s) steps

-- What a step waits for at run time.
abbrev pub runtime_step : Inferred → List Str → Named → DagStep
runtime_step inferred names s = record {
  name = s.name;
  depends_on = some (s.depends_on ++ inferred_for s inferred names);
}

unfoldable pub runtime : List Named → Inferred → List DagStep
runtime list inferred = map (runtime_step inferred (names_of list)) list

pub data GraphError : Type 0 where
  no_error : GraphError
  itself : Str → GraphError
  cycle : Str → Str → GraphError

-- The text of the alert.
unfoldable pub error_text : GraphError → Str
error_text no_error = []
error_text (itself step) = step ++ codes " cannot depend on itself."
error_text (cycle step dep) =
    step
    ++ (codes " cannot depend on "
        ++ (dep ++ (codes ": " ++ (dep ++ (codes " already depends on " ++ (step ++ codes "."))))))

-- The component's state.
pub record GraphState : Type 0 where
  pub error : GraphError
  pub from : Str
  pub to : Str
  pub selected : List Str

pub data EdgeChange : Type 0 where
  select : Str → Bool → EdgeChange
  remove : Str → EdgeChange
  other_change : EdgeChange

unfoldable pub change_selection : List Str → EdgeChange → List Str
change_selection cur (select id true) = set_add cur id
change_selection cur (select id false) = set_delete cur id
change_selection cur (remove id) = set_delete cur id
change_selection cur other_change = cur

unfoldable pub change_all : List Str → List EdgeChange → List Str
change_all cur [] = cur
change_all cur (c ∷ changes) = change_all (change_selection cur c) changes

unfoldable pub on_edges_change : GraphState → List EdgeChange → GraphState
on_edges_change st changes = record st { selected = change_all st.selected changes }

-- The search always answers: `depends_on_transitively_decides`.
abbrev pub answers_yes : Option Bool → Bool
answers_yes (some b) = b
answers_yes none = false

-- A handler returns the new state, and what it passes to `onChange`, if it calls it.
abbrev pub Outcome : Type 0
Outcome = GraphState × Option (List Fields)

unfoldable pub connect_to : List Fields → Inferred → GraphState → Str → Str → Option Named → Outcome
connect_to steps inferred st step dep none = (st, none)
connect_to steps inferred st step dep (some target) =
    if not (any (λ s. s.name === dep) (named steps))
    then (st, none)
    else if step === dep
    then (record st { error = itself step }, none)
    else if includes target.depends_on dep
    then (record st { error = no_error }, none)
    else if answers_yes (depends_on_transitively (runtime (named steps) inferred) dep step)
    then (record st { error = cycle step dep }, none)
    else (
      record st { error = no_error },
      some (with_depends_on steps step (target.depends_on ++ dep ∷ [])),
    )

unfoldable pub connect : List Fields → Inferred → GraphState → Str → Str → Outcome
connect steps inferred st step dep =
    connect_to steps inferred st step dep (find (λ s. s.name === step) (named steps))

unfoldable pub drop_dep : List Fields → Str → Str → Option Named → List Fields
drop_dep next step dep none = next
drop_dep next step dep (some cur) =
    with_depends_on next step (filter (λ d. not (d === dep)) cur.depends_on)

-- The loop of `disconnect`, over pairs of a step and a dependency.
unfoldable pub disconnect_all : List Fields → List (Str × Str) → List Fields
disconnect_all next [] = next
disconnect_all next ((step, dep) ∷ pairs) =
    disconnect_all (drop_dep next step dep (find (λ s. s.name === step) (named next))) pairs

unfoldable pub disconnect : List Fields → GraphState → List (Str × Str) → Outcome
disconnect steps st pairs = (record st { error = no_error }, some (disconnect_all steps pairs))

-- React Flow deletes edges, of which those that are not deletable stay.
abbrev pub is_deletable : Edge → Bool
is_deletable e = elim e.deletable [ some false ↦ false | _ ↦ true ]

unfoldable pub on_edges_delete : List Fields → GraphState → List Edge → Outcome
on_edges_delete steps st deleted =
    disconnect steps st (map (λ e. (e.target, e.source)) (filter is_deletable deleted))

pub record Node : Type 0 where
  pub id : Str
  pub x : ℕ
  pub y : ℕ

abbrev pub col : ℕ
col = 220

abbrev pub row : ℕ
row = 72

unfoldable pub wave_nodes : ℕ → ℕ → List Str → List Node
wave_nodes x y [] = []
wave_nodes x y (name ∷ wave) =
    record { id = name; x = x * col; y = y * row } ∷ wave_nodes x (y + 1) wave

unfoldable pub place_nodes : ℕ → List (List Str) → List Node
place_nodes x [] = []
place_nodes x (wave ∷ waves) = wave_nodes x 0 wave ++ place_nodes (x + 1) waves

abbrev pub or_no_waves : Option (List (List Str)) → List (List Str)
or_no_waves none = []
or_no_waves (some waves) = waves

unfoldable pub graph_nodes : List Named → Inferred → List Node
graph_nodes list inferred = place_nodes 0 (or_no_waves (compute_waves (runtime list inferred)))

abbrev pub node_width : ℕ
node_width = 160

-- The path of WaveEdgeView: a bow below the steps in between with its four points, or a bezier curve.
pub data EdgePath : Type 0 where
  bow : (from first second to : ℕ × ℕ) → EdgePath
  bezier : (from to : ℕ × ℕ) → EdgePath

unfoldable pub edge_path : ℕ → ℕ → ℕ → ℕ → EdgePath
edge_path source_x source_y target_x target_y =
    if ltb (source_x + col) target_x
    then bow (source_x, source_y) (source_x + 80, source_y + row) (target_x - 80, target_y + row)
        (target_x, target_y)
    else bezier (source_x, source_y) (target_x, target_y)

-- What the component shows.
pub data EdgeRow : Type 0 where
  template_row : (target source : Str) → EdgeRow
  depends_row : (target source : Str) → EdgeRow

pub data View : Type 0 where
  name_a_step : View
  canvas :
      (nodes : List Node) (edges : List Edge) (rows : List EdgeRow) (problem error : Str)
      (choices : List Str) (add_disabled : Bool)
      → View

abbrev pub is_empty : Str → Bool
is_empty [] = true
is_empty (c ∷ s) = false

unfoldable pub edge_row : Edge → EdgeRow
edge_row e =
    if is_deletable e then depends_row e.target e.source else template_row e.target e.source

unfoldable pub view_list : List Named → Inferred → Str → GraphState → View
view_list [] inferred problem st = name_a_step
view_list (s ∷ list) inferred problem st =
    let edges = step_edges (s ∷ list) inferred st.selected in
    canvas (graph_nodes (s ∷ list) inferred) edges (map edge_row edges) problem
      (error_text st.error) (map (λ n. n.name) (s ∷ list)) (is_empty st.from || is_empty st.to)

unfoldable pub view : List Fields → Inferred → Str → GraphState → View
view steps inferred problem st = view_list (named steps) inferred problem st
