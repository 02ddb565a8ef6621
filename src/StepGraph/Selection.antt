-- ===== src/StepGraph/Selection.antt =====
-- The edge selection after a batch of changes.
use restitch_gateway.Prelude.{
  ◌≡◌, refl, Bool, true, false, not, List, [], ◌∷◌, arith, Str, ◌===◌, ===_iff, if◌then◌else◌,
  includes, includes-set_add, includes-filter,
}
use restitch_gateway.StepGraph.{
  GraphState, EdgeChange, select, remove, other_change, change_selection, change_all,
  on_edges_change,
}

-- What one change says of an edge, `before` if it is about another.
abbrev pub says : Str → Bool → EdgeChange → Bool
says id before (select j on) = if j === id then on else before
says id before (remove j) = if j === id then false else before
says id before other_change = before

-- The word of the last change about the edge, `before` if there is none.
abbrev pub last_word : Str → Bool → List EdgeChange → Bool
last_word id before [] = before
last_word id before (c ∷ changes) = last_word id (says id before c) changes

includes-change :
    (id : Str) (cur : List Str) (c : EdgeChange)
    → includes (change_selection cur c) id ≡ says id (includes cur id) c
unfolding change_selection
includes-change id cur (select j true) = ground (arith, includes-set_add cur j id)
includes-change id cur (select j false) =
    ground (arith, includes-filter (λ x. not (x === j)) cur id, ===_iff id j, ===_iff j id)
includes-change id cur (remove j) =
    ground (arith, includes-filter (λ x. not (x === j)) cur id, ===_iff id j, ===_iff j id)
includes-change id cur other_change = refl

includes-change_all :
    (id : Str) (changes : List EdgeChange) (cur : List Str)
    → includes (change_all cur changes) id ≡ last_word id (includes cur id) changes
unfolding change_all
includes-change_all id [] cur = refl
includes-change_all id (c ∷ changes) cur =
    rw (includes-change_all id changes (change_selection cur c), includes-change id cur c)

-- After a batch of changes an edge is selected as the last change about it says, and as before if
-- there is none.
pub on_edges_change_lem :
    (st : GraphState) (changes : List EdgeChange) (id : Str)
    → includes (on_edges_change st changes).selected id
      ≡ last_word id (includes st.selected id) changes
unfolding on_edges_change
on_edges_change_lem st changes id = includes-change_all id changes st.selected
