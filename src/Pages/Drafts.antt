-- ===== src/Pages/Drafts.antt =====
-- studio/src/features/resources/DraftPage.tsx.
use restitch_gateway.Prelude.{
  ℕ, ◌≡◌, ◌≢◌, Bool, true, false, Option, none, some, List, [], ◌∷◌, map, Str, codes, if◌then◌else◌,
  arith, List-cases, inl, inr,
}
use restitch_gateway.Text.{trim}
use restitch_gateway.Access.{editor, can, Kind, upstream, kind_label, is_singleton}
use restitch_gateway.Secrets.{RequiredName, NameRow, required_names}
use restitch_gateway.Session.{Query}
use restitch_gateway.Pages.{Content, data_state, is_empty}

pub record Resource : Type 0 where
  pub kind : Kind
  pub name : Str
  pub revision : ℕ
  pub updated_at : Str
  pub updated_by : Str

pub record ResourceRow : Type 0 where
  pub label : Str
  pub params : Kind × Str
  pub resource : Resource

unfoldable pub resource_row : Resource → ResourceRow
resource_row r = record { label = kind_label r.kind; params = (r.kind, r.name); resource = r }

-- The page: whether it offers the dialog, the rows of the draft, and the secret names.
pub record DraftView : Type 0 where
  pub can_add : Bool
  pub resources : Content (List Resource)
  pub rows : List Resource → List ResourceRow
  pub secrets : Content (List RequiredName)
  pub names : List RequiredName → Option (List NameRow)

unfoldable pub draft_page :
    Option Str → Query (List Resource) → Query (List RequiredName) → DraftView
draft_page role resources secrets = record {
  can_add = can role editor;
  resources =
      data_state is_empty
        (codes "The draft is empty. Add an upstream, then a composition that calls it.") resources;
  rows = map resource_row;
  secrets = data_state (λ names. false) (codes "Nothing to show.") secrets;
  names = required_names;
}

-- NewResourceDialog.
pub record NewResource : Type 0 where
  pub shown : Bool
  pub kind : Kind
  pub name : Str

abbrev pub start_resource : NewResource
start_resource = record { shown = false; kind = upstream; name = [] }

pub data ResourceEvent : Type 0 where
  shown_dialog submitted closed : ResourceEvent
  chose : Kind → ResourceEvent
  typed : Str → ResourceEvent

unfoldable pub target_name : NewResource → Str
target_name d = if is_singleton d.kind then codes "default" else trim d.name

abbrev pub close_resource : NewResource → NewResource
close_resource d = record d { shown = false }

-- The editor that a submission opens, by the kind and the name of the resource.
abbrev open_target : NewResource → Str → NewResource × Option (Kind × Str)
open_target d [] = (d, none)
open_target d (c ∷ name) = (close_resource d, some (d.kind, c ∷ name))

unfoldable pub resource_step : ResourceEvent → NewResource → NewResource × Option (Kind × Str)
resource_step shown_dialog d = (record d { shown = true }, none)
resource_step (chose kind) d = (record d { kind = kind }, none)
resource_step (typed name) d = (record d { name = name }, none)
resource_step closed d = (close_resource d, none)
resource_step submitted d = if d.shown then open_target d (target_name d) else (d, none)

-- A submission opens an editor only from the open dialog, for its kind and its target name, and never
-- for an empty name; the dialog is closed then.
pub resource_step-opened :
    (d : NewResource) (kind : Kind) (name : Str)
    → (resource_step submitted d).1 ≡ some (kind, name)
    → (d.shown ≡ true)
      × (kind ≡ d.kind)
      × (name ≡ target_name d)
      × (name ≢ [])
      × ((resource_step submitted d).0.shown ≡ false)
unfolding resource_step
resource_step-opened d kind name h = elim (List-cases (target_name d)) [
  | inl e ↦ absurd (ground (arith, h, e))
  | inr (c, rest, e) ↦ (
    ground (arith, h, e),
    ground (arith, h, e),
    ground (arith, h, e),
    λ blank. ground (arith, h, e, blank),
    ground (arith, h, e),
  )
]
