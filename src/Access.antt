-- ===== src/Access.antt =====
-- Who may do what, and the pages: studio/src/lib/roles.ts, studio/src/app/nav.ts and
-- studio/src/features/resources/kinds.ts. Icons are left out.
pub mod Laws
pub mod Tests
use restitch_gateway.Prelude.{
  ℕ, zero, suc, ◌+◌, Bool, true, false, not, ◌&&◌, Option, none, some, List, [], ◌∷◌, ◌++◌, map,
  Mem, Str, codes, ◌===◌, ◌==◌, leb, if◌then◌else◌, includes, find,
}
use restitch_gateway.Text.{starts_with}
use Prim.Native.String.{String}

pub data Role : Type 0 where
  viewer editor owner : Role

abbrev pub role_text : Role → Str
role_text viewer = codes "viewer"
role_text editor = codes "editor"
role_text owner = codes "owner"

abbrev pub role_label : Role → Str
role_label viewer = codes "Viewer"
role_label editor = codes "Editor"
role_label owner = codes "Owner"

abbrev pub roles : List Str
roles = role_text viewer ∷ role_text editor ∷ role_text owner ∷ []

-- `isRole`, for a value that is a text or missing.
unfoldable pub is_role : Option Str → Bool
is_role none = false
is_role (some r) = includes roles r

-- `roles.indexOf(r)` for a text among the roles.
unfoldable pub role_index : List Str → Str → ℕ
role_index [] r = 0
role_index (x ∷ xs) r = if x === r then 0 else suc (role_index xs r)

abbrev or_no_text : Option Str → Str
or_no_text none = []
or_no_text (some r) = r

unfoldable pub can : Option Str → Role → Bool
can role min =
    if is_role role
    then leb (role_index roles (role_text min)) (role_index roles (or_no_text role))
    else false

pub record NavItem : Type 0 where
  pub to : Str
  pub label : Str
  pub min : Role
  pub chord : Option Str

abbrev pub nav_items : List NavItem
nav_items =
    record { to = codes "/"; label = codes "Environments"; min = viewer; chord = some (codes "e") }
    ∷ []

abbrev pub settings_items : List NavItem
settings_items =
    record {
      to = codes "/settings/users";
      label = codes "Users";
      min = owner;
      chord = some (codes "u");
    }
    ∷ []

pub record EnvPage : Type 0 where
  pub to : Str
  pub label : Str
  pub min : Role
  pub chord : Str
  pub exact : Bool
  pub keywords : Option Str

abbrev pub overview_to : Str
overview_to = codes "/environments/$env"

abbrev pub env_pages : List EnvPage
env_pages =
    record {
      to = overview_to;
      label = codes "Overview";
      min = viewer;
      chord = codes "o";
      exact = true;
      keywords = some (codes "dashboard usage requests instances");
    }
    ∷ record {
      to = codes "/environments/$env/draft";
      label = codes "Draft";
      min = viewer;
      chord = codes "d";
      exact = false;
      keywords = some (codes "resources");
    }
    ∷ record {
      to = codes "/environments/$env/versions";
      label = codes "Publish and history";
      min = viewer;
      chord = codes "p";
      exact = true;
      keywords = some (codes "publish versions rollback promote diff");
    }
    ∷ record {
      to = codes "/environments/$env/tokens";
      label = codes "Gateway tokens";
      min = owner;
      chord = codes "t";
      exact = true;
      keywords = some (codes "token");
    }
    ∷ []

-- The rows of the tables.
abbrev pub IsNavItem : NavItem → Type 0
IsNavItem i = Mem i (nav_items ++ settings_items)

abbrev pub IsEnvPage : EnvPage → Type 0
IsEnvPage p = Mem p env_pages

-- The part of a path up to the next slash.
unfoldable pub segment : Str → Str
segment [] = []
segment (c ∷ s) = if c == b'/' then [] else c ∷ segment s

abbrev pub env_prefix : Str
env_prefix = codes "/environments/"

-- The environment of a path: none, its decoded name, or the exception of `decodeURIComponent`.
pub data EnvOf : Type 0 where
  no_env : EnvOf
  env : Str → EnvOf
  uri_error : EnvOf

unfoldable pub strip : Str → Str → Str
strip s [] = s
strip [] (d ∷ p) = []
strip (c ∷ s) (d ∷ p) = strip s p

unfoldable pub decoded : Option Str → EnvOf
decoded none = uri_error
decoded (some name) = env name

unfoldable pub env_of_segment : (Str → Option Str) → Str → EnvOf
env_of_segment decode [] = no_env
env_of_segment decode (c ∷ s) = decoded (decode (c ∷ s))

-- `decode` is `decodeURIComponent`; `none` stands for the URIError that it throws.
unfoldable pub current_env : (Str → Option Str) → Str → EnvOf
current_env decode pathname =
    if starts_with pathname env_prefix
    then env_of_segment decode (segment (strip pathname env_prefix))
    else no_env

-- kinds.ts
pub data Kind : Type 0 where
  upstream composition auth rate_limit settings : Kind

pub record KindInfo : Type 0 where
  pub kind : Kind
  pub label : Str
  pub singleton : Bool

abbrev pub kinds : List KindInfo
kinds =
    record { kind = upstream; label = codes "Upstream"; singleton = false }
    ∷ record { kind = composition; label = codes "Composition"; singleton = false }
    ∷ record { kind = auth; label = codes "Auth policy"; singleton = true }
    ∷ record { kind = rate_limit; label = codes "Rate limit"; singleton = true }
    ∷ record { kind = settings; label = codes "Settings"; singleton = true }
    ∷ []

abbrev pub kind_text : Kind → Str
kind_text upstream = codes "upstream"
kind_text composition = codes "composition"
kind_text auth = codes "auth"
kind_text rate_limit = codes "rate_limit"
kind_text settings = codes "settings"

abbrev or_kind_text : Kind → Option KindInfo → Str
or_kind_text k none = kind_text k
or_kind_text k (some i) = i.label

unfoldable pub kind_label : Kind → Str
kind_label k = or_kind_text k (find (λ i. kind_text i.kind === kind_text k) kinds)

abbrev pub is_singleton_info : Option KindInfo → Bool
is_singleton_info none = false
is_singleton_info (some i) = i.singleton

unfoldable pub is_singleton : Kind → Bool
is_singleton k = is_singleton_info (find (λ i. kind_text i.kind === kind_text k) kinds)
