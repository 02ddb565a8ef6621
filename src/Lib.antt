-- ===== src/Lib.antt =====
-- Studio, the web interface of the Restitch gateway (studio/src), in TypeScript and React.
--
-- Studio edits the draft of an environment: its upstreams, compositions, policies and settings. A user
-- with a role opens a resource in the editor, changes it in a form made from a JSON schema, in a graph of
-- the steps, or as YAML, and saves it against the revision that was opened. Shortcuts and a command
-- palette lead to the pages and actions that the role allows. Failures of the API become messages, and
-- toasts tell what was done.
--
-- The parts and their files:
--   Prelude     lists, tests and texts that the others share; a text is its UTF-16 code units.
--   Text        the string functions of JavaScript that the code calls.
--   Values      what JSON and YAML parse to; an object is the list of its fields in order.
--   Dag         studio/src/lib/dag.ts: dependsOnMap, dependsOnTransitively, computeWaves.
--   StepGraph   studio/src/features/resources/step-edges.ts and step-graph.tsx: the edges, and the
--               handlers connect, disconnect and onEdgesChange. It asks Dag about cycles and columns.
--   Access      studio/src/lib/roles.ts, studio/src/app/nav.ts, studio/src/features/resources/kinds.ts:
--               can, the tables of pages and kinds, currentEnv.
--   Keyboard    studio/src/app/keyboard.tsx: isTyping, chordTargets, the handler onKey, ShortcutSheet.
--   Palette     studio/src/lib/commands.ts and studio/src/app/command-palette.tsx: matchScore,
--               usePaletteItems, rankItems, CommandPalette. Both ask Access what the role may see.
--   SchemaForm  studio/src/features/resources/schema-form.tsx and secret-fields.ts: resolve, setKey,
--               ObjectFields, SchemaField, MapField, FreeField, ScalarField, takesSecret.
--   Errors      studio/src/api-client.ts, studio/src/lib/errors.ts and
--               studio/src/features/auth/LoginPage.tsx: toApiError, errorMessage, fieldErrors, safeRedirect.
--   Editor      studio/src/features/resources/ResourceEditor.tsx: EditorForm as a step function that
--               returns the new state and what it sends. It uses Access, Values and Errors.
--   Secrets     studio/src/features/resources/secret-picker.tsx: VAR_NAME, insertReference, SecretPicker,
--               StringInput, RequiredNames. The fields of SchemaForm that takesSecret names use it.
--   Formats     studio/src/lib/diff.ts, studio/src/lib/charts.ts, studio/src/lib/utils.ts: diffLines,
--               formatMs, formatDuration, formatBytes, formatRelative, formatRate, formatTime, stateColor.
--   Publish     studio/src/features/publish/VersionsPage.tsx: PublishPanel, VersionsPage, PromoteDialog as
--               step functions. It takes the mutations from Editor and the roles from Access.
--   Toast       studio/src/components/ui/toast.tsx: the store as a step relation.
--   Lint        studio/src/features/resources/lint.tsx: useStepDependencies and useTemplateLint as one
--               machine of renders, timers and replies, and the machine of the latest question.
--   Session     studio/src/lib/auth.ts, studio/src/app/root-shell.tsx, the component LoginPage,
--               studio/src/features/auth/change-password-form.tsx, the listeners of
--               studio/src/api-client.ts and the retries of studio/src/main.tsx. It uses Errors.
--   Pages       studio/src/components/data-state.tsx, and in its children
--               features/environments/EnvironmentsPage.tsx, features/resources/DraftPage.tsx,
--               features/settings/TokensPage.tsx and features/settings/UsersPage.tsx of studio/src.
--   Charts      studio/src/components/charts: topKeys, indexed, segment, ChartTooltip, ChartFrame; and
--               pointCount and needsDots of studio/src/lib/charts.ts.
--   Overview    studio/src/features/dashboard/OverviewPage.tsx. Its rows are those of Charts, its states
--               of a query those of Pages.
--   Shell       studio/src/app/app-shell.tsx and studio/src/lib/theme.tsx over the browser's storage.
--   Opening     studio/src/features/resources/ResourceEditor.tsx: ResourceEditor, what EditorForm of Editor
--               is opened on.
--   Code        studio/src/features/resources/code-field.tsx: CodeField with the text of its parent. In
--               Code/Screen.antt the parent is the YAML view of Editor.
--   Controls    segmented.tsx, tabs.tsx, dialog.tsx and field.tsx of studio/src/components/ui.
--
-- A component is a record of its state and a function for each handler, with the guards of the code. An
-- effect on the outside (a request, a navigation, a toast) is a value that the handler returns, and the
-- answers of the server are events. Parameters stand for what is not in studio/src: toLowerCase and
-- toUpperCase, decodeURIComponent, Number, the YAML library (Editor.Yaml.IsYamlLibrary says what is asked
-- of it), the text of a document of CodeMirror and the comparison of JSON texts.
--
-- Fuel: the search of Dag has one unit for each dependency and one more, and its waves one
-- for each step; both are proved to be enough. `resolve` of SchemaForm follows a reference with each unit,
-- and the depth of the schema is enough; the code itself loops when definitions refer to each other in a
-- circle, so the theorem asks that they do not.
--
-- Limits: scores are exact fractions where the code uses floating point; object keys in the form of an
-- array index keep their place where JavaScript puts them first; an object has its own fields only, except
-- where the code uses `in`. Not modelled: markup, styles, icons and animation; React Flow, CodeMirror and
-- Recharts; the API client, which is generated; the other routes, which only render their pages;
-- how numbers and times are written in the locale of the user; and the gateway and the server of
-- Studio, which are Go programs.
pub mod Prelude
pub mod Text
pub mod Values
pub mod Dag
pub mod StepGraph
pub mod Access
pub mod Keyboard
pub mod Palette
pub mod SchemaForm
pub mod Errors
pub mod Editor
pub mod Secrets
pub mod Formats
pub mod Publish
pub mod Toast
pub mod Lint
pub mod Session
pub mod Pages
pub mod Charts
pub mod Overview
pub mod Shell
pub mod Controls
pub mod Opening
pub mod Code
