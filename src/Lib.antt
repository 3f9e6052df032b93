-- ===== src/Lib.antt =====
-- The web console of cronova, a scheduler for workflows ("DAGs" of tasks). The Go server keeps and
-- runs the workflows; the console is the single-page program in internal/web/static that shows and
-- edits them: base.js (texts, requests, dialogs, routes, sign-in), builder.js (the schedule form and
-- the ways to create a workflow), views.js (the pages) and boot.js (start and global handlers). These
-- files are modelled here from the source; the server and the browser are not, and their answers and
-- events are arguments of the definitions or constructors of step relations.
--
-- The parts, and the files that model them:
--   * Base: what all files share. A text is the list of its UTF-16 code units (Base/Texts), numbers are
--     the native naturals, and lists, tests, splitting and decimals have their lemmas here.
--   * Model: the task records of the editor and the lookup `byId`, with the names that every plain
--     object inherits.
--   * Graph: `hasCycle` (Graph/Cycle, with its proofs below it), walks along dependencies
--     (Graph/Walks), comparisons of graphs (Graph/Compare, Graph/Below), and `topoOrder` (Graph/Topo).
--   * Diff: `diffLines`, the longest common subsequence behind the panel of pending changes.
--   * Schedule: `parseScheduleState`, `computeSchedule`, `nvSchedGloss` and `wzDailyCron`.
--   * Editor: the model `D` of a workflow's page. Editor/Load fills it (`editorTaskFrom`, `showDag`),
--     Editor/Validate is `validateDag`, Editor/Spec is `dagSpecFrom` with the parsers of the form of
--     an HTTP task, Editor/Tasks has the operations on tasks (`addTask`, `duplicateTask`, `deleteTask`,
--     `renameActiveTask`, `nvAddStep`), Editor/Session the editing of the graph (`graphMutate`,
--     `graphToggleDep`, `graphDropAllowed`, `onGraphNodeActivate`, `startEdgeDrag`) and Editor/Console
--     the save protocol (`saveDag`, `flushSave`, `flushPendingSaves`, `deleteActiveDag`), in which
--     deletions may overlap and `D` may become null, as in `showDag`.
--   * Create: the wizard of the novices (Create/Wizard) and the modal of the experts with its button
--     (Create/Form).
--   * Flows: the list of workflows: its rows, the selection and bulk operations (Flows/Bulk), the
--     health bar, banner and checklist (Flows/Health) and the sparklines (Flows/Spark).
--   * Runs: `showRun` and the polls of a run's page, with their generations (Runs/Polls).
--   * Shell: signing in and the interface mode (Shell/Access), the routes and the suppression of
--     "hashchange" (Shell/Route, Shell/Route/Moves), the jump search (Shell/Jump), `confirmDialog`
--     (Shell/Dialogs) and the labels around the pages (Shell/Chrome).
--   * Words: the dictionary `DICT` in both languages, `t` and the label functions, and the message that
--     `api` gives to a refused request.
--   * Samples: tests at small inputs, and the theorems of the list below applied to such inputs.
--
-- How they meet: Create and Editor send definitions of the same shape, and both are judged by the same
-- `validateDag`; the page, the graph and the chips share the model of Editor; validation and the graph
-- share `hasCycle`; the saves of Editor/Console send what Editor/Spec builds.
--
-- State and steps. Each component keeps its state in a record, and a handler is a function on it, with
-- what the user types, the answer of a request or the content of the storage as an argument. Where the
-- order of events matters, a step relation or a list of actions says which event can come when: for
-- saves and deletions (Editor/Console/Events), the wizard, the graph, the selection, signing in, the
-- location, the page of a run, the modal and the confirmation. A handler that waits for an answer is
-- split where it waits, so that other events come between (signing in, deletions, the modal).
--
-- Bounds and fuel. `visit` recurs on fuel, one more than there are tasks, which bounds the depth of the
-- search since each call on the stack has coloured another task. The loop for a fresh id tries one name
-- more than there are tasks. The `while` loop of `topoOrder` has two passes more than there are tasks,
-- and each but the last one places a task. `decimal` has fuel for each digit. Enough fuel is part of
-- the proofs, not a hypothesis.
--
-- Arguments for what is not in the repository's own code: the lower case of a text, and
-- `encodeURIComponent` with `decodeURIComponent`, of which it is used that they are inverse, that
-- decoding leaves a text without "%" alone and that encoding leaves no "/"; and the form in which the
-- browser keeps a hash, of which nothing is assumed but what a theorem states.
--
-- Not modelled: `pickDialog` and `promptDialog`, HTML and styles, the DOM and its focus, dates and
-- clocks, the logs, actions and timeline of a run, the pages for resources, workers, audit and
-- tokens, the AI panel (aiwiki.js), the layout of the graph with zooming, the bundled API viewer,
-- and the server. Numbers that the source rounds are rounded exactly, and those of forms are
-- whole.
pub mod Base
pub mod Model
pub mod Graph
pub mod Diff
pub mod Schedule
pub mod Editor
pub mod Words
pub mod Create
pub mod Runs
pub mod Shell
pub mod Flows
pub mod Samples
