-- ===== src/Editor/Tasks.antt =====
-- The operations of the editor on the tasks of a workflow (internal/web/static/views.js):
-- `renameActiveTask`, `addTask`, `addTaskFromGraph`, `deleteTask`, `duplicateTask` and the dependency
-- chips, as they change `D.tasks`.
pub mod Fresh
pub mod Tidy
pub mod Rename
pub mod Edits
pub mod Chips
pub mod Steps
pub mod Links
pub mod Sequences
use poc_cronova_windows.Base.{
  Bool, List, Text, [], any, codes, decimal, false, filter, find, if◌then◌else◌, length, ltb, map,
  none, not, some, suc, zero, ℕ, ◌++◌, ◌==◌, ◌||◌, ◌∷◌, list_eq, nat_eq,
}
use poc_cronova_windows.Model.{Task, blank_task}
use poc_cronova_windows.Editor.Validate.{id_ok, is_empty}

-- Whether some task has an id.
abbrev pub has_id : Text → List Task → Bool
has_id k = any (λ (x : Task). x.id == k)

-- `D.tasks.some((x) => x !== tk && x.id === k)`, for the task at position `i`.
unfoldable pub id_elsewhere : ℕ → Text → List Task → Bool
id_elsewhere i k [] = false
id_elsewhere zero k (x ∷ xs) = has_id k xs
id_elsewhere (suc i) k (x ∷ xs) = x.id == k || id_elsewhere i k xs

-- `const j = deps.indexOf(k); if (j >= 0) deps[j] = k2`.
unfoldable pub replace_first : Text → Text → List Text → List Text
replace_first k k2 [] = []
replace_first k k2 (d ∷ ds) = if d == k then k2 ∷ ds else d ∷ replace_first k k2 ds

-- The new id of the task at position `i`, and the dependencies of the other tasks.
unfoldable pub rename_at : ℕ → Text → Text → List Task → List Task
unfolding replace_first
rename_at i k k2 [] = []
rename_at zero k k2 (x ∷ xs) =
    record x { id = k2 } ∷ map (λ (y : Task). record y { deps = replace_first k k2 y.deps }) xs
rename_at (suc i) k k2 (x ∷ xs) =
    record x { deps = replace_first k k2 x.deps } ∷ rename_at i k k2 xs

-- `deleteTask`: the task goes, and so do the dependencies on it.
abbrev pub scrub : Text → Task → Task
scrub k x = record x { deps = filter (λ d. not (d == k)) x.deps }

unfoldable pub delete_task : Text → List Task → List Task
delete_task k ts = map (scrub k) (filter (λ (x : Task). not (x.id == k)) ts)

-- The loop `do { id = name n; n++; } while (D.tasks.some((x) => x.id === id))`, on fuel. Out of fuel
-- it gives the last id that it tried.
unfoldable pub first_free : ℕ → (ℕ → Text) → ℕ → List Task → Text
first_free zero name n ts = name n
first_free (suc f) name n ts =
    let next = first_free f name (suc n) ts in if has_id (name n) ts then next else name n

-- The names that `addTask` tries, from one more than there are tasks.
abbrev pub task_name : ℕ → Text
task_name n = codes "task_" ++ decimal n

-- One try for each task, and one more, always finds a free id.
unfoldable pub new_task_id : List Task → Text
unfolding first_free
new_task_id ts = first_free (length ts) task_name (suc (length ts)) ts

unfoldable pub add_task : List Task → List Task
unfolding new_task_id
add_task ts = ts ++ (record blank_task { id = new_task_id ts } ∷ [])

-- The names that `duplicateTask` tries: "_copy", "_copy_2", "_copy_3" and so on.
unfoldable pub copy_name : Text → ℕ → Text
copy_name k n = k ++ (codes "_copy" ++ (if ltb 1 n then codes "_" ++ decimal n else []))

unfoldable pub copy_id : Text → List Task → Text
unfolding first_free
copy_id k ts = first_free (length ts) (copy_name k) 1 ts

unfoldable pub duplicate_task : Text → List Task → List Task
unfolding copy_id
duplicate_task k ts = elim (find (λ (x : Task). x.id == k) ts) [
  | none ↦ ts
  | some src ↦ ts ++ (record src { id = copy_id k ts } ∷ [])
]

-- `deps.splice(deps.indexOf(k), 1)`.
unfoldable pub remove_first : Text → List Text → List Text
remove_first k [] = []
remove_first k (d ∷ ds) = if d == k then ds else d ∷ remove_first k ds

-- A change of the dependencies of the first task with an id, which `find` returns.
unfoldable pub change_deps : (List Text → List Text) → Text → List Task → List Task
change_deps f k [] = []
change_deps f k (x ∷ xs) =
    if x.id == k then record x { deps = f x.deps } ∷ xs else x ∷ change_deps f k xs

abbrev pub push : Text → List Text → List Text
push k ds = ds ++ (k ∷ [])

-- What `renameActiveTask` does with a new id for the task at position `i`, which has the id `k`: it
-- keeps the tasks, says why it refuses, or changes them. `k2` is trimmed by the caller.
pub data Renaming : Type 0 where
  kept : Renaming
  refused : Text → Renaming
  renamed : List Task → Renaming

unfoldable pub rename_active : ℕ → Text → Text → List Task → Renaming
rename_active i k k2 ts =
    if k2 == k
    then kept
    else if is_empty k2
    then refused (codes "err_emptyid")
    else if not (id_ok k2)
    then refused (codes "err_taskid")
    else if id_elsewhere i k2 ts
    then refused (codes "err_dup")
    else renamed (rename_at i k k2 ts)

-- `nvAddStep`: a step behind the last one of the order in which the steps are shown, which is given
-- as an argument. The loop takes the first free id, as in `addTask`.
unfoldable pub step_deps : List Task → List Text
step_deps [] = []
step_deps (x ∷ []) = x.id ∷ []
step_deps (x ∷ y ∷ r) = step_deps (y ∷ r)

abbrev pub step_name : ℕ → Text
step_name n = codes "step_" ++ decimal n

unfoldable pub new_step_id : List Task → Text
unfolding first_free
new_step_id ts = first_free (length ts) step_name (suc (length ts)) ts

unfoldable pub nv_add_step : List Task → List Task → List Task
unfolding new_step_id step_deps
nv_add_step ordered ts =
    ts
    ++ (record blank_task {
      id = new_step_id ts;
      command = codes "Write-Output 'hello cronova'";
      deps = step_deps ordered;
    }
        ∷ [])
