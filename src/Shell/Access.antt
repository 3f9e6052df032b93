-- ===== src/Shell/Access.antt =====
-- Who uses the console and in which mode (internal/web/static/base.js): `initAuth`, `renderUserChip`,
-- `doLogout`, `showLogin`, `startApp`, `resolveMode` and `setMode`, and what `api` does when a session
-- is over. A handler is a function for each stretch between its waits.
pub mod Gate
use poc_cronova_windows.Base.{
  Bool, List, Option, Text, [], codes, false, if◌then◌else◌, ltb, none, not, some, suc, true, ℕ,
  ◌&&◌, ◌-◌, ◌==◌, ◌||◌, ◌∷◌, list_eq, nat_eq,
}
use poc_cronova_windows.Editor.Validate.{is_empty}

-- `authUser`, as /api/me answers it.
pub record User : Type 0 where
  pub role : Text
  pub username : Text
  pub auth : Bool

-- An answer of the server, or the status and the message of its refusal; a request that reaches no
-- server has the status 0.
pub data Answer (A : Type 0) : Type 0 where
  ok : A → Answer A
  refused : ℕ → Text → Answer A

pub data UiMode : Type 0 where
  novice expert : UiMode

-- The form that is shown over the page: none, or one that says that the session has expired or not,
-- with the error below it.
pub data LoginError : Type 0 where
  quiet bad_password api_error : LoginError
  message : Text → LoginError

pub data Login : Type 0 where
  closed : Login
  form : Bool → LoginError → Login

-- The chip of the user: hidden, or the name and the key of the role.
pub data Chip : Type 0 where
  hidden : Chip
  shows : Text → Text → Chip

-- `asking` counts the calls of `initAuth` that wait for /api/me, `choosing` those of `startApp` that
-- wait for the mode.
pub record Shell : Type 0 where
  pub user : Option User
  pub body_role : Text
  pub login : Login
  pub chip : Chip
  pub new_dag_shown : Bool
  pub mode : Option UiMode
  pub stored : Option UiMode
  pub started : Bool
  pub asking : ℕ
  pub choosing : ℕ

-- The page as it is loaded, with the mode that the browser has stored, if it is one of the two; boot.js
-- calls `initAuth`.
unfoldable pub loaded : Option UiMode → Shell
loaded s = record {
  user = none;
  body_role = [];
  login = closed;
  chip = hidden;
  new_dag_shown = true;
  mode = none;
  stored = s;
  started = false;
  asking = 1;
  choosing = 0;
}

-- `renderUserChip`.
abbrev pub role_key : Text → Text
role_key role = if role == codes "viewer" then codes "role_viewer" else codes "role_admin"

unfoldable pub chip_of : User → Shell → Shell
chip_of u s = if not u.auth || is_empty u.username then record s { chip = hidden } else record s {
  chip = shows u.username (role_key u.role);
  new_dag_shown = u.role == codes "admin";
}

unfoldable pub render_user_chip : Shell → Shell
unfolding chip_of
render_user_chip s = elim s.user [ none ↦ record s { chip = hidden } | some u ↦ chip_of u s ]

unfoldable pub show_login : Bool → Shell → Shell
show_login expired s = record s { login = form expired quiet }

abbrev pub implicit_admin : User
implicit_admin = record { role = codes "admin"; username = []; auth = false }

-- What `api` does, in calls other than those of the sign-in, when the session is over.
unfoldable pub expire : Shell → Shell
unfolding show_login
expire s = elim s.user [ none ↦ s | some u ↦ show_login true (record s { user = none }) ]

-- `initAuth` behind its wait: the state, and whether the app may start.
unfoldable pub init_auth : Answer User → Shell → Shell × Bool
unfolding render_user_chip show_login
init_auth (ok u) s = (
  render_user_chip
      (record s { user = some u; body_role = if is_empty u.role then codes "admin" else u.role }),
  true,
)
init_auth (refused status m) s =
    if status == 401
    then (show_login false s, false)
    else (record s { user = some implicit_admin }, true)

-- The callers of `initAuth`: boot.js and the form. `startApp` begins to wait for the mode.
unfoldable pub go_on : Shell × Bool → Shell
go_on (s, go) = if go then record s { choosing = suc s.choosing } else s

unfoldable pub me_answered : Answer User → Shell → Shell
unfolding go_on init_auth
me_answered me s = go_on (init_auth me (record s { asking = s.asking - 1 }))

-- `resolveMode`: the stored choice, or what the number of workflows suggests.
unfoldable pub inferred : Answer ℕ → UiMode
inferred (ok total_dags) = if ltb 0 total_dags then expert else novice
inferred (refused status m) = expert

-- With nothing stored, the request for the overview may find that the session is over.
abbrev pub is_over : Answer ℕ → Bool
is_over (ok total_dags) = false
is_over (refused status m) = status == 401

unfoldable pub infer_mode : Answer ℕ → Shell → Shell
unfolding inferred expire
infer_mode overview s = record (if is_over overview then expire s else s) {
  mode = some (inferred overview);
}

unfoldable pub resolve_mode : Answer ℕ → Shell → Shell
unfolding infer_mode
resolve_mode overview s = elim s.stored [
  | some m ↦ record s { mode = some m }
  | none ↦ infer_mode overview s
]

unfoldable pub same_mode : UiMode → Option UiMode → Bool
same_mode novice (some novice) = true
same_mode expert (some expert) = true
same_mode _ _ = false

-- `setMode`: a click on the mode that is in use stores nothing.
unfoldable pub set_mode : UiMode → Shell → Shell
unfolding same_mode
set_mode m s = if same_mode m s.mode then s else record s { mode = some m; stored = some m }

-- `startApp` behind its wait.
unfoldable pub start_app : Answer ℕ → Shell → Shell
unfolding resolve_mode
start_app overview s = record (resolve_mode overview (record s { choosing = s.choosing - 1 })) {
  started = true;
}

-- The text below the form: `err.message || t("api_err")`.
unfoldable pub login_error : ℕ → Text → LoginError
login_error status m =
    if status == 401 then bad_password else (if is_empty m then api_error else message m)

-- The error goes to the form, which is still there or has been taken away.
abbrev pub with_error : LoginError → Login → Login
with_error e closed = closed
with_error e (form expired m) = form expired e

-- The submission of the form behind the answer to /api/login: the form is taken away and `initAuth`
-- asks who the user is, or the form shows an error.
unfoldable pub login_answered : Answer (Unit {0}) → Shell → Shell
unfolding login_error
login_answered (ok _) s = record s { login = closed; asking = suc s.asking }
login_answered (refused status m) s = record s { login = with_error (login_error status m) s.login }

-- `doLogout`, whatever the server answers.
unfoldable pub do_logout : Shell → Shell
unfolding show_login
do_logout s = show_login false (record s { user = none })
