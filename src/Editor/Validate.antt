-- ===== src/Editor/Validate.antt =====
-- `validateDag` (internal/web/static/views.js) and `ID_RE` (internal/web/static/base.js).
use poc_cronova_windows.Base.{
  Bool, List, Text, [], all, any, codes, contains, false, filter, if◌then◌else◌, leb, map, not,
  starts_with, trim, true, ℕ, ◌&&◌, ◌+◌, ◌==◌, ◌||◌, ◌∷◌, list_eq, nat_eq,
}
use poc_cronova_windows.Model.{Task, ids}
use poc_cronova_windows.Graph.Cycle.{has_cycle}
use poc_cronova_windows.Editor.{Editor}

unfoldable pub is_alnum : ℕ → Bool
is_alnum c =
    (leb b'A' c && leb c b'Z') || ((leb b'a' c && leb c b'z') || (leb b'0' c && leb c b'9'))

unfoldable pub is_id_part : ℕ → Bool
unfolding is_alnum
is_id_part c = is_alnum c || (c == b'_' || (c == b'.' || c == b'-'))

-- `ID_RE.test(k)`.
unfoldable pub id_ok : Text → Bool
unfolding is_id_part
id_ok [] = false
id_ok (c ∷ k) = is_alnum c && all is_id_part k

abbrev pub is_empty : Text → Bool
is_empty [] = true
is_empty (c ∷ s) = false

-- `tasks.filter((x) => x.id)`.
abbrev pub named : List Task → List Task
named = filter (λ (x : Task). not (is_empty x.id))

-- `new Set(xs).size !== xs.length`.
unfoldable pub has_duplicates : List Text → Bool
has_duplicates [] = false
has_duplicates (x ∷ xs) = contains xs x || has_duplicates xs

-- The lower case of an ASCII letter, by which /…/i compares.
unfoldable pub lower : ℕ → ℕ
lower c = if leb b'A' c && leb c b'Z' then c + 32 else c

-- /^(https?:\/\/|mailto:)/i.
unfoldable pub url_ok : Text → Bool
unfolding lower starts_with
url_ok s =
    let l = map lower s in
    starts_with l (codes "http://")
    || (starts_with l (codes "https://") || starts_with l (codes "mailto:"))

unfoldable pub blank_text : Text → Bool
blank_text s = is_empty (trim s)

-- The tests of a single task, for the errors about commands, URLs, connections and child workflows.
unfoldable pub lacks_command : Task → Bool
lacks_command x =
    not (is_empty x.id)
    && (not (x.type == codes "http") && (not (x.type == codes "subdag") && blank_text x.command))

unfoldable pub lacks_url : Task → Bool
lacks_url x = not (is_empty x.id) && (x.type == codes "http" && blank_text x.http_url)

unfoldable pub lacks_conn : Task → Bool
lacks_conn x = not (is_empty x.id) && (x.type == codes "sql" && blank_text x.conn)

unfoldable pub lacks_subdag : Task → Bool
lacks_subdag x = not (is_empty x.id) && (x.type == codes "subdag" && blank_text x.subdag)

unfoldable pub bad_url : Text → Bool
bad_url nurl = not (is_empty nurl) && not (url_ok nurl)

abbrev pub report : Bool → Text → List Text → List Text
report failed key rest = if failed then key ∷ rest else rest

-- `validateDag`: the keys of the errors, in order.
unfoldable pub validate_dag : Editor → List Text
unfolding has_duplicates lacks_command lacks_url lacks_conn lacks_subdag bad_url
validate_dag d =
    let nonempty = ids (named d.tasks) in
    report (any is_empty (ids d.tasks)) (codes "err_emptyid") (
      report (any (λ k. not (id_ok k)) nonempty) (codes "err_taskid") (
        report (has_duplicates nonempty) (codes "err_dup") (
          report (any lacks_command d.tasks) (codes "err_emptycmd") (
            report (any lacks_url d.tasks) (codes "err_httpurl") (
              report (any lacks_conn d.tasks) (codes "err_sqlconn") (
                report (any lacks_subdag d.tasks) (codes "err_subdag") (
                  report (has_cycle (named d.tasks)) (codes "err_cycle")
                    (report (bad_url (trim d.dag.notify_url)) (codes "err_notify_url") []))))))))
