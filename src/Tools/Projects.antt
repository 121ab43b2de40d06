-- ===== src/Tools/Projects.antt =====
-- src/tools/projects_tool.rs: the tools that change the registry and the session.
pub mod Keeps
use nexus_intelli_core.Prelude.{
  ℕ, ◌+◌, Bool, true, false, List, [], ◌∷◌, ◌++◌, Option, none, some, length, if◌then◌else◌, ltb,
  ◌==◌,
}
use nexus_intelli_core.Prelude.Text.{Text, codes, text_eq}
use nexus_intelli_core.Prelude.Decimal.{to_dec}
use nexus_intelli_core.Json.{
  Value, bool, number, pos_int, string, array, object, end, field, of_items, get, as_str, as_bool,
}
use nexus_intelli_core.Json.Access.{◌>>=◌, ◌or_else◌, unwrap_or}
use nexus_intelli_core.Protocol.{text_content, tool_response, error_response}
use nexus_intelli_core.Registry.{
  ProjectContext, Projects, Registry, Result, ok, err, project_not_found, get_project,
  register_project, unregister_project, resolve_project,
}
use nexus_intelli_core.Tools.World.{Services, World, Reply, done, failed, display}

abbrev text_reply : Text → Reply
text_reply t = done (tool_response (text_content t ∷ []))

text_lt : Text → Text → Bool
text_lt [] [] = false
text_lt [] (_ ∷ _) = true
text_lt (_ ∷ _) [] = false
text_lt (x ∷ xs) (y ∷ ys) = let rest = text_lt xs ys in if x == y then rest else ltb x y

insert_sorted : Text × ProjectContext → Projects → Projects
unfolding text_lt
insert_sorted e [] = e ∷ []
insert_sorted e (d ∷ ds) =
    let rest = insert_sorted e ds in if text_lt d.0 e.0 then d ∷ rest else e ∷ d ∷ ds

-- `sort_by` on the ids, which are different.
sort_by_id : Projects → Projects
unfolding insert_sorted
sort_by_id [] = []
sort_by_id (e ∷ es) = insert_sorted e (sort_by_id es)

module _ (sv : Services) where
  open sv use {files, index_counts, to_string_pretty, describe}

  abbrev active_id : World → Option Text
  active_id w = elim (resolve_project files w.active_project_id none w.registry) [
    | ok p ↦ some p.id
    | err e ↦ none
  ]

  abbrev is_active : Option Text → Text → Bool
  is_active none id = false
  is_active (some a) id = text_eq a id

  -- The entry of one project; a `Map` keeps its keys in order.
  entry : World → Text × ProjectContext → Value
  entry w (id, p) =
      let active = bool (is_active (active_id w) id) in
      elim (get_project files (some id) w.registry) [
        | err e ↦ object (
            field (codes "active") active
              (field (codes "id") (string id) (field (codes "root") (string (display p.root)) end)))
        | ok proj ↦ elim (index_counts proj.root) [
          | none ↦ object (
              field (codes "active") active (
                field (codes "id") (string id) (
                  field (codes "root") (string (display p.root))
                    (field (codes "status") (string (codes "indexing_pending")) end))))
          | some counts ↦ object (
              field (codes "active") active (
                field (codes "allowed_files") (number (pos_int counts.0)) (
                  field (codes "id") (string id) (
                    field (codes "is_angular") (bool proj.is_angular_project) (
                      field (codes "restricted_files") (number (pos_int counts.1))
                        (field (codes "root") (string (display p.root)) end))))))
        ]
      ]

  entries : World → Projects → List Value
  unfolding entry
  entries w [] = []
  entries w (e ∷ es) = entry w e ∷ entries w es

  unfoldable pub list_projects : World → Reply
  unfolding entries sort_by_id
  list_projects w =
      let listed = entries w (sort_by_id w.registry.projects) in
      text_reply (
        to_string_pretty (
          object (
            field (codes "count") (number (pos_int (length listed)))
              (field (codes "projects") (array (of_items listed)) end))))

  -- The end of `register_project`: the active project, the index and the message.
  registered : Value → ProjectContext → World → World × Reply
  registered args proj w =
      let set_active = unwrap_or (get (codes "set_active") args >>= as_bool) false in
      let index = unwrap_or (get (codes "index") args >>= as_bool) true in
      let w' = if set_active then record w { active_project_id = some proj.id } else w in
      let message =
        codes "Successfully registered project '"
        ++ (proj.id
            ++ (codes "' at root: "
                ++ (display proj.root
                    ++ (if set_active
                        then codes "\nActive project for this session: true"
                        else [])))) in
      if index
      then (
        w',
        elim (index_counts proj.root) [
          | none ↦ done (error_response (codes "Project registered but indexing failed: "))
          | some counts ↦
              text_reply (message ++ (codes "\nFiles indexed: " ++ to_dec (counts.0 + counts.1)))
        ],
      )
      else (w', text_reply message)

  unfoldable pub register_project_tool : Value → World → World × Reply
  unfolding registered
  register_project_tool args w =
      elim ((get (codes "path") args or_else get (codes "root") args) >>= as_str) [
        | none ↦ (w, failed (codes "Missing required argument: path"))
        | some path ↦
            let id = (get (codes "project_id") args or_else get (codes "id") args) >>= as_str in
            let (r, made) = register_project files path id w.registry in
            elim made [
              | err e ↦
                  (w, done (error_response (codes "Failed to register project: " ++ describe e)))
              | ok proj ↦ registered args proj (record w { registry = r })
            ]
      ]

  unfoldable pub set_active_project : Value → World → World × Reply
  set_active_project args w =
      elim ((get (codes "project_id") args or_else get (codes "root_path") args) >>= as_str) [
        | none ↦ (w, failed (codes "Missing required argument: project_id"))
        | some k ↦ elim (get_project files (some k) w.registry) [
          | err e ↦ (w, done (error_response (describe e)))
          | ok proj ↦ elim (index_counts proj.root) [
            | none ↦ (w, done (error_response (codes "Failed to index project: ")))
            | some counts ↦ (
              record w { active_project_id = some proj.id },
              text_reply (
                  to_string_pretty (
                    object (
                      field (codes "active_project_id") (string proj.id) (
                        field (codes "files_indexed") (number (pos_int (counts.0 + counts.1)))
                          (field (codes "root") (string (display proj.root)) end))))),
            )
          ]
        ]
      ]

  -- Removing a project clears the whole tool cache (`invalidate_tool_cache_for_root`).
  unfoldable pub unregister_project_tool : Value → World → World × Reply
  unregister_project_tool args w =
      elim ((get (codes "project_id") args
          or_else get (codes "id") args
          or_else get (codes "path") args)
        >>= as_str) [
          | none ↦ (w, failed (codes "Missing required argument: project_id or path"))
          | some k ↦
              let (r, removed) = unregister_project files k w.registry in
              elim removed [
                | none ↦ (w, done (error_response (codes "Project not found: " ++ k)))
                | some root ↦ (
                  record w { registry = r; tool_cache = [] },
                  text_reply (codes "Successfully unregistered project: " ++ k),
                )
              ]
        ]
