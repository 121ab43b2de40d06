-- ===== src/Tests/Projects.antt =====
-- Two nested projects in the registry.
use nexus_intelli_core.Prelude.{true, false, List, [], ◌∷◌, none, some, ◌≡◌, ◌⊎◌, refl}
use nexus_intelli_core.Prelude.Text.{codes, text_eq}
use nexus_intelli_core.Registry.{
  ProjectContext, Registry, empty, ok, err, no_project_registered, starts_with, lookup,
  longest_root_match, get_project, resolve_project_for_path,
}
use nexus_intelli_core.Registry.Invariant.{
  Call, register, unregister, run, IsWellFormed, registry-IsWellFormed, get_project-default,
}
use nexus_intelli_core.Registry.Refinement.{Allowed, map_of, step, step-Allowed}
use nexus_intelli_core.Registry.Confinement.{
  IsDeepest, Listed, longest_root_match-IsDeepest, resolve_project_for_path-inside,
}
use nexus_intelli_core.Tests.Fixtures.{files, app, app_lib, app_file}

abbrev outer : ProjectContext
outer = record { id = codes "app"; root = app; is_angular_project = false }

abbrev inner : ProjectContext
inner = record { id = codes "lib"; root = app_lib; is_angular_project = false }

abbrev both : Registry
both = record {
  projects = (codes "app", outer) ∷ (codes "lib", inner) ∷ [];
  default_project_id = some (codes "app");
}

abbrev calls : List Call
calls =
    register (codes "/w/app") none
    ∷ register (codes "/w/app/lib") (some (codes "lib"))
    ∷ unregister (codes "app")
    ∷ []

registry-IsWellFormed_example : IsWellFormed (run files calls empty)
registry-IsWellFormed_example = registry-IsWellFormed files calls

get_project-default_example :
    ((get_project files none (run files calls empty) ≡ err no_project_registered)
      × ((run files calls empty).projects ≡ []))
    ⊎ ((p : ProjectContext) × (get_project files none (run files calls empty) ≡ ok p)
        × (lookup p.id (run files calls empty).projects ≡ some p))
get_project-default_example = get_project-default files calls

longest_root_match-IsDeepest_example :
    IsDeepest both.projects app_file inner × Listed inner both.projects
unfolding longest_root_match starts_with text_eq
longest_root_match-IsDeepest_example =
    longest_root_match-IsDeepest both.projects app_file inner refl

resolve_project_for_path-inside_example : starts_with app_file inner.root ≡ true
unfolding resolve_project_for_path longest_root_match starts_with text_eq
resolve_project_for_path-inside_example =
    resolve_project_for_path-inside files (codes "/w/app/lib/a.rs") both inner app_file refl

step-Allowed_example :
    Allowed files
      (map_of (run files calls empty))
      (map_of (step files (unregister (codes "/w/app/lib")) (run files calls empty)))
      (unregister (codes "/w/app/lib"))
step-Allowed_example = step-Allowed files calls (unregister (codes "/w/app/lib"))
