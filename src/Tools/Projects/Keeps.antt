-- ===== src/Tools/Projects/Keeps.antt =====
-- What the project tools of src/tools/projects_tool.rs leave alone.
use nexus_intelli_core.Prelude.{[], ◌≡◌, ◌⊎◌, arith}
use nexus_intelli_core.Json.{Value}
use nexus_intelli_core.Tools.Projects.{
  registered, register_project_tool, set_active_project, unregister_project_tool,
}
use nexus_intelli_core.Tools.World.{Services, World}

module _ (sv : Services) (args : Value) (w : World) where
  pub set_active-tool_cache : (set_active_project sv args w).0.tool_cache ≡ w.tool_cache
  unfolding set_active_project
  set_active-tool_cache = ground arith

  pub unregister-tool_cache :
      ((unregister_project_tool sv args w).0.tool_cache ≡ w.tool_cache)
      ⊎ ((unregister_project_tool sv args w).0.tool_cache ≡ [])
  unfolding unregister_project_tool
  unregister-tool_cache = ground arith

pub register-tool_cache :
    (sv : Services) (args : Value) (w : World)
    → (register_project_tool sv args w).0.tool_cache ≡ w.tool_cache
unfolding register_project_tool registered
register-tool_cache sv args w = ground arith
