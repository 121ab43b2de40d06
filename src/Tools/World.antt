-- ===== src/Tools/World.antt =====
-- What a tool call reads and changes: the registry, the session, the tool cache of
-- src/state/cache.rs and the counters of src/state/metrics.rs.
use nexus_intelli_core.Prelude.{
  ℕ, suc, Bool, false, not, ◌&&◌, ◌||◌, List, [], ◌∷◌, ◌++◌, Option, none, some, retain,
  if◌then◌else◌,
}
use nexus_intelli_core.Prelude.Text.{Text, codes, text_eq}
use nexus_intelli_core.Json.{
  Value, null, bool, number, string, array, object, Items, nil, cons, Fields, end, field, get,
  as_bool,
}
use nexus_intelli_core.Json.Access.{◌>>=◌}
use nexus_intelli_core.Privacy.{Engine}
use nexus_intelli_core.Registry.{
  Files, FilePath, Failure, ProjectContext, Registry, path_eq, ok, err, get_project,
  resolve_project_for_path,
}
use nexus_intelli_core.Tools.Arguments.{ToolCall}

pub record ToolCacheKey : Type 0 where
  pub root_path : FilePath
  pub tool_name : Text
  pub canonical_args : Text

unfoldable pub key_eq : ToolCacheKey → ToolCacheKey → Bool
unfolding path_eq
key_eq a b =
    path_eq a.root_path b.root_path
    && text_eq a.tool_name b.tool_name
    && text_eq a.canonical_args b.canonical_args

abbrev pub ToolCache : Type 0
ToolCache = List (ToolCacheKey × Value)

unfoldable pub cached : ToolCacheKey → ToolCache → Option Value
cached k [] = none
cached k ((j, v) ∷ c) = if key_eq j k then some v else cached k c

-- The result of a handler: `Ok` with a value, or `Err` with its message.
pub data Reply : Type 0 where
  done : Value → Reply
  failed : Text → Reply

-- The AST counters are those of `get_analysis`, which the handlers call.
pub record Metrics : Type 0 where
  pub tool_cache_hits : ℕ
  pub tool_cache_misses : ℕ
  pub tool_concurrency_rejections : ℕ
  pub tool_invocation_counts : List (Text × ℕ)

pub record World : Type 0 where
  pub registry : Registry
  pub active_project_id : Option Text
  pub tool_cache : ToolCache
  pub metrics : Metrics

-- What the server is built with.
pub record Services : Type 0 where
  pub files : Files
  pub engine : Engine
  -- `canonicalize_json` of src/state/resolver.rs, of which only the determinism is used
  pub canonicalize_json : Value → Text
  -- crate `serde_json`: a text form, and reading one
  pub to_string_pretty : Value → Text
  pub from_str : Text → Option Value
  -- `FileIndex` of a root: the numbers of allowed and of restricted files
  pub index_counts : FilePath → Option (ℕ × ℕ)
  -- the wording of an error message
  pub describe : Failure → Text
  -- The handlers of the project tools: a reply, and the cache entries that they invalidate
  -- meanwhile. They change nothing else here.
  pub handle : ToolCall → ProjectContext → World → Reply × (ToolCacheKey → Bool)

abbrev pub is_error : Value → Bool
is_error v = elim (get (codes "isError") v >>= as_bool) [ none ↦ false | some b ↦ b ]

-- `MetricsCollector::record_tool_invocation`.
unfoldable pub bump_count : Text → List (Text × ℕ) → List (Text × ℕ)
bump_count name [] = (name, 1) ∷ []
bump_count name ((n, c) ∷ cs) =
    if text_eq n name then (n, suc c) ∷ cs else (n, c) ∷ bump_count name cs

-- `Path` as text on Unix.
unfoldable pub join_slash : List Text → Text
join_slash [] = []
join_slash (x ∷ []) = x
join_slash (x ∷ y ∷ ys) = x ++ (b'/' ∷ join_slash (y ∷ ys))

abbrev pub display : FilePath → Text
display p = b'/' ∷ join_slash p

-- `Path::strip_prefix`.
unfoldable pub strip_prefix : FilePath → FilePath → Option (List Text)
strip_prefix path [] = some path
strip_prefix [] (_ ∷ _) = none
strip_prefix (x ∷ xs) (y ∷ ys) = if text_eq x y then strip_prefix xs ys else none

abbrev is_relative_path : Option Text → Text → Bool
is_relative_path none s = false
is_relative_path (some rel) s = text_eq s rel

unfoldable mutual
  pub json_contains_path : Text → Option Text → Value → Bool
  json_contains_path absolute relative (string s) =
      text_eq s absolute || is_relative_path relative s
  json_contains_path absolute relative (array vs) = items_contain_path absolute relative vs
  json_contains_path absolute relative (object fs) = fields_contain_path absolute relative fs
  json_contains_path absolute relative null = false
  json_contains_path absolute relative (bool b) = false
  json_contains_path absolute relative (number n) = false

  pub items_contain_path : Text → Option Text → Items → Bool
  items_contain_path absolute relative nil = false
  items_contain_path absolute relative (cons v vs) =
      json_contains_path absolute relative v || items_contain_path absolute relative vs

  pub fields_contain_path : Text → Option Text → Fields → Bool
  fields_contain_path absolute relative end = false
  fields_contain_path absolute relative (field k v fs) =
      json_contains_path absolute relative v || fields_contain_path absolute relative fs

module _ (sv : Services) where
  open sv use {files, from_str}

  -- The predicate of `CacheManager::invalidate_tool_cache_for_file`.
  unfoldable pub names_file : FilePath → FilePath → ToolCacheKey → Bool
  unfolding json_contains_path strip_prefix join_slash
  names_file root path key = elim (from_str key.canonical_args) [
    | none ↦ false
    | some args ↦
        json_contains_path (display path)
          (elim (strip_prefix path root) [ none ↦ none | some rel ↦ some (join_slash rel) ]) args
  ]

  -- `ServerState::root`: empty if there is no default project.
  default_root : Registry → FilePath
  default_root r = elim (get_project files none r) [ ok p ↦ p.root | err e ↦ [] ]

  -- `ServerState::invalidate_tool_cache_for_file`.
  unfoldable pub invalidate_tool_cache_for_file : FilePath → World → World
  unfolding names_file default_root
  invalidate_tool_cache_for_file path w =
      let root : FilePath = elim (resolve_project_for_path files (display path) w.registry) [
        | ok found ↦ found.0.root
        | err e ↦ default_root w.registry
      ] in
      record w { tool_cache = retain (λ e. not (names_file root path e.0)) w.tool_cache }

abbrev pub drop_entries : (ToolCacheKey → Bool) → World → World
drop_entries gone w = record w { tool_cache = retain (λ e. not (gone e.0)) w.tool_cache }

abbrev pub count_hit : World → World
count_hit w = record w {
  metrics = record (w.metrics) { tool_cache_hits = suc w.metrics.tool_cache_hits };
}

abbrev pub count_miss : World → World
count_miss w = record w {
  metrics = record (w.metrics) { tool_cache_misses = suc w.metrics.tool_cache_misses };
}

abbrev pub count_rejection : World → World
count_rejection w = record w {
  metrics = record (w.metrics) {
    tool_concurrency_rejections = suc w.metrics.tool_concurrency_rejections;
  };
}

abbrev pub count_invocation : Text → World → World
count_invocation name w = record w {
  metrics = record (w.metrics) {
    tool_invocation_counts = bump_count name w.metrics.tool_invocation_counts;
  };
}
