-- ===== src/Tests/Fixtures.antt =====
-- A small machine to run the models on: two directories, one secret, one tool that echoes.
use nexus_intelli_core.Prelude.{
  ◌+◌, true, false, not, ◌&&◌, [], ◌∷◌, none, some, map, leb, if◌then◌else◌,
}
use nexus_intelli_core.Prelude.Text.{Text, codes, text_eq, text_starts_with}
use nexus_intelli_core.Json.{null, string, object, end, field}
use nexus_intelli_core.Privacy.{Regex, Engine}
use nexus_intelli_core.Registry.{Files, FilePath, empty}
use nexus_intelli_core.Tools.World.{Services, World, done}
use nexus_intelli_core.Server.{Config}

-- Matches a text that is the word itself.
abbrev pub word : Text → Regex
word w = record {
  is_match = text_eq w;
  replace_all = λ new t. if text_eq w t then new else t;
  find_starts = λ t. if text_eq w t then 0 ∷ [] else [];
}

abbrev pub lower : Text → Text
lower s = map (λ c. if leb 65 c && leb c 90 then c + 32 else c) s

abbrev pub engine : Engine
engine = record {
  secret_regex = λ k. word (codes "sk-1");
  sensitive_comment = word (codes "// TODO");
  custom = (codes "site", word (codes "intranet")) ∷ [];
  to_lowercase = lower;
}

abbrev pub app : FilePath
app = codes "w" ∷ codes "app" ∷ []

abbrev pub app_lib : FilePath
app_lib = codes "w" ∷ codes "app" ∷ codes "lib" ∷ []

abbrev pub app_file : FilePath
app_file = codes "w" ∷ codes "app" ∷ codes "lib" ∷ codes "a.rs" ∷ []

abbrev pub files : Files
files = record {
  canonicalize = λ t.
      if text_eq t (codes "/w/app")
      then some app
      else if text_eq t (codes "/w/app/lib")
      then some app_lib
      else if text_eq t (codes "/w/app/lib/a.rs")
      then some app_file
      else none;
  canonicalize_in = λ root t. if text_eq t (codes "/w/app/lib/a.rs") then some app_file else none;
  is_relative = λ t. not (text_starts_with t (codes "/"));
  index_builds = λ root. true;
  has_angular_json = λ root. false;
  ignores_case = false;
  fold_case = λ path. path;
}

abbrev pub services : Services
services = record {
  files = files;
  engine = engine;
  canonicalize_json = λ v. codes "{}";
  to_string_pretty = λ v. codes "{}";
  from_str = λ t. some null;
  index_counts = λ root. some (3, 1);
  describe = λ f. codes "no such project";
  handle = λ c p w. (
    done (
        object (
          field (codes "token") (string (codes "sk-1"))
            (field (codes "text") (string (codes "sk-1")) end))),
    λ k. false,
  );
}

abbrev pub world : World
world = record {
  registry = empty;
  active_project_id = none;
  tool_cache = [];
  metrics = record {
    tool_cache_hits = 0;
    tool_cache_misses = 0;
    tool_concurrency_rejections = 0;
    tool_invocation_counts = [];
  };
}

abbrev pub config : Config
config = record {
  services = services;
  auth_token_hash = some (7 ∷ 9 ∷ []);
  allowed_tools = some (codes "server_stats" ∷ []);
  audit_log = true;
  compute_token_digest = λ t. if text_eq t (codes "open") then 7 ∷ 9 ∷ [] else 0 ∷ 0 ∷ [];
  tool_definitions =
      object (field (codes "name") (string (codes "server_stats")) end)
      ∷ object (field (codes "name") (string (codes "lint_file")) end)
      ∷ [];
  parse_error = λ v. codes "bad request";
  version = codes "1.0";
}
