-- ===== src/Tools/Arguments/Valid.antt =====
-- The arguments that src/tools/mod.rs lets through to a handler.
use mathlib.Core.Path.{subst}
use nexus_intelli_core.Prelude.{
  ℕ, ◌≤◌, true, ◌≡◌, inl, inr, arith, Option, none, some, find, Bool-cases, Option-cases,
}
use nexus_intelli_core.Prelude.Text.{Text, codes, text_eq}
use nexus_intelli_core.Json.{Value}
use nexus_intelli_core.Json.Access.{unwrap_or}
use nexus_intelli_core.Tools.Arguments.{
  file_path_args, ToolCall, Parsed, str_arg, or_bad, with_file, with_either, is_match_mode,
  symbol_call, capped, docs_args, Arm, arms, arm_call, project_call, file_outline, lint_file,
  read_config, angular_component, inspect_symbol, query_ast, module_summary, project_docs, call,
  bad, refused, on_outline, on_symbol, on_lint, on_query, on_config, on_angular, on_summary,
  on_docs,
}

-- What every handler may count on in the arguments that it is given.
abbrev pub IsValid : ToolCall → Type 0
IsValid (inspect_symbol file symbol match_mode all hint) = is_match_mode match_mode ≡ true
IsValid (project_docs d) = d.max_files ≤ 150
IsValid _ = Unit

capped-le : (n : Option ℕ) → capped n ≤ 150
capped-le none = omega arith
capped-le (some n) = omega arith

data Valid : Parsed → Type 0 where
  of_call : {c : ToolCall} → IsValid c → Valid (call c)
  of_bad : {m : Text} → Valid (bad m)
  of_refused : {m : Text} → Valid (refused m)

Valid-or_bad :
    (o : Option Text) (m : Text) (k : Text → Parsed)
    → ((f : Text) → Valid (k f))
    → Valid (or_bad o m k)
Valid-or_bad none m k h = of_bad
Valid-or_bad (some f) m k h = h f

Valid-with_file :
    (args : Value) (k : Text → Parsed) → ((f : Text) → Valid (k f)) → Valid (with_file args k)
unfolding with_file
Valid-with_file args k h = elim (Option-cases (file_path_args args)) [
  | inl none' ↦ rw none' of_bad
  | inr (a, e) ↦ rw e (Valid-or_bad a.file_path _ k h)
]

Valid-with_either :
    (args : Value) (k : Text → Parsed) → ((f : Text) → Valid (k f)) → Valid (with_either args k)
unfolding with_either
Valid-with_either args k h = elim (Option-cases (file_path_args args)) [
  | inl none' ↦ rw none' of_bad
  | inr (a, e) ↦ rw e (Valid-or_bad _ _ k h)
]

symbol_call-Valid : (args : Value) (file symbol : Text) → Valid (symbol_call args file symbol)
unfolding symbol_call
symbol_call-Valid args file symbol =
    let mode = unwrap_or (str_arg (codes "match_mode") args) (codes "auto") in
    elim (Bool-cases (is_match_mode mode)) [
      | inl known ↦ rw known (of_call known)
      | inr other ↦ rw other of_refused
    ]

docs_args-le : (args : Value) → (docs_args args).max_files ≤ 150
unfolding docs_args
docs_args-le args = capped-le _

file_call-Valid :
    (args : Value) (c : Text → ToolCall)
    → ((f : Text) → IsValid (c f))
    → Valid (with_file args (λ f. call (c f)))
file_call-Valid args c h = Valid-with_file args (λ f. call (c f)) (λ f. of_call (h f))

arm_call-Valid : (a : Arm) (args : Value) → Valid (arm_call a args)
unfolding arm_call
arm_call-Valid on_outline args = file_call-Valid args file_outline (λ f. tt)
arm_call-Valid on_lint args = file_call-Valid args lint_file (λ f. tt)
arm_call-Valid on_config args = file_call-Valid args read_config (λ f. tt)
arm_call-Valid on_summary args = file_call-Valid args (λ f. module_summary f _) (λ f. tt)
arm_call-Valid on_angular args =
    Valid-with_either args (λ f. call (angular_component f)) (λ f. of_call tt)
arm_call-Valid on_symbol args =
    Valid-with_file args _ (λ f. Valid-or_bad _ _ _ (symbol_call-Valid args f))
arm_call-Valid on_query args =
    Valid-with_file args _ (λ f. Valid-or_bad _ _ (λ q. call (query_ast f q)) (λ q. of_call tt))
arm_call-Valid on_docs args = of_call (docs_args-le args)
arm_call-Valid _ args = of_call tt

project_call-Valid : (name : Text) (args : Value) → Valid (project_call name args)
unfolding project_call
project_call-Valid name args = elim (Option-cases (find (λ a. text_eq a.0 name) arms)) [
  | inl unknown ↦ rw (unknown, project_call) of_refused
  | inr (a, known) ↦ rw (known, project_call) (arm_call-Valid a.1 args)
]

Valid-call : {p : Parsed} (c : ToolCall) → Valid p → p ≡ call c → IsValid c
Valid-call c (of_call {c = d} h) e = let same : d ≡ c = cc in subst IsValid same h
Valid-call c of_bad e = cc
Valid-call c of_refused e = cc

-- Whatever the client sends, a handler is run only with arguments in range: a known match mode
-- for `inspect_symbol`, and at most 150 files for `generate_project_docs`.
pub project_call-IsValid :
    (name : Text) (args : Value) (c : ToolCall) → project_call name args ≡ call c → IsValid c
project_call-IsValid name args c e = Valid-call c (project_call-Valid name args) e
