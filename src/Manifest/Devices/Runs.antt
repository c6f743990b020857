-- ===== src/Manifest/Devices/Runs.antt =====
-- What a run that passes its validation has (`validateRun`).
use virtle.Prelude.{
  sym, ℕ, String, Bool, true, false, ◌≡◌, ◌≢◌, refl, List, [], ◌∷◌, Option, none, some, str_eq,
  eq_iff, All, arith,
}
use mathlib.Core.Option.{some-injective}
use virtle.Prelude.Errors.{Error, errorf, str, num, end}
use virtle.Prelude.Int.{pos}
use virtle.Manifest.{Run}
use virtle.Manifest.Checked.{Checked, passed, refuse_if, each, each-passed, in_order-passed}
use virtle.Manifest.Templates.{Node, template_uses_bare_workspace}
use virtle.Manifest.Devices.{
  bare, parsed, validate_run_templates, is_reserved, validate_exec, wrap_vars, validate_run,
}

pub filled : (s : String) → str_eq s "" ≡ false → s ≢ ""
filled s e = ground (arith, eq_iff s "")

-- A command that has a program, unless there is none.
abbrev pub HasProgram : List String → Type 0
HasProgram [] = Unit
HasProgram (a ∷ args) = a ≢ ""

-- A name that a run's templates do not have already.
abbrev IsFree : String → Type 0
IsFree key = (key ≢ "CID") × (key ≢ "StateDir") × (key ≢ "Workspace") × (key ≢ "Env")

module _ (parse : String → Option Node) (renderer_error : Run → Option Error) where
  -- A text whose template, if it has one, is one in which no bare {{.Workspace}} is found.
  abbrev pub IsTemplate : String → Type 0
  IsTemplate s =
      (root : Node) → parse s ≡ some root → template_uses_bare_workspace root ≡ some false

  -- A run has a program, its templates name no bare workspace, its variables are no reserved names, and
  -- the renderer of its templates can be made.
  abbrev pub IsRun : Run → Type 0
  IsRun r =
      (r.exec ≢ [])
      × HasProgram r.exec
      × All IsTemplate r.exec
      × All IsTemplate r.env
      × All IsFree r.vars
      × (renderer_error r ≡ none)

  bare_lem :
      (index : ℕ) (field : String) (i : ℕ) (o : Option Bool)
      → bare parse renderer_error index field i o ≡ passed
      → o ≡ some false
  unfolding bare
  bare_lem index field i none e = absurd (ground arith)
  bare_lem index field i (some true) e = absurd (ground arith)
  bare_lem index field i (some false) e = refl

  parsed_lem :
      (index : ℕ) (field : String) (i : ℕ) (o : Option Node)
      → parsed parse renderer_error index field i o ≡ passed
      → (root : Node) → o ≡ some root
      → template_uses_bare_workspace root ≡ some false
  unfolding parsed
  parsed_lem index field i none e root q = absurd (ground arith)
  parsed_lem index field i (some r) e root q =
      rw (sym (some-injective r root q)) (bare_lem index field i (template_uses_bare_workspace r) e)

  templates_lem :
      (index : ℕ) (field : String) (values : List String)
      → validate_run_templates parse renderer_error index field values ≡ passed
      → All IsTemplate values
  unfolding validate_run_templates
  templates_lem index field values e =
      each-passed IsTemplate (λ i value. parsed parse renderer_error index field i (parse value))
        (λ i value p. parsed_lem index field i (parse value) p) 0 values e

  exec_lem :
      (index : ℕ) (exec : List String)
      → validate_exec parse renderer_error index exec ≡ passed
      → (exec ≢ []) × HasProgram exec
  unfolding validate_exec
  exec_lem index [] e = absurd (ground arith)
  exec_lem index (a ∷ args) e = ((λ q. absurd (ground arith)), filled a (ground arith))

  renderer_lem :
      (index : ℕ) (o : Option Error) → wrap_vars parse renderer_error index o ≡ passed → o ≡ none
  unfolding wrap_vars
  renderer_lem index none e = refl
  renderer_lem index (some x) e = absurd (ground arith)

  free_lem : (key : String) → is_reserved parse renderer_error key ≡ false → IsFree key
  unfolding is_reserved
  free_lem key e =
      ground
        (arith, eq_iff key "CID", eq_iff key "StateDir", eq_iff key "Workspace", eq_iff key "Env")

  pub run_lem : (index : ℕ) (r : Run) → validate_run parse renderer_error index r ≡ passed → IsRun r
  unfolding validate_run
  run_lem index r e =
      let reserved : ℕ → String → Checked = λ i key.
        refuse_if (is_reserved parse renderer_error key)
          (errorf "manifest.run[%d].vars key %q is reserved" (num (pos index) (str key end))) in
      let (a, (b, (c, (d, (f, last))))) =
        in_order-passed
          (validate_exec parse renderer_error index r.exec
            ∷ validate_run_templates parse renderer_error index "exec" r.exec
            ∷ validate_run_templates parse renderer_error index "env" r.env
            ∷ each reserved 0 r.vars
            ∷ wrap_vars parse renderer_error index (renderer_error r)
            ∷ [])
          e in
      let exec = exec_lem index r.exec a in
      (
        exec.0,
        exec.1,
        templates_lem index "exec" r.exec b,
        templates_lem index "env" r.env c,
        each-passed IsFree reserved (λ i key p. free_lem key (ground arith)) 0 r.vars d,
        renderer_lem index (renderer_error r) f,
      )
