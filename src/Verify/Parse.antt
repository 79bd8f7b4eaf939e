-- ===== src/Verify/Parse.antt =====
-- src/verify.rs: how the output of the provers is read, and the table of the sandbox's languages.
use mathlib.Core.List.{mem-map, append_assoc}
use mathlib.Core.Logic.{∥∥₁_map}
use researcher_agent_kube_en.Base.{
  ◌≡◌, sym, ◌∙◌, Bool, true, false, not, ◌&&◌, ◌||◌, List, ◌++◌, map, Option, none, some, Text, lit,
  text_eq, retain, Mem, mem-retain, if◌then◌else◌, arith,
}
use researcher_agent_kube_en.Base.Strings.{contains, starts_with, trim, lines}
use researcher_agent_kube_en.Base.Strings.Laws.{contains-middle}

-- A line that shows a goal: it holds the turnstile or the word `goals`, or begins a case.
unfoldable pub is_goal_line : Text → Bool
is_goal_line l = contains l (lit "⊢") || contains l (lit "goals") || starts_with l (lit "case ")

unfoldable pub parse_lean_tactic_goals : Text → List Text
parse_lean_tactic_goals stdout = map trim (retain is_goal_line (lines stdout))

unfoldable pub parse_z3_result : Text → Text → Bool
parse_z3_result stdout stderr =
    let combined = stdout ++ stderr in
    contains combined (lit "unsat") && not (contains combined (lit "sat\n"))

-- The extension and the interpreter of a language.
unfoldable pub interpreter : Text → Option (Text × Text)
interpreter language =
    if text_eq language (lit "python") || text_eq language (lit "python3")
    then some (lit ".py", lit "python3")
    else if text_eq language (lit "bash") || text_eq language (lit "sh")
    then some (lit ".sh", lit "bash")
    else if text_eq language (lit "ruby")
    then some (lit ".rb", lit "ruby")
    else if text_eq language (lit "node") || text_eq language (lit "js")
    then some (lit ".js", lit "node")
    else none

-- The goals that are reported are exactly the trimmed goal lines of the output.
pub parse_lean_tactic_goals-mem :
    (stdout g : Text)
    → Mem g (parse_lean_tactic_goals stdout)
    → ∥ ((l : Text) × Mem l (lines stdout) × (is_goal_line l ≡ true) × (g ≡ trim l)) ∥₁
unfolding parse_lean_tactic_goals
parse_lean_tactic_goals-mem stdout g m = ∥∥₁_map (mem-map.0 m) (λ (l, kept, e).
    let (on_line, is_goal) = (mem-retain is_goal_line (lines stdout) l).0 kept in
    (l, on_line, is_goal, sym e))

combined :
    (before after stderr : Text)
    → (before ++ (lit "unsat\n" ++ after)) ++ stderr
      ≡ (before ++ lit "un") ++ (lit "sat\n" ++ (after ++ stderr))
unfolding lit
combined before after stderr =
    append_assoc before (lit "unsat\n" ++ after) stderr
    ∙ sym (append_assoc before (lit "un") (lit "sat\n" ++ (after ++ stderr)))

-- A line of Z3's that says `unsat` and ends by a newline counts as a failure, as it ends in `sat` and
-- a newline too, wherever it stands and whatever else there is.
pub parse_z3_result-unsat_line :
    (stdout stderr before after : Text)
    → stdout ≡ before ++ (lit "unsat\n" ++ after)
    → parse_z3_result stdout stderr ≡ false
unfolding parse_z3_result
parse_z3_result-unsat_line stdout stderr before after e =
    let found = contains-middle (before ++ lit "un") (lit "sat\n") (after ++ stderr) in
    rw (e, combined before after stderr, found) (ground arith)
