-- ===== src/AgentReport.antt =====
-- packages/contracts/src/agent-report.ts: a report of the agent's review, and validateAgentReportLocations,
-- which holds its findings against the lines that a pull request changes.
use code_host.Prelude.{
  ℕ, suc, String, Bool, true, false, List, [], ◌∷◌, Option, none, some, any, ◌≡◌, ◌≤◌, ◌↔◌, refl,
  leb, any-append, Bool-cases, Option-cases, inl, inr, ap, ◌∙◌, ◌&&◌, ◌++◌, if◌then◌else◌, arith,
}
use code_host.Prelude.Result.{Result, ok, err}
use code_host.Json.{Value}

pub data AgentRiskLevel : Type 0 where
  low medium high critical : AgentRiskLevel

pub data AgentFindingCategory : Type 0 where
  bug security reliability maintainability : AgentFindingCategory

pub record AgentFinding : Type 0 where
  pub severity : AgentRiskLevel
  pub category : AgentFindingCategory
  pub file : String
  pub line_start : ℕ
  pub line_end : ℕ
  pub title : String
  pub description : String
  pub evidence : String
  pub recommendation : String

-- The confidence is a number as JSON has it.
pub record AgentReport : Type 0 where
  pub summary : String
  pub risk_level : AgentRiskLevel
  pub confidence : Value
  pub findings : List AgentFinding

pub record AgentChangedLineRange : Type 0 where
  pub line_start : ℕ
  pub line_end : ℕ

-- `changedFiles`, whose own properties are looked up.
abbrev pub ChangedFiles : Type 0
ChangedFiles = String → Option (List AgentChangedLineRange)

-- An issue's path, `findings` with an index and `file`, and its message.
pub record LocationIssue : Type 0 where
  pub index : ℕ
  pub message : String

abbrev covers : AgentFinding → AgentChangedLineRange → Bool
covers finding range =
    leb range.line_start finding.line_start && leb finding.line_end range.line_end

abbrev some_covers : AgentFinding → Option (List AgentChangedLineRange) → Bool
some_covers finding none = false
some_covers finding (some ranges) = any (covers finding) ranges

unfoldable pub is_in_changed_range : ChangedFiles → AgentFinding → Bool
is_in_changed_range changed finding = some_covers finding (changed finding.file)

unfoldable pub location_issues : ChangedFiles → ℕ → List AgentFinding → List LocationIssue
location_issues changed index [] = []
location_issues changed index (finding ∷ findings) =
    let rest = location_issues changed (suc index) findings in
    if is_in_changed_range changed finding
    then rest
    else record {
      index = index;
      message = "Finding file and line range must be present in the current diff";
    }
      ∷ rest

abbrev report_or_issues : AgentReport → List LocationIssue → Result (List LocationIssue) AgentReport
report_or_issues report [] = ok report
report_or_issues report (issue ∷ issues) = err (issue ∷ issues)

unfoldable pub validate_agent_report_locations :
    AgentReport → ChangedFiles → Result (List LocationIssue) AgentReport
validate_agent_report_locations report changed =
    report_or_issues report (location_issues changed 0 report.findings)

-- A finding whose lines stand inside a range of changed lines of its own file.
pub data IsLocated (changed : ChangedFiles) (finding : AgentFinding) : Type 0 where
  located :
      (before after : List AgentChangedLineRange) (range : AgentChangedLineRange)
      → changed finding.file ≡ some (before ++ range ∷ after)
      → range.line_start ≤ finding.line_start
      → finding.line_end ≤ range.line_end
      → IsLocated changed finding

pub data AreLocated (changed : ChangedFiles) : List AgentFinding → Type 0 where
  all_located : AreLocated changed []
  and_located :
      {finding : AgentFinding} {findings : List AgentFinding}
      → IsLocated changed finding
      → AreLocated changed findings
      → AreLocated changed (finding ∷ findings)

ranges-split :
    (finding : AgentFinding) (ranges : List AgentChangedLineRange)
    → any (covers finding) ranges ≡ true
    → (before after : List AgentChangedLineRange) × (range : AgentChangedLineRange) × (ranges
        ≡ before ++ range ∷ after)
      × (covers finding range ≡ true)
ranges-split finding [] h = let absurd : ⊥ = ground arith in elim absurd [ ]
ranges-split finding (range ∷ ranges) h = elim (Bool-cases (covers finding range)) [
  | inl here ↦ ([], ranges, range, refl, here)
  | inr other ↦
      let found = ranges-split finding ranges (ground arith) in
      (range ∷ found.0, found.1, found.2, ap (λ r. range ∷ r) found.3, found.4)
]

changed-IsLocated :
    (changed : ChangedFiles) (finding : AgentFinding)
    → is_in_changed_range changed finding ≡ true
    → IsLocated changed finding
unfolding is_in_changed_range
changed-IsLocated changed finding h = elim (Option-cases (changed finding.file)) [
  | inl missing ↦ let absurd : ⊥ = ground arith in elim absurd [ ]
  | inr (ranges, e) ↦
      let found = ranges-split finding ranges (ground arith) in
      located found.0 found.1 found.2 (e ∙ ap some found.3) (ground (arith, found.4))
        (ground (arith, found.4))
]

located-changed :
    (changed : ChangedFiles) (finding : AgentFinding)
    → IsLocated changed finding
    → is_in_changed_range changed finding ≡ true
unfolding is_in_changed_range
located-changed changed finding (located before after range e from to) =
    rw e (ground (arith, any-append (covers finding) before (range ∷ after)))

located-none :
    (changed : ChangedFiles) (index : ℕ) (findings : List AgentFinding)
    → location_issues changed index findings ≡ []
    → AreLocated changed findings
unfolding location_issues
located-none changed index [] h = all_located
located-none changed index (finding ∷ findings) h =
    and_located (changed-IsLocated changed finding (ground arith))
      (located-none changed (suc index) findings (ground arith))

none-located :
    (changed : ChangedFiles) (index : ℕ) (findings : List AgentFinding)
    → AreLocated changed findings
    → location_issues changed index findings ≡ []
unfolding location_issues
none-located changed index [] h = refl
none-located changed index (finding ∷ findings) (and_located here rest) =
    ground
      (arith, located-changed changed finding here, none-located changed (suc index) findings rest)

-- A report is accepted, as it is, exactly when the lines of each of its findings stand inside a range of
-- changed lines of the finding's own file.
pub validate_agent_report_locations_iff :
    (report : AgentReport) (changed : ChangedFiles)
    → (validate_agent_report_locations report changed ≡ ok report)
      ↔ AreLocated changed report.findings
unfolding validate_agent_report_locations
validate_agent_report_locations_iff report changed = (
  λ h. located-none changed 0 report.findings (ground arith),
  λ h. ground (arith, none-located changed 0 report.findings h),
)
