-- ===== src/Lint/Spacing/Sections.antt =====
-- `CheckAccess`, `CheckSectionSpacing` and the blank lines of `CheckSpacing` of scripts/cpplint.py.
use epiphany_bsp.Base.{
  Bool, List, Option, drop, false, if◌then◌else◌, leb, ltb, none, not, some, suc, zero, ℕ, ◌&&◌,
  ◌++◌, ◌+◌, ◌-◌, ◌||◌,
}
use epiphany_bsp.Base.Text.{Text, contains, equal, rfind, starts_with, text}
use epiphany_bsp.Lint.Block.{Block, ClassInfo, class_info}
use epiphany_bsp.Lint.Cleanse.{CleansedLines}
use epiphany_bsp.Lint.NamespaceIndent.{is_blank_line}
use epiphany_bsp.Lint.Nesting.{NestingState, top}
use epiphany_bsp.Lint.Report.{Handler}
use epiphany_bsp.Lint.Steps.{Action, for_some, line_above, line_at, when, ◌⨾◌}
use epiphany_bsp.Regex.{group_text, match, matches, occurs, start}
use epiphany_bsp.Regex.Compile.{re}

-- the access of a class on the top of the stack
unfoldable pub access_of : Option Block → Option Text
access_of none = none
access_of (some b) = elim b.kind [ class_info c ↦ some c.access | _ ↦ none ]

unfoldable pub check_access : Text → CleansedLines → ℕ → NestingState → Handler → Action
check_access filename clean_lines linenum nesting_state error =
    for_some
      (match (re "\\s*(DISALLOW_COPY_AND_ASSIGN|DISALLOW_IMPLICIT_CONSTRUCTORS)")
        (line_at clean_lines.elided linenum))
      (λ m. for_some (access_of (top nesting_state)) (λ access.
        when (not (equal access (text "private"))) (
          error filename linenum (text "readability/constructors") 3
            (group_text 1 m ++ (text " must be in the private: section")))))

-- the first line of the class whose code ends with `{`, in so many lines from one on, or the class's own
unfoldable pub end_of_class_head : List Text → ℕ → ℕ → ℕ → ℕ
end_of_class_head lines start i zero = start
end_of_class_head lines start i (suc n) =
    let next = end_of_class_head lines start (suc i) n in
    if occurs (re "\\{\\s*$") (line_at lines i) then i else next

unfoldable pub needs_blank_line : List Text → ClassInfo → ℕ → Bool
needs_blank_line lines info linenum =
    let prev_line = line_above lines linenum in
    let start = info.starting_linenum in
    not (is_blank_line prev_line)
    && not (occurs (re "\\b(class|struct)\\b") prev_line)
    && not (occurs (re "\\\\$") prev_line)
    && ltb (end_of_class_head lines start start (linenum - start)) (linenum - 1)

unfoldable pub check_section_spacing : Text → CleansedLines → ClassInfo → ℕ → Handler → Action
check_section_spacing filename clean_lines info linenum error =
    when
      (not (leb info.last_line (info.starting_linenum + 24))
        && not (leb linenum info.starting_linenum))
      (for_some (match (re "\\s*(public|protected|private):") (line_at clean_lines.lines linenum))
        (λ m. when (needs_blank_line clean_lines.lines info linenum) (
          error filename linenum (text "whitespace/blank_line") 3
            ((text "\"") ++ (group_text 1 m ++ (text ":\" should be preceded by a blank line"))))))

-- The lines above that look like the end of an initializer list are passed; one that opens it remains.
unfoldable pub above_initializers : List Text → ℕ → Bool
above_initializers elided zero =
    starts_with (line_at elided 0) (text "    :") && not (matches (re " {6}\\w") (line_at elided 0))
above_initializers elided (suc i) =
    let further = above_initializers elided i in
    if matches (re " {6}\\w") (line_at elided (suc i))
    then further
    else starts_with (line_at elided (suc i)) (text "    :")

unfoldable pub opens_function : List Text → Text → ℕ → Bool
opens_function elided prev_line linenum =
    if matches (re " {6}\\w") prev_line
    then leb 2 linenum && above_initializers elided (linenum - 2)
    else matches (re " {4}\\w[^\\(]*\\)\\s*(const\\s*)?(\\{\\s*$|:)") prev_line
      || matches (re " {4}:") prev_line

-- the last `{` of a line has no `}` behind it
unfoldable pub leaves_brace_open : Text → Bool
leaves_brace_open line = elim (rfind line b'{') [
  | none ↦ false
  | some i ↦ not (contains (drop i line) (text "}"))
]

unfoldable pub check_blank_line : Text → CleansedLines → ℕ → Handler → Action
check_blank_line filename clean_lines linenum error =
    let raw = clean_lines.lines_without_raw_strings in
    let prev_line = line_above clean_lines.elided linenum in
    let next_line = line_at raw (linenum + 1) in
    when (leaves_brace_open prev_line && not (opens_function clean_lines.elided prev_line linenum))
      (error filename linenum (text "whitespace/blank_line") 2 (
        (text "Redundant blank line at the start of a code block ") ++ (text "should be deleted.")))
    ⨾ when
        (ltb (linenum + 1) clean_lines.num_lines
          && matches (re "\\s*}") next_line
          && not (contains next_line (text "} else ")))
        (error filename linenum (text "whitespace/blank_line") 3 (
          (text "Redundant blank line at the end of a code block ") ++ (text "should be deleted.")))
    ⨾ for_some (match (re "\\s*(public|protected|private):") prev_line) (λ m.
      error filename linenum (text "whitespace/blank_line") 3
        ((text "Do not leave a blank line after \"") ++ (group_text 1 m ++ (text ":\""))))
