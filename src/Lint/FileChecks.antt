-- ===== src/Lint/FileChecks.antt =====
-- The checks of scripts/cpplint.py that look at a whole file: the copyright line, bad characters,
-- the newline at the end, and the header of a `.cc` file.
pub mod Characters
use epiphany_bsp.Base.{
  ℕ, zero, suc, ◌+◌, ◌-◌, ◌%◌, Bool, true, false, ◌||◌, List, [], ◌∷◌, ◌++◌, length, take, drop,
  get_or, any, ltb, ◌==◌, if◌then◌else◌,
}
use epiphany_bsp.Base.Text.{Text, text, lower, contains, replace, count, ends_with}
use epiphany_bsp.Lint.Report.{Globals, Handler}
use epiphany_bsp.Lint.Cleanse.{CleansedLines}
use epiphany_bsp.Lint.IncludeState.{IncludeState}
use epiphany_bsp.Lint.FileInfo.{FileSystem, repository_name}

-- the lines that `xrange(1, min(len(lines), 11))` visits
unfoldable pub has_copyright : List Text → Bool
has_copyright lines =
    any (λ line. contains (lower line) (text "copyright")) (take 10 (drop 1 lines))

unfoldable pub check_for_copyright : Text → List Text → Handler → Globals → Globals
unfolding has_copyright
check_for_copyright filename lines error g =
    if has_copyright lines
    then g
    else error filename 0 (text "legal/copyright") 5
        (text "No copyright message found.  "
          ++ text "You should have a line: \"Copyright [year] <Copyright Owner>\"")
        g

abbrev replacement_character : ℕ
replacement_character = 65533

unfoldable pub check_characters : Text → ℕ → Text → Handler → Globals → Globals
check_characters filename linenum line error g =
    let g1 =
      if contains line (replacement_character ∷ [])
      then error filename linenum (text "readability/utf8") 5
          (text "Line contains invalid UTF-8 (or Unicode replacement character).") g
      else g in
    if contains line (0 ∷ [])
    then error filename linenum (text "readability/nul") 5 (text "Line contains NUL byte.") g1
    else g1

unfoldable pub check_characters_from : Text → ℕ → List Text → Handler → Globals → Globals
check_characters_from filename linenum [] error g = g
check_characters_from filename linenum (line ∷ lines) error g =
    check_characters_from filename (suc linenum) lines error
      (check_characters filename linenum line error g)

unfoldable pub check_for_bad_characters : Text → List Text → Handler → Globals → Globals
check_for_bad_characters filename lines error g = check_characters_from filename 0 lines error g

abbrev is_empty : Text → Bool
is_empty [] = true
is_empty (c ∷ s) = false

-- The caller passes at least three lines, so the line number is not negative.
unfoldable pub check_for_newline_at_eof : Text → List Text → Handler → Globals → Globals
check_for_newline_at_eof filename lines error g =
    if ltb (length lines) 3
    then error filename (length lines - 2) (text "whitespace/ending_newline") 5
        (text "Could not find a newline character at the end of the file.") g
    else if is_empty (get_or lines (length lines - 2) [])
    then g
    else error filename (length lines - 2) (text "whitespace/ending_newline") 5
        (text "Could not find a newline character at the end of the file.") g

-- The parity of the difference of the counts is that of their sum.
unfoldable pub check_for_multiline_comments_and_strings :
    Text → CleansedLines → ℕ → Handler → Globals → Globals
check_for_multiline_comments_and_strings filename clean_lines linenum error g =
    let line = replace (get_or clean_lines.elided linenum []) (text "\\\\") [] in
    let g1 =
      if ltb (count line (text "*/")) (count line (text "/*"))
      then error filename linenum (text "readability/multiline_comment") 5
          (text "Complex multi-line /*...*/-style comment found. "
            ++ (text "Lint may give bogus warnings.  "
                ++ (text "Consider replacing these with //-style comments, "
                    ++ (text "with #if 0...#endif, "
                        ++ text "or with more clearly structured multi-line comments."))))
          g
      else g in
    if (count line (text "\"") + count line (text "\\\"")) % 2 == 1
    then error filename linenum (text "readability/multiline_string") 5
        (text "Multi-line string (\"...\") found.  This lint script doesn't "
          ++ (text "do well with such strings, and may give bogus warnings.  "
              ++ text "Use C++11 raw strings or concatenation instead."))
        g1
    else g1

-- Whether an include names the header, and the line of the first include, 0 where there is none.
abbrev includes_header : Text → List (List (Text × ℕ)) → Bool
includes_header headername sections =
    any (any (λ f. contains f.0 headername || contains headername f.0)) sections

abbrev first_in_section : ℕ → List (Text × ℕ) → ℕ
first_in_section first [] = first
first_in_section zero (f ∷ fs) = first_in_section f.1 fs
first_in_section (suc n) (f ∷ fs) = first_in_section (suc n) fs

unfoldable pub first_include : ℕ → List (List (Text × ℕ)) → ℕ
first_include first [] = first
first_include first (fs ∷ sections) = first_include (first_in_section first fs) sections

unfoldable pub check_header_file_included :
    FileSystem → Text → IncludeState → Handler → Globals → Globals
unfolding first_include
check_header_file_included fs filename include_state error g =
    let headerfile = take (length filename - 2) filename ++ text "h" in
    let headername = repository_name fs headerfile in
    if ends_with filename (text "_test.cc") || ends_with filename (text "_unittest.cc")
    then g
    else if fs.exists headerfile
    then (if includes_header headername include_state.include_list
        then g
        else error filename (first_include 0 include_state.include_list) (text "build/include") 5
            (repository_name fs filename ++ (text " should include its header file " ++ headername))
            g)
    else g
