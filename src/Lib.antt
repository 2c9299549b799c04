-- ===== src/Lib.antt =====
-- The programs of Epiphany BSP, checked: scripts/cpplint.py, the linter that `make lint` runs over the
-- library's sources.
--
-- How the linter is put together. `ProcessFileData` preprocesses the lines of a file, walks over them
-- with three pieces of state (the headers included so far, the function being read, the nesting of
-- blocks) and hands every finding to `Error`, which asks the module's settings, the filters and the
-- NOLINT comments whether to print it.
--
-- What stands where (all of scripts/cpplint.py):
-- - Base: shared names, lists over the native numbers, and Python's `str` as a list of code points
--   (Base.Text) with the methods that the program calls; a unicode text strips more blanks than bytes do.
-- - Regex: Python's `re` as a backtracking matcher over patterns as data, with `Match`, `Search` and
--   `ReplaceAll`.
-- - Lint.Categories: the lists of error categories.
-- - Lint.State: the class `_CppLintState`: verbosity, filters, counts.
-- - Lint.Suppress: `_error_suppressions` and the NOLINT comments.
-- - Lint.Report: `_ShouldPrintError`, `Error` and `ParseNolintSuppressions`, over the module's globals
--   and what was written to standard error. A check takes the function that it reports to as an
--   argument, as in the source.
-- - Lint.IncludeState: the class `_IncludeState`.
-- - Lint.FunctionState: the class `_FunctionState`.
-- - Lint.Cleanse: raw strings, comments over several lines, comments and strings within a line, and
--   the class `CleansedLines`.
-- - Lint.Block, Lint.Nesting: the blocks that are open (`_BlockInfo`, `_ClassInfo`, `_NamespaceInfo`),
--   and the class `NestingState` with `UpdatePreprocessor` and `Update`.
-- - Lint.FileInfo: the class `FileInfo`, over a file system that is an argument.
-- - Lint.FileChecks, Lint.HeaderGuard: the checks of a whole file.
-- - Lint.Includes, Lint.CppHeaders, Lint.Modules: `CheckIncludeLine`, the kinds of headers, and
--   `FilesBelongToSameModule`.
-- - Lint.FunctionLengths, Lint.NamespaceIndent, Lint.CommentStyle, Lint.LineChecks: checks of a line.
-- - Lint.Expression: the search for the bracket that closes or opens an expression.
-- - Regex.Compile: patterns as they are written in the source, parsed into patterns as data.
-- - Lint.Steps: an action on the globals, and the ways to put actions together.
-- - Lint.Spacing, Lint.Braces, Lint.RValue, Lint.Style, Lint.Language, Lint.Casts: the checks of a line
--   that `CheckStyle`, `CheckLanguage` and `ProcessLine` call, each with the tests that it asks.
-- - Lint.IncludeWhatYouUse: `CheckForIncludeWhatYouUse`.
-- - Lint.Driver: `ProcessLine` (Lines), `ProcessFileData` (Data), `ProcessFile` (File),
--   `ProcessConfigOverrides` (Config), `ParseArguments` and `main`.
-- - Lint.Trace: the steps that the globals can make while a file is checked, as a relation, and the checks
--   as runs of such steps.
-- - Tests: runs on small inputs, and the theorems at concrete arguments.
--
-- Numbers and fuel. Line numbers, confidences and verbosity levels are natural numbers; -1 as "not
-- found" is `none`. A run with a verbosity below 0, which the usage text does not
-- allow, is not followed. The loop of `CleanseRawStrings` over one line and the loop of `_CollapseStrings`
-- have one round more than the line has characters, and the loop of `RemoveMultiLineComments` one round
-- for each line. The loops of `NestingState.Update` over one line take a character in each round and
-- have one round more than the line has characters; `InTemplateArgumentList` has a round for each character
-- and line of the file. The climbs of `FileInfo` have as many rounds as the path has characters, and
-- the one for `.svn`, which in the source does not end where the root directory has one, ends then.
-- The loops that rewrite a line or look for all matches in it have as many rounds as it has characters, or
-- one more: `CheckOperatorSpacing`, `CheckCheck`, the loops of `IsRValueAllowed` and `GetTemplateArgs`, and
-- `re.findall`. A round takes at least one character from the line. `IsRValueType` has 1000 calls within
-- each other, the interpreter's limit, and raises the RuntimeError that the interpreter raises there. The
-- way up through the directories in `ProcessConfigOverrides` has one round more than the absolute path has
-- characters.
--
-- Exceptions. An exception that nothing catches sets a field of the globals, behind which nothing is
-- printed or counted and no filters are restored. Positions and lines that Python would refuse with an
-- IndexError are answered as stated at the definition. The order of a dictionary, where the source runs
-- over one, is that of the insertions.
--
-- Not modelled: the cache of compiled patterns, which changes no result; reading files and decoding them,
-- `getopt`, `os.path.abspath`, the tables of `unicodedata` and the `lower()` of a unicode text, which are
-- arguments; the usage text and the
-- listing of categories, which end the program; extra check functions, which `main` does not pass; what
-- `print` writes to the console beyond standard error; docs/conf.py, which is assignments for Sphinx; the
-- unit test runner test/test.py; and the C library itself.
pub mod Base
pub mod Regex
pub mod Lint
pub mod Tests
