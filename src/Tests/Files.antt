-- ===== src/Tests/Files.antt =====
-- Names of files.
use epiphany_bsp.Base.{◌≡◌, refl, true, false, none, List, [], ◌∷◌, ◌++◌, All, arith}
use epiphany_bsp.Base.Text.{Text, text, member, equal}
use epiphany_bsp.Lint.Report.{error, initial}
use epiphany_bsp.Lint.Report.Laws.{printed_lines}
use epiphany_bsp.Lint.FileChecks.{check_for_bad_characters}
use epiphany_bsp.Lint.FileChecks.Characters.{bad_characters, check_for_bad_characters-printed_lines}
use epiphany_bsp.Lint.FileInfo.{FileSystem, dirname, full_name, top_checkout, repository_name}
use epiphany_bsp.Lint.FileInfo.Below.{repository_name-IsBelow}
use epiphany_bsp.Lint.Modules.Prefix.{files_belong_to_same_module-prefix}
use epiphany_bsp.Lint.Includes.{drop_common_suffixes, common_suffixes}
use epiphany_bsp.Lint.Includes.Stems.{IsStem, drop_common_suffixes-IsStem}
use epiphany_bsp.Lint.HeaderGuard.{get_header_guard_cpp_variable, guard_lines}
use epiphany_bsp.Lint.HeaderGuard.Guards.{
  text_or, line_or, first_named, last_endif, guard_lines-first_named,
}
use epiphany_bsp.Lint.HeaderGuard.Names.{is_guard_char, get_header_guard_cpp_variable-is_guard_char}

-- a checkout in `/w`
abbrev checkout : FileSystem
checkout = record {
  abs_path = λ p. text "/w/" ++ p;
  exists = λ p. member p (text "/w/.git" ∷ text "/w/src/a-b.h" ∷ []);
}

get_header_guard_cpp_variable-is_guard_char_example :
    All
      (λ c. is_guard_char c ≡ true)
      (get_header_guard_cpp_variable checkout none (text "src/a-b.h"))
get_header_guard_cpp_variable-is_guard_char_example =
    get_header_guard_cpp_variable-is_guard_char checkout none (text "src/a-b.h")

guard_test : get_header_guard_cpp_variable checkout none (text "src/a-b.h") ≡ text "SRC_A_B_H_"
unfolding text get_header_guard_cpp_variable epiphany_bsp.Lint.FileInfo.repository_name
    epiphany_bsp.Base.Text.equal epiphany_bsp.Base.Text.replace epiphany_bsp.Regex.replace_with
    epiphany_bsp.Regex.replace_all epiphany_bsp.Lint.FileInfo.join_path
    epiphany_bsp.Lint.FileInfo.dirname epiphany_bsp.Lint.FileInfo.common_prefix
guard_test = refl

files_belong_to_same_module-prefix_example : text "/w/" ++ text "src/a" ≡ text "/w/src/a"
unfolding epiphany_bsp.Lint.Modules.cc_module epiphany_bsp.Base.Text.ends_with text
    epiphany_bsp.Base.Text.replace epiphany_bsp.Lint.Modules.h_module
    epiphany_bsp.Lint.Modules.files_belong_to_same_module
files_belong_to_same_module-prefix_example =
    files_belong_to_same_module-prefix (text "/w/src/internal/a_test.cc") (text "src/a-inl.h")
      (text "/w/src/a") (text "src/a") (text "/w/") refl refl (λ e. ground arith) refl

-- a replacement character and a NUL byte
abbrev bad_lines : List Text
bad_lines = text "a" ∷ (65533 ∷ 0 ∷ []) ∷ []

check_for_bad_characters-printed_lines_example :
    ((check_for_bad_characters (text "a.h") bad_lines error initial).stderr
      ≡ initial.stderr ++ printed_lines initial (bad_characters (text "a.h") 0 bad_lines))
    × ((check_for_bad_characters (text "a.h") bad_lines error initial).aborted ≡ false)
unfolding initial epiphany_bsp.Lint.State.initial epiphany_bsp.Lint.State.is_signed
    epiphany_bsp.Base.Text.starts_with text
check_for_bad_characters-printed_lines_example =
    check_for_bad_characters-printed_lines (text "a.h") bad_lines initial refl (refl, tt)

abbrev header : List Text
header = text "#ifndef A" ∷ text "#define A" ∷ text "#endif" ∷ text "#endif // A" ∷ []

guard_lines-first_named_example : guard_lines header ≡ record {
  ifndef = text_or (first_named (text "#ifndef") 0 header) [];
  ifndef_linenum = line_or (first_named (text "#ifndef") 0 header) 0;
  define = text_or (first_named (text "#define") 0 header) [];
  endif = text_or (last_endif 0 header) [];
  endif_linenum = line_or (last_endif 0 header) 0;
}
guard_lines-first_named_example = guard_lines-first_named header

header_test : (guard_lines header).endif_linenum ≡ 3
unfolding guard_lines epiphany_bsp.Lint.HeaderGuard.see_endif epiphany_bsp.Base.Text.starts_with
    text
header_test = refl

repository_name-IsBelow_example :
    full_name checkout (text "src/a-b.h")
    ≡ text "/w" ++ b'/' ∷ repository_name checkout (text "src/a-b.h")
unfolding text equal full_name epiphany_bsp.Base.Text.replace epiphany_bsp.Lint.FileInfo.join_path
    dirname top_checkout
repository_name-IsBelow_example =
    repository_name-IsBelow checkout (text "src/a-b.h") (text "/w") refl refl refl refl refl

top_test : top_checkout checkout 6 (text "/w/src") ≡ text "/w"
unfolding text top_checkout equal dirname epiphany_bsp.Lint.FileInfo.join_path
top_test = refl

drop_common_suffixes-IsStem_example :
    IsStem (text "a/b-inl.h") (drop_common_suffixes (text "a/b-inl.h")) common_suffixes
drop_common_suffixes-IsStem_example = drop_common_suffixes-IsStem (text "a/b-inl.h")

stem_test : drop_common_suffixes (text "a/b-inl.h") ≡ text "a/b"
unfolding text drop_common_suffixes epiphany_bsp.Base.Text.ends_with
stem_test = refl

no_stem_test : drop_common_suffixes (text "a.c/b.cc") ≡ text "a.c/b"
unfolding text drop_common_suffixes epiphany_bsp.Base.Text.ends_with
    epiphany_bsp.Lint.FileInfo.splitext
no_stem_test = refl
