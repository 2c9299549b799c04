-- ===== src/Lint/Categories.antt =====
-- The lists of categories of scripts/cpplint.py: `_ERROR_CATEGORIES` and
-- `_LEGACY_ERROR_CATEGORIES`.
use epiphany_bsp.Base.{List, [], ◌∷◌}
use epiphany_bsp.Base.Text.{Text, text}

unfoldable pub error_categories : List Text
error_categories =
    text "build/class"
    ∷ text "build/c++11"
    ∷ text "build/deprecated"
    ∷ text "build/endif_comment"
    ∷ text "build/explicit_make_pair"
    ∷ text "build/forward_decl"
    ∷ text "build/header_guard"
    ∷ text "build/include"
    ∷ text "build/include_alpha"
    ∷ text "build/include_order"
    ∷ text "build/include_what_you_use"
    ∷ text "build/namespaces"
    ∷ text "build/printf_format"
    ∷ text "build/storage_class"
    ∷ text "legal/copyright"
    ∷ text "readability/alt_tokens"
    ∷ text "readability/braces"
    ∷ text "readability/casting"
    ∷ text "readability/check"
    ∷ text "readability/constructors"
    ∷ text "readability/fn_size"
    ∷ text "readability/function"
    ∷ text "readability/inheritance"
    ∷ text "readability/multiline_comment"
    ∷ text "readability/multiline_string"
    ∷ text "readability/namespace"
    ∷ text "readability/nolint"
    ∷ text "readability/nul"
    ∷ text "readability/strings"
    ∷ text "readability/todo"
    ∷ text "readability/utf8"
    ∷ text "runtime/arrays"
    ∷ text "runtime/casting"
    ∷ text "runtime/explicit"
    ∷ text "runtime/int"
    ∷ text "runtime/init"
    ∷ text "runtime/invalid_increment"
    ∷ text "runtime/member_string_references"
    ∷ text "runtime/memset"
    ∷ text "runtime/indentation_namespace"
    ∷ text "runtime/operator"
    ∷ text "runtime/printf"
    ∷ text "runtime/printf_format"
    ∷ text "runtime/references"
    ∷ text "runtime/string"
    ∷ text "runtime/threadsafe_fn"
    ∷ text "runtime/vlog"
    ∷ text "whitespace/blank_line"
    ∷ text "whitespace/braces"
    ∷ text "whitespace/comma"
    ∷ text "whitespace/comments"
    ∷ text "whitespace/empty_conditional_body"
    ∷ text "whitespace/empty_loop_body"
    ∷ text "whitespace/end_of_line"
    ∷ text "whitespace/ending_newline"
    ∷ text "whitespace/forcolon"
    ∷ text "whitespace/indent"
    ∷ text "whitespace/line_length"
    ∷ text "whitespace/newline"
    ∷ text "whitespace/operators"
    ∷ text "whitespace/parens"
    ∷ text "whitespace/semicolon"
    ∷ text "whitespace/tab"
    ∷ text "whitespace/todo"
    ∷ []

unfoldable pub legacy_error_categories : List Text
legacy_error_categories = text "readability/streams" ∷ []
