-- ===== src/Lint/IncludeWhatYouUse/Templates.antt =====
-- `_HEADERS_CONTAINING_TEMPLATES` of scripts/cpplint.py, and the names that `<algorithm>` is for.
use epiphany_bsp.Base.{List, [], ◌∷◌}
use epiphany_bsp.Base.Text.{Text, text}

unfoldable pub headers_containing_templates : List (Text × List Text)
headers_containing_templates =
    ((text "<deque>"), (text "deque") ∷ [])
    ∷ (
      (text "<functional>"),
      (text "unary_function")
          ∷ (text "binary_function")
          ∷ (text "plus")
          ∷ (text "minus")
          ∷ (text "multiplies")
          ∷ (text "divides")
          ∷ (text "modulus")
          ∷ (text "negate")
          ∷ (text "equal_to")
          ∷ (text "not_equal_to")
          ∷ (text "greater")
          ∷ (text "less")
          ∷ (text "greater_equal")
          ∷ (text "less_equal")
          ∷ (text "logical_and")
          ∷ (text "logical_or")
          ∷ (text "logical_not")
          ∷ (text "unary_negate")
          ∷ (text "not1")
          ∷ (text "binary_negate")
          ∷ (text "not2")
          ∷ (text "bind1st")
          ∷ (text "bind2nd")
          ∷ (text "pointer_to_unary_function")
          ∷ (text "pointer_to_binary_function")
          ∷ (text "ptr_fun")
          ∷ (text "mem_fun_t")
          ∷ (text "mem_fun")
          ∷ (text "mem_fun1_t")
          ∷ (text "mem_fun1_ref_t")
          ∷ (text "mem_fun_ref_t")
          ∷ (text "const_mem_fun_t")
          ∷ (text "const_mem_fun1_t")
          ∷ (text "const_mem_fun_ref_t")
          ∷ (text "const_mem_fun1_ref_t")
          ∷ (text "mem_fun_ref")
          ∷ [],
    )
    ∷ ((text "<limits>"), (text "numeric_limits") ∷ [])
    ∷ ((text "<list>"), (text "list") ∷ [])
    ∷ ((text "<map>"), (text "map") ∷ (text "multimap") ∷ [])
    ∷ ((text "<memory>"), (text "allocator") ∷ [])
    ∷ ((text "<queue>"), (text "queue") ∷ (text "priority_queue") ∷ [])
    ∷ ((text "<set>"), (text "set") ∷ (text "multiset") ∷ [])
    ∷ ((text "<stack>"), (text "stack") ∷ [])
    ∷ ((text "<string>"), (text "char_traits") ∷ (text "basic_string") ∷ [])
    ∷ ((text "<tuple>"), (text "tuple") ∷ [])
    ∷ ((text "<utility>"), (text "pair") ∷ [])
    ∷ ((text "<vector>"), (text "vector") ∷ [])
    ∷ ((text "<hash_map>"), (text "hash_map") ∷ (text "hash_multimap") ∷ [])
    ∷ ((text "<hash_set>"), (text "hash_set") ∷ (text "hash_multiset") ∷ [])
    ∷ ((text "<slist>"), (text "slist") ∷ [])
    ∷ []

unfoldable pub algorithm_templates : List Text
algorithm_templates =
    (text "copy")
    ∷ (text "max")
    ∷ (text "min")
    ∷ (text "min_element")
    ∷ (text "sort")
    ∷ (text "swap")
    ∷ (text "transform")
    ∷ []
