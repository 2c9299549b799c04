-- ===== src/Tests/Headers.antt =====
-- Includes.
use epiphany_bsp.Base.{refl, ◌≡◌, ◌↔◌, none, some, List, [], ◌∷◌, if◌then◌else◌}
use epiphany_bsp.Base.Text.{text, equal}
use epiphany_bsp.Lint.IncludeState.{
  IncludeState, HeaderType, c_sys_header, cpp_sys_header, likely_my_header, other_header,
  find_header, add_header, reset_section,
}
use epiphany_bsp.Lint.IncludeState.Order.{AllAccepted, IsOrdered, AllAccepted-IsOrdered}
use epiphany_bsp.Lint.IncludeState.Headers.{
  or_else, find_header-add_header, add_all, find_header-branch,
}

abbrev state : IncludeState
state = record {
  include_list = ((text "a.h", 1) ∷ []) ∷ ((text "b.h", 3) ∷ []) ∷ [];
  section = 4;
  last_header = text "b.h";
}

abbrev headers : List HeaderType
headers = likely_my_header ∷ c_sys_header ∷ cpp_sys_header ∷ other_header ∷ []

AllAccepted-IsOrdered_example :
    AllAccepted headers (reset_section (text "if") state) ↔ IsOrdered headers
AllAccepted-IsOrdered_example = AllAccepted-IsOrdered (text "if") headers state

find_header-add_header_example :
    find_header (text "c.h") (add_header (text "c.h") 5 state)
    ≡ or_else
        (find_header (text "c.h") state)
        (if equal (text "c.h") (text "c.h") then some 5 else none)
find_header-add_header_example = find_header-add_header (text "c.h") (text "c.h") 5 state (λ e. cc)

find_header-branch_example :
    find_header (text "c.h") (
      reset_section
        (text "else")
        (add_all ((text "c.h", 5) ∷ (text "d.h", 6) ∷ []) (reset_section (text "ifdef") state)))
    ≡ find_header (text "c.h") state
unfolding text equal
find_header-branch_example =
    find_header-branch (text "ifdef") (text "else") (text "c.h")
      ((text "c.h", 5) ∷ (text "d.h", 6) ∷ []) state refl refl
