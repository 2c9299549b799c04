-- ===== src/Lint/IncludeState/Order.antt =====
-- The order of headers that `CheckNextIncludeOrder` accepts.
use mathlib.Core.Logic.{◌↔◌}
use epiphany_bsp.Base.{ℕ, ◌≤◌, ◌≡◌, refl, none, some, List, [], ◌∷◌, arith, leb, if◌then◌else◌}
use epiphany_bsp.Base.Text.{Text, text}
use epiphany_bsp.Lint.IncludeState.{
  HeaderType, c_sys_header, cpp_sys_header, likely_my_header, possible_my_header, other_header,
  IncludeState, next_section, reset_section, check_next_include_order,
}

-- whether no header of a list is reported, from a state on
abbrev pub AllAccepted : List HeaderType → IncludeState → Type 0
AllAccepted [] s = Unit {0}
AllAccepted (t ∷ ts) s =
    ((check_next_include_order t s).1 ≡ []) × AllAccepted ts (check_next_include_order t s).0

-- the file's own header, or one that may be
abbrev pub IsMine : HeaderType → Type 0
IsMine likely_my_header = Unit
IsMine possible_my_header = Unit
IsMine _ = ⊥

abbrev pub IsLate : HeaderType → Type 0
IsLate c_sys_header = ⊥
IsLate cpp_sys_header = ⊥
IsLate _ = Unit

-- The accepted order: the file's own headers, the C system headers, the C++ system headers, and
-- then own and other headers in any order; each part may be empty.
pub data LateHeaders : List HeaderType → Type 0 where
  done : LateHeaders []
  late : {t : HeaderType} {ts : List HeaderType} → IsLate t → LateHeaders ts → LateHeaders (t ∷ ts)

pub data CppHeaders : List HeaderType → Type 0 where
  cpp : {ts : List HeaderType} → CppHeaders ts → CppHeaders (cpp_sys_header ∷ ts)
  end_cpp : {ts : List HeaderType} → LateHeaders ts → CppHeaders ts

pub data CHeaders : List HeaderType → Type 0 where
  c_sys : {ts : List HeaderType} → CHeaders ts → CHeaders (c_sys_header ∷ ts)
  end_c : {ts : List HeaderType} → CppHeaders ts → CHeaders ts

pub data IsOrdered : List HeaderType → Type 0 where
  mine : {t : HeaderType} {ts : List HeaderType} → IsMine t → IsOrdered ts → IsOrdered (t ∷ ts)
  end_mine : {ts : List HeaderType} → CHeaders ts → IsOrdered ts

module _ (t : HeaderType) (s : IncludeState) where
  -- An error message is never empty.
  message-ne-nil : next_section t s.section ≡ none → (check_next_include_order t s).1 ≡ [] → ⊥
  unfolding check_next_include_order text
  message-ne-nil e h = ground arith

  accepted :
      {n : ℕ}
      → next_section t s.section ≡ some n
      → ((check_next_include_order t s).1 ≡ []) × ((check_next_include_order t s).0.section ≡ n)
  unfolding check_next_include_order
  accepted e = ground arith

late_of :
    (ts : List HeaderType) (s : IncludeState) → s.section ≡ 4 → AllAccepted ts s → LateHeaders ts
unfolding next_section
late_of [] s e h = done
late_of (c_sys_header ∷ ts) s e h = absurd (message-ne-nil c_sys_header s (ground arith) h.0)
late_of (cpp_sys_header ∷ ts) s e h = absurd (message-ne-nil cpp_sys_header s (ground arith) h.0)
late_of (t ∷ ts) s e h = late tt (late_of ts _ (accepted t s {n = 4} (ground arith)).1 h.1)

cpp_of :
    (ts : List HeaderType) (s : IncludeState) → s.section ≡ 3 → AllAccepted ts s → CppHeaders ts
unfolding next_section
cpp_of [] s e h = end_cpp done
cpp_of (c_sys_header ∷ ts) s e h = absurd (message-ne-nil c_sys_header s (ground arith) h.0)
cpp_of (cpp_sys_header ∷ ts) s e h =
    cpp (cpp_of ts _ (accepted cpp_sys_header s {n = 3} (ground arith)).1 h.1)
cpp_of (t ∷ ts) s e h = end_cpp (late tt (late_of ts _ (accepted t s {n = 4} (ground arith)).1 h.1))

c_of : (ts : List HeaderType) (s : IncludeState) → s.section ≡ 2 → AllAccepted ts s → CHeaders ts
unfolding next_section
c_of [] s e h = end_c (end_cpp done)
c_of (c_sys_header ∷ ts) s e h =
    c_sys (c_of ts _ (accepted c_sys_header s {n = 2} (ground arith)).1 h.1)
c_of (cpp_sys_header ∷ ts) s e h =
    end_c (cpp (cpp_of ts _ (accepted cpp_sys_header s {n = 3} (ground arith)).1 h.1))
c_of (t ∷ ts) s e h =
    end_c (end_cpp (late tt (late_of ts _ (accepted t s {n = 4} (ground arith)).1 h.1)))

ordered_of :
    (ts : List HeaderType) (s : IncludeState) → s.section ≤ 1 → AllAccepted ts s → IsOrdered ts
unfolding next_section
ordered_of [] s e h = end_mine (end_c (end_cpp done))
ordered_of (c_sys_header ∷ ts) s e h =
    end_mine (c_sys (c_of ts _ (accepted c_sys_header s {n = 2} (ground arith)).1 h.1))
ordered_of (cpp_sys_header ∷ ts) s e h =
    end_mine (end_c (cpp (cpp_of ts _ (accepted cpp_sys_header s {n = 3} (ground arith)).1 h.1)))
ordered_of (other_header ∷ ts) s e h =
    end_mine (end_c (end_cpp (late tt (late_of ts _ (accepted other_header s {n = 4} refl).1 h.1))))
ordered_of (likely_my_header ∷ ts) s e h =
    let a = accepted likely_my_header s {n = 1} (ground arith) in
    mine tt (ordered_of ts _ (omega (arith, a.1)) h.1)
ordered_of (possible_my_header ∷ ts) s e h =
    let a = accepted possible_my_header s {n = 1} (ground arith) in
    mine tt (ordered_of ts _ (omega (arith, a.1)) h.1)

-- Conversely, each part of the accepted order is accepted from any section up to its own.
next_late : (t : HeaderType) (n : ℕ) → IsLate t → (m : ℕ) × (next_section t n ≡ some m) × (m ≤ 4)
unfolding next_section
next_late c_sys_header n h = absurd h
next_late cpp_sys_header n h = absurd h
next_late likely_my_header n h = (if leb n 1 then 1 else 4, ground arith, ground arith)
next_late possible_my_header n h = (if leb n 1 then 1 else 4, ground arith, ground arith)
next_late other_header n h = (4, refl, omega arith)

accepts_late :
    {ts : List HeaderType} (s : IncludeState) → s.section ≤ 4 → LateHeaders ts → AllAccepted ts s
accepts_late s b done = tt
accepts_late s b (late {t} l r) =
    let (m, e, le) = next_late t s.section l in
    let a = accepted t s e in (a.0, accepts_late _ (omega (arith, a.1)) r)

accepts_cpp :
    {ts : List HeaderType} (s : IncludeState) → s.section ≤ 3 → CppHeaders ts → AllAccepted ts s
unfolding next_section
accepts_cpp s b (cpp r) =
    let a = accepted cpp_sys_header s {n = 3} (ground arith) in
    (a.0, accepts_cpp _ (omega (arith, a.1)) r)
accepts_cpp s b (end_cpp l) = accepts_late s (omega arith) l

accepts_c :
    {ts : List HeaderType} (s : IncludeState) → s.section ≤ 2 → CHeaders ts → AllAccepted ts s
unfolding next_section
accepts_c s b (c_sys r) =
    let a = accepted c_sys_header s {n = 2} (ground arith) in
    (a.0, accepts_c _ (omega (arith, a.1)) r)
accepts_c s b (end_c l) = accepts_cpp s (omega arith) l

next_mine : (t : HeaderType) (n : ℕ) → IsMine t → n ≤ 1 → next_section t n ≡ some 1
unfolding next_section
next_mine c_sys_header n h b = absurd h
next_mine cpp_sys_header n h b = absurd h
next_mine other_header n h b = absurd h
next_mine likely_my_header n h b = ground arith
next_mine possible_my_header n h b = ground arith

accepts_ordered :
    {ts : List HeaderType} (s : IncludeState) → s.section ≤ 1 → IsOrdered ts → AllAccepted ts s
accepts_ordered s b (mine {t} m r) =
    let a = accepted t s (next_mine t s.section m b) in
    (a.0, accepts_ordered _ (omega (arith, a.1)) r)
accepts_ordered s b (end_mine c) = accepts_c s (omega arith) c

-- From the start of a section, the headers of a list are accepted with no error exactly if they come
-- as the file's own headers, C system headers, C++ system headers, and then own and other headers.
pub AllAccepted-IsOrdered :
    (directive : Text) (ts : List HeaderType) (s : IncludeState)
    → AllAccepted ts (reset_section directive s) ↔ IsOrdered ts
unfolding reset_section
AllAccepted-IsOrdered directive ts s =
    (ordered_of ts _ (omega arith), accepts_ordered _ (omega arith))
