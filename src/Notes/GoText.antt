-- ===== src/Notes/GoText.antt =====
-- What the tool uses of Go's `strings`, `unicode` and `fmt`.
use Prim.Native.Char.{Char, code}
use cluster_stack_provider_o.Base.{
  ℕ, String, Bool, true, false, not, ◌||◌, ◌&&◌, Option, none, some, leb, ◌==◌, if◌then◌else◌,
}

-- `unicode.IsSpace`
unfoldable pub is_space : ℕ → Bool
is_space n =
    (leb 0x9 n && leb n 0xd)
    || n == 0x20
    || n == 0x85
    || n == 0xa0
    || n == 0x1680
    || (leb 0x2000 n && leb n 0x200a)
    || n == 0x2028
    || n == 0x2029
    || n == 0x202f
    || n == 0x205f
    || n == 0x3000

unfoldable pub trim_left : String → String
trim_left String.[] = ""
trim_left (String.◌∷◌ c s) =
    let rest = trim_left s in if is_space (code c) then rest else String.◌∷◌ c s

-- A last character is dropped if it is a space.
abbrev push_kept : Char → String → String
push_kept c String.[] = if is_space (code c) then "" else String.◌∷◌ c ""
push_kept c (String.◌∷◌ d s) = String.◌∷◌ c (String.◌∷◌ d s)

unfoldable pub trim_right : String → String
trim_right String.[] = ""
trim_right (String.◌∷◌ c s) = push_kept c (trim_right s)

-- `strings.TrimSpace`
abbrev pub trim_space : String → String
trim_space s = trim_right (trim_left s)

-- What follows the prefix, if it is one.
unfoldable pub strip : String → String → Option String
strip String.[] s = some s
strip (String.◌∷◌ p ps) String.[] = none
strip (String.◌∷◌ p ps) (String.◌∷◌ c s) =
    let rest = strip ps s in if code p == code c then rest else none

-- `strings.HasPrefix`
abbrev pub has_prefix : String → String → Bool
has_prefix s prefix = elim (strip prefix s) [ none ↦ false | some _ ↦ true ]

-- `strings.TrimPrefix`
abbrev pub trim_prefix : String → String → String
trim_prefix s prefix = elim (strip prefix s) [ none ↦ s | some rest ↦ rest ]

-- `strings.Contains`
unfoldable pub contains : String → String → Bool
contains String.[] part = has_prefix "" part
contains (String.◌∷◌ c s) part = has_prefix (String.◌∷◌ c s) part || contains s part

-- A space in a format of `fmt.Sscanf`: at least one space of the input, or its end, and no newline.
drop_gap : String → String
drop_gap String.[] = ""
drop_gap (String.◌∷◌ c s) =
    let rest = drop_gap s in
    if is_space (code c) && not (code c == b'\n') then rest else String.◌∷◌ c s

unfoldable pub scan_gap : String → Option String
unfolding drop_gap
scan_gap String.[] = some ""
scan_gap (String.◌∷◌ c s) =
    let rest = drop_gap s in
    if is_space (code c) then (if code c == b'\n' then none else some rest) else none

-- The input up to its first space.
unfoldable pub word : String → String
word String.[] = ""
word (String.◌∷◌ c s) = let rest = word s in if is_space (code c) then "" else String.◌∷◌ c rest
