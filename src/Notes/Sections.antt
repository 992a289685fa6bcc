-- ===== src/Notes/Sections.antt =====
-- Lines 124 to 166 and 204 to 209: each commit's section, and its line there.
use cluster_stack_provider_o.Base.{
  ℕ, String, ◌<>◌, Bool, ◌||◌, Option, none, some, List, [], ◌∷◌, ◌++◌, ◌=s◌, ◌==◌, if◌then◌else◌,
}
use cluster_stack_provider_o.Notes.GoText.{
  trim_space, has_prefix, trim_prefix, contains, strip, scan_gap, word,
}
use cluster_stack_provider_o.Notes.Commits.{Commit, ◌>>=◌}

pub data Section : Type 0 where
  proposals warning features bugs other documentation unknown : Section

-- The constants by which the sections are known.
abbrev pub heading : Section → String
heading features = ":sparkles: New Features"
heading bugs = ":bug: Bug Fixes"
heading documentation = ":book: Documentation"
heading proposals = ":memo: Proposals"
heading warning = ":warning: Breaking Changes"
heading other = ":seedling: Others"
heading unknown = ":question: Sort these by hand"

-- A mark at the head of a title, as a name or as a sign.
abbrev is_marked : String → String → String → Bool
is_marked name sign body = has_prefix body name || has_prefix body sign

abbrev unmark : String → String → String → String
unmark name sign body = trim_prefix (trim_prefix body name) sign

-- The `switch` of lines 127 to 153: the section, and the title without its mark.
unfoldable pub classify : String → Section × String
classify body =
    if is_marked ":sparkles:" "✨" body
    then (features, unmark ":sparkles:" "✨" body)
    else if is_marked ":bug:" "🐛" body
    then (bugs, unmark ":bug:" "🐛" body)
    else if is_marked ":book:" "📖" body
    then (let rest = unmark ":book:" "📖" body in
        (
          if contains rest "CAEP" || contains rest "proposal" then proposals else documentation,
          rest,
        ))
    else if is_marked ":seedling:" "🌱" body
    then (other, unmark ":seedling:" "🌱" body)
    else if is_marked ":warning:" "⚠\u{fe0f}" body
    then (warning, unmark ":warning:" "⚠\u{fe0f}" body)
    else (unknown, body)

-- `fmt.Sscanf(merge, "Merge pull request %s from %s", &prNumber, &fork)`, as far as the first verb:
-- it stays empty if the input does not get there.
unfoldable pub scan_pull_request : String → String
scan_pull_request merge =
    elim (strip "Merge" merge >>= λ a. scan_gap a >>= λ b.
    strip "pull" b >>= λ c. scan_gap c >>= λ d. strip "request" d >>= λ e. scan_gap e) [
      | none ↦ ""
      | some rest ↦ word rest
    ]

unfoldable pub format_merge : String → String → String
format_merge line number = if number =s "" then line else (line <> (" (" <> (number <> ")")))

-- What is noted under the documentation is the number of the pull request alone.
abbrev pub line_of : Section → String → String → String
line_of documentation body number = number
line_of _ body number = format_merge ("- " <> body) number

-- One round of the loop: nothing is noted where the title is empty.
unfoldable pub note : Commit → Option (Section × String)
note c =
    let (key, rest) = classify (trim_space c.body) in
    let body = trim_space rest in
    if body =s "" then none else some (key, line_of key body (scan_pull_request c.merge))

-- The map `merges`; a section that it does not hold is empty.
abbrev pub Merges : Type 0
Merges = Section → List String

abbrev rank : Section → ℕ
rank proposals = 0
rank warning = 1
rank features = 2
rank bugs = 3
rank other = 4
rank documentation = 5
rank unknown = 6

abbrev pub is_section : Section → Section → Bool
is_section a b = rank a == rank b

unfoldable pub add_note : Merges → Option (Section × String) → Merges
add_note merges none = merges
add_note merges (some (key, line)) =
    λ k. if is_section key k then merges k ++ line ∷ [] else merges k

unfoldable pub sort_commits : Merges → List Commit → Merges
sort_commits merges [] = merges
sort_commits merges (c ∷ cs) = sort_commits (add_note merges (note c)) cs
