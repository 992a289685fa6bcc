-- ===== src/Notes/Report.antt =====
-- Lines 48 to 57, 88 to 106 and 168 to 197: the output, and how the tool ends.
use cluster_stack_provider_o.Base.{
  ℕ, String, ◌<>◌, Bool, Option, none, some, List, [], ◌∷◌, length, if◌then◌else◌,
}
use cluster_stack_provider_o.Base.Text.{decimal, join}
use cluster_stack_provider_o.Notes.Commits.{Git, last_tag, Commit, read_commits}
use cluster_stack_provider_o.Notes.Sections.{
  Section, proposals, warning, features, bugs, other, documentation, unknown, heading, Merges,
  sort_commits,
}

abbrev pub output_order : List Section
output_order = proposals ∷ warning ∷ features ∷ bugs ∷ other ∷ documentation ∷ unknown ∷ []

-- A line for each, as `fmt.Println` prints them.
unfoldable pub print_lines : List String → String
print_lines [] = ""
print_lines (line ∷ lines) = line <> ("\n" <> print_lines lines)

-- One round of the loop over the sections, for the lines of the section.
unfoldable pub print_section : Section → List String → String
unfolding print_lines
print_section key [] = ""
print_section documentation (n ∷ ns) =
    ":book: Additionally, there have been "
    <> (decimal (length (n ∷ ns))
        <> (" contributions to our documentation and book. (" <> (join (n ∷ ns) ", " <> ") \n\n")))
print_section key (line ∷ lines) =
    "## " <> (heading key <> ("\n" <> (print_lines (line ∷ lines) <> "\n")))

print_sections : Merges → List Section → String
print_sections merges [] = ""
print_sections merges (key ∷ keys) = print_section key (merges key) <> print_sections merges keys

unfoldable pub report : String → Merges → String
unfolding print_sections
report tag merges =
    ("Changes since " <> (tag <> "\n---\n"))
    <> (print_sections merges output_order <> "\n_Thanks to all our contributors!_ 😊\n")

-- How the tool ends: with an exit code and what it has printed, or in a panic.
pub data Ending : Type 0 where
  exited : ℕ → String → Ending
  panicked : Ending

abbrev pub no_merges : Merges
no_merges k = []

abbrev pub tell : String → Option (List Commit) → Ending
tell tag none = panicked
tell tag (some commits) = exited 0 (report tag (sort_commits no_merges commits))

-- The output of the command, where it succeeds.
abbrev answer : String → Bool × String → Ending
answer tag (fine, out) =
    if fine then tell tag (read_commits out) else exited 1 ("Error\n" <> (out <> "\n"))

unfoldable pub run : Git → String → Ending
run git from = let tag = last_tag git from in answer tag (git.rev_list (tag <> "..HEAD"))
