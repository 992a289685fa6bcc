-- ===== src/Notes/RoundTrip.antt =====
-- A log of merged pull requests as git prints it, and what the tool reads in it.
use Prim.Native.Char.{Char}
use mathlib.Core.List.{append_assoc, append-nil}
use text.Mathlib.TextLemmas.{nil-append, cons-append, append_assoc as str_assoc}
use cluster_stack_provider_o.Base.{
  String, ◌<>◌, ◌≡◌, ◌≢◌, refl, sym, ap, ◌∙◌, true, false, none, some, List, [], ◌∷◌, ◌++◌, map,
  All, All-append, arith, eq_iff,
}
use cluster_stack_provider_o.Base.Split.{split, separators, split-append}
use cluster_stack_provider_o.Notes.GoText.{trim_space, trim_left, trim_right, strip, has_prefix}
use cluster_stack_provider_o.Notes.Commits.{
  Git, last_tag, Commit, blank_commit, set_merge, set_body, on_last, read_line, read_lines,
  read_commits, newline,
}
use cluster_stack_provider_o.Notes.Sections.{sort_commits}
use cluster_stack_provider_o.Notes.Report.{print_lines, exited, report, no_merges, run}
use cluster_stack_provider_o.Notes.Scan.{strip-append, merge_line}

-- A merged pull request.
pub record Pull : Type 0 where
  pub id : String
  pub number : String
  pub fork : String
  pub title : String

abbrev pub head_line : Pull → String
head_line p = "commit " <> p.id

abbrev pub commit_of : Pull → Commit
commit_of p = record { merge = merge_line p.number p.fork; body = p.title }

-- Its lines in the log, and the log.
abbrev pub lines_of : Pull → List String
lines_of p = head_line p ∷ merge_line p.number p.fork ∷ "" ∷ p.title ∷ []

abbrev pub all_lines : List Pull → List String
all_lines [] = []
all_lines (p ∷ ps) = lines_of p ++ all_lines ps

abbrev pub log : List Pull → String
log ps = print_lines (all_lines ps)

-- Its texts have no space at their ends and no newline; its title is not empty, and is neither taken
-- for a new commit nor for a merge.
pub record IsPlain (p : Pull) : Type 0 where
  pub head_trimmed : trim_space (head_line p) ≡ head_line p
  pub merge_trimmed : trim_space (merge_line p.number p.fork) ≡ merge_line p.number p.fork
  pub title_trimmed : trim_space p.title ≡ p.title
  pub titled : p.title ≢ ""
  pub not_commit : has_prefix p.title "commit" ≡ false
  pub not_merge : has_prefix p.title "Merge" ≡ false
  pub one_line : All (λ line. separators newline line ≡ 0) (lines_of p)

newline-append : (s : String) → "\n" <> s ≡ String.◌∷◌ newline s
newline-append s = cons-append newline "" s ∙ ap (String.◌∷◌ newline) (nil-append s)

-- Lines that are printed are split again.
split-print_lines :
    (lines : List String)
    → All (λ line. separators newline line ≡ 0) lines
    → split newline (print_lines lines) ≡ lines ++ "" ∷ []
unfolding print_lines
split-print_lines [] h = unfold split in refl
split-print_lines (line ∷ lines) (single, h) = rw (
  newline-append (print_lines lines),
  split-append newline line _ single,
  split-print_lines lines h,
)

on_last-append :
    (f : Commit → Commit) (cs : List Commit) (c : Commit)
    → on_last f (cs ++ c ∷ []) ≡ some (cs ++ f c ∷ [])
unfolding on_last
on_last-append f [] c = refl
on_last-append f (d ∷ []) c = refl
on_last-append f (d ∷ e ∷ cs) c = rw (on_last-append f (e ∷ cs) c)

strip_commit_merge : (s : String) → strip "commit" ("Merge" <> s) ≡ none
unfolding strip
strip_commit_merge s = let m : Char = "M" in rw (cons-append m "erge" s)

read_line_head :
    (cs : List Commit) (id : String)
    → read_line cs ("commit " <> id) ≡ some (cs ++ blank_commit ∷ [])
unfolding read_line
read_line_head cs id =
    let split_off : "commit " <> id ≡ "commit" <> (" " <> id) = str_assoc "commit" " " id in
    rw split_off (ground (arith, strip-append "commit" (" " <> id)))

read_line_blank : (cs : List Commit) → read_line cs "" ≡ some cs
unfolding read_line strip
read_line_blank cs = refl

read_line_merge :
    (cs : List Commit) (c : Commit) (number fork : String)
    → read_line (cs ++ c ∷ []) (merge_line number fork)
      ≡ some (cs ++ set_merge (merge_line number fork) c ∷ [])
unfolding read_line
read_line_merge cs c number fork =
    let rest =
      " " <> ("pull" <> (" " <> ("request" <> (" " <> (number <> (" " <> ("from " <> fork))))))) in
    ground (
      arith,
      strip-append "Merge" rest,
      strip_commit_merge rest,
      on_last-append (set_merge (merge_line number fork)) cs c,
    )

read_line_title :
    (cs : List Commit) (c : Commit) (title : String)
    → title ≢ ""
    → has_prefix title "commit" ≡ false
    → has_prefix title "Merge" ≡ false
    → read_line (cs ++ c ∷ []) title ≡ some (cs ++ set_body title c ∷ [])
unfolding read_line
read_line_title cs c title named other merge =
    ground (arith, eq_iff title "", on_last-append (set_body title) cs c)

module _ (cs : List Commit) (p : Pull) (plain : IsPlain p) where
  -- The four lines of a pull request add its commit.
  read_lines-lines_of :
      (rest : List String)
      → read_lines cs (lines_of p ++ rest) ≡ read_lines (cs ++ commit_of p ∷ []) rest
  unfolding read_lines trim_left trim_right
  read_lines-lines_of rest = rw (
    plain.head_trimmed,
    read_line_head cs p.id,
    plain.merge_trimmed,
    read_line_merge cs blank_commit p.number p.fork,
    read_line_blank (cs ++ set_merge (merge_line p.number p.fork) blank_commit ∷ []),
    plain.title_trimmed,
    read_line_title cs (set_merge (merge_line p.number p.fork) blank_commit) p.title plain.titled
        plain.not_commit plain.not_merge,
  )

read_lines_blank : (cs : List Commit) → read_lines cs ("" ∷ []) ≡ some cs
unfolding read_lines trim_left trim_right read_line strip
read_lines_blank cs = refl

read_lines-all_lines :
    (cs : List Commit) (ps : List Pull)
    → All IsPlain ps
    → read_lines cs (all_lines ps ++ "" ∷ []) ≡ some (cs ++ map commit_of ps)
read_lines-all_lines cs [] h = read_lines_blank cs ∙ ap some (sym (append-nil cs))
read_lines-all_lines cs (p ∷ ps) (plain, h) =
    read_lines-lines_of cs p plain (all_lines ps ++ "" ∷ [])
    ∙ read_lines-all_lines (cs ++ commit_of p ∷ []) ps h
    ∙ ap some (append_assoc cs (commit_of p ∷ []) (map commit_of ps))

all_lines-All :
    (ps : List Pull) → All IsPlain ps → All (λ line. separators newline line ≡ 0) (all_lines ps)
all_lines-All [] h = tt
all_lines-All (p ∷ ps) (plain, h) =
    All-append _ (lines_of p) (all_lines ps) plain.one_line (all_lines-All ps h)

-- From the log of any plain pull requests exactly their merge lines and titles are read, in order.
pub read_commits-log :
    (ps : List Pull) → All IsPlain ps → read_commits (log ps) ≡ some (map commit_of ps)
unfolding read_commits
read_commits-log ps h =
    rw (split-print_lines (all_lines ps) (all_lines-All ps h)) (read_lines-all_lines [] ps h)

-- Where git prints the log of plain pull requests, the tool prints the report of the notes of these,
-- and exits with code 0.
pub run-log :
    (git : Git) (from : String) (ps : List Pull)
    → All IsPlain ps
    → git.rev_list (last_tag git from <> "..HEAD") ≡ (true, log ps)
    → run git from
      ≡ exited 0 (report (last_tag git from) (sort_commits no_merges (map commit_of ps)))
unfolding run
run-log git from ps h printed = ground (arith, read_commits-log ps h)
