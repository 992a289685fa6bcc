-- ===== src/Notes/Lines.antt =====
-- Which line each merged pull request with a marked title gives, and in which section.
use cluster_stack_provider_o.Base.{
  String, ◌<>◌, ◌≡◌, ◌≢◌, refl, ap, ◌∙◌, Bool, true, false, Bool-cases, inl, inr, some, List, [],
  ◌∷◌, map, All, arith, eq_iff, if◌then◌else◌,
}
use cluster_stack_provider_o.Notes.GoText.{trim_space, has_prefix}
use cluster_stack_provider_o.Notes.Commits.{Commit}
use cluster_stack_provider_o.Notes.Sections.{
  Section, documentation, classify, format_merge, line_of, note, sort_commits,
}
use cluster_stack_provider_o.Notes.Report.{no_merges}
use cluster_stack_provider_o.Notes.Scan.{is_word, merge_line, scan_pull_request-merge_line}
use cluster_stack_provider_o.Notes.Marks.{name_of, sign_of, has_mark, placed, classify-mark}
use cluster_stack_provider_o.Notes.Sorting.{notes, lines_of, sort_commits-notes}

-- A merged pull request whose title starts with the mark of a section, as a name or as a sign.
pub record Marked : Type 0 where
  pub key : Section
  pub as_sign : Bool
  pub title : String
  pub number : String
  pub fork : String

abbrev pub mark_of : Marked → String
mark_of p = if p.as_sign then sign_of p.key else name_of p.key

abbrev pub commit_of : Marked → Commit
commit_of p = record { merge = merge_line p.number p.fork; body = mark_of p <> p.title }

-- The section has a mark, the title is not blank and does not start with the sign of the mark again,
-- nothing is to be trimmed off the whole, and the number is one word.
pub record IsMarked (p : Marked) : Type 0 where
  pub marked : has_mark p.key ≡ true
  pub single : has_prefix p.title (sign_of p.key) ≡ false
  pub trimmed : trim_space (mark_of p <> p.title) ≡ mark_of p <> p.title
  pub titled : trim_space p.title ≢ ""
  pub numbered : p.number ≢ ""
  pub whole : is_word p.number ≡ true

-- Documentation gives the number alone; everything else a list item of title and number.
abbrev pub item : Section → String → String → String
item documentation title number = number
item _ title number = ("- " <> title) <> (" (" <> (number <> ")"))

abbrev pub expected : Marked → Section × String
expected p = (placed p.key p.title, item (placed p.key p.title) (trim_space p.title) p.number)

line_of-item :
    (key : Section) (title number : String)
    → number ≢ ""
    → line_of key title number ≡ item key title number
unfolding format_merge
line_of-item documentation title number named = refl
line_of-item key title number named = ground (arith, eq_iff number "")

classify_marked :
    (p : Marked) → IsMarked p → classify (mark_of p <> p.title) ≡ (placed p.key p.title, p.title)
classify_marked p m = elim (Bool-cases p.as_sign) [
  | inl e ↦ rw e (classify-mark p.key p.title m.marked m.single).1
  | inr e ↦ rw e (classify-mark p.key p.title m.marked m.single).0
]

note-expected : (p : Marked) → IsMarked p → note (commit_of p) ≡ some (expected p)
unfolding note
note-expected p m =
    rw
      (
        m.trimmed,
        classify_marked p m,
        scan_pull_request-merge_line p.number p.fork m.numbered m.whole,
      )
      (ground (
        arith,
        eq_iff (trim_space p.title) "",
        m.titled,
        line_of-item (placed p.key p.title) (trim_space p.title) p.number m.numbered,
      ))

notes-expected : (ps : List Marked) → All IsMarked ps → notes (map commit_of ps) ≡ map expected ps
notes-expected [] h = refl
notes-expected (p ∷ ps) (m, h) = rw (note-expected p m, notes-expected ps h) refl

-- The loop over the commits of any merged pull requests with marked titles puts into each section,
-- in their order, exactly the lines of those whose mark is that of the section, where documentation
-- that mentions a proposal goes to the proposals: a list item of the title, without the mark and
-- the spaces around it, and the number of the pull request, and the number alone for the documentation.
pub sort_commits-expected :
    (ps : List Marked) (k : Section)
    → All IsMarked ps
    → sort_commits no_merges (map commit_of ps) k ≡ lines_of k (map expected ps)
sort_commits-expected ps k h =
    sort_commits-notes (map commit_of ps) k ∙ ap (lines_of k) (notes-expected ps h)
