-- ===== src/Examples/Notes.antt =====
-- Release notes of a small log, and the theorems at it.
use cluster_stack_provider_o.Base.{String, ◌≡◌, refl, [], ◌∷◌, ◌<>◌, true, false, none, some}
use cluster_stack_provider_o.Base.Split.{split}
use cluster_stack_provider_o.Base.Text.{decimal, join}
use cluster_stack_provider_o.Notes.GoText.{
  is_space, trim_left, trim_right, strip, contains, scan_gap, word,
}
use cluster_stack_provider_o.Notes.Commits.{
  Git, last_tag, on_last, read_line, read_lines, read_commits,
}
use cluster_stack_provider_o.Notes.Sections.{
  proposals, bugs, documentation, classify, scan_pull_request, format_merge, note, add_note,
  sort_commits,
}
use cluster_stack_provider_o.Notes.Report.{
  exited, no_merges, print_lines, print_section, report, run,
}
use cluster_stack_provider_o.Notes.Lines.{Marked, IsMarked, sort_commits-expected}
use cluster_stack_provider_o.Notes.Reading.{is_panic, run_panics}
use cluster_stack_provider_o.Notes.Marks.{classify-mark}
use cluster_stack_provider_o.Notes.RoundTrip.{Pull, commit_of, IsPlain, run-log}

abbrev log : String
log =
    "commit 1f\nMerge pull request #12 from fork/fix\n\n:bug: Mind the gap\ncommit 2e\nMerge pull request #13 from fork/docs\n\n📖 Say more\n"

abbrev git : Git
git = record { describe = some "v1\n"; root = none; rev_list = λ range. (true, log) }

small_run :
    run git ""
    ≡ exited 0
        "Changes since v1\n---\n## :bug: Bug Fixes\n- Mind the gap (#12)\n\n:book: Additionally, there have been 1 contributions to our documentation and book. (#13) \n\n\n_Thanks to all our contributors!_ 😊\n"
unfolding run last_tag read_commits read_lines read_line on_last split is_space trim_left trim_right
    strip contains sort_commits add_note note classify scan_pull_request scan_gap word format_merge
    report print_section print_lines decimal join
small_run = refl

abbrev mind : Pull
mind = record { id = "1f"; number = "#12"; fork = "fork/fix"; title = ":bug: Mind the gap" }

abbrev say : Pull
say = record { id = "2e"; number = "#13"; fork = "fork/docs"; title = "📖 Say more" }

mind-IsPlain : IsPlain mind
unfolding trim_left trim_right is_space strip
mind-IsPlain = record {
  head_trimmed = refl;
  merge_trimmed = refl;
  title_trimmed = refl;
  titled = λ e. cc;
  not_commit = refl;
  not_merge = refl;
  one_line = (refl, (refl, (refl, (refl, tt))));
}

say-IsPlain : IsPlain say
unfolding trim_left trim_right is_space strip
say-IsPlain = record {
  head_trimmed = refl;
  merge_trimmed = refl;
  title_trimmed = refl;
  titled = λ e. cc;
  not_commit = refl;
  not_merge = refl;
  one_line = (refl, (refl, (refl, (refl, tt))));
}

run-log_example :
    run git ""
    ≡ exited 0
        (report (last_tag git "") (sort_commits no_merges (commit_of mind ∷ commit_of say ∷ [])))
unfolding print_lines
run-log_example = run-log git "" (mind ∷ say ∷ []) (mind-IsPlain, (say-IsPlain, tt)) refl

abbrev mind_marked : Marked
mind_marked = record {
  key = bugs;
  as_sign = false;
  title = " Mind the gap";
  number = "#12";
  fork = "fork/fix";
}

abbrev say_marked : Marked
say_marked = record {
  key = documentation;
  as_sign = true;
  title = " Say more";
  number = "#13";
  fork = "fork/docs";
}

mind-IsMarked : IsMarked mind_marked
unfolding trim_left trim_right is_space strip
mind-IsMarked = record {
  marked = refl;
  single = refl;
  trimmed = refl;
  titled = λ e. cc;
  numbered = λ e. cc;
  whole = refl;
}

say-IsMarked : IsMarked say_marked
unfolding trim_left trim_right is_space strip
say-IsMarked = record {
  marked = refl;
  single = refl;
  trimmed = refl;
  titled = λ e. cc;
  numbered = λ e. cc;
  whole = refl;
}

sort_commits-expected_example :
    sort_commits no_merges
      (record { merge = "Merge pull request #12 from fork/fix"; body = ":bug: Mind the gap" }
        ∷ record { merge = "Merge pull request #13 from fork/docs"; body = "📖 Say more" }
        ∷ [])
      bugs
    ≡ "- Mind the gap (#12)" ∷ []
unfolding trim_left trim_right is_space contains strip
sort_commits-expected_example =
    sort_commits-expected (mind_marked ∷ say_marked ∷ []) bugs (mind-IsMarked, (say-IsMarked, tt))

-- A warning of git comes before the log.
abbrev warned : Git
warned = record git { rev_list = λ range. (true, "\nwarning: refname is ambiguous\ncommit 1f\n") }

run_panics_example : is_panic (run warned "") ≡ true
unfolding split trim_left trim_right is_space strip
run_panics_example = run_panics warned "" "\nwarning: refname is ambiguous\ncommit 1f\n" refl

classify-mark_example :
    (classify (":book:" <> " a proposal") ≡ (proposals, " a proposal"))
    × (classify ("📖" <> " a proposal") ≡ (proposals, " a proposal"))
unfolding contains strip
classify-mark_example = classify-mark documentation " a proposal" refl (unfold strip in refl)
