-- ===== src/Notes/Reading.antt =====
-- Which outputs of git are read without a panic.
use cluster_stack_provider_o.Base.{
  String, ◌<>◌, ◌≡◌, ap, sym, refl, ◌∙◌, Bool, true, false, not, inl, inr, Option, none, some, List,
  [], ◌∷◌, ◌++◌, ◌=s◌, Bool-cases, if◌then◌else◌,
}
use cluster_stack_provider_o.Base.Split.{split}
use cluster_stack_provider_o.Notes.GoText.{trim_space, has_prefix}
use cluster_stack_provider_o.Notes.Commits.{
  Git, last_tag, Commit, set_merge, set_body, on_last, read_line, read_lines, read_commits, newline,
  blank_commit,
}
use cluster_stack_provider_o.Notes.Report.{Ending, panicked, exited, tell, run}

-- The first line that is not blank starts with "commit", or all are blank.
abbrev pub begins : List String → Bool
begins [] = true
begins (line ∷ lines) =
    let rest = begins lines in
    let text = trim_space line in
    if has_prefix text "commit"
    then true
    else if has_prefix text "Merge"
    then false
    else if text =s ""
    then rest
    else false

-- Some commits, and at least one.
abbrev Grows : Option (List Commit) → Type 0
Grows r = (c : Commit) × (cs : List Commit) × (r ≡ some (c ∷ cs))

on_last-Grows : (f : Commit → Commit) (c : Commit) (cs : List Commit) → Grows (on_last f (c ∷ cs))
unfolding on_last
on_last-Grows f c [] = (f c, [], refl)
on_last-Grows f c (d ∷ cs) = let (e, es, same) = on_last-Grows f d cs in (c, e ∷ es, rw same)

read_line-Grows : (c : Commit) (cs : List Commit) (line : String) → Grows (read_line (c ∷ cs) line)
unfolding read_line
read_line-Grows c cs line = elim (Bool-cases (has_prefix line "commit")) [
  | inl e ↦ (c, cs ++ blank_commit ∷ [], rw e)
  | inr e ↦ elim (Bool-cases (has_prefix line "Merge")) [
    | inl e₁ ↦ let (d, ds, same) = on_last-Grows (set_merge line) c cs in (d, ds, rw (e, e₁) same)
    | inr e₁ ↦ elim (Bool-cases (line =s "")) [
      | inl e₂ ↦ (c, cs, rw (e, e₁, e₂))
      | inr e₂ ↦
          let (d, ds, same) = on_last-Grows (set_body line) c cs in (d, ds, rw (e, e₁, e₂) same)
    ]
  ]
]

read_lines_total :
    (c : Commit) (cs : List Commit) (lines : List String)
    → (r : List Commit) × (read_lines (c ∷ cs) lines ≡ some r)
unfolding read_lines
read_lines_total c cs [] = (_, refl)
read_lines_total c cs (line ∷ lines) =
    let (d, ds, same) = read_line-Grows c cs (trim_space line) in
    let (r, done) = read_lines_total d ds lines in (r, rw same done)

abbrev pub is_some {ℓ} : {A : Type ℓ} → Option A → Bool
is_some none = false
is_some (some a) = true

is_some-read_lines : (lines : List String) → is_some (read_lines [] lines) ≡ begins lines
unfolding read_lines read_line on_last
is_some-read_lines [] = refl
is_some-read_lines (line ∷ lines) =
    let text = trim_space line in
    elim (Bool-cases (has_prefix text "commit")) [
      | inl e ↦ let (r, done) = read_lines_total blank_commit [] lines in rw (e, done)
      | inr e ↦ elim (Bool-cases (has_prefix text "Merge")) [
        | inl e₁ ↦ rw (e, e₁)
        | inr e₁ ↦ elim (Bool-cases (text =s "")) [
          | inl e₂ ↦ rw (e, e₁, e₂) (is_some-read_lines lines)
          | inr e₂ ↦ rw (e, e₁, e₂)
        ]
      ]
    ]

abbrev pub is_panic : Ending → Bool
is_panic panicked = true
is_panic (exited code out) = false

-- Where git prints its log, the tool panics exactly if some line of the log is not blank and the
-- first such line does not start with "commit".
pub run_panics :
    (git : Git) (from out : String)
    → git.rev_list (last_tag git from <> "..HEAD") ≡ (true, out)
    → is_panic (run git from) ≡ not (begins (split newline out))
unfolding run read_commits
run_panics git from out printed = rw printed (go (read_lines [] (split newline out)) refl)
  where
    go :
        (t : Option (List Commit))
        → read_lines [] (split newline out) ≡ t
        → is_panic (tell (last_tag git from) t) ≡ not (begins (split newline out))
    go none e = sym (ap not (sym (is_some-read_lines (split newline out)) ∙ ap is_some e))
    go (some cs) e = sym (ap not (sym (is_some-read_lines (split newline out)) ∙ ap is_some e))
