-- ===== src/Notes/Sorting.antt =====
-- The sorted notes against a specification: a filter by section.
use mathlib.Core.Path.{fun_ext}
use mathlib.Core.List.{append_assoc, append-nil}
use cluster_stack_provider_o.Base.{
  ℕ, ◌+◌, String, ◌≡◌, refl, sym, ◌∙◌, ap, Bool, Option, none, some, List, [], ◌∷◌, ◌++◌, map,
  length, keep, arith, Bool-cases, inl, inr,
}
use cluster_stack_provider_o.Notes.Commits.{Commit}
use cluster_stack_provider_o.Notes.Sections.{
  Section, proposals, is_section, note, Merges, add_note, sort_commits,
}
use cluster_stack_provider_o.Notes.Report.{output_order, no_merges}

-- The notes of all commits that have one, in their order.
abbrev gather : Option (Section × String) → List (Section × String) → List (Section × String)
gather none ns = ns
gather (some n) ns = n ∷ ns

abbrev pub notes : List Commit → List (Section × String)
notes [] = []
notes (c ∷ cs) = gather (note c) (notes cs)

abbrev line : Section × String → String
line (key, text) = text

abbrev is_in : Section → Section × String → Bool
is_in k (key, text) = is_section key k

-- The lines of one section.
abbrev pub lines_of : Section → List (Section × String) → List String
lines_of k ns = map line (keep (is_in k) ns)

add_note-gather :
    (merges : Merges) (n : Option (Section × String)) (ns : List (Section × String)) (k : Section)
    → add_note merges n k ++ lines_of k ns ≡ merges k ++ lines_of k (gather n ns)
unfolding add_note
add_note-gather merges none ns k = refl
add_note-gather merges (some (key, text)) ns k = elim (Bool-cases (is_section key k)) [
  | inl same ↦ rw same (append_assoc (merges k) (text ∷ []) _)
  | inr other ↦ rw other
]

sort_commits-notes_onto :
    (merges : Merges) (cs : List Commit) (k : Section)
    → sort_commits merges cs k ≡ merges k ++ lines_of k (notes cs)
unfolding sort_commits
sort_commits-notes_onto merges [] k = sym (append-nil (merges k))
sort_commits-notes_onto merges (c ∷ cs) k =
    sort_commits-notes_onto (add_note merges (note c)) cs k
    ∙ add_note-gather merges (note c) (notes cs) k

-- The loop over any commits, by what is noted of each.
pub sort_commits-notes :
    (cs : List Commit) (k : Section) → sort_commits no_merges cs k ≡ lines_of k (notes cs)
sort_commits-notes cs k = sort_commits-notes_onto no_merges cs k

-- The number of lines in the given sections.
abbrev pub total : Merges → List Section → ℕ
total merges [] = 0
total merges (k ∷ ks) = length (merges k) + total merges ks

total_lines : (ns : List (Section × String)) → total (λ k. lines_of k ns) output_order ≡ length ns
total_lines [] = omega arith
total_lines ((proposals, text) ∷ ns) = omega (arith, total_lines ns)
total_lines ((key, text) ∷ ns) = omega (arith, total_lines ns)

-- Nothing is lost and nothing is printed twice: over the sections of the output there are as many
-- lines as commits with a title.
pub total-sort_commits :
    (cs : List Commit) → total (sort_commits no_merges cs) output_order ≡ length (notes cs)
total-sort_commits cs =
    ap (λ merges. total merges output_order) (fun_ext (sort_commits-notes cs))
    ∙ total_lines (notes cs)
