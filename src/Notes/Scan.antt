-- ===== src/Notes/Scan.antt =====
-- What the scanner makes of the line that GitHub writes for a merged pull request.
use Prim.Native.Char.{Char, code}
use text.Mathlib.TextLemmas.{nil-append, cons-append}
use cluster_stack_provider_o.Base.{
  String, ◌<>◌, ◌≡◌, ◌≢◌, refl, ap, ◌∙◌, Bool, true, not, ◌&&◌, some, arith,
}
use cluster_stack_provider_o.Notes.GoText.{is_space, strip, scan_gap, word}
use cluster_stack_provider_o.Notes.Sections.{scan_pull_request}

pub strip-append : (p s : String) → strip p (p <> s) ≡ some s
unfolding strip
strip-append String.[] s = rw nil-append
strip-append (String.◌∷◌ c p) s = rw cons-append (ground (arith, strip-append p s))

abbrev space : Char
space = " "

-- A text without spaces.
abbrev pub is_word : String → Bool
is_word String.[] = true
is_word (String.◌∷◌ c s) = not (is_space (code c)) && is_word s

space-append : (s : String) → " " <> s ≡ String.◌∷◌ space s
space-append s = cons-append space "" s ∙ ap (String.◌∷◌ space) (nil-append s)

scan_gap_word :
    (w s : String) → w ≢ "" → is_word w ≡ true → scan_gap (" " <> (w <> s)) ≡ some (w <> s)
unfolding scan_gap is_space
scan_gap_word String.[] s h k = absurd (h refl)
scan_gap_word (String.◌∷◌ c w) s h k = rw (cons-append c w s, space-append) (ground arith)

word-append : (w s : String) → is_word w ≡ true → word (w <> (" " <> s)) ≡ w
unfolding word is_space
word-append String.[] s h = rw (space-append s, nil-append)
word-append (String.◌∷◌ c w) s h = rw (cons-append c w (" " <> s)) (ground (arith, word-append w s))

-- The first line of a merge.
abbrev pub merge_line : String → String → String
merge_line number fork =
    "Merge"
    <> (" " <> ("pull" <> (" " <> ("request" <> (" " <> (number <> (" " <> ("from " <> fork))))))))

-- The number of the pull request is found, whatever branch was merged.
pub scan_pull_request-merge_line :
    (number fork : String)
    → number ≢ ""
    → is_word number ≡ true
    → scan_pull_request (merge_line number fork) ≡ number
unfolding scan_pull_request
scan_pull_request-merge_line number fork named whole =
    let after = " " <> ("from " <> fork) in
    let d = number <> after in
    let c = " " <> d in
    let b = " " <> ("request" <> c) in
    let a = " " <> ("pull" <> b) in
    cc (
      strip-append "Merge" a,
      scan_gap_word "pull" b (λ e. cc) (unfold is_space in refl),
      strip-append "pull" b,
      scan_gap_word "request" c (λ e. cc) (unfold is_space in refl),
      strip-append "request" c,
      scan_gap_word number after named whole,
      word-append number ("from " <> fork) whole,
    )
