-- ===== src/Notes/Commits.antt =====
-- Lines 67 to 122 and 199 to 202: the tag to start from, and the commits in the output of git.
use Prim.Native.Char.{Char}
use mathlib.Core.Option
use cluster_stack_provider_o.Base.{
  String, Bool, Option, none, some, List, [], ◌∷◌, ◌++◌, ◌=s◌, if◌then◌else◌,
}
use cluster_stack_provider_o.Base.Split.{split}
use cluster_stack_provider_o.Notes.GoText.{trim_space, has_prefix}

-- What git prints. A command that fails has no output, but the last one, whose output is read also
-- then.
pub record Git : Type 0 where
  -- `git describe --tags --abbrev=0`
  pub describe : Option String
  -- `git rev-list --max-parents=0 HEAD`
  pub root : Option String
  -- `git rev-list <range> --merges --pretty=format:%B`: whether it succeeds, and its output
  pub rev_list : String → Bool × String

abbrev pub first_commit : Git → String
first_commit git = elim (git.root) [ none ↦ "UNKNOWN" | some out ↦ trim_space out ]

-- The flag `from` comes first, then the last tag, then the first commit.
unfoldable pub last_tag : Git → String → String
last_tag git from =
    if from =s ""
    then elim (git.describe) [ none ↦ first_commit git | some out ↦ trim_space out ]
    else from

pub record Commit : Type 0 where
  pub merge : String
  pub body : String

abbrev pub set_merge : String → Commit → Commit
set_merge line c = record c { merge = line }

abbrev pub set_body : String → Commit → Commit
set_body line c = record c { body = line }

-- An update of the last commit; none stands for the panic of `commits[-1]`.
unfoldable pub on_last : (Commit → Commit) → List Commit → Option (List Commit)
on_last f [] = none
on_last f (c ∷ []) = some (f c ∷ [])
on_last f (c ∷ d ∷ cs) = Option.map (λ rest. c ∷ rest) (on_last f (d ∷ cs))

abbrev pub blank_commit : Commit
blank_commit = record { merge = ""; body = "" }

-- The `switch` on a trimmed line.
unfoldable pub read_line : List Commit → String → Option (List Commit)
read_line commits line =
    if has_prefix line "commit"
    then some (commits ++ blank_commit ∷ [])
    else if has_prefix line "Merge"
    then on_last (set_merge line) commits
    else if line =s ""
    then some commits
    else on_last (set_body line) commits

infixl 5 ◌>>=◌
abbrev pub ◌>>=◌ : {A B : Type 0} → Option A → (A → Option B) → Option B
none >>= f = none
some a >>= f = f a

unfoldable pub read_lines : List Commit → List String → Option (List Commit)
read_lines commits [] = some commits
read_lines commits (line ∷ lines) =
    read_line commits (trim_space line) >>= λ next. read_lines next lines

abbrev pub newline : Char
newline = "\n"

-- The commits of git's output.
unfoldable pub read_commits : String → Option (List Commit)
read_commits out = read_lines [] (split newline out)
