-- ===== src/ClusterStack/Tag.antt =====
-- `cutOpenStackClusterStackReleaseVersionFromReleaseTag`, over `strings.Split(tag, "-")`.
use Prim.Native.Char.{Char}
use cluster_stack_provider_o.Base.{String, ◌<>◌, List, [], ◌∷◌}
use cluster_stack_provider_o.Base.Split.{split}
use cluster_stack_provider_o.Runtime.Errors.{Try, ok, err, plain}

abbrev pub dash : Char
dash = "-"

-- `fmt.Sprintf("%s-%s-%s-%s", a, b, c, d)`
abbrev pub base_of : String → String → String → String → String
base_of a b c d = a <> ("-" <> (b <> ("-" <> (c <> ("-" <> d)))))

-- Five parts or seven: the first four are kept.
unfoldable pub cut_parts : String → List String → Try String
cut_parts tag (a ∷ b ∷ c ∷ d ∷ _ ∷ []) = ok (base_of a b c d)
cut_parts tag (a ∷ b ∷ c ∷ d ∷ _ ∷ _ ∷ _ ∷ []) = ok (base_of a b c d)
cut_parts tag _ = err (plain ("invalid release tag " <> tag))

unfoldable pub cut_release_version : String → Try String
cut_release_version tag = cut_parts tag (split dash tag)
