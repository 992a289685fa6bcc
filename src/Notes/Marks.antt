-- ===== src/Notes/Marks.antt =====
-- Which titles go to which section.
use Prim.Native.Char.{code}
use text.Mathlib.TextLemmas.{cons-append}
use cluster_stack_provider_o.Base.{
  String, ◌<>◌, ◌≡◌, refl, Bool, true, false, ◌||◌, none, arith, ◌==◌, if◌then◌else◌,
}
use cluster_stack_provider_o.Notes.GoText.{strip, has_prefix, contains}
use cluster_stack_provider_o.Notes.Sections.{
  Section, proposals, features, bugs, documentation, other, warning, unknown, classify,
}
use cluster_stack_provider_o.Notes.Scan.{strip-append}

-- The two texts differ where both go on.
abbrev clash : String → String → Bool
clash String.[] q = false
clash (String.◌∷◌ c p) String.[] = false
clash (String.◌∷◌ c p) (String.◌∷◌ d q) =
    let rest = clash p q in if code c == code d then rest else true

strip-clash : (p q s : String) → clash p q ≡ true → strip p (q <> s) ≡ none
unfolding strip
strip-clash String.[] q s h = cc
strip-clash (String.◌∷◌ c p) String.[] s h = cc
strip-clash (String.◌∷◌ c p) (String.◌∷◌ d q) s h =
    rw (cons-append d q s) (ground (arith, strip-clash p q s))

-- The name and the sign of a section's mark; two sections have none.
abbrev pub name_of : Section → String
name_of features = ":sparkles:"
name_of bugs = ":bug:"
name_of documentation = ":book:"
name_of other = ":seedling:"
name_of warning = ":warning:"
name_of _ = ""

abbrev pub sign_of : Section → String
sign_of features = "✨"
sign_of bugs = "🐛"
sign_of documentation = "📖"
sign_of other = "🌱"
sign_of warning = "⚠\u{fe0f}"
sign_of _ = ""

abbrev pub has_mark : Section → Bool
has_mark proposals = false
has_mark unknown = false
has_mark _ = true

-- Documentation that is about a proposal goes to the proposals.
abbrev pub placed : Section → String → Section
placed documentation title =
    if contains title "CAEP" || contains title "proposal" then proposals else documentation
placed key title = key

features_name :
    (s : String) → has_prefix s "✨" ≡ false → classify (":sparkles:" <> s) ≡ (placed features s, s)
unfolding classify
features_name s plain =
    ground (arith, strip-append ":sparkles:" s, strip-clash "✨" ":sparkles:" s refl)

features_sign : (s : String) → classify ("✨" <> s) ≡ (placed features s, s)
unfolding classify
features_sign s = ground (arith, strip-append "✨" s, strip-clash ":sparkles:" "✨" s refl)

bugs_name : (s : String) → has_prefix s "🐛" ≡ false → classify (":bug:" <> s) ≡ (placed bugs s, s)
unfolding classify
bugs_name s plain = ground (
  arith,
  strip-append ":bug:" s,
  strip-clash ":sparkles:" ":bug:" s refl,
  strip-clash "✨" ":bug:" s refl,
  strip-clash "🐛" ":bug:" s refl,
)

bugs_sign : (s : String) → classify ("🐛" <> s) ≡ (placed bugs s, s)
unfolding classify
bugs_sign s = ground (
  arith,
  strip-append "🐛" s,
  strip-clash ":sparkles:" "🐛" s refl,
  strip-clash "✨" "🐛" s refl,
  strip-clash ":bug:" "🐛" s refl,
)

documentation_name :
    (s : String) → has_prefix s "📖" ≡ false → classify (":book:" <> s) ≡ (placed documentation s, s)
unfolding classify
documentation_name s plain = ground (
  arith,
  strip-append ":book:" s,
  strip-clash ":sparkles:" ":book:" s refl,
  strip-clash "✨" ":book:" s refl,
  strip-clash ":bug:" ":book:" s refl,
  strip-clash "🐛" ":book:" s refl,
  strip-clash "📖" ":book:" s refl,
)

documentation_sign : (s : String) → classify ("📖" <> s) ≡ (placed documentation s, s)
unfolding classify
documentation_sign s = ground (
  arith,
  strip-append "📖" s,
  strip-clash ":sparkles:" "📖" s refl,
  strip-clash "✨" "📖" s refl,
  strip-clash ":bug:" "📖" s refl,
  strip-clash "🐛" "📖" s refl,
  strip-clash ":book:" "📖" s refl,
)

other_name :
    (s : String) → has_prefix s "🌱" ≡ false → classify (":seedling:" <> s) ≡ (placed other s, s)
unfolding classify
other_name s plain = ground (
  arith,
  strip-append ":seedling:" s,
  strip-clash ":sparkles:" ":seedling:" s refl,
  strip-clash "✨" ":seedling:" s refl,
  strip-clash ":bug:" ":seedling:" s refl,
  strip-clash "🐛" ":seedling:" s refl,
  strip-clash ":book:" ":seedling:" s refl,
  strip-clash "📖" ":seedling:" s refl,
  strip-clash "🌱" ":seedling:" s refl,
)

other_sign : (s : String) → classify ("🌱" <> s) ≡ (placed other s, s)
unfolding classify
other_sign s = ground (
  arith,
  strip-append "🌱" s,
  strip-clash ":sparkles:" "🌱" s refl,
  strip-clash "✨" "🌱" s refl,
  strip-clash ":bug:" "🌱" s refl,
  strip-clash "🐛" "🌱" s refl,
  strip-clash ":book:" "🌱" s refl,
  strip-clash "📖" "🌱" s refl,
  strip-clash ":seedling:" "🌱" s refl,
)

warning_name :
    (s : String)
    → has_prefix s "⚠\u{fe0f}" ≡ false
    → classify (":warning:" <> s) ≡ (placed warning s, s)
unfolding classify
warning_name s plain = ground (
  arith,
  strip-append ":warning:" s,
  strip-clash ":sparkles:" ":warning:" s refl,
  strip-clash "✨" ":warning:" s refl,
  strip-clash ":bug:" ":warning:" s refl,
  strip-clash "🐛" ":warning:" s refl,
  strip-clash ":book:" ":warning:" s refl,
  strip-clash "📖" ":warning:" s refl,
  strip-clash ":seedling:" ":warning:" s refl,
  strip-clash "🌱" ":warning:" s refl,
  strip-clash "⚠\u{fe0f}" ":warning:" s refl,
)

warning_sign : (s : String) → classify ("⚠\u{fe0f}" <> s) ≡ (placed warning s, s)
unfolding classify
warning_sign s = ground (
  arith,
  strip-append "⚠\u{fe0f}" s,
  strip-clash ":sparkles:" "⚠\u{fe0f}" s refl,
  strip-clash "✨" "⚠\u{fe0f}" s refl,
  strip-clash ":bug:" "⚠\u{fe0f}" s refl,
  strip-clash "🐛" "⚠\u{fe0f}" s refl,
  strip-clash ":book:" "⚠\u{fe0f}" s refl,
  strip-clash "📖" "⚠\u{fe0f}" s refl,
  strip-clash ":seedling:" "⚠\u{fe0f}" s refl,
  strip-clash "🌱" "⚠\u{fe0f}" s refl,
  strip-clash ":warning:" "⚠\u{fe0f}" s refl,
)

-- A title with a mark, by its name or by its sign, goes to the section of the mark, and is left
-- without it; after a name the title must not start with the sign of the same mark.
pub classify-mark :
    (key : Section) (title : String)
    → has_mark key ≡ true
    → has_prefix title (sign_of key) ≡ false
    → (classify (name_of key <> title) ≡ (placed key title, title))
      × (classify (sign_of key <> title) ≡ (placed key title, title))
classify-mark features title marked plain = (features_name title plain, features_sign title)
classify-mark bugs title marked plain = (bugs_name title plain, bugs_sign title)
classify-mark documentation title marked plain =
    (documentation_name title plain, documentation_sign title)
classify-mark other title marked plain = (other_name title plain, other_sign title)
classify-mark warning title marked plain = (warning_name title plain, warning_sign title)
classify-mark proposals title marked plain = cc
classify-mark unknown title marked plain = cc
