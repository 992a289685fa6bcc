-- ===== src/ClusterStack/TagLaws.antt =====
-- Which tags are cut, and what is left of them.
use text.Mathlib.TextLemmas.{nil-append, cons-append, append_assoc}
use cluster_stack_provider_o.Base.{
  ℕ, String, ◌<>◌, ◌≡◌, refl, sym, ap, ◌∙◌, ◌⊎◌, ◌||◌, List, [], ◌∷◌, ◌==◌, arith, length,
}
use cluster_stack_provider_o.Runtime.Errors.{is_ok, ok}
use cluster_stack_provider_o.ClusterStack.Tag.{dash, base_of, cut_parts, cut_release_version}
use cluster_stack_provider_o.Base.Split.{
  split, separators, glue, length-split, glue-split, split-append,
}

-- The number of dashes in a text.
abbrev pub dashes : String → ℕ
dashes = separators dash

cut_parts-length :
    (tag : String) (ps : List String)
    → is_ok (cut_parts tag ps) ≡ (length ps == 5 || length ps == 7)
unfolding cut_parts
cut_parts-length tag [] = refl
cut_parts-length tag (_ ∷ []) = refl
cut_parts-length tag (_ ∷ _ ∷ []) = refl
cut_parts-length tag (_ ∷ _ ∷ _ ∷ []) = refl
cut_parts-length tag (_ ∷ _ ∷ _ ∷ _ ∷ []) = refl
cut_parts-length tag (_ ∷ _ ∷ _ ∷ _ ∷ _ ∷ []) = refl
cut_parts-length tag (_ ∷ _ ∷ _ ∷ _ ∷ _ ∷ _ ∷ []) = refl
cut_parts-length tag (_ ∷ _ ∷ _ ∷ _ ∷ _ ∷ _ ∷ _ ∷ []) = refl
cut_parts-length tag (_ ∷ _ ∷ _ ∷ _ ∷ _ ∷ _ ∷ _ ∷ _ ∷ ps) = ground arith

-- A tag is cut exactly if it has four dashes or six; any other tag is an error.
pub cut_release_version-dashes :
    (tag : String) → is_ok (cut_release_version tag) ≡ (dashes tag == 4 || dashes tag == 6)
unfolding cut_release_version
cut_release_version-dashes tag =
    ground (arith, cut_parts-length tag (split dash tag), length-split dash tag)

-- A dash before a text, as a text and as a character.
dash-append : (s : String) → "-" <> s ≡ String.◌∷◌ dash s
dash-append s = cons-append dash "" s ∙ ap (String.◌∷◌ dash) (nil-append s)

glue_base :
    (a b c d e : String) (rest : List String)
    → glue dash (a ∷ b ∷ c ∷ d ∷ e ∷ rest) ≡ base_of a b c d <> ("-" <> glue dash (e ∷ rest))
glue_base a b c d e rest = simp (append_assoc, dash-append, cons-append)

cut_parts-glue :
    (tag : String) (ps : List String) {base : String}
    → cut_parts tag ps ≡ ok base
    → (rest : String) × (glue dash ps ≡ base <> ("-" <> rest))
unfolding cut_parts
cut_parts-glue tag [] h = cc
cut_parts-glue tag (_ ∷ []) h = cc
cut_parts-glue tag (_ ∷ _ ∷ []) h = cc
cut_parts-glue tag (_ ∷ _ ∷ _ ∷ []) h = cc
cut_parts-glue tag (_ ∷ _ ∷ _ ∷ _ ∷ []) h = cc
cut_parts-glue tag (a ∷ b ∷ c ∷ d ∷ e ∷ []) h = (e, cc (glue_base a b c d e []))
cut_parts-glue tag (_ ∷ _ ∷ _ ∷ _ ∷ _ ∷ _ ∷ []) h = cc
cut_parts-glue tag (a ∷ b ∷ c ∷ d ∷ e ∷ f ∷ g ∷ []) h =
    (glue dash (e ∷ f ∷ g ∷ []), cc (glue_base a b c d e (f ∷ g ∷ [])))
cut_parts-glue tag (_ ∷ _ ∷ _ ∷ _ ∷ _ ∷ _ ∷ _ ∷ _ ∷ ps) h = cc

-- What is cut off is a suffix after a dash: the tag is the base, a dash, and the rest.
pub cut_release_version_prefix :
    (tag : String) {base : String}
    → cut_release_version tag ≡ ok base
    → (rest : String) × (tag ≡ base <> ("-" <> rest))
unfolding cut_release_version
cut_release_version_prefix tag h =
    let (rest, e) = cut_parts-glue tag (split dash tag) h in (rest, sym (glue-split dash tag) ∙ e)

split-append_dash : (p s : String) → dashes p ≡ 0 → split dash (p <> ("-" <> s)) ≡ p ∷ split dash s
split-append_dash p s h = rw (dash-append s) (split-append dash p s h)

split-base_of :
    (a b c d version : String)
    → dashes a ≡ 0
    → dashes b ≡ 0
    → dashes c ≡ 0
    → dashes d ≡ 0
    → split dash (base_of a b c d <> ("-" <> version)) ≡ a ∷ b ∷ c ∷ d ∷ split dash version
split-base_of a b c d version ha hb hc hd = simp append_assoc (
    split-append_dash a _ ha
    ∙ ap (λ ps. a ∷ ps) (split-append_dash b _ hb)
    ∙ ap (λ ps. a ∷ b ∷ ps) (split-append_dash c _ hc)
    ∙ ap (λ ps. a ∷ b ∷ c ∷ ps) (split-append_dash d _ hd))

cut_parts_four :
    (tag a b c d : String) (ps : List String)
    → (length ps ≡ 1) ⊎ (length ps ≡ 3)
    → cut_parts tag (a ∷ b ∷ c ∷ d ∷ ps) ≡ ok (base_of a b c d)
unfolding cut_parts
cut_parts_four tag a b c d [] h = absurd (omega arith)
cut_parts_four tag a b c d (_ ∷ []) h = refl
cut_parts_four tag a b c d (_ ∷ _ ∷ []) h = absurd (omega arith)
cut_parts_four tag a b c d (_ ∷ _ ∷ _ ∷ []) h = refl
cut_parts_four tag a b c d (_ ∷ _ ∷ _ ∷ _ ∷ ps) h = absurd (omega arith)

-- Releases that differ only in their version share their base: whatever the version, of one part or
-- of three, it is cut off, and the four parts before it stay.
pub cut_release_version-base_of :
    (a b c d version : String)
    → dashes a ≡ 0
    → dashes b ≡ 0
    → dashes c ≡ 0
    → dashes d ≡ 0
    → (dashes version ≡ 0) ⊎ (dashes version ≡ 2)
    → cut_release_version (base_of a b c d <> ("-" <> version)) ≡ ok (base_of a b c d)
unfolding cut_release_version
cut_release_version-base_of a b c d version ha hb hc hd hv =
    rw (split-base_of a b c d version ha hb hc hd)
      (cut_parts_four _ a b c d (split dash version) (ground (arith, length-split dash version)))
