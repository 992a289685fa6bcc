-- ===== src/Base/Split.antt =====
-- `strings.Split` at a separator of one character, and what it has to do with joining.
use Prim.Native.Char.{Char, code}
use Prim.Native.Nat.{ℕ, suc}
use Prim.Native.String.{String, ◌++◌ as ◌<>◌}
use mathlib.Core.Path.{◌≡◌, refl, ap, ◌∙◌}
use mathlib.Core.Logic.{◌≢◌, inl, inr}
use mathlib.Core.List.{List, [], ◌∷◌}
use native.Mathlib.Omega.{arith}
use text.Mathlib.TextLemmas.{nil-append, cons-append}
use text.Mathlib.TextEquality.{Char-path}
use cluster_stack_provider_o.Base.Tests.{◌==◌, if◌then◌else◌, Bool-cases}
use cluster_stack_provider_o.Base.Lists.{length}

-- The character belongs to the first part.
abbrev pub extend : Char → List String → List String
extend c [] = String.◌∷◌ c "" ∷ []
extend c (p ∷ ps) = String.◌∷◌ c p ∷ ps

length-extend : (c : Char) (ps : List String) → ps ≢ [] → length (extend c ps) ≡ length ps
length-extend c [] h = absurd (h refl)
length-extend c (p ∷ ps) h = refl

extend-ne-nil : (c : Char) (ps : List String) → extend c ps ≢ []
extend-ne-nil c [] h = cc
extend-ne-nil c (p ∷ ps) h = cc

module _ (sep : Char) where
  unfoldable pub split : String → List String
  split String.[] = "" ∷ []
  split (String.◌∷◌ c s) =
      let rest = split s in if code c == code sep then "" ∷ rest else extend c rest

  -- The number of separators in a text.
  abbrev pub separators : String → ℕ
  separators String.[] = 0
  separators (String.◌∷◌ c s) =
      let rest = separators s in if code c == code sep then suc rest else rest

  -- The parts with separators between them.
  abbrev pub glue : List String → String
  glue [] = ""
  glue (p ∷ []) = p
  glue (p ∷ q ∷ qs) = p <> String.◌∷◌ sep (glue (q ∷ qs))

  pub split-ne-nil : (s : String) → split s ≢ []
  unfolding split
  split-ne-nil String.[] h = cc
  split-ne-nil (String.◌∷◌ c s) h = ground (arith, extend-ne-nil c (split s))

  pub length-split : (s : String) → length (split s) ≡ suc (separators s)
  unfolding split
  length-split String.[] = refl
  length-split (String.◌∷◌ c s) =
      ground (arith, length-extend c (split s) (split-ne-nil s), length-split s)

  glue-extend :
      (c : Char) (ps : List String) → ps ≢ [] → glue (extend c ps) ≡ String.◌∷◌ c (glue ps)
  glue-extend c [] h = absurd (h refl)
  glue-extend c (p ∷ []) h = refl
  glue-extend c (p ∷ q ∷ qs) h = cons-append c p _

  glue-nil-cons : (ps : List String) → ps ≢ [] → glue ("" ∷ ps) ≡ String.◌∷◌ sep (glue ps)
  glue-nil-cons [] h = absurd (h refl)
  glue-nil-cons (p ∷ ps) h = nil-append _

  split-cons :
      (c : Char) (s : String)
      → split (String.◌∷◌ c s) ≡ (if code c == code sep then "" ∷ split s else extend c (split s))
  unfolding split
  split-cons c s = refl

  -- Nothing is lost: the parts joined again are the text.
  pub glue-split : (s : String) → glue (split s) ≡ s
  glue-split String.[] = unfold split in refl
  glue-split (String.◌∷◌ c s) = elim (Bool-cases (code c == code sep)) [
    | inl e ↦
        rw (split-cons c s, e)
          (glue-nil-cons _ (split-ne-nil s)
            ∙ ap (String.◌∷◌ sep) (glue-split s)
            ∙ ap (λ d. String.◌∷◌ d s) (Char-path sep c (ground arith)))
    | inr e ↦
        rw (split-cons c s, e) (glue-extend c _ (split-ne-nil s) ∙ ap (String.◌∷◌ c) (glue-split s))
  ]

  -- A first part without separators is split off.
  pub split-append : (p s : String) → separators p ≡ 0 → split (p <> String.◌∷◌ sep s) ≡ p ∷ split s
  split-append String.[] s h = rw (nil-append, split-cons) (ground arith)
  split-append (String.◌∷◌ c p) s h =
      rw (cons-append c p _, split-cons c _) (ground (arith, split-append p s))

  -- A text without separators is one part.
  pub split_one : (p : String) → separators p ≡ 0 → split p ≡ p ∷ []
  split_one String.[] h = unfold split in refl
  split_one (String.◌∷◌ c p) h = rw (split-cons c p) (ground (arith, split_one p))
