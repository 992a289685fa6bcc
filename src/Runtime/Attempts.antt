-- ===== src/Runtime/Attempts.antt =====
-- Attempts to make things that each have a key, and that no thing is made twice.
use cluster_stack_provider_o.Base.{◌≡◌, sym, subst, Bool, true, List, [], ◌∷◌}

pub record Attempt (K : Type 0) : Type 0 where
  pub key : K
  pub fine : Bool

module _ {K : Type 0} (Same : K → K → Type 0) where
  -- A thing with this key, or one that is the same, was made.
  pub data HasMade (k : K) : List (Attempt K) → Type 0 where
    last :
        {before : List (Attempt K)} (a : Attempt K)
        → Same a.key k
        → a.fine ≡ true
        → HasMade k (a ∷ before)
    earlier :
        {before : List (Attempt K)} (a : Attempt K) → HasMade k before → HasMade k (a ∷ before)

  -- The attempts, the latest first: none was for a thing that was there.
  pub data IsSingle : List (Attempt K) → Type 0 where
    none_yet : IsSingle []
    then_new :
        {before : List (Attempt K)} (a : Attempt K)
        → ¬ HasMade a.key before
        → IsSingle before
        → IsSingle (a ∷ before)

-- From some attempts to more, each of them for a key that was looked up just before.
pub data Grows {K : Type 0} (IsFree : List (Attempt K) → K → Type 0) (before : List (Attempt K))
    : List (Attempt K) → Type 0 where
  no_more : Grows IsFree before before
  one_more :
      {between : List (Attempt K)} (k : K) (fine : Bool)
      → Grows IsFree before between
      → IsFree between k
      → Grows IsFree before (record { key = k; fine = fine } ∷ between)

module _ {K : Type 0} (IsFree : List (Attempt K) → K → Type 0) where
  pub Grows-trans :
      {a b c : List (Attempt K)} → Grows IsFree a b → Grows IsFree b c → Grows IsFree a c
  Grows-trans first no_more = first
  Grows-trans first (one_more k fine then free) = one_more k fine (Grows-trans first then) free

  pub Grows-same : {a b : List (Attempt K)} → b ≡ a → Grows IsFree a b
  Grows-same {a} same = subst (Grows IsFree a) (sym same) no_more

  -- Where only things are looked up as free that are not there, no thing is made twice.
  pub Grows-IsSingle :
      (Same : K → K → Type 0)
      → ((l : List (Attempt K)) (k : K) → IsFree l k → ¬ HasMade Same k l)
      → {a b : List (Attempt K)} → Grows IsFree a b
      → IsSingle Same a
      → IsSingle Same b
  Grows-IsSingle Same lawful no_more single = single
  Grows-IsSingle Same lawful (one_more {between} k fine grown free) single =
      then_new (record { key = k; fine = fine }) (lawful between k free)
        (Grows-IsSingle Same lawful grown single)
