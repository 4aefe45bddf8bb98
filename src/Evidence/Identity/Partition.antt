-- ===== src/Evidence/Identity/Partition.antt =====
-- What holds of the dictionaries of `_canonical_groups`: every root has a set of claims, all
-- pairwise accepted; a root that has joined another may come back with itself alone.
use ai_researcher.Prelude.{
  ℕ, ◌≤◌, ◌<◌, ◌≡◌, sym, subst, ◌⊎◌, inl, inr, true, Option, some, List, [], ◌∷◌, nat_eq, pair_eq,
  contains, Distinct, lookup, keys,
}
use ai_researcher.Evidence.Identity.{Groups}

-- Both claims are in the set of one root.
pub record IsTogether (g : Groups) (x y : ℕ) : Type 0 where
  pub root : ℕ
  pub set : List ℕ
  pub top : lookup root g.parent ≡ some root
  pub at : lookup root g.members ≡ some set
  pub left : contains set x ≡ true
  pub right : contains set y ≡ true

module _ (accepted : List (ℕ × ℕ)) where
  pub record IsClass (parent : List (ℕ × ℕ)) (r : ℕ) (s : List ℕ) : Type 0 where
    pub top : lookup r parent ≡ some r
    pub own : contains s r ≡ true
    pub least : (x : ℕ) → contains s x ≡ true → r ≤ x
    pub clique :
        (x y : ℕ)
        → contains s x ≡ true
        → contains s y ≡ true
        → x < y
        → contains accepted (x, y) ≡ true
    pub inside : (x : ℕ) → contains s x ≡ true → contains (keys parent) x ≡ true
    pub distinct : Distinct s

-- Of a claim that is no root.
pub record IsLeft (parent : List (ℕ × ℕ)) (r : ℕ) (s : List ℕ) : Type 0 where
  pub sole : s ≡ r ∷ []
  pub up : ℕ
  pub higher : lookup r parent ≡ some up
  pub apart : ¬ (up ≡ r)

pub record IsPartition (accepted : List (ℕ × ℕ)) (g : Groups) : Type 0 where
  pub below : (x p : ℕ) → lookup x g.parent ≡ some p → p ≤ x
  pub rooted : (r : ℕ) → lookup r g.parent ≡ some r → (s : List ℕ) × (lookup r g.members ≡ some s)
  pub owned :
      (r : ℕ) (s : List ℕ)
      → lookup r g.members ≡ some s
      → IsClass accepted g.parent r s ⊎ IsLeft g.parent r s
  pub apart :
      (q r : ℕ) (s t : List ℕ) (x : ℕ)
      → lookup q g.parent ≡ some q
      → lookup q g.members ≡ some s
      → lookup r g.parent ≡ some r
      → lookup r g.members ≡ some t
      → contains s x ≡ true
      → contains t x ≡ true
      → q ≡ r
  pub shared : (x p : ℕ) → lookup x g.parent ≡ some p → IsTogether g x p
  pub once : Distinct (keys g.members)

-- What holds from one state on.
pub record IsLater (g h : Groups) : Type 0 where
  pub together : (x y : ℕ) → IsTogether g x y → IsTogether h x y
  pub tops : (r : ℕ) → lookup r g.parent ≡ some r → lookup r h.parent ≡ some r

pub same_some : {A : Type 0} {a b : A} {o : Option A} → o ≡ some a → o ≡ some b → a ≡ b
same_some h k = cc

pub Together-chain :
    (accepted : List (ℕ × ℕ)) (g : Groups) (x y z : ℕ)
    → IsPartition accepted g
    → IsTogether g x y
    → IsTogether g y z
    → IsTogether g x z
Together-chain accepted g x y z p a b =
    let same = p.apart a.root b.root a.set b.set y a.top a.at b.top b.at a.right b.left in
    let sets : a.set ≡ b.set =
      same_some a.at (subst (λ r. lookup r g.members ≡ some b.set) (sym same) b.at) in
    record {
      root = a.root;
      set = a.set;
      top = a.top;
      at = a.at;
      left = a.left;
      right = subst (λ s. contains s z ≡ true) (sym sets) b.right;
    }

module _ (accepted : List (ℕ × ℕ)) where
  -- The set of a root is a class.
  pub IsPartition-IsClass :
      (g : Groups) (r : ℕ) (s : List ℕ)
      → IsPartition accepted g
      → lookup r g.parent ≡ some r
      → lookup r g.members ≡ some s
      → IsClass accepted g.parent r s
  IsPartition-IsClass g r s p top at = elim (p.owned r s at) [
    | inl c ↦ c
    | inr l ↦ absurd (l.apart (same_some l.higher top))
  ]

  -- A class stays one when the dictionary of parents keeps its root and its claims.
  pub IsClass-keeps :
      (parent later : List (ℕ × ℕ)) (r : ℕ) (s : List ℕ)
      → lookup r later ≡ some r
      → ((x : ℕ) → contains (keys parent) x ≡ true → contains (keys later) x ≡ true)
      → IsClass accepted parent r s
      → IsClass accepted later r s
  IsClass-keeps parent later r s top more c = record {
    top = top;
    own = c.own;
    least = c.least;
    clique = c.clique;
    inside = λ x m. more x (c.inside x m);
    distinct = c.distinct;
  }
