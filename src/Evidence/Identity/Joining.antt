-- ===== src/Evidence/Identity/Joining.antt =====
-- The groups of two roots become one if all their pairs are accepted.
use ai_researcher.Prelude.{
  ℕ, min, ◌<◌, ◌≡◌, refl, sym, ap, subst, ◌∙◌, ◌⊎◌, inl, inr, Bool, true, false, ◌||◌, Option, none,
  some, List, [], ◌∷◌, nat_eq, pair_eq, ◌==◌, beq_self, eq_of_beq, contains, every, every-contains,
  lookup, insert, remove, keys, lookup-insert_cases, lookup-insert_self, lookup-insert_other,
  lookup-remove, Distinct-remove, Distinct-insert, contains-keys-insert, need, Yields, returns,
  Bool-cases, arith,
}
use ai_researcher.Answer.Statements.{fromkeys}
use ai_researcher.Answer.Statements.Attribution.{Distinct-fromkeys, contains-fromkeys}
use ai_researcher.Evidence.Errors.{Error}
use ai_researcher.Evidence.Identity.{Groups, max, pair_of, all_accepted}
use ai_researcher.Evidence.Identity.Partition.{
  IsTogether, IsClass, IsPartition, same_some, IsClass-keeps, IsPartition-IsClass,
}
use ai_researcher.Evidence.Identity.Roots.{IsNever}

pub need_value :
    {A : Type 0} (o : Option A) (v : A) (e : Error)
    → o ≡ some v
    → Yields IsNever (λ w. w ≡ v) (need o e)
need_value o v e h = subst (λ o. Yields IsNever (λ w. w ≡ v) (need o e)) (sym h) (returns refl)

-- Every pair of the two sets is accepted.
abbrev pub AreAccepted : List (ℕ × ℕ) → List ℕ → List ℕ → Type 0
AreAccepted accepted s t =
    (x y : ℕ) → contains s x ≡ true → contains t y ≡ true → contains accepted (pair_of x y) ≡ true

-- Claims in the two groups that are not accepted as one.
pub record IsBlocked (accepted : List (ℕ × ℕ)) (g : Groups) (x y : ℕ) : Type 0 where
  pub one : ℕ
  pub other : ℕ
  pub left : IsTogether g x one
  pub right : IsTogether g y other
  pub different : contains accepted (pair_of one other) ≡ false

abbrev pub IsDecided : List (ℕ × ℕ) → Groups → ℕ → ℕ → Type 0
IsDecided accepted g x y = IsTogether g x y ⊎ IsBlocked accepted g x y

module _ (accepted : List (ℕ × ℕ)) where
  pub all_accepted-AreAccepted :
      (s t : List ℕ) → all_accepted accepted s t ≡ true → AreAccepted accepted s t
  unfolding all_accepted
  all_accepted-AreAccepted s t h x y m n =
      every-contains (λ r. contains accepted (pair_of x r)) t y
        (every-contains (λ l. every (λ r. contains accepted (pair_of l r)) t) s x h m) n

  every-false :
      (test : ℕ → Bool) (xs : List ℕ)
      → every test xs ≡ false
      → (x : ℕ) × (contains xs x ≡ true) × (test x ≡ false)
  every-false test [] h = cc
  every-false test (x ∷ xs) h = elim (Bool-cases (test x)) [
    | inr bad ↦ (x, ground (arith, beq_self x), bad)
    | inl good ↦ let (y, m, q) = every-false test xs (ground arith) in (y, ground arith, q)
  ]

  pub all_accepted-false :
      (s t : List ℕ)
      → all_accepted accepted s t ≡ false
      → (x : ℕ) × (y : ℕ) × (contains s x ≡ true)
        × (contains t y ≡ true)
        × (contains accepted (pair_of x y) ≡ false)
  unfolding all_accepted
  all_accepted-false s t h =
      let (x, m, q) = every-false (λ l. every (λ r. contains accepted (pair_of l r)) t) s h in
      let (y, n, k) = every-false (λ r. contains accepted (pair_of x r)) t q in (x, y, m, n, k)

  pub ordered_pair : (x y : ℕ) → x < y → pair_of x y ≡ (x, y)
  ordered_pair x y l =
      let a : min x y ≡ x = omega arith in let b : max x y ≡ y = ground arith in rw (a, b) refl

  pub pair_comm : (x y : ℕ) → pair_of x y ≡ pair_of y x
  pair_comm x y =
      let a : min x y ≡ min y x = omega arith in
      let b : max x y ≡ max y x = ground arith in
      ap (λ m. (m, max x y)) a ∙ ap (λ n. (min y x, n)) b

  module _ (g : Groups) (new old : ℕ) (s t : List ℕ) where
    abbrev pub joined : Groups
    joined = record {
      parent = insert old new g.parent;
      members = insert new (fromkeys s t) (remove old g.members);
    }

    -- The root `old` joins the root `new`.
    pub joined-IsPartition :
        new < old
        → lookup new g.parent ≡ some new
        → lookup old g.parent ≡ some old
        → lookup new g.members ≡ some s
        → lookup old g.members ≡ some t
        → AreAccepted accepted s t
        → IsPartition accepted g
        → IsPartition accepted joined
          × (((x y : ℕ) → IsTogether g x y → IsTogether joined x y) × IsTogether joined new old)
    joined-IsPartition less tn to an ao cross h =
        let cn = IsPartition-IsClass accepted g new s h tn an in
        let co = IsPartition-IsClass accepted g old t h to ao in
        let apart : (old == new) ≡ false = ground arith in
        let kept : (x : ℕ) → contains s x ≡ true → contains (fromkeys s t) x ≡ true =
          λ x m. ground (arith, contains-fromkeys s t x) in
        let moved : (x : ℕ) → contains t x ≡ true → contains (fromkeys s t) x ≡ true =
          λ x m. ground (arith, contains-fromkeys s t x) in
        let either : (x : ℕ)
            → contains (fromkeys s t) x ≡ true
            → (contains s x ≡ true) ⊎ (contains t x ≡ true) =
          λ x m. split s t x (sym (contains-fromkeys s t x) ∙ m) in
        let top : lookup new joined.parent ≡ some new =
          lookup-insert_other old new new new g.parent apart tn in
        let at : lookup new joined.members ≡ some (fromkeys s t) =
          lookup-insert_self new (fromkeys s t) (remove old g.members) in
        let more : (x : ℕ)
            → contains (keys g.parent) x ≡ true
            → contains (keys joined.parent) x ≡ true =
          λ x m. ground (arith, contains-keys-insert old x new g.parent) in
        let tops : (r p : ℕ)
            → (old == r) ≡ false
            → lookup r g.parent ≡ some p
            → lookup r joined.parent ≡ some p =
          λ r p q k. lookup-insert_other old r new p g.parent q k in
        let back : (r : ℕ)
            → lookup r joined.parent ≡ some r
            → ((old == r) ≡ false) × (lookup r g.parent ≡ some r) =
          λ r k. elim (lookup-insert_cases old r new r g.parent k) [
            | inl same ↦ let a = same.0 in let b = same.1 in absurd (omega arith)
            | inr other ↦ other
          ] in
        let gone : (r : ℕ) (u : List ℕ)
            → lookup r (remove old g.members) ≡ some u
            → ((old == r) ≡ false) × (lookup r g.members ≡ some u) =
          λ r u k. removed r u k in
        let stays : (r : ℕ) (u : List ℕ)
            → (new == r) ≡ false
            → (old == r) ≡ false
            → lookup r g.members ≡ some u
            → lookup r joined.members ≡ some u =
          λ r u a b k.
            lookup-insert_other new r (fromkeys s t) u (remove old g.members) a
              (lookup-remove old r g.members ∙ rw b k) in
        let grow : (x y : ℕ) → IsTogether g x y → IsTogether joined x y = λ x y w.
          elim (Bool-cases (old == w.root)) [
            | inl same ↦
                let set : w.set ≡ t =
                  same_some w.at
                    (subst (λ j. lookup j g.members ≡ some t) (eq_of_beq old w.root same) ao) in
                record {
                  root = new;
                  set = fromkeys s t;
                  top = top;
                  at = at;
                  left = moved x (subst (λ u. contains u x ≡ true) set w.left);
                  right = moved y (subst (λ u. contains u y ≡ true) set w.right);
                }
            | inr other ↦ elim (Bool-cases (new == w.root)) [
              | inl same ↦
                  let set : w.set ≡ s =
                    same_some w.at
                      (subst (λ j. lookup j g.members ≡ some s) (eq_of_beq new w.root same) an) in
                  record {
                    root = new;
                    set = fromkeys s t;
                    top = top;
                    at = at;
                    left = kept x (subst (λ u. contains u x ≡ true) set w.left);
                    right = kept y (subst (λ u. contains u y ≡ true) set w.right);
                  }
              | inr third ↦ record {
                root = w.root;
                set = w.set;
                top = tops w.root w.root other w.top;
                at = stays w.root w.set third other w.at;
                left = w.left;
                right = w.right;
              }
            ]
          ] in
        let link : IsTogether joined old new = record {
          root = new;
          set = fromkeys s t;
          top = top;
          at = at;
          left = moved old co.own;
          right = kept new cn.own;
        } in
        let class : IsClass accepted joined.parent new (fromkeys s t) = record {
          top = top;
          own = kept new cn.own;
          least = λ x m. elim (either x m) [
            | inl k ↦ cn.least x k
            | inr k ↦ let l = co.least x k in omega arith
          ];
          clique = λ x y m n l. elim (either x m) [
            | inl p ↦ elim (either y n) [
              | inl q ↦ cn.clique x y p q l
              | inr q ↦ subst (λ e. contains accepted e ≡ true) (ordered_pair x y l) (cross x y p q)
            ]
            | inr p ↦ elim (either y n) [
              | inl q ↦
                  subst (λ e. contains accepted e ≡ true) (pair_comm y x ∙ ordered_pair x y l)
                    (cross y x q p)
              | inr q ↦ co.clique x y p q l
            ]
          ];
          inside = λ x m. elim (either x m) [
            | inl k ↦ more x (cn.inside x k)
            | inr k ↦ more x (co.inside x k)
          ];
          distinct = Distinct-fromkeys s t cn.distinct;
        } in
        let part : IsPartition accepted joined = record {
          below = λ x p e. elim (lookup-insert_cases old x new p g.parent e) [
            | inl same ↦ let a = same.0 in let b = same.1 in omega arith
            | inr other ↦ h.below x p other.1
          ];
          rooted = λ r e.
              let (apart, k) = back r e in
              elim (Bool-cases (new == r)) [
                | inl same ↦ (
                  fromkeys s t,
                  subst (λ j. lookup j joined.members ≡ some (fromkeys s t)) (eq_of_beq new r same)
                      at,
                )
                | inr other ↦ let (u, a) = h.rooted r k in (u, stays r u other apart a)
              ];
          owned = λ r u e.
              elim (lookup-insert_cases new r (fromkeys s t) u (remove old g.members) e) [
                | inl same ↦ inl (
                    subst (λ v. IsClass accepted joined.parent r v) same.1
                      (subst (λ j. IsClass accepted joined.parent j (fromkeys s t)) same.0 class))
                | inr other ↦
                    let (apart, a) = gone r u other.1 in
                    elim (h.owned r u a) [
                      | inl c ↦ inl (
                          IsClass-keeps accepted g.parent joined.parent r u (tops r r apart c.top)
                            more c)
                      | inr l ↦ inr (record {
                        sole = l.sole;
                        up = l.up;
                        higher = tops r l.up apart l.higher;
                        apart = l.apart;
                      })
                    ]
              ];
          apart = λ q r u v x tq aq tr ar m n.
              let (oq, kq) = back q tq in
              let (or, kr) = back r tr in
              elim (lookup-insert_cases new q (fromkeys s t) u (remove old g.members) aq) [
                | inl a ↦
                    elim (lookup-insert_cases new r (fromkeys s t) v (remove old g.members) ar) [
                      | inl b ↦ sym a.0 ∙ b.0
                      | inr b ↦ absurd (
                          stranger h tn to an ao r v x kr (gone r v b.1).1 b.0 or n
                            (either x (subst (λ w. contains w x ≡ true) (sym a.1) m)))
                    ]
                | inr a ↦
                    elim (lookup-insert_cases new r (fromkeys s t) v (remove old g.members) ar) [
                      | inl b ↦ absurd (
                          stranger h tn to an ao q u x kq (gone q u a.1).1 a.0 oq m
                            (either x (subst (λ w. contains w x ≡ true) (sym b.1) n)))
                      | inr b ↦ h.apart q r u v x kq (gone q u a.1).1 kr (gone r v b.1).1 m n
                    ]
              ];
          shared = λ x p e. elim (lookup-insert_cases old x new p g.parent e) [
            | inl same ↦
                subst (λ j. IsTogether joined j p) same.0
                  (subst (λ j. IsTogether joined old j) same.1 link)
            | inr other ↦ grow x p (h.shared x p other.1)
          ];
          once =
              Distinct-insert new (fromkeys s t) (remove old g.members)
                (Distinct-remove old g.members h.once);
        } in
        (
          part,
          (
            grow,
            record {
              root = new;
              set = fromkeys s t;
              top = top;
              at = at;
              left = kept new cn.own;
              right = moved old co.own;
            },
          ),
        )
      where
        split :
            (s t : List ℕ) (x : ℕ)
            → (contains s x || contains t x) ≡ true
            → (contains s x ≡ true) ⊎ (contains t x ≡ true)
        split s t x m = elim (Bool-cases (contains s x)) [
          | inl k ↦ inl k
          | inr k ↦ inr (ground arith)
        ]

        removed :
            (r : ℕ) (u : List ℕ)
            → lookup r (remove old g.members) ≡ some u
            → ((old == r) ≡ false) × (lookup r g.members ≡ some u)
        removed r u k = elim (Bool-cases (old == r)) [
          | inl same ↦
              let no : lookup r (remove old g.members) ≡ none =
                lookup-remove old r g.members ∙ rw same refl in
              cc (sym k ∙ no)
          | inr other ↦
              let on : lookup r (remove old g.members) ≡ lookup r g.members =
                lookup-remove old r g.members ∙ rw other refl in
              (other, sym on ∙ k)
        ]

        stranger :
            IsPartition accepted g
            → lookup new g.parent ≡ some new
            → lookup old g.parent ≡ some old
            → lookup new g.members ≡ some s
            → lookup old g.members ≡ some t
            → (r : ℕ) (u : List ℕ) (x : ℕ) → lookup r g.parent ≡ some r
            → lookup r g.members ≡ some u
            → (new == r) ≡ false
            → (old == r) ≡ false
            → contains u x ≡ true
            → (contains s x ≡ true) ⊎ (contains t x ≡ true)
            → ⊥
        stranger h tn to an ao r u x top at other other' m e = elim e [
          | inl k ↦ (let q = h.apart new r s u x tn an top at k m in ground (arith, beq_self r))
          | inr k ↦ (let q = h.apart old r t u x to ao top at k m in ground (arith, beq_self r))
        ]
