-- ===== src/Evidence/Identity/Roots.antt =====
-- `find`: it ends at the root of the claim, and changes no set.
use ai_researcher.Prelude.{
  ℕ, suc, zero, ◌<◌, ◌≡◌, refl, sym, ap, subst, ◌∙◌, inl, inr, true, false, some, List, nat_eq,
  pair_eq, ◌==◌, beq_self, eq_of_beq, contains, lookup, insert, keys, lookup-insert_cases,
  lookup-insert_self, lookup-insert_other, contains-keys-insert, lookup_of_contains, need, if_ind,
  Yields, returns, Yields-bind, Yields-map, Bool-cases, arith,
}
use ai_researcher.Evidence.Errors.{Error}
use ai_researcher.Evidence.Identity.{Groups, find_root, known, find}
use ai_researcher.Evidence.Identity.Partition.{
  IsTogether, IsPartition, IsLater, same_some, Together-chain, IsClass-keeps, IsPartition-IsClass,
}
use ai_researcher.Evidence.Identity.Known.{known-IsPartition}

abbrev pub IsNever : Error → Type 0
IsNever e = ⊥

-- What is found for a claim in `g`.
pub record IsFound (accepted : List (ℕ × ℕ)) (g : Groups) (i : ℕ) (r : ℕ × Groups) : Type 0 where
  pub part : IsPartition accepted r.1
  pub top : lookup r.0 r.1.parent ≡ some r.0
  pub own : IsTogether r.1 i r.0
  pub later : IsLater g r.1

-- A root is in its own set.
pub Together-root :
    (accepted : List (ℕ × ℕ)) (g : Groups) (r : ℕ)
    → IsPartition accepted g
    → lookup r g.parent ≡ some r
    → IsTogether g r r
Together-root accepted g r p top = p.shared r r top

module _ (accepted : List (ℕ × ℕ)) (members : List (ℕ × List ℕ)) where
  abbrev state : List (ℕ × ℕ) → Groups
  state parent = record { parent = parent; members = members }

  -- A step up of a claim that is no root.
  step-IsPartition :
      (parent : List (ℕ × ℕ)) (i p q : ℕ)
      → lookup i parent ≡ some p
      → (p == i) ≡ false
      → lookup p parent ≡ some q
      → IsPartition accepted (state parent)
      → IsPartition accepted (state (insert i q parent))
        × IsLater (state parent) (state (insert i q parent))
  step-IsPartition parent i p q up apart next h =
      let lower : p < i =
        (let a = h.below i p up in
          let b : ¬ (p ≡ i) = λ e. ground (arith, beq_self i) in omega arith) in
      let least = h.below p q next in
      let tops : (r : ℕ) → lookup r parent ≡ some r → lookup r (insert i q parent) ≡ some r =
        λ r top. elim (Bool-cases (i == r)) [
          | inr other ↦ lookup-insert_other i r q r parent other top
          | inl same ↦
              let e = eq_of_beq i r same in
              let e' : p ≡ r = same_some (subst (λ j. lookup j parent ≡ some p) e up) top in
              absurd (omega arith)
        ] in
      let back : (r : ℕ) → lookup r (insert i q parent) ≡ some r → lookup r parent ≡ some r =
        λ r top. elim (lookup-insert_cases i r q r parent top) [
          | inr other ↦ other.1
          | inl same ↦ let a = same.0 in let b = same.1 in absurd (omega arith)
        ] in
      let more : (x : ℕ)
          → contains (keys parent) x ≡ true
          → contains (keys (insert i q parent)) x ≡ true =
        λ x m. ground (arith, contains-keys-insert i x q parent) in
      let grow : (x y : ℕ)
          → IsTogether (state parent) x y
          → IsTogether (state (insert i q parent)) x y =
        λ x y t. record {
          root = t.root;
          set = t.set;
          top = tops t.root t.top;
          at = t.at;
          left = t.left;
          right = t.right;
        } in
      (
        record {
          below = λ x y e. elim (lookup-insert_cases i x q y parent e) [
            | inl same ↦ let a = same.0 in let b = same.1 in omega arith
            | inr other ↦ h.below x y other.1
          ];
          rooted = λ r top. h.rooted r (back r top);
          owned = λ r s at. elim (h.owned r s at) [
            | inl c ↦
                inl (IsClass-keeps accepted parent (insert i q parent) r s (tops r c.top) more c)
            | inr l ↦ elim (Bool-cases (i == r)) [
              | inr other ↦ inr (record {
                sole = l.sole;
                up = l.up;
                higher = lookup-insert_other i r q l.up parent other l.higher;
                apart = l.apart;
              })
              | inl same ↦
                  let e = eq_of_beq i r same in
                  inr (record {
                    sole = l.sole;
                    up = q;
                    higher =
                        subst (λ j. lookup j (insert i q parent) ≡ some q) e
                          (lookup-insert_self i q parent);
                    apart = λ k. absurd (omega arith);
                  })
            ]
          ];
          apart = λ a b s t x ta aa tb ab m n. h.apart a b s t x (back a ta) aa (back b tb) ab m n;
          shared = λ x y e. elim (lookup-insert_cases i x q y parent e) [
            | inr other ↦ grow x y (h.shared x y other.1)
            | inl same ↦ grow x y (
                subst (λ j. IsTogether (state parent) j y) same.0
                  (subst (λ j. IsTogether (state parent) i j) same.1
                    (Together-chain accepted (state parent) i p q h (h.shared i p up)
                      (h.shared p q next))))
          ];
          once = h.once;
        },
        record { together = grow; tops = tops },
      )

  find_root-IsFound :
      (fuel i : ℕ) (parent : List (ℕ × ℕ))
      → i < fuel
      → contains (keys parent) i ≡ true
      → IsPartition accepted (state parent)
      → Yields IsNever
          (λ r. IsFound accepted (state parent) i (r.0, state r.1))
          (find_root fuel i parent)
  unfolding find_root
  find_root-IsFound zero i parent enough there h = absurd (omega arith)
  find_root-IsFound (suc fuel) i parent enough there h =
      let (p, up) = lookup_of_contains i parent there in
      Yields-bind _ _ (need_found i p parent _ up) λ p' e.
        if_ind (Yields IsNever (λ r. IsFound accepted (state parent) i (r.0, state r.1))) (p' == i)
          (λ same.
            let top : lookup i parent ≡ some i = up ∙ ap some (sym e ∙ eq_of_beq p' i same) in
            returns (record {
              part = h;
              top = top;
              own = h.shared i i top;
              later = record { together = λ x y t. t; tops = λ r t. t };
            }))
          (λ apart.
            let apart' : (p == i) ≡ false = ap (λ j. j == i) (sym e) ∙ apart in
            let shared = h.shared i p up in
            let class =
              IsPartition-IsClass accepted (state parent) shared.root shared.set h shared.top
                shared.at in
            let (q, next) = lookup_of_contains p parent (class.inside p shared.right) in
            Yields-bind _ _ (need_found p' q parent _ (ap (λ j. lookup j parent) e ∙ next)) λ q' k.
              let next' = next ∙ ap some (sym k) in
              let up' = up ∙ ap some (sym e) in
              let moved = step-IsPartition parent i p q' up apart' next' h in
              let lower = h.below i p up in
              let least = h.below p q' next' in
              let strict : ¬ (p ≡ i) = λ j. ground (arith, beq_self i) in
              let step =
                Together-chain accepted (state parent) i p q' h shared (h.shared p q' next') in
              let inner = class_inside parent i q' h step in
              Yields-map
                (λ r f. record {
                  part = f.part;
                  top = f.top;
                  own =
                      Together-chain accepted (state r.1) i q' r.0 f.part
                        (f.later.together i q' (moved.1.together i q' step)) f.own;
                  later = record {
                    together = λ x y t. f.later.together x y (moved.1.together x y t);
                    tops = λ x t. f.later.tops x (moved.1.tops x t);
                  };
                })
                (find_root-IsFound fuel q' (insert i q' parent) (omega arith)
                  (ground (arith, contains-keys-insert i q' q' parent, inner)) moved.0))
    where
      need_found :
          (k v : ℕ) (d : List (ℕ × ℕ)) (e : Error)
          → lookup k d ≡ some v
          → Yields IsNever (λ w. w ≡ v) (need (lookup k d) e)
      need_found k v d e h =
          subst (λ o. Yields IsNever (λ w. w ≡ v) (need o e)) (sym h) (returns refl)

      class_inside :
          (parent : List (ℕ × ℕ)) (i q : ℕ)
          → IsPartition accepted (state parent)
          → IsTogether (state parent) i q
          → contains (keys parent) q ≡ true
      class_inside parent i q h t =
          (IsPartition-IsClass accepted (state parent) t.root t.set h t.top t.at).inside q t.right

-- `find` ends, without a missing key, at the root of the claim.
pub find-IsFound :
    (accepted : List (ℕ × ℕ)) (g : Groups) (i : ℕ)
    → IsPartition accepted g
    → Yields IsNever (IsFound accepted g i) (find i g)
unfolding find
find-IsFound accepted g i h =
    let start = known-IsPartition accepted g i h in
    Yields-bind _ _
      (find_root-IsFound accepted (known i g).members (suc i) i (known i g).parent (omega arith)
        start.1 start.0.0)
      λ r f. returns (record {
        part = f.part;
        top = f.top;
        own = f.own;
        later = record {
          together = λ x y t. f.later.together x y (start.0.1.together x y t);
          tops = λ x t. f.later.tops x (start.0.1.tops x t);
        };
      })
