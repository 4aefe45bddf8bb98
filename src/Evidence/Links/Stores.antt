-- ===== src/Evidence/Links/Stores.antt =====
-- Rows of evidence against links.
use ai_researcher.Prelude.{
  ℕ, ◌<◌, ◌≡◌, refl, sym, Bool, true, false, not, List, [], ◌∷◌, nat_eq, string_eq, ◌==◌, beq_self,
  eq_of_beq, contains, Distinct, All, arith,
}
use ai_researcher.Tables.{Stance, supports, refutes, mentions, EvidenceRow}
use ai_researcher.Evidence.Links.{
  ClaimEvidence, EvidenceTable, linked_nodes, stance_equal, bool_equal, is_unchanged, with_values,
}

-- The row says what the link says.
pub record Stores (link : ClaimEvidence) (r : EvidenceRow) : Type 0 where
  pub claim_id : r.claim_id ≡ link.claim_id
  pub tree_node_id : r.tree_node_id ≡ link.tree_node_id
  pub paper_id : r.paper_id ≡ link.paper_id
  pub stance : r.stance ≡ link.stance
  pub rationale_text : r.rationale_text ≡ link.rationale_text
  pub is_direct : r.is_direct ≡ link.is_direct

pub stance_of : (a b : Stance) → stance_equal a b ≡ true → a ≡ b
stance_of supports supports h = refl
stance_of refutes refutes h = refl
stance_of mentions mentions h = refl
stance_of supports refutes h = cc
stance_of supports mentions h = cc
stance_of refutes supports h = cc
stance_of refutes mentions h = cc
stance_of mentions supports h = cc
stance_of mentions refutes h = cc

pub bool_of : (a b : Bool) → bool_equal a b ≡ true → a ≡ b
bool_of true b h = sym h
bool_of false b h = ground arith

pub unchanged-Stores :
    (link : ClaimEvidence) (r : EvidenceRow)
    → is_unchanged link r ≡ true
    → r.claim_id ≡ link.claim_id
    → r.tree_node_id ≡ link.tree_node_id
    → Stores link r
unfolding is_unchanged
unchanged-Stores link r h c n = record {
  claim_id = c;
  tree_node_id = n;
  paper_id = eq_of_beq r.paper_id link.paper_id (ground arith);
  stance = stance_of r.stance link.stance (ground arith);
  rationale_text = eq_of_beq r.rationale_text link.rationale_text (ground arith);
  is_direct = bool_of r.is_direct link.is_direct (ground arith);
}

pub with_values-Stores : (link : ClaimEvidence) (r : EvidenceRow) → Stores link (with_values link r)
with_values-Stores link r = record {
  claim_id = refl;
  tree_node_id = refl;
  paper_id = refl;
  stance = refl;
  rationale_text = refl;
  is_direct = refl;
}

-- The primary key.
abbrev pub row_ids : List EvidenceRow → List ℕ
row_ids [] = []
row_ids (r ∷ rows) = r.id ∷ row_ids rows

pub record IsKeyed (t : EvidenceTable) : Type 0 where
  pub distinct : Distinct (row_ids t.rows)
  pub below : All (λ r. r.id < t.next_id) t.rows

abbrev pub of_other : ℕ → EvidenceRow → Bool
of_other claim_id r = not (r.claim_id == claim_id)

abbrev pub reverse_onto : List ClaimEvidence → List ClaimEvidence → List ClaimEvidence
reverse_onto [] done = done
reverse_onto (l ∷ todo) done = reverse_onto todo (l ∷ done)

pub All_of_reverse :
    (P : ClaimEvidence → Type 0) (todo done : List ClaimEvidence)
    → All P (reverse_onto todo done)
    → All P todo × All P done
All_of_reverse P [] done h = (tt, h)
All_of_reverse P (l ∷ todo) done h =
    let (a, b) = All_of_reverse P todo (l ∷ done) h in ((b.0, a), b.1)

pub apart_node :
    (d l : ClaimEvidence) (todo : List ClaimEvidence)
    → contains (linked_nodes (l ∷ todo)) d.tree_node_id ≡ false
    → ¬ (d.tree_node_id ≡ l.tree_node_id)
apart_node d l todo h q = ground (arith, beq_self l.tree_node_id)
