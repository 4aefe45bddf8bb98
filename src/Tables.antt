-- ===== src/Tables.antt =====
-- The tables of src/ai_researcher/db/models.py that the modelled parts read and write. An instant
-- and a date are numbers, and the checks on a column's values are the column's type.
use ai_researcher.Prelude.{ℕ, String, Bool, true, false, Option, nat_eq}

-- `ck_claim_evidence_stance`
pub data Stance : Type 0 where
  supports refutes mentions : Stance

abbrev pub is_refuting : Stance → Bool
is_refuting refutes = true
is_refuting _ = false

-- `ck_subscription_kind`
pub data Kind : Type 0 where
  topic claim : Kind

pub record PaperRow : Type 0 where
  pub id : ℕ
  pub doi : Option String
  pub arxiv_id : Option String
  pub openalex_id : Option String
  pub s2_id : Option String
  pub title : String
  pub abstract : Option String
  pub published_at : Option ℕ
  pub venue : Option String
  pub is_preprint : Bool
  pub oa_status : Option String
  pub pdf_path : Option String
  pub tei_xml : Option String
  pub parse_status : String
  pub parse_error : Option String
  pub created_at : ℕ

pub record PaperScopeRow : Type 0 where
  pub paper_id : ℕ
  pub scope_id : ℕ

pub record SectionRow : Type 0 where
  pub id : ℕ
  pub paper_id : ℕ
  pub parent_id : Option ℕ
  pub section_path : String
  pub title : Option String
  pub ordinal : ℕ
  pub page_start : Option ℕ
  pub page_end : Option ℕ
  pub char_start : Option ℕ
  pub char_end : Option ℕ
  pub body_text : String

pub record EvidenceRow : Type 0 where
  pub id : ℕ
  pub claim_id : ℕ
  pub tree_node_id : ℕ
  pub paper_id : ℕ
  pub stance : Stance
  pub rationale_text : String
  pub is_direct : Bool
  pub created_at : ℕ

pub record ScoreRow : Type 0 where
  pub id : ℕ
  pub claim_id : ℕ
  pub confidence : ℕ
  pub evidence_quality : ℕ
  pub rubric_version : String
  pub scored_at : ℕ

pub record MentionRow : Type 0 where
  pub id : ℕ
  pub discourse_item_id : ℕ
  pub paper_id : ℕ
  pub resolved_by : String
  pub created_at : ℕ

pub record SubscriptionRow : Type 0 where
  pub id : ℕ
  pub kind : Kind
  pub scope_id : Option ℕ
  pub claim_id : Option ℕ
  pub created_at : ℕ
  pub active : Bool

-- `object_value` is a column of the type `Float`, which is a parameter.
pub record ClaimRow (Real : Type 0) : Type 0 where
  pub id : ℕ
  pub paper_id : ℕ
  pub tree_node_id : ℕ
  pub claim_text : String
  pub normalized_text : String
  pub claim_type : String
  pub subject : Option String
  pub predicate : Option String
  pub object_value : Option Real
  pub unit : Option String
  pub canonical_claim_id : Option ℕ
  pub identity_checked_at : Option ℕ
  pub extraction_model : String
  pub prompt_version : String
  pub created_at : ℕ
