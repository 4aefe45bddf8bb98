-- ===== src/Ask/Sourced.antt =====
-- Where the citations of a result come from, through both parts.
use mathlib.Core.List.{Mem}
use ai_researcher.Prelude.{
  ℕ, suc, ◌≡◌, refl, sym, ap, ◌∙◌, ◌⊎◌, inl, inr, String, true, false, Option, none, some, List, [],
  ◌∷◌, ◌≤◌, subst, map, All, All-Exists, is_empty, contains, nat_eq, Result, ok, err, Yields,
  returns, raises, Yields-ok,
}
use ai_researcher.Json.{Value}
use ai_researcher.Retrieval.Errors.{Error as RetrievalError}
use ai_researcher.Retrieval.Outcomes.{IsReported}
use ai_researcher.Retrieval.Walk.{TraversalNode}
use ai_researcher.Retrieval.Traverse.{RankedNode, TraversalResult, TraceRow, Services, traverse}
use ai_researcher.Retrieval.Traverse.Ranking.{IsPassage}
use ai_researcher.Retrieval.Traverse.Outcome.{IsLoaded}
use ai_researcher.Retrieval.Traverse.Guarantees.{
  traverse-openings, traverse-within_budget, traverse_failure,
}
use ai_researcher.Answer.Errors.{Error as AnswerError}
use ai_researcher.Answer.Citation.{CitationPaper, Citation, render_citation}
use ai_researcher.Answer.Citation.Openable.{Identifies, render_citation-IsOpenable}
use ai_researcher.Answer.Synthesize.{
  Answer, Payload, has_real_page_range, real_range, is_budget_exhausted,
}
use ai_researcher.Answer.Synthesize.Grounding.{
  IsOutside, IsRefusal, IsGrounded, node_ids_of, Cites, IsCitable, IsAnswer, synthesize-IsAnswer,
}
use ai_researcher.Text.{join_with}
use ai_researcher.Answer.Statements.{Statement, render_statement}
use ai_researcher.Answer.Statements.Attribution.{IsAttributed}
use ai_researcher.Ask.{
  AskError, retrieving, answering, CitationRecord, AskCorpusResult, citation_records, ask_result,
  reported, synthesized, ask_corpus_tool,
}

module _ (paper_lookup : ℕ → Result AnswerError CitationPaper) (nodes : List TraversalNode) where
  -- The record shows the passage of a node of the trees, with pages that exist, and names the paper
  -- of the node by its title and an identifier.
  pub record IsSource (c : CitationRecord) : Type 0 where
    pub node : TraversalNode
    pub of_tree : Mem node nodes
    pub passage :
        (c.node_id ≡ node.id) × (c.paper_id ≡ node.paper_id) × (c.section_path ≡ node.section_path)
    pub pages : (c.page_start ≡ node.page_start) × (c.page_end ≡ node.page_end)
    pub paged : real_range c.page_start c.page_end ≡ true
    pub paper : CitationPaper
    pub found : paper_lookup node.paper_id ≡ ok paper
    pub named : (c.paper_title ≡ paper.title) × Identifies paper c.identifier_type c.identifier

  module _ (result : TraversalResult) (copies : All (IsPassage nodes) result.ranked_nodes) where
    record-IsSource :
        (number : ℕ) (s : RankedNode) (c : Citation) (cs : List Citation)
        → render_citation paper_lookup s ≡ ok c
        → IsCitable result s
        → All IsSource (citation_records (suc number) cs)
        → All IsSource (citation_records number (c ∷ cs))
    unfolding citation_records has_real_page_range
    record-IsSource number s c cs cited (paged, retrieved) rest =
        let o = Yields-ok (render_citation-IsOpenable paper_lookup s) cited in
        let (n, member, p) = All-Exists (IsPassage nodes) result.ranked_nodes s copies retrieved in
        (
          record {
            node = n;
            of_tree = member;
            passage =
                (o.passage.0 ∙ p.same_id, o.passage.1 ∙ p.same_paper, o.passage.2 ∙ p.same_path);
            pages = (o.pages.0 ∙ p.same_pages.0, o.pages.1 ∙ p.same_pages.1);
            paged = rw (o.pages.0, o.pages.1) paged;
            paper = o.paper;
            found = ap paper_lookup (sym p.same_paper) ∙ o.found;
            named = (o.title, o.identified);
          },
          rest,
        )

    records-AreSources :
        (number : ℕ) (sources : List RankedNode) (cs : List Citation)
        → Cites (render_citation paper_lookup) sources cs
        → All (IsCitable result) sources
        → All IsSource (citation_records number cs)
    unfolding citation_records
    records-AreSources number [] [] h k = tt
    records-AreSources number [] (c ∷ cs) h k = absurd h
    records-AreSources number (s ∷ sources) [] h k = absurd h
    records-AreSources number (s ∷ sources) (c ∷ cs) h k =
        record-IsSource number s c cs h.0 k.0 (records-AreSources (suc number) sources cs h.1 k.1)

abbrev pub AreNumbered : ℕ → List CitationRecord → Type 0
AreNumbered n [] = Unit
AreNumbered n (c ∷ cs) = (c.number ≡ n) × AreNumbered (suc n) cs

records-AreNumbered : (n : ℕ) (cs : List Citation) → AreNumbered n (citation_records n cs)
unfolding citation_records
records-AreNumbered n [] = tt
records-AreNumbered n (c ∷ cs) = (refl, records-AreNumbered (suc n) cs)

-- A statement that names a node leaves a citation.
cited_some :
    (cite_node : RankedNode → Result AnswerError Citation) (statements : List Statement)
    (sources : List RankedNode) (cs : List Citation) (n : ℕ)
    → is_empty statements ≡ false
    → All (IsAttributed (node_ids_of sources)) statements
    → Cites cite_node sources cs
    → is_empty (citation_records n cs) ≡ false
unfolding citation_records
cited_some cite_node [] sources cs n h k c = cc
cited_some cite_node (s ∷ statements) sources (x ∷ cs) n h k c = refl
cited_some cite_node (s ∷ statements) (r ∷ sources) [] n h k c = absurd c
cited_some cite_node (s ∷ statements) [] [] n h k c = go s.node_ids k.0.cites k.0.allowed
  where
    go :
        (ids : List ℕ)
        → is_empty ids ≡ false
        → All (λ i. contains {A = ℕ} [] i ≡ true) ids
        → is_empty (citation_records n []) ≡ false
    go [] e a = cc
    go (i ∷ ids) e a = cc

-- A refusal has a reason and nothing else; an answer has a text and at least one citation.
abbrev pub IsReply : AskCorpusResult → Type 0
IsReply r =
    ((r.answer ≡ none)
      × (r.citations ≡ [])
      × (r.insufficient_evidence ≡ true)
      × ((reason : String) × (r.message ≡ some reason)))
    ⊎ ((text : String) × (r.answer ≡ some text)
        × (is_empty r.citations ≡ false)
        × (r.insufficient_evidence ≡ false))

module _ (services : Services) (call_model : Payload → Option Value)
    (paper_lookup : ℕ → Result AnswerError CitationPaper) (question scope : String) (max_nodes : ℕ)
    (store : List TraceRow) where
  -- The exceptions of the two parts that come from outside.
  pub data IsAskFault : AskError → Type 0 where
    no_retrieval : {e : RetrievalError} → IsReported e → IsAskFault (retrieving e)
    no_answer :
        {e : AnswerError} → IsOutside (render_citation paper_lookup) e → IsAskFault (answering e)

  pub record IsSourced (r : AskCorpusResult) : Type 0 where
    pub nodes : List TraversalNode
    pub loaded : IsLoaded services question scope nodes
    pub sources : All (IsSource paper_lookup nodes) r.citations
    pub numbered : AreNumbered 1 r.citations
    pub reply : IsReply r
    pub limited : r.budget_limited ≡ is_budget_exhausted r.trace.stopped_reason
    pub within : r.trace.nodes_expanded ≤ max_nodes

  module _ (result : TraversalResult)
      (returned : (traverse services question scope max_nodes store).0 ≡ ok result) where
    -- Both kinds of answer: what the citations rest on, and what else the result says.
    replied :
        (nodes : List TraversalNode) (a : Answer)
        → All (IsPassage nodes) result.ranked_nodes
        → IsRefusal a ⊎ IsGrounded (render_citation paper_lookup) result a
        → All (IsSource paper_lookup nodes) (citation_records 1 a.citations)
          × IsReply (ask_result result.trace a)
    unfolding ask_result citation_records
    replied nodes a copies (inl h) =
        let bare = ap (citation_records 1) h.bare in
        (
          subst (All (IsSource paper_lookup nodes)) (sym bare) tt,
          inl (h.silent, bare, h.marked, (h.reason, h.explained)),
        )
    replied nodes a copies (inr h) = (
      records-AreSources paper_lookup nodes result copies 1 h.sources a.citations h.cited h.citable,
      inr (
        join_with "\n" (map render_statement h.statements),
        h.text,
        cited_some (render_citation paper_lookup) h.statements h.sources a.citations 1 h.said
            h.attributed h.cited,
        h.sufficient,
      ),
    )

    answer-IsSourced :
        (a : Answer)
        → IsAnswer (render_citation paper_lookup) result a
        → IsSourced (ask_result result.trace a)
    unfolding ask_result
    answer-IsSourced a h =
        let (nodes, loaded, _, copies) =
          traverse-openings services question scope max_nodes store result returned in
        let (sources, reply) = replied nodes a copies h.outcome in
        record {
          nodes = nodes;
          loaded = loaded;
          sources = sources;
          numbered = records-AreNumbered 1 a.citations;
          reply = reply;
          limited = h.limited;
          within =
              (traverse-within_budget services question scope max_nodes store result returned).0;
        }

    reported-IsSourced :
        (r : Result AnswerError Answer)
        → Yields
            (IsOutside (render_citation paper_lookup))
            (IsAnswer (render_citation paper_lookup) result)
            r
        → Yields IsAskFault IsSourced (reported result.trace r)
    reported-IsSourced (ok a) (returns h) = returns (answer-IsSourced a h)
    reported-IsSourced (err e) (raises x) = raises (no_answer x)

  -- A result shows at most `max_nodes` opened nodes, and is an answer with at least one citation or
  -- a refusal with its reason and none. The citations are numbered from 1, and each is the passage,
  -- with pages that exist, of a node in the stored trees of the proposed papers, under the title
  -- and an identifier of that node's own paper. The tool raises only what comes from outside or
  -- what the traversal reports.
  pub ask_corpus_tool-IsSourced : Yields IsAskFault IsSourced (
      (ask_corpus_tool services call_model
        (render_citation paper_lookup)
        question
        scope
        max_nodes
        store).0)
  unfolding ask_corpus_tool
  ask_corpus_tool-IsSourced = go (traverse services question scope max_nodes store).0 refl
    where
      go :
          (r : Result RetrievalError TraversalResult)
          → (traverse services question scope max_nodes store).0 ≡ r
          → Yields IsAskFault IsSourced
              (synthesized services call_model (render_citation paper_lookup) question scope r)
      go (ok result) q =
          reported-IsSourced result q _
            (synthesize-IsAnswer call_model (render_citation paper_lookup) question result)
      go (err e) q =
          raises (no_retrieval (traverse_failure services question scope max_nodes store e q).0)
