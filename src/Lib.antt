-- ===== src/Lib.antt =====
-- A model of the core of AI-Researcher (src/ai_researcher), a program that gathers papers on a
-- research topic, turns each into a tree of summarised sections, and answers questions from the
-- trees with citations to pages.
--
-- Parts, and how they interact. A question goes to retrieval, which walks the trees of a
-- shortlist of papers under a budget of nodes and asks a language model which nodes to select and
-- which to expand; its ranked nodes go to the answer, which asks the model for statements that
-- cite those nodes and turns the cited nodes into citations. The papers come from several
-- sources, whose candidates are grouped by identity, and the trees from the sections of the
-- papers, with summaries by the model. Records that the model extracts from a paper are validated
-- against its nodes. Evidence links each extracted claim to passages that a traversal finds, and
-- merges claims that are one; the monitor reports what changed for the subscribed claims and
-- scopes since an instant. No part trusts the model: each validates what the model returns.
--
-- Files and sources.
--   Prelude          shared types, dictionaries, membership, sorting, exceptions as values
--   Text, Json       what the program uses of Python's `str`, and of `json` values
--   Retrieval        src/ai_researcher/retrieval/budget.py and traverse.py: Budget is
--                    ExpansionBudget, Judgement is _validated_judgements, Walk is the loop of
--                    traverse, Traverse the rest of traverse and _finish, Store is load_scope_tree of
--                    PostgresTraversalStore (Places is its order, Loaded its rows)
--   Trees            src/ai_researcher/trees/build.py: Order is _order_sections, _ancestor_ids and
--                    _flattened_parent_id, Summaries is _validated_summaries, Build is build_tree
--                    and _persist_tree, Index is index_scope, with is_stale of
--                    src/ai_researcher/trees/version.py; Shortlist is src/ai_researcher/trees/corpus.py
--   Answer           src/ai_researcher/answer/citation.py and synthesize.py: Citation is
--                    render_citation, Statements is _validated_statements, Synthesize is synthesize
--   Ask              ask_corpus_tool of src/ai_researcher/mcp/server.py, which calls traverse and
--                    synthesize, as the command ask of src/ai_researcher/cli.py does
--   Scoping          src/ai_researcher/scoping/__init__.py and dialogue.py: Terms is ScopeDefinition,
--                    _unique_nonempty and _append_term, Dialogue is run_dialogue
--                    and _validated_proposal; Estimate is src/ai_researcher/scoping/estimate.py
--   Tables           the tables of src/ai_researcher/db/models.py that the other files read and write
--   Evidence         src/ai_researcher/evidence: Links is link.py (Quotes is _validated_links;
--                    Stores, Saving, Saved and Keyed are save_links; Linking is link_evidence, Tallying
--                    link_scope_evidence), Identity is identity.py (Partition, Known, Roots,
--                    Joining, Merging and Cliques are _canonical_groups; Moving and Saving are
--                    save_canonical_groups; Canonicalize is canonicalize)
--   Extraction       src/ai_researcher/extraction/validate.py: Payload is _coerce_records, Anchored
--                    is validate_batch, Attempts is validate_llm_output
--   Ingest           src/ai_researcher/ingest/dedup.py: Dedup, and Grouped for resolve_identity
--   Monitor          src/ai_researcher/monitor: Changes is changes.py (Flips is _stance_flips; Buckets,
--                    Histories and Movements are _score_movements), Subscriptions subscription.py
--   Migrations       src/ai_researcher/db/migrate.py: Sequence is discover_migrations, Once migrate
--
-- How the code is read. A function that raises returns a Result; exceptions are constructors of a
-- type Error for each part, with the exceptions that the code should never meet (a missing key)
-- among them, so that the theorems can rule them out. `Yields X P r` says that `r` is a value with
-- the property P or an exception that X admits. Local variables that a loop changes are the fields
-- of a record; a dictionary is an association list in insertion order; a set is a list.
--
-- Tables. A table is a list of rows, a statement a function on it, and a transaction that fails
-- returns an exception and no table. Identifiers, instants and scores are numbers. What a deletion
-- cascades to in other tables is not modelled.
--
-- Parameters. The model gateway is a function of what the code sends, and of the number of calls
-- made before where a function calls it often; `none` is an exception that it raises. The
-- shortlist, the stored trees of a traversal, the lookup of a paper, the answers of the user and the estimate of
-- a scope in a dialogue are functions too; the searches that an estimate counts, the files of
-- migrations and the database that executes them are arguments. `str.casefold`, NFKC
-- normalisation and the character classes are tables of the Unicode database, and parameters.
-- `json.loads`, `int` of a text and pydantic's `model_validate` are parameters of the validation
-- of extracted records, with the hypothesis that a text that is read from the text of JSON is
-- shorter than that. `json.loads` yields a value, a JSONDecodeError or the plain ValueError for an
-- integer of too many digits; the RecursionError for very deep nesting is left out.
--
-- Fuel. The loop of traverse takes one unit of fuel a round, and gets one more than the budget;
-- every round opens at least one node. The loop of _order_sections gets one more than the number
-- of sections; every pass but the last places at least one. The chain of ancestors gets one more
-- than the number of sections too, as a section has fewer ancestors than there are sections.
-- `find` gets one more than the identifier of its claim, as a parent is a smaller claim.
-- _coerce_records gets two more than the length of a text, as it holds only shorter texts.
-- Running out of fuel is an exception of its own, out_of_fuel.
--
-- Not modelled: the joins of SQL whose rows the models take as arguments, the prefilter of
-- claims, which compares floating-point numbers, HTTP, files, logging, threads, the text of
-- prompts, and the parts of the program that consist of these.
pub mod Answer
pub mod Ask
pub mod Evidence
pub mod Extraction
pub mod Ingest
pub mod Json
pub mod Migrations
pub mod Monitor
pub mod Prelude
pub mod Retrieval
pub mod Scoping
pub mod Tables
pub mod Text
pub mod Trees
