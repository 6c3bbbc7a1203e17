-- ===== src/Knowledge/Service.antt =====
-- crates/knowledge/src/service.rs: what an index answers is checked as a whole before it is shown.
pub mod Replies
use rust_factory.Common.{
  ℕ, Bool, false, not, ◌||◌, Option, none, some, List, [], ◌∷◌, map, length, Result, ok, refuse,
  ◌>>=◌, ◌>>◌, ltb, same, before,
}
use rust_factory.Knowledge.Validation.{
  KnowledgeError, limit_exceeded, protocol_violation, max_result_text_bytes, checked_add_with_limit,
}
use rust_factory.Knowledge.Model.{
  DocumentId, tenant_ord, namespace_ord, document_ord, SearchRequest, KnowledgeDocument,
  KnowledgeHit, SearchResult, KnowledgeIndex,
}

abbrev pub out_of_scope : SearchRequest → KnowledgeDocument → Bool
out_of_scope request document =
    not (same document.tenant_id request.context.tenant_id)
    || not (same document.namespace request.namespace)

-- `previous_id.is_some_and(|previous| previous >= id)`
abbrev pub out_of_order : Option DocumentId → DocumentId → Bool
out_of_order none id = false
out_of_order (some previous) id = not (before previous id)

-- The loop over the documents.
unfoldable pub check_documents :
    SearchRequest
    → Option DocumentId
    → ℕ
    → List KnowledgeDocument
    → Result KnowledgeError (Unit {0})
unfolding checked_add_with_limit
check_documents request previous_id total_text_bytes [] = ok tt
check_documents request previous_id total_text_bytes (document ∷ documents) = do
  refuse (out_of_scope request document) protocol_violation
  refuse (out_of_order previous_id document.document_id) protocol_violation
  total ← checked_add_with_limit total_text_bytes (length document.text) max_result_text_bytes
  check_documents request (some document.document_id) total documents

abbrev pub project : KnowledgeDocument → KnowledgeHit
project document = record { document_id = document.document_id; text = document.text }

-- `KnowledgeService::search`
unfoldable pub search : KnowledgeIndex → SearchRequest → Result KnowledgeError SearchResult
unfolding check_documents
search index request = do
  documents ← index.search request
  refuse (ltb request.limit.value (length documents)) limit_exceeded
  check_documents request none 0 documents
  ok (record { hits = map project documents })
