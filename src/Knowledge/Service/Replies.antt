-- ===== src/Knowledge/Service/Replies.antt =====
-- The answers that `KnowledgeService::search` of crates/knowledge/src/service.rs lets through.
use rust_factory.Common.{
  ℕ, ◌+◌, ◌≤◌, ◌<◌, ◌≡◌, ◌↔◌, Option, none, some, List, [], ◌∷◌, map, lt, length, refl,
  Result-cases, inl, inr, ok, err, arith, same_iff, nat_ord, list_ord,
}
use rust_factory.Knowledge.Validation.{
  limit_exceeded, max_result_text_bytes, checked_add_with_limit,
}
use rust_factory.Knowledge.Model.{
  DocumentId, tenant_ord, namespace_ord, document_ord, SearchRequest, KnowledgeDocument,
  SearchResult, KnowledgeIndex,
}
use rust_factory.Knowledge.Service.{check_documents, project, search}

abbrev pub text_total : List KnowledgeDocument → ℕ
text_total [] = 0
text_total (document ∷ documents) = length document.text + text_total documents

-- The documents belong to the request, and their identifiers ascend strictly from `previous`.
abbrev pub After : Option DocumentId → DocumentId → Type 0
After none id = Unit
After (some previous) id = document_ord.cmp previous id ≡ lt

abbrev pub IsOrdered : SearchRequest → Option DocumentId → List KnowledgeDocument → Type 0
IsOrdered request previous [] = Unit
IsOrdered request previous (document ∷ documents) =
    (document.tenant_id ≡ request.context.tenant_id)
    × (document.namespace ≡ request.namespace)
    × After previous document.document_id
    × IsOrdered request (some document.document_id) documents

pub record IsReply (request : SearchRequest) (documents : List KnowledgeDocument) : Type 0 where
  pub short : length documents ≤ request.limit.value
  pub ordered : IsOrdered request none documents
  pub small : text_total documents ≤ max_result_text_bytes

check_sound :
    (request : SearchRequest) (documents : List KnowledgeDocument) (previous : Option DocumentId)
    (total : ℕ)
    → total ≤ max_result_text_bytes
    → check_documents request previous total documents ≡ ok tt
    → IsOrdered request previous documents × (total + text_total documents ≤ max_result_text_bytes)
unfolding check_documents checked_add_with_limit
check_sound request [] previous total fits h = (tt, omega arith)
check_sound request (d ∷ ds) none total fits h = ground (
  arith,
  same_iff d.tenant_id request.context.tenant_id,
  same_iff d.namespace request.namespace,
  check_sound request ds (some d.document_id) (total + length d.text),
)
check_sound request (d ∷ ds) (some p) total fits h = ground (
  arith,
  same_iff d.tenant_id request.context.tenant_id,
  same_iff d.namespace request.namespace,
  check_sound request ds (some d.document_id) (total + length d.text),
)

pub check_complete :
    (request : SearchRequest) (documents : List KnowledgeDocument) (previous : Option DocumentId)
    (total : ℕ)
    → IsOrdered request previous documents
    → total + text_total documents ≤ max_result_text_bytes
    → check_documents request previous total documents ≡ ok tt
unfolding check_documents checked_add_with_limit
check_complete request [] previous total o fits = refl
check_complete request (d ∷ ds) none total (t, n, a, o) fits = ground (
  arith,
  same_iff d.tenant_id request.context.tenant_id,
  same_iff d.namespace request.namespace,
  check_complete request ds (some d.document_id) (total + length d.text) o,
)
check_complete request (d ∷ ds) (some p) total (t, n, a, o) fits = ground (
  arith,
  same_iff d.tenant_id request.context.tenant_id,
  same_iff d.namespace request.namespace,
  check_complete request ds (some d.document_id) (total + length d.text) o,
)

search_ok :
    (index : KnowledgeIndex) (request : SearchRequest) (result : SearchResult)
    → search index request ≡ ok result
    → (documents : List KnowledgeDocument) × (index.search request ≡ ok documents)
      × IsReply request documents
      × (result.hits ≡ map project documents)
unfolding search
search_ok index request result h = elim (Result-cases (index.search request)) [
  | inl (documents, e) ↦ (
    documents,
    e,
    record {
      short = ground arith;
      ordered = ground (arith, check_sound request documents none 0);
      small = ground (arith, check_sound request documents none 0);
    },
    ground arith,
  )
  | inr (x, e) ↦ absurd (ground arith)
]

ok_search :
    (index : KnowledgeIndex) (request : SearchRequest) (result : SearchResult)
    (documents : List KnowledgeDocument)
    → index.search request ≡ ok documents
    → IsReply request documents
    → result.hits ≡ map project documents
    → search index request ≡ ok result
unfolding search
ok_search index request result documents e reply hits =
    ground (arith, reply.short, check_complete request documents none 0 reply.ordered, reply.small)

-- Whatever an index answers, `search` of the service succeeds exactly if the index answered
-- documents that are at most as many as the limit, all of the request's tenant and namespace, in
-- strictly ascending order of their identifiers and of at most 64 KiB of text together; the
-- result's hits are then the projections of these documents.
pub search_exact :
    (index : KnowledgeIndex) (request : SearchRequest) (result : SearchResult)
    → (search index request ≡ ok result) ↔ (
        (documents : List KnowledgeDocument) × (index.search request ≡ ok documents)
        × IsReply request documents
        × (result.hits ≡ map project documents))
search_exact index request result = (
  search_ok index request result,
  λ found.
      let (documents, e, reply, hits) = found in
      ok_search index request result documents e reply hits,
)

-- In order, the loop refuses nothing but too much text.
pub check_excess :
    (request : SearchRequest) (documents : List KnowledgeDocument) (previous : Option DocumentId)
    (total : ℕ)
    → IsOrdered request previous documents
    → max_result_text_bytes < total + text_total documents
    → total ≤ max_result_text_bytes
    → check_documents request previous total documents ≡ err limit_exceeded
unfolding check_documents checked_add_with_limit
check_excess request [] previous total o fits small = absurd (omega arith)
check_excess request (d ∷ ds) none total (t, n, a, o) fits small = ground (
  arith,
  same_iff d.tenant_id request.context.tenant_id,
  same_iff d.namespace request.namespace,
  check_excess request ds (some d.document_id) (total + length d.text) o,
)
check_excess request (d ∷ ds) (some p) total (t, n, a, o) fits small = ground (
  arith,
  same_iff d.tenant_id request.context.tenant_id,
  same_iff d.namespace request.namespace,
  check_excess request ds (some d.document_id) (total + length d.text) o,
)
