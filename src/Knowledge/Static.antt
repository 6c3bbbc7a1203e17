-- ===== src/Knowledge/Static.antt =====
-- crates/knowledge/src/static.rs: the index over a configured corpus.
pub mod Corpus
pub mod Answers
pub mod Membership
use mathlib.Core.Option
use rust_factory.Common.{
  ℕ, Bool, true, false, ◌&&◌, ◌||◌, Option, none, some, List, [], ◌∷◌, map, Bytes, length, take,
  keep_if, text_contains, Result, ok, err, refuse, ◌>>=◌, ◌>>◌, ltb, ◌==◌, same, pair_ord,
}
use rust_factory.TreeMap.{Map, get, insert}
use rust_factory.Knowledge.Validation.{
  KnowledgeError, invalid_request, limit_exceeded, max_static_documents, max_static_text_bytes,
  checked_add_with_limit,
}
use rust_factory.Knowledge.Model.{
  TenantId, NamespaceId, DocumentId, tenant_ord, namespace_ord, document_ord, SearchRequest,
  KnowledgeDocument, KnowledgeIndex,
}

abbrev pub ScopedDocumentId : Type 0
ScopedDocumentId = TenantId × (NamespaceId × DocumentId)

abbrev pub scoped_id : KnowledgeDocument → ScopedDocumentId
scoped_id document = (document.tenant_id, (document.namespace, document.document_id))

pub record StaticKnowledgeIndex : Type 0 where
  pub documents : Map ScopedDocumentId KnowledgeDocument

-- The loop of `StaticKnowledgeIndex::new`. `insert` on a taken key answers the old document.
unfoldable pub load :
    ℕ
    → Map ScopedDocumentId KnowledgeDocument
    → List KnowledgeDocument
    → Result KnowledgeError (Map ScopedDocumentId KnowledgeDocument)
unfolding checked_add_with_limit get insert
load total_text_bytes ordered [] = ok ordered
load total_text_bytes ordered (document ∷ documents) = do
  total ← checked_add_with_limit total_text_bytes (length document.text) max_static_text_bytes
  elim (get (scoped_id document) ordered) [
    | none ↦ load total (insert (scoped_id document) document ordered) documents
    | some _ ↦ err invalid_request
  ]

unfoldable pub new : List KnowledgeDocument → Result KnowledgeError StaticKnowledgeIndex
unfolding load
new documents = do
  refuse (ltb max_static_documents (length documents)) limit_exceeded
  ordered ← load 0 [] documents
  ok (record { documents = ordered })

unfoldable pub matches : SearchRequest → KnowledgeDocument → Bool
unfolding text_contains
matches request document =
    same document.tenant_id request.context.tenant_id
    && same document.namespace request.namespace
    && text_contains document.text request.query.text

-- `values()`
abbrev pub values : Map ScopedDocumentId KnowledgeDocument → List KnowledgeDocument
values = map (λ entry. entry.1)

-- `KnowledgeIndex::search`
unfoldable pub search_static :
    StaticKnowledgeIndex → SearchRequest → Result KnowledgeError (List KnowledgeDocument)
unfolding matches
search_static index request =
    ok (take request.limit.value (keep_if (matches request) (values index.documents)))

abbrev pub as_index : StaticKnowledgeIndex → KnowledgeIndex
as_index index = record { search = search_static index }
