-- ===== src/Tests/Corpus.antt =====
-- crates/knowledge on a corpus of three documents in two tenants.
use rust_factory.Common.{
  ◌≡◌, ◌↔◌, refl, List, [], ◌∷◌, map, Bytes, codes, ok, length, take, ◌≤◌, none, some, nat_ord,
  list_ord, pair_ord,
}
use rust_factory.Knowledge.Validation.{max_static_documents, max_static_text_bytes}
use rust_factory.Knowledge.Model.{
  SearchRequest, KnowledgeDocument, KnowledgeIndex, SearchResult, tenant_ord, namespace_ord,
  document_ord,
}
use rust_factory.Knowledge.Service.{project, search}
use rust_factory.Knowledge.Service.Replies.{IsOrdered, IsReply, text_total, search_exact}
use rust_factory.Knowledge.Static.{
  StaticKnowledgeIndex, scoped_id, new, matches, search_static, as_index,
}
use rust_factory.Knowledge.Static.Corpus.{IsDistinct, find, new_accepts_iff}
use rust_factory.Knowledge.Static.Answers.{Among, search-static_exact}
use rust_factory.Knowledge.Static.Membership.{IsMatch, search_static-Among}

abbrev document : Bytes → Bytes → Bytes → KnowledgeDocument
document tenant id text = record {
  tenant_id = record { text = tenant };
  namespace = record { text = codes "n" };
  document_id = record { text = id };
  text = text;
}

abbrev second : KnowledgeDocument
second = document (codes "a") (codes "2") (codes "xy")

abbrev first : KnowledgeDocument
first = document (codes "a") (codes "1") (codes "wx")

abbrev corpus : List KnowledgeDocument
corpus = second ∷ document (codes "b") (codes "1") (codes "x") ∷ first ∷ []

abbrev request : SearchRequest
request = record {
  context = record {
    tenant_id = record { text = codes "a" };
    principal_id = record { text = codes "p" };
  };
  namespace = record { text = codes "n" };
  query = record { text = codes "x" };
  limit = record { value = 5 };
}

abbrev index : StaticKnowledgeIndex
index = record {
  documents =
      (scoped_id first, first)
      ∷ (scoped_id second, second)
      ∷ (
        scoped_id (document (codes "b") (codes "1") (codes "x")),
        document (codes "b") (codes "1") (codes "x"),
      )
      ∷ [];
}

built : new corpus ≡ ok index
unfolding new
built = refl

new_accepts_iff_example : ((index : StaticKnowledgeIndex) × (new corpus ≡ ok index)) ↔ (
    (length corpus ≤ max_static_documents)
    × (text_total corpus ≤ max_static_text_bytes)
    × IsDistinct corpus)
new_accepts_iff_example = new_accepts_iff corpus

search-static_exact_example :
    search (as_index index) request ≡ ok (record { hits = project first ∷ project second ∷ [] })
unfolding matches
search-static_exact_example = search-static_exact corpus index built request

search_static-Among_example :
    (ms : List KnowledgeDocument) × (search_static index request ≡ ok (take 5 ms))
    × IsOrdered request none ms
    × ((d : KnowledgeDocument)
        → Among d ms ↔ ((find (scoped_id d) corpus ≡ some d) × IsMatch request d))
search_static-Among_example = search_static-Among corpus index built request

-- An index that ignores the order.
abbrev unordered : KnowledgeIndex
unordered = record { search = λ _. ok (second ∷ first ∷ []) }

abbrev no_hits : SearchResult
no_hits = record { hits = [] }

search_exact_example : (search unordered request ≡ ok no_hits) ↔ (
    (documents : List KnowledgeDocument) × (unordered.search request ≡ ok documents)
    × IsReply request documents
    × ([] ≡ map project documents))
search_exact_example = search_exact unordered request no_hits
