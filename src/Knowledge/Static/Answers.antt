-- ===== src/Knowledge/Static/Answers.antt =====
-- What a search over the configured corpus of crates/knowledge/src/static.rs answers, by itself and
-- through the service.
use rust_factory.Common.{
  ℕ, zero, suc, ◌≡◌, ◌⊎◌, true, Bool-cases, Option, none, some, List, [], ◌∷◌, map, sym, ap, ◌∙◌,
  take, keep_if, length-take, ok, err, arith, ltb, same-eq, nat_ord, list_ord, pair_ord, inl, inr,
  if◌then◌else◌,
}
use rust_factory.TreeMap.{Map, get, Below, IsSorted}
use rust_factory.TreeMap.Laws.{get_first, get_later}
use rust_factory.TreeMap.Every.{Every}
use rust_factory.Knowledge.Validation.{limit_exceeded, max_result_text_bytes}
use rust_factory.Knowledge.Model.{
  DocumentId, tenant_ord, namespace_ord, document_ord, SearchRequest, KnowledgeDocument,
}
use rust_factory.Knowledge.Service.{project, search}
use rust_factory.Knowledge.Service.Replies.{
  After, IsOrdered, text_total, check_complete, check_excess,
}
use rust_factory.Knowledge.Static.{
  ScopedDocumentId, scoped_id, StaticKnowledgeIndex, new, matches, values, search_static, as_index,
}
use rust_factory.Knowledge.Static.Corpus.{IsOwn, new-load}

module _ (request : SearchRequest) where
  abbrev pub found : Map ScopedDocumentId KnowledgeDocument → List KnowledgeDocument
  found m = keep_if (matches request) (values m)

  -- The entries of the scope lie beyond the last document.
  abbrev Beyond : Option DocumentId → Map ScopedDocumentId KnowledgeDocument → Type 0
  Beyond none m = Unit
  Beyond (some id) m = Below (request.context.tenant_id, (request.namespace, id)) m

  entry_id :
      (id : ScopedDocumentId) (d : KnowledgeDocument)
      → IsOwn id d
      → matches request d ≡ true
      → (id ≡ (request.context.tenant_id, (request.namespace, d.document_id)))
        × (d.tenant_id ≡ request.context.tenant_id)
        × (d.namespace ≡ request.namespace)
  unfolding matches
  entry_id id d own hit =
      let t : d.tenant_id ≡ request.context.tenant_id =
        same-eq d.tenant_id request.context.tenant_id (ground arith) in
      let n : d.namespace ≡ request.namespace =
        same-eq d.namespace request.namespace (ground arith) in
      (own ∙ (λ i. (t i, (n i, d.document_id))), t, n)

  After-entry :
      (previous : Option DocumentId) (id : ScopedDocumentId) (d : KnowledgeDocument)
      (m : Map ScopedDocumentId KnowledgeDocument)
      → id ≡ (request.context.tenant_id, (request.namespace, d.document_id))
      → Beyond previous ((id, d) ∷ m)
      → After previous d.document_id
  After-entry none id d m e b = tt
  After-entry (some p) id d m e b = ground (
    arith,
    b.0,
    e,
    tenant_ord.cmp_refl request.context.tenant_id,
    namespace_ord.cmp_refl request.namespace,
  )

  Beyond-rest :
      (previous : Option DocumentId) (id : ScopedDocumentId) (d : KnowledgeDocument)
      (m : Map ScopedDocumentId KnowledgeDocument)
      → Beyond previous ((id, d) ∷ m)
      → Beyond previous m
  Beyond-rest none id d m b = tt
  Beyond-rest (some p) id d m b = b.1

  pub found-IsOrdered :
      (m : Map ScopedDocumentId KnowledgeDocument) (previous : Option DocumentId) (n : ℕ)
      → IsSorted m
      → Every IsOwn m
      → Beyond previous m
      → IsOrdered request previous (take n (found m))
  found-IsOrdered m previous zero s o b = tt
  found-IsOrdered [] previous (suc n) s o b = tt
  found-IsOrdered ((id, d) ∷ m) previous (suc n) s o b = elim (Bool-cases (matches request d)) [
    | inl hit ↦
        let (e, t, k) = entry_id id d o.0 hit in
        rw hit (
          t,
          k,
          After-entry previous id d m e b,
          found-IsOrdered m (some d.document_id) n s.1 o.1 (rw (← e) s.0),
        )
    | inr miss ↦
        rw miss (found-IsOrdered m previous (suc n) s.1 o.1 (Beyond-rest previous id d m b))
  ]

-- The service over a configured corpus.
module _ (documents : List KnowledgeDocument) (index : StaticKnowledgeIndex)
    (built : new documents ≡ ok index) (request : SearchRequest) where
  abbrev pub answer : List KnowledgeDocument
  answer = take request.limit.value (found request index.documents)

  -- Over an index that `new` built, the service answers the projections of `answer`, the first
  -- `limit` matching documents in the order of the index, unless their text is over 64 KiB
  -- together, which is limit_exceeded; so it never reports a protocol violation of this index.
  pub search-static_exact : search (as_index index) request ≡ (
      if ltb max_result_text_bytes (text_total answer)
      then err limit_exceeded
      else ok (record { hits = map project answer }))
  unfolding search search_static
  search-static_exact =
      let (short, loaded) = new-load documents index built in
      let ordered =
        found-IsOrdered request index.documents none request.limit.value (loaded.sorted tt)
          (loaded.own tt) tt in
      ground (
        arith,
        length-take request.limit.value (found request index.documents),
        check_complete request answer none 0 ordered,
        check_excess request answer none 0 ordered,
      )

abbrev pub Among : KnowledgeDocument → List KnowledgeDocument → Type 0
Among d [] = ⊥
Among d (x ∷ xs) = (x ≡ d) ⊎ Among d xs

module _ (request : SearchRequest) (d : KnowledgeDocument) where
  -- The head of a list of matches, or one of the others.
  get-found-cons :
      (e : KnowledgeDocument) (m : Map ScopedDocumentId KnowledgeDocument) (id : ScopedDocumentId)
      → Among d (found request ((id, e) ∷ m))
      → ((e ≡ d) × (matches request e ≡ true)) ⊎ Among d (found request m)
  get-found-cons e m id a = ground arith

  pub get-found :
      (m : Map ScopedDocumentId KnowledgeDocument)
      → IsSorted m
      → Every IsOwn m
      → Among d (found request m)
      → (get (scoped_id d) m ≡ some d) × (matches request d ≡ true)
  get-found [] s o a = absurd a
  get-found ((id, e) ∷ m) s o a = elim (get-found-cons e m id a) [
    | inl (p, hit) ↦ (
      rw p (rw (o.0 ∙ ap scoped_id p) (get_first (scoped_id d) d m)),
      ap (matches request) (sym p) ∙ hit,
    )
    | inr rest ↦
        let (here, hit) = get-found m s.1 o.1 rest in
        (get_later (scoped_id d) id d e m s.0 here, hit)
  ]

  pub found-get :
      (m : Map ScopedDocumentId KnowledgeDocument)
      → IsSorted m
      → Every IsOwn m
      → get (scoped_id d) m ≡ some d
      → matches request d ≡ true
      → Among d (found request m)
  unfolding get
  found-get [] s o e hit = ground arith
  found-get ((id, e) ∷ m) s o g hit =
      ground (arith, found-get m s.1 o.1, pair_ord.eq_of_cmp (scoped_id d) id)
