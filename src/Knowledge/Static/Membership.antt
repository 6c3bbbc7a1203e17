-- ===== src/Knowledge/Static/Membership.antt =====
-- Which documents `StaticKnowledgeIndex::search` of crates/knowledge/src/static.rs answers.
use rust_factory.Common.{
  ◌≡◌, ◌↔◌, refl, sym, ap, ◌∙◌, true, Bool-cases, List, [], ◌∷◌, ◌++◌, Bytes, none, some, length,
  take, ok, arith, same-eq, same_refl, nat_ord, list_ord, pair_ord, starts_with, text_contains, inl,
  inr,
}
use rust_factory.Knowledge.Model.{
  tenant_ord, namespace_ord, document_ord, SearchRequest, KnowledgeDocument,
}
use rust_factory.Knowledge.Service.Replies.{IsOrdered}
use rust_factory.Knowledge.Static.{scoped_id, StaticKnowledgeIndex, new, matches, search_static}
use rust_factory.Knowledge.Static.Corpus.{find, new-load, new_holds}
use rust_factory.Knowledge.Static.Answers.{found, found-IsOrdered, Among, get-found, found-get}

-- The part stands somewhere in the text.
abbrev pub Contains : Bytes → Bytes → Type 0
Contains text part = (before after : Bytes) × (text ≡ before ++ (part ++ after))

starts_with-part :
    (part text : Bytes) → starts_with part text ≡ true → (after : Bytes) × (text ≡ part ++ after)
starts_with-part [] text h = (text, refl)
starts_with-part (a ∷ part) [] h = absurd (ground (arith, h))
starts_with-part (a ∷ part) (b ∷ text) h =
    let (after, e) = starts_with-part part text (ground (arith, h)) in
    let heads : b ≡ a = ground (arith, h) in (after, cc (heads, e))

part-starts_with : (part after : Bytes) → starts_with part (part ++ after) ≡ true
part-starts_with [] after = refl
part-starts_with (a ∷ part) after = ground (arith, part-starts_with part after)

text_contains-part : (text part : Bytes) → text_contains text part ≡ true → Contains text part
unfolding text_contains
text_contains-part [] part h = let (after, e) = starts_with-part part [] h in ([], after, e)
text_contains-part (a ∷ text) part h = elim (Bool-cases (starts_with part (a ∷ text))) [
  | inl here ↦ let (after, e) = starts_with-part part (a ∷ text) here in ([], after, e)
  | inr miss ↦
      let (before, after, e) = text_contains-part text part (ground (arith, h, miss)) in
      (a ∷ before, after, ap (◌∷◌ a) e)
]

part-text_contains :
    (before part after : Bytes) → text_contains (before ++ (part ++ after)) part ≡ true
unfolding text_contains
part-text_contains [] [] [] = refl
part-text_contains [] [] (c ∷ after) = refl
part-text_contains [] (a ∷ part) after = ground (arith, part-starts_with (a ∷ part) after)
part-text_contains (c ∷ before) part after = ground (arith, part-text_contains before part after)

take-length : (ds : List KnowledgeDocument) → take (length ds) ds ≡ ds
take-length [] = refl
take-length (d ∷ ds) = ap (◌∷◌ d) (take-length ds)

-- The document is of the request's tenant and namespace, and its text holds the query.
abbrev pub IsMatch : SearchRequest → KnowledgeDocument → Type 0
IsMatch request d =
    (d.tenant_id ≡ request.context.tenant_id)
    × (d.namespace ≡ request.namespace)
    × Contains d.text request.query.text

matches-IsMatch :
    (request : SearchRequest) (d : KnowledgeDocument) → matches request d ≡ true → IsMatch request d
unfolding matches
matches-IsMatch request d h = (
  same-eq d.tenant_id request.context.tenant_id (ground (arith, h)),
  same-eq d.namespace request.namespace (ground (arith, h)),
  text_contains-part d.text request.query.text (ground (arith, h)),
)

IsMatch-matches :
    (request : SearchRequest) (d : KnowledgeDocument) → IsMatch request d → matches request d ≡ true
unfolding matches
IsMatch-matches request d (t, n, (before, after, e)) =
    rw
      (
        t,
        n,
        e,
        same_refl request.context.tenant_id,
        same_refl request.namespace,
        part-text_contains before request.query.text after,
      )
      refl

module _ (documents : List KnowledgeDocument) (index : StaticKnowledgeIndex)
    (built : new documents ≡ ok index) (request : SearchRequest) where
  -- Over an index that `StaticKnowledgeIndex::new` built, `search` of the index answers the first
  -- `limit` of a list of documents that is in strictly ascending order of their identifiers; a
  -- document is in that list exactly if the corpus has it under its tenant, namespace and
  -- identifier, its tenant and namespace are the request's, and the query stands somewhere in its
  -- text.
  pub search_static-Among :
      (ms : List KnowledgeDocument) × (search_static index request
        ≡ ok (take request.limit.value ms))
      × IsOrdered request none ms
      × ((d : KnowledgeDocument)
          → Among d ms ↔ ((find (scoped_id d) documents ≡ some d) × IsMatch request d))
  unfolding search_static
  search_static-Among =
      let (short, loaded) = new-load documents index built in
      let sorted = loaded.sorted tt in
      let own = loaded.own tt in
      (
        found request index.documents,
        refl,
        rw (← take-length (found request index.documents)) (
            found-IsOrdered request index.documents none (length (found request index.documents))
              sorted own tt),
        λ d.
            let holds = new_holds documents index (scoped_id d) built in
            (
              λ a.
                  let (here, hit) = get-found request d index.documents sorted own a in
                  (sym holds ∙ here, matches-IsMatch request d hit),
              λ g.
                  found-get request d index.documents sorted own (holds ∙ g.0)
                    (IsMatch-matches request d g.1),
            ),
      )
