-- ===== src/Knowledge/Static/Corpus.antt =====
-- Which corpora `StaticKnowledgeIndex::new` of crates/knowledge/src/static.rs accepts, and that
-- the index holds exactly their documents.
use rust_factory.Common.{
  ℕ, ◌+◌, ◌≤◌, ◌≡◌, ◌↔◌, refl, Option, none, some, List, [], ◌∷◌, length, ok, arith, same,
  same_refl, same-eq, pair_ord, nat_ord, list_ord, Option-cases, inl, inr, if◌then◌else◌,
}
use rust_factory.TreeMap.{Map, get, insert, IsSorted}
use rust_factory.TreeMap.Laws.{get-insert, insert-IsSorted}
use rust_factory.TreeMap.Every.{Every, Every-insert}
use rust_factory.Knowledge.Validation.{
  max_static_documents, max_static_text_bytes, checked_add_with_limit,
}
use rust_factory.Knowledge.Model.{tenant_ord, namespace_ord, document_ord, KnowledgeDocument}
use rust_factory.Knowledge.Service.Replies.{text_total}
use rust_factory.Knowledge.Static.{ScopedDocumentId, scoped_id, StaticKnowledgeIndex, load, new}

-- The first document of the configuration with an identifier.
abbrev pub find : ScopedDocumentId → List KnowledgeDocument → Option KnowledgeDocument
find id [] = none
find id (d ∷ ds) = if same id (scoped_id d) then some d else find id ds

abbrev pub IsDistinct : List KnowledgeDocument → Type 0
IsDistinct [] = Unit
IsDistinct (d ∷ ds) = (find (scoped_id d) ds ≡ none) × IsDistinct ds

-- The documents of a map stand under their own identifiers.
abbrev pub IsOwn : ScopedDocumentId → KnowledgeDocument → Type 0
IsOwn id document = id ≡ scoped_id document

-- No identifier of the list is taken.
abbrev pub IsFresh : Map ScopedDocumentId KnowledgeDocument → List KnowledgeDocument → Type 0
IsFresh m [] = Unit
IsFresh m (d ∷ ds) = (get (scoped_id d) m ≡ none) × IsFresh m ds

abbrev pub either : Option KnowledgeDocument → Option KnowledgeDocument → Option KnowledgeDocument
either (some d) _ = some d
either none other = other

pub record Loaded (total : ℕ) (m : Map ScopedDocumentId KnowledgeDocument)
    (documents : List KnowledgeDocument) (out : Map ScopedDocumentId KnowledgeDocument)
    : Type 0 where
  pub small : total + text_total documents ≤ max_static_text_bytes
  pub distinct : IsDistinct documents
  pub fresh : IsFresh m documents
  pub holds : (id : ScopedDocumentId) → get id out ≡ either (get id m) (find id documents)
  pub sorted : IsSorted m → IsSorted out
  pub own : Every IsOwn m → Every IsOwn out

load_cons :
    (total : ℕ) (m out : Map ScopedDocumentId KnowledgeDocument) (d : KnowledgeDocument)
    (ds : List KnowledgeDocument)
    → load total m (d ∷ ds) ≡ ok out
    → (get (scoped_id d) m ≡ none)
      × (total + length d.text ≤ max_static_text_bytes)
      × (load (total + length d.text) (insert (scoped_id d) d m) ds ≡ ok out)
unfolding load checked_add_with_limit
load_cons total m out d ds h = elim (Option-cases (get (scoped_id d) m)) [
  | inl e ↦ (e, ground arith, ground arith)
  | inr (x, e) ↦ absurd (ground arith)
]

IsFresh-before :
    (k : ScopedDocumentId) (d : KnowledgeDocument) (m : Map ScopedDocumentId KnowledgeDocument)
    (ds : List KnowledgeDocument)
    → IsFresh (insert k d m) ds
    → (find k ds ≡ none) × IsFresh m ds
IsFresh-before k d m [] f = (refl, tt)
IsFresh-before k d m (x ∷ ds) f =
    let (absent, fresh) = IsFresh-before k d m ds f.1 in
    (ground (arith, get-insert k (scoped_id x) d m), ground (arith, get-insert k (scoped_id x) d m))

load_sound :
    (documents : List KnowledgeDocument) (total : ℕ)
    (m out : Map ScopedDocumentId KnowledgeDocument)
    → total ≤ max_static_text_bytes
    → load total m documents ≡ ok out
    → Loaded total m documents out
unfolding load
load_sound [] total m out fits h = record {
  small = omega arith;
  distinct = tt;
  fresh = tt;
  holds = λ id. ground arith;
  sorted = λ s. ground arith;
  own = λ s. ground arith;
}
load_sound (d ∷ ds) total m out fits h =
    let (free, little, rest) = load_cons total m out d ds h in
    let r = load_sound ds (total + length d.text) (insert (scoped_id d) d m) out little rest in
    let (absent, fresh) = IsFresh-before (scoped_id d) d m ds r.fresh in
    record {
      small = omega (arith, r.small);
      distinct = (absent, r.distinct);
      fresh = (free, fresh);
      holds = λ id. ground (
        arith,
        r.holds id,
        get-insert (scoped_id d) id d m,
        same-eq id (scoped_id d),
        same-eq (scoped_id d) id,
        same_refl id,
      );
      sorted = λ s. r.sorted (insert-IsSorted (scoped_id d) d m s);
      own = λ s. r.own (Every-insert IsOwn (scoped_id d) d m refl s);
    }

IsFresh-after :
    (k : ScopedDocumentId) (d : KnowledgeDocument) (m : Map ScopedDocumentId KnowledgeDocument)
    (ds : List KnowledgeDocument)
    → IsFresh m ds
    → find k ds ≡ none
    → IsFresh (insert k d m) ds
IsFresh-after k d m [] f absent = tt
IsFresh-after k d m (x ∷ ds) f absent =
    (ground (arith, f.0, get-insert k (scoped_id x) d m), IsFresh-after k d m ds f.1 (ground arith))

load_complete :
    (documents : List KnowledgeDocument) (total : ℕ) (m : Map ScopedDocumentId KnowledgeDocument)
    → total + text_total documents ≤ max_static_text_bytes
    → IsFresh m documents
    → IsDistinct documents
    → (out : Map ScopedDocumentId KnowledgeDocument) × (load total m documents ≡ ok out)
unfolding load checked_add_with_limit
load_complete [] total m fits f d = (m, refl)
load_complete (d ∷ ds) total m fits f distinct =
    let (out, e) =
      load_complete ds (total + length d.text) (insert (scoped_id d) d m) (omega (arith, fits))
        (IsFresh-after (scoped_id d) d m ds f.1 distinct.0) distinct.1 in
    (out, ground (arith, fits, f.0, e))

IsFresh-empty : (documents : List KnowledgeDocument) → IsFresh [] documents
unfolding get
IsFresh-empty [] = tt
IsFresh-empty (d ∷ ds) = (refl, IsFresh-empty ds)

pub new-load :
    (documents : List KnowledgeDocument) (index : StaticKnowledgeIndex)
    → new documents ≡ ok index
    → (length documents ≤ max_static_documents) × Loaded 0 [] documents index.documents
unfolding new
new-load documents index h =
    (ground arith, load_sound documents 0 [] index.documents (omega arith) (ground arith))

-- `StaticKnowledgeIndex::new` accepts a corpus exactly if it has at most 10,000 documents, at most
-- 64 MiB of text, and no two documents with one scoped identifier.
pub new_accepts_iff :
    (documents : List KnowledgeDocument)
    → ((index : StaticKnowledgeIndex) × (new documents ≡ ok index)) ↔ (
        (length documents ≤ max_static_documents)
        × (text_total documents ≤ max_static_text_bytes)
        × IsDistinct documents)
unfolding new
new_accepts_iff documents = (
  λ built.
      let (short, loaded) = new-load documents built.0 built.1 in
      (short, omega (arith, loaded.small), loaded.distinct),
  λ good.
      let (short, small, distinct) = good in
      let (out, e) =
        load_complete documents 0 [] (omega (arith, small)) (IsFresh-empty documents) distinct in
      (record { documents = out }, ground (arith, short, e)),
)

pub new_holds :
    (documents : List KnowledgeDocument) (index : StaticKnowledgeIndex) (id : ScopedDocumentId)
    → new documents ≡ ok index
    → get id index.documents ≡ find id documents
unfolding get
new_holds documents index id h = let (short, loaded) = new-load documents index h in loaded.holds id
