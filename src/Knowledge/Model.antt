-- ===== src/Knowledge/Model.antt =====
-- crates/knowledge/src/model.rs and port.rs: the validated values, and the index that a service
-- borrows.
use rust_factory.Common.{
  ℕ, Bool, true, ◌&&◌, ◌||◌, List, [], ◌∷◌, Bytes, length, Result, ok, refuse, ◌>>◌, ltb, leb, ◌==◌,
  Ord, ord_by, nat_ord, list_ord,
}
use rust_factory.Knowledge.Validation.{
  KnowledgeError, invalid_request, max_query_bytes, max_search_limit, max_document_text_bytes,
  validate_identifier,
}

pub record TenantId : Type 0 where
  pub text : Bytes

pub record PrincipalId : Type 0 where
  pub text : Bytes

pub record NamespaceId : Type 0 where
  pub text : Bytes

pub record DocumentId : Type 0 where
  pub text : Bytes

instance abbrev pub tenant_ord : Ord TenantId
tenant_ord = ord_by (λ t. t.text) (λ a b p i. record { text = p i })

instance abbrev pub namespace_ord : Ord NamespaceId
namespace_ord = ord_by (λ n. n.text) (λ a b p i. record { text = p i })

instance abbrev pub document_ord : Ord DocumentId
document_ord = ord_by (λ d. d.text) (λ a b p i. record { text = p i })

-- The macro `identifier!` writes one such constructor for each of the four types.
module _ {A : Type 0} (wrap : Bytes → A) where
  unfoldable pub new_identifier : Bytes → Result KnowledgeError A
  unfolding validate_identifier
  new_identifier value = do validate_identifier value; ok (wrap value)

pub record Query : Type 0 where
  pub text : Bytes

-- The UTF-8 encodings of the characters with the property White_Space: one, two and three bytes.
abbrev is_space_1 : ℕ → Bool
is_space_1 a = leb 9 a && leb a 13 || a == 32

abbrev is_space_2 : ℕ → ℕ → Bool
is_space_2 a b = a == 194 && (b == 133 || b == 160)

abbrev is_space_3 : ℕ → ℕ → ℕ → Bool
is_space_3 a b c =
    a == 225 && b == 154 && c == 128
    || a == 226 && b == 128 && (leb 128 c && leb c 138 || c == 168 || c == 169 || c == 175)
    || a == 226 && b == 129 && c == 159
    || a == 227 && b == 128 && c == 128

-- `!value.chars().any(|character| !character.is_whitespace())`
unfoldable pub all_whitespace : Bytes → Bool
all_whitespace [] = true
all_whitespace (a ∷ []) = is_space_1 a
all_whitespace (a ∷ b ∷ []) = is_space_1 a && is_space_1 b || is_space_2 a b
all_whitespace (a ∷ b ∷ c ∷ rest) =
    is_space_1 a && all_whitespace (b ∷ c ∷ rest)
    || is_space_2 a b && all_whitespace (c ∷ rest)
    || is_space_3 a b c && all_whitespace rest

unfoldable pub new_query : Bytes → Result KnowledgeError Query
unfolding all_whitespace
new_query value = do
  refuse (ltb max_query_bytes (length value) || all_whitespace value) invalid_request
  ok (record { text = value })

-- A `NonZeroU32`.
pub record SearchLimit : Type 0 where
  pub value : ℕ

unfoldable pub new_search_limit : ℕ → Result KnowledgeError SearchLimit
new_search_limit value = do
  refuse (ltb max_search_limit value) invalid_request
  refuse (value == 0) invalid_request
  ok (record { value = value })

pub record SearchContext : Type 0 where
  pub tenant_id : TenantId
  pub principal_id : PrincipalId

pub record SearchRequest : Type 0 where
  pub context : SearchContext
  pub namespace : NamespaceId
  pub query : Query
  pub limit : SearchLimit

pub record KnowledgeDocument : Type 0 where
  pub tenant_id : TenantId
  pub namespace : NamespaceId
  pub document_id : DocumentId
  pub text : Bytes

unfoldable pub new_document :
    TenantId → NamespaceId → DocumentId → Bytes → Result KnowledgeError KnowledgeDocument
new_document tenant_id namespace document_id text = do
  refuse (length text == 0 || ltb max_document_text_bytes (length text)) invalid_request
  ok (record {
    tenant_id = tenant_id;
    namespace = namespace;
    document_id = document_id;
    text = text;
  })

pub record KnowledgeHit : Type 0 where
  pub document_id : DocumentId
  pub text : Bytes

pub record SearchResult : Type 0 where
  pub hits : List KnowledgeHit

-- `KnowledgeIndex`: any adapter, which need not keep the protocol.
pub record KnowledgeIndex : Type 0 where
  pub search : SearchRequest → Result KnowledgeError (List KnowledgeDocument)
