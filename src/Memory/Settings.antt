-- ===== src/Memory/Settings.antt =====
-- crates/memory/src/settings.rs: a decoded configuration and the settings that it proves.
use rust_factory.Common.{
  ℕ, Bytes, codes, ◌==◌, ◌||◌, ltb, Result, ok, refuse, ◌>>=◌, ◌>>◌, List, [], ◌∷◌,
}
use rust_factory.Memory.Errors.{MemoryError}
use rust_factory.Memory.Validation.{max_query_limit}
use rust_factory.Memory.Model.{Namespace, new_logical_id}

pub data MemoryBackend : Type 0 where
  in_process agentic_in_process : MemoryBackend

unfoldable pub backend_as_str : MemoryBackend → Bytes
backend_as_str in_process = codes "in_process"
backend_as_str agentic_in_process = codes "agentic_in_process"

abbrev pub all_backends : List MemoryBackend
all_backends = in_process ∷ agentic_in_process ∷ []

pub record MemoryConfigV1 : Type 0 where
  pub backend : MemoryBackend
  pub default_namespace : Bytes
  pub max_query_limit : ℕ

abbrev pub default_limit : ℕ
default_limit = 64

pub record MemorySettings : Type 0 where
  pub backend : MemoryBackend
  pub default_namespace : Namespace
  pub max_query_limit : ℕ

-- `MemorySettings::from_config`
unfoldable pub from_config : MemoryConfigV1 → Result MemoryError MemorySettings
unfolding new_logical_id
from_config config = do
  refuse (config.max_query_limit == 0 || ltb max_query_limit config.max_query_limit)
      MemoryError.limit_exceeded
  namespace ← new_logical_id (λ text. record { text = text }) config.default_namespace
  ok (record {
    backend = config.backend;
    default_namespace = namespace;
    max_query_limit = config.max_query_limit;
  })
