-- ===== src/Policy/Model/Capabilities.antt =====
-- The capabilities in the order of their declaration, with their names.
use rust_factory.Common.{
  ℕ, ◌≡◌, refl, ap, Option, none, some, List, [], ◌∷◌, Bytes, zero, suc, same, nat_ord, list_ord,
  if◌then◌else◌, Ord, ord_by,
}
use rust_factory.Policy.Model.{
  CapabilityV1, as_str, agent_definition_validate, agent_definition_get, agent_definition_list,
  agent_definition_register, agent_invoke, workflow_validate, workflow_start, workflow_get,
  workflow_list, workflow_cancel, evaluation_validate, evaluation_evaluate, evaluation_get,
  observability_telemetry_query, observability_telemetry_status, memory_remember, memory_recall,
  memory_search, memory_forget, memory_status, sandbox_start, sandbox_execute, sandbox_status,
  sandbox_stop,
}

abbrev pub capabilities : List CapabilityV1
capabilities =
    agent_definition_validate ∷ agent_definition_get ∷ agent_definition_list
    ∷ agent_definition_register ∷ agent_invoke ∷ workflow_validate ∷ workflow_start ∷ workflow_get
    ∷ workflow_list ∷ workflow_cancel ∷ evaluation_validate ∷ evaluation_evaluate ∷ evaluation_get
    ∷ observability_telemetry_query ∷ observability_telemetry_status ∷ memory_remember
    ∷ memory_recall ∷ memory_search ∷ memory_forget ∷ memory_status ∷ sandbox_start
    ∷ sandbox_execute ∷ sandbox_status ∷ sandbox_stop ∷ []

-- The first capability with the name.
named : Bytes → List CapabilityV1 → Option CapabilityV1
unfolding as_str
named name [] = none
named name (c ∷ cs) = if same name (as_str c) then some c else named name cs

named-as_str : (c : CapabilityV1) → named (as_str c) capabilities ≡ some c
unfolding named
named-as_str agent_invoke = refl
named-as_str _ = refl

-- No two capabilities share a name.
pub as_str-injective : (c d : CapabilityV1) → as_str c ≡ as_str d → c ≡ d
as_str-injective c d h =
    cc (named-as_str c, named-as_str d, ap (λ (name : Bytes). named name capabilities) h)

-- The place of the capability in the declaration, by which the derived `Ord` compares.
abbrev pub place : CapabilityV1 → ℕ
place agent_definition_validate = 0
place agent_definition_get = 1
place agent_definition_list = 2
place agent_definition_register = 3
place agent_invoke = 4
place workflow_validate = 5
place workflow_start = 6
place workflow_get = 7
place workflow_list = 8
place workflow_cancel = 9
place evaluation_validate = 10
place evaluation_evaluate = 11
place evaluation_get = 12
place observability_telemetry_query = 13
place observability_telemetry_status = 14
place memory_remember = 15
place memory_recall = 16
place memory_search = 17
place memory_forget = 18
place memory_status = 19
place sandbox_start = 20
place sandbox_execute = 21
place sandbox_status = 22
place sandbox_stop = 23

nth : ℕ → List CapabilityV1 → Option CapabilityV1
nth n [] = none
nth zero (c ∷ cs) = some c
nth (suc n) (c ∷ cs) = nth n cs

nth-place : (c : CapabilityV1) → nth (place c) capabilities ≡ some c
unfolding nth
nth-place agent_invoke = refl
nth-place _ = refl

pub place-injective : (c d : CapabilityV1) → place c ≡ place d → c ≡ d
place-injective c d h = cc (nth-place c, nth-place d, ap (λ n. nth n capabilities) h)

instance abbrev pub capability_ord : Ord CapabilityV1
capability_ord = ord_by place place-injective
