-- ===== src/Skills.antt =====
-- packages/cwap_contracts/v3/skills.py and services/skills/registry.py: what a skill is, and how an
-- agent finds its skills. The table is the list of its rows. Descriptions, schemas, origins and
-- versions are left out.
pub mod Execution
pub mod Calling
pub mod Scope
use ae_cwap.Common.Tables.{select_one, update_where}
use ae_cwap.Prelude.{
  Bool, List, String, ◌∷◌, keep, true, ℕ, suc, ◌==◌, Option, if◌then◌else◌, ◌&&◌, none, not, false,
  some, any, [],
}
use ae_cwap.Value.{Fields}

pub data SkillKind : Type 0 where
  prompt retrieval http transform composite mcp : SkillKind

pub record SkillParameter : Type 0 where
  pub name : String
  pub required : Bool

pub record SkillDefinition : Type 0 where
  pub id : String
  pub tenant_id : String
  pub name : String
  pub kind : SkillKind
  pub parameters : List SkillParameter
  pub definition : Fields
  pub invocations : ℕ
  pub failures : ℕ

-- `SIDE_EFFECTING_KINDS`
pub is_side_effecting : SkillDefinition → Bool
is_side_effecting s = elim s.kind [ SkillKind.http ↦ true | SkillKind.mcp ↦ true | _ ↦ false ]

abbrev has_skill_id : String → String → SkillDefinition → Bool
has_skill_id tenant_id skill_id s = (s.tenant_id == tenant_id) && (s.id == skill_id)

unfoldable pub find_by_name : List SkillDefinition → String → String → Option SkillDefinition
find_by_name skills tenant_id name =
    select_one (λ (s : SkillDefinition). (s.tenant_id == tenant_id) && (s.name == name)) skills

unfoldable pub get_skill : List SkillDefinition → String → String → Option SkillDefinition
get_skill skills tenant_id skill_id = select_one (has_skill_id tenant_id skill_id) skills

-- in the agent's order
unfoldable pub get_many : List SkillDefinition → String → List String → List SkillDefinition
unfolding get_skill
get_many skills tenant_id [] = []
get_many skills tenant_id (i ∷ ids) =
    let rest = get_many skills tenant_id ids in
    elim (get_skill skills tenant_id i) [ none ↦ rest | some s ↦ s ∷ rest ]

unfoldable pub record_invocation :
    List SkillDefinition → String → String → Bool → List SkillDefinition
record_invocation skills tenant_id skill_id failed =
    update_where (has_skill_id tenant_id skill_id)
      (λ (s : SkillDefinition). record s {
        invocations = suc s.invocations;
        failures = if failed then suc s.failures else s.failures;
      })
      skills

unfoldable pub delete_skill : List SkillDefinition → String → String → List SkillDefinition × Bool
delete_skill skills tenant_id skill_id = (
  keep (λ s. not (has_skill_id tenant_id skill_id s)) skills,
  any (has_skill_id tenant_id skill_id) skills,
)

pub record SkillOutcome : Type 0 where
  pub output : String
  pub is_error : Bool
