-- ===== src/Common/Authz.antt =====
-- packages/cwap_common/authz.py: whether a job's principal may have its target service run. `upper`
-- stands for Python's `str.upper`; a set of scopes is a list, of which only the members matter.
pub mod Allowed
use ae_cwap.Contracts.Job.{ServiceName, JobContext, PrincipalKind, as_set}
use ae_cwap.Common.Tables.{select_one}
use ae_cwap.Contracts.Graph.Validation.{missing, is_empty}
use ae_cwap.Prelude.{
  map, none, some, err, ok, true, false, ap, eq_iff, ◌∙◌, refl, inr, subst, [], inl, Option-cases,
  eq_self, ◌↔◌, arith, Bool-cases, if◌then◌else◌, ◌&&◌, ◌∷◌, not, Option, ◌≡◌, ◌==◌, contains, keep,
  Result, List, Bool, String, In, ◌++◌, ◌⊎◌, ◌≢◌,
}

pub record User : Type 0 where
  pub id : String
  pub tenant_id : String
  pub scopes : List String

pub data Denial : Type 0 where
  no_write_scope no_principal : Denial
  missing_scopes : List String → Denial

abbrev pub requires_write : ServiceName → Bool
requires_write ServiceName.http_connector = true
requires_write _ = false

abbrev pub is_user : JobContext → User → Bool
is_user c u = (u.id == c.initiating_user_id) && (u.tenant_id == c.tenant_id)

-- `required - held`
abbrev pub less : List String → List String → List String
less required held = keep (λ (s : String). not (contains held s)) required

module _ (upper : String → String) (users : List User) where
  unfoldable pub scopes_for : JobContext → Option (List String)
  scopes_for c = elim c.principal_kind [
    | PrincipalKind.service ↦ some (as_set c.permissions)
    | PrincipalKind.user ↦ elim (select_one (is_user c) users) [
      | none ↦ none
      | some u ↦ some (map upper u.scopes)
    ]
  ]

  unfoldable pub authorize : JobContext → ServiceName → Result Denial (List String)
  authorize c service =
      if requires_write service && missing c.permissions.required_write
      then err Denial.no_write_scope
      else elim (scopes_for c) [
        | none ↦ err Denial.no_principal
        | some held ↦
            if is_empty (less (as_set c.permissions) held)
            then ok held
            else err (Denial.missing_scopes (less (as_set c.permissions) held))
      ]
