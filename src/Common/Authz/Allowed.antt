-- ===== src/Common/Authz/Allowed.antt =====
-- Which jobs `authorize` of packages/cwap_common/authz.py allows.
use ae_cwap.Common.Authz.{
  authorize, scopes_for, User, is_empty, requires_write, is_user, less, as_set, missing,
}
use ae_cwap.Contracts.Job.{PrincipalKind, JobContext, ServiceName}
use ae_cwap.Common.Tables.{select_one}
use ae_cwap.Prelude.{
  refl, ◌∷◌, [], ◌++◌, ◌≢◌, In, ◌⊎◌, List, String, ◌≡◌, contains, some, ok, ◌&&◌, inl, true, arith,
  map, inr, Bool-cases, ◌↔◌, ◌==◌, eq_self, ap, false, Option-cases, eq_iff, ◌∙◌, subst, Option,
  none,
}

module _ (upper : String → String) (users : List User) where
  -- Who the job's principal is, with the scopes held: a service account has those that the job
  -- declares, a user those of the first row with the user's id in the job's tenant, in upper case.
  pub data IsPrincipal (c : JobContext) (held : List String) : Type 0 where
    account :
        c.principal_kind ≡ PrincipalKind.service → held ≡ as_set c.permissions → IsPrincipal c held
    member :
        (before after : List User) (u : User)
        → c.principal_kind ≡ PrincipalKind.user
        → users ≡ before ++ u ∷ after
        → ((v : User) → In v before → v.id ≡ c.initiating_user_id → v.tenant_id ≢ c.tenant_id)
        → u.id ≡ c.initiating_user_id
        → u.tenant_id ≡ c.tenant_id
        → held ≡ map upper u.scopes
        → IsPrincipal c held

  -- what an allowed job has: a declared write scope, if its service is the one that acts on the
  -- outside world, and a principal who holds every scope that the job asks for
  pub record IsAllowed (c : JobContext) (service : ServiceName) (held : List String) : Type 0 where
    pub write :
        service ≡ ServiceName.http_connector
        → (scope : String) × (c.permissions.required_write ≡ some scope) × (scope ≢ "")
    pub principal : IsPrincipal c held
    pub holds : (s : String) → contains (as_set c.permissions) s ≡ true → contains held s ≡ true

kind_cases : (k : PrincipalKind) → (k ≡ PrincipalKind.service) ⊎ (k ≡ PrincipalKind.user)
kind_cases PrincipalKind.service = inl refl
kind_cases PrincipalKind.user = inr refl

less_sound :
    (required held : List String)
    → is_empty (less required held) ≡ true
    → (s : String) → contains required s ≡ true
    → contains held s ≡ true
less_sound [] held h s k = absurd cc
less_sound (x ∷ required) held h s k = elim (Bool-cases (contains held x)) [
  | inl b ↦ elim (Bool-cases (x == s)) [
    | inl e ↦ subst (λ (y : String). contains held y ≡ true) ((eq_iff x s).0 e) b
    | inr e ↦ less_sound required held (ground (arith, b, h)) s (ground (arith, e, k))
  ]
  | inr b ↦ absurd (ground (arith, b, h))
]

less_complete :
    (required held : List String)
    → ((s : String) → contains required s ≡ true → contains held s ≡ true)
    → is_empty (less required held) ≡ true
less_complete [] held h = refl
less_complete (x ∷ required) held h =
    let b : contains held x ≡ true = h x (ground (arith, eq_self x)) in
    let rest = less_complete required held (λ s k. h s (ground (arith, k))) in
    ground (arith, b, rest)

-- the row that is found, among the others
row_split :
    (c : JobContext) (users : List User) (u : User)
    → select_one (is_user c) users ≡ some u
    → (before : List User) × (after : List User) × (users ≡ before ++ u ∷ after)
      × ((v : User) → In v before → v.id ≡ c.initiating_user_id → v.tenant_id ≢ c.tenant_id)
      × (u.id ≡ c.initiating_user_id)
      × (u.tenant_id ≡ c.tenant_id)
unfolding select_one
row_split c [] u h = absurd cc
row_split c (x ∷ users) u h = elim (Bool-cases (is_user c x)) [
  | inl b ↦
      let same : x ≡ u = ground (arith, b, h) in
      (
        [],
        users,
        ap (λ y. y ∷ users) same,
        (λ v m e d. absurd m),
        ground (arith, b, ap (λ (y : User). y.id) same, eq_iff x.id c.initiating_user_id),
        ground (arith, b, ap (λ (y : User). y.tenant_id) same, eq_iff x.tenant_id c.tenant_id),
      )
  | inr b ↦
      let (before, after, e, first, i, t) = row_split c users u (ground (arith, b, h)) in
      (
        x ∷ before,
        after,
        ap (λ l. x ∷ l) e,
        (λ v m. elim m [
          | inl s ↦ λ d k. absurd (
              ground (
                arith,
                b,
                ap (λ (y : User). y.id) s,
                ap (λ (y : User). y.tenant_id) s,
                d,
                k,
                eq_self x.id,
                eq_self x.tenant_id,
              ))
          | inr n ↦ first v n
        ]),
        i,
        t,
      )
]

row_found :
    (c : JobContext) (before after : List User) (u : User)
    → ((v : User) → In v before → v.id ≡ c.initiating_user_id → v.tenant_id ≢ c.tenant_id)
    → is_user c u ≡ true
    → select_one (is_user c) (before ++ u ∷ after) ≡ some u
unfolding select_one
row_found c [] after u first b = rw b refl
row_found c (x ∷ before) after u first b = elim (Bool-cases (is_user c x)) [
  | inl q ↦ absurd (
      first x (inl refl) (ground (arith, q, eq_iff x.id c.initiating_user_id))
        (ground (arith, q, eq_iff x.tenant_id c.tenant_id)))
  | inr q ↦ rw q (row_found c before after u (λ v m. first v (inr m)) b)
]

scopes_sound :
    (upper : String → String) (users : List User) (c : JobContext) (held : List String)
    → scopes_for upper users c ≡ some held
    → IsPrincipal upper users c held
unfolding scopes_for
scopes_sound upper users c held h = elim (kind_cases c.principal_kind) [
  | inl k ↦ account k (ground (arith, k, h))
  | inr k ↦ elim (Option-cases (select_one (is_user c) users)) [
    | inl q ↦ absurd (ground (arith, k, q, h))
    | inr (u, q) ↦
        let (before, after, e, first, i, t) = row_split c users u q in
        member before after u k e first i t (ground (arith, k, q, h))
  ]
]

scopes_complete :
    (upper : String → String) (users : List User) (c : JobContext) (held : List String)
    → IsPrincipal upper users c held
    → scopes_for upper users c ≡ some held
unfolding scopes_for
scopes_complete upper users c held (account k e) = ground (arith, k, e)
scopes_complete upper users c held (member before after u k e first i t s) =
    let b : is_user c u ≡ true = ground (arith, i, t, eq_self u.id, eq_self u.tenant_id) in
    let q : select_one (is_user c) users ≡ some u =
      ap (select_one (is_user c)) e ∙ row_found c before after u first b in
    ground (arith, k, q, s)

write_iff :
    (service : ServiceName) (c : JobContext)
    → (requires_write service && missing c.permissions.required_write ≡ false) ↔ (
        service ≡ ServiceName.http_connector
        → (scope : String) × (c.permissions.required_write ≡ some scope) × (scope ≢ ""))
write_iff service c = (to service, back service)
  where
    declared :
        (w : Option String) → missing w ≡ false → (scope : String) × (w ≡ some scope) × (scope ≢ "")
    declared none h = absurd cc
    declared (some s) h = (s, refl, λ e. absurd (ground (arith, h, e, eq_self s)))

    to :
        (s : ServiceName)
        → requires_write s && missing c.permissions.required_write ≡ false
        → s ≡ ServiceName.http_connector
        → (scope : String) × (c.permissions.required_write ≡ some scope) × (scope ≢ "")
    to s h e =
        let w : requires_write s ≡ true = ap requires_write e in
        declared c.permissions.required_write (ground (arith, h, w))

    filled :
        (w : Option String) → (scope : String) × (w ≡ some scope) × (scope ≢ "") → missing w ≡ false
    filled w (s, e, n) = elim (Bool-cases (s == "")) [
      | inl b ↦ absurd (n ((eq_iff s "").0 b))
      | inr b ↦ ap missing e ∙ b
    ]

    back :
        (s : ServiceName)
        → (s ≡ ServiceName.http_connector
            → (scope : String) × (c.permissions.required_write ≡ some scope) × (scope ≢ ""))
        → requires_write s && missing c.permissions.required_write ≡ false
    back ServiceName.http_connector h = filled c.permissions.required_write (h refl)
    back _ h = refl

-- A job is allowed, with the scopes that its principal holds, exactly if all this holds: a job whose
-- service is the HTTP connector, and no other, has to declare a write scope; its principal is a
-- service account, or a user of whom the job's own tenant has a row; and the principal holds every
-- scope that the job asks for, where an account holds what it declares and a user the scopes of that
-- row in upper case.
pub authorize_iff :
    (upper : String → String) (users : List User) (c : JobContext) (service : ServiceName)
    (held : List String)
    → (authorize upper users c service ≡ ok held) ↔ IsAllowed upper users c service held
unfolding authorize
authorize_iff upper users c service held = (sound, complete)
  where
    sound : authorize upper users c service ≡ ok held → IsAllowed upper users c service held
    sound h = elim (Option-cases (scopes_for upper users c)) [
      | inl q ↦ absurd (ground (arith, q, h))
      | inr (scopes, q) ↦ elim (Bool-cases (is_empty (less (as_set c.permissions) scopes))) [
        | inr b ↦ absurd (ground (arith, q, b, h))
        | inl b ↦
            let same : scopes ≡ held = ground (arith, q, b, h) in
            record {
              write = (write_iff service c).0 (ground (arith, q, b, h));
              principal = scopes_sound upper users c held (q ∙ ap some same);
              holds =
                  subst
                    (λ (x : List String).
                      (s : String) → contains (as_set c.permissions) s ≡ true → contains x s ≡ true)
                    same (less_sound (as_set c.permissions) scopes b);
            }
      ]
    ]

    complete : IsAllowed upper users c service held → authorize upper users c service ≡ ok held
    complete a = ground (
      arith,
      (write_iff service c).1 a.write,
      scopes_complete upper users c held a.principal,
      less_complete (as_set c.permissions) held a.holds,
    )
