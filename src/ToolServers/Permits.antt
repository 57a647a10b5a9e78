-- ===== src/ToolServers/Permits.antt =====
-- What services/mcp_connect/policy.py permits.
use ae_cwap.ToolServers.{
  McpTransport, McpServerConfig, Machine, assert_command_permitted, assert_host_permitted,
  permitted_command, assert_launchable, is_below, assert_permitted, McpPolicyError,
}
use ae_cwap.Prelude.{
  ◌≡◌, List, String, Bool, contains, ◌==◌, true, false, ok, ◌||◌, ◌↔◌, if◌then◌else◌, Bool-cases,
  some, length, ◌∷◌, inl, none, refl, arith, guard-eq-ok, inr, nat_eq, sym, guard, ◌∙◌, [],
}

module _ (M : Machine) (commands : List String) (vouches_for : String → Bool)
    (hosts : List String) where
  -- the command itself is on the list, and can be launched
  abbrev pub IsLaunched : String → Type 0
  IsLaunched wanted =
      (contains commands wanted ≡ true)
      × ((if M.has_sep wanted then M.is_executable wanted else M.is_installed wanted) ≡ true)

  -- the host is one of the directory's, or on the list, or below one that is
  abbrev pub IsReachable : String → Type 0
  IsReachable host = ((host == "") ≡ false) × ((vouches_for host || is_below M hosts host) ≡ true)

  abbrev pub IsPermitted : McpServerConfig → Type 0
  IsPermitted config = elim config.transport [
    | McpTransport.stdio ↦ IsLaunched (M.strip config.command)
    | McpTransport.http ↦ IsReachable (M.lower (M.hostname config.url))
  ]

  permitted_eq :
      ((s : String) → M.has_sep s ≡ false → M.basename s ≡ s)
      → (w : String)
      → permitted_command M commands w ≡ (if contains commands w then some w else none)
  unfolding permitted_command
  permitted_eq base w = elim (Bool-cases (contains commands w)) [
    | inl c ↦ ground (arith, c)
    | inr c ↦ elim (Bool-cases (M.has_sep w)) [
      | inl h ↦ ground (arith, c, h)
      | inr h ↦ ground (arith, c, h, base w h)
    ]
  ]

  launchable_iff :
      (w : String)
      → (assert_launchable M w ≡ ok tt)
        ↔ ((if M.has_sep w then M.is_executable w else M.is_installed w) ≡ true)
  unfolding assert_launchable
  launchable_iff w = elim (Bool-cases (M.has_sep w)) [
    | inl h ↦ rw h (guard-eq-ok (M.is_executable w) _, λ e. rw e refl)
    | inr h ↦ rw h (guard-eq-ok (M.is_installed w) _, λ e. rw e refl)
  ]

  command_iff :
      ((s : String) → M.has_sep s ≡ false → M.basename s ≡ s)
      → (command : String)
      → (assert_command_permitted M commands command ≡ ok tt) ↔ IsLaunched (M.strip command)
  unfolding assert_command_permitted
  command_iff base command =
      let w = M.strip command in
      let p = permitted_eq base w in
      let (there, back) = launchable_iff w in
      elim (Bool-cases (nat_eq (length commands) 0)) [
        | inl z ↦ (
          λ e. absurd (ground (arith, z, e)),
          λ (c, l). absurd (ground (arith, c, none_in commands w (ground (arith, z)))),
        )
        | inr z ↦ elim (Bool-cases (contains commands w)) [
          | inl c ↦
              let e : assert_command_permitted M commands command ≡ assert_launchable M w =
                ground (arith, z, p, c) in
              (λ q. (c, there (sym e ∙ q)), λ (d, l). e ∙ back l)
          | inr c ↦
              (λ q. absurd (ground (arith, z, p, c, q)), λ (d, l). absurd (ground (arith, c, d)))
        ]
      ]
    where
      none_in : (xs : List String) (x : String) → length xs ≡ 0 → contains xs x ≡ false
      none_in [] x h = refl
      none_in (y ∷ xs) x h = absurd (omega (arith, h))

  host_iff :
      (url : String)
      → (assert_host_permitted M vouches_for hosts url ≡ ok tt)
        ↔ IsReachable (M.lower (M.hostname url))
  unfolding assert_host_permitted
  host_iff url =
      let host = M.lower (M.hostname url) in
      elim (Bool-cases (host == "")) [
        | inl b ↦ (λ q. absurd (ground (arith, b, q)), λ (n, v). absurd (ground (arith, b, n)))
        | inr b ↦ elim (Bool-cases (vouches_for host)) [
          | inl v ↦ (λ q. (b, ground (arith, v)), λ k. ground (arith, b, v))
          | inr v ↦ elim (Bool-cases (nat_eq (length hosts) 0)) [
            | inl z ↦ (
              λ q. absurd (ground (arith, b, v, z, q)),
              λ (n, k). absurd (ground (arith, v, k, none_below hosts host (ground (arith, z)))),
            )
            | inr z ↦ (
              λ q. (
                b,
                ground (
                  arith,
                  v,
                  guard-eq-ok (is_below M hosts host) McpPolicyError.host_refused (shape b v z q),
                ),
              ),
              λ (n, k). ground (arith, b, v, z, k),
            )
          ]
        ]
      ]
    where
      none_below : (xs : List String) (x : String) → length xs ≡ 0 → is_below M xs x ≡ false
      none_below [] x h = refl
      none_below (y ∷ xs) x h = absurd (omega (arith, h))

      shape :
          (M.lower (M.hostname url) == "") ≡ false
          → vouches_for (M.lower (M.hostname url)) ≡ false
          → nat_eq (length hosts) 0 ≡ false
          → assert_host_permitted M vouches_for hosts url ≡ ok tt
          → guard (is_below M hosts (M.lower (M.hostname url))) McpPolicyError.host_refused ≡ ok tt
      shape b v z q = ground (arith, b, v, z, q)

  -- Where a name without a separator is its own base name: a connection is permitted exactly if it
  -- launches a command that is itself on the operator's list and can be launched (so that a bare
  -- name on the list permits no path that ends in it), or reaches a host that the directory vouches
  -- for, or that is on the list of hosts or below one that is.
  pub assert_permitted_iff :
      ((s : String) → M.has_sep s ≡ false → M.basename s ≡ s)
      → (config : McpServerConfig)
      → (assert_permitted M commands vouches_for hosts config ≡ ok tt) ↔ IsPermitted config
  unfolding assert_permitted
  assert_permitted_iff base config = by_transport config.transport refl
    where
      by_transport :
          (t : McpTransport)
          → config.transport ≡ t
          → (assert_permitted M commands vouches_for hosts config ≡ ok tt) ↔ IsPermitted config
      by_transport McpTransport.stdio e = rw e (command_iff base config.command)
      by_transport McpTransport.http e = rw e (host_iff config.url)
