-- ===== src/ToolServers.antt =====
-- services/mcp_connect/policy.py: which tool servers a deployment lets a tenant connect. The
-- operating system, URLs and text methods are the parameter `Machine`; the hosts of the built-in
-- directory are an argument.
pub mod Permits
use ae_cwap.Prelude.{
  ◌≡◌, String, List, Result, Bool, Option, if◌then◌else◌, nat_eq, guard, contains, ◌==◌, [], some,
  length, ◌||◌, err, keep, ok, none, not, any, ◌&&◌, map, append,
}

pub data McpTransport : Type 0 where
  stdio http : McpTransport

pub record McpServerConfig : Type 0 where
  pub transport : McpTransport
  pub command : String
  pub url : String

pub record Machine : Type 0 where
  -- `str.strip`, `str.lower`, `str.split(",")`, `str.endswith`
  pub strip : String → String
  pub lower : String → String
  pub split : String → List String
  pub ends_with : String → String → Bool
  -- `os.sep in s`, `os.path.basename`, a file that may be executed, and `shutil.which`
  pub has_sep : String → Bool
  pub basename : String → String
  pub is_executable : String → Bool
  pub is_installed : String → Bool
  -- `urlparse(url).hostname or ""`
  pub hostname : String → String

pub data McpPolicyError : Type 0 where
  stdio_disabled command_refused not_executable not_installed : McpPolicyError
  no_host no_hosts_allowed host_refused : McpPolicyError

module _ (M : Machine) where
  -- the entries of `CWAP_MCP_ALLOWED_COMMANDS`
  unfoldable pub allowed_commands : String → List String
  allowed_commands raw =
      if M.strip raw == ""
      then []
      else keep (λ s. not (s == "")) (map M.strip (M.split (M.strip raw)))

  -- what an entry of the list permits to launch
  unfoldable pub permitted_command : List String → String → Option String
  permitted_command allowed wanted =
      if contains allowed wanted
      then some wanted
      else if not (M.has_sep wanted) && contains allowed (M.basename wanted)
      then some (M.basename wanted)
      else none

  unfoldable pub assert_launchable : String → Result McpPolicyError (Unit {0})
  assert_launchable permitted =
      if M.has_sep permitted
      then guard (M.is_executable permitted) McpPolicyError.not_executable
      else guard (M.is_installed permitted) McpPolicyError.not_installed

  unfoldable pub assert_command_permitted : List String → String → Result McpPolicyError (Unit {0})
  assert_command_permitted allowed command =
      if nat_eq (length allowed) 0
      then err McpPolicyError.stdio_disabled
      else elim (permitted_command allowed (M.strip command)) [
        | none ↦ err McpPolicyError.command_refused
        | some permitted ↦ assert_launchable permitted
      ]

  abbrev pub is_below : List String → String → Bool
  is_below hosts host =
      contains hosts host || any (λ entry. M.ends_with host (append "." entry)) hosts

  unfoldable pub assert_host_permitted :
      (String → Bool) → List String → String → Result McpPolicyError (Unit {0})
  assert_host_permitted vouches_for hosts url =
      let host = M.lower (M.hostname url) in
      if host == ""
      then err McpPolicyError.no_host
      else if vouches_for host
      then ok tt
      else if nat_eq (length hosts) 0
      then err McpPolicyError.no_hosts_allowed
      else guard (is_below hosts host) McpPolicyError.host_refused

  unfoldable pub assert_permitted :
      List String
      → (String → Bool)
      → List String
      → McpServerConfig
      → Result McpPolicyError (Unit {0})
  assert_permitted commands vouches_for hosts config = elim config.transport [
    | McpTransport.stdio ↦ assert_command_permitted commands config.command
    | McpTransport.http ↦ assert_host_permitted vouches_for hosts config.url
  ]
