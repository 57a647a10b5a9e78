-- ===== src/Tests/Connections.antt =====
-- The policy on tool servers, on a machine with one program and one path that ends in its name.
use ae_cwap.ToolServers.Permits.{IsPermitted, assert_permitted_iff}
use ae_cwap.ToolServers.{
  McpTransport, McpServerConfig, Machine, assert_permitted, assert_command_permitted,
  permitted_command, McpPolicyError,
}
use ae_cwap.Prelude.{
  ◌≡◌, ◌∷◌, String, false, [], ◌==◌, arith, ok, ◌↔◌, if◌then◌else◌, err, true, refl,
}

abbrev machine : Machine
machine = record {
  strip = λ s. s;
  lower = λ s. s;
  split = λ s. s ∷ [];
  ends_with = λ s t. false;
  has_sep = λ s. s == "/tmp/npx";
  basename = λ s. if s == "/tmp/npx" then "npx" else s;
  is_executable = λ s. true;
  is_installed = λ s. s == "npx";
  hostname = λ s. s;
}

machine_base : (s : String) → machine.has_sep s ≡ false → machine.basename s ≡ s
machine_base s h = ground (arith, h)

abbrev uploaded : McpServerConfig
uploaded = record { transport = McpTransport.stdio; command = "/tmp/npx"; url = "" }

uploaded_refused :
    assert_permitted machine ("npx" ∷ []) (λ h. false) [] uploaded
    ≡ err McpPolicyError.command_refused
unfolding assert_permitted assert_command_permitted permitted_command
uploaded_refused = refl

abbrev listed : McpServerConfig
listed = record { transport = McpTransport.stdio; command = "npx"; url = "" }

assert_permitted_iff_example :
    (assert_permitted machine ("npx" ∷ []) (λ h. false) [] listed ≡ ok tt)
    ↔ IsPermitted machine ("npx" ∷ []) (λ h. false) [] listed
assert_permitted_iff_example =
    assert_permitted_iff machine ("npx" ∷ []) (λ h. false) [] machine_base listed
