-- ===== src/Agent/Host/Providers.antt =====
-- The providers of internal/agent/host_linux.go, host_darwin.go and host_windows.go.
use agent_smith_go.Base.{
  ℕ, Bool, false, not, ◌&&◌, ◌||◌, ◌==◌, Option, none, some, List, [], ◌∷◌, if◌then◌else◌, Bytes,
  codes, is_empty, keep_if, trim_space, split_byte, contains, eq_bytes, any,
}
use agent_smith_go.Interpreter.Message.{Except, done, failed}
use agent_smith_go.Agent.Host.{SystemInfo, DomainInfo, Queried}

-- What gopsutil and package net answer; cpu.Info lists at least one processor, and an interface is
-- given by the text of its hardware address.
pub record Queries : Type 0 where
  pub hostname : Except Bytes
  pub host_platform : Except Bytes
  pub cpus : Except (Bytes × List Bytes)
  pub virtual_memory : Except ℕ
  pub interfaces : Except (List Bytes)

unfoldable pub processor_name : Except (Bytes × List Bytes) → Except Bytes
processor_name (failed e) = failed e
processor_name (done (first, others)) = done (trim_space first)

-- strings.ReplaceAll(a, ":", "")
abbrev pub without_colons : Bytes → Bytes
without_colons = keep_if (λ (c : ℕ). not (c == b':'))

unfoldable pub first_address : List Bytes → Except (Option Bytes)
first_address [] = failed (codes "no MAC address found")
first_address (a ∷ addresses) =
    let rest = first_address addresses in
    if is_empty a then rest else done (some (without_colons a))

unfoldable pub mac_address : Except (List Bytes) → Except (Option Bytes)
unfolding first_address
mac_address (failed e) = failed e
mac_address (done addresses) = first_address addresses

-- TotalMemoryBytes of Linux and macOS.
unfoldable pub unix_memory : Except ℕ → Except ℕ
unix_memory (failed e) = done 0
unix_memory (done bytes) = done bytes

unfoldable pub unix_system : Queries → SystemInfo
unfolding unix_memory
unix_system q = record {
  hostname = q.hostname;
  host_platform = q.host_platform;
  cpu_model_name = processor_name q.cpus;
  total_memory_bytes = unix_memory q.virtual_memory;
  mac_address = mac_address q.interfaces;
}

-- The methods of macOS are those of Linux.
abbrev pub darwin_system : Queries → SystemInfo
darwin_system = unix_system

unfoldable pub windows_system : Queries → SystemInfo
windows_system q = record {
  hostname = q.hostname;
  host_platform = q.host_platform;
  cpu_model_name = processor_name q.cpus;
  total_memory_bytes = q.virtual_memory;
  mac_address = mac_address q.interfaces;
}

unfoldable pub unix_domain : DomainInfo
unix_domain = record {
  ad_domain = (none, none);
  is_ad_domain_controller = (false, none);
  is_entra_connect_server = (false, none);
  entra_domain = (none, none);
}

abbrev pub darwin_domain : DomainInfo
darwin_domain = unix_domain

unfoldable pub windows_ad_domain : Except Bytes → Queried (Option Bytes)
windows_ad_domain (failed e) = (none, some e)
windows_ad_domain (done output) = (if is_empty output then none else some output, none)

unfoldable pub windows_is_ad_domain_controller : Except Bytes → Queried Bool
windows_is_ad_domain_controller (failed e) = (false, some e)
windows_is_ad_domain_controller (done output) = (eq_bytes output (codes "True"), none)

abbrev pub entra_service_names : List Bytes
entra_service_names =
    codes "ADSync" ∷ codes "Azure AD Sync" ∷ codes "EntraConnectSync" ∷ codes "OtherFutureName" ∷ []

-- The argument tells whether sc query finds a service.
unfoldable pub windows_is_entra_connect_server : (Bytes → Bool) → Queried Bool
windows_is_entra_connect_server found = (any found entra_service_names, none)

-- What the loop over the lines of dsregcmd /status comes to; it panics at a line with "DomainName" and
-- without a colon.
pub data EntraScan : Type 0 where
  answered : Option Bytes → EntraScan
  panics : EntraScan

abbrev pub is_joined_line : Bytes → Bool
is_joined_line line = contains line (codes "AzureAdJoined") && contains line (codes "YES")

unfoldable pub names_domain : Bytes → Bool
names_domain line = contains line (codes "DomainName")

-- strings.Split(line, ":")[1]
unfoldable pub second_part : List Bytes → Option Bytes
second_part (a ∷ b ∷ parts) = some b
second_part _ = none

unfoldable pub scan_lines : Bool → List Bytes → EntraScan
unfolding second_part names_domain
scan_lines joined [] = answered none
scan_lines joined (line ∷ lines) =
    let now = joined || is_joined_line line in
    let rest = scan_lines now lines in
    if names_domain line
    then elim (second_part (split_byte b':' line)) [
      | none ↦ panics
      | some domain ↦ if now then answered (some (trim_space domain)) else rest
    ]
    else rest

unfoldable pub windows_entra_domain : Bytes → EntraScan
unfolding scan_lines
windows_entra_domain output = scan_lines false (split_byte 10 output)
