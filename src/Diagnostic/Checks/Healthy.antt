-- ===== src/Diagnostic/Checks/Healthy.antt =====
-- When every check of an agent passes.
use agent_smith_go.Base.{
  ◌≡◌, ◌↔◌, inl, inr, refl, sym, ap, subst, ◌∙◌, Bool, true, false, ◌&&◌, Option, none, some, List,
  [], ◌∷◌, ◌++◌, arith, Bytes, codes, is_empty, eq_bytes, eq_bytes_sound, eq_bytes_refl, Bool-cases,
}
use agent_smith_go.Interpreter.Message.{Except, done, failed}
use agent_smith_go.Agent.Device.{Device}
use agent_smith_go.Agent.Host.{HostInfo}
use agent_smith_go.Diagnostic.Scan.{AgentInfo}
use agent_smith_go.Diagnostic.Checks.{
  Verdict, Dialer, Directories, Surroundings, test_content, service_verdicts,
  run_check_service_status, connectivity_of, write_test, scripts_test, run_command_test,
  connectivity_to, run_connectivity_test_with, read_verdict, data_verdict, run_temp_dir_test,
  run_host_info, run_all_checks_with,
}

unfoldable pub all_pass : List Verdict → Bool
all_pass [] = true
all_pass (v ∷ vs) = v.pass && all_pass vs

all_pass-append : (xs ys : List Verdict) → all_pass (xs ++ ys) ≡ all_pass xs && all_pass ys
unfolding all_pass
all_pass-append [] ys = refl
all_pass-append (v ∷ xs) ys = ground (arith, all_pass-append xs ys)

-- A host with a name that takes connections on both ports.
pub record IsReachable (dial : Dialer) (host : Bytes) : Type 0 where
  pub named : is_empty host ≡ false
  pub mqtt : dial host (codes "8883") ≡ true
  pub websocket : dial host (codes "443") ≡ true

pub record IsWritable (dirs : Directories) : Type 0 where
  pub made : dirs.mkdir_error ≡ none
  pub written : dirs.write_error ≡ none
  pub same : dirs.read_back ≡ done test_content
  pub data_there : dirs.data_dir ≡ done true

-- What the checks are there to find out.
pub record IsHealthy (s : Surroundings) (a : AgentInfo) : Type 0 where
  pub running : s.services a.service_name ≡ some true
  pub commands : (elapsed : Bytes) × (s.command ≡ done elapsed)
  pub reachable :
      (device : Device) × (a.device ≡ some device) × IsReachable s.dial device.azure_iot_hub_host
  pub writable : IsWritable s.directories
  pub described : (info : HostInfo) × (s.host ≡ some (done info))

service_passes :
    (a : AgentInfo) (o : Option Bool) → (all_pass (service_verdicts a o) ≡ true) ↔ (o ≡ some true)
unfolding service_verdicts all_pass
service_passes a none = ((λ h. absurd cc), λ h. absurd cc)
service_passes a (some true) = ((λ h. refl), λ h. refl)
service_passes a (some false) = ((λ h. absurd cc), λ h. absurd cc)

abbrev host_of : Option Device → Bytes
host_of none = []
host_of (some d) = d.azure_iot_hub_host

command_passes :
    (r : Except Bytes)
    → (all_pass (run_command_test r) ≡ true) ↔ ((elapsed : Bytes) × (r ≡ done elapsed))
unfolding run_command_test all_pass
command_passes (failed e) = ((λ h. absurd cc), λ h. absurd (cc h.1))
command_passes (done t) = ((λ h. (t, refl)), λ h. refl)

connectivity_to_passes :
    (dial : Dialer) (host : Bytes)
    → (all_pass (connectivity_to dial host) ≡ true) ↔ IsReachable dial host
unfolding connectivity_to all_pass
connectivity_to_passes dial [] = ((λ h. absurd cc), λ h. absurd (cc h.named))
connectivity_to_passes dial (c ∷ host) = (
  (λ h. record { named = refl; mqtt = ground arith; websocket = ground arith }),
  λ h. rw (h.mqtt, h.websocket),
)

connectivity_passes :
    (dial : Dialer) (o : Option Device)
    → (all_pass (connectivity_of dial o) ≡ true)
      ↔ ((device : Device) × (o ≡ some device) × IsReachable dial device.azure_iot_hub_host)
unfolding connectivity_of
connectivity_passes dial none = ((λ h. absurd (unfold all_pass in cc)), λ h. absurd (cc h.1))
connectivity_passes dial (some d) = (
  (λ h. (d, refl, (connectivity_to_passes dial d.azure_iot_hub_host).0 h)),
  λ h.
      (connectivity_to_passes dial d.azure_iot_hub_host).1
        (subst (λ (o : Option Device). IsReachable dial (host_of o)) (sym h.1) h.2),
)

read_pass : (bytes : Bytes) → (read_verdict (done bytes)).pass ≡ eq_bytes bytes test_content
unfolding read_verdict
read_pass bytes = elim (Bool-cases (eq_bytes bytes test_content)) [
  | inl same ↦ rw same
  | inr other ↦ rw other
]

read_passes : (r : Except Bytes) → ((read_verdict r).pass ≡ true) ↔ (r ≡ done test_content)
read_passes (failed e) = unfold read_verdict in ((λ h. absurd cc), λ h. absurd cc)
read_passes (done bytes) = (
  (λ h. ap done (eq_bytes_sound bytes test_content (sym (read_pass bytes) ∙ h))),
  λ h. let e : bytes ≡ test_content = cc in read_pass bytes ∙ rw e (eq_bytes_refl test_content),
)

data_passes : (r : Except Bool) → ((data_verdict r).pass ≡ true) ↔ (r ≡ done true)
unfolding data_verdict
data_passes (failed e) = ((λ h. absurd cc), λ h. absurd cc)
data_passes (done true) = ((λ h. refl), λ h. refl)
data_passes (done false) = ((λ h. absurd cc), λ h. absurd cc)

write_passes :
    (dirs : Directories) (o : Option Bytes)
    → (all_pass (write_test dirs o).0 ≡ true)
      ↔ ((o ≡ none) × (dirs.read_back ≡ done test_content) × (dirs.data_dir ≡ done true))
unfolding write_test all_pass
write_passes dirs (some e) = ((λ h. absurd cc), λ h. absurd (cc h.0))
write_passes dirs none = (
  (λ h. (
    refl,
    (read_passes dirs.read_back).0 (ground arith),
    (data_passes dirs.data_dir).0 (ground arith),
  )),
  λ h. rw ((read_passes dirs.read_back).1 h.1, (data_passes dirs.data_dir).1 h.2),
)

scripts_passes :
    (dirs : Directories) (o : Option Bytes)
    → (all_pass (scripts_test dirs o).0 ≡ true)
      ↔ ((o ≡ none) × (all_pass (write_test dirs dirs.write_error).0 ≡ true))
unfolding scripts_test all_pass
scripts_passes dirs (some e) = ((λ h. absurd cc), λ h. absurd (cc h.0))
scripts_passes dirs none = ((λ h. (refl, h)), λ h. h.1)

directories_pass :
    (dirs : Directories) → (all_pass (run_temp_dir_test dirs).0 ≡ true) ↔ IsWritable dirs
unfolding run_temp_dir_test
directories_pass dirs = (
  (λ h.
      let (made, rest) = (scripts_passes dirs dirs.mkdir_error).0 h in
      let (written, same, data_there) = (write_passes dirs dirs.write_error).0 rest in
      record { made = made; written = written; same = same; data_there = data_there }),
  λ h.
      (scripts_passes dirs dirs.mkdir_error).1
        (h.made, (write_passes dirs dirs.write_error).1 (h.written, h.same, h.data_there)),
)

host_passes :
    (o : Option (Except HostInfo))
    → (all_pass (run_host_info o) ≡ true) ↔ ((info : HostInfo) × (o ≡ some (done info)))
unfolding run_host_info all_pass
host_passes none = ((λ h. absurd cc), λ h. absurd (cc h.1))
host_passes (some (failed e)) = ((λ h. absurd cc), λ h. absurd (cc h.1))
host_passes (some (done i)) = ((λ h. (i, refl)), λ h. refl)

both : (b c : Bool) → (b && c) ≡ true → (b ≡ true) × (c ≡ true)
both true c h = (refl, h)
both false c h = absurd cc

-- All the checks of "Run all checks" pass exactly when the agent is healthy: its service runs, a
-- command can be run, its host takes connections on both ports, its scripts directory can be written
-- and read back beside a data directory, and the host can be described.
pub run_all_checks_with_iff :
    (s : Surroundings) (a : AgentInfo) → (all_pass (run_all_checks_with s a) ≡ true) ↔ IsHealthy s a
unfolding run_all_checks_with run_check_service_status run_connectivity_test_with
run_all_checks_with_iff s a =
    let services = service_verdicts a (s.services a.service_name) in
    let commands = run_command_test s.command in
    let connections = connectivity_of s.dial a.device in
    let directories = (run_temp_dir_test s.directories).0 in
    let host = run_host_info s.host in
    rw
      (
        all_pass-append services (commands ++ (connections ++ (directories ++ host))),
        all_pass-append commands (connections ++ (directories ++ host)),
        all_pass-append connections (directories ++ host),
        all_pass-append directories host,
      )
      (
        (λ h.
            let (h1, r1) =
              both (all_pass services)
                (all_pass commands
                  && (all_pass connections && (all_pass directories && all_pass host)))
                h in
            let (h2, r2) =
              both (all_pass commands)
                (all_pass connections && (all_pass directories && all_pass host)) r1 in
            let (h3, r3) = both (all_pass connections) (all_pass directories && all_pass host) r2 in
            let (h4, h5) = both (all_pass directories) (all_pass host) r3 in
            record {
              running = (service_passes a (s.services a.service_name)).0 h1;
              commands = (command_passes s.command).0 h2;
              reachable = (connectivity_passes s.dial a.device).0 h3;
              writable = (directories_pass s.directories).0 h4;
              described = (host_passes s.host).0 h5;
            }),
        λ h. rw (
          (service_passes a (s.services a.service_name)).1 h.running,
          (command_passes s.command).1 h.commands,
          (connectivity_passes s.dial a.device).1 h.reachable,
          (directories_pass s.directories).1 h.writable,
          (host_passes s.host).1 h.described,
        ),
      )
