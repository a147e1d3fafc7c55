-- ===== src/Diagnostic/Scan/Installed.antt =====
-- What the scan of cmd/agent_smith/diagnostic.go knows of the agents that it lists.
use agent_smith_go.Base.{
  ◌≡◌, refl, sym, ◌∙◌, true, Option, none, some, List, [], ◌∷◌, ◌++◌, arith, Bytes, codes, eq_bytes,
  split_byte, All, if_holds,
}
use agent_smith_go.Utils.Filepath.{
  join, clean, slash_join, resolve, join_stack, push_element, go_back,
}
use agent_smith_go.Agent.Installation.{UnixPlatform, linux, darwin, get_config_file_path}
use agent_smith_go.Agent.Installation.Element.{IsElement, split_byte-element}
use agent_smith_go.Agent.Installation.Places.{data_root, data_file, config_name-IsElement}
use agent_smith_go.Diagnostic.OrgId.{is_valid_org_id, is_valid_org_id-IsElement}
use agent_smith_go.Diagnostic.Scan.{
  AgentInfo, Machine, RootEntry, get_agent_data_root, found_config, agent_info, load_device,
  query_service_status, is_agent_directory, scan_entries, scan_agents_from,
}

found_config_lem :
    (platform : UnixPlatform) (org : Bytes)
    → IsElement org
    → found_config (get_agent_data_root platform) org
      ≡ data_root platform ++ (b'/' ∷ (org ++ codes "/config.json"))
unfolding get_agent_data_root join clean slash_join resolve join_stack split_byte eq_bytes go_back
    push_element
found_config_lem linux org e =
    rw (split_byte-element org (codes "config.json") e.no_slash, e.not_empty, e.not_dot, e.not_dots)
found_config_lem darwin org e =
    rw (split_byte-element org (codes "config.json") e.no_slash, e.not_empty, e.not_dot, e.not_dots)

-- The file that the scan looks at is the configuration file of the agent.
pub found_config-get_config_file_path :
    (platform : UnixPlatform) (org : Bytes)
    → IsElement org
    → found_config (get_agent_data_root platform) org ≡ get_config_file_path platform org
unfolding get_config_file_path
found_config-get_config_file_path platform org e =
    found_config_lem platform org e
    ∙ sym (data_file platform org (codes "config.json") e config_name-IsElement)

-- An agent whose configuration file is there, with what that file and its service say of it.
pub record IsInstalled (platform : UnixPlatform) (machine : Machine) (a : AgentInfo) : Type 0 where
  pub valid : is_valid_org_id a.org_id ≡ true
  pub config : a.config_file ≡ get_config_file_path platform a.org_id
  pub present : machine.exists a.config_file ≡ true
  pub loaded : a.device ≡ load_device machine (machine.read_file a.config_file)
  pub queried : a.is_running ≡ (query_service_status platform machine a.service_name).1

module _ (platform : UnixPlatform) (machine : Machine) where
  agent_info-IsInstalled :
      (entry : RootEntry)
      → is_agent_directory machine (get_agent_data_root platform) entry ≡ true
      → IsInstalled platform machine
          (agent_info platform machine (get_agent_data_root platform) entry.name)
  unfolding is_agent_directory agent_info
  agent_info-IsInstalled entry h =
      let v : is_valid_org_id entry.name ≡ true = ground arith in
      let e =
        found_config-get_config_file_path platform entry.name
          (is_valid_org_id-IsElement entry.name v) in
      record {
        valid = v;
        config = refl;
        present = rw (← e) (ground arith);
        loaded = rw e;
        queried = refl;
      }

  scan_entries-IsInstalled :
      (entries : List RootEntry)
      → All
          (IsInstalled platform machine)
          (scan_entries platform machine (get_agent_data_root platform) entries)
  unfolding scan_entries
  scan_entries-IsInstalled [] = tt
  scan_entries-IsInstalled (entry ∷ entries) =
      if_holds (All (IsInstalled platform machine))
        (is_agent_directory machine (get_agent_data_root platform) entry)
        (agent_info platform machine (get_agent_data_root platform) entry.name
          ∷ scan_entries platform machine (get_agent_data_root platform) entries)
        (scan_entries platform machine (get_agent_data_root platform) entries)
        (λ h. (agent_info-IsInstalled entry h, scan_entries-IsInstalled entries))
        (λ h. scan_entries-IsInstalled entries)

  -- Every agent that the scan of the data root lists has a valid organization id; the configuration
  -- file of that id is there, its device is what this very file says, and it counts as running when
  -- the query for its service says so.
  pub scan_agents_from-IsInstalled :
      (entries : Option (List RootEntry))
      → All
          (IsInstalled platform machine)
          (scan_agents_from platform machine (get_agent_data_root platform) entries)
  unfolding scan_agents_from
  scan_agents_from-IsInstalled none = tt
  scan_agents_from-IsInstalled (some entries) = scan_entries-IsInstalled entries
