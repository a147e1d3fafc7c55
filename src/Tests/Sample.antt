-- ===== src/Tests/Sample.antt =====
-- Sample data: a device, a codec and file systems.
use agent_smith_go.Base.{true, false, Option, none, some, [], ◌∷◌, pos, negsuc, Bytes, codes}
use agent_smith_go.Agent.Device.{Device}
use agent_smith_go.Service.Spool.{DirEntry, SpoolEntry, PostbackSpool, Codec, Disk}
use agent_smith_go.Service.Spool.Name.{file_name}

abbrev pub device : Device
device = record {
  device_id = codes "d1";
  rewst_org_id = codes "org";
  rewst_engine_host = codes "engine.example";
  shared_access_key = codes "key";
  azure_iot_hub_host = codes "hub.example";
  broker = [];
  logging_level = codes "info";
  use_syslog = false;
  plugins = [];
  disable_agent_postback = false;
  disable_auto_updates = true;
  github_token = [];
  mqtt_qos = none;
  mqtt_connect_timeout_seconds = some (pos 10);
  mqtt_subscribe_timeout_seconds = none;
  worker_count = some (negsuc 0);
  message_queue_size = some (pos 3);
  postback_max_attempts = some (pos 2);
  postback_base_retry_backoff_seconds = none;
  command_timeout_seconds = some (pos 60);
  max_output_bytes = some (pos 4);
  sas_token_lifetime_hours = some (pos 1);
}

abbrev pub entry : SpoolEntry
entry = record { post_id = codes "p"; result = codes "r"; created_at = pos 1000 }

-- Keeps the post id alone.
abbrev pub encode : SpoolEntry → Option Bytes
encode e = some e.post_id

abbrev pub decode : Bytes → Option SpoolEntry
decode [] = none
decode (x ∷ s) = some (record { post_id = x ∷ s; result = []; created_at = pos 1000 })

abbrev pub codec : Codec
codec = record { encode = encode; decode = decode }

abbrev pub disk : Disk
disk = record {
  mkdir_fails = false;
  read_dir_fails = false;
  read_fails = λ n. false;
  remove_fails = λ n. false;
  write_fails = false;
  rename_fails = false;
}

abbrev pub stored : Bytes → Bytes → DirEntry
stored name contents = record { name = name; is_dir = false; contents = contents }

-- Two entries and a corrupt one, in no order.
abbrev pub spool : PostbackSpool
spool = record {
  max_entries = pos 2;
  max_age = pos 5000;
  seq = 3;
  dropped_total = pos 0;
  dir =
      stored (file_name (pos 900) 3) (codes "b")
      ∷ stored (file_name (pos 800) 1) (codes "a")
      ∷ stored (file_name (pos 850) 2) []
      ∷ [];
}
