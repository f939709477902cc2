-- ===== src/Examples/Data.antt =====
-- One quiet computer with a running proxy, a phone and a session: inputs for the examples.
use http_capture.Prelude.{pos, codes, [], ◌∷◌, none, some, false}
use http_capture.World.{SessionState, ProxifyState, Device, World, Env, holds, fine, refused}

abbrev pub calm : Env
calm = record {
  now = pos 5000;
  fault = λ op. fine;
  config_root = codes "/c";
  working_directory = codes "/w";
  timestamp = codes "20260101-000000";
  random_suffix = codes "abcd";
  process_identity = λ pid. some (codes "77", codes "S");
  sha256_hex = λ s. s;
  parse_url = λ s. some (record { hostname = codes "h"; port = codes "8888" });
  charles_reply = λ client path. some (200, codes "ok");
  decode = λ line. none;
  encode_har_entry = λ t. none;
}

-- The home directory cannot be found.
abbrev pub broken : Env
broken = record calm { fault = λ op. refused }

abbrev pub session_one : SessionState
session_one = record {
  capture_id = codes "20260101-a";
  engine = codes "charles";
  engine_version = [];
  engine_revision = [];
  packages = codes "p" ∷ [];
  device_name = [];
  client_ip = [];
  proxy_host = codes "h";
  proxy_port = pos 8888;
  started_ms = pos 1000;
  stopped_ms = pos 0;
  status = codes "recording";
  session_dir = codes "/s";
  traffic_source = [];
  start_offset = pos 0;
  request_count = 0;
  skipped_count = 0;
}

abbrev pub proxy_one : ProxifyState
proxy_one = record {
  pid = pos 9;
  start_token = codes "77";
  executable = [];
  host = codes "0.0.0.0";
  port = pos 8899;
  started_ms = pos 1;
  log_path = [];
  traffic_path = codes "/t";
  config_dir = codes "/c";
  max_body_bytes = pos 4;
  version = codes "v";
  source_revision = codes "r";
}

abbrev pub phone : Device
phone = record {
  profile_id = codes "P";
  device_id = codes "D";
  device_name = codes "N";
  token_sha256 = codes "TOKEN";
  engine = codes "charles";
  created_ms = pos 1;
  last_seen_ms = pos 0;
  revoked = false;
  revoked_ms = pos 0;
}

abbrev pub tablet : Device
tablet = record phone { device_id = codes "E"; token_sha256 = codes "OTHER" }

abbrev pub idle : World
idle = record {
  active = none;
  metas = [];
  proxify = some (holds proxy_one);
  mitm = none;
  devices = some (holds (phone ∷ tablet ∷ []));
  files = (codes "/t", codes "{}\n") ∷ [];
  charles_log = [];
}

abbrev pub busy : World
busy = record idle { active = some (holds session_one) }
