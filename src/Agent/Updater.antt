-- ===== src/Agent/Updater.antt =====
-- internal/agent/updater.go: the check for a release, its download, and the retries of an update.
pub mod Leftovers
pub mod Retry
pub mod Runner
pub mod Defaults
use agent_smith_go.Base.{
  ℕ, zero, suc, ◌+◌, ◌^◌, Bool, true, false, not, ◌&&◌, ◌||◌, Option, none, some, List, [], ◌∷◌,
  ◌++◌, ℤ, pos, wrap_i64, mul_i64, if◌then◌else◌, ◌==◌, Bytes, codes, eq_bytes, has_suffix, hour,
  minute, ◌*◌,
}
use agent_smith_go.Agent.Device.{Device}
use agent_smith_go.Interpreter.Message.{Except, done, failed, ◌>>=◌, ◌>>◌, try}

pub record Asset : Type 0 where
  pub id : ℤ
  pub name : Bytes
  pub url : Bytes

pub record Release : Type 0 where
  pub id : ℤ
  pub tag_name : Bytes
  pub assets : List Asset

-- How the calls of the HTTP client and of the file system go; `none` where there is no error.
pub record Web : Type 0 where
  pub request_error : Option Bytes
  pub send_error : Option Bytes
  pub status : ℕ
  pub status_text : Bytes
  pub release : Except Release
  pub temp_file : Except Bytes
  pub copy_error : Option Bytes
  pub chmod_error : Option Bytes
  pub remove_fails : Bool

-- The error of a status other than 200.
abbrev refused : Web → Bytes → Option Bytes
refused web text = if web.status == 200 then none else some (text ++ web.status_text)

unfoldable pub check : Web → Except Release
check web = do
  try web.request_error
  try web.send_error
  try (refused web (codes "unexpected status code: "))
  web.release

-- Up to the temporary file.
unfoldable pub start_download : Web → Except Bytes
start_download web = do
  try web.request_error
  try web.send_error
  try (refused web (codes "download failed with status code: "))
  web.temp_file

-- From the temporary file on: the copy and the permission.
unfoldable pub fill_download : Web → Bytes → Except Bytes
fill_download web path = do try web.copy_error; try web.chmod_error; done path

-- The deferred removal, for a download without success.
unfoldable pub clean_download : Web → Bytes → Except Bytes → Except Bytes × List Bytes
clean_download web path (done p) = (done p, path ∷ [])
clean_download web path (failed e) = (failed e, if web.remove_fails then path ∷ [] else [])

unfoldable pub finish_download : Web → Except Bytes → Except Bytes × List Bytes
finish_download web (failed e) = (failed e, [])
finish_download web (done path) = clean_download web path (fill_download web path)

-- Download, with the files it leaves behind.
unfoldable pub download : Web → Except Bytes × List Bytes
download web = finish_download web (start_download web)

abbrev pub flag_if : Bool → Bytes → List Bytes
flag_if b flag = if b then flag ∷ [] else []

-- The arguments of the command that Update runs.
unfoldable pub update_args : Device → List Bytes
update_args device =
    (codes "--org-id"
      ∷ device.rewst_org_id
      ∷ codes "--update"
      ∷ codes "--logging-level"
      ∷ device.logging_level
      ∷ [])
    ++ (flag_if device.use_syslog (codes "--syslog")
        ++ (flag_if device.disable_agent_postback (codes "--disable-agent-postback")
            ++ flag_if device.disable_auto_updates (codes "--no-auto-updates")))

-- Which build the code is: updater_linux.go, updater_darwin.go or updater_windows.go.
pub data Platform : Type 0 where
  linux macos windows : Platform

abbrev pub asset_suffix : Platform → Bytes
asset_suffix linux = codes ".linux.bin"
asset_suffix macos = codes ".mac-os.bin"
asset_suffix windows = codes ".win.exe"

abbrev platform_name : Platform → Bytes
platform_name linux = codes "linux"
platform_name macos = codes "macos"
platform_name windows = codes "windows"

unfoldable pub select_asset : Platform → List Asset → Except Asset
select_asset platform [] = failed (codes "no asset found for " ++ platform_name platform)
select_asset platform (asset ∷ assets) =
    let rest = select_asset platform assets in
    if has_suffix asset.name (asset_suffix platform) then done asset else rest

-- Run behind SelectAsset: `fetch` is Download and `command` is the error of runCommand.
unfoldable pub install :
    (Asset → Except Bytes)
    → (Bytes → List Bytes → Option Bytes)
    → Device
    → Asset
    → Except (Option (Bytes × List Bytes))
install fetch command device asset = do
  path ← fetch asset
  try (command path (update_args device))
  done (some (path, update_args device))

-- Run behind Check: the command that was run, if any.
unfoldable pub update_to :
    Platform
    → (Asset → Except Bytes)
    → (Bytes → List Bytes → Option Bytes)
    → Bytes
    → Device
    → Release
    → Except (Option (Bytes × List Bytes))
update_to platform fetch command version device release =
    if eq_bytes release.tag_name version
    then done none
    else select_asset platform release.assets >>= install fetch command device

unfoldable pub run :
    Platform
    → Except Release
    → (Asset → Except Bytes)
    → (Bytes → List Bytes → Option Bytes)
    → Bytes
    → Device
    → Except (Option (Bytes × List Bytes))
run platform checked fetch command version device =
    checked >>= update_to platform fetch command version device

abbrev pub default_update_interval : ℤ
default_update_interval = pos (48 * hour)

abbrev pub default_base_backoff : ℤ
default_base_backoff = pos (5 * minute)

abbrev pub default_max_retries : ℕ
default_max_retries = 5

-- r.baseBackoff * (1 << attempt), in int64
unfoldable pub backoff_of : ℤ → ℕ → ℤ
backoff_of base attempt = mul_i64 base (wrap_i64 (pos (2 ^ attempt)))

-- The waits of retryWithBackoff, how many updates it ran, and what it returned.
pub record Retries : Type 0 where
  pub waits : List ℤ
  pub runs : ℕ
  pub stopped : Bool

-- The loop with `left` retries to go: `stops k` tells whether the stop comes during the wait in front
-- of attempt `k`, and `fails k` whether that update fails or panics.
unfoldable pub retry_loop : ℤ → (ℕ → Bool) → (ℕ → Bool) → ℕ → ℕ → Retries
retry_loop base stops fails zero attempt = record { waits = []; runs = attempt; stopped = false }
retry_loop base stops fails (suc left) attempt =
    let rest = retry_loop base stops fails left (suc attempt) in
    let wait = backoff_of base attempt in
    if stops attempt
    then record { waits = wait ∷ []; runs = attempt; stopped = true }
    else if fails attempt
    then record rest { waits = wait ∷ rest.waits }
    else record { waits = wait ∷ []; runs = suc attempt; stopped = false }

unfoldable pub retry_with_backoff : ℤ → ℕ → (ℕ → Bool) → (ℕ → Bool) → Retries
retry_with_backoff base max_retries stops fails = retry_loop base stops fails max_retries 0
