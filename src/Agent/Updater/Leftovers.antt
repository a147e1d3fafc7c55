-- ===== src/Agent/Updater/Leftovers.antt =====
-- The temporary file of a download and the command of an update (internal/agent/updater.go).
use agent_smith_go.Base.{
  ◌≡◌, ap, sym, ◌≢◌, ◌⊎◌, inl, inr, refl, arith, true, false, Option, none, some, Option-cases,
  List, [], ◌∷◌, Bytes, Bool-cases, eq_bytes, eq_bytes_refl, has_suffix,
}
use agent_smith_go.Agent.Device.{Device}
use agent_smith_go.Interpreter.Message.{Except, done, failed, Except-cases}
use agent_smith_go.Agent.Updater.{
  Asset, Release, Web, start_download, fill_download, clean_download, finish_download, download,
  update_args, update_to, run, Platform, asset_suffix, select_asset, install,
}

-- What a download may leave: the file it returns, or nothing, or the file that cannot be removed.
abbrev pub LeavesOnly : Web → Except Bytes → List Bytes → Type 0
LeavesOnly web (done path) files = files ≡ path ∷ []
LeavesOnly web (failed e) files = (web.remove_fails ≡ false) → files ≡ []

fill_download_path : (web : Web) (path p : Bytes) → fill_download web path ≡ done p → p ≡ path
unfolding fill_download
fill_download_path web path p h = ground arith

cleaned :
    (web : Web) (path : Bytes) (r : Except Bytes)
    → ((p : Bytes) → r ≡ done p → p ≡ path)
    → LeavesOnly web (clean_download web path r).0 (clean_download web path r).1
unfolding clean_download
cleaned web path (done p) h = ap (λ (q : Bytes). q ∷ []) (sym (h p refl))
cleaned web path (failed e) h = λ k. ground arith

finish_download-LeavesOnly :
    (web : Web) (r : Except Bytes)
    → LeavesOnly web (finish_download web r).0 (finish_download web r).1
unfolding finish_download
finish_download-LeavesOnly web (failed e) = λ _. refl
finish_download-LeavesOnly web (done path) =
    cleaned web path (fill_download web path) (fill_download_path web path)

-- A download that succeeds leaves exactly the file it returns; one that fails leaves no file, if the
-- temporary file can be removed.
pub download-LeavesOnly : (web : Web) → LeavesOnly web (download web).0 (download web).1
unfolding download
download-LeavesOnly web = finish_download-LeavesOnly web (start_download web)

-- The first asset of the list whose name has the suffix of the platform.
abbrev pub IsSelected : Platform → List Asset → Asset → Type 0
IsSelected platform [] asset = ⊥
IsSelected platform (a ∷ assets) asset =
    ((has_suffix a.name (asset_suffix platform) ≡ true) × (asset ≡ a))
    ⊎ ((has_suffix a.name (asset_suffix platform) ≡ false) × IsSelected platform assets asset)

select_asset-IsSelected :
    (platform : Platform) (assets : List Asset) (asset : Asset)
    → select_asset platform assets ≡ done asset
    → IsSelected platform assets asset
unfolding select_asset
select_asset-IsSelected platform [] asset h = absurd cc
select_asset-IsSelected platform (a ∷ assets) asset h =
    elim (Bool-cases (has_suffix a.name (asset_suffix platform))) [
      | inl e ↦ inl (e, ground arith)
      | inr e ↦ inr (e, select_asset-IsSelected platform assets asset (ground arith))
    ]

installed :
    (fetch : Asset → Except Bytes) (command : Bytes → List Bytes → Option Bytes) (device : Device)
    (asset : Asset) (path : Bytes) (args : List Bytes)
    → install fetch command device asset ≡ done (some (path, args))
    → (fetch asset ≡ done path) × (command path args ≡ none) × (args ≡ update_args device)
unfolding install
installed fetch command device asset path args h = elim (Except-cases (fetch asset)) [
  | inr e ↦ absurd (ground arith)
  | inl (p, e) ↦ elim (Option-cases (command p (update_args device))) [
    | inr c ↦ absurd (ground arith)
    | inl c ↦ ground arith
  ]
]

-- What a run that ran a command has done.
abbrev pub IsInstalled :
    Platform
    → (Asset → Except Bytes)
    → (Bytes → List Bytes → Option Bytes)
    → Bytes
    → Device
    → Release
    → Bytes
    → List Bytes
    → Type 0
IsInstalled platform fetch command version device release path args =
    (release.tag_name ≢ version)
    × (asset : Asset) × IsSelected platform release.assets asset
    × (fetch asset ≡ done path)
    × (command path args ≡ none)
    × (args ≡ update_args device)

-- A command is run only for a release of another version than the running one, and it is the file
-- downloaded for the first asset of the platform with the arguments of the device.
pub run-IsInstalled :
    (platform : Platform) (release : Release) (fetch : Asset → Except Bytes)
    (command : Bytes → List Bytes → Option Bytes) (version : Bytes) (device : Device) (path : Bytes)
    (args : List Bytes)
    → run platform (done release) fetch command version device ≡ done (some (path, args))
    → IsInstalled platform fetch command version device release path args
unfolding run update_to
run-IsInstalled platform release fetch command version device path args h =
    elim (Bool-cases (eq_bytes release.tag_name version)) [
      | inl e ↦ absurd (ground arith)
      | inr e ↦ elim (Except-cases (select_asset platform release.assets)) [
        | inr s ↦ absurd (ground arith)
        | inl (asset, s) ↦
            let same : install fetch command device asset ≡ done (some (path, args)) =
              ground arith in
            let (a, b, c) = installed fetch command device asset path args same in
            (
              λ t. absurd (ground (arith, eq_bytes_refl version)),
              asset,
              select_asset-IsSelected platform release.assets asset s,
              a,
              b,
              c,
            )
      ]
    ]
