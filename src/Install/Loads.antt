-- ===== src/Install/Loads.antt =====
-- Whether the service can load the configuration that config or update mode has saved.
use agent_smith_go.Base.{
  subst, codes, ◌++◌, ℕ, ◌<◌, ◌≡◌, refl, sym, ap, ◌∙◌, ◌⊎◌, inl, inr, Bool, true, false, Option,
  none, some, List, Bytes, ltb, ltb→lt, lt→ltb, ◌≢◌, Bool-cases, if◌then◌else◌, ℤ, negsuc, eq_ℤ,
}
use agent_smith_go.Interpreter.Message.{Except, done, failed}
use agent_smith_go.Agent.Device.{Device}
use agent_smith_go.Cli.Flags.Parse.{Scalars}
use agent_smith_go.Cli.Contexts.{CommonFlags, ConfigContext, new_config_context, new_update_context}
use agent_smith_go.Cli.Contexts.Valid.{
  IsQos, new_config_context-IsValid, new_update_context-IsValid,
}
use agent_smith_go.Install.Host.{Codec, Files, Manager}
use agent_smith_go.Install.Succeeds.{IsComplete, sending, fetches, IsWorking, run_config-Succeeds}
use agent_smith_go.Install.Machine.{Machine}
use agent_smith_go.Install.Machine.States.{described}
use agent_smith_go.Install.Machine.Runs.{Runs}
use agent_smith_go.Cli.Contexts.Chains.{done_injective}
use agent_smith_go.Service.Spool.Name.{zero_padded}
use agent_smith_go.Install.Config.Legal.{Installed}
use agent_smith_go.Install.Config.Installs.{run_config-IsConfigured}
use agent_smith_go.Install.Config.{run_config}
use agent_smith_go.Install.Settings.{configure_device, update_device, to_byte}
use agent_smith_go.Service.Startup.{check_qos, load_config}

loads :
    (d : Device) (saved : Bytes) (parse : Bytes → Except Device)
    → parse saved ≡ done d
    → check_qos d.mqtt_qos ≡ done tt
    → load_config (done saved) parse ≡ done d
unfolding load_config
loads d saved parse e h = rw (e, h) refl

checked_qos : (o : Option ℕ) → (check_qos o ≡ done tt) ⊎ ((q : ℕ) × (o ≡ some q) × (1 < q))
unfolding check_qos
checked_qos none = inl refl
checked_qos (some q) = elim (Bool-cases (ltb 1 q)) [
  | inl e ↦ inr (q, refl, ltb→lt 1 q e)
  | inr e ↦ rw e (inl refl)
]

abbrev written_qos : ℤ → Option ℕ → Option ℕ
written_qos q old = if eq_ℤ q (negsuc 0) then old else some (to_byte q)

written_checked :
    (q : ℤ) (old : Option ℕ)
    → IsQos q
    → (check_qos (written_qos q old) ≡ done tt) ⊎ ((q ≡ negsuc 0) × (written_qos q old ≡ old))
unfolding check_qos to_byte
written_checked q old (inl e) = rw e (inr (refl, refl))
written_checked q old (inr (inl e)) = rw e (inl refl)
written_checked q old (inr (inr e)) = rw e (inl refl)

not_done :
    (b : Bool) (e : Bytes) → b ≡ true → (if b then failed e else done (tt {0})) ≢ done (tt {0})
not_done true e h g = absurd cc
not_done false e h g = absurd cc

too_high : (n : ℕ) → 1 < n → check_qos (some n) ≢ done tt
unfolding check_qos
too_high n more = not_done (ltb 1 n) _ (lt→ltb 1 n more)

bad_engine :
    (q : ℤ) (old : Option ℕ) (n : ℕ)
    → IsQos q
    → written_qos q old ≡ some n
    → 1 < n
    → (q ≡ negsuc 0) × (m : ℕ) × (old ≡ some m) × (1 < m)
unfolding check_qos
bad_engine q old n h e more = elim (written_checked q old h) [
  | inl g ↦ absurd (too_high n more (sym (ap check_qos e) ∙ g))
  | inr (a, b) ↦ (a, n, sym b ∙ e, more)
]

-- encoding/json reads back what it has printed of the device.
abbrev pub IsReadBack : Codec → Device → Type 0
IsReadBack json d = (saved : Bytes) → json.print d ≡ done saved → json.parse saved ≡ done d

written_none : (q : ℤ) → IsQos q → check_qos (written_qos q none) ≡ done tt
unfolding check_qos
written_none q h = elim (written_checked q none h) [ inl e ↦ e | inr (e, g) ↦ ap check_qos g ]

-- The service loads every configuration that update mode saves, whatever the old one was, provided that
-- encoding/json reads back what it has printed.
pub updated_config_loads :
    (scalars : Scalars) (args : List Bytes) (c : CommonFlags) (d : Device) (json : Codec)
    (saved : Bytes)
    → IsReadBack json (update_device c d)
    → new_update_context scalars args ≡ done c
    → json.print (update_device c d) ≡ done saved
    → load_config (done saved) json.parse ≡ done (update_device c d)
unfolding update_device
updated_config_loads scalars args c d json saved back h g =
    loads (update_device c d) saved json.parse (back saved g)
      (written_none c.mqtt_qos (new_update_context-IsValid scalars args c h).qos)

-- A quality of service above 1 that the device asks for, where the flag --mqtt-qos was omitted.
abbrev pub IsTooHigh : ConfigContext → Device → Type 0
IsTooHigh c d = (c.common.mqtt_qos ≡ negsuc 0) × (q : ℕ) × (d.mqtt_qos ≡ some q) × (1 < q)

-- Whether the service can load a configuration file: with exactly this content, or, where the quality
-- of service is too high, not at all.
abbrev pub IsLoaded : Codec → ConfigContext → Device → Bytes → Type 0
IsLoaded json c d saved =
    (load_config (done saved) json.parse ≡ done (configure_device c.common d))
    ⊎ (IsTooHigh c d × (e : Bytes) × (load_config (done saved) json.parse ≡ failed e))

refused_qos : (q : ℕ) → 1 < q → (e : Bytes) × (check_qos (some q) ≡ failed e)
unfolding check_qos
refused_qos q more =
    (codes "mqtt_qos must be 0 or 1; got " ++ zero_padded 0 q, rw (lt→ltb 1 q more) refl)

refuses :
    (d : Device) (saved : Bytes) (parse : Bytes → Except Device) (q : ℕ)
    → parse saved ≡ done d
    → d.mqtt_qos ≡ some q
    → 1 < q
    → (e : Bytes) × (load_config (done saved) parse ≡ failed e)
unfolding load_config
refuses d saved parse q p h more = let (e, r) = refused_qos q more in (e, rw (p, h, r) refl)

config_loads :
    (scalars : Scalars) (args : List Bytes) (c : ConfigContext) (d : Device) (json : Codec)
    (saved : Bytes)
    → json.parse saved ≡ done (configure_device c.common d)
    → new_config_context scalars args ≡ done c
    → IsLoaded json c d saved
unfolding configure_device
config_loads scalars args c d json saved back h =
    let valid = (new_config_context-IsValid scalars args c h).0 in
    let written = written_qos c.common.mqtt_qos d.mqtt_qos in
    elim (checked_qos written) [
      | inl e ↦ inl (loads (configure_device c.common d) saved json.parse back e)
      | inr (q, e, more) ↦
          let (x, r) = refuses (configure_device c.common d) saved json.parse q back e more in
          inr (bad_engine c.common.mqtt_qos d.mqtt_qos q valid.qos e more, x, r)
    ]

-- What a run of config mode leaves for the service.
abbrev pub LeavesLoadable :
    Codec → ConfigContext → Device → Machine → Bool → Except (Unit {0}) → Type 0
LeavesLoadable json c d n live r =
    (r ≡ done tt) × (saved : Bytes) × (n.config ≡ some saved) × IsLoaded json c d saved

left_configuration :
    (d : Device) (files : Files) (json : Codec) (c : ConfigContext) (n : Machine)
    (r : Except (Unit {0}))
    → IsComplete d
    → r ≡ done tt
    → Installed (sending d) files json c n r
    → (saved : Bytes) × (json.print (configure_device c.common d) ≡ done saved)
      × (n.config ≡ some saved)
left_configuration d files json c n r complete ok i =
    let (device, saved, path, program, h, g, _, _, e) =
      subst (Installed (sending d) files json c n) ok i in
    let same : device ≡ d = done_injective device d (sym h ∙ fetches d complete) in
    (
      saved,
      ap (λ (o : Device). json.print (configure_device c.common o)) (sym same) ∙ g,
      ap (λ (m : Machine). m.config) e,
    )

-- Config mode accepts every complete device that the engine sends, whatever quality of service it asks
-- for: where the calls on the machine succeed and the configuration prints, it succeeds. The
-- configuration file that it leaves is one that the service loads with exactly the content saved; or
-- the flag --mqtt-qos was omitted, the engine asks for a quality of service above 1, and the service
-- cannot load the file. The condition is that encoding/json reads back what it has printed.
pub configured_config_loads :
    (scalars : Scalars) (args : List Bytes) (c : ConfigContext) (d : Device) (files : Files)
    (svc : Manager) (json : Codec) (name saved : Bytes) (config program : Option Bytes)
    → new_config_context scalars args ≡ done c
    → IsComplete d
    → IsWorking files svc
    → IsReadBack json (configure_device c.common d)
    → json.print (configure_device c.common d) ≡ done saved
    → Runs
        (described svc config program)
        (run_config (sending d) files svc json name c)
        (LeavesLoadable json c d)
configured_config_loads scalars args c d files svc json name saved config program h complete w back
      g =
    let (n, e, q) = run_config-IsConfigured (sending d) files svc json name c config program in
    let ok = run_config-Succeeds d files svc json name saved c complete w g in
    let (bytes, p, left) = left_configuration d files json c n _ complete ok q.installed in
    (n, e, (ok, bytes, left, config_loads scalars args c d json bytes (back bytes p) h))
