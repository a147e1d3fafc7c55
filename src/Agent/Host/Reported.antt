-- ===== src/Agent/Host/Reported.antt =====
-- What the host information says, and when there is none.
use agent_smith_go.Base.{
  subst, codes, ℕ, ◌≡◌, ◌≢◌, ◌⊎◌, inl, inr, refl, Bool, true, false, not, ◌||◌, Option, none, some,
  List, [], ◌∷◌, arith, Bytes, is_empty, All, any, split_byte, if_holds, Bool-cases, Option-cases,
  trim_space,
}
use agent_smith_go.Interpreter.Message.{Except, done, failed, Except-cases}
use agent_smith_go.Agent.Installation.{UnixPlatform}
use agent_smith_go.Service.Spool.Name.{digits, digit_count}
use agent_smith_go.Agent.Host.{HostInfo, SystemInfo, DomainInfo, to_lower, ram_gb, new_host_info}
use agent_smith_go.Agent.Host.Providers.{
  Queries, unix_system, unix_memory, mac_address, without_colons, first_address, EntraScan,
  processor_name, answered, panics, is_joined_line, names_domain, second_part, scan_lines,
  windows_entra_domain,
}

-- Information that agrees with every query; or the error of the first system query that failed.
abbrev pub IsReported : Bytes → SystemInfo → DomainInfo → Except HostInfo → Type 0
IsReported org sys domain (done info) =
    (sys.host_platform ≡ done info.operating_system)
    × (sys.cpu_model_name ≡ done info.cpu_model)
    × ((name : Bytes) × (sys.hostname ≡ done name) × (info.host_name ≡ to_lower name))
    × (sys.mac_address ≡ done info.mac_address)
    × ((bytes : ℕ) × (sys.total_memory_bytes ≡ done bytes) × (info.ram_gb ≡ ram_gb bytes))
    × (info.ad_domain ≡ domain.ad_domain.0)
    × (info.is_ad_domain_controller ≡ domain.is_ad_domain_controller.0)
    × (info.is_entra_connect_server ≡ domain.is_entra_connect_server.0)
    × (info.entra_domain ≡ domain.entra_domain.0)
    × (info.org_id ≡ org)
IsReported org sys domain (failed e) =
    (sys.host_platform ≡ failed e)
    ⊎ (sys.cpu_model_name ≡ failed e)
    ⊎ (sys.hostname ≡ failed e)
    ⊎ (sys.mac_address ≡ failed e)
    ⊎ (sys.total_memory_bytes ≡ failed e)

-- The host information agrees with every query of the system, which must all succeed; it fails only
-- with the error of one of these. A failed query of the domain leaves its field empty and fails
-- nothing.
pub new_host_info-IsReported :
    (platform : UnixPlatform) (version org : Bytes) (sys : SystemInfo) (domain : DomainInfo)
    → IsReported org sys domain (new_host_info platform version org sys domain)
unfolding new_host_info
new_host_info-IsReported platform version org sys domain = elim (Except-cases sys.host_platform) [
  | inr (e, h) ↦ rw h (inl refl)
  | inl (p, hp) ↦ elim (Except-cases sys.cpu_model_name) [
    | inr (e, h) ↦ rw (hp, h) (inr (inl refl))
    | inl (c, hc) ↦ elim (Except-cases sys.hostname) [
      | inr (e, h) ↦ rw (hp, hc, h) (inr (inr (inl refl)))
      | inl (n, hn) ↦ elim (Except-cases sys.mac_address) [
        | inr (e, h) ↦ rw (hp, hc, hn, h) (inr (inr (inr (inl refl))))
        | inl (m, hm) ↦ elim (Except-cases sys.total_memory_bytes) [
          | inr (e, h) ↦ rw (hp, hc, hn, hm, h) (inr (inr (inr (inr refl))))
          | inl (b, hb) ↦
              rw (hp, hc, hn, hm, hb)
                (refl, refl, (n, refl, refl), refl, (b, refl, refl), refl, refl, refl, refl, refl)
        ]
      ]
    ]
  ]
]

without_colons_lem : (a : Bytes) → All (λ (c : ℕ). c ≢ b':') (without_colons a)
without_colons_lem [] = tt
without_colons_lem (c ∷ a) = ground (arith, without_colons_lem a)

-- An address without colons, of an interface that has one; or there is none with an address.
abbrev pub IsAddress : List Bytes → Except (Option Bytes) → Type 0
IsAddress addresses (done none) = ⊥
IsAddress addresses (done (some a)) =
    All (λ (c : ℕ). c ≢ b':') a × (any (λ (b : Bytes). not (is_empty b)) addresses ≡ true)
IsAddress addresses (failed e) = any (λ (b : Bytes). not (is_empty b)) addresses ≡ false

IsAddress-skip :
    (addresses : List Bytes) (r : Except (Option Bytes))
    → IsAddress addresses r
    → IsAddress ([] ∷ addresses) r
IsAddress-skip addresses (done none) h = h
IsAddress-skip addresses (done (some a)) h = h
IsAddress-skip addresses (failed e) h = h

-- The hardware address is given without colons and belongs to an interface; it is missing only where
-- no interface has one.
pub mac_address-IsAddress :
    (addresses : List Bytes) → IsAddress addresses (mac_address (done addresses))
unfolding mac_address first_address
mac_address-IsAddress [] = refl
mac_address-IsAddress ([] ∷ addresses) =
    IsAddress-skip addresses (first_address addresses) (mac_address-IsAddress addresses)
mac_address-IsAddress ((c ∷ a) ∷ addresses) = (without_colons_lem (c ∷ a), refl)

address_found :
    (addresses : List Bytes)
    → any (λ (b : Bytes). not (is_empty b)) addresses ≡ true
    → (m : Option Bytes) × (mac_address (done addresses) ≡ done m)
address_found addresses h = elim (Except-cases (mac_address (done addresses))) [
  | inl (m, e) ↦ (m, e)
  | inr (e, f) ↦
      let no : any (λ (b : Bytes). not (is_empty b)) addresses ≡ false =
        subst (IsAddress addresses) f (mac_address-IsAddress addresses) in
      absurd (ground arith)
]

no_ram : ram_gb 0 ≡ codes "0"
unfolding ram_gb digits digit_count
no_ram = refl

-- On Linux and macOS, where the platform, a processor, the host name and an interface with an address
-- are known, a failure to read the memory does not fail the host information: it says that the
-- machine has 0 GB, and agrees with the other queries.
pub memory_error_hidden :
    (platform : UnixPlatform) (version org : Bytes) (q : Queries) (domain : DomainInfo)
    (p first n e : Bytes) (others addresses : List Bytes)
    → q.host_platform ≡ done p
    → q.cpus ≡ done (first, others)
    → q.hostname ≡ done n
    → q.interfaces ≡ done addresses
    → any (λ (b : Bytes). not (is_empty b)) addresses ≡ true
    → q.virtual_memory ≡ failed e
    → (info : HostInfo) × (new_host_info platform version org (unix_system q) domain ≡ done info)
      × (info.ram_gb ≡ codes "0")
      × (info.operating_system ≡ p)
      × (info.cpu_model ≡ trim_space first)
      × (info.host_name ≡ to_lower n)
      × (mac_address (done addresses) ≡ done info.mac_address)
unfolding new_host_info unix_system unix_memory processor_name
memory_error_hidden platform version org q domain p first n e others addresses hp hc hn hi any_ hv =
    let (m, hm) = address_found addresses any_ in
    rw (hp, hc, hn, hi, hv, hm) (_, refl, no_ram, refl, refl, refl, refl)

-- What the answer of dsregcmd says about the lines that it rests on.
abbrev pub IsFounded : Bool → List Bytes → EntraScan → Type 0
IsFounded joined lines (answered none) = Unit {0}
IsFounded joined lines (answered (some d)) =
    (any names_domain lines ≡ true) × ((joined || any is_joined_line lines) ≡ true)
IsFounded joined lines panics = any names_domain lines ≡ true

IsFounded-later :
    (joined : Bool) (line : Bytes) (lines : List Bytes) (r : EntraScan)
    → IsFounded (joined || is_joined_line line) lines r
    → IsFounded joined (line ∷ lines) r
IsFounded-later joined line lines (answered none) h = tt
IsFounded-later joined line lines (answered (some d)) h = ground arith
IsFounded-later joined line lines panics h = ground arith

IsFounded-domain :
    (joined : Bool) (line d : Bytes) (lines : List Bytes)
    → names_domain line ≡ true
    → (joined || is_joined_line line) ≡ true
    → IsFounded joined (line ∷ lines) (answered (some d))
IsFounded-domain joined line d lines n j = ground arith

scan_lines-IsFounded :
    (joined : Bool) (lines : List Bytes) → IsFounded joined lines (scan_lines joined lines)
unfolding scan_lines
scan_lines-IsFounded joined [] = tt
scan_lines-IsFounded joined (line ∷ lines) =
    let now = joined || is_joined_line line in
    let rest = scan_lines now lines in
    let later = IsFounded-later joined line lines rest (scan_lines-IsFounded now lines) in
    elim (Bool-cases (names_domain line)) [
      | inr other ↦ rw other later
      | inl named ↦ elim (Option-cases (second_part (split_byte b':' line))) [
        | inl missing ↦ rw (named, missing) (ground arith)
        | inr (d, found) ↦
            rw (named, found)
              (if_holds (IsFounded joined (line ∷ lines)) now (answered (some (trim_space d))) rest
                (λ e. IsFounded-domain joined line (trim_space d) lines named e) (λ e. later))
      ]
    ]

-- A domain of Entra is reported only for a machine that dsregcmd calls joined.
pub windows_entra_domain-IsFounded :
    (output : Bytes) → IsFounded false (split_byte 10 output) (windows_entra_domain output)
unfolding windows_entra_domain
windows_entra_domain-IsFounded output = scan_lines-IsFounded false (split_byte 10 output)
