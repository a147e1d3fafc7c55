-- ===== src/System/Linux/Words.antt =====
-- How systemd reads the command line of the unit (service_linux.go).
use agent_smith_go.Base.{
  ℕ, ◌≡◌, refl, Bool, true, false, some, not, ◌&&◌, ◌||◌, leb, ◌==◌, List, [], ◌∷◌, ◌++◌, Bytes,
  is_empty, All, Option, ap, ◌∙◌, sym,
}
use agent_smith_go.Interpreter.Message.{done}
use agent_smith_go.Cli.Flags.{service}
use agent_smith_go.Cli.Flags.Parse.{Scalars}
use agent_smith_go.Cli.Contexts.{new_service_context}
use agent_smith_go.Cli.Dispatch.{dispatch}
use agent_smith_go.System.{AgentParams, service_arguments}
use agent_smith_go.System.Linux.{exec_start}
use agent_smith_go.System.Starts.{registered_context, service_arguments_start}

-- A byte without a meaning of its own in a command line of systemd: no white space, quote, backslash,
-- specifier, variable or separator.
abbrev pub is_plain_byte : ℕ → Bool
is_plain_byte c =
    leb 33 c && not (c == b'"' || c == 39 || c == b'\\' || c == b'%' || c == b'$' || c == b';')

unfoldable pub all_plain : Bytes → Bool
all_plain [] = true
all_plain (c ∷ s) = is_plain_byte c && all_plain s

abbrev pub IsPlain : Bytes → Type 0
IsPlain w = (is_empty w ≡ false) × (all_plain w ≡ true)

abbrev pub unwords : Bytes → List Bytes → Bytes
unwords w [] = w
unwords w (v ∷ ws) = w ++ (b' ' ∷ unwords v ws)

-- systemd.syntax: a plain word in front of a blank is a word of the line, and the words of the rest
-- follow; a plain word alone is the only one.
abbrev pub IsSplitter : (Bytes → List Bytes) → Type 0
IsSplitter split =
    ((w : Bytes) → IsPlain w → split w ≡ w ∷ [])
    × ((w v : Bytes) (ws : List Bytes)
        → IsPlain w
        → All IsPlain (v ∷ ws)
        → split (w ++ (b' ' ∷ unwords v ws)) ≡ w ∷ split (unwords v ws))

-- systemd.service: a first word that is an absolute path has no special prefix, so it is executed as
-- it is, with the other words as its arguments.
abbrev pub IsStarter : (Bytes → List Bytes) → (Bytes → Option (Bytes × List Bytes)) → Type 0
IsStarter split start =
    (line path : Bytes) (ws : List Bytes)
    → split line ≡ (b'/' ∷ path) ∷ ws
    → start line ≡ some (b'/' ∷ path, ws)

splits_words :
    (split : Bytes → List Bytes) (w : Bytes) (ws : List Bytes)
    → IsSplitter split
    → All IsPlain (w ∷ ws)
    → split (unwords w ws) ≡ w ∷ ws
splits_words split w [] h (p, _) = h.0 w p
splits_words split w (v ∷ ws) h (p, q) =
    h.1 w v ws p q ∙ ap (λ (l : List Bytes). w ∷ l) (splits_words split v ws h q)

-- Where the executable is an absolute path, and it, the org id and the two paths of a registration are
-- plain words, systemd starts this executable on the unit's command line, and with the arguments that
-- it then gets main runs service mode with this org id, configuration file and log file.
pub linux_service_starts :
    (split : Bytes → List Bytes) (start : Bytes → Option (Bytes × List Bytes)) (scalars : Scalars)
    (p : AgentParams) (path : Bytes)
    → IsSplitter split
    → IsStarter split start
    → p.agent_executable_path ≡ b'/' ∷ path
    → IsPlain p.agent_executable_path
    → IsPlain p.org_id
    → IsPlain p.config_file_path
    → IsPlain p.log_file_path
    → (args : List Bytes) × (start (exec_start p) ≡ some (p.agent_executable_path, args))
      × (dispatch scalars args ≡ some service)
      × (new_service_context scalars args ≡ done (registered_context p))
unfolding exec_start all_plain
linux_service_starts split start scalars p path splits starts absolute exe org config log =
    let started = service_arguments_start scalars p org.0 config.0 log.0 in
    let words =
      splits_words split p.agent_executable_path (service_arguments p) splits
        (exe, ((refl, refl), (org, ((refl, refl), (config, ((refl, refl), (log, tt))))))) in
    let first = ap (λ (w : Bytes). w ∷ service_arguments p) absolute in
    (
      service_arguments p,
      starts (exec_start p) path (service_arguments p) (words ∙ first)
          ∙ ap (λ (w : Bytes). some (w, service_arguments p)) (sym absolute),
      started.0,
      started.1,
    )
