-- ===== src/Agent/Installation/Places.antt =====
-- The directories and files of an installation lie where they should.
use agent_smith_go.Base.{
  ℕ, ◌≡◌, ◌≢◌, refl, true, [], ◌∷◌, ◌++◌, arith, Bytes, codes, eq_bytes, split_byte, append-nil,
  has_prefix, All,
}
use agent_smith_go.Utils.Filepath.{
  join, clean, slash_join, resolve, join_stack, push_element, go_back,
}
use agent_smith_go.Agent.Installation.{
  UnixPlatform, linux, darwin, get_data_directory, get_config_file_path, get_program_directory,
}
use agent_smith_go.Agent.Installation.Element.{IsElement, split_byte-element, split_byte_whole}

abbrev pub data_root : UnixPlatform → Bytes
data_root linux = codes "/etc/rewst_remote_agent"
data_root darwin = codes "/Library/Application Support/rewst_remote_agent"

pub get_data_directory_lem :
    (platform : UnixPlatform) (org : Bytes)
    → IsElement org
    → get_data_directory platform org ≡ data_root platform ++ (b'/' ∷ org)
unfolding get_data_directory join clean slash_join resolve join_stack split_byte eq_bytes go_back
    push_element
get_data_directory_lem linux org e =
    rw (split_byte_whole org e.no_slash, e.not_empty, e.not_dot, e.not_dots, append-nil org)
get_data_directory_lem darwin org e =
    rw (split_byte_whole org e.no_slash, e.not_empty, e.not_dot, e.not_dots, append-nil org)

pub get_program_directory_lem :
    (platform : UnixPlatform) (org : Bytes)
    → IsElement org
    → get_program_directory platform org ≡ codes "/usr/local/bin/rewst_remote_agent/" ++ org
unfolding get_program_directory join clean slash_join resolve join_stack split_byte eq_bytes go_back
    push_element
get_program_directory_lem platform org e =
    rw (split_byte_whole org e.no_slash, e.not_empty, e.not_dot, e.not_dots, append-nil org)

-- A file of the data directory.
pub data_file :
    (platform : UnixPlatform) (org name : Bytes)
    → IsElement org
    → IsElement name
    → join (get_data_directory platform org ∷ name ∷ [])
      ≡ data_root platform ++ (b'/' ∷ (org ++ (b'/' ∷ name)))
unfolding join clean slash_join resolve join_stack split_byte eq_bytes go_back push_element
data_file linux org name e n = rw (
  get_data_directory_lem linux org e,
  split_byte-element org name e.no_slash,
  split_byte_whole name n.no_slash,
  e.not_empty,
  e.not_dot,
  e.not_dots,
  n.not_empty,
  n.not_dot,
  n.not_dots,
  append-nil name,
)
data_file darwin org name e n = rw (
  get_data_directory_lem darwin org e,
  split_byte-element org name e.no_slash,
  split_byte_whole name n.no_slash,
  e.not_empty,
  e.not_dot,
  e.not_dots,
  n.not_empty,
  n.not_dot,
  n.not_dots,
  append-nil name,
)

-- A file inside one element's directory is inside the directory of no other.
inside_one :
    (a b t : Bytes)
    → All (λ (c : ℕ). c ≢ b'/') a
    → All (λ (c : ℕ). c ≢ b'/') b
    → has_prefix (b ++ (b'/' ∷ t)) (a ++ codes "/") ≡ true
    → a ≡ b
unfolding has_prefix
inside_one [] [] t ha hb h = refl
inside_one [] (y ∷ b) t ha hb h = absurd (ground (arith, hb.0))
inside_one (x ∷ a) [] t ha hb h = absurd (ground (arith, ha.0))
inside_one (x ∷ a) (y ∷ b) t ha hb h = ground (arith, inside_one a b t ha.1 hb.1)

pub config_name-IsElement : IsElement (codes "config.json")
unfolding eq_bytes
config_name-IsElement = record {
  no_slash = omega arith;
  not_empty = refl;
  not_dot = refl;
  not_dots = refl;
}

-- For organization ids that are one element of a path each, on Linux and macOS: the configuration
-- file of `b` lies inside the data directory of `a` only where the two are the same, so that no
-- other organization's configuration goes with the data directory of one.
pub get_config_file_path-apart :
    (platform : UnixPlatform) (a b : Bytes)
    → IsElement a
    → IsElement b
    → has_prefix (get_config_file_path platform b) (get_data_directory platform a ++ codes "/")
      ≡ true
    → a ≡ b
unfolding get_config_file_path has_prefix
get_config_file_path-apart linux a b ea eb h =
    inside_one a b (codes "config.json") ea.no_slash eb.no_slash (
      rw
        (
          data_file linux b (codes "config.json") eb config_name-IsElement,
          get_data_directory_lem linux a ea,
        )
        at h)
get_config_file_path-apart darwin a b ea eb h =
    inside_one a b (codes "config.json") ea.no_slash eb.no_slash (
      rw
        (
          data_file darwin b (codes "config.json") eb config_name-IsElement,
          get_data_directory_lem darwin a ea,
        )
        at h)
