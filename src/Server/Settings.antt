-- ===== src/Server/Settings.antt =====
-- muxrd/src/config.rs: the settings file, what the server reads from it, and how a new bind address
-- is written to it. The disk is the text of the file and that of the temporary file beside it. TOML
-- is a library, the parameter `Toml`. Each step of input and output may fail: `fault` gives, for a
-- step that does, what a failed write leaves in its file.
pub mod Saving
use zellimobile_server.Common.{
  String, Bool, true, false, Option, none, some, if◌then◌else◌, ◌≡◌, refl, ◌⊎◌, inl, inr,
}
use zellimobile_server.Rust.Text.{concat}
use zellimobile_server.Server.Transport.{Env, or}

-- `DEFAULT_BIND`
abbrev pub default_bind : String
default_bind = "127.0.0.1:50051"

pub record FileConfig : Type 0 where
  pub bind_addr : Option String
  pub cert_dir : Option String
  pub log_path : Option String

abbrev pub empty_config : FileConfig
empty_config = record { bind_addr = none; cert_dir = none; log_path = none }

pub record EffectiveConfig : Type 0 where
  pub bind_addr : String
  pub cert_dir : String
  pub log_path : String
  pub config_file : String

pub record Toml : Type 0 where
  pub from_str : String → Option FileConfig
  pub to_string_pretty : FileConfig → Option String

pub data IoStep : Type 0 where
  open_data_dir write_template read_config serialize write_temp chmod_temp rename_temp : IoStep

pub data Io {ℓ} (A : Type ℓ) : Type ℓ where
  done : A → Io A
  failed : IoStep → Io A

pub record Disk : Type 0 where
  pub config : Option String
  pub temp : Option String

abbrev pub unwrap_or {ℓ} : {A : Type ℓ} → Option A → A → A
unwrap_or (some a) other = a
unwrap_or none other = other

-- `join`
abbrev pub join : String → String → String
join dir name = concat dir (concat "/" name)

module _ (data_dir template : String) (toml : Toml) (fault : IoStep → Option (Option String)) where
  -- The file's settings; the defaults where there is no file, or it does not parse.
  unfoldable pub read_file_config : Disk → Io FileConfig
  read_file_config disk = elim disk.config [
    | none ↦ done empty_config
    | some raw ↦ elim (fault read_config) [
      | some _ ↦ failed read_config
      | none ↦ done (unwrap_or (toml.from_str raw) empty_config)
    ]
  ]

  abbrev pub effective : Env → Option String → FileConfig → EffectiveConfig
  effective env bind_override file = record {
    bind_addr = unwrap_or (or bind_override (or env.bind file.bind_addr)) default_bind;
    cert_dir = unwrap_or file.cert_dir data_dir;
    log_path = unwrap_or file.log_path (join data_dir "muxrd.log");
    config_file = join data_dir "config.toml";
  }

  -- `resolve`
  unfoldable pub resolve : Env → Option String → Disk → Io EffectiveConfig
  unfolding read_file_config
  resolve env bind_override disk = elim (fault open_data_dir) [
    | some _ ↦ failed open_data_dir
    | none ↦ elim (read_file_config disk) [
      | failed step ↦ failed step
      | done file ↦ done (effective env bind_override file)
    ]
  ]

  -- `ensure_config_file`
  unfoldable pub ensure_config_file : Disk → Disk × Io (Unit {0})
  ensure_config_file disk = elim (fault open_data_dir) [
    | some _ ↦ (disk, failed open_data_dir)
    | none ↦ elim disk.config [
      | some _ ↦ (disk, done tt)
      | none ↦ elim (fault write_template) [
        | some left ↦ (record disk { config = left }, failed write_template)
        | none ↦ (record disk { config = some template }, done tt)
      ]
    ]
  ]

  -- The temporary file is written, its mode is set, and it takes the place of the file.
  unfoldable pub replace_config : Disk → String → Disk × Io (Unit {0})
  replace_config disk text = elim (fault write_temp) [
    | some left ↦ (record disk { temp = left }, failed write_temp)
    | none ↦
        let written = record disk { temp = some text } in
        elim (fault chmod_temp) [
          | some _ ↦ (written, failed chmod_temp)
          | none ↦ elim (fault rename_temp) [
            | some _ ↦ (written, failed rename_temp)
            | none ↦ (record { config = some text; temp = none }, done tt)
          ]
        ]
  ]

  unfoldable pub save_bind_in : Disk → FileConfig → String → Disk × Io (Unit {0})
  unfolding replace_config
  save_bind_in disk file addr =
      elim (toml.to_string_pretty (record file { bind_addr = some addr })) [
        | none ↦ (disk, failed serialize)
        | some text ↦ replace_config disk text
      ]

  -- What follows the reading of the file, and what follows making sure that there is one.
  abbrev pub save_read : Disk → Io FileConfig → String → Disk × Io (Unit {0})
  save_read disk (failed step) addr = (disk, failed step)
  save_read disk (done file) addr = save_bind_in disk file addr

  abbrev pub save_ensured : Disk × Io (Unit {0}) → String → Disk × Io (Unit {0})
  save_ensured (disk, failed step) addr = (disk, failed step)
  save_ensured (disk, done _) addr = save_read disk (read_file_config disk) addr

  -- `set_bind_addr`
  unfoldable pub set_bind_addr : Disk → String → Disk × Io (Unit {0})
  unfolding ensure_config_file read_file_config save_bind_in
  set_bind_addr disk addr = save_ensured (ensure_config_file disk) addr
