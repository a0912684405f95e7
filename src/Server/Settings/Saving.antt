-- ===== src/Server/Settings/Saving.antt =====
-- What saving a bind address does to the settings file (muxrd/src/config.rs).
use zellimobile_server.Common.{
  String, Option, none, some, ◌≡◌, refl, ap, sym, ◌∙◌, ◌⊎◌, inl, inr, arith, Option-cases,
}
use zellimobile_server.Server.Transport.{Env}
use zellimobile_server.Server.Settings.{
  FileConfig, empty_config, default_bind, Toml, write_temp, chmod_temp, rename_temp, serialize,
  open_data_dir, read_config, IoStep, Io, done, failed, Disk, unwrap_or, read_file_config,
  effective, resolve, ensure_config_file, replace_config, save_bind_in, set_bind_addr,
}

-- It failed, and the file has its old text.
abbrev pub Keeps : String → Disk × Io (Unit {0}) → Type 0
Keeps raw (disk, outcome) = (step : IoStep) × (outcome ≡ failed step) × (disk.config ≡ some raw)

-- It succeeded, and the file has a text of these settings, with nothing left beside it.
abbrev pub Writes : Toml → FileConfig → Disk × Io (Unit {0}) → Type 0
Writes toml file (disk, outcome) =
    (text : String) × (toml.to_string_pretty file ≡ some text)
    × (outcome ≡ done tt)
    × (disk ≡ record { config = some text; temp = none })

module _ (data_dir template : String) (toml : Toml) (fault : IoStep → Option (Option String)) where
  replace-Keeps :
      (disk : Disk) (raw text : String)
      → disk.config ≡ some raw
      → Keeps raw (replace_config data_dir template toml fault disk text)
        ⊎ (replace_config data_dir template toml fault disk text
            ≡ (record { config = some text; temp = none }, done tt))
  unfolding replace_config
  replace-Keeps disk raw text there = elim (Option-cases (fault write_temp)) [
    | inr (left, broken) ↦ rw (broken, replace_config) (inl (write_temp, refl, there))
    | inl wrote ↦ elim (Option-cases (fault chmod_temp)) [
      | inr (_, broken) ↦ rw (wrote, replace_config, broken) (inl (chmod_temp, refl, there))
      | inl set ↦ elim (Option-cases (fault rename_temp)) [
        | inr (_, broken) ↦ rw (wrote, replace_config, set, broken) (inl (rename_temp, refl, there))
        | inl renamed ↦ rw (wrote, replace_config, set, renamed) (inr refl)
      ]
    ]
  ]

  save-Keeps :
      (disk : Disk) (raw addr : String) (file : FileConfig)
      → disk.config ≡ some raw
      → Keeps raw (save_bind_in data_dir template toml fault disk file addr)
        ⊎ Writes toml
            (record file { bind_addr = some addr })
            (save_bind_in data_dir template toml fault disk file addr)
  unfolding save_bind_in
  save-Keeps disk raw addr file there =
      elim (Option-cases (toml.to_string_pretty (record file { bind_addr = some addr }))) [
        | inl none_made ↦ rw (none_made, save_bind_in) (inl (serialize, refl, there))
        | inr (text, made) ↦
            rw (made, save_bind_in)
              (elim (replace-Keeps disk raw text there) [
                | inl kept ↦ inl kept
                | inr written ↦ rw written (inr (text, refl, refl, refl))
              ])
      ]

  ensure-there :
      (raw : String) (temp : Option String)
      → fault open_data_dir ≡ none
      → ensure_config_file data_dir template toml fault (record { config = some raw; temp = temp })
        ≡ (record { config = some raw; temp = temp }, done tt)
  unfolding ensure_config_file
  ensure-there raw temp opened = rw (opened, ensure_config_file)

  read-there :
      (raw : String) (temp : Option String)
      → fault read_config ≡ none
      → read_file_config data_dir template toml fault (record { config = some raw; temp = temp })
        ≡ done (unwrap_or (toml.from_str raw) empty_config)
  unfolding read_file_config
  read-there raw temp read = rw (read, read_file_config)

  -- Saving an address is all or nothing for a file that is there, whichever step fails: either it
  -- fails, and the file has its old text; or it succeeds, and the file has a text of its old
  -- settings (the defaults, if they did not parse) with the new address, and nothing is left beside
  -- it.
  pub set_bind_addr_atomic :
      (raw addr : String) (temp : Option String)
      → let saved =
          set_bind_addr data_dir template toml fault
            (record { config = some raw; temp = temp })
            addr in
        Keeps raw saved
        ⊎ Writes toml
            (record (unwrap_or (toml.from_str raw) empty_config) { bind_addr = some addr })
            saved
  unfolding set_bind_addr ensure_config_file read_file_config
  set_bind_addr_atomic raw addr temp = elim (Option-cases (fault open_data_dir)) [
    | inr (_, broken) ↦
        rw (broken, set_bind_addr, ensure_config_file) (inl (open_data_dir, refl, refl))
    | inl opened ↦ elim (Option-cases (fault read_config)) [
      | inr (_, broken) ↦
          rw (ensure-there raw temp opened, set_bind_addr, broken, read_file_config)
            (inl (read_config, refl, refl))
      | inl read ↦
          rw (ensure-there raw temp opened, set_bind_addr, read-there raw temp read)
            (save-Keeps (record { config = some raw; temp = temp }) raw addr
              (unwrap_or (toml.from_str raw) empty_config) refl)
    ]
  ]

  resolve-text :
      (env : Env) (text : String) (file : FileConfig)
      → fault open_data_dir ≡ none
      → fault read_config ≡ none
      → toml.from_str text ≡ some file
      → env.bind ≡ none
      → resolve data_dir template toml fault env none (record { config = some text; temp = none })
        ≡ done (record (effective data_dir template toml fault env none file) {
          bind_addr = unwrap_or file.bind_addr default_bind;
        })
  unfolding resolve read_file_config
  resolve-text env text file opened read parses unset =
      rw (opened, resolve, read, read_file_config, parses) (rw unset)

  -- After an address was saved, a server that starts with no flag and no variable for its address
  -- binds to it, with its other settings as they were, if TOML reads back what it
  -- writes and neither opening the directory nor reading the file fails.
  pub resolve-set_bind_addr :
      (env : Env) (raw addr : String) (temp : Option String) (disk' : Disk)
      → ((file : FileConfig) (text : String)
          → toml.to_string_pretty file ≡ some text
          → toml.from_str text ≡ some file)
      → env.bind ≡ none
      → set_bind_addr data_dir template toml fault (record { config = some raw; temp = temp }) addr
        ≡ (disk', done tt)
      → fault read_config ≡ none
      → fault open_data_dir ≡ none
      → resolve data_dir template toml fault env none disk'
        ≡ done
            (record (effective data_dir template toml fault env none
              (unwrap_or (toml.from_str raw) empty_config)) { bind_addr = addr })
  unfolding resolve read_file_config
  resolve-set_bind_addr env raw addr temp disk' reads unset saved read opened =
      elim (set_bind_addr_atomic raw addr temp) [
        | inl (step, broke, kept) ↦ absurd (ground arith)
        | inr (text, made, _, written) ↦
            let now : disk' ≡ record { config = some text; temp = none } =
              ap (λ p. p.0) (sym saved) ∙ written in
            ap (resolve data_dir template toml fault env none) now
            ∙ resolve-text env text _ opened read (reads _ text made) unset
      ]
