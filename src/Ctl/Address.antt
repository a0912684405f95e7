-- ===== src/Ctl/Address.antt =====
-- The bind address that the Config screen saves (muxrctl/src/app/update.rs and state.rs).
use text.Mathlib.TextLemmas.{nil-append, cons-append}
use Prim.Native.String.{[], ◌∷◌}
use zellimobile_server.Common.{
  String, ◌≡◌, refl, ◌≢◌, none, some, false, arith, All, All-map, [], ◌∷◌, Option-cases, inl, inr,
  ap, ◌∙◌, ◌↔◌,
}
use zellimobile_server.Rust.Text.{concat, trim, is_empty, rsplit_at, parse_u16}
use zellimobile_server.Rust.Text.Laws.{
  Lacks, trim-Lacks, parse_u16-Lacks, rsplit_at-append, append-rsplit_at,
}
use zellimobile_server.Ctl.State.{AppState, ConfigState, bind_addr, apply_bind_addr}
use zellimobile_server.Ctl.Message.{Message, UpdateAction}
use zellimobile_server.Ctl.Config.{config_save}
use zellimobile_server.Ctl.Update.{update}
use zellimobile_server.Ctl.Permits.{Permitted}
use zellimobile_server.Ctl.Effects.{update-Permitted}

apply-bind_addr :
    (c d : ConfigState)
    → Lacks b':' d.port
    → apply_bind_addr c (bind_addr d) ≡ record c { host = d.host; port = d.port }
unfolding apply_bind_addr bind_addr
apply-bind_addr c d h =
    rw (cons-append, nil-append)
      (rw (rsplit_at-append b':' ":" d.host d.port refl h, apply_bind_addr))

-- The address is read back, into any form, as the two fields that it was made of.
abbrev pub ReadsBack : ConfigState → AppState → UpdateAction → Type 0
ReadsBack c s (UpdateAction.save_bind addr) =
    apply_bind_addr c addr ≡ record c { host = s.config.host; port = s.config.port }
ReadsBack c s _ = Unit

reads_back :
    (c : ConfigState) (s : AppState) (m : Message) (a : UpdateAction)
    → Permitted s m a
    → ReadsBack c s a
reads_back c s m (UpdateAction.save_bind addr) p = rw (p.5) (
    apply-bind_addr c s.config
      (trim-Lacks b':' s.config.port refl (parse_u16-Lacks (trim s.config.port) p.4)))
reads_back c s m UpdateAction.quit p = tt
reads_back c s m _ p = tt

-- Every address that the app asks to save is read back by `apply_bind_addr` as the very host and
-- port that the form showed, also where the host itself holds colons.
pub save_bind-ReadsBack :
    (c : ConfigState) (s : AppState) (m : Message) → All (ReadsBack c s) (update s m).1
save_bind-ReadsBack c s m =
    All-map (Permitted s m) (ReadsBack c s) (reads_back c s m) (update s m).1 (update-Permitted s m)

-- An address with a colon in it, read into the form, is put together again as it was.
pub bind_addr-apply :
    (c : ConfigState) (addr : String)
    → rsplit_at b':' addr ≢ none
    → bind_addr (apply_bind_addr c addr) ≡ addr
unfolding bind_addr apply_bind_addr
bind_addr-apply c addr h = elim (Option-cases (rsplit_at b':' addr)) [
  | inl missing ↦ absurd (h missing)
  | inr ((before, after), found) ↦
      rw (found, apply_bind_addr)
        (ap (concat before) (cons-append ":" "" after ∙ ap (λ t. ":" ∷ t) (nil-append after))
          ∙ append-rsplit_at ":" addr before after found)
]

-- Saving asks for the address exactly if nothing is under way, the host is not blank, and the port,
-- trimmed, parses as a `u16`.
pub config_save_iff :
    (s : AppState)
    → ((config_save s).1 ≡ UpdateAction.save_bind (bind_addr s.config) ∷ []) ↔ (
        (s.config.loading ≡ false)
        × (is_empty (trim s.config.host) ≡ false)
        × (parse_u16 (trim s.config.port) ≢ none))
unfolding config_save
config_save_iff s = ground arith

-- The form's check lets port 0 pass, though the message beside it says 1..=65535: whatever the
-- host, if it is not blank, and nothing is under way, the address is saved.
pub config_save-zero_port :
    (s : AppState)
    → s.config.loading ≡ false
    → is_empty (trim s.config.host) ≡ false
    → trim s.config.port ≡ "0"
    → (config_save s).1 ≡ UpdateAction.save_bind (bind_addr s.config) ∷ []
unfolding config_save parse_u16
config_save-zero_port s idle host zero =
    let parsed : parse_u16 (trim s.config.port) ≡ some 0 = ap parse_u16 zero in ground arith
