-- ===== src/Ctl/Secret.antt =====
-- Where the plaintext in a pairing QR code comes from (muxrctl/src/app/update.rs).
use mathlib.Core.List.{append_assoc}
use zellimobile_server.Common.{
  ◌≡◌, refl, sym, subst, ◌⊎◌, inl, inr, List, [], ◌∷◌, ◌++◌, Option, none, some, arith, All, Any,
  Any-append_left, Any-append_right, All-append, All-map, String,
}
use zellimobile_server.Ctl.Screen.{Screen}
use zellimobile_server.Ctl.State.{AppState, Minted, new}
use zellimobile_server.Ctl.Message.{Message, KeyEvent, UpdateAction}
use zellimobile_server.Ctl.Config.{handle_config_key}
use zellimobile_server.Ctl.Panels.{handle_cert_key, handle_server_key}
use zellimobile_server.Ctl.Tokens.{handle_tokens_key}
use zellimobile_server.Ctl.Nav.{transition_to}
use zellimobile_server.Ctl.Poll.{handle_tick}
use zellimobile_server.Ctl.Keys.{handle_key}
use zellimobile_server.Ctl.Update.{update, actions_of}
use zellimobile_server.Ctl.Rules.{HandlerRule, key_rule}
use zellimobile_server.Ctl.Permits.{Permitted}
use zellimobile_server.Ctl.Effects.{update-Permitted}

-- The secret is the old one, or gone.
abbrev KeepsSecret : AppState → AppState → Type 0
KeepsSecret s t =
    (t.tokens.last_minted_secret ≡ s.tokens.last_minted_secret)
    ⊎ (t.tokens.last_minted_secret ≡ none)

config-KeepsSecret : (s : AppState) (k : KeyEvent) → KeepsSecret s (handle_config_key s k).0
unfolding handle_config_key
config-KeepsSecret s k = inl (ground arith)

cert-KeepsSecret : (s : AppState) (k : KeyEvent) → KeepsSecret s (handle_cert_key s k).0
unfolding handle_cert_key
cert-KeepsSecret s k = inl (ground arith)

server-KeepsSecret : (s : AppState) (k : KeyEvent) → KeepsSecret s (handle_server_key s k).0
unfolding handle_server_key
server-KeepsSecret s k = inl (ground arith)

tokens-KeepsSecret : (s : AppState) (k : KeyEvent) → KeepsSecret s (handle_tokens_key s k).0
unfolding handle_tokens_key
tokens-KeepsSecret s k = ground arith

enter-KeepsSecret : (s : AppState) (to : Screen) → KeepsSecret s (transition_to s to).0
unfolding transition_to
enter-KeepsSecret s to = ground arith

tick-KeepsSecret : (s : AppState) → KeepsSecret s (handle_tick s).0
unfolding handle_tick
tick-KeepsSecret s = inl (ground arith)

keeps_secret : HandlerRule KeepsSecret
keeps_secret = record {
  stays = λ s. inl refl;
  enters = enter-KeepsSecret;
  on_config = config-KeepsSecret;
  on_cert = cert-KeepsSecret;
  on_server = server-KeepsSecret;
  on_tokens = λ s k _. tokens-KeepsSecret s k;
}

key-KeepsSecret : (s : AppState) (k : KeyEvent) → KeepsSecret s (handle_key s k).0
key-KeepsSecret = key_rule keeps_secret (λ s. inl refl) (λ s. inl refl)

-- A message of the list brought this plaintext.
abbrev pub Brought : String → Message → Type 0
Brought token (Message.token_created t name read_only) = t ≡ token
Brought token _ = ⊥

abbrev pub Held : List Message → Option Minted → Type 0
Held past none = Unit
Held past (some m) = Any (Brought m.secret) past

-- After a message the secret is the old one, none, or the message's own.
secret_update :
    (s : AppState) (m : Message)
    → KeepsSecret s (update s m).0
      ⊎ ((minted : Minted) × ((update s m).0.tokens.last_minted_secret ≡ some minted)
          × Brought minted.secret m)
unfolding update
secret_update s (Message.key k) = inl (key-KeepsSecret s k)
secret_update s Message.tick = inl (tick-KeepsSecret s)
secret_update s (Message.nav_to to) = inl (enter-KeepsSecret s to)
secret_update s (Message.token_created token name read_only) =
    inr (record { name = name; secret = token; read_only = read_only }, refl, refl)
secret_update s _ = inl (ground arith)

Held-append : (past more : List Message) (o : Option Minted) → Held past o → Held (past ++ more) o
Held-append past more none h = tt
Held-append past more (some m) h = Any-append_left (Brought m.secret) past more h

update-Held :
    (s : AppState) (m : Message) (past : List Message)
    → Held past s.tokens.last_minted_secret
    → Held (past ++ (m ∷ [])) (update s m).0.tokens.last_minted_secret
update-Held s m past h = elim (secret_update s m) [
  | inl (inl same) ↦
      subst (Held (past ++ (m ∷ []))) (sym same)
        (Held-append past (m ∷ []) s.tokens.last_minted_secret h)
  | inl (inr gone) ↦ subst (Held (past ++ (m ∷ []))) (sym gone) tt
  | inr (minted, e, brought) ↦
      subst (Held (past ++ (m ∷ []))) (sym e)
        (Any-append_right (Brought minted.secret) past (m ∷ []) (inl brought))
]

-- A QR code is asked for only with a plaintext that some message of the list brought.
abbrev pub IsTraced : List Message → UpdateAction → Type 0
IsTraced past (UpdateAction.show_token_qr token read_only seq trust) = Any (Brought token) past
IsTraced past _ = Unit

IsTraced-of_Permitted :
    (s : AppState) (m : Message) (past : List Message)
    → Held past s.tokens.last_minted_secret
    → (a : UpdateAction) → Permitted s m a
    → IsTraced past a
IsTraced-of_Permitted s m past h (UpdateAction.show_token_qr token read_only seq trust) p =
    let (minted, held, same, _) = p.3 in
    subst (λ t. Any (Brought t) past) same (subst (Held past) held h)
IsTraced-of_Permitted s m past h UpdateAction.quit p = tt
IsTraced-of_Permitted s m past h _ p = tt

IsTraced-append :
    (past more : List Message) (a : UpdateAction) → IsTraced past a → IsTraced (past ++ more) a
IsTraced-append past more (UpdateAction.show_token_qr token read_only seq trust) h =
    Any-append_left (Brought token) past more h
IsTraced-append past more UpdateAction.quit h = tt
IsTraced-append past more _ h = tt

actions_of-IsTraced :
    (s : AppState) (ms past : List Message)
    → Held past s.tokens.last_minted_secret
    → All (IsTraced (past ++ ms)) (actions_of s ms)
unfolding actions_of
actions_of-IsTraced s [] past h = tt
actions_of-IsTraced s (m ∷ ms) past h =
    let (s', now) = update s m in
    let here = λ (a : UpdateAction) (p : Permitted s m a).
      IsTraced-append past (m ∷ ms) a (IsTraced-of_Permitted s m past h a p) in
    All-append (IsTraced (past ++ (m ∷ ms))) now (actions_of s' ms)
      (All-map (Permitted s m) (IsTraced (past ++ (m ∷ ms))) here now (update-Permitted s m))
      (subst (λ l. All (IsTraced l) (actions_of s' ms)) (append_assoc past (m ∷ []) ms)
        (actions_of-IsTraced s' ms (past ++ (m ∷ [])) (update-Held s m past h)))

-- From the start of the app, whatever the messages: the plaintext of every QR code that is asked
-- for came in a `TokenCreated` message among them.
pub actions_of-new-IsTraced : (ms : List Message) → All (IsTraced ms) (actions_of new ms)
actions_of-new-IsTraced ms = actions_of-IsTraced new ms [] tt
