-- ===== src/Ctl/Navigation.antt =====
-- Moving between the screens (muxrctl/src/app/state.rs and update.rs), and the trust setting.
use zellimobile_server.Common.{◌+◌, ◌%◌, ◌≡◌, refl, none, some, arith, get_elem?, ◌⊎◌, inl, inr}
use zellimobile_server.Ctl.Screen.{
  Screen, dashboard, config, cert, tokens, server, all_screens, index, next, prev,
}
use zellimobile_server.Ctl.Trust.{
  AdvertiseTrust, auto, ca, pin, cycle, persist_str, from_persist_str,
}
use zellimobile_server.Ctl.State.{AppState}
use zellimobile_server.Ctl.Message.{Message, KeyEvent, KeyCode}
use zellimobile_server.Ctl.Nav.{transition_to}
use zellimobile_server.Ctl.Keys.{handle_key, plain_key}
use zellimobile_server.Ctl.Update.{update}

-- The order of the screens is a cycle of five: `next` adds one to the index, `prev` undoes it, and
-- neither reads past the list.
pub screen_cycle :
    (s : Screen)
    → (get_elem? all_screens (index s) ≡ some s)
      × (index (next s) ≡ (index s + 1) % 5)
      × (prev (next s) ≡ s)
      × (next (prev s) ≡ s)
      × (next (next (next (next (next s)))) ≡ s)
unfolding next prev
screen_cycle dashboard = (refl, refl, refl, refl, refl)
screen_cycle config = (refl, refl, refl, refl, refl)
screen_cycle cert = (refl, refl, refl, refl, refl)
screen_cycle tokens = (refl, refl, refl, refl, refl)
screen_cycle server = (refl, refl, refl, refl, refl)

tab_key :
    (s : AppState) (k : KeyEvent)
    → s.qr_overlay ≡ none
    → k.code ≡ KeyCode.tab
    → handle_key s k ≡ transition_to s (next s.screen)
unfolding handle_key plain_key
tab_key s k e h = ground arith

back_tab_key :
    (s : AppState) (k : KeyEvent)
    → s.qr_overlay ≡ none
    → k.code ≡ KeyCode.back_tab
    → handle_key s k ≡ transition_to s (prev s.screen)
unfolding handle_key plain_key
back_tab_key s k e h = ground arith

same_focus : (s : AppState) (to : Screen) → (transition_to s to).0.config.focused ≡ s.config.focused
unfolding transition_to
same_focus s to = ground arith

-- With no overlay up, Tab goes to the next screen and Shift-Tab to the previous one from every
-- screen, the Config form included, just as `NavTo` does; the form's focus stays where it was.
pub tab_leaves_screen :
    (s : AppState) (k : KeyEvent)
    → s.qr_overlay ≡ none
    → (k.code ≡ KeyCode.tab) ⊎ (k.code ≡ KeyCode.back_tab)
    → (((k.code ≡ KeyCode.tab)
          × (update s (Message.key k) ≡ update s (Message.nav_to (next s.screen))))
        ⊎ ((k.code ≡ KeyCode.back_tab)
            × (update s (Message.key k) ≡ update s (Message.nav_to (prev s.screen)))))
      × ((update s (Message.key k)).0.config.focused ≡ s.config.focused)
unfolding update
tab_leaves_screen s k e (inl h) =
    (inl (h, tab_key s k e h), rw (tab_key s k e h) (same_focus s (next s.screen)))
tab_leaves_screen s k e (inr h) =
    (inr (h, back_tab_key s k e h), rw (back_tab_key s k e h) (same_focus s (prev s.screen)))

-- Every setting is read back from the text that is stored for it, and three toggles come round.
pub persist_round_trip :
    (t : AdvertiseTrust) → (from_persist_str (persist_str t) ≡ t) × (cycle (cycle (cycle t)) ≡ t)
unfolding from_persist_str persist_str cycle
persist_round_trip auto = (refl, refl)
persist_round_trip ca = (refl, refl)
persist_round_trip pin = (refl, refl)
