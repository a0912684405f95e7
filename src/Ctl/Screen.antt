-- ===== src/Ctl/Screen.antt =====
-- muxrctl/src/app/state.rs: `Screen` and its navigation order.
use zellimobile_server.Common.{
  ℕ, suc, ◌+◌, ◌-◌, ◌%◌, String, Bool, true, false, List, [], ◌∷◌, some, none, length, get_elem?,
  if◌then◌else◌,
}

pub data Screen : Type 0 where
  dashboard config cert tokens server : Screen

-- `Screen::ALL`
abbrev pub all_screens : List Screen
all_screens = dashboard ∷ config ∷ cert ∷ tokens ∷ server ∷ []

pub label : Screen → String
label dashboard = "Dashboard"
label config = "Config"
label cert = "Cert"
label tokens = "Tokens"
label server = "Server"

-- the derived `PartialEq`
abbrev pub same_screen : Screen → Screen → Bool
same_screen dashboard dashboard = true
same_screen config config = true
same_screen cert cert = true
same_screen tokens tokens = true
same_screen server server = true
same_screen _ _ = false

-- `position`; the end of the list where nothing is found
unfoldable pub position : Screen → List Screen → ℕ
position s [] = 0
position s (t ∷ ts) = if same_screen t s then 0 else suc (position s ts)

unfoldable pub index : Screen → ℕ
unfolding position
index s = position s all_screens

-- `Screen::ALL[i]`, with a default where the source panics.
unfoldable pub screen_at : ℕ → Screen
screen_at i = elim (get_elem? all_screens i) [ none ↦ dashboard | some s ↦ s ]

unfoldable pub next : Screen → Screen
unfolding index screen_at
next s = screen_at ((index s + 1) % length all_screens)

unfoldable pub prev : Screen → Screen
unfolding index screen_at
prev s = screen_at ((index s + length all_screens - 1) % length all_screens)
