-- ===== src/Paste/Outcome.antt =====
-- What a paste does, in which order, and with which error.
use clipnet.Base.{
  ◌<◌, ◌≡◌, ◌⊎◌, true, false, Option, none, some, List, [], ◌∷◌, ◌++◌, if◌then◌else◌, length, All,
  Bytes,
}
use clipnet.Rules.{rules_paste_keys}
use clipnet.Paste.{
  PasteReq, Put, PasteEffect, PasteError, PasteEnv, all_exist, is_none, choose, touched, put, press,
  nothing_to_paste, needs_clip, no_such_clip, no_wayland, not_served, no_hyprland, keys_refused,
  chosen, refused, no_ids,
}

-- The keystrokes: none for a copy or without Hyprland, and otherwise the paste keys of the rules.
pub data IsPressed (env : PasteEnv) (req : PasteReq)
    : List PasteEffect → Option PasteError → Type 0 where
  copy_only : req.send_keys ≡ false → IsPressed env req [] none
  no_window : req.send_keys ≡ true → env.hypr ≡ false → IsPressed env req [] (some no_hyprland)
  pressed :
      req.send_keys ≡ true
      → env.hypr ≡ true
      → env.sends (rules_paste_keys env.member env.rules) ≡ true
      → IsPressed env req (press (rules_paste_keys env.member env.rules) ∷ []) none
  press_failed :
      req.send_keys ≡ true
      → env.hypr ≡ true
      → env.sends (rules_paste_keys env.member env.rules) ≡ false
      → IsPressed env req (press (rules_paste_keys env.member env.rules) ∷ []) (some keys_refused)

-- What a paste has to meet: clips or a text are given, a transform has clips to work on, every clip
-- exists, and there is a connection to the compositor.
pub record IsAllowed (env : PasteEnv) (req : PasteReq) : Type 0 where
  pub given : (0 < length req.ids) ⊎ ((t : Bytes) × (req.text ≡ some t))
  pub plain : (req.transform ≡ none) ⊎ (0 < length req.ids)
  pub known : All (λ i. env.exists i ≡ true) req.ids
  pub connected : env.wl ≡ true

-- The reasons to do nothing.
pub data IsRefused (env : PasteEnv) (req : PasteReq) : PasteError → Type 0 where
  nothing_given :
      no_ids req.ids ≡ true → is_none req.text ≡ true → IsRefused env req nothing_to_paste
  no_clip_given :
      no_ids req.ids ≡ true → is_none req.transform ≡ false → IsRefused env req needs_clip
  unknown_clip : all_exist env req.ids ≡ false → IsRefused env req no_such_clip
  not_connected : env.wl ≡ false → IsRefused env req no_wayland
  not_chosen :
      (e : PasteError) → IsAllowed env req → choose env req ≡ refused e → IsRefused env req e

-- Nothing is done; the clipboard refuses; or it has what was asked for, and only then clips are moved
-- and keys pressed.
pub data Outcome (env : PasteEnv) (req : PasteReq)
    : List PasteEffect × Option PasteError → Type 0 where
  untouched : (e : PasteError) → IsRefused env req e → Outcome env req ([], some e)
  put_failed :
      (x : Put)
      → IsAllowed env req
      → choose env req ≡ chosen x
      → env.serves x ≡ false
      → Outcome env req (put x ∷ [], some not_served)
  delivered :
      (x : Put) (moved keys : List PasteEffect) (e : Option PasteError)
      → IsAllowed env req
      → choose env req ≡ chosen x
      → env.serves x ≡ true
      → moved ≡ (if env.move_to_top then touched req.send_keys req.ids else [])
      → IsPressed env req keys e
      → Outcome env req (put x ∷ moved ++ keys, e)
