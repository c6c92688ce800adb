-- ===== src/Paste.antt =====
-- daemon/src/paste.c: pasting clips, a text or a transformed text. The database, the settings, the
-- scripts and the connections answer in a `PasteEnv`; `paste_run` returns what it had them do, in
-- order, and its error.
pub mod Join
pub mod Outcome
pub mod Tests
use clipnet.Base.{
  ℕ, Bool, true, false, ◌&&◌, not, Option, none, some, List, [], ◌∷◌, ◌++◌, ◌==◌, if◌then◌else◌,
  Bytes,
}
use clipnet.Transform.{Locale, transform_apply}
use clipnet.Rules.{Rule, PasteKey, rules_paste_keys}

pub data ServeMode : Type 0 where
  serve_all serve_plain : ServeMode

pub record PasteReq : Type 0 where
  pub ids : List ℕ
  pub mode : ServeMode
  pub separator : Option Bytes
  pub text : Option Bytes
  pub transform : Option Bytes
  pub send_keys : Bool

-- What goes on the clipboard: `serve_clip`, or `serve_text` with the clip that it is credited to.
pub data Put : Type 0 where
  put_clip : ℕ → ServeMode → Put
  put_text : Bytes → ℕ → Put

pub data PasteEffect : Type 0 where
  put : Put → PasteEffect
  touch : ℕ → Bool → PasteEffect
  clip_updated : ℕ → PasteEffect
  press : List PasteKey → PasteEffect

pub data PasteError : Type 0 where
  nothing_to_paste needs_clip no_such_clip no_wayland unknown_transform : PasteError
  empty_result no_text not_served no_hyprland keys_refused : PasteError

-- `on_paste` is there when scripts are loaded and one of them defines it; `locale` and `date` are what
-- `transform_apply` takes, `member` what cJSON finds in a rule.
pub record PasteEnv : Type 0 where
  pub wl : Bool
  pub hypr : Bool
  pub active_class : Option Bytes
  pub exists : ℕ → Bool
  pub clip_text : ℕ → Option Bytes
  pub multi_separator : Bytes
  pub move_to_top : Bool
  pub on_paste : Option (ℕ → Bytes → Option Bytes → Option Bytes)
  pub locale : Locale
  pub date : Bytes
  pub serves : Put → Bool
  pub rules : List Rule
  pub member : Bytes → Bytes → Option Bytes
  pub sends : List PasteKey → Bool

-- The bytes up to the first NUL, which `strlen` counts.
unfoldable pub c_str : Bytes → Bytes
c_str [] = []
c_str (b ∷ bs) = if b == 0 then [] else b ∷ c_str bs

abbrev pub is_empty : Bytes → Bool
is_empty [] = true
is_empty (b ∷ bs) = false

-- The loop of `join_texts`.
unfoldable pub join_from : (ℕ → Option Bytes) → Bytes → Bytes → List ℕ → Bytes
join_from clip_text sep out [] = out
join_from clip_text sep out (i ∷ ids) = elim (clip_text i) [
  | none ↦ join_from clip_text sep out ids
  | some t ↦ join_from clip_text sep (if is_empty out then t else out ++ sep ++ t) ids
]

unfoldable pub join_texts : PasteEnv → PasteReq → Bytes
unfolding join_from
join_texts env req =
    let sep : Bytes = elim req.separator [ none ↦ env.multi_separator | some s ↦ s ] in
    join_from env.clip_text sep [] req.ids

unfoldable pub all_exist : PasteEnv → List ℕ → Bool
all_exist env [] = true
all_exist env (i ∷ ids) = env.exists i && all_exist env ids

abbrev pub credit : List ℕ → ℕ
credit [] = 0
credit (i ∷ []) = i
credit (i ∷ j ∷ ids) = 0

abbrev pub is_none : Option Bytes → Bool
is_none none = true
is_none (some t) = false

abbrev pub no_ids : List ℕ → Bool
no_ids [] = true
no_ids (i ∷ ids) = false

-- The text of the scripts, if one of them gives any.
unfoldable pub scripted : PasteEnv → PasteReq → Option Bytes
unfolding join_texts
scripted env req = elim env.on_paste [
  | none ↦ none
  | some run ↦
      let base = join_texts env req in
      if req.send_keys && is_none req.transform && is_none req.text && not (is_empty base)
      then run (credit req.ids) base (if env.hypr then env.active_class else none)
      else none
]

pub data Chosen : Type 0 where
  chosen : Put → Chosen
  refused : PasteError → Chosen

unfoldable pub choose_transformed : PasteEnv → Bytes → PasteReq → Chosen
unfolding transform_apply join_texts c_str
choose_transformed env name req =
    elim (transform_apply env.locale env.date name (join_texts env req)) [
      | none ↦ refused unknown_transform
      | some out ↦
          if is_empty (c_str out)
          then refused empty_result
          else chosen (put_text (c_str out) (credit req.ids))
    ]

unfoldable pub choose_joined : PasteEnv → PasteReq → Chosen
unfolding join_texts
choose_joined env req =
    let joined = join_texts env req in
    if is_empty joined then refused no_text else chosen (put_text joined 0)

unfoldable pub choose_clips : PasteEnv → PasteReq → List ℕ → Chosen
unfolding choose_joined
choose_clips env req [] = choose_joined env req
choose_clips env req (i ∷ []) = chosen (put_clip i req.mode)
choose_clips env req (i ∷ j ∷ ids) = choose_joined env req

-- The chain of cases in the middle of `paste_run`.
unfoldable pub choose : PasteEnv → PasteReq → Chosen
unfolding scripted choose_transformed choose_clips c_str
choose env req = elim (scripted env req) [
  | some s ↦ chosen (put_text (c_str s) (credit req.ids))
  | none ↦ elim req.transform [
    | some name ↦ choose_transformed env name req
    | none ↦ elim req.text [
      | some t ↦ chosen (put_text t (credit req.ids))
      | none ↦ choose_clips env req req.ids
    ]
  ]
]

abbrev pub touched : Bool → List ℕ → List PasteEffect
touched keys [] = []
touched keys (i ∷ ids) = touch i keys ∷ clip_updated i ∷ touched keys ids

-- The keystrokes at the end.
unfoldable pub press_keys : PasteEnv → PasteReq → List PasteEffect × Option PasteError
unfolding rules_paste_keys
press_keys env req = elim req.send_keys [
  | false ↦ ([], none)
  | true ↦ elim env.hypr [
    | false ↦ ([], some no_hyprland)
    | true ↦
        let keys = rules_paste_keys env.member env.rules in
        (press keys ∷ [], if env.sends keys then none else some keys_refused)
  ]
]

-- What follows on the choice.
unfoldable pub deliver : PasteEnv → PasteReq → Put → List PasteEffect × Option PasteError
unfolding press_keys
deliver env req x = elim (env.serves x) [
  | false ↦ (put x ∷ [], some not_served)
  | true ↦
      let keys = press_keys env req in
      (put x ∷ (if env.move_to_top then touched req.send_keys req.ids else []) ++ keys.0, keys.1)
]

unfoldable pub paste_run : PasteEnv → PasteReq → List PasteEffect × Option PasteError
unfolding all_exist choose deliver
paste_run env req = elim (no_ids req.ids && is_none req.text) [
  | true ↦ ([], some nothing_to_paste)
  | false ↦ elim (no_ids req.ids && not (is_none req.transform)) [
    | true ↦ ([], some needs_clip)
    | false ↦ elim (all_exist env req.ids) [
      | false ↦ ([], some no_such_clip)
      | true ↦ elim env.wl [
        | false ↦ ([], some no_wayland)
        | true ↦ elim (choose env req) [ refused e ↦ ([], some e) | chosen x ↦ deliver env req x ]
      ]
    ]
  ]
]
