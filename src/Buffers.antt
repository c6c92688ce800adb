-- ===== src/Buffers.antt =====
-- daemon/src/buffers.c: the named copy buffers. Beside the members of `struct buffers` the record has
-- the table `copy_buffers`, what `serve_current` and `capture_current_clip` answer, whether the current
-- source calls `on_read` at its first read, and in `out` what the module had other parts do. SQLite,
-- the loading of a payload and the compositor answer in a `BuffersEnv`.
pub mod Home
pub mod Tests
use clipnet.Base.{
  ℕ, ◌+◌, Bool, true, false, ◌&&◌, ◌||◌, not, Option, none, some, List, [], ◌∷◌, ◌++◌, leb, ◌==◌,
  if◌then◌else◌,
}
use clipnet.Resource.{Slot, arm, cancel, clear}

abbrev pub buffer_slots : ℕ
buffer_slots = 3

abbrev pub copy_wait_ms : ℕ
copy_wait_ms = 2000

abbrev pub restore_after_read_ms : ℕ
restore_after_read_ms = 300

abbrev pub restore_fallback_ms : ℕ
restore_fallback_ms = 3000

pub data BufferError : Type 0 where
  bad_slot needs_hyprland recording_paused copy_refused : BufferError
  buffer_empty not_served paste_refused : BufferError

pub data BufferEffect : Type 0 where
  buffers_changed : ℕ → BufferEffect
  expect_copy : ℕ → BufferEffect
  press_copy : (cut : Bool) → BufferEffect
  press_paste : BufferEffect

pub record BuffersEnv : Type 0 where
  pub hypr : Bool
  pub wl : Bool
  pub paused : Bool
  pub armed : ℕ
  pub exists : ℕ → Bool
  pub serves : ℕ → Bool
  pub stores : Bool
  pub sends_copy : Bool
  pub sends_paste : Bool

pub record SlotRow : Type 0 where
  pub slot : ℕ
  pub clip : ℕ

pub record Buffers : Type 0 where
  pub copy_slot : ℕ
  pub copy_prev : ℕ
  pub paste_clip : ℕ
  pub paste_prev : ℕ
  pub restore_timer : Slot
  pub rows : List SlotRow
  pub served : ℕ
  pub current_clip : ℕ
  pub read_cb : Bool
  pub out : List BufferEffect

abbrev pub say : BufferEffect → Buffers → Buffers
say e b = record b { out = b.out ++ e ∷ [] }

-- `serve_clip(..., SERVE_ALL)` where it succeeds: a new source, which makes its clip current.
abbrev pub put_clip : ℕ → Buffers → Buffers
put_clip id b = record b { served = id; current_clip = id; read_cb = false }

abbrev pub upsert : ℕ → ℕ → List SlotRow → List SlotRow
upsert slot clip [] = record { slot = slot; clip = clip } ∷ []
upsert slot clip (r ∷ rs) =
    if r.slot == slot then record r { clip = clip } ∷ rs else r ∷ upsert slot clip rs

-- `none` where the statement fails.
unfoldable pub set_slot : BuffersEnv → ℕ → ℕ → Buffers → Option Buffers
set_slot env slot clip b =
    if env.stores then some (record b { rows = upsert slot clip b.rows }) else none

abbrev pub find_row : ℕ → List SlotRow → ℕ
find_row slot [] = 0
find_row slot (r ∷ rs) = if r.slot == slot then r.clip else find_row slot rs

unfoldable pub slot_clip : ℕ → Buffers → ℕ
slot_clip slot b = find_row slot b.rows

unfoldable pub valid_slot : ℕ → Bool
valid_slot slot = leb 1 slot && leb slot buffer_slots

unfoldable pub restore : BuffersEnv → ℕ → ℕ → Buffers → Buffers
restore env prev expect_current b =
    if prev == 0 || not (b.served == expect_current) || not (env.exists prev)
    then b
    else if env.serves prev
    then put_clip prev b
    else b

unfoldable pub on_copied : BuffersEnv → ℕ → Buffers → Buffers
unfolding set_slot
on_copied env clip b =
    let slot = b.copy_slot in
    let prev = b.copy_prev in
    let c = record b { copy_slot = 0 } in
    elim (slot == 0) [
      | true ↦ c
      | false ↦ elim (set_slot env slot clip c) [
        | none ↦ c
        | some d ↦
            let e = say (buffers_changed slot) d in
            if not (prev == 0) && not (prev == clip) && env.exists prev && env.serves prev
            then put_clip prev e
            else e
      ]
    ]

unfoldable pub buffers_copy : BuffersEnv → ℕ → Bool → Buffers → Buffers × Option BufferError
unfolding valid_slot
buffers_copy env slot cut b = elim (valid_slot slot) [
  | false ↦ (b, some bad_slot)
  | true ↦ elim env.hypr [
    | false ↦ (b, some needs_hyprland)
    | true ↦ elim env.paused [
      | true ↦ (b, some recording_paused)
      | false ↦
          let c = say (press_copy cut) (
            say (expect_copy copy_wait_ms)
              (record b { copy_slot = slot; copy_prev = b.current_clip })) in
          elim env.sends_copy [
            | true ↦ (c, none)
            | false ↦ (record c { copy_slot = 0 }, some copy_refused)
          ]
    ]
  ]
]

unfoldable pub on_restore : BuffersEnv → Buffers → Buffers
unfolding clear restore
on_restore env b =
    let c =
      restore env b.paste_prev b.paste_clip (record b { restore_timer = clear b.restore_timer }) in
    record c { paste_clip = 0; paste_prev = 0 }

unfoldable pub on_read : BuffersEnv → Buffers → Buffers
unfolding arm cancel
on_read env b = record b {
  restore_timer = arm (env.armed + restore_after_read_ms) (cancel b.restore_timer);
}

-- A paste that still waits to restore finishes first.
unfoldable pub finish_paste : BuffersEnv → Buffers → Buffers
unfolding clear cancel on_restore
finish_paste env b = elim b.restore_timer.pointer [
  | false ↦ b
  | true ↦ on_restore env (record b { restore_timer = cancel b.restore_timer })
]

-- The end of `buffers_paste`, with the clip on the clipboard.
unfoldable pub begin_paste : BuffersEnv → ℕ → ℕ → Buffers → Buffers
unfolding arm
begin_paste env clip prev b =
    let c = put_clip clip b in
    say press_paste (record c {
      paste_clip = clip;
      paste_prev = if prev == clip then 0 else prev;
      read_cb = true;
      restore_timer = arm (env.armed + restore_fallback_ms) c.restore_timer;
    })

unfoldable pub buffers_paste : BuffersEnv → ℕ → Buffers → Buffers × Option BufferError
unfolding valid_slot slot_clip finish_paste begin_paste
buffers_paste env slot b = elim (valid_slot slot) [
  | false ↦ (b, some bad_slot)
  | true ↦ elim (env.hypr && env.wl) [
    | false ↦ (b, some needs_hyprland)
    | true ↦
        let clip = slot_clip slot b in
        elim (not (clip == 0) && env.exists clip) [
          | false ↦ (b, some buffer_empty)
          | true ↦
              let c = finish_paste env b in
              elim (env.serves clip) [
                | false ↦ (c, some not_served)
                | true ↦
                    let d = begin_paste env clip c.current_clip c in
                    (d, if env.sends_paste then none else some paste_refused)
              ]
        ]
  ]
]
