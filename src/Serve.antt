-- ===== src/Serve.antt =====
-- daemon/src/serve.c: the names under which a source offers a payload, what is sent for a name, and the
-- writer that sends it, from `start_writer` to the event that frees it. The reference counts, the callback on the first read and the calls of Wayland are
-- not modelled, nor is the database that `serve_clip` reads. `get_elem?` is `none` where the source
-- would read behind an array.
pub mod Names
pub mod Pump
pub mod Tests
use clipnet.Base.{
  ℕ, zero, suc, Option, none, some, List, [], ◌∷◌, ◌++◌, map, if◌then◌else◌, get_elem?, take, drop,
  Bytes, codes, bytes_eq, mem,
}
use clipnet.Mime.{mime_text, mime_marker, text_default_aliases}

-- `fmt_out`.
pub record FmtOut : Type 0 where
  pub mime : Bytes
  pub aliases : List Bytes
  pub content : Bytes

-- `clip_payload`.
pub record ClipPayload : Type 0 where
  pub uuid : Bytes
  pub fmts : List FmtOut

-- An entry of the arrays `names` and `fmt_of` of a source.
pub record Offer : Type 0 where
  pub name : Bytes
  pub fmt : ℕ

abbrev pub names : List Offer → List Bytes
names = map λ o. o.name

unfoldable pub add_name : Bytes → ℕ → List Offer → List Offer
add_name name fmt os =
    if mem name (names os) then os else os ++ record { name = name; fmt = fmt } ∷ []

unfoldable pub add_names : List Bytes → ℕ → List Offer → List Offer
unfolding add_name
add_names [] fmt os = os
add_names (n ∷ ns) fmt os = add_names ns fmt (add_name n fmt os)

-- A round of the loop of `own` over the formats.
unfoldable pub own_format : FmtOut → ℕ → List Offer → List Offer
unfolding add_names
own_format f i os =
    if bytes_eq f.mime mime_text
    then add_names text_default_aliases i (add_names f.aliases i (add_name mime_text i os))
    else add_name f.mime i os

unfoldable pub own_from : ℕ → List FmtOut → List Offer → List Offer
unfolding own_format
own_from i [] os = os
own_from i (f ∷ fs) os = own_from (suc i) fs (own_format f i os)

-- The names of the source that `own` makes, and what it offers.
unfoldable pub own_names : ClipPayload → List Offer
unfolding own_from
own_names pl = own_from 0 pl.fmts []

unfoldable pub own_offers : ClipPayload → List Bytes
unfolding own_names
own_offers pl = names (own_names pl) ++ mime_marker ∷ []

unfoldable pub find_name : Bytes → List Offer → Option ℕ
find_name mime [] = none
find_name mime (o ∷ os) = if bytes_eq o.name mime then some o.fmt else find_name mime os

abbrev pub content_at : ClipPayload → Option ℕ → Option Bytes
content_at pl none = none
content_at pl (some i) = elim (get_elem? pl.fmts i) [ none ↦ none | some f ↦ some f.content ]

-- The bytes that `on_send` starts to write; `none` where it closes the descriptor at once.
unfoldable pub on_send : ClipPayload → Bytes → Option Bytes
unfolding own_names find_name
on_send pl mime =
    if bytes_eq mime mime_marker
    then some pl.uuid
    else content_at pl (find_name mime (own_names pl))

unfoldable pub text_payload : Bytes → Option Bytes → ClipPayload
text_payload text uuid = record {
  uuid = elim uuid [ none ↦ codes "text" | some u ↦ take 36 u ];
  fmts = record { mime = mime_text; aliases = []; content = text } ∷ [];
}

-- What `write` returns; `failed` is any other error.
pub data WriteResult : Type 0 where
  wrote : ℕ → WriteResult
  interrupted would_block broken_pipe failed : WriteResult

-- What `writer_pump` leaves: a writer that waits, or one that is freed.
pub data Pumped : Type 0 where
  waits : (sent left : Bytes) → Pumped
  freed : (sent left : Bytes) → Pumped

-- `writer_pump`; the list holds what the calls of `write` return, and the writer waits behind its end.
unfoldable pub writer_pump : List WriteResult → Bytes → Bytes → Pumped
writer_pump rs sent [] = freed sent []
writer_pump [] sent (x ∷ left) = waits sent (x ∷ left)
writer_pump (wrote zero ∷ rs) sent (x ∷ left) = freed sent (x ∷ left)
writer_pump (wrote (suc n) ∷ rs) sent (x ∷ left) =
    writer_pump rs (sent ++ take (suc n) (x ∷ left)) (drop (suc n) (x ∷ left))
writer_pump (interrupted ∷ rs) sent (x ∷ left) = writer_pump rs sent (x ∷ left)
writer_pump (would_block ∷ rs) sent (x ∷ left) = waits sent (x ∷ left)
writer_pump (broken_pipe ∷ rs) sent (x ∷ left) = freed sent (x ∷ left)
writer_pump (failed ∷ rs) sent (x ∷ left) = freed sent (x ∷ left)

-- What the loop reports of a writer: that the pipe takes bytes, with what the calls of `write` then
-- return, that the reader is gone (EPOLLERR or EPOLLHUP), or that its timer is due.
pub data WriterEvent : Type 0 where
  writable : List WriteResult → WriterEvent
  hung_up timed_out : WriterEvent

-- `on_writable` and `on_writer_timeout`; a writer that is freed has neither watch nor timer.
unfoldable pub on_writer_event : WriterEvent → Pumped → Pumped
unfolding writer_pump
on_writer_event e (freed sent left) = freed sent left
on_writer_event (writable rs) (waits sent left) = writer_pump rs sent left
on_writer_event hung_up (waits sent left) = freed sent left
on_writer_event timed_out (waits sent left) = freed sent left

abbrev pub on_writer_events : List WriterEvent → Pumped → Pumped
on_writer_events [] w = w
on_writer_events (e ∷ es) w = on_writer_events es (on_writer_event e w)

-- `start_writer`, whose first call of `writer_pump` sees `first`, and the events behind it.
unfoldable pub start_writer : List WriteResult → List WriterEvent → Bytes → Pumped
unfolding writer_pump on_writer_event
start_writer first events whole = on_writer_events events (writer_pump first [] whole)
