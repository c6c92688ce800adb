-- ===== src/Lib.antt =====
-- The clipboard daemon clipnetd (daemon/src): how a selection is read and stored, how clips are offered
-- and pasted, how text and pictures are understood, and which rules and keyboard shortcuts apply.
--
-- The event loop (loop.c) calls the handlers of the other parts. A new selection goes to capture.c, which
-- plans the reads (mime.c), lets the rules cut the plan (rules.c), reads the formats one by one under
-- time-outs, and stores the clip. serve.c offers a clip to other programs; paste.c and buffers.c put clips
-- on the clipboard, transformed on request (transform.c), and press the keys of the target (accel.c,
-- rules.c). Previews are written by textutil.c, the sides of pictures read by imgmeta.c, payloads named by
-- sha256.c. db.c and db_edit.c keep the clips, their blobs (blob.c) and groups. The helpers for UTF-8, Base64 and hexadecimal text are in util.c.
--
--   Base: the shared names, Boolean tests, lists measured by native numbers, byte strings, and the
--     lemmas that read C's masks and shifts as division (Base/Masks).
--   Util/Utf8: `utf8_valid`, `utf8_prefix`, `latin1_to_utf8` (daemon/src/util.c), `decode`, `put`,
--     `encode` (daemon/src/transform.c) and `put_utf8` (daemon/src/textutil.c).
--   Util/Base64: `base64_encode`, `base64_decode`, `hex_encode` (daemon/src/util.c).
--   Mime: all of daemon/src/mime.c; a plan is the record of the struct of daemon/src/mime.h.
--   Textutil: `text_preview`, `html_to_text` (Textutil/Html) and `uri_list_to_paths`
--     (daemon/src/textutil.c).
--   Imgmeta: all of daemon/src/imgmeta.c; a read outside the image is `none`.
--   Accel: all of daemon/src/accel.c.
--   Transform: the transforms of daemon/src/transform.c, the functions of the locale being a record.
--   Serve: the offered names, `on_send`, `text_payload`, and a writer from `start_writer` to
--     the event that frees it (daemon/src/serve.c).
--   Resource: what a component holds of the loop and of the system, as seen from outside: a pointer to a
--     timer with the timer itself, and a table of things that have to be given back once.
--   Capture: daemon/src/capture.c, the PRIMARY selection in Capture/Primary. The handlers are functions
--     of the state `Capture`, with what other parts answer in an `Env` (settings, rules, scripts, the
--     database); the step relation of Capture/Steps lets the events come in any order. Capture/Tests runs
--     it with the functions of Rules.
--   Sha256: all of daemon/src/sha256.c, with 32-bit words as numbers below 2 ^ 32.
--   Buffers: daemon/src/buffers.c, with SQLite, the loading of payloads and the compositor in a
--     `BuffersEnv`.
--   Paste: daemon/src/paste.c, with the database, the settings, the scripts and the connections in a
--     `PasteEnv`; it uses Transform and Rules.
--   Rules: daemon/src/rules.c, with `fnmatch`, the members of a JSON text and the groups as parameters.
--   Db: the tables of daemon/src/schema.c as lists of rows. Db/Groups: the groups of daemon/src/db_edit.c,
--     with the recursive query as rounds, one for every group, which are enough; Db/Groups/Steps lets the
--     operations come in any order.
--   Db/Clips: the clips of daemon/src/db.c and daemon/src/db_edit.c with the blob directory of
--     daemon/src/blob.c: Content is the content hash, Derive the kind, text and preview of a clip (it
--     uses Mime, Textutil and Imgmeta), Change adds and deletes, Edit edits, Retention removes what is old
--     or too much; Steps lets these come in any order. Two contents of one SHA-256 are excluded by the
--     hypothesis that a function, `content`, gives what stands under each name; printf, strtoul and the
--     printing and parsing of the JSON arrays of aliases are the parameter `Libc`.
--   Loop: the timers, the watches and a round of `loop_run` (daemon/src/loop.c). What a callback does is
--     a parameter, any list of the loop's operations.
--
-- A C string or a buffer is the list of its bytes, numbers below 256; a pointer with a length is the
-- list from that position on. Numbers are natural numbers; where a value could pass the width of its C
-- type the file says so. Loops over a buffer take as fuel the length of the buffer, and every round
-- consumes a byte; the theorems that need this carry it in their proofs. Memory is not modelled: an
-- allocation succeeds, and a fixed array is a list with a bound.
--
-- Not modelled: the queries and the search of the history and the order of its sticky clips in
-- daemon/src/db.c, SQLite itself, whose tables are lists of rows here, Wayland and Hyprland connections,
-- the JSON protocol, Lua scripts, the clock and locales, which belong to libraries or to the system, and
-- the reference counts of payloads in daemon/src/serve.c.
pub mod Accel
pub mod Base
pub mod Buffers
pub mod Capture
pub mod Db
pub mod Imgmeta
pub mod Loop
pub mod Mime
pub mod Paste
pub mod Resource
pub mod Rules
pub mod Serve
pub mod Sha256
pub mod Textutil
pub mod Transform
pub mod Util
