-- ===== src/Serve/Pump.antt =====
-- `writer_pump`: what is sent, and what is left.
use clipnet.Base.{
  ℕ, zero, suc, ◌<◌, ◌≡◌, refl, ap, ◌∙◌, subst, ◌⊎◌, inl, inr, Bool, true, false, ◌||◌, List, [],
  ◌∷◌, ◌++◌, append_assoc, arith, length, take, drop, Bytes,
}
use clipnet.Serve.{
  WriteResult, Pumped, writer_pump, wrote, interrupted, would_block, broken_pipe, waits, freed,
  WriterEvent, on_writer_event, on_writer_events, start_writer, failed, writable, hung_up,
  timed_out,
}

take-append-drop : (n : ℕ) (xs : Bytes) → take n xs ++ drop n xs ≡ xs
take-append-drop zero xs = refl
take-append-drop (suc n) [] = refl
take-append-drop (suc n) (x ∷ xs) = ap (◌∷◌ x) (take-append-drop n xs)

-- What is sent and what is left make up the whole; a writer that waits has something left, and a writer
-- that is freed without an ending has nothing left.
pub IsSplit : Bool → Bytes → Pumped → Type 0
IsSplit ended whole (waits sent left) = (sent ++ left ≡ whole) × (0 < length left)
IsSplit ended whole (freed sent left) = (sent ++ left ≡ whole) × ((ended ≡ true) ⊎ (left ≡ []))

-- Among the results is a broken pipe, another error, or a write of no bytes.
abbrev pub breaks : List WriteResult → Bool
breaks [] = false
breaks (wrote zero ∷ rs) = true
breaks (wrote (suc n) ∷ rs) = breaks rs
breaks (interrupted ∷ rs) = breaks rs
breaks (would_block ∷ rs) = breaks rs
breaks (broken_pipe ∷ rs) = true
breaks (failed ∷ rs) = true

abbrev pub ends : WriterEvent → Bool
ends (writable rs) = breaks rs
ends hung_up = true
ends timed_out = true

abbrev pub any_ends : List WriterEvent → Bool
any_ends [] = false
any_ends (e ∷ es) = ends e || any_ends es

pump-IsSplit :
    (rs : List WriteResult) (sent left whole : Bytes)
    → sent ++ left ≡ whole
    → IsSplit (breaks rs) whole (writer_pump rs sent left)
unfolding writer_pump IsSplit
pump-IsSplit [] sent [] whole h = (h, inr refl)
pump-IsSplit (r ∷ rs) sent [] whole h = (h, inr refl)
pump-IsSplit [] sent (x ∷ left) whole h = (h, omega arith)
pump-IsSplit (wrote zero ∷ rs) sent (x ∷ left) whole h = (h, inl refl)
pump-IsSplit (wrote (suc n) ∷ rs) sent (x ∷ left) whole h =
    pump-IsSplit rs (sent ++ take (suc n) (x ∷ left)) (drop (suc n) (x ∷ left)) whole (
      append_assoc sent (take (suc n) (x ∷ left)) (drop (suc n) (x ∷ left))
      ∙ ap (◌++◌ sent) (take-append-drop (suc n) (x ∷ left))
      ∙ h)
pump-IsSplit (interrupted ∷ rs) sent (x ∷ left) whole h = pump-IsSplit rs sent (x ∷ left) whole h
pump-IsSplit (would_block ∷ rs) sent (x ∷ left) whole h = (h, omega arith)
pump-IsSplit (broken_pipe ∷ rs) sent (x ∷ left) whole h = (h, inl refl)
pump-IsSplit (failed ∷ rs) sent (x ∷ left) whole h = (h, inl refl)

-- One ending more does no harm.
IsSplit-or :
    (a b : Bool) (whole : Bytes) (w : Pumped)
    → (IsSplit a whole w ⊎ IsSplit b whole w)
    → IsSplit (a || b) whole w
unfolding IsSplit
IsSplit-or a b whole (waits sent left) (inl h) = h
IsSplit-or a b whole (waits sent left) (inr h) = h
IsSplit-or a b whole (freed sent left) (inl (h, inl e)) = (h, inl (ground (arith, e)))
IsSplit-or a b whole (freed sent left) (inl (h, inr e)) = (h, inr e)
IsSplit-or a b whole (freed sent left) (inr (h, inl e)) = (h, inl (ground (arith, e)))
IsSplit-or a b whole (freed sent left) (inr (h, inr e)) = (h, inr e)

on_writer_event-IsSplit :
    (ended : Bool) (e : WriterEvent) (whole : Bytes) (w : Pumped)
    → IsSplit ended whole w
    → IsSplit (ended || ends e) whole (on_writer_event e w)
unfolding on_writer_event
on_writer_event-IsSplit ended e whole (freed sent left) h =
    IsSplit-or ended (ends e) whole (freed sent left) (inl h)
on_writer_event-IsSplit ended (writable rs) whole (waits sent left) h =
    IsSplit-or ended (breaks rs) whole (writer_pump rs sent left)
      (inr (pump-IsSplit rs sent left whole (unfold IsSplit in h.0)))
on_writer_event-IsSplit ended hung_up whole (waits sent left) h =
    IsSplit-or ended true whole (freed sent left) (inr (unfold IsSplit in (h.0, inl refl)))
on_writer_event-IsSplit ended timed_out whole (waits sent left) h =
    IsSplit-or ended true whole (freed sent left) (inr (unfold IsSplit in (h.0, inl refl)))

on_writer_events-IsSplit :
    (ended : Bool) (es : List WriterEvent) (whole : Bytes) (w : Pumped)
    → IsSplit ended whole w
    → IsSplit (ended || any_ends es) whole (on_writer_events es w)
on_writer_events-IsSplit ended [] whole w h = IsSplit-or ended false whole w (inl h)
on_writer_events-IsSplit ended (e ∷ es) whole w h =
    subst (λ (b : Bool). IsSplit b whole (on_writer_events (e ∷ es) w)) (ground arith)
      (on_writer_events-IsSplit (ended || ends e) es whole (on_writer_event e w)
        (on_writer_event-IsSplit ended e whole w h))

-- However the calls of `write` and the events of a writer go, the bytes sent are the first of the
-- payload, in order and none twice. A writer that waits has bytes left. One that is freed has sent them
-- all, unless a write failed or took no byte, the reader left, or the writer timed out.
pub start_writer-IsSplit :
    (first : List WriteResult) (events : List WriterEvent) (whole : Bytes)
    → IsSplit (breaks first || any_ends events) whole (start_writer first events whole)
unfolding start_writer
start_writer-IsSplit first events whole =
    on_writer_events-IsSplit (breaks first) events whole (writer_pump first [] whole)
      (pump-IsSplit first [] whole whole refl)
