-- ===== src/Capture/Free.antt =====
-- The end of a capture.
use clipnet.Base.{◌≡◌, refl, inl, inr, none}
use clipnet.Resource.{Slot, idle_slot, cancel, nothing, IsSlot, release_any-own, clear-cancel}
use clipnet.Capture.{Capture, offer_id, stop_reading, abort_current}
use clipnet.Capture.Phase.{holdings, IsReady}
use clipnet.Capture.Selection.{Pair-IsSlot}
use clipnet.Capture.Primary.{Primary, primary_stop, capture_free}
use clipnet.Capture.Primary.Phase as Primaries

-- Nothing is held any more, and no timer runs.
pub record IsFreed (c : Capture) (p : Primary) : Type 0 where
  pub offers : (c.offers ≡ nothing) × (p.offers ≡ nothing)
  pub fds : (c.fds ≡ nothing) × (p.fds ≡ nothing)
  pub watched : (c.watched ≡ nothing) × (p.watched ≡ nothing)
  pub reading : (c.debounce_timer ≡ idle_slot) × (c.format_timer ≡ idle_slot)
  pub watching : (c.keepalive_timer.due ≡ none) × (c.recheck_timer.due ≡ none)
  pub primary : p.timer ≡ idle_slot

cancelled : (s : Slot) → IsSlot s → (cancel s).due ≡ none
unfolding cancel
cancelled s (inl e) = rw e refl
cancelled s (inr (d, e)) = rw e refl

-- Freed in any state that is reached, a capture gives back all that it holds.
capture_free-IsFreed :
    (c : Capture) (p : Primary)
    → IsReady (holdings c)
    → Primaries.IsReady p
    → IsFreed (capture_free c p).0 (capture_free c p).1
unfolding capture_free abort_current stop_reading primary_stop
capture_free-IsFreed c p h k =
    let (soon, late) = Pair-IsSlot c.keepalive_timer c.recheck_timer h.held.pair in
    record {
      offers = (
        release_any-own (offer_id c.offer) c.offers h.held.offers,
        release_any-own (offer_id p.offer) p.offers k.held.offers,
      );
      fds = (release_any-own c.fd c.fds h.held.fds, release_any-own p.fd p.fds k.held.fds);
      watched = (
        release_any-own c.watch c.watched h.held.watched,
        release_any-own p.watch p.watched k.held.watched,
      );
      reading = (
        clear-cancel c.debounce_timer h.held.debounce,
        clear-cancel c.format_timer h.held.format,
      );
      watching = (cancelled c.keepalive_timer soon, cancelled c.recheck_timer late);
      primary = clear-cancel p.timer (Primaries.timer-IsSlot p k.phase);
    }
