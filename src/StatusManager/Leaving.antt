-- ===== src/StatusManager/Leaving.antt =====
-- What goes on when a page has gone.
use car_integrated_service_m.Prelude.{
  Bytes, true, false, List, [], ◌∷◌, ◌++◌, Option, All, ◌≡◌, ◌≢◌, refl, arith,
}
use car_integrated_service_m.Container.{Container}
use car_integrated_service_m.Container.Manager.{Manager}
use car_integrated_service_m.StatusManager.{
  WriteResult, written, close_sent, write_failed, send_container_list, send_status, send_ping,
}

-- The state after the containers are listed a number of times.
abbrev pub list_times : (mgr : Manager) → mgr.World → List WriteResult → mgr.World
list_times mgr w [] = w
list_times mgr w (r ∷ rs) = list_times mgr (mgr.containers w).0 rs

module _ (mgr : Manager) (marshal : List Container → Option Bytes) where
  send_container_list_goes_on :
      (w : mgr.World) (r : WriteResult)
      → r ≢ write_failed
      → ((send_container_list mgr marshal w r).2 ≡ false)
        × ((send_container_list mgr marshal w r).0 ≡ (mgr.containers w).0)
  unfolding send_container_list
  send_container_list_goes_on w written h = (ground arith, ground arith)
  send_container_list_goes_on w close_sent h = (ground arith, ground arith)
  send_container_list_goes_on w write_failed h = absurd (h refl)

  send_status_goes_on :
      (w : mgr.World) (results : List WriteResult)
      → All (λ r. r ≢ write_failed) results
      → ((send_status mgr marshal w results).2 ≡ false)
        × ((send_status mgr marshal w results).0 ≡ list_times mgr w results)
  unfolding send_status
  send_status_goes_on w [] h = (refl, refl)
  send_status_goes_on w (r ∷ results) h =
      let (on, listed) = send_container_list_goes_on w r h.0 in
      let (waits, counted) = send_status_goes_on (mgr.containers w).0 results h.1 in ground arith

  send_ping_ends :
      (before later : List WriteResult) → (send_ping (before ++ close_sent ∷ later)).1 ≡ true
  unfolding send_ping
  send_ping_ends [] later = refl
  send_ping_ends (written ∷ before) later = ground (arith, send_ping_ends before later)
  send_ping_ends (close_sent ∷ before) later = refl
  send_ping_ends (write_failed ∷ before) later = refl

  -- Where writes give the same in both loops, and some is refused because the connection is being
  -- closed but none fails otherwise: the sending of pings has returned, while the sending of
  -- statuses has not, and has listed the containers once for each write.
  pub send_status_leaks :
      (w : mgr.World) (before later : List WriteResult)
      → All (λ r. r ≢ write_failed) (before ++ close_sent ∷ later)
      → let results = before ++ close_sent ∷ later in
        ((send_ping results).1 ≡ true)
        × ((send_status mgr marshal w results).2 ≡ false)
        × ((send_status mgr marshal w results).0 ≡ list_times mgr w results)
  send_status_leaks w before later h =
      let (waits, counted) = send_status_goes_on w (before ++ close_sent ∷ later) h in
      (send_ping_ends before later, waits, counted)
