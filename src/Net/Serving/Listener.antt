-- ===== src/Net/Serving/Listener.antt =====
-- The listener's descriptor is no connection, whatever the reactor and the workers do.
use high_performance_http_se.Common.{
  ℕ, ◌≡◌, inl, inr, true, false, List, [], ◌∷◌, none, ◌==◌, is_some, Bool-cases, Option-cases,
  arith,
}
use high_performance_http_se.Common.Table.{find, find-assign, find-erase}
use high_performance_http_se.Net.Sys.{Sys}
use high_performance_http_se.Net.Connection.{new_connection}
use high_performance_http_se.Net.Serving.{
  Reactor, PendingRearm, RearmAction, wait_readable, wait_writable, IoEvent, Serve, admit,
  apply_rearm, rearm, handle_accept, handle_io_event, handle_event, post_rearm, work,
}
use high_performance_http_se.Net.Serving.Steps.{Fresh}
use high_performance_http_se.Net.Serving.Counted.{known_as}

module _ (sys : Sys) where
  -- The listener is no connection.
  abbrev pub ListensApart : ℕ → Reactor sys → Type 0
  ListensApart l r = (r.listen_fd ≡ l) × (find l r.connections ≡ none)

  pub handle_accept-ListensApart :
      (l : ℕ) (fds : List ℕ) (r : Reactor sys)
      → Fresh sys fds r
      → ListensApart l r
      → ListensApart l (handle_accept sys fds r)
  unfolding handle_accept
  handle_accept-ListensApart l [] r fresh apart = apart
  handle_accept-ListensApart l (fd ∷ fds) r (free, other, fresh) (same, none_there) =
      handle_accept-ListensApart l fds (admit sys fd r) fresh
        (same, ground (arith, find-assign fd l (new_connection fd) r.connections))

  pub apply_rearm-ListensApart :
      (l : ℕ) (p : PendingRearm) (r : Reactor sys)
      → ListensApart l r
      → ListensApart l (apply_rearm sys p r)
  unfolding apply_rearm
  apply_rearm-ListensApart l p r apart = elim (Bool-cases (is_some (find p.fd r.connections))) [
    | inl known ↦ rw known (at_action p.action)
    | inr gone ↦ rw gone apart
  ]
    where
      at_action : (a : RearmAction) → ListensApart l (rearm sys a p.fd r)
      at_action wait_readable = apart
      at_action wait_writable = apart
      at_action RearmAction.close = (apart.0, ground (arith, find-erase p.fd l r.connections))

  pub take_event-ListensApart :
      (l : ℕ) (ev : IoEvent) (r : Reactor sys)
      → (ev.fd == r.listen_fd) ≡ false
      → ListensApart l r
      → ListensApart l (handle_io_event sys [] ev r)
  unfolding handle_io_event
  take_event-ListensApart l ev r other apart =
      elim (Bool-cases (is_some (find ev.fd r.connections))) [
        | inr gone ↦ rw (other, gone) apart
        | inl known ↦ elim (Bool-cases ev.error) [
          | inl e ↦ rw (other, known, e) (apart.0, ground (arith, find-erase ev.fd l r.connections))
          | inr ne ↦ rw (other, known, ne) apart
        ]
      ]

  pub handle_event-ListensApart :
      (l : ℕ) (serve : Serve sys) (fd : ℕ) (r : Reactor sys)
      → ListensApart l r
      → ListensApart l (handle_event sys serve fd r)
  unfolding handle_event post_rearm
  handle_event-ListensApart l serve fd r (same_l, apart) =
      elim (Option-cases (find fd r.connections)) [
        | inl gone ↦ rw (handle_event, gone, handle_event) (same_l, apart)
        | inr (c, known) ↦
            let (c', w', action) = work sys serve c r.world in
            let same : (fd == l) ≡ true → find fd r.connections ≡ find l r.connections =
              known_as sys fd l r.connections in
            let table = find-assign fd l c' r.connections in
            rw (handle_event, known, handle_event) (same_l, ground arith)
      ]
