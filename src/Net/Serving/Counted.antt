-- ===== src/Net/Serving/Counted.antt =====
-- How often a descriptor stands in the queues of the reactor, and what each of its operations does to
-- that.
use high_performance_http_se.Common.{
  ℕ, ◌+◌, ◌≡◌, refl, sym, ap, ◌∙◌, inl, inr, true, false, List, [], ◌∷◌, ◌++◌, some, ◌==◌,
  if◌then◌else◌, is_some, Bool-cases, Option-cases, arith, ◌&&◌,
}
use high_performance_http_se.Common.Table.{
  find, erase, find-assign, find-erase, count, count-append,
}
use high_performance_http_se.Net.Sys.{Sys}
use high_performance_http_se.Net.Connection.{new_connection}
use high_performance_http_se.Net.Serving.{
  Reactor, PendingRearm, RearmAction, wait_readable, wait_writable, IoEvent, Serve, readable,
  writable, admit, modify, apply_rearm, rearm, handle_accept, handle_io_event, handle_event,
  post_rearm, work,
}
use high_performance_http_se.Net.Serving.Steps.{armed_by, Fresh}

-- How many rearms of the queue are for `k`.
abbrev pub posted : ℕ → List PendingRearm → ℕ
posted k [] = 0
posted k (p ∷ ps) = (if p.fd == k then 1 else 0) + posted k ps

posted-append :
    (k : ℕ) (ps qs : List PendingRearm) → posted k (ps ++ qs) ≡ posted k ps + posted k qs
posted-append k [] qs = omega arith
posted-append k (p ∷ ps) qs = omega (arith, posted-append k ps qs)

-- The tests of `k` that the event loop and the table of connections answer.
module _ (k fd m : ℕ) (t : List (ℕ × ℕ)) where
  pub armed_by-modify :
      (sys : Sys)
      → armed_by (find k (modify sys fd m t))
        ≡ (if fd == k && is_some (find k t) then armed_by (some m) else armed_by (find k t))
  unfolding armed_by
  armed_by-modify sys = ground (arith, find-assign fd k m t)

  registered-modify : (sys : Sys) → is_some (find k (modify sys fd m t)) ≡ is_some (find k t)
  registered-modify sys = ground (arith, find-assign fd k m t)

module _ (sys : Sys) where
  -- A descriptor with a connection has one owner, and is registered; any other has none, and is not.
  -- The owners that are no part of the reactor are `extra`.
  abbrev pub Counted : ℕ → ℕ → Reactor sys → Type 0
  Counted k extra r =
      (extra + count k r.tasks + posted k r.pending_rearms + armed_by (find k r.interests)
        ≡ (if is_some (find k r.connections) then 1 else 0))
      × (is_some (find k r.interests) ≡ is_some (find k r.connections))

  modify-Counted :
      (m fd k extra : ℕ) (r : Reactor sys)
      → armed_by (some m) ≡ 1
      → ((fd == k) ≡ true → is_some (find k r.connections) ≡ true)
      → Counted k (extra + (if fd == k then 1 else 0)) r
      → Counted k extra (record r { interests = modify sys fd m r.interests })
  modify-Counted m fd k extra r waits known (one, both) = (
    ground (arith, armed_by-modify k fd m r.interests sys),
    registered-modify k fd m r.interests sys ∙ both,
  )

  erase-Counted :
      (fd k extra : ℕ) (r : Reactor sys)
      → ((fd == k) ≡ false → Counted k extra r)
      → ((fd == k) ≡ true → extra + count k r.tasks + posted k r.pending_rearms ≡ 0)
      → Counted k extra
          (record r { connections = erase fd r.connections; interests = erase fd r.interests })
  unfolding armed_by
  erase-Counted fd k extra r counted free = (
    ground (arith, find-erase fd k r.interests, find-erase fd k r.connections, counted),
    ground (arith, find-erase fd k r.interests, find-erase fd k r.connections, counted),
  )

  pub known_as {ℓ} :
      {A : Type ℓ} → (fd k : ℕ) (t : List (ℕ × A)) → (fd == k) ≡ true → find fd t ≡ find k t
  known_as fd k t e = ap (λ n. find n t) (ground arith)

  pub apply_rearm-Counted :
      (p : PendingRearm) (k extra : ℕ) (r : Reactor sys)
      → Counted k (extra + (if p.fd == k then 1 else 0)) r
      → Counted k extra (apply_rearm sys p r)
  unfolding apply_rearm
  apply_rearm-Counted p k extra r (one, both) =
      elim (Bool-cases (is_some (find p.fd r.connections))) [
        | inl known ↦ rw known (
            at_action p.action (λ (e : (p.fd == k) ≡ true).
              ap is_some (sym (known_as p.fd k r.connections e)) ∙ known))
        | inr gone ↦ rw gone (
          let same : (p.fd == k) ≡ true → find p.fd r.connections ≡ find k r.connections =
                known_as p.fd k r.connections in
              ground arith,
          both,
        )
      ]
    where
      at_action :
          (a : RearmAction)
          → ((p.fd == k) ≡ true → is_some (find k r.connections) ≡ true)
          → Counted k extra (rearm sys a p.fd r)
      at_action wait_readable known =
          modify-Counted readable p.fd k extra r (unfold armed_by in refl) known (one, both)
      at_action wait_writable known =
          modify-Counted writable p.fd k extra r (unfold armed_by in refl) known (one, both)
      at_action RearmAction.close known =
          erase-Counted p.fd k extra r (λ ne. (ground arith, both)) (λ e. ground arith)

  pub handle_accept-Counted :
      (fds : List ℕ) (k extra : ℕ) (r : Reactor sys)
      → Fresh sys fds r
      → Counted k extra r
      → Counted k extra (handle_accept sys fds r)
  unfolding handle_accept armed_by
  handle_accept-Counted [] k extra r fresh counted = counted
  handle_accept-Counted (fd ∷ fds) k extra r (free, apart, fresh) (one, both) =
      handle_accept-Counted fds k extra (admit sys fd r) fresh (
        let same : (fd == k) ≡ true → find fd r.connections ≡ find k r.connections =
              known_as fd k r.connections in
            ground (
              arith,
              find-assign fd k readable r.interests,
              find-assign fd k (new_connection fd) r.connections,
            ),
        ground (
          arith,
          find-assign fd k readable r.interests,
          find-assign fd k (new_connection fd) r.connections,
        ),
      )

  pub handle_event-Counted :
      (serve : Serve sys) (fd k extra : ℕ) (r : Reactor sys)
      → Counted k (extra + (if fd == k then 1 else 0)) r
      → Counted k extra (handle_event sys serve fd r)
  unfolding handle_event post_rearm
  handle_event-Counted serve fd k extra r (one, both) =
      elim (Option-cases (find fd r.connections)) [
        | inl gone ↦
            rw (handle_event, gone, handle_event)
              (
                let same : (fd == k) ≡ true → find fd r.connections ≡ find k r.connections =
                      known_as fd k r.connections in
                    ground arith,
                both,
              )
        | inr (c, known) ↦
            let (c', w', action) = work sys serve c r.world in
            let same : (fd == k) ≡ true → find fd r.connections ≡ find k r.connections =
              known_as fd k r.connections in
            let counts =
              posted-append k r.pending_rearms (record { fd = fd; action = action } ∷ []) in
            let table = find-assign fd k c' r.connections in
            rw (handle_event, known, handle_event) (ground arith, ground arith)
      ]

  pub take_event-Counted :
      (ev : IoEvent) (k extra : ℕ) (r : Reactor sys)
      → (ev.fd == r.listen_fd) ≡ false
      → armed_by (find ev.fd r.interests) ≡ 1
      → Counted k extra r
      → Counted k extra (handle_io_event sys [] ev r)
  unfolding handle_io_event
  take_event-Counted ev k extra r other waits (one, both) =
      let same : (ev.fd == k) ≡ true → find ev.fd r.interests ≡ find k r.interests =
        known_as ev.fd k r.interests in
      let at_k : (ev.fd == k) ≡ true → armed_by (find k r.interests) ≡ 1 =
        λ e. rw (sym (same e)) waits in
      elim (Bool-cases (is_some (find ev.fd r.connections))) [
        | inr gone ↦ rw (other, gone) (one, both)
        | inl known ↦ elim (Bool-cases ev.error) [
          | inl e ↦
              rw (other, known, e)
                (erase-Counted ev.fd k extra r (λ _. (one, both)) (λ e. ground arith))
          | inr ne ↦
              let counts = count-append k r.tasks (ev.fd ∷ []) in
              let armed = armed_by-modify k ev.fd 0 r.interests sys in
              let off : armed_by (some 0) ≡ 0 = unfold armed_by in refl in
              rw (other, known, ne)
                (ground arith, registered-modify k ev.fd 0 r.interests sys ∙ both)
        ]
      ]
