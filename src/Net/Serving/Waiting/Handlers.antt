-- ===== src/Net/Serving/Waiting/Handlers.antt =====
-- What accepting, an event and a worker do to what a connection waits for.
use high_performance_http_se.Common.{
  subst, ℕ, zero, suc, ◌≡◌, refl, sym, ap, ◌∙◌, inl, inr, true, false, List, [], ◌∷◌, ◌++◌, Option,
  none, some, ◌==◌, is_some, Bool-cases, Option-cases, arith,
}
use high_performance_http_se.Common.Table.{find, assign, find-assign}
use high_performance_http_se.Net.Sys.{Sys, SendLaws}
use high_performance_http_se.Net.Connection.{Connection, new_connection, has_pending_write}
use high_performance_http_se.Net.Connection.Flush.{IsValid}
use high_performance_http_se.Net.Serving.{
  Reactor, PendingRearm, RearmAction, IoEvent, Serve, readable, admit, modify, handle_accept,
  handle_io_event, handle_event, post_rearm, work,
}
use high_performance_http_se.Net.Serving.Steps.{armed_by, Fresh}
use high_performance_http_se.Net.Serving.Counted.{posted, known_as}
use high_performance_http_se.Net.Serving.Handled.{is_wait_writable, ServeRearms, work-Rearms}
use high_performance_http_se.Net.Serving.Waiting.{
  FitsMask, FitsRearms-none, FitsRearms-append, Fits, AllFit, modify-AllFit, drop-AllFit,
}

unarmed-FitsMask : (c : Connection) (mask : Option ℕ) → armed_by mask ≡ 0 → FitsMask c mask
unfolding armed_by
unarmed-FitsMask c none e = tt
unarmed-FitsMask c (some zero) e = inl refl
unarmed-FitsMask c (some (suc m)) e = absurd (omega (arith, e))

module _ (sys : Sys) (k : ℕ) where
  -- No rearm is left for a descriptor without a connection.
  abbrev pub NoneLeft : List PendingRearm → Reactor sys → Type 0
  NoneLeft qs r =
      is_some (find k r.connections) ≡ false → (posted k r.pending_rearms ≡ 0) × (posted k qs ≡ 0)

  admit-AllFit :
      (fd : ℕ) (qs : List PendingRearm) (r : Reactor sys)
      → find fd r.connections ≡ none
      → NoneLeft qs r
      → AllFit sys k qs r
      → AllFit sys k qs (admit sys fd r) × NoneLeft qs (admit sys fd r)
  admit-AllFit fd qs r free left all = elim (Bool-cases (fd == k)) [
    | inl here ↦
        let same : find fd r.connections ≡ find k r.connections =
          known_as sys fd k r.connections here in
        let (no_posted, no_applied) = left (ap is_some (sym same ∙ free)) in
        let at_k : find k (assign fd (new_connection fd) r.connections) ≡ some (new_connection fd) =
          find-assign fd k (new_connection fd) r.connections ∙ rw here refl in
        (
          λ c found.
              let it : new_connection fd ≡ c = cc in
              subst (λ c'. Fits k c' (find k (assign fd readable r.interests)) r.pending_rearms qs)
                it
                (record {
                  valid = omega arith;
                  fd_is = ground (arith, here);
                  mask_fits = rw (find-assign fd k readable r.interests, here) (inr refl);
                  posted_fit = FitsRearms-none k (new_connection fd) r.pending_rearms no_posted;
                  applied_fit = FitsRearms-none k (new_connection fd) qs no_applied;
                }),
          λ gone. absurd (cc),
        )
    | inr other ↦
        let at_k : find k (assign fd (new_connection fd) r.connections) ≡ find k r.connections =
          find-assign fd k (new_connection fd) r.connections ∙ rw other refl in
        (
          λ c found.
              let f = all c (sym at_k ∙ found) in
              record {
                valid = f.valid;
                fd_is = f.fd_is;
                mask_fits = rw (find-assign fd k readable r.interests, other) f.mask_fits;
                posted_fit = f.posted_fit;
                applied_fit = f.applied_fit;
              },
          λ gone. left (ap is_some (sym at_k) ∙ gone),
        )
  ]

  pub handle_accept-AllFit :
      (fds : List ℕ) (qs : List PendingRearm) (r : Reactor sys)
      → Fresh sys fds r
      → NoneLeft qs r
      → AllFit sys k qs r
      → AllFit sys k qs (handle_accept sys fds r)
  unfolding handle_accept
  handle_accept-AllFit [] qs r fresh left all = all
  handle_accept-AllFit (fd ∷ fds) qs r (free, apart, fresh) left all =
      let (all', left') = admit-AllFit fd qs r free left all in
      handle_accept-AllFit fds qs (admit sys fd r) fresh left' all'

  pub take_event-AllFit :
      (ev : IoEvent) (qs : List PendingRearm) (r : Reactor sys)
      → (ev.fd == r.listen_fd) ≡ false
      → AllFit sys k qs r
      → AllFit sys k qs (handle_io_event sys [] ev r)
  unfolding handle_io_event
  take_event-AllFit ev qs r apart all = elim (Bool-cases (is_some (find ev.fd r.connections))) [
    | inr gone ↦ rw (apart, gone) all
    | inl known ↦ elim (Bool-cases ev.error) [
      | inl e ↦ rw (apart, known, e) (drop-AllFit sys k ev.fd qs r all)
      | inr ne ↦
          rw (apart, known, ne)
            (queued (modify-AllFit sys k ev.fd 0 qs r (λ c found here. inl refl) all))
    ]
  ]
    where
      -- The queue of tasks is not looked at.
      queued :
          AllFit sys k qs (record r { interests = modify sys ev.fd 0 r.interests })
          → AllFit sys k qs (record r {
            interests = modify sys ev.fd 0 r.interests;
            tasks = r.tasks ++ ev.fd ∷ [];
          })
      queued a = a

  -- A connection and its rearm, when the descriptor waits for nothing and has no rearm.
  posts-AllFit :
      (fd : ℕ) (c' : Connection) (w : sys.World) (action : RearmAction) (qs : List PendingRearm)
      (r : Reactor sys)
      → ((fd == k) ≡ true
          → (armed_by (find k r.interests) ≡ 0)
            × (posted k r.pending_rearms ≡ 0)
            × (posted k qs ≡ 0))
      → ((fd == k) ≡ true
          → (has_pending_write c' ≡ is_wait_writable action) × IsValid c' × (c'.fd ≡ k))
      → AllFit sys k qs r
      → AllFit sys k qs (
          post_rearm sys fd action
            (record r { connections = assign fd c' r.connections; world = w }))
  unfolding post_rearm
  posts-AllFit fd c' w action qs r alone rearms all c found = elim (Bool-cases (fd == k)) [
    | inl here ↦
        let (off, no_posted, no_applied) = alone here in
        let (waits, valid, fd_is) = rearms here in
        let at_k : find k (assign fd c' r.connections) ≡ some c' =
          find-assign fd k c' r.connections ∙ rw here refl in
        let it : c' ≡ c = cc in
        subst
          (λ c2.
            Fits k c2 (find k r.interests)
              (r.pending_rearms ++ record { fd = fd; action = action } ∷ []) qs)
          it
          (record {
            valid = valid;
            fd_is = fd_is;
            mask_fits = unarmed-FitsMask c' (find k r.interests) off;
            posted_fit =
                FitsRearms-append k c' r.pending_rearms (record { fd = fd; action = action } ∷ [])
                  (FitsRearms-none k c' r.pending_rearms no_posted) ((λ _. waits), tt);
            applied_fit = FitsRearms-none k c' qs no_applied;
          })
    | inr other ↦
        let at_k : find k (assign fd c' r.connections) ≡ find k r.connections =
          find-assign fd k c' r.connections ∙ rw other refl in
        let f = all c (sym at_k ∙ found) in
        record {
          valid = f.valid;
          fd_is = f.fd_is;
          mask_fits = f.mask_fits;
          posted_fit =
              FitsRearms-append k c r.pending_rearms (record { fd = fd; action = action } ∷ [])
                f.posted_fit ((λ here. absurd (cc)), tt);
          applied_fit = f.applied_fit;
        }
  ]

  module _ (laws : SendLaws sys) (serve : Serve sys) (serves : ServeRearms sys serve) where
    -- A worker's event for `fd`, which waits for nothing and has no rearm.
    pub handle_event-AllFit :
        (fd : ℕ) (qs : List PendingRearm) (r : Reactor sys)
        → ((fd == k) ≡ true
            → (armed_by (find k r.interests) ≡ 0)
              × (posted k r.pending_rearms ≡ 0)
              × (posted k qs ≡ 0))
        → AllFit sys k qs r
        → AllFit sys k qs (handle_event sys serve fd r)
    unfolding handle_event
    handle_event-AllFit fd qs r alone all = elim (Option-cases (find fd r.connections)) [
      | inl gone ↦ rw (handle_event, gone, handle_event) all
      | inr (c0, known) ↦
          let (c', w', action) = work sys serve c0 r.world in
          let rearms : (fd == k) ≡ true
              → (has_pending_write c' ≡ is_wait_writable action) × IsValid c' × (c'.fd ≡ k) =
            λ here.
              let f = all c0 (sym (known_as sys fd k r.connections here) ∙ known) in
              let (waits, valid, same) = work-Rearms sys laws serve serves c0 r.world f.valid in
              (waits, valid, same ∙ f.fd_is) in
          rw (handle_event, known, handle_event)
            (posts-AllFit fd c' w' action qs r alone rearms all)
    ]
