-- ===== src/Net/Serving/Waiting.antt =====
-- What a connection waits for: writing while it has bytes to send, and reading else.
pub mod Handlers
pub mod Reached
use high_performance_http_se.Common.{
  ℕ, ◌+◌, ◌≡◌, ◌⊎◌, refl, sym, ap, ◌∙◌, inl, inr, Bool, true, false, List, [], ◌∷◌, ◌++◌, Option,
  none, some, ◌==◌, ==_self, if◌then◌else◌, is_some, Bool-cases, Option-cases, arith,
}
use high_performance_http_se.Common.Table.{find, erase, find-assign, find-erase}
use high_performance_http_se.Net.Sys.{Sys, SendLaws}
use high_performance_http_se.Net.Connection.{Connection, new_connection, has_pending_write}
use high_performance_http_se.Net.Connection.Flush.{IsValid}
use high_performance_http_se.Net.Serving.{
  Reactor, PendingRearm, RearmAction, wait_readable, wait_writable, IoEvent, Serve, readable,
  writable, admit, modify, drop_connection, apply_rearm, rearm, handle_accept, handle_io_event,
  handle_event, post_rearm, work,
}
use high_performance_http_se.Net.Serving.Steps.{armed_by, Fresh}
use high_performance_http_se.Net.Serving.Counted.{posted, known_as}
use high_performance_http_se.Net.Serving.Handled.{
  is_wait_writable, ServeRearms, Rearms, work-Rearms,
}

abbrev pub wanted : Connection → ℕ
wanted c = if has_pending_write c then writable else readable

-- The mask of a descriptor waits for nothing, or for what its connection wants.
abbrev pub FitsMask : Connection → Option ℕ → Type 0
FitsMask c none = Unit {0}
FitsMask c (some mask) = (mask ≡ 0) ⊎ (mask ≡ wanted c)

-- So do the rearms for `k`.
abbrev pub FitsRearms : ℕ → Connection → List PendingRearm → Type 0
FitsRearms k c [] = Unit {0}
FitsRearms k c (p ∷ ps) =
    ((p.fd == k) ≡ true → has_pending_write c ≡ is_wait_writable p.action) × FitsRearms k c ps

pub FitsRearms-none :
    (k : ℕ) (c : Connection) (ps : List PendingRearm) → posted k ps ≡ 0 → FitsRearms k c ps
FitsRearms-none k c [] e = tt
FitsRearms-none k c (p ∷ ps) e =
    (λ here. absurd (ground (arith, e, here)), FitsRearms-none k c ps (omega (arith, e)))

pub FitsRearms-append :
    (k : ℕ) (c : Connection) (ps qs : List PendingRearm)
    → FitsRearms k c ps
    → FitsRearms k c qs
    → FitsRearms k c (ps ++ qs)
FitsRearms-append k c [] qs fp fq = fq
FitsRearms-append k c (p ∷ ps) qs (f, fp) fq = (f, FitsRearms-append k c ps qs fp fq)

-- The connection of `k`, its mask, the rearms that are posted, and those that are being applied.
pub record Fits (k : ℕ) (c : Connection) (mask : Option ℕ) (ps qs : List PendingRearm)
    : Type 0 where
  pub valid : IsValid c
  pub fd_is : c.fd ≡ k
  pub mask_fits : FitsMask c mask
  pub posted_fit : FitsRearms k c ps
  pub applied_fit : FitsRearms k c qs

module _ (sys : Sys) (k : ℕ) where
  -- The connection of `k`, if it has one, fits.
  abbrev pub AllFit : List PendingRearm → Reactor sys → Type 0
  AllFit qs r =
      (c : Connection)
      → find k r.connections ≡ some c
      → Fits k c (find k r.interests) r.pending_rearms qs

  modify-FitsMask :
      (c : Connection) (fd m : ℕ) (t : List (ℕ × ℕ))
      → ((fd == k) ≡ true → (m ≡ 0) ⊎ (m ≡ wanted c))
      → FitsMask c (find k t)
      → FitsMask c (find k (modify sys fd m t))
  modify-FitsMask c fd m t fits old = elim (Bool-cases (is_some (find fd t))) [
    | inr gone ↦ rw gone old
    | inl known ↦ elim (Bool-cases (fd == k)) [
      | inl here ↦ rw (known, find-assign fd k m t, here) (fits here)
      | inr other ↦ rw (known, find-assign fd k m t, other) old
    ]
  ]

  pub modify-AllFit :
      (fd m : ℕ) (qs : List PendingRearm) (r : Reactor sys)
      → ((c : Connection)
          → find k r.connections ≡ some c
          → (fd == k) ≡ true
          → (m ≡ 0) ⊎ (m ≡ wanted c))
      → AllFit qs r
      → AllFit qs (record r { interests = modify sys fd m r.interests })
  modify-AllFit fd m qs r fits all c found =
      let f = all c found in
      record {
        valid = f.valid;
        fd_is = f.fd_is;
        mask_fits = modify-FitsMask c fd m r.interests (fits c found) f.mask_fits;
        posted_fit = f.posted_fit;
        applied_fit = f.applied_fit;
      }

  pub drop-AllFit :
      (fd : ℕ) (qs : List PendingRearm) (r : Reactor sys)
      → AllFit qs r
      → AllFit qs (drop_connection sys fd r)
  drop-AllFit fd qs r all c found = elim (Bool-cases (fd == k)) [
    | inl e ↦ absurd (
        let gone : find k (erase fd r.connections) ≡ none =
          find-erase fd k r.connections ∙ rw e refl in
        cc)
    | inr e ↦
        let same : find k (erase fd r.connections) ≡ find k r.connections =
          find-erase fd k r.connections ∙ rw e refl in
        let f = all c (sym same ∙ found) in
        record {
          valid = f.valid;
          fd_is = f.fd_is;
          mask_fits = rw (find-erase fd k r.interests, e) f.mask_fits;
          posted_fit = f.posted_fit;
          applied_fit = f.applied_fit;
        }
  ]

  pub apply_rearm-AllFit :
      (p : PendingRearm) (qs : List PendingRearm) (r : Reactor sys)
      → AllFit (p ∷ qs) r
      → AllFit qs (apply_rearm sys p r)
  unfolding apply_rearm
  apply_rearm-AllFit p qs r all = elim (Bool-cases (is_some (find p.fd r.connections))) [
    | inr gone ↦ rw gone (rest all)
    | inl known ↦ rw known (at_action p.action refl)
  ]
    where
      rest : AllFit (p ∷ qs) r → AllFit qs r
      rest all c found =
          let f = all c found in
          record {
            valid = f.valid;
            fd_is = f.fd_is;
            mask_fits = f.mask_fits;
            posted_fit = f.posted_fit;
            applied_fit = f.applied_fit.1;
          }

      at_action : (a : RearmAction) → p.action ≡ a → AllFit qs (rearm sys a p.fd r)
      at_action wait_readable e =
          modify-AllFit p.fd readable qs r
            (λ c found here. inr (rw ((all c found).applied_fit.0 here, e) refl)) (rest all)
      at_action wait_writable e =
          modify-AllFit p.fd writable qs r
            (λ c found here. inr (rw ((all c found).applied_fit.0 here, e) refl)) (rest all)
      at_action RearmAction.close e = drop-AllFit p.fd qs r (rest all)
