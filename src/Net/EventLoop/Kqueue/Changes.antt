-- ===== src/Net/EventLoop/Kqueue/Changes.antt =====
-- What the changes do to the filters of a descriptor.
use high_performance_http_se.Common.{
  ℕ, ◌%◌, ◌≡◌, refl, Bool, true, false, ◌++◌, ◌==◌, if◌then◌else◌, arith,
}
use high_performance_http_se.Net.EventLoop.{has_readable, has_writable}
use high_performance_http_se.Net.EventLoop.Kqueue.{
  Filter, read, write, changed, CanDelete, change_for, deletion_for,
}

-- What a mask asks of a filter.
abbrev pub wants : Filter → ℕ → Bool
wants read mask = has_readable mask
wants write mask = has_writable mask

pub wants-zero : (g : Filter) → wants g 0 ≡ false
wants-zero read = refl
wants-zero write = refl

-- Two changes of a descriptor, of its read filter and of its write filter.
pub both_changed :
    (fd k : ℕ) (g : Filter) (want_r had_r want_w had_w b : Bool)
    → ((fd == k) ≡ true → b ≡ (elim g [ read ↦ had_r | write ↦ had_w ]))
    → changed (change_for fd read want_r had_r ++ change_for fd write want_w had_w) k g b
      ≡ (if fd == k then (elim g [ read ↦ want_r | write ↦ want_w ]) else b)
both_changed fd k read want_r had_r want_w had_w b h = ground arith
both_changed fd k write want_r had_r want_w had_w b h = ground arith

pub both_deleted :
    (fd k : ℕ) (g : Filter) (had_r had_w b : Bool)
    → ((fd == k) ≡ true → b ≡ (elim g [ read ↦ had_r | write ↦ had_w ]))
    → changed (deletion_for fd read had_r ++ deletion_for fd write had_w) k g b
      ≡ (if fd == k then false else b)
both_deleted fd k read had_r had_w b h = ground arith
both_deleted fd k write had_r had_w b h = ground arith

pub deletions-CanDelete :
    (fd : ℕ) (had_r had_w : Bool) (registered : ℕ → Filter → Bool)
    → registered fd read ≡ had_r
    → registered fd write ≡ had_w
    → CanDelete registered (deletion_for fd read had_r ++ deletion_for fd write had_w)
deletions-CanDelete fd true true registered r w = (refl, r, (refl, ground arith, tt))
deletions-CanDelete fd true false registered r w = (refl, r, tt)
deletions-CanDelete fd false true registered r w = (refl, w, tt)
deletions-CanDelete fd false false registered r w = tt

pub wants_flags : (g : Filter) (mask : ℕ) → wants g (mask % 4) ≡ wants g mask
wants_flags read mask = ground arith
wants_flags write mask = ground arith
