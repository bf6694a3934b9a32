-- ===== src/Net/EventLoop/Wait/Once.antt =====
-- What KqueueReactor::wait reports of each descriptor.
use high_performance_http_se.Common.{
  ℕ, ◌+◌, ◌*◌, ◌<◌, ◌≡◌, refl, ap, ◌∙◌, inl, inr, Bool, true, false, List, [], ◌∷◌, Option, none,
  some, ◌==◌, ==_iff, length, if◌then◌else◌, Bool-cases, arith, subst,
}
use high_performance_http_se.Common.Table.{find, assign, find-assign}
use high_performance_http_se.Http.Number.{ℤ, pos}
use high_performance_http_se.Net.EventLoop.{IoEvent}
use high_performance_http_se.Net.EventLoop.Kqueue.{
  Filter, read, write, KernelEvent, event_at, absorb, merge,
}
use high_performance_http_se.Net.EventLoop.Kqueue.Merging.{report, merge-report}
use high_performance_http_se.Net.EventLoop.Wait.{
  Timespec, timespec_of, merged_events, kqueue_waited, kqueue_wait,
}

-- The events of a descriptor, in the order of the list.
abbrev pub events_of : ℕ → List IoEvent → List IoEvent
events_of fd [] = []
events_of fd (ev ∷ events) =
    let rest = events_of fd events in if ev.fd == fd then ev ∷ rest else rest

abbrev pub to_list : Option IoEvent → List IoEvent
to_list none = []
to_list (some ev) = ev ∷ []

-- Each key stands once, with an event for itself.
abbrev IsKeyed : List (ℕ × IoEvent) → Type 0
IsKeyed [] = Unit {0}
IsKeyed ((k, ev) ∷ t) = (ev.fd ≡ k) × (find k t ≡ none) × IsKeyed t

assign-IsKeyed :
    (i : ℕ) (ev : IoEvent) (t : List (ℕ × IoEvent))
    → ev.fd ≡ i
    → IsKeyed t
    → IsKeyed (assign i ev t)
unfolding find assign
assign-IsKeyed i ev [] e keyed = (e, refl, tt)
assign-IsKeyed i ev ((k, old) ∷ t) e (own, fresh, keyed) = elim (Bool-cases (k == i)) [
  | inl here ↦ rw here (e, subst (λ k. find k t ≡ none) ((==_iff k i).0 here) fresh, keyed)
  | inr other ↦
      rw other
        (own, find-assign i k ev t ∙ ground (arith, other, fresh), assign-IsKeyed i ev t e keyed)
]

absorb_fd : (e : KernelEvent) (i : ℕ) (o : Option IoEvent) → (absorb e (event_at i o)).fd ≡ i
absorb_fd e i o = kept e.filter e.flagged o
  where
    kept :
        (f : Filter) (b : Bool) (o : Option IoEvent)
        → (absorb (record { ident = e.ident; filter = f; flagged = b }) (event_at i o)).fd ≡ i
    kept read true none = refl
    kept read true (some ev) = refl
    kept read false none = refl
    kept read false (some ev) = refl
    kept write true none = refl
    kept write true (some ev) = refl
    kept write false none = refl
    kept write false (some ev) = refl

merge-IsKeyed :
    (events : List KernelEvent) (t : List (ℕ × IoEvent)) → IsKeyed t → IsKeyed (merge t events)
unfolding merge
merge-IsKeyed [] t keyed = keyed
merge-IsKeyed (e ∷ events) t keyed = merge-IsKeyed events _ (
    assign-IsKeyed e.ident (absorb e (event_at e.ident (find e.ident t))) t
      (absorb_fd e e.ident (find e.ident t)) keyed)

IsKeyed-events_of :
    (fd : ℕ) (t : List (ℕ × IoEvent))
    → IsKeyed t
    → events_of fd (merged_events t) ≡ to_list (find fd t)
unfolding find
IsKeyed-events_of fd [] keyed = refl
IsKeyed-events_of fd ((k, ev) ∷ t) (own, fresh, keyed) =
    let rest = IsKeyed-events_of fd t keyed in
    elim (Bool-cases (k == fd)) [
      | inl here ↦
          let own_here : (ev.fd == fd) ≡ true = ap (λ n. n == fd) own ∙ here in
          let none_left : find fd t ≡ none =
            subst (λ j. find j t ≡ none) ((==_iff k fd).0 here) fresh in
          rw (own_here, here) (ap (λ events. ev ∷ events) (rest ∙ ap to_list none_left))
      | inr other ↦ rw (ap (λ n. n == fd) own ∙ other, other) rest
    ]

-- What kevent has reported, if it has not failed.
abbrev pub reported : Option (List KernelEvent) → List KernelEvent
reported none = []
reported (some events) = events

kqueue_waited-report :
    (answer : Option (List KernelEvent)) (fd : ℕ)
    → (events_of fd (kqueue_waited answer).out ≡ to_list (report fd (reported answer)))
      × ((kqueue_waited answer).answer ≡ length (kqueue_waited answer).out)
unfolding kqueue_waited
kqueue_waited-report none fd = (refl, refl)
kqueue_waited-report (some []) fd = (refl, refl)
kqueue_waited-report (some (e ∷ events)) fd = (
  IsKeyed-events_of fd (merge [] (e ∷ events)) (merge-IsKeyed (e ∷ events) [] tt)
      ∙ ap to_list (merge-report fd (e ∷ events)),
  refl,
)

-- Whatever kevent answers, and with however many events for a descriptor: `wait` leaves one event for each
-- descriptor that has any, with all that is reported of it, and none for the others, and returns how many
-- there are.
pub kqueue_wait-report :
    {World : Type 0} (kevent : World → Option Timespec → Option (List KernelEvent) × World)
    (timeout_ms : ℤ) (w : World) (fd : ℕ)
    → let (waited, w') = kqueue_wait kevent timeout_ms w in
      let events = reported (kevent w (timespec_of timeout_ms)).0 in
      (events_of fd waited.out ≡ to_list (report fd events)) × (waited.answer ≡ length waited.out)
unfolding kqueue_wait
kqueue_wait-report kevent timeout_ms w fd =
    kqueue_waited-report (kevent w (timespec_of timeout_ms)).0 fd

-- The timeout is the one that is asked for, in a form that kevent takes.
timespec_of_exact :
    (ms : ℕ)
    → (t : Timespec) × (timespec_of (pos ms) ≡ some t)
      × (t.tv_nsec < 1000000000)
      × (t.tv_sec * 1000000000 + t.tv_nsec ≡ ms * 1000000)
unfolding timespec_of
timespec_of_exact ms = (_, refl, omega arith, omega arith)
