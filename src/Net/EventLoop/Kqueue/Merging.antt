-- ===== src/Net/EventLoop/Kqueue/Merging.antt =====
-- What KqueueReactor::wait makes of the kernel's events.
use high_performance_http_se.Common.{
  ℕ, ◌+◌, ◌≡◌, refl, Bool, true, false, List, [], ◌∷◌, Option, none, some, ◌==◌, ◌&&◌, ◌||◌,
  if◌then◌else◌, arith, Bool-cases, inl, inr, ◌∙◌, ap, sym, subst, ==_self, ==_iff,
}
use high_performance_http_se.Common.Table.{find, assign, find-assign}
use high_performance_http_se.Net.EventLoop.{IoEvent}
use high_performance_http_se.Net.EventLoop.Kqueue.{
  Filter, read, write, same_filter, KernelEvent, event_at, with_filter, absorb, merge,
}

-- Whether an event for `fd` is in the list, and one that meets a test.
abbrev pub any_event : (KernelEvent → Bool) → ℕ → List KernelEvent → Bool
any_event test fd [] = false
any_event test fd (e ∷ events) = (e.ident == fd && test e) || any_event test fd events

abbrev pub reads : KernelEvent → Bool
reads e = same_filter e.filter read

abbrev pub writes : KernelEvent → Bool
writes e = same_filter e.filter write

abbrev pub flags : KernelEvent → Bool
flags e = e.flagged

abbrev pub any : KernelEvent → Bool
any e = true

abbrev pub mask_bits : Bool → Bool → ℕ
mask_bits r w = (if r then 1 else 0) + (if w then 2 else 0)

abbrev event_of : ℕ → Bool → Bool → Bool → IoEvent
event_of fd r w e = record { fd = fd; mask = mask_bits r w; error = e }

-- The table of events, read at `fd`.
record Known (fd : ℕ) (t : List (ℕ × IoEvent)) (known r w e : Bool) : Type 0 where
  found : find fd t ≡ (if known then some (event_of fd r w e) else none)
  blank : known ≡ false → event_of fd r w e ≡ event_of fd false false false

event_at-find :
    (fd : ℕ) (t : List (ℕ × IoEvent)) (known r w e : Bool)
    → Known fd t known r w e
    → event_at fd (find fd t) ≡ event_of fd r w e
event_at-find fd t true r w e h = rw h.found refl
event_at-find fd t false r w e h = rw h.found (sym (h.blank refl))

with_filter_bits :
    (f : Filter) (fd : ℕ) (r w e : Bool)
    → with_filter f (event_of fd r w e) ≡ record {
      fd = fd;
      mask = mask_bits (same_filter f read || r) (same_filter f write || w);
      error = e;
    }
with_filter_bits read fd true true e = refl
with_filter_bits read fd true false e = refl
with_filter_bits read fd false true e = refl
with_filter_bits read fd false false e = refl
with_filter_bits write fd true true e = refl
with_filter_bits write fd true false e = refl
with_filter_bits write fd false true e = refl
with_filter_bits write fd false false e = refl

absorb_bits :
    (k : KernelEvent) (fd : ℕ) (r w e : Bool)
    → absorb k (event_of fd r w e)
      ≡ record { fd = fd; mask = mask_bits (reads k || r) (writes k || w); error = flags k || e }
absorb_bits k fd r w e =
    rw (with_filter_bits k.filter fd r w e)
      (elim (Bool-cases k.flagged) [ inl up ↦ rw up refl | inr down ↦ rw down refl ])

-- One event of the kernel, in the table.
abbrev noted : ℕ → KernelEvent → List (ℕ × IoEvent) → List (ℕ × IoEvent)
noted i k t = assign i (absorb k (event_at i (find i t))) t

noted-Known_here :
    (k : KernelEvent) (fd : ℕ) (t : List (ℕ × IoEvent)) (known r w e : Bool)
    → Known fd t known r w e
    → Known fd (noted fd k t) true (reads k || r) (writes k || w) (flags k || e)
noted-Known_here k fd t known r w e h = record {
  found =
      find-assign fd fd (absorb k (event_at fd (find fd t))) t
      ∙ rw (==_self fd, event_at-find fd t known r w e h) (ap some (absorb_bits k fd r w e));
  blank = λ no_event. cc;
}

noted-Known :
    (i : ℕ) (k : KernelEvent) (fd : ℕ) (t : List (ℕ × IoEvent)) (known r w e : Bool)
    → Known fd t known r w e
    → Known fd
        (noted i k t)
        ((i == fd && any k) || known)
        ((i == fd && reads k) || r)
        ((i == fd && writes k) || w)
        ((i == fd && flags k) || e)
noted-Known i k fd t known r w e h = elim (Bool-cases (i == fd)) [
  | inl here ↦ rw here (
      subst (λ i. Known fd (noted i k t) true (reads k || r) (writes k || w) (flags k || e))
        (sym ((==_iff i fd).0 here)) (noted-Known_here k fd t known r w e h))
  | inr other ↦ rw other (record {
    found = find-assign i fd (absorb k (event_at i (find i t))) t ∙ rw other h.found;
    blank = h.blank;
  })
]

or_shuffle : (a b c : Bool) → (a || b || c) ≡ (b || (a || c))
or_shuffle a b c = ground arith

merge-Known :
    (events : List KernelEvent) (t : List (ℕ × IoEvent)) (fd : ℕ) (known r w e : Bool)
    → Known fd t known r w e
    → Known fd
        (merge t events)
        (any_event any fd events || known)
        (any_event reads fd events || r)
        (any_event writes fd events || w)
        (any_event flags fd events || e)
unfolding merge
merge-Known [] t fd known r w e h = h
merge-Known (k ∷ events) t fd known r w e h =
    rw
      (
        or_shuffle (k.ident == fd && any k) (any_event any fd events) known,
        or_shuffle (k.ident == fd && reads k) (any_event reads fd events) r,
        or_shuffle (k.ident == fd && writes k) (any_event writes fd events) w,
        or_shuffle (k.ident == fd && flags k) (any_event flags fd events) e,
      )
      (merge-Known events (noted k.ident k t) fd _ _ _ _ (noted-Known k.ident k fd t known r w e h))

-- What `wait` reports of a descriptor that has events: readable if there is a read event, writable if
-- there is a write event, and an error if there is a flag on one.
abbrev pub report : ℕ → List KernelEvent → Option IoEvent
report fd events =
    if any_event any fd events
    then some (record {
      fd = fd;
      mask = mask_bits (any_event reads fd events) (any_event writes fd events);
      error = any_event flags fd events;
    })
    else none

pub merge-report :
    (fd : ℕ) (events : List KernelEvent) → find fd (merge [] events) ≡ report fd events
unfolding find
merge-report fd events =
    let k =
      merge-Known events [] fd false false false false
        (record { found = refl; blank = λ _. refl }) in
    ground (arith, k.found)
