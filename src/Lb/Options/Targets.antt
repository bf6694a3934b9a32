-- ===== src/Lb/Options/Targets.antt =====
-- The list of upstreams, read back from its text.
use high_performance_http_se.Common.{
  ℕ, suc, ◌+◌, ◌^◌, ◌<◌, ◌≡◌, refl, ap, inl, inr, List, [], ◌∷◌, ◌++◌, some, Bytes, drop, length,
  arith, Option-cases, take-length_append, drop-past,
}
use high_performance_http_se.Http.Text.{find_byte}
use high_performance_http_se.Http.Text.Find.{Lacks, find_byte-append}
use high_performance_http_se.Http.Number.{decimal, atoi}
use high_performance_http_se.Http.Number.Decimal.{
  AllDigits, decimal-AllDigits, atoi-decimal, to_uint16-pos, to_uint16-lt,
}
use high_performance_http_se.Lb.Options.{
  entries, Target, parse_entry, parse_entries, parse_upstreams,
}

-- `host:port`
abbrev pub target_text : Target → Bytes
target_text (host, port) = host ++ (b':' ∷ decimal port)

abbrev pub targets_text : List Target → Bytes
targets_text [] = []
targets_text (t ∷ []) = target_text t
targets_text (t ∷ u ∷ targets) = target_text t ++ (b',' ∷ targets_text (u ∷ targets))

-- A target that its text determines.
pub record IsPlain (t : Target) : Type 0 where
  pub no_comma : Lacks b',' t.0
  pub no_colon : Lacks b':' t.0
  pub port_fits : t.1 < 2 ^ 16

abbrev pub AllPlain : List Target → Type 0
AllPlain [] = Unit {0}
AllPlain (t ∷ targets) = IsPlain t × AllPlain targets

digits-Lacks : (s : Bytes) → AllDigits s → Lacks b',' s
unfolding find_byte
digits-Lacks [] h = refl
digits-Lacks (c ∷ s) h = ground (arith, digits-Lacks s h.1)

Lacks-join : (c : ℕ) (a b : Bytes) → Lacks c a → Lacks c b → Lacks c (a ++ b)
unfolding find_byte
Lacks-join c [] b h k = k
Lacks-join c (x ∷ a) b h k = ground (arith, Lacks-join c a b)

entries-last : (c : ℕ) (a : Bytes) → Lacks b',' (c ∷ a) → entries (c ∷ a) ≡ (c ∷ a) ∷ []
unfolding entries find_byte
entries-last c [] h = ground arith
entries-last c (x ∷ a) h = ground (arith, entries-last x a)

entries-comma : (a rest : Bytes) → Lacks b',' a → entries (a ++ (b',' ∷ rest)) ≡ a ∷ entries rest
unfolding entries find_byte
entries-comma [] rest h = ground arith
entries-comma (x ∷ a) rest h = ground (arith, entries-comma a rest)

parse_entry-target_text : (t : Target) → IsPlain t → parse_entry (target_text t) ≡ some t
unfolding parse_entry
parse_entry-target_text (host, port) plain =
    rw (find_byte-append b':' host (decimal port) plain.no_colon, parse_entry)
      (let next : length host + 1 ≡ suc (length host) = omega arith in
        rw (
          next,
          take-length_append host (b':' ∷ decimal port),
          drop-past host b':' (decimal port),
          atoi-decimal port (omega (arith, plain.port_fits)),
          to_uint16-pos port plain.port_fits,
        ))

target_text-Lacks : (t : Target) → IsPlain t → Lacks b',' (target_text t)
unfolding find_byte
target_text-Lacks t plain =
    Lacks-join b',' t.0 (b':' ∷ decimal t.1) plain.no_comma
      (let digits = digits-Lacks (decimal t.1) (decimal-AllDigits t.1) in ground arith)

entries-target_text : (t : Target) → IsPlain t → entries (target_text t) ≡ target_text t ∷ []
entries-target_text ([], port) plain =
    entries-last b':' (decimal port) (target_text-Lacks ([], port) plain)
entries-target_text (c ∷ host, port) plain =
    entries-last c (host ++ (b':' ∷ decimal port)) (target_text-Lacks (c ∷ host, port) plain)

-- A list of upstreams, whose hosts have no comma and no colon and whose ports are below 2^16, is read back
-- from its text.
pub parse_upstreams-targets_text :
    (targets : List Target) → AllPlain targets → parse_upstreams (targets_text targets) ≡ targets
unfolding parse_upstreams parse_entries
parse_upstreams-targets_text [] h = unfold entries in refl
parse_upstreams-targets_text (t ∷ []) h =
    rw (entries-target_text t h.0, parse_entry-target_text t h.0) refl
parse_upstreams-targets_text (t ∷ u ∷ targets) h =
    rw
      (
        entries-comma (target_text t) (targets_text (u ∷ targets)) (target_text-Lacks t h.0),
        parse_entry-target_text t h.0,
      )
      (ap (◌∷◌ t) (parse_upstreams-targets_text (u ∷ targets) h.1))

abbrev pub PortsFit : List Target → Type 0
PortsFit [] = Unit {0}
PortsFit (t ∷ targets) = (t.1 < 2 ^ 16) × PortsFit targets

parse_entries-PortsFit : (es : List Bytes) → PortsFit (parse_entries es)
unfolding parse_entries parse_entry
parse_entries-PortsFit [] = tt
parse_entries-PortsFit (entry ∷ es) = elim (Option-cases (find_byte b':' entry)) [
  | inl e ↦ rw (e, parse_entry) (parse_entries-PortsFit es)
  | inr (colon, e) ↦
      rw (e, parse_entry) (to_uint16-lt (atoi (drop (colon + 1) entry)), parse_entries-PortsFit es)
]

-- Whatever the text is, the ports of the upstreams have 16 bits.
pub parse_upstreams-PortsFit : (csv : Bytes) → PortsFit (parse_upstreams csv)
unfolding parse_upstreams
parse_upstreams-PortsFit csv = parse_entries-PortsFit (entries csv)
