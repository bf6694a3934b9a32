-- ===== src/Http/Headers/Printed.antt =====
-- Header lines, printed and read back.
use high_performance_http_se.Common.{
  ℕ, suc, ◌≡◌, inl, inr, true, false, [], ◌∷◌, ◌++◌, Bytes, drop, drop-past, take,
  take-length_append, is_empty, arith, Bool-cases, Option-cases,
}
use high_performance_http_se.Http.Text.{trim, find_byte}
use high_performance_http_se.Http.Text.Lines.{HasNoCrlf}
use high_performance_http_se.Http.Text.Find.{
  Lacks, Lacks-append, find_byte-append, Cut, find_byte-Cut, HasNoCrlf-append, HasNoCrlf-join,
  HasNoCrlf-cons, HasNoCrlf-tail,
}
use high_performance_http_se.Http.Text.Trim.{IsPiece, trim-IsPiece, trim-space, trim_idem}
use high_performance_http_se.Http.Message.{Header, HeaderList}
use high_performance_http_se.Http.Headers.{parse_generic_header_line}

-- A header that a line can carry: trimmed, with a name, and with no byte that ends the name or the
-- line.
pub record IsPrintable (h : Header) : Type 0 where
  pub has_name : is_empty h.0 ≡ false
  pub no_colon : Lacks b':' h.0
  pub name_trimmed : trim h.0 ≡ h.0
  pub value_trimmed : trim h.1 ≡ h.1
  pub name_clean : HasNoCrlf h.0
  pub value_clean : HasNoCrlf h.1

-- The line without its CRLF.
abbrev pub bare_line : Header → Bytes
bare_line h = h.0 ++ (b':' ∷ b' ' ∷ h.1)

pub bare_line-HasNoCrlf : (h : Header) → IsPrintable h → HasNoCrlf (bare_line h)
bare_line-HasNoCrlf h p =
    HasNoCrlf-join h.0 b':' (b' ' ∷ h.1) (omega arith) p.name_clean
      (HasNoCrlf-cons b':' _ (omega arith) (HasNoCrlf-cons b' ' _ (omega arith) p.value_clean))

pub parse_generic_header_line-bare_line :
    (h : Header) (headers : HeaderList)
    → IsPrintable h
    → parse_generic_header_line (bare_line h) headers ≡ (headers ++ h ∷ [], true)
unfolding parse_generic_header_line
parse_generic_header_line-bare_line h headers p =
    rw (find_byte-append b':' h.0 (b' ' ∷ h.1) p.no_colon, parse_generic_header_line)
      (rw (
        take-length_append h.0 (b':' ∷ b' ' ∷ h.1),
        drop-past h.0 b':' (b' ' ∷ h.1),
        p.name_trimmed,
        trim-space h.1,
        p.value_trimmed,
        p.has_name,
      ))

-- A piece of a clean text is clean.
IsPiece-HasNoCrlf : {part s : Bytes} → IsPiece part s → HasNoCrlf s → HasNoCrlf part
IsPiece-HasNoCrlf {part} p clean =
    (HasNoCrlf-append part p.back (HasNoCrlf-append p.front _ (rw p.whole at clean)).1).0

IsPiece-Lacks : (c : ℕ) {part s : Bytes} → IsPiece part s → Lacks c s → Lacks c part
IsPiece-Lacks c {part} p lacks =
    (Lacks-append c part p.back (Lacks-append c p.front _ (rw p.whole at lacks)).1).0

-- The header on a line whose first colon is at `k`.
abbrev header_at : Bytes → ℕ → Header
header_at line k = (trim (take k line), trim (drop (suc k) line))

header_at-IsPrintable :
    (line : Bytes) (k : ℕ)
    → HasNoCrlf line
    → Cut b':' line k
    → is_empty (trim (take k line)) ≡ false
    → IsPrintable (header_at line k)
header_at-IsPrintable line k clean cut named =
    let ends = HasNoCrlf-append (take k line) (b':' ∷ drop (suc k) line) (rw cut.whole at clean) in
    record {
      has_name = named;
      no_colon = IsPiece-Lacks b':' (trim-IsPiece (take k line)) cut.before;
      name_trimmed = trim_idem (take k line);
      value_trimmed = trim_idem (drop (suc k) line);
      name_clean = IsPiece-HasNoCrlf (trim-IsPiece (take k line)) ends.0;
      value_clean =
          IsPiece-HasNoCrlf (trim-IsPiece (drop (suc k) line)) (HasNoCrlf-tail b':' _ ends.1);
    }

-- A line with no CRLF that is taken adds one header at the end of the list, and that header is
-- printable: trimmed, with a name, and with no colon in the name and no CRLF.
pub parse_generic_header_line-IsPrintable :
    (line : Bytes) (headers : HeaderList)
    → HasNoCrlf line
    → (parse_generic_header_line line headers).1 ≡ true
    → (h : Header) × (parse_generic_header_line line headers ≡ (headers ++ h ∷ [], true))
      × IsPrintable h
unfolding parse_generic_header_line
parse_generic_header_line-IsPrintable line headers clean taken =
    elim (Option-cases (find_byte b':' line)) [
      | inl e ↦ ground arith
      | inr (k, e) ↦ elim (Bool-cases (is_empty (trim (take k line)))) [
        | inl empty ↦ ground arith
        | inr named ↦ (
          header_at line k,
          rw (e, parse_generic_header_line, named),
          header_at-IsPrintable line k clean (find_byte-Cut b':' line k e) named,
        )
      ]
    ]
