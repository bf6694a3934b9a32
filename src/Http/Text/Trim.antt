-- ===== src/Http/Text/Trim.antt =====
-- What trim leaves: a piece of the text, with no space at either end.
use high_performance_http_se.Common.{
  ◌≡◌, refl, ap, ◌∙◌, inl, inr, false, ◌&&◌, [], ◌∷◌, ◌++◌, Bytes, arith, is_empty, Bool-cases,
}
use high_performance_http_se.Http.Text.{is_space, skip_spaces, drop_trailing, trim}

-- The text `part` stands somewhere in `s`.
pub record IsPiece (part s : Bytes) : Type 0 where
  pub front : Bytes
  pub back : Bytes
  pub whole : s ≡ front ++ (part ++ back)

skip_spaces_front : (s : Bytes) → (front : Bytes) × (s ≡ front ++ skip_spaces s)
unfolding skip_spaces
skip_spaces_front [] = ([], refl)
skip_spaces_front (c ∷ s) = elim (Bool-cases (is_space c)) [
  | inl e ↦ rw e (let (f, w) = skip_spaces_front s in (c ∷ f, ap (◌∷◌ c) w))
  | inr e ↦ rw e ([], refl)
]

drop_trailing_back : (s : Bytes) → (back : Bytes) × (s ≡ drop_trailing s ++ back)
unfolding drop_trailing
drop_trailing_back [] = ([], refl)
drop_trailing_back (c ∷ s) = elim (Bool-cases (is_empty (drop_trailing s) && is_space c)) [
  | inl e ↦ rw e (c ∷ s, refl)
  | inr e ↦ rw e (let (b, w) = drop_trailing_back s in (b, ap (◌∷◌ c) w))
]

pub trim-IsPiece : (s : Bytes) → IsPiece (trim s) s
unfolding trim
trim-IsPiece s =
    let (f, w) = skip_spaces_front s in
    let (b, v) = drop_trailing_back (skip_spaces s) in
    record { front = f; back = b; whole = w ∙ ap (◌++◌ f) v }

pub trim-space : (s : Bytes) → trim (32 ∷ s) ≡ trim s
unfolding trim
trim-space s = refl

drop_trailing_idem : (s : Bytes) → drop_trailing (drop_trailing s) ≡ drop_trailing s
unfolding drop_trailing
drop_trailing_idem [] = refl
drop_trailing_idem (c ∷ s) = elim (Bool-cases (is_empty (drop_trailing s) && is_space c)) [
  | inl e ↦ rw e
  | inr e ↦ rw (e, drop_trailing, drop_trailing_idem s, e)
]

-- A text that is empty or does not begin with a space.
abbrev Starts : Bytes → Type 0
Starts [] = Unit {0}
Starts (c ∷ s) = is_space c ≡ false

skip_spaces-Starts : (s : Bytes) → Starts (skip_spaces s)
unfolding skip_spaces
skip_spaces-Starts [] = tt
skip_spaces-Starts (c ∷ s) = elim (Bool-cases (is_space c)) [
  | inl e ↦ rw e (skip_spaces-Starts s)
  | inr e ↦ rw e e
]

drop_trailing-Starts : (s : Bytes) → Starts s → Starts (drop_trailing s)
unfolding drop_trailing
drop_trailing-Starts [] h = tt
drop_trailing-Starts (c ∷ s) h = ground arith

skip_spaces-eq_self : (s : Bytes) → Starts s → skip_spaces s ≡ s
unfolding skip_spaces
skip_spaces-eq_self [] h = refl
skip_spaces-eq_self (c ∷ s) h = rw h

pub trim_idem : (s : Bytes) → trim (trim s) ≡ trim s
unfolding trim
trim_idem s =
    rw (skip_spaces-eq_self _ (drop_trailing-Starts _ (skip_spaces-Starts s)))
      (drop_trailing_idem (skip_spaces s))

-- No byte of the text is a space.
abbrev pub Spaceless : Bytes → Type 0
Spaceless [] = Unit {0}
Spaceless (c ∷ s) = (is_space c ≡ false) × Spaceless s

Spaceless-Starts : (s : Bytes) → Spaceless s → Starts s
Spaceless-Starts [] h = tt
Spaceless-Starts (c ∷ s) h = h.0

drop_trailing-eq_self : (s : Bytes) → Spaceless s → drop_trailing s ≡ s
unfolding drop_trailing
drop_trailing-eq_self [] h = refl
drop_trailing-eq_self (c ∷ s) h = ground (arith, drop_trailing-eq_self s h.1)

pub trim-eq_self : (s : Bytes) → Spaceless s → trim s ≡ s
unfolding trim
trim-eq_self s h = rw (skip_spaces-eq_self s (Spaceless-Starts s h)) (drop_trailing-eq_self s h)
