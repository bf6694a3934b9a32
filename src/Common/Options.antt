-- ===== src/Common/Options.antt =====
-- The loop over `argv` that both main functions write out: an option takes the argument behind it, and
-- an argument that is no option, or has none behind it, is skipped.
use mathlib.Core.Path.{◌≡◌, ap, ◌∙◌}
use mathlib.Core.Logic.{inl, inr}
use mathlib.Core.List.{List, [], ◌∷◌, ◌++◌}
use mathlib.Core.Option.{Option, none, some}
use high_performance_http_se.Common.Lists.{Bytes}
use high_performance_http_se.Common.Tests.{Option-cases}

module _ {O : Type 0} (set_option : Bytes → Bytes → O → Option O) where
  -- `set_option` answers none for a name that is no option.
  unfoldable pub read_options : List Bytes → O → O
  read_options [] o = o
  read_options (name ∷ []) o = o
  read_options (name ∷ value ∷ args) o = elim (set_option name value o) [
    | some o' ↦ read_options args o'
    | none ↦ read_options (value ∷ args) o
  ]

  -- What holds before the loop, and is kept by each option, holds behind it.
  pub read_options-keeps :
      (P : O → Type 0)
      → ((name value : Bytes) (o o' : O) → P o → set_option name value o ≡ some o' → P o')
      → (args : List Bytes) (o : O) → P o
      → P (read_options args o)
  unfolding read_options
  read_options-keeps P keep [] o h = h
  read_options-keeps P keep (name ∷ []) o h = h
  read_options-keeps P keep (name ∷ value ∷ args) o h =
      elim (Option-cases (set_option name value o)) [
        | inl e ↦ rw (read_options, e) (read_options-keeps P keep (value ∷ args) o h)
        | inr (o', e) ↦
            rw (read_options, e) (read_options-keeps P keep args o' (keep name value o o' h e))
      ]

  -- Arguments that are pairs of an option and its value.
  abbrev pub arguments : List (Bytes × Bytes) → List Bytes
  arguments [] = []
  arguments ((name, value) ∷ pairs) = name ∷ value ∷ arguments pairs

  -- The pairs are options, and set `o` to `o'` one after the other.
  abbrev pub Sets : List (Bytes × Bytes) → O → O → Type 0
  Sets [] o o' = o ≡ o'
  Sets ((name, value) ∷ pairs) o o' =
      (o1 : O) × (set_option name value o ≡ some o1) × Sets pairs o1 o'

  pub read_options-arguments :
      (pairs : List (Bytes × Bytes)) (rest : List Bytes) (o o' : O)
      → Sets pairs o o'
      → read_options (arguments pairs ++ rest) o ≡ read_options rest o'
  unfolding read_options
  read_options-arguments [] rest o o' e = ap (read_options rest) e
  read_options-arguments ((name, value) ∷ pairs) rest o o' (o1, e, later) =
      rw (read_options, e) (read_options-arguments pairs rest o1 o' later)

  -- An option and its value behind others.
  pub read_options-last :
      (pairs : List (Bytes × Bytes)) (name value : Bytes) (o o' o'' : O)
      → Sets pairs o o'
      → set_option name value o' ≡ some o''
      → read_options (arguments pairs ++ (name ∷ value ∷ [])) o ≡ o''
  unfolding read_options
  read_options-last pairs name value o o' o'' sets e =
      read_options-arguments pairs (name ∷ value ∷ []) o o' sets ∙ rw (read_options, e)
