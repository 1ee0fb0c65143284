-- ===== src/Prelude/Texts.antt =====
-- Cutting a text at the first of a given character.
use Prim.Native.Nat.{ℕ}
use Prim.Native.Char.{Char, code}
use Prim.Native.String
use Prim.Native.String.{String}
use Prim.Native.String.append
use mathlib.Core.Path.{◌≡◌, refl, ap, ◌∙◌}
use mathlib.Core.Bool.{Bool, true, false, ◌||◌}
use mathlib.Core.Option.{Option, none, some}
use native.Mathlib.Omega.{arith}
use wdc_backend.Prelude.Tests.{◌==◌, if◌then◌else◌}

infixr 6 ◌+++◌
abbrev pub ◌+++◌ : String → String → String
a +++ b = String.◌++◌ a b

abbrev pub has_char : ℕ → String → Bool
has_char k String.[] = false
has_char k (String.◌∷◌ c s) = code c == k || has_char k s

abbrev pub is_empty : String → Bool
is_empty String.[] = true
is_empty (String.◌∷◌ c s) = false

-- `s.split(k)`, the part before the first separator and what follows it.
abbrev pub before : ℕ → String → String
before k String.[] = String.[]
before k (String.◌∷◌ c s) =
    let rest = before k s in if code c == k then String.[] else String.◌∷◌ c rest

abbrev pub after : ℕ → String → Option String
after k String.[] = none
after k (String.◌∷◌ c s) = let rest = after k s in if code c == k then some s else rest

before-append :
    (k : ℕ) (s t : String)
    → has_char k s ≡ false
    → (before k t ≡ String.[])
    → before k (s +++ t) ≡ s
before-append k String.[] t h e = ap (before k) (append.nil t) ∙ e
before-append k (String.◌∷◌ c s) t h e =
    ap (before k) (append.cons c s t) ∙ ground (arith, before-append k s t)

after-append :
    (k : ℕ) (s t u : String)
    → has_char k s ≡ false
    → (after k t ≡ some u)
    → after k (s +++ t) ≡ some u
after-append k String.[] t u h e = ap (after k) (append.nil t) ∙ e
after-append k (String.◌∷◌ c s) t u h e =
    ap (after k) (append.cons c s t) ∙ ground (arith, after-append k s t u)

-- A text, a separator and another text: the cut gives both back.
module _ (k : ℕ) (s : String) (c : Char) (t : String) where
  pub before-joined :
      has_char k s ≡ false → (code c == k) ≡ true → before k (s +++ (String.◌∷◌ c "" +++ t)) ≡ s
  before-joined h e = before-append k s _ h (ap (before k) (append.cons c "" t) ∙ ground (arith))

  pub after-joined :
      has_char k s ≡ false → (code c == k) ≡ true → after k (s +++ (String.◌∷◌ c "" +++ t)) ≡ some t
  after-joined h e =
      after-append k s _ t h (ap (after k) (append.cons c "" t) ∙ ground (arith, append.nil t))

pub before_all : (k : ℕ) (s : String) → has_char k s ≡ false → before k s ≡ s
before_all k String.[] h = refl
before_all k (String.◌∷◌ c s) h = ground (arith, before_all k s)

pub append-filled : (s t : String) → is_empty s ≡ false → is_empty (s +++ t) ≡ false
append-filled String.[] t h = ground arith
append-filled (String.◌∷◌ c s) t h = ap is_empty (append.cons c s t)
