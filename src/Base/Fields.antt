-- ===== src/Base/Fields.antt =====
-- `split` on a text that is put together from fields.
use Prim.Native.Nat.{ℕ}
use mathlib.Core.Path.{◌≡◌, refl}
use mathlib.Core.Bool.{false}
use mathlib.Core.List.{[], ◌∷◌, ◌++◌, reverse, reverse_aux, reverse-reverse}
use native.Mathlib.Omega.{arith}
use toolkit_contracts.Base.Tests.{◌==◌}
use toolkit_contracts.Base.Parse.{Text, split, split_from, trim, trim_left}

-- No byte of a field is the delimiter or a space.
abbrev pub IsPlain : ℕ → Text → Type 0
IsPlain d [] = Unit {0}
IsPlain d (c ∷ s) = (c == d ≡ false) × (c == b' ' ≡ false) × IsPlain d s

IsPlain-reverse_aux : (d : ℕ) (s t : Text) → IsPlain d s → IsPlain d t → IsPlain d (reverse_aux s t)
IsPlain-reverse_aux d [] t h k = k
IsPlain-reverse_aux d (c ∷ s) t h k = IsPlain-reverse_aux d s (c ∷ t) h.2 (h.0, h.1, k)

trim_left-IsPlain : (d : ℕ) (s : Text) → IsPlain d s → trim_left s ≡ s
unfolding trim_left
trim_left-IsPlain d [] h = refl
trim_left-IsPlain d (c ∷ s) h = ground (arith, h.1)

trim-IsPlain : (d : ℕ) (s : Text) → IsPlain d s → trim s ≡ s
unfolding trim
trim-IsPlain d s h =
    let back = IsPlain-reverse_aux d s [] h tt in
    rw (trim_left-IsPlain d s h, trim_left-IsPlain d (reverse s) back) (reverse-reverse s)

split_from-field :
    (d : ℕ) (acc s t : Text)
    → IsPlain d s
    → split_from acc d (s ++ d ∷ t) ≡ trim (reverse (reverse_aux s acc)) ∷ split_from [] d t
unfolding split_from
split_from-field d acc [] t h = ground arith
split_from-field d acc (c ∷ s) t h = ground (arith, h.0, split_from-field d (c ∷ acc) s t h.2)

split_from-last :
    (d : ℕ) (acc s : Text)
    → IsPlain d s
    → split_from acc d s ≡ trim (reverse (reverse_aux s acc)) ∷ []
unfolding split_from
split_from-last d acc [] h = refl
split_from-last d acc (c ∷ s) h = ground (arith, h.0, split_from-last d (c ∷ acc) s h.2)

-- The first field is read back, and the fields that follow it are those of the rest.
pub split-field : (d : ℕ) (s t : Text) → IsPlain d s → split (s ++ d ∷ t) d ≡ s ∷ split t d
unfolding split
split-field d s t h = rw (split_from-field d [] s t h, reverse-reverse s, trim-IsPlain d s h) refl

pub split-last : (d : ℕ) (s : Text) → IsPlain d s → split s d ≡ s ∷ []
unfolding split
split-last d s h = rw (split_from-last d [] s h, reverse-reverse s, trim-IsPlain d s h) refl
