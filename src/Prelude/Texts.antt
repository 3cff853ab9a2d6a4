-- ===== src/Prelude/Texts.antt =====
-- Python's `str` as the list of its code points, with the operations that the source calls.
-- `strip` and `upper` are those of ASCII text.
use Prim.Native.Char.{code}
use Prim.Native.Nat.{ℕ, ◌+◌, ◌-◌}
use Prim.Native.String.{String}
use mathlib.Core.Path.{◌≡◌, refl}
use mathlib.Core.Logic.{◌↔◌, inl, inr}
use mathlib.Core.Bool.{Bool, true, false, ◌&&◌, ◌||◌}
use mathlib.Core.List.{
  List, [], ◌∷◌, ◌++◌, map, reverse, reverse-cons, reverse-reverse, reverse-append,
}
use native.Mathlib.Omega.{arith}
use ai_trading_platform_mobi.Prelude.Tests.{leb, ltb, ◌==◌, if◌then◌else◌, Bool-cases}

abbrev pub Text : Type 0
Text = List ℕ

abbrev pub codes : String → Text
codes String.[] = []
codes (String.◌∷◌ c s) = code c ∷ codes s

abbrev pub text_eq : Text → Text → Bool
text_eq [] [] = true
text_eq [] (_ ∷ _) = false
text_eq (_ ∷ _) [] = false
text_eq (a ∷ s) (b ∷ t) = a == b && text_eq s t

pub text_eq_iff : (s t : Text) → (text_eq s t ≡ true) ↔ (s ≡ t)
text_eq_iff [] [] = ground arith
text_eq_iff [] (_ ∷ _) = ground arith
text_eq_iff (_ ∷ _) [] = ground arith
text_eq_iff (a ∷ s) (b ∷ t) = ground (arith, text_eq_iff s t)

pub text_eq_refl : (s : Text) → text_eq s s ≡ true
text_eq_refl s = (text_eq_iff s s).1 refl

pub text_eq_sym : (s t : Text) → text_eq s t ≡ text_eq t s
text_eq_sym [] [] = refl
text_eq_sym [] (_ ∷ _) = refl
text_eq_sym (_ ∷ _) [] = refl
text_eq_sym (a ∷ s) (b ∷ t) = ground (arith, text_eq_sym s t)

-- The space, and the control characters \t to \r and \x1c to \x1f.
is_space : ℕ → Bool
is_space c = c == 32 || (leb 9 c && leb c 13) || (leb 28 c && leb c 31)

lstrip : Text → Text
unfolding is_space
lstrip [] = []
lstrip (c ∷ s) = if is_space c then lstrip s else c ∷ s

unfoldable pub strip : Text → Text
unfolding lstrip
strip s = reverse (lstrip (reverse (lstrip s)))

-- The first code point, if there is one, is not a space.
HasNoSpace : Text → Type 0
unfolding is_space
HasNoSpace [] = Unit
HasNoSpace (c ∷ s) = is_space c ≡ false

lstrip-HasNoSpace : (s : Text) → HasNoSpace (lstrip s)
unfolding lstrip HasNoSpace
lstrip-HasNoSpace [] = tt
lstrip-HasNoSpace (c ∷ s) = elim (Bool-cases (is_space c)) [
  | inl e ↦ rw e (lstrip-HasNoSpace s)
  | inr e ↦ rw e e
]

lstrip_id : (s : Text) → HasNoSpace s → lstrip s ≡ s
unfolding lstrip HasNoSpace
lstrip_id [] h = refl
lstrip_id (c ∷ s) h = rw h refl

lstrip_concat :
    (s : Text) (c : ℕ) → is_space c ≡ false → lstrip (s ++ (c ∷ [])) ≡ lstrip s ++ (c ∷ [])
unfolding lstrip
lstrip_concat [] c h = rw h refl
lstrip_concat (x ∷ s) c h = elim (Bool-cases (is_space x)) [
  | inl e ↦ rw e (lstrip_concat s c h)
  | inr e ↦ rw e refl
]

-- Stripping the end of a text keeps its first code point where it is not a space.
rstrip-HasNoSpace : (s : Text) → HasNoSpace s → HasNoSpace (reverse (lstrip (reverse s)))
unfolding HasNoSpace lstrip
rstrip-HasNoSpace [] h = tt
rstrip-HasNoSpace (c ∷ s) h =
    rw
      (
        reverse-cons c s,
        lstrip_concat (reverse s) c h,
        reverse-append (lstrip (reverse s)) (c ∷ []),
      )
      h

pub strip-strip : (s : Text) → strip (strip s) ≡ strip s
unfolding strip
strip-strip s =
    rw
      (
        lstrip_id (reverse (lstrip (reverse (lstrip s))))
            (rstrip-HasNoSpace (lstrip s) (lstrip-HasNoSpace s)),
        reverse-reverse (lstrip (reverse (lstrip s))),
        lstrip_id (lstrip (reverse (lstrip s))) (lstrip-HasNoSpace (reverse (lstrip s))),
      )
      refl

upper_char : ℕ → ℕ
upper_char c = if leb 97 c && leb c 122 then c - 32 else c

unfoldable pub upper : Text → Text
unfolding upper_char
upper s = map upper_char s

lower_char : ℕ → ℕ
lower_char c = if leb 65 c && leb c 90 then c + 32 else c

unfoldable pub lower : Text → Text
unfolding lower_char
lower s = map lower_char s

upper-strip : upper (strip (codes " buy ")) ≡ codes "BUY"
unfolding upper strip
upper-strip = refl

-- `<=` of two texts
abbrev pub text_leb : Text → Text → Bool
text_leb [] t = true
text_leb (_ ∷ _) [] = false
text_leb (a ∷ s) (b ∷ t) = ltb a b || (a == b && text_leb s t)

pub text_leb_refl : (t : Text) → text_leb t t ≡ true
text_leb_refl [] = refl
text_leb_refl (a ∷ t) = ground (arith, text_leb_refl t)
