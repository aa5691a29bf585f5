-- ===== src/Text.antt =====
-- Python's `str` as a list of code points and `bytes` as a list of bytes, with the methods of the
-- standard library that the program calls.
pub mod Split
pub mod Words
pub mod Contains
use Prim.Native.Char.{code}
use Prim.Native.String.{String}
use henry.Prelude.Int.{ℤ, pos, negsuc}
use henry.Prelude.{
  ℕ, zero, suc, ◌+◌, ◌/◌, ◌%◌, ltb, ◌≡◌, refl, ap, ◌↔◌, Bool, true, false, ◌&&◌, ◌||◌, List, [],
  ◌∷◌, ◌++◌, arith, ◌==◌, if◌then◌else◌, ==_iff, ==_refl,
}

abbrev pub Text : Type 0
Text = List ℕ

-- The code points of a literal.
unfoldable pub codes : String → Text
codes String.[] = []
codes (String.◌∷◌ c s) = code c ∷ codes s

infix 50 ◌===◌
-- `a == b`
unfoldable pub ◌===◌ : Text → Text → Bool
[] === [] = true
(a ∷ s) === (b ∷ t) = a == b && s === t
_ === _ = false

-- `t.startswith(p)`
unfoldable pub starts_with : Text → Text → Bool
starts_with [] t = true
starts_with (c ∷ p) [] = false
starts_with (c ∷ p) (d ∷ t) = c == d && starts_with p t

-- `chr(c) in t`
unfoldable pub has_char : ℕ → Text → Bool
has_char c [] = false
has_char c (d ∷ t) = c == d || has_char c t

-- `t.split(sep)`, for a separator of one character
cons_head : ℕ → List Text → List Text
cons_head c [] = (c ∷ []) ∷ []
cons_head c (w ∷ ws) = (c ∷ w) ∷ ws

unfoldable pub split : ℕ → Text → List Text
unfolding cons_head
split sep [] = [] ∷ []
split sep (c ∷ t) = let rest = split sep t in if c == sep then [] ∷ rest else cons_head c rest

-- `sep.join(ws)`
unfoldable pub join : Text → List Text → Text
join sep [] = []
join sep (w ∷ []) = w
join sep (w ∷ v ∷ ws) = w ++ (sep ++ join sep (v ∷ ws))

-- `str(n)`
digits : ℕ → ℕ → Text → Text
digits zero n acc = acc
digits (suc fuel) n acc =
    let rest = digits fuel (n / 10) ((48 + n % 10) ∷ acc) in
    if ltb n 10 then (48 + n) ∷ acc else rest

unfoldable pub decimal : ℕ → Text
unfolding digits
decimal n = digits (suc n) n []

unfoldable pub decimal_int : ℤ → Text
unfolding decimal
decimal_int (pos n) = decimal n
decimal_int (negsuc n) = b'-' ∷ decimal (suc n)

-- To run text code in a test, unfold this.
unfoldable pub text_ops : Unit {0}
unfolding codes ◌===◌ starts_with has_char split join decimal_int
text_ops = tt

pub ===-refl : (s : Text) → (s === s) ≡ true
unfolding ◌===◌
===-refl [] = refl
===-refl (a ∷ s) = ground (arith, ===-refl s)

pub ===→eq : (s t : Text) → (s === t) ≡ true → s ≡ t
unfolding ◌===◌
===→eq [] [] h = refl
===→eq [] (b ∷ t) h = cc
===→eq (a ∷ s) [] h = cc
===→eq (a ∷ s) (b ∷ t) h = ground (arith, ===→eq s t)

pub ===_iff : (s t : Text) → ((s === t) ≡ true) ↔ (s ≡ t)
===_iff s t = (===→eq s t, λ e. mathlib.Core.Path.subst (λ u. (s === u) ≡ true) e (===-refl s))

pub starts_with-append : (p t : Text) → starts_with p (p ++ t) ≡ true
unfolding starts_with
starts_with-append [] t = refl
starts_with-append (c ∷ p) t = ground (arith, starts_with-append p t)

pub starts_with-true : (p t : Text) → starts_with p t ≡ true → (q : Text) × (t ≡ p ++ q)
unfolding starts_with
starts_with-true [] t h = (t, refl)
starts_with-true (c ∷ p) [] h = cc
starts_with-true (c ∷ p) (d ∷ t) h =
    let (q, e) = starts_with-true p t (ground arith) in (q, ground arith)

pub has_char-append : (c : ℕ) (s t : Text) → has_char c (s ++ t) ≡ has_char c s || has_char c t
unfolding has_char
has_char-append c [] t = refl
has_char-append c (d ∷ s) t = ground (arith, has_char-append c s t)
