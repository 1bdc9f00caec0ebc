-- ===== src/Prelude/TextLengths.antt =====
-- The lengths of texts that are cut, stripped and put together.
use Prim.Native.Nat.{zero, suc, ℕ, ◌+◌, ◌-◌, ◌≤◌}
use Prim.Native.Char.{code}
use Prim.Native.String.{String, ◌++◌ as append_text}
use mathlib.Core.Path.{◌≡◌}
use mathlib.Core.Logic.{inl, inr}
use mathlib.Core.Bool.{◌&&◌}
use native.Mathlib.Omega.{arith}
use text.Mathlib.Text.{◌==◌}
use text.Mathlib.TextLemmas.{nil-append, cons-append}
use ok.Prelude.Tests.{Bool-cases}
use ok.Prelude.Text.{text_length, take_text, drop_text, lstrip, rstrip, strip, is_space}

pub text_length-append :
    (s t : String) → text_length (append_text s t) ≡ text_length s + text_length t
text_length-append String.[] t = rw (nil-append t) (omega arith)
text_length-append (String.◌∷◌ c s) t =
    rw (cons-append c s t) (omega (arith, text_length-append s t))

pub text_length-take_text : (n : ℕ) (s : String) → text_length (take_text n s) ≤ n
unfolding take_text
text_length-take_text zero s = omega arith
text_length-take_text (suc n) String.[] = omega arith
text_length-take_text (suc n) (String.◌∷◌ c s) = omega (arith, text_length-take_text n s)

pub text_length-lstrip : (s : String) → text_length (lstrip s) ≤ text_length s
unfolding lstrip
text_length-lstrip String.[] = omega arith
text_length-lstrip (String.◌∷◌ c s) = elim (Bool-cases (is_space (code c))) [
  | inl e ↦ rw e (omega (arith, text_length-lstrip s))
  | inr e ↦ rw e (omega arith)
]

pub text_length-rstrip : (s : String) → text_length (rstrip s) ≤ text_length s
unfolding rstrip
text_length-rstrip String.[] = omega arith
text_length-rstrip (String.◌∷◌ c s) = elim (Bool-cases (is_space (code c) && (rstrip s == ""))) [
  | inl e ↦ rw e (omega arith)
  | inr e ↦ rw e (omega (arith, text_length-rstrip s))
]

pub text_length-strip : (s : String) → text_length (strip s) ≤ text_length s
unfolding strip
text_length-strip s = omega (arith, text_length-rstrip (lstrip s), text_length-lstrip s)

pub text_length-drop_text : (n : ℕ) (s : String) → text_length (drop_text n s) ≡ text_length s - n
unfolding drop_text
text_length-drop_text zero s = omega arith
text_length-drop_text (suc n) String.[] = omega arith
text_length-drop_text (suc n) (String.◌∷◌ c s) = omega (arith, text_length-drop_text n s)
