-- ===== src/Prelude/Strings.antt =====
-- Go's `strings` functions where their result is a text: TrimSpace, ToLower, and the prefix and
-- suffix pairs HasPrefix/TrimPrefix and HasSuffix/TrimSuffix. `Text` has the tests on code points.
-- ToLower is as there: the ASCII letters and the two letters outside ASCII whose lower case is in it;
-- the other letters, whose lower case stays outside ASCII, are left as they are.
use Prim.Native.Char.{Char, char, code, nul}
use Prim.Native.Nat.{ℕ, ◌+◌, compare, Ordering}
use Prim.Native.String
use Prim.Native.String.{String, ◌++◌ as append}
use mathlib.Core.Bool.{Bool, true, false, ◌&&◌}
use mathlib.Core.Logic.{◌≢◌, inl, inr}
use mathlib.Core.Path.{◌≡◌, refl, sym, ◌∙◌}
use mathlib.Core.Option
use mathlib.Core.Option.{Option, none, some}
use native.Mathlib.Omega.{arith}
use text.Mathlib.TextEquality.{Char-path}
use text.Mathlib.TextLemmas.{append_cancel_right}
use ai_governance_orchestrat.Prelude.Tests.{
  leb, nat_eq, ◌==◌, eq_iff, eq_refl, if◌then◌else◌, Bool-cases,
}
use ai_governance_orchestrat.Prelude.Text.{is_space}

-- The character of a number below the surrogates.
small_char : (n : ℕ) (o : Ordering) → compare n 55296 ≡ o → Char
small_char n Ordering.lt e = char n (rw e tt)
small_char n Ordering.eq e = nul
small_char n Ordering.gt e = nul

lower_char : Char → Char
unfolding small_char
lower_char c =
    if leb b'A' (code c) && leb (code c) b'Z'
    then small_char (code c + 32) (compare (code c + 32) 55296) refl
    else if nat_eq (code c) 0x130
    then small_char b'i' (compare b'i' 55296) refl
    else if nat_eq (code c) 0x212a
    then small_char b'k' (compare b'k' 55296) refl
    else c

unfoldable pub lower_text : String → String
unfolding lower_char
lower_text String.[] = ""
lower_text (String.◌∷◌ c s) = String.◌∷◌ (lower_char c) (lower_text s)

abbrev is_blank_text : String → Bool
is_blank_text String.[] = true
is_blank_text (String.◌∷◌ c s) = false

-- Without the spaces at the end, then at the start.
trim_end : String → String
unfolding is_space
trim_end String.[] = ""
trim_end (String.◌∷◌ c s) =
    let rest = trim_end s in
    if is_space (code c) && is_blank_text rest then "" else String.◌∷◌ c rest

trim_start : String → String
unfolding is_space
trim_start String.[] = ""
trim_start (String.◌∷◌ c s) =
    let rest = trim_start s in if is_space (code c) then rest else String.◌∷◌ c s

unfoldable pub trim_text : String → String
unfolding trim_end trim_start
trim_text s = trim_start (trim_end s)

-- HasPrefix with TrimPrefix: the text after the prefix.
unfoldable pub strip_prefix : String → String → Option String
strip_prefix s String.[] = some s
strip_prefix String.[] (String.◌∷◌ d p) = none
strip_prefix (String.◌∷◌ c s) (String.◌∷◌ d p) =
    let rest = strip_prefix s p in if nat_eq (code c) (code d) then rest else none

-- HasSuffix with TrimSuffix: the text before the suffix.
unfoldable pub strip_suffix : String → String → Option String
strip_suffix String.[] suffix = if "" == suffix then some "" else none
strip_suffix (String.◌∷◌ c s) suffix =
    let rest = strip_suffix s suffix in
    if String.◌∷◌ c s == suffix then some "" else Option.map (String.◌∷◌ c) rest

append_nil : (t : String) → append "" t ≡ t
append_nil t = λ i. Prim.Native.String.append.nil t i

append_cons : (c : Char) (s t : String) → append (String.◌∷◌ c s) t ≡ String.◌∷◌ c (append s t)
append_cons c s t = λ i. Prim.Native.String.append.cons c s t i

-- A text with a prefix put before it is given back by taking that prefix away.
pub strip_prefix-append : (p s : String) → strip_prefix (append p s) p ≡ some s
unfolding strip_prefix
strip_prefix-append String.[] s = rw append_nil refl
strip_prefix-append (String.◌∷◌ d p) s =
    let later = strip_prefix-append p s in rw append_cons (ground (arith, later))

cons-ne-nil : (c : Char) (s : String) → String.◌∷◌ c s ≢ ""
cons-ne-nil c s e = cc

-- What is left of a text after a prefix is taken away makes up the text with it.
pub strip_prefix-some : (s p rest : String) → strip_prefix s p ≡ some rest → s ≡ append p rest
unfolding strip_prefix
strip_prefix-some s String.[] rest e = rw append_nil (ground arith)
strip_prefix-some String.[] (String.◌∷◌ d p) rest e = absurd (cc)
strip_prefix-some (String.◌∷◌ c s) (String.◌∷◌ d p) rest e =
    let later = strip_prefix-some s p rest in
    rw append_cons (elim (Bool-cases (nat_eq (code c) (code d))) [
      | inl same ↦ rw (Char-path c d (ground arith), later (ground arith)) refl
      | inr differs ↦ absurd (ground arith)
    ])

-- A text that a suffix is put after is not that suffix, unless it is empty.
not_suffix : (c : Char) (s suffix : String) → String.◌∷◌ c (append s suffix) ≢ suffix
not_suffix c s suffix e = cons-ne-nil c s (
    append_cancel_right (String.◌∷◌ c s) "" suffix
      (append_cons c s suffix ∙ (e ∙ sym (append_nil suffix))))

-- A text with a suffix put after it is given back by taking that suffix away.
pub strip_suffix-append : (s suffix : String) → strip_suffix (append s suffix) suffix ≡ some s
unfolding strip_suffix
strip_suffix-append String.[] String.[] = refl
strip_suffix-append String.[] (String.◌∷◌ d t) = rw (append_nil, eq_refl) refl
strip_suffix-append (String.◌∷◌ c s) suffix =
    let later = strip_suffix-append s suffix in
    rw append_cons (elim (Bool-cases (String.◌∷◌ c (append s suffix) == suffix)) [
      | inl same ↦ absurd (not_suffix c s suffix ((eq_iff _ _).0 same))
      | inr other ↦ rw (other, later) refl
    ])

lowered : lower_text (trim_text "  Full_Access\n") ≡ "full_access"
unfolding lower_text trim_text lower_char small_char trim_end trim_start is_space
lowered = refl

between : strip_suffix "sess_1/confirm" "/confirm" ≡ some "sess_1"
unfolding strip_suffix
between = refl

lowered_dotted : lower_text "revİewed Kelvin" ≡ "reviewed kelvin"
unfolding lower_text lower_char small_char
lowered_dotted = refl
