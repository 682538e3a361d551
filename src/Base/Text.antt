-- ===== src/Base/Text.antt =====
-- Python's operations on `str` that the program uses, over code points.
use Prim.Native.Nat.{ℕ, zero, suc, ◌+◌}
use Prim.Native.Char.{Char, code}
use Prim.Native.String.{String, [], ◌∷◌}
use mathlib.Core.Bool.{Bool, true, false, ◌&&◌, ◌||◌, not}
use mathlib.Core.Option.{Option, none, some}
use text.Mathlib.Text.{◌==◌ as str_eq}
use text.Mathlib.TextEquality.{eq_iff}
use text.Mathlib.TextPositions.{eq_refl}
use mathlib.Core.Path.{◌≡◌, refl, ap, ◌∙◌}
use mathlib.Core.Logic.{◌≢◌, inl, inr}
use native.Mathlib.Omega.{arith}
use spoo.Base.Tests.{Bool-cases, leb, ◌==◌, if◌then◌else◌}

-- `len(s)`
abbrev pub len : String → ℕ
len [] = 0
len (c ∷ s) = suc (len s)

-- `s[:n]`
abbrev pub take : ℕ → String → String
take zero s = []
take (suc n) [] = []
take (suc n) (c ∷ s) = c ∷ take n s

-- `str.isspace` of one character
abbrev pub is_space : Char → Bool
is_space ch =
    let c = code ch in
    (leb 0x09 c && leb c 0x0d)
    || (leb 0x1c c && leb c 0x20)
    || c == 0x85
    || c == 0xa0
    || c == 0x1680
    || (leb 0x2000 c && leb c 0x200a)
    || c == 0x2028
    || c == 0x2029
    || c == 0x202f
    || c == 0x205f
    || c == 0x3000

-- `s.strip()`, from the left and from the right
abbrev pub lstrip : String → String
lstrip [] = []
lstrip (c ∷ s) = let rest = lstrip s in if is_space c then rest else c ∷ s

abbrev pub rstrip : String → String
rstrip [] = []
rstrip (c ∷ s) = let rest = rstrip s in if is_space c && str_eq rest [] then [] else c ∷ rest

abbrev pub strip : String → String
strip s = rstrip (lstrip s)

-- The number of words of `s` when the scan stands inside a word (`true`) or outside.
abbrev pub words_from : Bool → String → ℕ
words_from inside [] = 0
words_from inside (c ∷ s) =
    let rest = words_from (if is_space c then false else true) s in
    if is_space c then rest else if inside then rest else suc rest

-- `len(s.split())`
abbrev pub word_count : String → ℕ
word_count s = words_from false s

-- `s.startswith(t)`
abbrev pub starts_with : String → String → Bool
starts_with s [] = true
starts_with [] (d ∷ t) = false
starts_with (c ∷ s) (d ∷ t) = code c == code d && starts_with s t

-- `a + b`
abbrev pub append : String → String → String
append [] t = t
append (c ∷ s) t = c ∷ append s t

-- `s[:-len(t)]` where `s.endswith(t)`
abbrev pub prefixed : Char → Option String → Option String
prefixed c none = none
prefixed c (some s) = some (c ∷ s)

abbrev pub strip_suffix : String → String → Option String
strip_suffix t [] = if str_eq "" t then some "" else none
strip_suffix t (c ∷ s) =
    let rest = strip_suffix t s in if str_eq (c ∷ s) t then some "" else prefixed c rest

len-append : (c t : String) → len (append c t) ≡ len c + len t
len-append [] t = omega arith
len-append (c ∷ s) t = omega (arith, len-append s t)

longer_ne : (c : Char) (s t : String) → str_eq (c ∷ append s t) t ≡ false
longer_ne c s t = elim (Bool-cases (str_eq (c ∷ append s t) t)) [
  | inr n ↦ n
  | inl same ↦
      let equal : suc (len (append s t)) ≡ len t = ap len ((eq_iff (c ∷ append s t) t).0 same) in
      absurd (omega (arith, equal, len-append s t))
]

pub strip_suffix-append : (t c : String) → strip_suffix t (append c t) ≡ some c
strip_suffix-append [] [] = refl
strip_suffix-append (d ∷ t) [] = rw (eq_refl (d ∷ t)) refl
strip_suffix-append t (c ∷ s) = rw (longer_ne c s t) (ap (prefixed c) (strip_suffix-append t s))

pub strip_suffix-some : (t s c : String) → strip_suffix t s ≡ some c → s ≡ append c t
strip_suffix-some t [] c h = elim (Bool-cases (str_eq "" t)) [
  | inl same ↦
      let nothing : "" ≡ c = ground (arith, same, h) in
      (eq_iff "" t).0 same ∙ ap (λ x. append x t) nothing
  | inr n ↦ absurd (ground (arith, n, h))
]
strip_suffix-some t (d ∷ s) c h = elim (Bool-cases (str_eq (d ∷ s) t)) [
  | inl same ↦
      let nothing : "" ≡ c = ground (arith, same, h) in
      (eq_iff (d ∷ s) t).0 same ∙ ap (λ x. append x t) nothing
  | inr n ↦
      peeled (strip_suffix t s) (λ r found. strip_suffix-some t s r found) (ground (arith, n, h))
]
  where
    peeled :
        (rest : Option String)
        → ((r : String) → rest ≡ some r → s ≡ append r t)
        → prefixed d rest ≡ some c
        → (d ∷ s) ≡ append c t
    peeled none known h' = cc
    peeled (some r) known h' =
        let whole : (d ∷ r) ≡ c = cc in ap (λ x. d ∷ x) (known r refl) ∙ ap (λ x. append x t) whole

-- `a == b` of optional texts
abbrev pub opt_eq : Option String → Option String → Bool
opt_eq none none = true
opt_eq none (some b) = false
opt_eq (some a) none = false
opt_eq (some a) (some b) = str_eq a b

pub opt_eq_refl : (a : Option String) → opt_eq a a ≡ true
opt_eq_refl none = refl
opt_eq_refl (some a) = eq_refl a

pub opt_eq→eq : (a b : Option String) → opt_eq a b ≡ true → a ≡ b
opt_eq→eq none none h = refl
opt_eq→eq none (some b) h = cc
opt_eq→eq (some a) none h = cc
opt_eq→eq (some a) (some b) h = ap some ((eq_iff a b).0 h)

pub opt_eq_ne : (a b : String) → a ≢ b → opt_eq (some a) (some b) ≡ false
opt_eq_ne a b h = elim (Bool-cases (str_eq a b)) [
  | inl e ↦ absurd (h ((eq_iff a b).0 e))
  | inr n ↦ n
]

-- An optional text as a condition
abbrev pub has_text : Option String → Bool
has_text none = false
has_text (some t) = not (str_eq t "")
