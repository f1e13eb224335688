-- ===== src/Libc/Text/Compare.antt =====
-- linux_libc_support.cc: `my_strcmp` and `my_strncmp` decide equality of C strings.
use Prim.Native.Nat.{Ordering}
use mathlib.Core.Option
use native_crash2java.Base.{
  ℕ, zero, suc, ◌<◌, ◌≡◌, refl, ◌≢◌, List, [], ◌∷◌, inl, inr, ℕ_discrete, some, arith, ◌==◌,
  if◌then◌else◌, length, All, ◌↔◌, ap, ◌∙◌, sym,
}
use native_crash2java.Libc.Text.Search.{c_string_cases}
use native_crash2java.Libc.Text.{
  Abi, signed_char, unsigned_char, rank, c_string, my_strcmp, my_strncmp,
}

-- Elements of `char`.
abbrev IsByte : ℕ → Type 0
IsByte c = c < 256

abbrev swap_sign : Ordering → Ordering
swap_sign Ordering.lt = Ordering.gt
swap_sign Ordering.eq = Ordering.eq
swap_sign Ordering.gt = Ordering.lt

rank_injective : (abi : Abi) (x y : ℕ) → x < 256 → y < 256 → rank abi x ≡ rank abi y → x ≡ y
rank_injective signed_char x y hx hy e = omega arith
rank_injective unsigned_char x y hx hy e = omega arith

-- One round of both loops, on characters that differ and on characters that agree.
strcmp_differ :
    (abi : Abi) (x y : ℕ) (a b : List ℕ)
    → x < 256
    → y < 256
    → x ≢ y
    → my_strcmp abi (x ∷ a) (y ∷ b) ≢ some Ordering.eq
unfolding my_strcmp
strcmp_differ abi x y a b hx hy ne e = ground (arith, rank_injective abi x y hx hy)

strcmp_agree :
    (abi : Abi) (x : ℕ) (a b : List ℕ)
    → my_strcmp abi (x ∷ a) (x ∷ b) ≡ (if x == 0 then some Ordering.eq else my_strcmp abi a b)
unfolding my_strcmp
strcmp_agree abi x a b = ground arith

strcmp_eq_sound :
    (abi : Abi) (a b s t : List ℕ)
    → All IsByte a
    → All IsByte b
    → c_string a ≡ some s
    → c_string b ≡ some t
    → my_strcmp abi a b ≡ some Ordering.eq
    → s ≡ t
strcmp_eq_sound abi [] b s t ha hb es et e = unfold c_string in cc
strcmp_eq_sound abi (x ∷ a) [] s t ha hb es et e = unfold c_string in cc
strcmp_eq_sound abi (x ∷ a) (y ∷ b) s t ha hb es et e = elim (ℕ_discrete x y) [
  | no ne ↦ absurd (strcmp_differ abi x y a b ha.0 hb.0 ne e)
  | yes same ↦ elim (c_string_cases x a s es) [
    | inl (z, p) ↦ elim (c_string_cases y b t et) [
      | inl (_, q) ↦ cc
      | inr (nz, _) ↦ absurd (nz (cc))
    ]
    | inr (nz, (s', p, ps)) ↦ elim (c_string_cases y b t et) [
      | inl (z, _) ↦ absurd (nz (cc))
      | inr (_, (t', q, qt)) ↦
          ground (arith, strcmp_eq_sound abi a b s' t' ha.1 hb.1 p q, strcmp_agree abi x a b)
    ]
  ]
]

strcmp_eq_complete :
    (abi : Abi) (a b s : List ℕ)
    → c_string a ≡ some s
    → c_string b ≡ some s
    → my_strcmp abi a b ≡ some Ordering.eq
strcmp_eq_complete abi [] b s es et = unfold c_string in cc
strcmp_eq_complete abi (x ∷ a) [] s es et = unfold c_string in cc
strcmp_eq_complete abi (x ∷ a) (y ∷ b) s es et = elim (c_string_cases x a s es) [
  | inl (z, p) ↦ elim (c_string_cases y b s et) [
    | inl (w, _) ↦ rw (z, w, strcmp_agree abi 0 a b)
    | inr (_, (t', q, qt)) ↦ cc
  ]
  | inr (nz, (s', p, ps)) ↦ elim (c_string_cases y b s et) [
    | inl (z, q) ↦ cc
    | inr (_, (t', q, qt)) ↦
        ground (arith, strcmp_eq_complete abi a b s' p (ground arith), strcmp_agree abi x a b)
  ]
]

-- `my_strcmp` returns 0 exactly on equal strings, whether `char` is signed or not.
pub my_strcmp-eq :
    (abi : Abi) (a b s t : List ℕ)
    → All IsByte a
    → All IsByte b
    → c_string a ≡ some s
    → c_string b ≡ some t
    → (my_strcmp abi a b ≡ some Ordering.eq) ↔ (s ≡ t)
my_strcmp-eq abi a b s t ha hb es et = (
  strcmp_eq_sound abi a b s t ha hb es et,
  λ e. strcmp_eq_complete abi a b s es (et ∙ ap some (sym e)),
)

-- Swapping the arguments negates the result.
pub my_strcmp-swap :
    (abi : Abi) (a b : List ℕ)
    → All IsByte a
    → All IsByte b
    → my_strcmp abi b a ≡ Option.map swap_sign (my_strcmp abi a b)
unfolding my_strcmp
my_strcmp-swap abi [] [] ha hb = refl
my_strcmp-swap abi [] (y ∷ b) ha hb = refl
my_strcmp-swap abi (x ∷ a) [] ha hb = refl
my_strcmp-swap abi (x ∷ a) (y ∷ b) ha hb =
    ground (arith, rank_injective abi x y ha.0 hb.0, my_strcmp-swap abi a b ha.1 hb.1)

strncmp_round :
    (abi : Abi) (x y : ℕ) (a b : List ℕ) (len : ℕ)
    → (x ≢ 0 → my_strncmp abi a b len ≡ my_strcmp abi a b)
    → my_strncmp abi (x ∷ a) (y ∷ b) (suc len) ≡ my_strcmp abi (x ∷ a) (y ∷ b)
unfolding my_strcmp my_strncmp
strncmp_round abi x y a b len h = ground arith

-- `my_strncmp` looks at no more than `len` characters, and agrees with `my_strcmp` where the first
-- string ends within them.
pub my_strncmp-strcmp :
    (abi : Abi) (a b s : List ℕ) (len : ℕ)
    → c_string a ≡ some s
    → length s < len
    → my_strncmp abi a b len ≡ my_strcmp abi a b
my_strncmp-strcmp abi a b s zero es h = absurd (omega arith)
my_strncmp-strcmp abi [] b s (suc len) es h = unfold c_string in cc
my_strncmp-strcmp abi (x ∷ a) [] s (suc len) es h = unfold my_strcmp my_strncmp in refl
my_strncmp-strcmp abi (x ∷ a) (y ∷ b) s (suc len) es h = strncmp_round abi x y a b len λ nz.
    elim (c_string_cases x a s es) [
      | inl (z, p) ↦ absurd (nz z)
      | inr (_, (t, q, p)) ↦ my_strncmp-strcmp abi a b t len q (omega (arith, ap length p))
    ]
