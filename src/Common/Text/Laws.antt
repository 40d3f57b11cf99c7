-- ===== src/Common/Text/Laws.antt =====
-- What the prefix and suffix tests decide, and that lowering a text is idempotent.
use Prim.Native.Char.{Char, code}
use Prim.Native.String.{String, [], ◌∷◌, ◌++◌}
use Prim.Native.Nat.{ℕ, ◌+◌}
use mathlib.Core.Path.{◌≡◌, refl, sym, ap, ◌∙◌}
use mathlib.Core.Logic.{◌↔◌, inl, inr}
use mathlib.Core.Bool.{true, ◌||◌, ◌&&◌}
use mathlib.Core.Option.{some}
use native.Mathlib.Omega.{arith}
use text.Mathlib.Text.{◌==◌}
use text.Mathlib.TextEquality.{eq_iff, Char-path}
use text.Mathlib.TextLemmas.{nil-append, cons-append, cons-eq-cons, cons≢nil}
use tds_wasm_ai.Common.Tests.{
  eqb, eqb_refl, leb, if◌then◌else◌, Bool-cases, or-eq-true, or-true_right,
}
use tds_wasm_ai.Common.Text.{strip_prefix, ends_with, to_ascii_lowercase, lower_char}

eqb→eq : (a b : ℕ) → eqb a b ≡ true → a ≡ b
eqb→eq a b h = ground arith

-- A prefix is stripped exactly if the text is the prefix and the rest.
pub strip_prefix_iff : (p s r : String) → (strip_prefix p s ≡ some r) ↔ (s ≡ p ++ r)
unfolding strip_prefix
strip_prefix_iff [] s r = rw nil-append ((λ h. cc), λ h. ap some h)
strip_prefix_iff (p ∷ ps) [] r = ((λ h. cc), λ h. absurd (cons≢nil (sym (h ∙ cons-append p ps r))))
strip_prefix_iff (p ∷ ps) (c ∷ s) r = elim (Bool-cases (eqb (code p) (code c))) [
  | inl same ↦
      let e : p ≡ c = Char-path p c (eqb→eq (code p) (code c) same) in
      rw (same, cons-append)
        (
          (λ h. cc (e, (strip_prefix_iff ps s r).0 h)),
          λ h. (strip_prefix_iff ps s r).1 ((cons-eq-cons).0 h).1,
        )
  | inr differ ↦
      rw (differ, cons-append)
        (
          (λ h. cc),
          λ h.
              cc (
                differ,
                eqb_refl (code c),
                ap (λ d. eqb (code d) (code c)) ((cons-eq-cons).0 (h)).0,
              ),
        )
]

nil-split : (p t : String) → [] ≡ p ++ t → t ≡ []
nil-split [] t e = sym (rw nil-append at e)
nil-split (c ∷ p) t e = absurd (cons≢nil (sym (e ∙ cons-append c p t)))

-- Where a text that ends in `t` begins with `c`, it is `t` itself or `t` ends what follows `c`.
cons_split :
    (t : String) (c : Char) (s p : String)
    → (c ∷ s) ≡ p ++ t
    → (((q : String) × (s ≡ q ++ t)) → ends_with t s ≡ true)
    → ((t == (c ∷ s)) || ends_with t s) ≡ true
cons_split t c s [] e later = rw ((eq_iff t (c ∷ s)).1 (sym (e ∙ nil-append t))) refl
cons_split t c s (d ∷ p) e later =
    or-true_right (t == (c ∷ s)) (ends_with t s)
      (later (p, ((cons-eq-cons).0 (e ∙ cons-append d p t)).1))

-- A suffix test succeeds exactly if the text is something and the suffix.
pub ends_with_iff : (t s : String) → (ends_with t s ≡ true) ↔ ((p : String) × (s ≡ p ++ t))
unfolding ends_with
ends_with_iff t [] = (
  (λ h. ([], rw nil-append (sym ((eq_iff t []).0 h)))),
  λ (p, e). (eq_iff t []).1 (nil-split p t e),
)
ends_with_iff t (c ∷ s) = (
  (λ h. elim (or-eq-true (t == (c ∷ s)) (ends_with t s) h) [
    | inl whole ↦ ([], rw nil-append (sym ((eq_iff t (c ∷ s)).0 whole)))
    | inr later ↦
        let (p, e) = (ends_with_iff t s).0 later in (c ∷ p, rw cons-append (ap (λ r. c ∷ r) e))
  ]),
  λ (p, e). cons_split t c s p e (ends_with_iff t s).1,
)

code-lower_char :
    (c : Char)
    → code (lower_char c) ≡ (if leb b'A' (code c) && leb (code c) b'Z' then code c + 32 else code c)
unfolding lower_char
code-lower_char c = ground arith

lower_char_idempotent : (c : Char) → lower_char (lower_char c) ≡ lower_char c
lower_char_idempotent c =
    Char-path (lower_char (lower_char c)) (lower_char c)
      (ground (arith, code-lower_char c, code-lower_char (lower_char c)))

pub to_ascii_lowercase_idempotent :
    (s : String) → to_ascii_lowercase (to_ascii_lowercase s) ≡ to_ascii_lowercase s
unfolding to_ascii_lowercase
to_ascii_lowercase_idempotent [] = refl
to_ascii_lowercase_idempotent (c ∷ s) =
    cc (lower_char_idempotent c, to_ascii_lowercase_idempotent s)
