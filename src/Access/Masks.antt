-- ===== src/Access/Masks.antt =====
-- AccessBase: Grant, Revoke and Check on masks of access types.
use mathlib.Core.Path.{ap₂}
use evgo.Shared.{
  ℕ, zero, suc, ◌+◌, ◌*◌, ◌/◌, ◌≡◌, refl, ap, ◌∙◌, Bool, true, false, not, nat_beq, arith,
}
use evgo.Access.{odd, from_bit, zip_bits, both, either, without, grant, revoke, check}

odd-bit : (b : Bool) (n : ℕ) → odd (from_bit b + 2 * n) ≡ b
odd-bit true n = ground arith
odd-bit false n = ground arith

half-bit : (b : Bool) (n : ℕ) → (from_bit b + 2 * n) / 2 ≡ n
half-bit true n = omega arith
half-bit false n = omega arith

bit_zero : (b : Bool) (n : ℕ) → from_bit b + 2 * n ≡ 0 → (b ≡ false) × (n ≡ 0)
bit_zero true n e = ground arith
bit_zero false n e = ground arith

-- a bit and the rest of a number
abbrev join : Bool → ℕ → ℕ
join b n = from_bit b + 2 * n

-- Two operations one after the other, at the lowest bit and at the rest.
zip-step :
    (f g : Bool → Bool → Bool) (w a b c : ℕ)
    → zip_bits f (suc w) (zip_bits g (suc w) a b) c
      ≡ join (f (g (odd a) (odd b)) (odd c)) (zip_bits f w (zip_bits g w (a / 2) (b / 2)) (c / 2))
unfolding zip_bits
zip-step f g w a b c =
    let x = g (odd a) (odd b) in
    let n = zip_bits g w (a / 2) (b / 2) in
    ap₂ (λ o h. join (f o (odd c)) (zip_bits f w h (c / 2))) (odd-bit x n) (half-bit x n)

zip-zero :
    (f : Bool → Bool → Bool) (w a b : ℕ)
    → zip_bits f (suc w) a b ≡ 0
    → (f (odd a) (odd b) ≡ false) × (zip_bits f w (a / 2) (b / 2) ≡ 0)
unfolding zip_bits
zip-zero f w a b e = bit_zero (f (odd a) (odd b)) (zip_bits f w (a / 2) (b / 2)) e

without_self : (x y : Bool) → both (without x y) y ≡ false
without_self x true = ground arith
without_self x false = ground arith

either_self : (x y : Bool) → both (either x y) y ≡ both y y
either_self true y = ground arith
either_self false y = refl

either_other : (x y z : Bool) → both y z ≡ false → both (either x y) z ≡ both x z
either_other x true z e = ground arith
either_other x false z e = ground arith

without_other : (x y z : Bool) → both y z ≡ false → both (without x y) z ≡ both x z
without_other x true z e = ground arith
without_other x false z e = ground arith

zip-without_self : (w a b : ℕ) → zip_bits both w (zip_bits without w a b) b ≡ 0
unfolding zip_bits
zip-without_self zero a b = refl
zip-without_self (suc w) a b =
    zip-step both without w a b b
    ∙ ap₂ join (without_self (odd a) (odd b)) (zip-without_self w (a / 2) (b / 2))

zip-either_self : (w a b : ℕ) → zip_bits both w (zip_bits either w a b) b ≡ zip_bits both w b b
unfolding zip_bits
zip-either_self zero a b = refl
zip-either_self (suc w) a b =
    zip-step both either w a b b
    ∙ ap₂ join (either_self (odd a) (odd b)) (zip-either_self w (a / 2) (b / 2))

-- An operation on other bits than those of `c` changes nothing there.
zip-other :
    (g : Bool → Bool → Bool)
    → ((x y z : Bool) → both y z ≡ false → both (g x y) z ≡ both x z)
    → (w a b c : ℕ) → zip_bits both w b c ≡ 0
    → zip_bits both w (zip_bits g w a b) c ≡ zip_bits both w a c
unfolding zip_bits
zip-other g other zero a b c apart = refl
zip-other g other (suc w) a b c apart =
    let (here, rest) = zip-zero both w b c apart in
    zip-step both g w a b c
    ∙ ap₂ join (other (odd a) (odd b) (odd c) here)
        (zip-other g other w (a / 2) (b / 2) (c / 2) rest)

check-zero : (t u : ℕ) → check t u ≡ false → zip_bits both 32 t u ≡ 0
unfolding check
check-zero t u e = ground arith

-- After an access type that has a bit is granted to a mask, it is allowed.
pub check-grant : (mask t : ℕ) → check t t ≡ true → check (grant mask t) t ≡ true
unfolding check grant
check-grant mask t some_bit = ap (λ n. not (nat_beq n 0)) (zip-either_self 32 mask t) ∙ some_bit

-- After an access type is revoked from a mask, no part of it is allowed.
pub check-revoke : (mask t : ℕ) → check (revoke mask t) t ≡ false
unfolding check revoke
check-revoke mask t = ap (λ n. not (nat_beq n 0)) (zip-without_self 32 mask t)

-- For two access types that share no bit, to grant or to revoke the first changes nothing for the
-- second.
pub check_other :
    (mask t u : ℕ)
    → check t u ≡ false
    → (check (grant mask t) u ≡ check mask u) × (check (revoke mask t) u ≡ check mask u)
unfolding check grant revoke
check_other mask t u apart =
    let none_shared = check-zero t u apart in
    (
      ap (λ n. not (nat_beq n 0)) (zip-other either either_other 32 mask t u none_shared),
      ap (λ n. not (nat_beq n 0)) (zip-other without without_other 32 mask t u none_shared),
    )
