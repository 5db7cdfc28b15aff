-- ===== src/PubkeyToken/Digits.antt =====
-- pubkey.token: the bytes that the loops of the base 58 decoder make are those of the number.
use toolkit_contracts.Base.{
  Bool-cases, List, Option-cases, Text, [], ap, arith, false, inl, inr, is_space, none, refl, some,
  suc, sym, zero, ℕ, ◌&&◌, ◌*◌, ◌+◌, ◌-◌, ◌/◌, ◌<◌, ◌==◌, ◌∙◌, ◌∷◌, ◌≡◌, ◌≤◌,
}
use toolkit_contracts.PubkeyToken.Base58.{decode_loop, digit_of, mul_add}

-- The number of bytes, the lowest one first.
abbrev pub bytes_value : List ℕ → ℕ
bytes_value [] = 0
bytes_value (b ∷ bs) = b + 256 * bytes_value bs

abbrev pub room : List ℕ → ℕ
room [] = 1
room (b ∷ bs) = 256 * room bs

-- The bytes after those in use are zero.
abbrev pub Unused : ℕ → List ℕ → Type 0
Unused zero bs = bytes_value bs ≡ 0
Unused (suc n) [] = Unit {0}
Unused (suc n) (b ∷ bs) = Unused n bs

Unused-tail : (n b : ℕ) (bs : List ℕ) → Unused n (b ∷ bs) → Unused (n - 1) bs
Unused-tail zero b bs h = omega (arith, h)
Unused-tail (suc n) b bs h = let e : suc n - 1 ≡ n = omega arith in rw e h

Unused-nothing : (n : ℕ) (bs : List ℕ) → n ≡ 0 → Unused n bs → bytes_value bs ≡ 0
Unused-nothing zero bs e h = h
Unused-nothing (suc n) bs e h = absurd (omega (arith, e))

carry_out : (c p : ℕ) → c * (256 * p) ≡ 256 * (c * p)
carry_out c p = grind arith

abbrev Multiplied : ℕ → List ℕ → List ℕ × ℕ × ℕ → Type 0
Multiplied carry bs r =
    (bytes_value r.0 + r.1 * room bs ≡ carry + 58 * bytes_value bs)
    × Unused r.2 r.0
    × (room r.0 ≡ room bs)

mul_add-Multiplied :
    (carry used : ℕ) (bs : List ℕ) → Unused used bs → Multiplied carry bs (mul_add carry used bs)
unfolding mul_add
mul_add-Multiplied carry used [] h = (omega arith, refl, refl)
mul_add-Multiplied carry used (b ∷ bs) h = elim (Bool-cases (carry == 0 && used == 0)) [
  | inl stop ↦
      let rest_zero = Unused-nothing used (b ∷ bs) (ground arith) h in
      rw stop (ground (arith, rest_zero), rest_zero, refl)
  | inr go ↦
      let (e, u, p) =
        mul_add-Multiplied ((carry + 58 * b) / 256) (used - 1) bs (Unused-tail used b bs h) in
      let out = mul_add ((carry + 58 * b) / 256) (used - 1) bs in
      rw go (omega (arith, e, carry_out out.1 (room bs)), u, omega (arith, p))
]

abbrev pub AllBytes : List ℕ → Type 0
AllBytes [] = Unit {0}
AllBytes (b ∷ bs) = (b < 256) × AllBytes bs

mul_add-AllBytes : (carry used : ℕ) (bs : List ℕ) → AllBytes bs → AllBytes (mul_add carry used bs).0
unfolding mul_add
mul_add-AllBytes carry used [] h = tt
mul_add-AllBytes carry used (b ∷ bs) h = elim (Bool-cases (carry == 0 && used == 0)) [
  | inl stop ↦ rw stop h
  | inr go ↦ rw go (omega arith, mul_add-AllBytes ((carry + 58 * b) / 256) (used - 1) bs h.1)
]

-- The number that the digits of a text stand for, after a number that is already read.
unfoldable pub base58_value : ℕ → Text → ℕ
unfolding digit_of
base58_value acc [] = acc
base58_value acc (x ∷ s) = elim (digit_of x) [ none ↦ acc | some d ↦ base58_value (acc * 58 + d) s ]

abbrev pub IsBase58 : Text → Type 0
IsBase58 [] = Unit {0}
IsBase58 (x ∷ s) = (is_space x ≡ false) × ((d : ℕ) × (digit_of x ≡ some d)) × IsBase58 s

base58_value_ge : (acc : ℕ) (s : Text) → acc ≤ base58_value acc s
unfolding base58_value
base58_value_ge acc [] = omega arith
base58_value_ge acc (x ∷ s) = elim (Option-cases (digit_of x)) [
  | inl bad ↦ rw (bad, base58_value) (omega arith)
  | inr (d, e) ↦
      let rest = base58_value_ge (acc * 58 + d) s in rw (e, base58_value) (omega (arith, rest))
]

no_carry : (c v p : ℕ) → 0 < p → v + c * p < p → c ≡ 0
no_carry c v p h l = grind arith

spent : (c v p t : ℕ) → c ≡ 0 → v + c * p ≡ t → v ≡ t
spent c v p t e h = grind arith

-- Digits of the base 58 whose number has room in the bytes, of which those not in use are zero, are
-- all read, and the bytes are then those of the number, as read on from what was there before.
pub decode_loop-base58_value :
    (s : Text) (bs : List ℕ) (used : ℕ)
    → IsBase58 s
    → Unused used bs
    → AllBytes bs
    → base58_value (bytes_value bs) s < room bs
    → (bs' : List ℕ) × (used' : ℕ) × (decode_loop s bs used ≡ some (bs', used', []))
      × (bytes_value bs' ≡ base58_value (bytes_value bs) s)
      × Unused used' bs'
      × AllBytes bs'
unfolding decode_loop base58_value
decode_loop-base58_value [] bs used d u small l = (bs, used, refl, refl, u, small)
decode_loop-base58_value (x ∷ s) bs used (sp, (d, e), rest) u small l =
    let out = mul_add d used bs in
    let (v, u', p) = mul_add-Multiplied d used bs u in
    let step : base58_value (bytes_value bs) (x ∷ s) ≡ base58_value (bytes_value bs * 58 + d) s =
      rw (e, base58_value) refl in
    let ge = base58_value_ge (bytes_value bs * 58 + d) s in
    let fits : base58_value (bytes_value bs * 58 + d) s < room bs = omega (arith, step, l) in
    let c : out.1 ≡ 0 =
      no_carry out.1 (bytes_value out.0) (room bs) (omega arith) (omega (arith, v)) in
    let exact : bytes_value out.0 ≡ bytes_value bs * 58 + d =
      spent out.1 (bytes_value out.0) (room bs) (bytes_value bs * 58 + d) c (omega (arith, v)) in
    let fits' : base58_value (bytes_value out.0) s < room out.0 = rw (exact, p) fits in
    let small' = mul_add-AllBytes d used bs small in
    let (bs', used', f, w, unused', bytes') =
      decode_loop-base58_value s out.0 out.2 rest u' small' fits' in
    (
      bs',
      used',
      ground (arith, sp, e, c, f),
      w ∙ ap (λ n. base58_value n s) exact ∙ sym step,
      unused',
      bytes',
    )
